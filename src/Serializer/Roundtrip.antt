-- ===== src/Serializer/Roundtrip.antt =====
-- What is serialized is read back.
use inc_someip_gateway.Base.{
  ℕ, zero, suc, ◌≡◌, ◌≤◌, ◌<◌, refl, ap, ◌∙◌, List, [], ◌∷◌, none, some, length, arith,
}
use inc_someip_gateway.Strings.Fixed.{take}
use inc_someip_gateway.Serializer.{
  ok, serialization_failure, PreSerialized, copy_to, serialize, deserialize,
}

-- The message that the object holds.
abbrev pub message : PreSerialized → List ℕ
message o = take o.size o.bytes

-- The message lies within the object.
abbrev pub IsHeld : PreSerialized → Type 0
IsHeld o = o.size ≤ length o.bytes

pub take-copy_to :
    (n : ℕ) (xs ys : List ℕ)
    → n ≤ length xs
    → n ≤ length ys
    → take n (copy_to (take n xs) ys) ≡ take n xs
unfolding take copy_to
take-copy_to zero xs ys le room = refl
take-copy_to (suc n) [] ys le room = elim le [ ]
take-copy_to (suc n) (x ∷ xs) [] le room = elim room [ ]
take-copy_to (suc n) (x ∷ xs) (y ∷ ys) le room =
    ap (◌∷◌ x) (take-copy_to n xs ys (omega arith) (omega arith))

pub length-copy_to : (xs ys : List ℕ) → length (copy_to xs ys) ≡ length ys
unfolding copy_to
length-copy_to [] ys = refl
length-copy_to (x ∷ xs) [] = refl
length-copy_to (x ∷ xs) (y ∷ ys) = ap suc (length-copy_to xs ys)

-- A message that is held by its object and fits the buffer is serialized into it, and deserializing
-- the written bytes, with a serializer that allows their number and an object with room for it, gives
-- an object that holds the same message. A message that is larger than the buffer is refused, and
-- then the buffer is as it was.
serialize-roundtrip :
    (buffer : List ℕ) (buffer_size max_size : ℕ) (o target : PreSerialized)
    → IsHeld o
    → buffer_size ≤ length buffer
    → max_size ≤ length target.bytes
    → (buffer_size < o.size
        → serialize (some buffer) buffer_size (some o) ≡ (serialization_failure, some buffer, none))
      × (o.size ≤ buffer_size
          → o.size ≤ max_size
          → (b : List ℕ) × (o' : PreSerialized) × (serialize (some buffer) buffer_size (some o)
              ≡ (ok, some b, some o.size))
            × (length b ≡ length buffer)
            × (deserialize (some max_size) (some b) o.size (some target) ≡ (ok, some o'))
            × (message o' ≡ message o)
            × IsHeld o')
unfolding serialize deserialize
serialize-roundtrip buffer buffer_size max_size o target held fits room = (
  λ lt. ground arith,
  λ le small.
      let b : List ℕ = copy_to (take o.size o.bytes) buffer in
      let long : length b ≡ length buffer = length-copy_to (take o.size o.bytes) buffer in
      let there : take o.size b ≡ take o.size o.bytes =
        take-copy_to o.size o.bytes buffer held (omega arith) in
      (
        b,
        record { size = o.size; bytes = copy_to (take o.size b) target.bytes },
        ground arith,
        long,
        ground arith,
        take-copy_to o.size b target.bytes (omega arith) (omega arith) ∙ there,
        omega (arith, length-copy_to (take o.size b) target.bytes),
      ),
)
