-- ===== src/Someip/Writing.antt =====
-- Bytes that are written one by one.
use inc_someip_gateway.Base.{
  ℕ, ◌+◌, ◌-◌, ◌≡◌, ◌≤◌, refl, sym, ap, List, [], ◌∷◌, ◌++◌, length, set, arith, drop, some, none,
  ◌<◌, ◌∙◌, Option-cases, inl, inr, length-set, length-append,
}
use mathlib.Core.List.{append_assoc}
use native.Mathlib.Decide.{dec_lt}
use inc_someip_gateway.Strings.Fixed.{take, length-take}
use inc_someip_gateway.Someip.{write_byte, write_bytes}
use inc_someip_gateway.Someip.Payload.Shrinking.{take-drop, length-drop}

set-append :
    (before : List ℕ) (o b : ℕ) (after : List ℕ)
    → set (before ++ o ∷ after) (length before) b ≡ before ++ b ∷ after
set-append [] o b after = refl
set-append (x ∷ before) o b after = ap (◌∷◌ x) (set-append before o b after)

write_byte-at :
    (before : List ℕ) (o b : ℕ) (after : List ℕ) (pos : ℕ)
    → pos ≡ length before
    → write_byte pos b (before ++ o ∷ after) ≡ some (before ++ b ∷ after)
unfolding write_byte
write_byte-at before o b after pos h =
    rw h (ground (arith, set-append before o b after, length-append before (o ∷ after)))

-- Bytes written behind `before` replace as many bytes.
pub write_bytes-at :
    (before bs old after : List ℕ) (pos : ℕ)
    → pos ≡ length before
    → length old ≡ length bs
    → write_bytes pos bs (before ++ (old ++ after)) ≡ some (before ++ (bs ++ after))
unfolding write_bytes
write_bytes-at before [] [] after pos h k = refl
write_bytes-at before [] (o ∷ old) after pos h k = absurd (omega arith)
write_bytes-at before (b ∷ bs) [] after pos h k = absurd (omega arith)
write_bytes-at before (b ∷ bs) (o ∷ old) after pos h k =
    let moved = append_assoc before (b ∷ []) (old ++ after) in
    let moved' = append_assoc before (b ∷ []) (bs ++ after) in
    let rest =
      write_bytes-at (before ++ b ∷ []) bs old after (pos + 1)
        (omega (arith, length-append before (b ∷ []))) (omega arith) in
    rw (write_byte-at before o b (old ++ after) pos h, write_bytes)
      (rw moved at (rw moved' at rest))

-- A list as its first bytes and the rest.
pub split_at :
    (n : ℕ) (m : List ℕ)
    → n ≤ length m
    → (first : List ℕ) × (rest : List ℕ) × (length first ≡ n)
      × (length rest ≡ length m - n)
      × (m ≡ first ++ rest)
split_at n m h = (take n m, drop n m, length-take n m h, length-drop n m, sym (take-drop n m))

length-write_byte :
    (pos b : ℕ) (m m' : List ℕ) → write_byte pos b m ≡ some m' → length m' ≡ length m
unfolding write_byte
length-write_byte pos b m m' e = ground (arith, length-set m pos b)

pub length-write_bytes :
    (pos : ℕ) (bs m m' : List ℕ) → write_bytes pos bs m ≡ some m' → length m' ≡ length m
unfolding write_bytes
length-write_bytes pos [] m m' e = ground arith
length-write_bytes pos (b ∷ bs) m m' e = elim (Option-cases (write_byte pos b m)) [
  | inl missing ↦ absurd (ground arith)
  | inr (m1, written) ↦
      length-write_bytes (pos + 1) bs m1 m' (ground arith) ∙ length-write_byte pos b m m1 written
]

write_byte_beyond : (pos b : ℕ) (m : List ℕ) → length m ≤ pos → write_byte pos b m ≡ none
unfolding write_byte
write_byte_beyond pos b m h = ground arith

-- Bytes that do not all have their place are not written.
pub write_bytes_beyond :
    (pos : ℕ) (bs m : List ℕ)
    → 0 < length bs
    → length m < pos + length bs
    → write_bytes pos bs m ≡ none
unfolding write_bytes
write_bytes_beyond pos [] m some_bytes h = elim some_bytes [ ]
write_bytes_beyond pos (b ∷ bs) m some_bytes h = elim (dec_lt pos (length m)) [
  | no beyond ↦ ground (arith, write_byte_beyond pos b m (omega arith))
  | yes within ↦ elim (Option-cases (write_byte pos b m)) [
    | inl missing ↦ ground arith
    | inr (m', written) ↦
        let same = length-write_byte pos b m m' written in
        ground (arith, write_bytes_beyond (pos + 1) bs m' (omega arith) (omega arith))
  ]
]
