-- ===== src/Strings/Fixed.antt =====
-- `Fixed_string`: a length, and an array of `max_size` characters. The characters behind the length
-- count for nothing.
use inc_someip_gateway.Base.{
  ℕ, zero, suc, ◌-◌, ◌≤◌, ◌<◌, ◌≡◌, ◌↔◌, refl, ap, Bool, true, ◌&&◌, List, [], ◌∷◌, ◌++◌, ◌==◌,
  arith, length, replicate, Result, ok, err, if◌then◌else◌, ltb, length-append, length-replicate,
}
use inc_someip_gateway.Strings.{list_beq, list_beq_iff}

-- `Gateway_ipc_binding_error` of score/gateway_ipc_binding/error.hpp.
pub data Error : Type 0 where
  fixed_size_container_too_small : Error

pub record FixedString : Type 0 where
  pub size : ℕ
  pub chars : List ℕ

-- The first `n` characters.
unfoldable pub take : ℕ → List ℕ → List ℕ
take zero xs = []
take (suc n) [] = []
take (suc n) (x ∷ xs) = x ∷ take n xs

unfoldable pub fixed_string_from_string : ℕ → List ℕ → Result Error FixedString
fixed_string_from_string max_size value =
    if ltb max_size (length value)
    then err fixed_size_container_too_small
    else ok (record { size = length value; chars = value ++ replicate (max_size - length value) 0 })

unfoldable pub fixed_string_to_string : FixedString → List ℕ
fixed_string_to_string value = take value.size value.chars

-- `operator==`: the lengths, and the characters within the length.
unfoldable pub equals : FixedString → FixedString → Bool
equals lhs rhs =
    (lhs.size == rhs.size) && list_beq (take lhs.size lhs.chars) (take rhs.size rhs.chars)

unfoldable pub is_empty : FixedString → Bool
is_empty s = s.size == 0

-- The length lies within the array, and the array has its fixed length.
pub record IsFixed (max_size : ℕ) (s : FixedString) : Type 0 where
  pub fits : s.size ≤ max_size
  pub full : length s.chars ≡ max_size

take-append : (xs ys : List ℕ) → take (length xs) (xs ++ ys) ≡ xs
unfolding take
take-append [] ys = refl
take-append (x ∷ xs) ys = ap (◌∷◌ x) (take-append xs ys)

pub length-take : (n : ℕ) (xs : List ℕ) → n ≤ length xs → length (take n xs) ≡ n
unfolding take
length-take zero xs le = refl
length-take (suc n) [] le = elim le [ ]
length-take (suc n) (x ∷ xs) le = omega (arith, length-take n xs (omega arith))

-- A string that is written into a fixed string is read back unchanged; it is refused exactly when it
-- is longer than the array.
pub fixed_string_roundtrip :
    (max_size : ℕ) (value : List ℕ)
    → ((max_size < length value)
        ↔ (fixed_string_from_string max_size value ≡ err fixed_size_container_too_small))
      × ((s : FixedString)
          → fixed_string_from_string max_size value ≡ ok s
          → (fixed_string_to_string s ≡ value) × IsFixed max_size s)
unfolding fixed_string_from_string fixed_string_to_string
fixed_string_roundtrip max_size value = (
  (λ lt. ground arith, λ e. ground arith),
  λ s e.
      let same : record {
        size = length value;
        chars = value ++ replicate (max_size - length value) 0;
      }
          ≡ s =
        ground arith in
      rw (← same) (
        take-append value (replicate (max_size - length value) 0),
        ground (
          arith,
          length-append value (replicate (max_size - length value) 0),
          length-replicate {A = ℕ} (max_size - length value) 0,
        ),
      ),
)

-- Two fixed strings are equal, as `operator==` has it, exactly when they read as the same string.
equals_iff :
    (max_size : ℕ) (a b : FixedString)
    → IsFixed max_size a
    → IsFixed max_size b
    → (equals a b ≡ true) ↔ (fixed_string_to_string a ≡ fixed_string_to_string b)
unfolding equals fixed_string_to_string
equals_iff max_size a b va vb =
    let same = list_beq_iff (take a.size a.chars) (take b.size b.chars) in
    let la = length-take a.size a.chars (omega arith) in
    let lb = length-take b.size b.chars (omega arith) in
    (λ e. same.0 (ground arith), λ e. ground (arith, same.1 e, ap length e, la, lb))

pub length-le_of_ok :
    (max_size : ℕ) (value : List ℕ) (s : FixedString)
    → fixed_string_from_string max_size value ≡ ok s
    → length value ≤ max_size
unfolding fixed_string_from_string
length-le_of_ok max_size value s e = ground arith
