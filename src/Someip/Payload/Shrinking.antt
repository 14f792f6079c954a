-- ===== src/Someip/Payload/Shrinking.antt =====
-- What shrinking leaves of a payload.
use inc_someip_gateway.Base.{
  ℕ, zero, suc, ◌+◌, ◌-◌, ◌≡◌, ◌≤◌, ◌<◌, refl, sym, ap, true, false, List, [], ◌∷◌, ◌++◌, length,
  arith, drop,
}
use inc_someip_gateway.Strings.Fixed.{take, length-take}
use inc_someip_gateway.Someip.Payload.{Payload, payload_data, header, shrink, with_data}

pub take_upto : (n : ℕ) (xs ys : List ℕ) → length xs ≡ n → take n (xs ++ ys) ≡ xs
unfolding take
take_upto zero [] ys h = refl
take_upto zero (x ∷ xs) ys h = absurd (omega arith)
take_upto (suc n) [] ys h = absurd (omega arith)
take_upto (suc n) (x ∷ xs) ys h = ap (◌∷◌ x) (take_upto n xs ys (omega arith))

pub take-append_at :
    (n k : ℕ) (xs ys : List ℕ) → length xs ≡ n → take (n + k) (xs ++ ys) ≡ xs ++ take k ys
unfolding take
take-append_at zero k [] ys h = rw (let e : 0 + k ≡ k = omega arith in e) refl
take-append_at zero k (x ∷ xs) ys h = absurd (omega arith)
take-append_at (suc n) k [] ys h = absurd (omega arith)
take-append_at (suc n) k (x ∷ xs) ys h =
    rw (let e : suc n + k ≡ suc (n + k) = omega arith in e)
      (ap (◌∷◌ x) (take-append_at n k xs ys (omega arith)))

pub drop_after : (n : ℕ) (xs ys : List ℕ) → length xs ≡ n → drop n (xs ++ ys) ≡ ys
drop_after zero [] ys h = refl
drop_after zero (x ∷ xs) ys h = absurd (omega arith)
drop_after (suc n) [] ys h = absurd (omega arith)
drop_after (suc n) (x ∷ xs) ys h = drop_after n xs ys (omega arith)

pub take-drop : (n : ℕ) (xs : List ℕ) → take n xs ++ drop n xs ≡ xs
unfolding take
take-drop zero xs = refl
take-drop (suc n) [] = refl
take-drop (suc n) (x ∷ xs) = ap (◌∷◌ x) (take-drop n xs)

pub length-drop : (n : ℕ) (xs : List ℕ) → length (drop n xs) ≡ length xs - n
length-drop zero xs = omega arith
length-drop (suc n) [] = omega arith
length-drop (suc n) (x ∷ xs) = omega (arith, length-drop n xs)

take_nil : (n : ℕ) → take n [] ≡ []
unfolding take
take_nil zero = refl
take_nil (suc n) = refl

drop-take : (k n : ℕ) (xs : List ℕ) → drop k (take (k + n) xs) ≡ take n (drop k xs)
unfolding take
drop-take zero n xs = rw (let e : 0 + n ≡ n = omega arith in e) refl
drop-take (suc k) n [] = rw (let e : suc k + n ≡ suc (k + n) = omega arith in e) (sym (take_nil n))
drop-take (suc k) n (x ∷ xs) =
    rw (let e : suc k + n ≡ suc (k + n) = omega arith in e) (drop-take k n xs)

take-take : (k n : ℕ) (xs : List ℕ) → take k (take (k + n) xs) ≡ take k xs
unfolding take
take-take zero n xs = refl
take-take (suc k) n [] = rw (let e : suc k + n ≡ suc (k + n) = omega arith in e) refl
take-take (suc k) n (x ∷ xs) =
    rw (let e : suc k + n ≡ suc (k + n) = omega arith in e) (ap (◌∷◌ x) (take-take k n xs))

take-drop-take :
    (l h n : ℕ) (xs : List ℕ) → take h (drop l (take (l + h + n) xs)) ≡ take h (drop l xs)
take-drop-take l h n xs =
    rw (let e : l + h + n ≡ l + (h + n) = omega arith in e)
      (rw (drop-take l (h + n) xs) (take-take h n (drop l xs)))

-- A payload is shrunk to a size that it has: the data is then the first bytes of what it was, and
-- the header stays. A greater size is refused, and the payload stays as it is.
pub shrink_lem :
    (size : ℕ) (p : Payload)
    → (size ≤ length (payload_data p)
        → ((shrink size p).1 ≡ true)
          × (payload_data (shrink size p).0 ≡ take size (payload_data p))
          × (header (shrink size p).0 ≡ header p)
          × ((shrink size p).0.slot_handle ≡ p.slot_handle))
      × (length (payload_data p) < size → shrink size p ≡ (p, false))
unfolding shrink
shrink_lem size p = (
  λ fits.
      let shrunk : Payload = record p {
        bytes = take (p.lead_offset + p.header_size + size) p.bytes;
      } in
      let e : shrink size p ≡ (shrunk, true) = ground arith in
      rw e (
        refl,
        unfold payload_data in drop-take (p.lead_offset + p.header_size) size p.bytes,
        unfold header in take-drop-take p.lead_offset p.header_size size p.bytes,
        refl,
      ),
  λ large. ground arith,
)

-- The data of a payload that is written as a whole.
pub payload_data-with_data :
    (m : List ℕ) (p : Payload)
    → p.lead_offset + p.header_size ≤ length p.bytes
    → payload_data (with_data m p) ≡ m
unfolding payload_data with_data
payload_data-with_data m p h =
    drop_after (p.lead_offset + p.header_size) (take (p.lead_offset + p.header_size) p.bytes) m
      (length-take (p.lead_offset + p.header_size) p.bytes h)
