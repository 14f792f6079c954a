-- ===== src/Strings.antt =====
-- Strings as lists of bytes, with their equality, and `Fixed_size_container` of
-- score/gateway_ipc_binding/fixed_size_container.hpp, which carries one in a message.
pub mod Fixed
mod Tests
use inc_someip_gateway.Base.{
  ℕ, ◌≡◌, ◌↔◌, refl, ap, Bool, true, false, ◌&&◌, List, [], ◌∷◌, ◌==◌, ==_iff, Eq, arith,
}

unfoldable pub list_beq : List ℕ → List ℕ → Bool
list_beq [] [] = true
list_beq [] (y ∷ ys) = false
list_beq (x ∷ xs) [] = false
list_beq (x ∷ xs) (y ∷ ys) = (x == y) && list_beq xs ys

pub list_beq_iff : (xs ys : List ℕ) → (list_beq xs ys ≡ true) ↔ (xs ≡ ys)
unfolding list_beq
list_beq_iff [] [] = (λ _. refl, λ _. refl)
list_beq_iff [] (y ∷ ys) = (λ e. cc, λ e. cc)
list_beq_iff (x ∷ xs) [] = (λ e. cc, λ e. cc)
list_beq_iff (x ∷ xs) (y ∷ ys) =
    (λ e. ground (arith, list_beq_iff xs ys), λ e. ground (arith, list_beq_iff xs ys))

instance abbrev pub string_eq : Eq (List ℕ)
string_eq = record { beq = list_beq; beq_iff = list_beq_iff }
