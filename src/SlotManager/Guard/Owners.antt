-- ===== src/SlotManager/Guard/Owners.antt =====
-- Counting the guards and the handles that own a slot.
use inc_someip_gateway.Base.{
  ℕ, zero, suc, ◌+◌, ◌≤◌, ◌≡◌, ◌≢◌, refl, ap, ◌&&◌, List, [], ◌∷◌, ◌++◌, some, if◌then◌else◌, ◌==◌,
  get_elem?, set, length, arith,
}
use inc_someip_gateway.SlotManager.Guard.{Guard}

-- One for a guard that holds slot `h`.
abbrev pub holds : ℕ → Guard → ℕ
holds h g = if g.has_manager && (g.handle == h) then 1 else 0

unfoldable pub owners : ℕ → List Guard → ℕ
owners h [] = 0
owners h (g ∷ gs) = holds h g + owners h gs

unfoldable pub occurrences : ℕ → List ℕ → ℕ
occurrences h [] = 0
occurrences h (r ∷ rs) = (if r == h then 1 else 0) + occurrences h rs

pub owners-set :
    (h i : ℕ) (g g' : Guard) (gs : List Guard)
    → get_elem? gs i ≡ some g
    → owners h (set gs i g') + holds h g ≡ owners h gs + holds h g'
unfolding owners
owners-set h i g g' [] e = absurd (cc)
owners-set h zero g g' (x ∷ gs) e = ground arith
owners-set h (suc i) g g' (x ∷ gs) e = omega (arith, owners-set h i g g' gs e)

pub get_elem?-set :
    (i j : ℕ) (g' : Guard) (gs : List Guard) → i ≢ j → get_elem? (set gs i g') j ≡ get_elem? gs j
get_elem?-set i j g' [] ne = refl
get_elem?-set zero zero g' (x ∷ gs) ne = absurd (ne refl)
get_elem?-set zero (suc j) g' (x ∷ gs) ne = refl
get_elem?-set (suc i) zero g' (x ∷ gs) ne = refl
get_elem?-set (suc i) (suc j) g' (x ∷ gs) ne = get_elem?-set i j g' gs (λ e. ne (ap suc e))

pub holds-le-owners :
    (h i : ℕ) (g : Guard) (gs : List Guard) → get_elem? gs i ≡ some g → holds h g ≤ owners h gs
unfolding owners
holds-le-owners h i g [] e = absurd (cc)
holds-le-owners h zero g (x ∷ gs) e = ground arith
holds-le-owners h (suc i) g (x ∷ gs) e = omega (arith, holds-le-owners h i g gs e)

pub owners-le : (h : ℕ) (gs : List Guard) → owners h gs ≤ length gs
unfolding owners
owners-le h [] = omega arith
owners-le h (x ∷ gs) = ground (arith, owners-le h gs)

pub occurrences-le : (h : ℕ) (rs : List ℕ) → occurrences h rs ≤ length rs
unfolding occurrences
occurrences-le h [] = omega arith
occurrences-le h (x ∷ rs) = ground (arith, occurrences-le h rs)

pub occurrences-append :
    (h : ℕ) (xs ys : List ℕ) → occurrences h (xs ++ ys) ≡ occurrences h xs + occurrences h ys
unfolding occurrences
occurrences-append h [] ys = omega arith
occurrences-append h (x ∷ xs) ys = omega (arith, occurrences-append h xs ys)
