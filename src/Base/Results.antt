-- ===== src/Base/Results.antt =====
-- `score::Result`: a value, or the error that `MakeUnexpected` carries.
use mathlib.Core.Bool.{Bool, true, false}
use mathlib.Core.Option.{Option, none, some}

pub data Result {ℓ κ} (E : Type ℓ) (A : Type κ) : Type (ℓ ⊔ κ) where
  ok : A → Result E A
  err : E → Result E A

module _ {ℓ κ} {E : Type ℓ} {A : Type κ} where
  -- The test `if (result)`.
  abbrev pub has_value : Result E A → Bool
  has_value (ok a) = true
  has_value (err e) = false

module _ {ℓ} {A : Type ℓ} where
  abbrev pub is_some : Option A → Bool
  is_some none = false
  is_some (some a) = true

  abbrev pub value_or : Option A → A → A
  value_or none d = d
  value_or (some a) d = a
