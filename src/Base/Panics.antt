-- ===== src/Base/Panics.antt =====
-- A run of Go code that ends with a value or by a run-time panic (an index or a slice out of range,
-- a nil pointer).
use mathlib.Core.Bool.{Bool, true, false}

pub data Run {ℓ} (A : Type ℓ) : Type ℓ where
  ok : A → Run A
  panic : Run A

infixl 5 ◌>>=◌
abbrev pub ◌>>=◌ {ℓ κ} : {A : Type ℓ} {B : Type κ} → Run A → (A → Run B) → Run B
ok a >>= f = f a
panic >>= f = panic

-- The value is there if the test passes.
abbrev pub checked {ℓ} : {A : Type ℓ} → Bool → A → Run A
checked true a = ok a
checked false a = panic

-- A bounds check by itself.
abbrev pub in_range : Bool → Run (Unit {0})
in_range b = checked b tt
