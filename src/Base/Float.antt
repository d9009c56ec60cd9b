-- ===== src/Base/Float.antt =====
-- The operations of Go's `float64` that the controllers use. antt has no floats, so the type and
-- its operations are a parameter of what uses them; nothing is assumed of them.
use Prim.Native.Nat.{ℕ}
use mathlib.Core.Bool.{Bool}

pub record Float (F : Type 0) : Type 0 where
  pub of_ℕ : ℕ → F
  pub mul : F → F → F
  pub div : F → F → F
  -- `x < y` and `x <= y`.
  pub lt : F → F → Bool
  pub le : F → F → Bool
  -- The conversion to an integer, for values that are not negative.
  pub to_ℕ : F → ℕ
