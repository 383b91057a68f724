-- ===== src/Base/Floats.antt =====
-- Python floats are not modelled digit by digit: their type and the operations that the code uses
-- are an instance argument, with the one law of the order that a theorem needs.
use mathlib.Core.Path.{◌≡◌}
use mathlib.Core.Bool.{Bool, false}
use Prim.Native.Nat.{ℕ}
use tikblog_unsubscribe_plat.Base.Tests.{if◌then◌else◌}

pub record Floats (F : Type 0) : Type 0 where
  pub zero_float : F
  pub mul : F → F → F
  -- `a / b` on two ints
  pub div : ℕ → ℕ → F
  pub lt : F → F → Bool
  pub lt_irrefl : (x : F) → lt x x ≡ false

module _ {F : Type 0} ⦃fl : Floats F⦄ where
  -- The built-in `min(a, b)`: the second argument only if it is smaller.
  unfoldable pub py_min : F → F → F
  py_min a b = if fl.lt b a then b else a
