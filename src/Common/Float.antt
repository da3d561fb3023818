-- ===== src/Common/Float.antt =====
-- Go's float64 and `math`: an unknown type with the operations that the program calls. The laws are
-- named where a theorem needs one.
use Prim.Native.Nat.{ℕ}
use mathlib.Core.Path.{◌≡◌}
use mathlib.Core.Bool.{Bool, true, false}
use vks.Common.Int.{ℤ}

pub record Float64 (F : Type 0) : Type 0 where
  -- `float64(n)` and `int(x)`
  pub of_int : ℤ → F
  pub to_int : F → ℤ
  -- the literal `m` / 10^`k`
  pub decimal : ℤ → ℕ → F
  pub add : F → F → F
  pub sub : F → F → F
  pub mul : F → F → F
  pub div : F → F → F
  pub sqrt : F → F
  pub ceil : F → F
  -- `x < y`, false if one is not a number
  pub lt : F → F → Bool
  -- `-math.MaxFloat64`
  pub lowest : F

-- IEEE 754: `<` is a strict order.
pub record IsStrictOrder {F : Type 0} (fl : Float64 F) : Type 0 where
  pub lt_irrefl : (x : F) → fl.lt x x ≡ false
  pub lt_trans : (x y z : F) → fl.lt x y ≡ true → fl.lt y z ≡ true → fl.lt x z ≡ true
