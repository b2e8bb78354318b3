-- ===== src/Prelude/Reals.antt =====
-- Go's float64. The rounding of the operations is not described: the development takes the type and
-- its operations as a parameter, with laws of `<` that hold of all floats, NaN included.
use mathlib.Core.Path.{◌≡◌}
use mathlib.Core.Bool.{Bool, true, false, ◌||◌}
use crankfire.Prelude.Int.{ℤ, pos}

pub record Float64 : Type 1 where
  pub F : Type 0
  pub of_int : ℤ → F
  pub add : F → F → F
  pub sub : F → F → F
  pub mul : F → F → F
  pub div : F → F → F
  pub lt : F → F → Bool
  pub eq : F → F → Bool
  -- int(x), and int(math.Ceil(x)).
  pub trunc : F → ℤ
  pub ceil : F → ℤ
  pub lt_irrefl : (x : F) → lt x x ≡ false
  pub lt_trans : (x y z : F) → lt x y ≡ true → lt y z ≡ true → lt x z ≡ true
  -- A number, that is no NaN, lies on one side of any two floats in order.
  pub lt_split : (x y z : F) → eq y y ≡ true → lt x z ≡ true → lt y z ≡ false → lt x y ≡ true
  -- An integer converts to a number, never to NaN.
  pub eq_of_int : (n : ℤ) → eq (of_int n) (of_int n) ≡ true

module _ (R : Float64) where
  open R use {F, lt, eq}

  pub zero_f : F
  zero_f = R.of_int (pos 0)

  abbrev pub le_f : F → F → Bool
  le_f x y = lt x y || eq x y
