-- ===== src/Prelude/Samples.antt =====
-- The integers as an instance of the interface of float64, to run the definitions on.
use crankfire.Prelude.{◌/◌, ◌≡◌, true, false, arith, nat_eq, string_eq, text_eq, Float64}
use crankfire.Prelude.Int.{ℤ, pos, pos_part, ◌+ℤ◌, ◌-ℤ◌, ◌*ℤ◌, ltb_ℤ, beq_ℤ}

pub ltb_ℤ_irrefl : (x : ℤ) → ltb_ℤ x x ≡ false
ltb_ℤ_irrefl x = ground arith

pub ltb_ℤ_trans : (x y z : ℤ) → ltb_ℤ x y ≡ true → ltb_ℤ y z ≡ true → ltb_ℤ x z ≡ true
ltb_ℤ_trans x y z h k = ground arith

pub ltb_ℤ_split :
    (x y z : ℤ) → beq_ℤ y y ≡ true → ltb_ℤ x z ≡ true → ltb_ℤ y z ≡ false → ltb_ℤ x y ≡ true
ltb_ℤ_split x y z e h k = ground arith

pub beq_ℤ_refl : (x : ℤ) → beq_ℤ x x ≡ true
beq_ℤ_refl x = ground arith

abbrev pub int_floats : Float64
int_floats = record {
  F = ℤ;
  of_int = λ n. n;
  add = λ a b. a +ℤ b;
  sub = λ a b. a -ℤ b;
  mul = λ a b. a *ℤ b;
  div = λ a b. pos (pos_part a / pos_part b);
  lt = λ a b. ltb_ℤ a b;
  eq = λ a b. beq_ℤ a b;
  trunc = λ a. a;
  ceil = λ a. a;
  lt_irrefl = ltb_ℤ_irrefl;
  lt_trans = ltb_ℤ_trans;
  lt_split = ltb_ℤ_split;
  eq_of_int = beq_ℤ_refl;
}
