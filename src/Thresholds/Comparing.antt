-- ===== src/Thresholds/Comparing.antt =====
-- When a value compares with that of a threshold.
use crankfire.Prelude.{
  String, ◌≡◌, ◌↔◌, ◌⊎◌, inl, inr, true, false, arith, nat_eq, string_eq, Float64, zero_f,
}
use crankfire.Prelude.Int.{pos}
use text.Mathlib.TextEquality.{eq_iff}
use crankfire.Thresholds.{float_abs, close_to, compare_values}

module _ (R : Float64) where
  open R use {F, of_int, sub, div, lt}

  -- Not further apart than 1e-9: the difference, or its opposite where it is negative.
  abbrev pub IsNear : F → F → Type 0
  IsNear x y =
      let d = sub x y in
      let limit = div (of_int (pos 1)) (of_int (pos 1_000_000_000)) in
      ((lt d (zero_f R) ≡ true) × (lt (sub (zero_f R) d) limit ≡ true))
      ⊎ ((lt d (zero_f R) ≡ false) × (lt d limit ≡ true))

  -- The five operators.
  abbrev pub Compares : F → String → F → Type 0
  Compares v op want =
      ((op ≡ "<") × (lt v want ≡ true))
      ⊎ (((op ≡ "<=") × ((lt v want ≡ true) ⊎ IsNear v want))
          ⊎ (((op ≡ ">") × (lt want v ≡ true))
              ⊎ (((op ≡ ">=") × ((lt want v ≡ true) ⊎ IsNear v want))
                  ⊎ ((op ≡ "==") × IsNear v want))))

  close_to-IsNear : (v want : F) → (close_to R v want ≡ true) ↔ IsNear v want
  unfolding float_abs
  close_to-IsNear v want = ground arith

  pub compare_values-Compares :
      (v : F) (op : String) (want : F) → compare_values R v op want ≡ true → Compares v op want
  unfolding compare_values
  compare_values-Compares v op want h = ground (
    arith,
    h,
    close_to-IsNear v want,
    eq_iff op "<",
    eq_iff op "<=",
    eq_iff op ">",
    eq_iff op ">=",
    eq_iff op "==",
  )

  pub Compares-compare_values :
      (v : F) (op : String) (want : F) → Compares v op want → compare_values R v op want ≡ true
  unfolding compare_values
  Compares-compare_values v op want (inl (e, h)) = rw (e, compare_values) h
  Compares-compare_values v op want (inr (inl (e, h))) =
      rw (e, compare_values) (ground (arith, h, close_to-IsNear v want))
  Compares-compare_values v op want (inr (inr (inl (e, h)))) = rw (e, compare_values) h
  Compares-compare_values v op want (inr (inr (inr (inl (e, h))))) =
      rw (e, compare_values) (ground (arith, h, close_to-IsNear v want))
  Compares-compare_values v op want (inr (inr (inr (inr (e, h))))) =
      rw (e, compare_values) ((close_to-IsNear v want).1 h)
