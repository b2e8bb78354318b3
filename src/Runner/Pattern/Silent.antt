-- ===== src/Runner/Pattern/Silent.antt =====
-- The load patterns that compile to no plan.
use crankfire.Prelude.{
  only_one, ◌≡◌, refl, ◌↔◌, inl, inr, Bool, true, false, ◌&&◌, ◌||◌, none, List, [], ◌∷◌, ◌++◌,
  arith, Bool-cases, ◌==◌, nat_eq, string_eq, Float64,
}
use crankfire.Prelude.Int.{ℤ, pos, ltb_ℤ, leb_ℤ}
use crankfire.Runner.Pattern.{
  LoadStep, LoadPattern, PatternPlan, append_segment, add_part, add_steps, add_pattern,
  add_patterns, empty_plan, compile_pattern_plan,
}

-- Whether a step has some length.
abbrev pub any_lasting : List LoadStep → Bool
any_lasting [] = false
any_lasting (s ∷ ss) = ltb_ℤ (pos 0) s.duration || any_lasting ss

-- A pattern that takes some time: a ramp or a spike of some length, or a step pattern with such a step.
abbrev pub takes_time : LoadPattern → Bool
takes_time p =
    (p.type == "ramp" || p.type == "spike") && ltb_ℤ (pos 0) p.duration
    || p.type == "step" && any_lasting p.steps

abbrev pub any_takes_time : List LoadPattern → Bool
any_takes_time [] = false
any_takes_time (p ∷ ps) = takes_time p || any_takes_time ps

module _ (R : Float64) where
  abbrev has_any : {A : Type 0} → List A → Bool
  has_any [] = false
  has_any (x ∷ xs) = true

  abbrev started : PatternPlan R × ℤ → Bool
  started c = has_any c.0.segments

  has_any-append : {A : Type 0} (xs : List A) (x : A) → has_any (xs ++ x ∷ []) ≡ true
  has_any-append [] x = refl
  has_any-append (y ∷ xs) x = refl

  started-add_part :
      (c : PatternPlan R × ℤ) (duration from to : ℤ)
      → started (add_part R c duration from to) ≡ started c || ltb_ℤ (pos 0) duration
  unfolding add_part append_segment
  started-add_part (plan, offset) duration from to = elim (Bool-cases (leb_ℤ duration (pos 0))) [
    | inl short ↦ rw (add_part, short) (ground (arith, short))
    | inr long ↦ rw (add_part, long) (ground (arith, long, has_any-append plan.segments _))
  ]

  started-add_steps :
      (c : PatternPlan R × ℤ) (ss : List LoadStep)
      → started (add_steps R c ss) ≡ started c || any_lasting ss
  unfolding add_steps
  started-add_steps c [] = ground arith
  started-add_steps c (s ∷ ss) =
      let next = add_part R c s.duration s.rps s.rps in
      ground (arith, started-add_steps next ss, started-add_part c s.duration s.rps s.rps)

  started-add_pattern :
      (c : PatternPlan R × ℤ) (p : LoadPattern)
      → started (add_pattern R c p) ≡ started c || takes_time p
  unfolding add_pattern
  started-add_pattern c p = ground (
    arith,
    started-add_steps c p.steps,
    started-add_part c p.duration p.from_rps p.to_rps,
    started-add_part c p.duration p.rps p.rps,
    only_one p.type "ramp" "step" refl,
    only_one p.type "spike" "step" refl,
    only_one p.type "spike" "ramp" refl,
  )

  started-add_patterns :
      (c : PatternPlan R × ℤ) (ps : List LoadPattern)
      → started (add_patterns R c ps) ≡ started c || any_takes_time ps
  unfolding add_patterns
  started-add_patterns c [] = ground arith
  started-add_patterns c (p ∷ ps) =
      ground (arith, started-add_patterns (add_pattern R c p) ps, started-add_pattern c p)

  pub compile_pattern_plan-none :
      (ps : List LoadPattern) → (compile_pattern_plan R ps ≡ none) ↔ (any_takes_time ps ≡ false)
  unfolding compile_pattern_plan empty_plan
  compile_pattern_plan-none [] = (λ h. refl, λ h. refl)
  compile_pattern_plan-none (p ∷ ps) =
      ground (arith, started-add_patterns (empty_plan R, pos 0) (p ∷ ps))
