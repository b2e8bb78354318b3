-- ===== src/Runner/Arrival/Pacing.antt =====
-- `uniformArrival.SetRate`, and the controller of a load pattern over its ticks.
use crankfire.Prelude.{
  ◌^◌, ◌≤◌, ◌<◌, ◌≡◌, refl, sym, ◌∙◌, inl, inr, true, false, Option, none, some, List, [], ◌∷◌,
  ◌++◌, arith, if◌then◌else◌, Bool-cases, Option-cases, All, nat_eq, string_eq, text_eq, Float64,
  le_f,
}
use crankfire.Prelude.Int.{ℤ, pos, pos_part, ◌≤ℤ◌}
use crankfire.Runner.Pattern.{LoadPattern, PatternPlan, compile_pattern_plan, rate_at}
use crankfire.Runner.Pattern.Pieces.{pieces, total, piece_rate, piece_rate-total}
use crankfire.Runner.Pattern.Schedule.{rate_at-compile_pattern_plan}
use crankfire.Runner.Arrival.{
  RateLimiter, Controller, uniform, poisson, uniform_set_rate, poisson_set_rate, set_rate,
  pattern_ticks,
}

module _ (R : Float64) (limiters : RateLimiter (R.F)) where
  open R use {F, of_int, lt}
  open limiters use {L}

  -- Whatever the rate, requests can pass the limiter: a positive rate becomes its limit, with a burst
  -- of at least one token, and a rate of at most 0 lifts the limit.
  pub uniform_set_rate_lem :
      (rps : F) (l : L)
      → let l' = uniform_set_rate R limiters rps l in
        (le_f R rps (of_int (pos 0)) ≡ true → limiters.limit l' ≡ none)
        × (le_f R rps (of_int (pos 0)) ≡ false
            → (limiters.limit l' ≡ some rps) × (pos 1 ≤ℤ limiters.burst l'))
  unfolding uniform_set_rate
  uniform_set_rate_lem rps l = (
    λ e. rw e (limiters.limit-set_burst _ _ ∙ limiters.limit-set_limit l none),
    λ e. rw e (
      limiters.limit-set_burst _ _ ∙ limiters.limit-set_limit l (some rps),
      rw limiters.burst-set_burst (ground arith),
    ),
  )

  -- The controller paces by a rate.
  abbrev pub RunsAt : F → Controller R limiters → Type 0
  RunsAt rps (uniform none) = Unit {0}
  RunsAt rps (uniform (some l)) =
      limiters.limit l ≡ (if le_f R rps (of_int (pos 0)) then none else some rps)
  RunsAt rps (poisson rate) = rate ≡ (if lt rps (of_int (pos 0)) then of_int (pos 0) else rps)

  set_rate-RunsAt : (rps : F) (c : Controller R limiters) → RunsAt rps (set_rate R limiters rps c)
  unfolding set_rate uniform_set_rate poisson_set_rate
  set_rate-RunsAt rps (uniform none) = tt
  set_rate-RunsAt rps (uniform (some l)) = elim (Bool-cases (le_f R rps (of_int (pos 0)))) [
    | inl e ↦ rw e (limiters.limit-set_burst _ _ ∙ limiters.limit-set_limit l none)
    | inr e ↦ rw e (limiters.limit-set_burst _ _ ∙ limiters.limit-set_limit l (some rps))
  ]
  set_rate-RunsAt rps (poisson rate) = refl

  abbrev Running : Option (PatternPlan R) → ℤ → Type 0
  Running plan t = (rps : F) × (rate_at R plan t ≡ some rps)

  pattern_ticks-append :
      (plan : Option (PatternPlan R)) (c : Controller R limiters) (ticks later : List ℤ)
      → All (Running plan) ticks
      → pattern_ticks R limiters plan c (ticks ++ later)
        ≡ pattern_ticks R limiters plan (pattern_ticks R limiters plan c ticks).0 later
  unfolding pattern_ticks
  pattern_ticks-append plan c [] later h = refl
  pattern_ticks-append plan c (t ∷ ticks) later h =
      rw (h.0.1, pattern_ticks)
        (pattern_ticks-append plan (set_rate R limiters h.0.0 c) ticks later h.1)

  pattern_ticks_one :
      (plan : Option (PatternPlan R)) (c : Controller R limiters) (t : ℤ) (later : List ℤ)
      → ((rps : F)
          → rate_at R plan t ≡ some rps
          → pattern_ticks R limiters plan c (t ∷ []) ≡ (set_rate R limiters rps c, false))
        × (rate_at R plan t ≡ none → pattern_ticks R limiters plan c (t ∷ later) ≡ (c, true))
  unfolding pattern_ticks
  pattern_ticks_one plan c t later = (λ rps e. rw (e, pattern_ticks), λ e. rw (e, pattern_ticks))

  -- A tick lies in the load patterns exactly when the plan has a rate then.
  Running-of_lt :
      (ps : List LoadPattern) (t : ℤ)
      → total (pieces ps) < 2 ^ 63
      → pos_part t < total (pieces ps)
      → Running (compile_pattern_plan R ps) t
  Running-of_lt ps t l h = elim (Option-cases (rate_at R (compile_pattern_plan R ps) t)) [
    | inr found ↦ found
    | inl over ↦ absurd (
        omega (
          arith,
          (piece_rate-total R (pieces ps) (pos_part t)).0
              (sym (rate_at-compile_pattern_plan R ps t l) ∙ over),
        ))
  ]

  All-Running :
      (ps : List LoadPattern) (ticks : List ℤ)
      → total (pieces ps) < 2 ^ 63
      → All (λ t. pos_part t < total (pieces ps)) ticks
      → All (Running (compile_pattern_plan R ps)) ticks
  All-Running ps [] l h = tt
  All-Running ps (t ∷ ticks) l h = (Running-of_lt ps t l h.0, All-Running ps ticks l h.1)

  -- The pattern controller over ticks that all lie in the load patterns paces by the rate of the last
  -- one, read from the patterns themselves, and goes on; the first tick at or after their end stops
  -- it, leaves the pace as it was and ignores the ticks behind. The durations together stay below
  -- 2^63 nanoseconds.
  pub pattern_ticks_lem :
      (ps : List LoadPattern) (c : Controller R limiters) (ticks : List ℤ) (last : ℤ)
      → total (pieces ps) < 2 ^ 63
      → All (λ t. pos_part t < total (pieces ps)) ticks
      → ((rps : F)
          → piece_rate R (pieces ps) (pos_part last) ≡ some rps
          → let r = pattern_ticks R limiters (compile_pattern_plan R ps) c (ticks ++ last ∷ []) in
            RunsAt rps r.0 × (r.1 ≡ false))
        × ((later : List ℤ)
            → total (pieces ps) ≤ pos_part last
            → pattern_ticks R limiters (compile_pattern_plan R ps) c (ticks ++ last ∷ later)
              ≡ ((pattern_ticks R limiters (compile_pattern_plan R ps) c ticks).0, true))
  pattern_ticks_lem ps c ticks last l h =
      let plan = compile_pattern_plan R ps in
      let running = All-Running ps ticks l h in
      let c' = (pattern_ticks R limiters plan c ticks).0 in
      let rate = rate_at-compile_pattern_plan R ps last l in
      (
        λ rps e.
            rw
              (pattern_ticks-append plan c ticks (last ∷ []) running
                ∙ (pattern_ticks_one plan c' last []).0 rps (rate ∙ e))
              (set_rate-RunsAt rps c', refl),
        λ later e.
            pattern_ticks-append plan c ticks (last ∷ later) running
            ∙ (pattern_ticks_one plan c' last later).1
                (rate ∙ (piece_rate-total R (pieces ps) (pos_part last)).1 e),
      )
