-- ===== src/Runner/Arrival.antt =====
-- internal/runner/arrival.go, and `runPatternController` of runner.go: pacing of the requests, and the
-- controller that moves the rate along a load pattern.
pub mod Pacing
use crankfire.Prelude.{
  ◌-◌, ◌^◌, ◌≡◌, Bool, true, false, Option, none, some, List, [], ◌∷◌, if◌then◌else◌, ◌==◌, nat_eq,
  string_eq, text_eq, Float64, le_f,
}
use crankfire.Prelude.Int.{ℤ, pos, ltb_ℤ}
use crankfire.Runner.Options.{Options, arrival_model_poisson}
use crankfire.Runner.Pattern.{PatternPlan, rate_at}

-- golang.org/x/time/rate's Limiter: its limit, `none` for `rate.Inf`, and its burst.
pub record RateLimiter (F : Type 0) : Type 1 where
  pub L : Type 0
  pub limit : L → Option F
  pub burst : L → ℤ
  pub set_limit : Option F → L → L
  pub set_burst : ℤ → L → L
  pub limit-set_limit : (l : L) (f : Option F) → limit (set_limit f l) ≡ f
  pub burst-set_limit : (l : L) (f : Option F) → burst (set_limit f l) ≡ burst l
  pub limit-set_burst : (l : L) (b : ℤ) → limit (set_burst b l) ≡ limit l
  pub burst-set_burst : (l : L) (b : ℤ) → burst (set_burst b l) ≡ b

module _ (R : Float64) (limiters : RateLimiter (R.F)) where
  open R use {F, of_int, mul, div, lt, ceil, trunc}
  open limiters use {L, set_limit, set_burst}

  abbrev at_least_one : ℤ → ℤ
  at_least_one burst = if ltb_ℤ burst (pos 1) then pos 1 else burst

  pub uniform_set_rate : F → L → L
  uniform_set_rate rps l =
      if le_f R rps (of_int (pos 0))
      then set_burst (pos 0) (set_limit none l)
      else set_burst (at_least_one (ceil rps)) (set_limit (some rps) l)

  pub poisson_set_rate : F → F
  poisson_set_rate rps = if lt rps (of_int (pos 0)) then of_int (pos 0) else rps

  abbrev max_int64 : ℤ
  max_int64 = pos (2 ^ 63 - 1)

  abbrev capped : F → F
  capped delay = if lt (of_int max_int64) delay then of_int max_int64 else delay

  -- One draw of the sampler, whose state is `S`; a nil sampler is `none`.
  pub next_delay {ℓ} : {S : Type ℓ} → F → Option (S → F × S) → S → ℤ × S
  next_delay rate none s = (pos 0, s)
  next_delay rate (some sample) s =
      let (value, s') = sample s in
      if le_f R rate (of_int (pos 0))
      then (pos 0, s)
      else (trunc (capped (div (mul (of_int (pos 1_000_000_000)) value) rate)), s')

  -- A nil limiter is `none`. The sampler of a Poisson controller is left to `next_delay`.
  pub data Controller : Type 0 where
    uniform : Option L → Controller
    poisson : F → Controller

  pub set_rate : F → Controller → Controller
  set_rate rps (uniform none) = uniform none
  set_rate rps (uniform (some l)) = uniform (some (uniform_set_rate rps l))
  set_rate rps (poisson rate) = poisson (poisson_set_rate rps)

  abbrev or_zero : Option F → F
  or_zero none = of_int (pos 0)
  or_zero (some rate) = rate

  -- The rate at the start: that of the plan at time 0, or 0, and without a plan the option's.
  pub base_rate : Options L → Option (PatternPlan R) → F
  base_rate o none = of_int o.rate_per_second
  base_rate o (some plan) = or_zero (rate_at R (some plan) (pos 0))

  abbrev paced : F → Option (PatternPlan R) → Controller → Controller
  paced rate none c = c
  paced rate (some plan) c = set_rate rate c

  abbrev made : Option (ℤ → L) → ℤ → Option L
  made none rps = none
  made (some factory) rps = some (factory rps)

  pub new_arrival_controller : Options L → Option (PatternPlan R) → Controller
  new_arrival_controller o plan =
      if o.arrival_model == arrival_model_poisson
      then set_rate (base_rate o plan) (poisson (of_int (pos 0)))
      else paced (base_rate o plan) plan (uniform (made o.limiter_factory o.rate_per_second))

  -- The loop of the pattern controller over its ticks: the controller at the end, and whether a tick
  -- found the pattern over. The context's end is the end of the list.
  pub pattern_ticks : Option (PatternPlan R) → Controller → List ℤ → Controller × Bool
  pattern_ticks plan c [] = (c, false)
  pattern_ticks plan c (elapsed ∷ ticks) = elim (rate_at R plan elapsed) [
    | none ↦ (c, true)
    | some rps ↦ pattern_ticks plan (set_rate rps c) ticks
  ]

  abbrev initial : Option F → Controller → Controller
  initial none c = c
  initial (some rps) c = set_rate rps c

  -- It cancels the scheduler's context however it returns.
  pub run_pattern_controller : Option (PatternPlan R) → Controller → List ℤ → Controller × Bool
  run_pattern_controller none c ticks = (c, true)
  run_pattern_controller (some plan) c ticks =
      pattern_ticks (some plan) (initial (rate_at R (some plan) (pos 0)) c) ticks
