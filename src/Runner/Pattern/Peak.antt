-- ===== src/Runner/Pattern/Peak.antt =====
-- `maxRate` of a compiled plan, and `maxBurst`.
use crankfire.Prelude.{
  ◌≡◌, ◌≢◌, inl, inr, Bool, true, false, some, List, [], ◌∷◌, ◌++◌, arith, if◌then◌else◌,
  Bool-cases, All, ◌==◌, nat_eq, string_eq, text_eq, Float64,
}
use crankfire.Prelude.Int.{ℤ, pos, ◌≤ℤ◌, leb_ℤ}
use crankfire.Prelude.Int64.{add64}
use crankfire.Runner.Pattern.{
  LoadStep, LoadPattern, load_pattern_type_ramp, load_pattern_type_step, load_pattern_type_spike,
  PatternSegment, PatternPlan, append_segment, add_part, add_steps, add_pattern, add_patterns,
  empty_plan, finish, compile_pattern_plan, float_max, max_burst,
}

module _ (R : Float64) where
  open R use {F, of_int, lt, eq, lt_irrefl, lt_trans, lt_split, eq_of_int}

  -- No rate of the segment is above `m`.
  pub record Under (m : F) (seg : PatternSegment R) : Type 0 where
    pub from_under : lt m seg.from_rate ≡ false
    pub to_under : lt m seg.to_rate ≡ false

  float_max_bounds :
      (x y : F)
      → eq x x ≡ true
      → eq y y ≡ true
      → (lt (float_max R x y) x ≡ false)
        × (lt (float_max R x y) y ≡ false)
        × (eq (float_max R x y) (float_max R x y) ≡ true)
  unfolding float_max
  float_max_bounds x y hx hy = ground (arith, lt_irrefl x, lt_irrefl y, lt_trans y x y)

  not_under_mono : (x m s : F) → eq m m ≡ true → lt m s ≡ false → lt x m ≡ false → lt x s ≡ false
  not_under_mono x m s n h k = ground (arith, lt_split x m s n)

  All-Under-mono :
      (m x : F) (segs : List (PatternSegment R))
      → eq m m ≡ true
      → lt x m ≡ false
      → All (Under m) segs
      → All (Under x) segs
  All-Under-mono m x [] n k h = tt
  All-Under-mono m x (seg ∷ segs) n k h = (
    record {
      from_under = not_under_mono x m seg.from_rate n h.0.from_under k;
      to_under = not_under_mono x m seg.to_rate n h.0.to_under k;
    },
    All-Under-mono m x segs n k h.1,
  )

  All-snoc {κ ℓ} :
      {A : Type ℓ} (P : A → Type κ) (xs : List A) (a : A) → All P xs → P a → All P (xs ++ a ∷ [])
  All-snoc P [] a h k = (k, tt)
  All-snoc P (x ∷ xs) a h k = (h.0, All-snoc P xs a h.1 k)

  abbrev Peaks : PatternPlan R × ℤ → Type 0
  Peaks c = (eq c.0.max_rate c.0.max_rate ≡ true) × All (Under c.0.max_rate) c.0.segments

  append_segment-Peaks :
      (p : PatternPlan R) (offset duration from to n : ℤ)
      → Peaks (p, offset)
      → Peaks (
        append_segment R p (record {
          start = offset;
          duration = duration;
          from_rate = of_int from;
          to_rate = of_int to;
        }),
        n,
      )
  unfolding append_segment
  append_segment-Peaks p offset duration from to n h =
      let inner = float_max_bounds (of_int from) (of_int to) (eq_of_int from) (eq_of_int to) in
      let peak = float_max R (of_int from) (of_int to) in
      let outer = float_max_bounds p.max_rate peak h.0 inner.2 in
      (
        outer.2,
        All-snoc (Under (float_max R p.max_rate peak)) p.segments _
            (All-Under-mono p.max_rate (float_max R p.max_rate peak) p.segments h.0 outer.0 h.1)
            (record {
              from_under =
                  not_under_mono (float_max R p.max_rate peak) peak (of_int from) inner.2 inner.0
                    outer.1;
              to_under =
                  not_under_mono (float_max R p.max_rate peak) peak (of_int to) inner.2 inner.1
                    outer.1;
            }),
      )

  add_part-Peaks :
      (c : PatternPlan R × ℤ) (duration from to : ℤ)
      → Peaks c
      → Peaks (add_part R c duration from to)
  unfolding add_part
  add_part-Peaks c duration from to h = elim (Bool-cases (leb_ℤ duration (pos 0))) [
    | inl skip ↦ rw (skip, add_part) h
    | inr more ↦
        rw (more, add_part) (append_segment-Peaks c.0 c.1 duration from to (add64 c.1 duration) h)
  ]

  add_steps-Peaks :
      (c : PatternPlan R × ℤ) (ss : List LoadStep) → Peaks c → Peaks (add_steps R c ss)
  unfolding add_steps
  add_steps-Peaks c [] h = h
  add_steps-Peaks c (s ∷ ss) h =
      add_steps-Peaks (add_part R c s.duration s.rps s.rps) ss
        (add_part-Peaks c s.duration s.rps s.rps h)

  choose-Peaks :
      (b : Bool) (c d : PatternPlan R × ℤ) → Peaks c → Peaks d → Peaks (if b then c else d)
  choose-Peaks true c d h k = h
  choose-Peaks false c d h k = k

  add_pattern-Peaks :
      (c : PatternPlan R × ℤ) (p : LoadPattern) → Peaks c → Peaks (add_pattern R c p)
  unfolding add_pattern
  add_pattern-Peaks c p h =
      choose-Peaks (p.type == load_pattern_type_ramp) _ _
        (add_part-Peaks c p.duration p.from_rps p.to_rps h)
        (choose-Peaks (p.type == load_pattern_type_step) _ _ (add_steps-Peaks c p.steps h) (
          choose-Peaks (p.type == load_pattern_type_spike) _ _
            (add_part-Peaks c p.duration p.rps p.rps h) h))

  add_patterns-Peaks :
      (c : PatternPlan R × ℤ) (ps : List LoadPattern) → Peaks c → Peaks (add_patterns R c ps)
  unfolding add_patterns
  add_patterns-Peaks c [] h = h
  add_patterns-Peaks c (p ∷ ps) h =
      add_patterns-Peaks (add_pattern R c p) ps (add_pattern-Peaks c p h)

  finish_fields :
      (c : PatternPlan R × ℤ) (plan : PatternPlan R)
      → finish R c ≡ some plan
      → (plan.segments ≡ c.0.segments) × (plan.max_rate ≡ c.0.max_rate) × (plan.segments ≢ [])
  finish_fields c plan e = ground arith

  finish-Peaks :
      (c : PatternPlan R × ℤ) (plan : PatternPlan R)
      → Peaks c
      → finish R c ≡ some plan
      → (plan.segments ≢ []) × All (Under plan.max_rate) plan.segments
  finish-Peaks c plan h e = let (s, m, more) = finish_fields c plan e in (more, rw (s, m) h.1)

  pos_one-le-max_burst : (plan : PatternPlan R) → pos 1 ≤ℤ max_burst R (some plan)
  unfolding max_burst
  pos_one-le-max_burst plan = ground arith

  -- Of a compiled plan no segment starts or ends at a rate above `maxRate`, there is at least one
  -- segment, and the burst is at least 1.
  pub compile_pattern_plan-Under :
      (ps : List LoadPattern) (plan : PatternPlan R)
      → compile_pattern_plan R ps ≡ some plan
      → (plan.segments ≢ [])
        × All (Under plan.max_rate) plan.segments
        × (pos 1 ≤ℤ max_burst R (some plan))
  unfolding compile_pattern_plan empty_plan
  compile_pattern_plan-Under [] plan e = cc
  compile_pattern_plan-Under (p ∷ ps) plan e =
      let (more, under) =
        finish-Peaks (add_patterns R (empty_plan R, pos 0) (p ∷ ps)) plan
          (add_patterns-Peaks (empty_plan R, pos 0) (p ∷ ps) (eq_of_int (pos 0), tt)) e in
      (more, under, pos_one-le-max_burst plan)
