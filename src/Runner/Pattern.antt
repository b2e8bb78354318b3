-- ===== src/Runner/Pattern.antt =====
-- internal/runner/pattern_plan.go and the pattern types of options.go: a load pattern is compiled to
-- segments on a time line, which is then read at the time elapsed.
pub mod Pieces
pub mod Schedule
pub mod Peak
pub mod Silent
mod Tests
use crankfire.Prelude.{
  ◌+◌, String, not, Option, none, some, List, [], ◌∷◌, ◌++◌, if◌then◌else◌, ◌==◌, nat_eq, string_eq,
  text_eq, Float64,
}
use crankfire.Prelude.Int.{ℤ, pos, ltb_ℤ, leb_ℤ}
use crankfire.Prelude.Int64.{add64, sub64}

pub record LoadStep : Type 0 where
  pub rps : ℤ
  pub duration : ℤ

-- `type` is a string in the source too, so a pattern of an unknown type can be written.
pub record LoadPattern : Type 0 where
  pub name : String
  pub type : String
  pub from_rps : ℤ
  pub to_rps : ℤ
  pub duration : ℤ
  pub steps : List LoadStep
  pub rps : ℤ

abbrev pub load_pattern_type_ramp : String
load_pattern_type_ramp = "ramp"

abbrev pub load_pattern_type_step : String
load_pattern_type_step = "step"

abbrev pub load_pattern_type_spike : String
load_pattern_type_spike = "spike"

module _ (R : Float64) where
  open R use {F, of_int, add, sub, mul, div, lt, eq}

  pub record PatternSegment : Type 0 where
    pub start : ℤ
    pub duration : ℤ
    pub from_rate : F
    pub to_rate : F

  pub record PatternPlan : Type 0 where
    pub segments : List PatternSegment
    pub duration : ℤ
    pub max_rate : F

  -- math.Max, up to the sign of a zero result, and but for an infinite argument next to NaN.
  pub float_max : F → F → F
  float_max x y = if not (eq x x) then x else if not (eq y y) then y else if lt y x then x else y

  pub append_segment : PatternPlan → PatternSegment → PatternPlan
  append_segment p seg = record p {
    segments = p.segments ++ seg ∷ [];
    max_rate = float_max p.max_rate (float_max seg.from_rate seg.to_rate);
  }

  -- The loop's variables are the plan and the offset.
  abbrev Cursor : Type 0
  Cursor = PatternPlan × ℤ

  -- One segment, unless its duration is not positive.
  pub add_part : Cursor → ℤ → ℤ → ℤ → Cursor
  add_part (plan, offset) duration from to = if leb_ℤ duration (pos 0) then (plan, offset) else (
    append_segment plan (record {
      start = offset;
      duration = duration;
      from_rate = of_int from;
      to_rate = of_int to;
    }),
    add64 offset duration,
  )

  pub add_steps : Cursor → List LoadStep → Cursor
  add_steps c [] = c
  add_steps c (s ∷ ss) = add_steps (add_part c s.duration s.rps s.rps) ss

  pub add_pattern : Cursor → LoadPattern → Cursor
  add_pattern c p =
      if p.type == load_pattern_type_ramp
      then add_part c p.duration p.from_rps p.to_rps
      else if p.type == load_pattern_type_step
      then add_steps c p.steps
      else if p.type == load_pattern_type_spike
      then add_part c p.duration p.rps p.rps
      else c

  pub add_patterns : Cursor → List LoadPattern → Cursor
  add_patterns c [] = c
  add_patterns c (p ∷ ps) = add_patterns (add_pattern c p) ps

  pub empty_plan : PatternPlan
  empty_plan = record { segments = []; duration = pos 0; max_rate = of_int (pos 0) }

  abbrev finish : Cursor → Option PatternPlan
  finish (plan, offset) = elim plan.segments [
    | [] ↦ none
    | _ ∷ _ ↦ some (record plan { duration = offset })
  ]

  -- A nil plan is `none`.
  pub compile_pattern_plan : List LoadPattern → Option PatternPlan
  compile_pattern_plan [] = none
  compile_pattern_plan (p ∷ ps) = finish (add_patterns (empty_plan, pos 0) (p ∷ ps))

  abbrev clamp_unit : F → F
  clamp_unit progress =
      if lt progress (of_int (pos 0))
      then of_int (pos 0)
      else if lt (of_int (pos 1)) progress
      then of_int (pos 1)
      else progress

  -- The rate at a time `into` a segment.
  pub interpolate : F → F → ℤ → ℤ → F
  interpolate from to into duration =
      if eq from to
      then from
      else add from (mul (sub to from) (clamp_unit (div (of_int into) (of_int duration))))

  -- The search of `rateAt`. The pair (0, false) is `none`.
  pub find_rate : List PatternSegment → ℤ → Option F
  find_rate [] elapsed = none
  find_rate (seg ∷ segs) elapsed =
      let rest = find_rate segs elapsed in
      if ltb_ℤ elapsed seg.start
      then rest
      else if leb_ℤ (add64 seg.start seg.duration) elapsed
      then rest
      else if leb_ℤ seg.duration (pos 0)
      then rest
      else some (interpolate seg.from_rate seg.to_rate (sub64 elapsed seg.start) seg.duration)

  abbrev not_negative : ℤ → ℤ
  not_negative elapsed = if ltb_ℤ elapsed (pos 0) then pos 0 else elapsed

  pub rate_at : Option PatternPlan → ℤ → Option F
  rate_at none elapsed = none
  rate_at (some p) elapsed = find_rate p.segments (not_negative elapsed)

  pub max_burst : Option PatternPlan → ℤ
  max_burst none = pos 0
  max_burst (some p) = let burst = R.ceil p.max_rate in if ltb_ℤ burst (pos 1) then pos 1 else burst

  pub total_duration : Option PatternPlan → ℤ
  total_duration none = pos 0
  total_duration (some p) = p.duration
