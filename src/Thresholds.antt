-- ===== src/Thresholds.antt =====
-- internal/threshold/threshold.go: thresholds of a run. The messages of results and errors are left
-- out; the statistics are those fields of `metrics.Stats` that are read.
use crankfire.Prelude.{
  ◌<◌, min, max, String, Bool, true, false, ◌||◌, Option, none, some, List, [], ◌∷◌, map,
  if◌then◌else◌, ◌==◌, nat_eq, string_eq, Float64, zero_f,
}
use crankfire.Prelude.Int.{ℤ, pos, beq_ℤ}
pub mod Comparing
pub mod Evaluation
pub mod Parsing
mod Tests

pub record Stats (F : Type 0) : Type 0 where
  pub total : ℤ
  pub failures : ℤ
  pub min_latency_ms : F
  pub max_latency_ms : F
  pub mean_latency_ms : F
  pub p50_latency_ms : F
  pub p90_latency_ms : F
  pub p95_latency_ms : F
  pub p99_latency_ms : F
  pub requests_per_sec : F

pub record RunThreshold (F : Type 0) : Type 0 where
  pub metric : String
  pub aggregate : String
  pub operator : String
  pub value : F
  pub raw : String

pub record ThresholdOutcome (F : Type 0) : Type 0 where
  pub threshold : RunThreshold F
  pub actual : F
  pub pass : Bool

abbrev is_one_of : List String → String → Bool
is_one_of [] s = false
is_one_of (v ∷ valid) s = let rest = is_one_of valid s in if s == v then true else rest

pub is_valid_metric : String → Bool
is_valid_metric metric =
    is_one_of ("http_req_duration" ∷ "http_req_failed" ∷ "http_requests" ∷ []) metric

-- Without `mean`, which the documentation lists and `extract_latency_metric` reads.
pub is_valid_aggregate : String → Bool
is_valid_aggregate aggregate =
    is_one_of ("p50" ∷ "p90" ∷ "p95" ∷ "p99" ∷ "avg" ∷ "min" ∷ "max" ∷ "rate" ∷ "count" ∷ [])
      aggregate

pub is_valid_operator : String → Bool
is_valid_operator operator = is_one_of ("<" ∷ "<=" ∷ ">" ∷ ">=" ∷ "==" ∷ []) operator

module _ (R : Float64) where
  open R use {F, of_int, sub, div, lt}

  -- An error is `none`.
  pub extract_latency_metric : String → Stats F → Option F
  extract_latency_metric aggregate stats =
      if aggregate == "p50"
      then some stats.p50_latency_ms
      else if aggregate == "p90"
      then some stats.p90_latency_ms
      else if aggregate == "p95"
      then some stats.p95_latency_ms
      else if aggregate == "p99"
      then some stats.p99_latency_ms
      else if aggregate == "avg" || aggregate == "mean"
      then some stats.mean_latency_ms
      else if aggregate == "min"
      then some stats.min_latency_ms
      else if aggregate == "max"
      then some stats.max_latency_ms
      else none

  abbrev failure_rate : Stats F → F
  failure_rate stats =
      if beq_ℤ stats.total (pos 0)
      then zero_f R
      else div (of_int stats.failures) (of_int stats.total)

  pub extract_failure_metric : String → Stats F → Option F
  extract_failure_metric aggregate stats =
      if aggregate == "count"
      then some (of_int stats.failures)
      else if aggregate == "rate"
      then some (failure_rate stats)
      else none

  pub extract_request_metric : String → Stats F → Option F
  extract_request_metric aggregate stats =
      if aggregate == "count"
      then some (of_int stats.total)
      else if aggregate == "rate"
      then some stats.requests_per_sec
      else none

  pub extract_metric_value : RunThreshold F → Stats F → Option F
  extract_metric_value t stats =
      if t.metric == "http_req_duration"
      then extract_latency_metric t.aggregate stats
      else if t.metric == "http_req_failed"
      then extract_failure_metric t.aggregate stats
      else if t.metric == "http_requests"
      then extract_request_metric t.aggregate stats
      else none

  -- 1e-9; the quotient of the floats rounds to it.
  abbrev epsilon : F
  epsilon = div (of_int (pos 1)) (of_int (pos 1_000_000_000))

  -- `math.Abs`, up to the sign of a zero result.
  pub float_abs : F → F
  float_abs x = if lt x (zero_f R) then sub (zero_f R) x else x

  abbrev pub close_to : F → F → Bool
  close_to actual expected = lt (float_abs (sub actual expected)) epsilon

  pub compare_values : F → String → F → Bool
  compare_values actual operator expected =
      if operator == "<"
      then lt actual expected
      else if operator == "<="
      then lt actual expected || close_to actual expected
      else if operator == ">"
      then lt expected actual
      else if operator == ">="
      then lt expected actual || close_to actual expected
      else if operator == "=="
      then close_to actual expected
      else false

  abbrev outcome_of : RunThreshold F → Option F → ThresholdOutcome F
  outcome_of t none = record { threshold = t; actual = zero_f R; pass = false }
  outcome_of t (some actual) = record {
    threshold = t;
    actual = actual;
    pass = compare_values actual t.operator t.value;
  }

  pub evaluate_one : RunThreshold F → Stats F → ThresholdOutcome F
  evaluate_one t stats = outcome_of t (extract_metric_value t stats)

  -- No thresholds give no results.
  pub evaluate : List (RunThreshold F) → Stats F → List (ThresholdOutcome F)
  evaluate ths stats = map (λ t. evaluate_one t stats) ths
