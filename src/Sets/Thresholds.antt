-- ===== src/Sets/Thresholds.antt =====
-- internal/setrunner/threshold.go, and `allPassed` of runner.go.
pub mod Readings
pub mod Verdict
use crankfire.Prelude.{
  ◌+◌, String, ◌≡◌, ◌≢◌, ◌⊎◌, Bool, true, false, Option, none, some, List, [], ◌∷◌, ◌++◌,
  if◌then◌else◌, All, ◌==◌, nat_eq, string_eq, text_eq, Float64, le_f,
}
use crankfire.Prelude.Int.{pos}
use crankfire.Prelude.Maps.{lookup}
use crankfire.Sets.{Threshold, ThresholdResult, MetricSnapshot}

module _ (R : Float64) where
  open R use {F, lt, eq, of_int}

  pub metric_value : MetricSnapshot F → String → Option F
  metric_value snap metric =
      if metric == "p50"
      then some snap.p50
      else if metric == "p95"
      then some snap.p95
      else if metric == "p99"
      then some snap.p99
      else if metric == "error_rate"
      then some snap.error_rate
      else if metric == "rps"
      then some snap.rps
      else if metric == "total_errors"
      then some snap.total_errors
      else none

  pub compare : F → F → String → Bool
  compare actual want op =
      if op == "lt"
      then lt actual want
      else if op == "le"
      then le_f R actual want
      else if op == "gt"
      then lt want actual
      else if op == "ge"
      then le_f R want actual
      else if op == "eq"
      then eq actual want
      else false

  abbrev judged : Threshold F → Option F → ThresholdResult F
  judged t none = record { threshold = t; actual = of_int (pos 0); passed = false }
  judged t (some v) = record { threshold = t; actual = v; passed = compare v t.value t.op }

  pub eval_one : Threshold F → MetricSnapshot F → ThresholdResult F
  eval_one t snap = judged t (metric_value snap t.metric)

  -- The results for the items, each under its own name as the scope.
  pub eval_items : Threshold F → List (String × MetricSnapshot F) → List (ThresholdResult F)
  eval_items t [] = []
  eval_items t ((name, snap) ∷ per_item) =
      eval_one (record t { scope = name }) snap ∷ eval_items t per_item

  abbrev eval_named : Threshold F → Option (MetricSnapshot F) → List (ThresholdResult F)
  eval_named t none = record { threshold = t; actual = of_int (pos 0); passed = false } ∷ []
  eval_named t (some snap) = eval_one t snap ∷ []

  abbrev or_aggregate : String → String
  or_aggregate scope = if scope == "" then "aggregate" else scope

  pub eval_scope :
      Threshold F → MetricSnapshot F → List (String × MetricSnapshot F) → List (ThresholdResult F)
  eval_scope t agg per_item =
      let scope = or_aggregate t.scope in
      if scope == "aggregate"
      then eval_one t agg ∷ []
      else if scope == "per_item"
      then eval_items t per_item
      else eval_named t (lookup scope per_item)

  pub evaluate_thresholds :
      List (Threshold F)
      → MetricSnapshot F
      → List (String × MetricSnapshot F)
      → List (ThresholdResult F)
  evaluate_thresholds [] agg per_item = []
  evaluate_thresholds (t ∷ ths) agg per_item =
      eval_scope t agg per_item ++ evaluate_thresholds ths agg per_item

  pub all_passed : List (ThresholdResult F) → Bool
  all_passed [] = true
  all_passed (r ∷ rs) = let rest = all_passed rs in if r.passed then rest else false

  -- The metrics of a snapshot by their names.
  abbrev pub Reads : MetricSnapshot F → String → F → Type 0
  Reads snap metric v =
      ((metric ≡ "p50") × (snap.p50 ≡ v))
      ⊎ (((metric ≡ "p95") × (snap.p95 ≡ v))
          ⊎ (((metric ≡ "p99") × (snap.p99 ≡ v))
              ⊎ (((metric ≡ "error_rate") × (snap.error_rate ≡ v))
                  ⊎ (((metric ≡ "rps") × (snap.rps ≡ v))
                      ⊎ ((metric ≡ "total_errors") × (snap.total_errors ≡ v))))))

  -- The five operators, which stand for `<`, `<=`, `>`, `>=` and `==`.
  abbrev pub Compares : F → String → F → Type 0
  Compares v op want =
      ((op ≡ "lt") × (lt v want ≡ true))
      ⊎ (((op ≡ "le") × ((lt v want ≡ true) ⊎ (eq v want ≡ true)))
          ⊎ (((op ≡ "gt") × (lt want v ≡ true))
              ⊎ (((op ≡ "ge") × ((lt want v ≡ true) ⊎ (eq want v ≡ true)))
                  ⊎ ((op ≡ "eq") × (eq v want ≡ true)))))

  -- A snapshot meets a threshold: its metric is one of the six, and compares as the operator says.
  abbrev pub Meets : Threshold F → MetricSnapshot F → Type 0
  Meets t snap = (v : F) × Reads snap t.metric v × Compares v t.op t.value

  -- The scope of a threshold, read directly.
  pub data Holds (t : Threshold F) (agg : MetricSnapshot F)
      (per_item : List (String × MetricSnapshot F)) : Type 0 where
    on_aggregate : (t.scope ≡ "") ⊎ (t.scope ≡ "aggregate") → Meets t agg → Holds t agg per_item
    on_items : t.scope ≡ "per_item" → All (λ p. Meets t p.1) per_item → Holds t agg per_item
    on_named :
        (snap : MetricSnapshot F)
        → t.scope ≢ ""
        → t.scope ≢ "aggregate"
        → t.scope ≢ "per_item"
        → lookup t.scope per_item ≡ some snap
        → Meets t snap
        → Holds t agg per_item
