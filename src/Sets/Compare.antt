-- ===== src/Sets/Compare.antt =====
-- internal/setrunner/compare.go: the items of a run side by side.
pub mod Winner
use crankfire.Prelude.{
  String, Bool, true, false, ◌&&◌, ◌||◌, not, Option, none, some, List, [], ◌∷◌, map, if◌then◌else◌,
  nat_eq, string_eq, text_eq, Float64, zero_f,
}
use crankfire.Prelude.Int.{pos, beq_ℤ}
use crankfire.Prelude.Maps.{insert}
use crankfire.Sets.{RunSummary, ItemResult, is_completed}

-- A metric: its key, whether lower is better, and its value.
pub record CompareMetric (F : Type 0) : Type 0 where
  pub key : String
  pub lower_is_better : Bool
  pub value : RunSummary F → F

pub record CompareRow (F : Type 0) : Type 0 where
  pub metric : String
  pub lower_is_better : Bool
  pub values : List (String × F)
  pub winner : String

pub record Comparison (F : Type 0) : Type 0 where
  pub items : List String
  pub rows : List (CompareRow F)

module _ (R : Float64) where
  open R use {F, of_int, div, lt, eq}

  -- `errRate` and `rps` of diff.go are the same.
  unfoldable pub error_rate_of : RunSummary F → F
  error_rate_of s =
      if beq_ℤ s.total_requests (pos 0)
      then zero_f R
      else div (of_int s.errors) (of_int s.total_requests)

  pub rps_of : RunSummary F → F
  rps_of s =
      if eq s.duration_sec (zero_f R)
      then zero_f R
      else div (of_int s.total_requests) s.duration_sec

  abbrev metric : String → Bool → (RunSummary F → F) → CompareMetric F
  metric key lower value = record { key = key; lower_is_better = lower; value = value }

  pub compare_metrics : List (CompareMetric F)
  compare_metrics =
      metric "p50" true (λ s. s.p50_ms)
      ∷ metric "p95" true (λ s. s.p95_ms)
      ∷ metric "p99" true (λ s. s.p99_ms)
      ∷ metric "error_rate" true error_rate_of
      ∷ metric "total_errors" true (λ s. of_int s.errors)
      ∷ metric "rps" false rps_of
      ∷ []

  abbrev pub better : CompareMetric F → F → F → Bool
  better m v best = (m.lower_is_better && lt v best) || (not m.lower_is_better && lt best v)

  abbrev Best : Type 0
  Best = Option (String × F)

  -- One turn of the loop; `none` is `first`.
  unfoldable pub consider : CompareMetric F → Best → ItemResult F → Best
  consider m none it = if is_completed it.status then some (it.name, m.value it.summary) else none
  consider m (some (name, val)) it =
      if is_completed it.status && better m (m.value it.summary) val
      then some (it.name, m.value it.summary)
      else some (name, val)

  pub consider_all : CompareMetric F → Best → List (ItemResult F) → Best
  consider_all m b [] = b
  consider_all m b (it ∷ items) = consider_all m (consider m b it) items

  abbrev winner_of : Best → String
  winner_of none = ""
  winner_of (some (name, val)) = name

  pub values_of : CompareMetric F → List (String × F) → List (ItemResult F) → List (String × F)
  values_of m vs [] = vs
  values_of m vs (it ∷ items) = values_of m (insert it.name (m.value it.summary) vs) items

  pub compare_row : CompareMetric F → List (ItemResult F) → CompareRow F
  compare_row m items = record {
    metric = m.key;
    lower_is_better = m.lower_is_better;
    values = values_of m [] items;
    winner = winner_of (consider_all m none items);
  }

  pub compare : List (ItemResult F) → Comparison F
  compare [] = record { items = []; rows = [] }
  compare (it ∷ items) = record {
    items = map (λ i. i.name) (it ∷ items);
    rows = map (λ m. compare_row m (it ∷ items)) compare_metrics;
  }
