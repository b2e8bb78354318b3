-- ===== src/Sets.antt =====
-- internal/store/sets.go and store.go: the data of sets and of their runs. Time stamps, run directories
-- and schema versions are left out: nothing that is modelled reads them.
pub mod Items
pub mod Thresholds
pub mod Aggregate
pub mod Run
pub mod Compare
pub mod Diff
pub mod Overrides
mod Tests
use crankfire.Prelude.{String, Bool, true, false, Option, List}
use crankfire.Prelude.Int.{ℤ}

pub record Threshold (F : Type 0) : Type 0 where
  pub metric : String
  pub op : String
  pub value : F
  pub scope : String

pub record ThresholdResult (F : Type 0) : Type 0 where
  pub threshold : Threshold F
  pub actual : F
  pub passed : Bool

-- A nil pointer is `none`.
pub record Override : Type 0 where
  pub target_url : Option String
  pub method : Option String
  pub headers : List (String × String)
  pub body : Option String
  pub total_requests : Option ℤ
  pub rate : Option ℤ
  pub concurrency : Option ℤ
  pub duration : Option ℤ
  pub timeout : Option ℤ
  pub auth_token : Option String

pub record SetItem : Type 0 where
  pub name : String
  pub session_id : String
  pub overrides : Override

-- `on_failure` is a string in the source too.
pub record Stage : Type 0 where
  pub name : String
  pub on_failure : String
  pub items : List SetItem

abbrev pub on_failure_abort : String
on_failure_abort = "abort"

pub record Set (F : Type 0) : Type 0 where
  pub id : String
  pub name : String
  pub thresholds : List (Threshold F)
  pub stages : List Stage

pub data RunStatus : Type 0 where
  running completed failed cancelled : RunStatus

pub record RunSummary (F : Type 0) : Type 0 where
  pub total_requests : ℤ
  pub errors : ℤ
  pub duration_sec : F
  pub p50_ms : F
  pub p95_ms : F
  pub p99_ms : F

pub data SetRunStatus : Type 0 where
  run_running run_completed run_failed run_cancelled : SetRunStatus

-- An error is its text; "" is none.
pub record ItemResult (F : Type 0) : Type 0 where
  pub name : String
  pub session_id : String
  pub status : RunStatus
  pub summary : RunSummary F
  pub error : String

pub record StageResult (F : Type 0) : Type 0 where
  pub name : String
  pub items : List (ItemResult F)

pub record SetRun (F : Type 0) : Type 0 where
  pub set_id : String
  pub set_name : String
  pub status : SetRunStatus
  pub stages : List (StageResult F)
  pub thresholds : List (ThresholdResult F)
  pub all_thresholds_passed : Bool

abbrev pub is_completed : RunStatus → Bool
is_completed completed = true
is_completed _ = false

-- internal/setrunner/threshold.go: what the thresholds read of an item.
pub record MetricSnapshot (F : Type 0) : Type 0 where
  pub p50 : F
  pub p95 : F
  pub p99 : F
  pub error_rate : F
  pub rps : F
  pub total_errors : F
