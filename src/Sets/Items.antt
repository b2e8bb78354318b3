-- ===== src/Sets/Items.antt =====
-- internal/setrunner/runner.go: `runItem` and `runStage`. The store's sessions and the builder are a
-- parameter; an item's goroutine takes its turns in any order, and the critical section that records
-- its result is one step.
pub mod Completion
pub mod Effects
use crankfire.Prelude.{
  ℕ, String, Bool, true, false, Option, none, some, List, [], ◌∷◌, if◌then◌else◌, length, get_elem?,
  set, replicate, nat_eq, string_eq, text_eq, Float64, zero_f,
}
use crankfire.Prelude.Int.{pos}
use crankfire.Prelude.Maps.{insert}
use Prim.Native.String.{◌++◌ as append}
use crankfire.Sets.{
  SetItem, Stage, ItemResult, RunStatus, completed, failed, cancelled, running, RunSummary,
  MetricSnapshot, is_completed,
}
use crankfire.Sets.Aggregate.{snapshot_from_summary}
use crankfire.Sets.Overrides.{Config, apply_overrides}

-- A result, or the text of an error.
pub data Answer {ℓ} (A : Type ℓ) : Type ℓ where
  answer : A → Answer A
  error : String → Answer A

-- The error of a run: its text, and whether it is `context.Canceled`.
pub record RunError : Type 0 where
  pub text : String
  pub is_canceled : Bool

-- The store and the builder. `ItemRun` is what `Build` hands back, and `run` executes it.
pub record Backend (F C : Type 0) : Type 1 where
  pub ItemRun : Type 0
  pub get_session : String → Answer (Config C)
  pub build : Config C → String → Answer ItemRun
  pub run : ItemRun → RunSummary F × Option RunError

pub data Effect (F : Type 0) : Type 0 where
  started cleaned_up : String → Effect F
  ended : ItemResult F → Effect F
  ran : String → Effect F

module _ {C : Type 0} (R : Float64) (expand : String → String) (backend : Backend (R.F) C) where
  open R use {F, of_int}
  open backend use {ItemRun, get_session, build}

  abbrev pub no_summary : RunSummary F
  no_summary = record {
    total_requests = pos 0;
    errors = pos 0;
    duration_sec = zero_f R;
    p50_ms = zero_f R;
    p95_ms = zero_f R;
    p99_ms = zero_f R;
  }

  abbrev result : SetItem → RunStatus → RunSummary F → String → ItemResult F
  result item status summary text = record {
    name = item.name;
    session_id = item.session_id;
    status = status;
    summary = summary;
    error = text;
  }

  abbrev status_of : Option RunError → RunStatus
  status_of none = completed
  status_of (some e) = if e.is_canceled then cancelled else failed

  abbrev text_of : Option RunError → String
  text_of none = ""
  text_of (some e) = e.text

  -- The deferred `Cleanup` comes last.
  abbrev after_run : SetItem → RunSummary F × Option RunError → ItemResult F × List (Effect F)
  after_run item (summary, e) =
      let res = result item (status_of e) summary (text_of e) in
      (res, ran item.name ∷ ended res ∷ cleaned_up item.name ∷ [])

  abbrev stopped : SetItem → String → ItemResult F × List (Effect F)
  stopped item text = let res = result item failed no_summary text in (res, ended res ∷ [])

  abbrev after_build : SetItem → Answer ItemRun → ItemResult F × List (Effect F)
  after_build item (error e) = stopped item (append "build: " e)
  after_build item (answer ir) = after_run item (backend.run ir)

  abbrev after_session : SetItem → Answer (Config C) → ItemResult F × List (Effect F)
  after_session item (error e) = stopped item (append "get session: " e)
  after_session item (answer base) =
      after_build item (build (apply_overrides expand base item.overrides) item.name)

  -- The result, and the effects in order; an event counts where `emit` drops it, on a nil or full channel,
  -- too.
  pub run_item : SetItem → ItemResult F × List (Effect F)
  run_item item =
      let (res, effects) = after_session item (get_session item.session_id) in
      (res, started item.name ∷ effects)

  pub record StageState : Type 0 where
    pub results : List (ItemResult F)
    pub any_fail : Bool
    pub per_item : List (String × MetricSnapshot F)

  abbrev blank_result : ItemResult F
  blank_result = record {
    name = "";
    session_id = "";
    status = running;
    summary = no_summary;
    error = "";
  }

  abbrev record_result : StageState → ℕ → ItemResult F → String → StageState
  record_result st i res name = record {
    results = set st.results i res;
    any_fail = if is_completed res.status then st.any_fail else true;
    per_item = insert name (snapshot_from_summary R res.summary) st.per_item;
  }

  abbrev finish_item : StageState → ℕ → Option SetItem → StageState
  finish_item st i none = st
  finish_item st i (some item) = record_result st i (run_item item).0 item.name

  -- The items finish in the order of the indices; an index out of bounds is no item's.
  pub finish_items : List SetItem → StageState → List ℕ → StageState
  finish_items items st [] = st
  finish_items items st (i ∷ order) =
      finish_items items (finish_item st i (get_elem? items i)) order

  pub run_stage : Stage → List (String × MetricSnapshot F) → List ℕ → StageState
  run_stage stage per_item order =
      finish_items stage.items
        (record {
          results = replicate (length stage.items) blank_result;
          any_fail = false;
          per_item = per_item;
        })
        order
