-- ===== src/Sets/Run.antt =====
-- internal/setrunner/runner.go: `Runner.Run`. The outside is a parameter: the store's answers, for each
-- stage the order in which its items finish, and whether the context is cancelled once it is over.
use crankfire.Prelude.{
  ℕ, suc, ◌+◌, String, Bool, true, false, ◌&&◌, not, Option, none, some, List, [], ◌∷◌, ◌++◌,
  if◌then◌else◌, set, ◌==◌, nat_eq, string_eq, text_eq, Float64,
}
pub mod Status
use crankfire.Sets.{
  Set, Stage, SetRun, StageResult, SetRunStatus, run_completed, run_failed, run_cancelled,
  on_failure_abort, MetricSnapshot,
}
use crankfire.Sets.Aggregate.{aggregate}
use crankfire.Sets.Thresholds.{evaluate_thresholds, all_passed}
use crankfire.Sets.Items.{Backend, Answer, answer, error, StageState, run_stage}

-- The store's answers are errors, or for `create_set_run` and `finalize` no value.
pub record Outer (F : Type 0) : Type 0 where
  pub get_set : String → Answer (Set F)
  pub create_set_run : String → Option String
  pub finalize : SetRun F → Option String
  pub order : ℕ → List ℕ
  pub cancelled : ℕ → Bool

pub data RunOutcome (F : Type 0) : Type 0 where
  no_set no_run : String → RunOutcome F
  not_finalized : SetRun F → String → RunOutcome F
  ended : SetRun F → RunOutcome F

-- An empty `on_failure` is "abort".
abbrev pub aborts : Stage → Bool
aborts st = (if st.on_failure == "" then on_failure_abort else st.on_failure) == on_failure_abort

module _ {C : Type 0} (R : Float64) (expand : String → String) (backend : Backend (R.F) C)
    (o : Outer (R.F)) where
  open R use {F}

  -- The loop's variables.
  pub record Progress : Type 0 where
    pub status : SetRunStatus
    pub stages : List (StageResult F)
    pub per_item : List (String × MetricSnapshot F)

  abbrev after_stage : Stage → Progress → StageState R expand backend → Progress
  after_stage stage p st = record p {
    stages = p.stages ++ record { name = stage.name; items = st.results } ∷ [];
    per_item = st.per_item;
  }

  -- The loop over the stages, from stage `i` on.
  pub run_stages : ℕ → Progress → List Stage → Progress
  run_stages i p [] = p
  run_stages i p (stage ∷ stages) =
      let st = run_stage R expand backend stage p.per_item (o.order i) in
      let p' = after_stage stage p st in
      let rest = run_stages (suc i) p' stages in
      if o.cancelled i
      then record p' { status = run_cancelled }
      else if st.any_fail && aborts stage
      then record p' { status = run_failed }
      else rest

  abbrev is_run_completed : SetRunStatus → Bool
  is_run_completed run_completed = true
  is_run_completed _ = false

  -- The run as it is stored: the status falls to failed where a threshold does.
  pub judge : String → Set F → Progress → SetRun F
  judge set_id set p =
      let thresholds = evaluate_thresholds R set.thresholds (aggregate R p.per_item) p.per_item in
      record {
        set_id = set_id;
        set_name = set.name;
        status =
            if is_run_completed p.status && not (all_passed R thresholds)
            then run_failed
            else p.status;
        stages = p.stages;
        thresholds = thresholds;
        all_thresholds_passed = all_passed R thresholds;
      }

  abbrev pub start_progress : Progress
  start_progress = record { status = run_completed; stages = []; per_item = [] }

  -- The run of a set that the store has found and for which it has made a run.
  pub run_of : String → Set F → SetRun F
  run_of set_id set = judge set_id set (run_stages 0 start_progress set.stages)

  abbrev finalized : SetRun F → Option String → RunOutcome F
  finalized run none = ended run
  finalized run (some e) = not_finalized run e

  abbrev created : String → Set F → Option String → RunOutcome F
  created set_id set (some e) = no_run e
  created set_id set none = let run = run_of set_id set in finalized run (o.finalize run)

  abbrev found : String → Answer (Set F) → RunOutcome F
  found set_id (error e) = no_set e
  found set_id (answer set) = created set_id set (o.create_set_run set_id)

  pub run : String → RunOutcome F
  run set_id = found set_id (o.get_set set_id)
