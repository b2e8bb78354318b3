-- ===== src/Sets/Tests.antt =====
-- Sets on concrete inputs: one stage with two items, of which one has no session.
use crankfire.Prelude.{
  zero_f, zero, suc, String, ◌≡◌, refl, ◌↔◌, ◌⊎◌, true, false, none, some, List, [], ◌∷◌, map,
  arith, if◌then◌else◌, All, ◌==◌, nat_eq, string_eq, text_eq,
}
use crankfire.Prelude.Int.{pos}
use crankfire.Prelude.Samples.{int_floats}
use crankfire.Sets.{
  Threshold, Override, SetItem, Stage, Set, RunSummary, ItemResult, completed, failed,
  run_completed, run_failed, SetRunStatus, MetricSnapshot, SetRun,
}
use crankfire.Sets.Thresholds.{evaluate_thresholds, all_passed, Holds}
use crankfire.Sets.Thresholds.Verdict.{all_passed-evaluate_thresholds}
use crankfire.Sets.Aggregate.{aggregate, IsPeak, aggregate-IsPeak}
use crankfire.Sets.Compare.{CompareMetric, compare_row}
use crankfire.Sets.Compare.Winner.{Wins, compare_row-Wins}
use crankfire.Sets.Overrides.{Config}
use crankfire.Sets.Items.{Backend, answer, error, run_item, run_stage}
use crankfire.Sets.Items.Completion.{Covers, run_stage_results}
use crankfire.Sets.Diff.{diff}
use crankfire.Sets.Diff.Latest.{Shared, IsWorse}
use crankfire.Sets.Diff.Verdict.{diff-verdict}
use crankfire.Sets.Items.Effects.{Stopped, Ran, run_item_lem}
use crankfire.Sets.Run.{Outer, start_progress, run_stages, run_of}
use crankfire.Sets.Run.Status.{
  StagesPass, Ran as RanStages, stage_result, run_of-status, run_of-stages,
}

abbrev no_override : Override
no_override = record {
  target_url = none;
  method = none;
  headers = ("Accept", "text") ∷ [];
  body = none;
  total_requests = none;
  rate = some (pos 5);
  concurrency = none;
  duration = none;
  timeout = none;
  auth_token = none;
}

abbrev item_a : SetItem
item_a = record { name = "a"; session_id = "1"; overrides = no_override }

abbrev item_b : SetItem
item_b = record { name = "b"; session_id = "2"; overrides = no_override }

abbrev one_stage : Stage
one_stage = record { name = "s"; on_failure = "continue"; items = item_a ∷ item_b ∷ [] }

abbrev a_summary : RunSummary (int_floats.F)
a_summary = record {
  total_requests = pos 10;
  errors = pos 2;
  duration_sec = pos 5;
  p50_ms = pos 4;
  p95_ms = pos 8;
  p99_ms = pos 9;
}

abbrev a_config : Config (Unit {0})
a_config = record {
  target_url = "http://localhost";
  method = "GET";
  headers = ("Host", "h") ∷ [];
  body = "";
  total = pos 10;
  rate = pos 1;
  concurrency = pos 1;
  duration = pos 0;
  timeout = pos 0;
  static_token = "";
  rest = tt;
}

abbrev same : String → String
same s = s

-- Only the first session exists.
abbrev one_session : Backend (int_floats.F) (Unit {0})
one_session = record {
  ItemRun = Unit {0};
  get_session = λ id. if id == "1" then answer a_config else error "not found";
  build = λ config name. answer tt;
  run = λ runner. (a_summary, none);
}

abbrev p95_threshold : Threshold (int_floats.F)
p95_threshold = record { metric = "p95"; op = "lt"; value = pos 20; scope = "" }

abbrev a_set : Set (int_floats.F)
a_set = record {
  id = "set";
  name = "a set";
  thresholds = p95_threshold ∷ [];
  stages = one_stage ∷ [];
}

-- The items finish in reverse.
abbrev reversed : Outer (int_floats.F)
reversed = record {
  get_set = λ id. answer a_set;
  create_set_run = λ id. none;
  finalize = λ run. none;
  order = λ i. 1 ∷ 0 ∷ [];
  cancelled = λ i. false;
}

two_cover : Covers (1 ∷ 0 ∷ []) (item_a ∷ item_b ∷ [])
two_cover zero h = (1, refl)
two_cover (suc zero) h = (0, refl)
two_cover (suc (suc i)) h = absurd (omega arith)

run_stage_results_example :
    (run_stage int_floats same one_session one_stage [] (1 ∷ 0 ∷ [])).results
    ≡ map (λ item. (run_item int_floats same one_session item).0) one_stage.items
run_stage_results_example =
    (run_stage_results int_floats same one_session one_stage [] (1 ∷ 0 ∷ []) two_cover).0

run_item_lem_example :
    Stopped int_floats same one_session item_b ⊎ Ran int_floats same one_session item_b
run_item_lem_example = run_item_lem int_floats same one_session item_b

run_of-status_example :
    let per =
      (run_stages int_floats same one_session reversed 0
        (start_progress int_floats same one_session reversed)
        a_set.stages).per_item in
    ((run_of int_floats same one_session reversed "set" a_set).status ≡ run_completed) ↔ (
      StagesPass int_floats same one_session reversed 0 a_set.stages
      × All (λ t. Holds int_floats t (aggregate int_floats per) per) a_set.thresholds)
run_of-status_example =
    run_of-status int_floats same one_session reversed "set" a_set (two_cover, tt)

run_of-stages_example :
    let run = run_of int_floats same one_session reversed "set" a_set in
    (ran : List Stage) × (status : SetRunStatus) × RanStages int_floats same one_session reversed 0
      a_set.stages ran status
    × (run.stages ≡ map (stage_result int_floats same one_session reversed) ran)
    × ((run.status ≡ status) ⊎ ((status ≡ run_completed) × (run.status ≡ run_failed)))
run_of-stages_example =
    run_of-stages int_floats same one_session reversed "set" a_set (two_cover, tt)

abbrev a_snapshot : MetricSnapshot (int_floats.F)
a_snapshot = record {
  p50 = pos 4;
  p95 = pos 8;
  p99 = pos 9;
  error_rate = pos 0;
  rps = pos 2;
  total_errors = pos 2;
}

all_passed-evaluate_thresholds_example :
    (all_passed int_floats
        (evaluate_thresholds int_floats (p95_threshold ∷ []) a_snapshot (("a", a_snapshot) ∷ []))
      ≡ true)
    ↔ All (λ t. Holds int_floats t a_snapshot (("a", a_snapshot) ∷ [])) (p95_threshold ∷ [])
all_passed-evaluate_thresholds_example =
    all_passed-evaluate_thresholds int_floats (p95_threshold ∷ []) a_snapshot
      (("a", a_snapshot) ∷ [])

abbrev two_snapshots : List (String × MetricSnapshot (int_floats.F))
two_snapshots = ("a", a_snapshot) ∷ ("b", a_snapshot) ∷ []

aggregate-IsPeak_example :
    IsPeak int_floats
      (λ s. s.p50)
      (zero_f int_floats)
      two_snapshots
      (aggregate int_floats two_snapshots).p50
aggregate-IsPeak_example = (aggregate-IsPeak int_floats two_snapshots).0

abbrev lower_p95 : CompareMetric (int_floats.F)
lower_p95 = record { key = "p95"; lower_is_better = true; value = λ s. s.p95_ms }

abbrev a_result : ItemResult (int_floats.F)
a_result = record {
  name = "a";
  session_id = "1";
  status = completed;
  summary = a_summary;
  error = "";
}

compare_row-Wins_example :
    Wins int_floats lower_p95
      (a_result ∷ record a_result { name = "b"; status = failed } ∷ [])
      (compare_row int_floats lower_p95
        (a_result ∷ record a_result { name = "b"; status = failed } ∷ [])).winner
compare_row-Wins_example =
    compare_row-Wins int_floats lower_p95
      (a_result ∷ record a_result { name = "b"; status = failed } ∷ [])

abbrev a_run : SetRun (int_floats.F)
a_run = record {
  set_id = "set";
  set_name = "a set";
  status = run_completed;
  stages = record { name = "s"; items = a_result ∷ [] } ∷ [];
  thresholds = [];
  all_thresholds_passed = true;
}

diff-verdict_example :
    (((diff int_floats a_run a_run).overall_verdict ≡ "regressed")
      ⊎ ((diff int_floats a_run a_run).overall_verdict ≡ "mixed"))
    ↔ Shared int_floats (IsWorse int_floats) a_run a_run
diff-verdict_example = (diff-verdict int_floats a_run a_run).0
