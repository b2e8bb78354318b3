-- ===== src/Scheduler/Tests.antt =====
-- The scheduler on concrete inputs, over a list of jobs with increasing ids.
use crankfire.Prelude.{
  ℕ, suc, ◌+◌, ◌≤◌, String, ◌≡◌, ◌⊎◌, refl, Bool, true, not, Option, none, some, List, [], ◌∷◌,
  arith, if◌then◌else◌, ◌==◌, nat_eq, string_eq, text_eq,
}
use crankfire.Prelude.Maps.{lookup, insert, delete, lookup-insert, lookup-delete}
use crankfire.Scheduler.{Cron, Manager, ScheduledSet, reload}
use crankfire.Scheduler.Sync.{IsSynced}
use crankfire.Scheduler.Reload.{SetsParse, reload_lem}
use crankfire.Scheduler.Resync.{reload-IsSynced}
use crankfire.Scheduler.Flight.{
  FireEvent, begins, runs, cancels, fire_step, fire_steps, no_flights, count, fire_single,
}

-- The jobs, and a bound of the ids in use.
abbrev Jobs : Type 0
Jobs = List (ℕ × (String × String))

abbrev next_id : Jobs → ℕ
next_id [] = 0
next_id ((i, x) ∷ js) = suc (i + next_id js)

abbrev parses_all_but_bad : String → Bool
parses_all_but_bad e = not (e == "bad")

abbrev added : String → String → Jobs → Option (ℕ × Jobs)
added e s c = some (next_id c, insert (next_id c) (e, s) c)

lookup_next : (js : Jobs) (i : ℕ) → next_id js ≤ i → lookup i js ≡ none
unfolding lookup
lookup_next [] i h = refl
lookup_next ((j, x) ∷ js) i h = ground (arith, lookup_next js i (omega arith))

pub add_job_lem :
    (e s : String) (c : Jobs)
    → parses_all_but_bad e ≡ true
    → (i : ℕ) × (c' : Jobs) × (added e s c ≡ some (i, c'))
      × (lookup i c ≡ none)
      × ((j : ℕ) → lookup j c' ≡ (if i == j then some (e, s) else lookup j c))
add_job_lem e s c h = (
  next_id c,
  insert (next_id c) (e, s) c,
  refl,
  lookup_next c (next_id c) (omega arith),
  λ j. lookup-insert (next_id c) j (e, s) c,
)

pub job-delete :
    (i j : ℕ) (c : Jobs) → lookup j (delete i c) ≡ (if i == j then none else lookup j c)
job-delete i j c = lookup-delete i j c

abbrev job_list : Cron
job_list = record {
  C = Jobs;
  parses = parses_all_but_bad;
  add_func = added;
  remove = λ i c. delete i c;
  job = λ c i. lookup i c;
  add_func_lem = add_job_lem;
  job-remove = job-delete;
}

abbrev no_manager : Manager job_list
no_manager = record { cron = []; entries = [] }

no_manager-IsSynced : IsSynced job_list no_manager
unfolding lookup
no_manager-IsSynced = record {
  registered = λ s r h. ground arith;
  recorded = λ i e s h. ground arith;
}

abbrev two_sets : List ScheduledSet
two_sets = record { id = "s"; schedule = "@hourly" } ∷ record { id = "t"; schedule = "" } ∷ []

reload-IsSynced_example : IsSynced job_list (reload job_list no_manager (some two_sets)).1
reload-IsSynced_example = reload-IsSynced job_list no_manager (some two_sets) no_manager-IsSynced

two_sets-SetsParse : SetsParse job_list two_sets
unfolding SetsParse
two_sets-SetsParse = ground arith

reload_lem_example : (reload job_list no_manager (some two_sets)).0 ≡ none
reload_lem_example = (reload_lem job_list no_manager two_sets "s" two_sets-SetsParse).0

-- The context of `Run` is cancelled, and a fire still begins.
abbrev some_fires : List FireEvent
some_fires = begins "a" ∷ runs ∷ cancels ∷ begins "b" ∷ begins "a" ∷ []

fire_single_example :
    let f = fire_steps no_flights some_fires in
    (count "c" f.running ≤ 1)
    × (count "c" (fire_step f (begins "c")).running ≡ 1)
    × (((count "c" f.running ≡ 1) × (fire_step f (begins "c") ≡ f))
        ⊎ ((count "c" f.running ≡ 0)
            × ((fire_step f (begins "c")).fired ≡ ("c", f.run_ctx) ∷ f.fired)))
fire_single_example = fire_single some_fires "c"
