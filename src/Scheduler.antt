-- ===== src/Scheduler.antt =====
-- internal/scheduler/manager.go: the cron entries of the scheduled sets. Each method runs under the
-- manager's lock; `Reload` is run with no other call between its steps.
pub mod Sync
pub mod Reload
pub mod Resync
pub mod Flight
mod Tests
use crankfire.Prelude.{
  ℕ, ◌-◌, String, ◌≡◌, Bool, true, false, Option, none, some, List, [], ◌∷◌, map, if◌then◌else◌,
  length, ◌==◌, nat_eq, string_eq, text_eq,
}
use crankfire.Prelude.Maps.{lookup, insert, delete}

-- github.com/robfig/cron/v3: the jobs that are registered, each an expression and the set that it
-- fires. `AddFunc` parses by the same rules as the manager's parser, gives the job a new id, and does
-- not fail on an expression that parses.
pub record Cron : Type 1 where
  pub C : Type 0
  pub parses : String → Bool
  pub add_func : String → String → C → Option (ℕ × C)
  pub remove : ℕ → C → C
  pub job : C → ℕ → Option (String × String)
  pub add_func_lem :
      (e s : String) (c : C)
      → parses e ≡ true
      → (i : ℕ) × (c' : C) × (add_func e s c ≡ some (i, c'))
        × (job c i ≡ none)
        × ((j : ℕ) → job c' j ≡ (if i == j then some (e, s) else job c j))
  pub job-remove : (i j : ℕ) (c : C) → job (remove i c) j ≡ (if i == j then none else job c j)

pub record EntryRec : Type 0 where
  pub id : ℕ
  pub expr : String

pub data Failure : Type 0 where
  parse_cron add_cron list_sets : Failure
  -- The set at which a reload failed.
  reload_set : String → Failure → Failure

-- The part of a set that the scheduler reads.
pub record ScheduledSet : Type 0 where
  pub id : String
  pub schedule : String

module _ (lib : Cron) where
  open lib use {C, parses, add_func, remove}

  pub record Manager : Type 0 where
    pub cron : C
    pub entries : List (String × EntryRec)

  abbrev unregister : Option EntryRec → C → C
  unregister none c = c
  unregister (some rec) c = remove rec.id c

  abbrev register : Manager → String → String → C → Option (ℕ × C) → Option Failure × Manager
  register m set_id expr c none = (some add_cron, record m { cron = c })
  register m set_id expr c (some (i, c')) = (
    none,
    record { cron = c'; entries = insert set_id (record { id = i; expr = expr }) m.entries },
  )

  pub add_or_replace : Manager → String → String → Option Failure × Manager
  add_or_replace m set_id expr =
      let c = unregister (lookup set_id m.entries) m.cron in
      if parses expr
      then register m set_id expr c (add_func expr set_id c)
      else (some parse_cron, m)

  abbrev dropped : Manager → String → Option EntryRec → Manager
  dropped m set_id none = m
  dropped m set_id (some rec) = record {
    cron = remove rec.id m.cron;
    entries = delete set_id m.entries;
  }

  pub remove_set : Manager → String → Manager
  remove_set m set_id = dropped m set_id (lookup set_id m.entries)

  -- The sets that have a schedule; of two sets with one id the later counts.
  pub desired_of : List (String × String) → List ScheduledSet → List (String × String)
  desired_of d [] = d
  desired_of d (s ∷ sets) =
      desired_of (if s.schedule == "" then d else insert s.id s.schedule d) sets

  abbrev current_of : List (String × EntryRec) → List (String × String)
  current_of = map (λ p. (p.0, p.1.expr))

  abbrev is_current : Option String → String → Bool
  is_current none expr = false
  is_current (some cur) expr = cur == expr

  -- Add or update, over the desired schedules; the first failure ends the reload.
  pub add_wanted :
      List (String × String) → Manager → List (String × String) → Option Failure × Manager
  add_wanted current m [] = (none, m)
  add_wanted current m ((set_id, expr) ∷ rest) =
      if is_current (lookup set_id current) expr
      then add_wanted current m rest
      else elim (add_or_replace m set_id expr).0 [
        | none ↦ add_wanted current (add_or_replace m set_id expr).1 rest
        | some e ↦ (some (reload_set set_id e), (add_or_replace m set_id expr).1)
      ]

  abbrev is_wanted : Option String → Bool
  is_wanted none = false
  is_wanted (some _) = true

  pub remove_gone : List (String × String) → Manager → List (String × String) → Manager
  remove_gone desired m [] = m
  remove_gone desired m ((set_id, _) ∷ rest) =
      remove_gone desired (if is_wanted (lookup set_id desired) then m else remove_set m set_id)
        rest

  abbrev finish_reload :
      List (String × String)
      → List (String × String)
      → Option Failure × Manager
      → Option Failure × Manager
  finish_reload desired current (some e, m) = (some e, m)
  finish_reload desired current (none, m) = (none, remove_gone desired m current)

  -- The store's answer is `none` if listing the sets failed.
  pub reload : Manager → Option (List ScheduledSet) → Option Failure × Manager
  reload m none = (some list_sets, m)
  reload m (some sets) =
      let desired = desired_of [] sets in
      let current = current_of m.entries in
      finish_reload desired current (add_wanted current m desired)

  pub entry_count : Manager → ℕ
  entry_count m = length m.entries
