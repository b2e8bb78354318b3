-- ===== src/Scheduler/Resync.antt =====
-- The manager's entries against the registered cron jobs: `Reload`.
use crankfire.Prelude.{
  String, inl, inr, Option, none, some, List, [], ◌∷◌, Bool-cases, Option-cases, nat_eq, string_eq,
  text_eq,
}
use crankfire.Prelude.Maps.{lookup}
use crankfire.Scheduler.{
  Cron, Failure, ScheduledSet, Manager, add_or_replace, remove_set, desired_of, current_of,
  is_current, add_wanted, is_wanted, remove_gone, finish_reload, reload,
}
use crankfire.Scheduler.Sync.{IsSynced, remove_set-IsSynced, add_or_replace-IsSynced}

module _ (lib : Cron) where
  abbrev Schedules : Type 0
  Schedules = List (String × String)

  add_wanted-IsSynced :
      (cur : Schedules) (m : Manager lib) (rest : Schedules)
      → IsSynced lib m
      → IsSynced lib (add_wanted lib cur m rest).1
  unfolding add_wanted
  add_wanted-IsSynced cur m [] v = v
  add_wanted-IsSynced cur m ((s, x) ∷ rest) v =
      let v' = add_or_replace-IsSynced lib m s x v in
      elim (Bool-cases (is_current lib (lookup s cur) x)) [
        | inl skip ↦ rw (skip, add_wanted) (add_wanted-IsSynced cur m rest v)
        | inr set_it ↦ elim (Option-cases (add_or_replace lib m s x).0) [
          | inl fine ↦
              rw (set_it, fine, add_wanted)
                (add_wanted-IsSynced cur (add_or_replace lib m s x).1 rest v')
          | inr (f, e) ↦ rw (set_it, e, add_wanted) v'
        ]
      ]

  remove_gone-IsSynced :
      (desired : Schedules) (m : Manager lib) (cur : Schedules)
      → IsSynced lib m
      → IsSynced lib (remove_gone lib desired m cur)
  unfolding remove_gone
  remove_gone-IsSynced desired m [] v = v
  remove_gone-IsSynced desired m ((s, x) ∷ cur) v =
      elim (Bool-cases (is_wanted lib (lookup s desired))) [
        | inl keep ↦ rw (keep, remove_gone) (remove_gone-IsSynced desired m cur v)
        | inr gone ↦
            rw (gone, remove_gone)
              (remove_gone-IsSynced desired (remove_set lib m s) cur
                (remove_set-IsSynced lib m s v))
      ]

  finish_reload-IsSynced :
      (desired cur : Schedules) (r : Option Failure × Manager lib)
      → IsSynced lib r.1
      → IsSynced lib (finish_reload lib desired cur r).1
  finish_reload-IsSynced desired cur (some e, m) v = v
  finish_reload-IsSynced desired cur (none, m) v = remove_gone-IsSynced desired m cur v

  -- A reload, whether it succeeds or stops at a failure, leaves every entry with its cron job and every
  -- cron job with its entry.
  pub reload-IsSynced :
      (m : Manager lib) (sets : Option (List ScheduledSet))
      → IsSynced lib m
      → IsSynced lib (reload lib m sets).1
  unfolding reload
  reload-IsSynced m none v = v
  reload-IsSynced m (some sets) v =
      finish_reload-IsSynced (desired_of lib [] sets) (current_of lib m.entries) _
        (add_wanted-IsSynced (current_of lib m.entries) m (desired_of lib [] sets) v)
