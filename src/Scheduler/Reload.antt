-- ===== src/Scheduler/Reload.antt =====
-- `Reload` against the schedules of the store's sets.
use crankfire.Prelude.{
  String, ◌≡◌, refl, ◌∙◌, inl, inr, true, false, ◌&&◌, not, Option, none, some, List, [], ◌∷◌,
  arith, if◌then◌else◌, Bool-cases, Option-cases, All, ◌==◌, nat_eq, string_eq, text_eq,
}
use crankfire.Prelude.Maps.{
  lookup, insert, lookup-insert, lookup-delete, or_else, NoDup, insert-NoDup,
}
use text.Mathlib.TextEquality.{eq_iff}
use crankfire.Scheduler.{
  Cron, EntryRec, Failure, ScheduledSet, Manager, add_or_replace, remove_set, desired_of,
  current_of, is_current, add_wanted, is_wanted, remove_gone, finish_reload, reload,
}
use crankfire.Scheduler.Sync.{lookup-add_or_replace}

-- The schedule of a set: that of the last one with its id whose schedule is not empty.
pub scheduled : String → List ScheduledSet → Option String
scheduled t [] = none
scheduled t (s ∷ sets) =
    or_else (scheduled t sets)
      (if s.schedule == "" then none else if s.id == t then some s.schedule else none)

module _ (lib : Cron) where
  abbrev Schedules : Type 0
  Schedules = List (String × String)

  lookup-desired_of :
      (t : String) (d : Schedules) (sets : List ScheduledSet)
      → lookup t (desired_of lib d sets) ≡ or_else (scheduled t sets) (lookup t d)
  unfolding desired_of scheduled
  lookup-desired_of t d [] = refl
  lookup-desired_of t d (s ∷ sets) = ground (
    arith,
    lookup-desired_of t (if s.schedule == "" then d else insert s.id s.schedule d) sets,
    lookup-insert s.id t s.schedule d,
  )

  desired_of-NoDup :
      (d : Schedules) (sets : List ScheduledSet) → NoDup d → NoDup (desired_of lib d sets)
  unfolding desired_of
  desired_of-NoDup d [] h = h
  desired_of-NoDup d (s ∷ sets) h = elim (Bool-cases (s.schedule == "")) [
    | inl e ↦ rw (e, desired_of) (desired_of-NoDup d sets h)
    | inr e ↦
        rw (e, desired_of)
          (desired_of-NoDup (insert s.id s.schedule d) sets (insert-NoDup s.id s.schedule d h))
  ]

  abbrev expr_of : Option EntryRec → Option String
  expr_of none = none
  expr_of (some r) = some r.expr

  lookup-current_of :
      (t : String) (es : List (String × EntryRec))
      → lookup t (current_of lib es) ≡ expr_of (lookup t es)
  unfolding lookup
  lookup-current_of t [] = refl
  lookup-current_of t ((j, r) ∷ es) = ground (arith, lookup-current_of t es)

  lookup-remove_set :
      (m : Manager lib) (s t : String)
      → lookup t (remove_set lib m s).entries ≡ (if s == t then none else lookup t m.entries)
  unfolding remove_set
  lookup-remove_set m s t = elim (Option-cases (lookup s m.entries)) [
    | inl e ↦ rw (e, remove_set) (ground (arith, eq_iff s t, e))
    | inr (r, e) ↦ rw (e, remove_set) (lookup-delete s t m.entries)
  ]

  lookup-remove_gone :
      (desired : Schedules) (m : Manager lib) (cur : Schedules) (t : String)
      → lookup t (remove_gone lib desired m cur).entries ≡ (
          if is_wanted lib (lookup t cur) && not (is_wanted lib (lookup t desired))
          then none
          else lookup t m.entries)
  unfolding remove_gone lookup
  lookup-remove_gone desired m [] t = refl
  lookup-remove_gone desired m ((s, x) ∷ cur) t =
      elim (Bool-cases (is_wanted lib (lookup s desired))) [
        | inl keep ↦
            rw (keep, remove_gone)
              (ground (arith, eq_iff s t, keep, lookup-remove_gone desired m cur t))
        | inr gone ↦
            rw (gone, remove_gone)
              (ground (
                arith,
                eq_iff s t,
                gone,
                lookup-remove_gone desired (remove_set lib m s) cur t,
                lookup-remove_set m s t,
              ))
      ]

  -- Every schedule parses.
  abbrev AllParse : Schedules → Type 0
  AllParse = All (λ p. lib.parses p.1 ≡ true)

  -- What becomes of the entry of a set that a reload goes over.
  record Updated (cur wanted : Option String) (before after : Option EntryRec) : Type 0 where
    unwanted : wanted ≡ none → after ≡ before
    unchanged : (x : String) → wanted ≡ some x → is_current lib cur x ≡ true → after ≡ before
    changed : (x : String) → wanted ≡ some x → is_current lib cur x ≡ false → expr_of after ≡ some x

  add_wanted_lem :
      (cur : Schedules) (m : Manager lib) (rest : Schedules)
      → AllParse rest
      → NoDup rest
      → ((add_wanted lib cur m rest).0 ≡ none)
        × ((t : String)
            → Updated
                (lookup t cur)
                (lookup t rest)
                (lookup t m.entries)
                (lookup t (add_wanted lib cur m rest).1.entries))
  unfolding add_wanted lookup
  add_wanted_lem cur m [] p d =
      (refl, λ t. record { unwanted = λ e. refl; unchanged = λ x e c. refl; changed = λ x e c. cc })
  add_wanted_lem cur m ((s, x) ∷ rest) p d = elim (Bool-cases (is_current lib (lookup s cur) x)) [
    | inl skip ↦
        let later = add_wanted_lem cur m rest p.1 d.1 in
        rw (skip, add_wanted)
          (
            later.0,
            λ t.
                let u = later.1 t in
                record {
                  unwanted = λ e. ground (arith, eq_iff s t, u.unwanted);
                  unchanged = λ y e c. ground (arith, eq_iff s t, d.0, u.unwanted, u.unchanged y);
                  changed = λ y e c. ground (arith, eq_iff s t, skip, u.changed y);
                },
          )
    | inr set_it ↦
        let m' = (add_or_replace lib m s x).1 in
        let later = add_wanted_lem cur m' rest p.1 d.1 in
        let (i, fine, _) = lookup-add_or_replace lib m s x s p.0 in
        rw (set_it, fine, add_wanted)
          (
            later.0,
            λ t.
                let u = later.1 t in
                let (j, _, new) = lookup-add_or_replace lib m s x t p.0 in
                record {
                  unwanted = λ e. ground (arith, eq_iff s t, new, u.unwanted);
                  unchanged = λ y e c.
                      ground (arith, eq_iff s t, set_it, d.0, new, u.unwanted, u.unchanged y);
                  changed = λ y e c. ground (arith, eq_iff s t, d.0, new, u.unwanted, u.changed y);
                },
          )
  ]

  -- Every schedule of the sets parses.
  unfoldable pub SetsParse : List ScheduledSet → Type 0
  SetsParse [] = Unit
  SetsParse (s ∷ sets) =
      ((s.schedule == "" ≡ false) → lib.parses s.schedule ≡ true) × SetsParse sets

  insert-AllParse :
      (k x : String) (d : Schedules) → lib.parses x ≡ true → AllParse d → AllParse (insert k x d)
  unfolding insert
  insert-AllParse k x [] p h = (p, tt)
  insert-AllParse k x ((j, y) ∷ d) p h = elim (Bool-cases (j == k)) [
    | inl e ↦ rw (e, insert) (p, h.1)
    | inr e ↦ rw (e, insert) (h.0, insert-AllParse k x d p h.1)
  ]

  desired_of-AllParse :
      (d : Schedules) (sets : List ScheduledSet)
      → SetsParse sets
      → AllParse d
      → AllParse (desired_of lib d sets)
  unfolding desired_of SetsParse
  desired_of-AllParse d [] p h = h
  desired_of-AllParse d (s ∷ sets) p h = elim (Bool-cases (s.schedule == "")) [
    | inl e ↦ rw (e, desired_of) (desired_of-AllParse d sets p.1 h)
    | inr e ↦
        rw (e, desired_of)
          (desired_of-AllParse (insert s.id s.schedule d) sets p.1
            (insert-AllParse s.id s.schedule d (p.0 e) h))
  ]

  reloaded :
      (desired cur : Schedules) (r : Option Failure × Manager lib)
      → r.0 ≡ none
      → finish_reload lib desired cur r ≡ (none, remove_gone lib desired r.1 cur)
  reloaded desired cur (none, m) e = refl
  reloaded desired cur (some f, m) e = cc

  or_else-none : (o : Option String) → or_else o none ≡ o
  or_else-none none = refl
  or_else-none (some x) = refl

  -- After the removals an entry stands exactly for a wanted schedule.
  settle :
      (cur wanted : Option String) (before after : Option EntryRec)
      → cur ≡ expr_of before
      → Updated cur wanted before after
      → let final = (if is_wanted lib cur && not (is_wanted lib wanted) then none else after) in
        (expr_of final ≡ wanted)
        × ((r : EntryRec) → before ≡ some r → wanted ≡ some r.expr → final ≡ some r)
  settle none none before after c u = (ground (arith, u.unwanted refl), λ r e w. cc)
  settle (some y) none before after c u = (refl, λ r e w. cc)
  settle none (some x) before after c u = (ground (arith, u.changed x refl), λ r e w. ground arith)
  settle (some y) (some x) before after c u = elim (Bool-cases (y == x)) [
    | inl same ↦
        let stays = u.unchanged x refl same in
        (ground (arith, eq_iff y x, stays), λ r e w. stays ∙ e)
    | inr other ↦ (ground (arith, u.changed x refl other), λ r e w. ground (arith, eq_iff y x))
  ]

  -- A reload with schedules that all parse succeeds, and then each set has an entry exactly if the
  -- store schedules it, with the store's expression; an entry whose expression has not changed keeps
  -- its cron job.
  pub reload_lem :
      (m : Manager lib) (sets : List ScheduledSet) (t : String)
      → SetsParse sets
      → ((reload lib m (some sets)).0 ≡ none)
        × (expr_of (lookup t (reload lib m (some sets)).1.entries) ≡ scheduled t sets)
        × ((r : EntryRec)
            → lookup t m.entries ≡ some r
            → scheduled t sets ≡ some r.expr
            → lookup t (reload lib m (some sets)).1.entries ≡ some r)
  unfolding reload lookup
  reload_lem m sets t p =
      let desired = desired_of lib [] sets in
      let cur = current_of lib m.entries in
      let added =
        add_wanted_lem cur m desired (desired_of-AllParse [] sets p tt)
          (desired_of-NoDup [] sets tt) in
      let m' = (add_wanted lib cur m desired).1 in
      let result = reloaded desired cur (add_wanted lib cur m desired) added.0 in
      let wanted : lookup t desired ≡ scheduled t sets =
        lookup-desired_of t [] sets ∙ or_else-none _ in
      let gone = lookup-remove_gone desired m' cur t in
      let settled =
        settle (lookup t cur) (lookup t desired) (lookup t m.entries) (lookup t m'.entries)
          (lookup-current_of t m.entries) (added.1 t) in
      rw (result, gone) (refl, settled.0 ∙ wanted, λ r e w. settled.1 r e (wanted ∙ w))
