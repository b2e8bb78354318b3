-- ===== src/Scheduler/Sync.antt =====
-- The manager's entries against the registered cron jobs: `AddOrReplace` and `Remove`.
use crankfire.Prelude.{
  ℕ, String, ◌≡◌, refl, ◌≢◌, ◌↔◌, inl, inr, true, Option, none, some, arith, nat_beq, if◌then◌else◌,
  Bool-cases, ◌==◌, nat_eq, string_eq, text_eq,
}
use crankfire.Prelude.Maps.{lookup, insert, lookup-insert, lookup-delete}
use text.Mathlib.TextEquality.{eq_iff}
use crankfire.Scheduler.{Cron, EntryRec, Manager, unregister, add_or_replace, dropped, remove_set}

module _ (lib : Cron) where
  open lib use {C, job}

  -- Each entry has its job, and each job stands in an entry.
  pub record IsSynced (m : Manager lib) : Type 0 where
    pub registered :
        (s : String) (r : EntryRec)
        → lookup s m.entries ≡ some r
        → job m.cron r.id ≡ some (r.expr, s)
    pub recorded :
        (i : ℕ) (e s : String)
        → job m.cron i ≡ some (e, s)
        → lookup s m.entries ≡ some (record { id = i; expr = e })

  -- Without the entry of a set and its job the rest stays in step, and the set has neither.
  dropped-IsSynced :
      (m : Manager lib) (s : String) (o : Option EntryRec)
      → lookup s m.entries ≡ o
      → IsSynced m
      → IsSynced (dropped lib m s o)
  dropped-IsSynced m s none e v = v
  dropped-IsSynced m s (some rec) e v = record {
    registered = λ t r h. ground (
      arith,
      eq_iff s t,
      lookup-delete s t m.entries,
      lib.job-remove rec.id r.id m.cron,
      v.registered s rec,
      v.registered t r,
    );
    recorded = λ i x t h. ground (
      arith,
      eq_iff s t,
      lookup-delete s t m.entries,
      lib.job-remove rec.id i m.cron,
      v.recorded i x t,
    );
  }

  pub remove_set-IsSynced :
      (m : Manager lib) (s : String) → IsSynced m → IsSynced (remove_set lib m s)
  unfolding remove_set
  remove_set-IsSynced m s v = dropped-IsSynced m s (lookup s m.entries) refl v

  -- No job of the set is left once its entry is unregistered.
  unregister-job :
      (m : Manager lib) (s : String) (o : Option EntryRec) (i : ℕ) (x : String)
      → lookup s m.entries ≡ o
      → IsSynced m
      → job (unregister lib o m.cron) i ≢ some (x, s)
  unregister-job m s none i x e v h = ground (arith, v.recorded i x s)
  unregister-job m s (some rec) i x e v h =
      ground (arith, lib.job-remove rec.id i m.cron, v.recorded i x s)

  -- The jobs of the other sets stay.
  unregister_other :
      (m : Manager lib) (s t : String) (o : Option EntryRec) (i : ℕ) (x : String)
      → lookup s m.entries ≡ o
      → IsSynced m
      → s ≢ t
      → (job (unregister lib o m.cron) i ≡ some (x, t)) ↔ (job m.cron i ≡ some (x, t))
  unregister_other m s t none i x e v n = (λ h. h, λ h. h)
  unregister_other m s t (some rec) i x e v n =
      ground (arith, lib.job-remove rec.id i m.cron, v.registered s rec)

  register-IsSynced :
      (m : Manager lib) (s x : String) (c : C) (i : ℕ) (c' : C)
      → IsSynced m
      → c ≡ unregister lib (lookup s m.entries) m.cron
      → job c i ≡ none
      → ((j : ℕ) → job c' j ≡ (if nat_beq i j then some (x, s) else job c j))
      → IsSynced (record { cron = c'; entries = insert s (record { id = i; expr = x }) m.entries })
  register-IsSynced m s x c i c' v d f g = record {
    registered = λ t r h. elim (Bool-cases (s == t)) [
      | inl e ↦
          ground
            (arith, eq_iff s t, lookup-insert s t (record { id = i; expr = x }) m.entries, g r.id)
      | inr e ↦ ground (
        arith,
        eq_iff s t,
        lookup-insert s t (record { id = i; expr = x }) m.entries,
        g r.id,
        v.registered t r,
        other t r.id r.expr (λ q. ground (arith, eq_iff s t)),
      )
    ];
    recorded = λ j y t h. elim (Bool-cases (s == t)) [
      | inl e ↦ ground (
        arith,
        eq_iff s t,
        lookup-insert s t (record { id = i; expr = x }) m.entries,
        g j,
        gone j y,
      )
      | inr e ↦ ground (
        arith,
        eq_iff s t,
        lookup-insert s t (record { id = i; expr = x }) m.entries,
        g j,
        v.recorded j y t,
        other t j y (λ q. ground (arith, eq_iff s t)),
      )
    ];
  }
    where
      other :
          (t : String) (j : ℕ) (y : String)
          → s ≢ t
          → (job c j ≡ some (y, t)) ↔ (job m.cron j ≡ some (y, t))
      other t j y n = rw d (unregister_other m s t (lookup s m.entries) j y refl v n)

      gone : (j : ℕ) (y : String) → job c j ≢ some (y, s)
      gone j y = rw d (unregister-job m s (lookup s m.entries) j y refl v)

  -- Registering a set keeps every entry with its cron job and every cron job with its entry, whether
  -- the expression parses or not.
  pub add_or_replace-IsSynced :
      (m : Manager lib) (s e : String) → IsSynced m → IsSynced (add_or_replace lib m s e).1
  unfolding add_or_replace
  add_or_replace-IsSynced m s e v = elim (Bool-cases (lib.parses e)) [
    | inr wrong ↦ rw (wrong, add_or_replace) v
    | inl fine ↦
        let c = unregister lib (lookup s m.entries) m.cron in
        let (i, c', a, f, g) = lib.add_func_lem e s c fine in
        rw (fine, a, add_or_replace) (register-IsSynced m s e c i c' v refl f g)
  ]

  -- What registering an expression that parses does to the entries: the set has the expression, under
  -- some id, and the other entries stay.
  pub lookup-add_or_replace :
      (m : Manager lib) (s e t : String)
      → lib.parses e ≡ true
      → (i : ℕ) × ((add_or_replace lib m s e).0 ≡ none)
        × (lookup t (add_or_replace lib m s e).1.entries
            ≡ (if s == t then some (record { id = i; expr = e }) else lookup t m.entries))
  unfolding add_or_replace
  lookup-add_or_replace m s e t fine =
      let c = unregister lib (lookup s m.entries) m.cron in
      let (i, c', a, f, g) = lib.add_func_lem e s c fine in
      (
        i,
        rw (fine, a, add_or_replace) refl,
        rw (fine, a, add_or_replace) (lookup-insert s t _ m.entries),
      )
