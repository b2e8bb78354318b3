-- ===== src/Feeder/Rounds.antt =====
-- The calls of `Next` counted in rounds over the records.
use crankfire.Prelude.{
  get_elem?-of_lt, leb→le, ℕ, suc, ◌+◌, ◌%◌, ◌<◌, ◌≡◌, refl, sym, ap, ◌∙◌, subst, inl, inr, Bool,
  true, false, some, List, [], ◌∷◌, arith, leb, if◌then◌else◌, Bool-cases, Option-cases, length,
  get_elem?, nat_eq, string_eq,
}
use native.Mathlib.Nat.{suc-mod, mod-lt, mod_self, mod-eq_of_lt, zero-mod}
use crankfire.Feeder.{Record, JsonFeeder, Fed, fed, first_empty, new_json_feeder, next, handed}

-- The feeder after some calls, each with a context that has ended or not.
pub nexts : JsonFeeder → List Bool → JsonFeeder
nexts f [] = f
nexts f (is_done ∷ calls) = nexts (next is_done f).1 calls

-- The calls that got a record.
abbrev pub served : List Bool → ℕ
served [] = 0
served (true ∷ calls) = served calls
served (false ∷ calls) = suc (served calls)

-- Where the next record is taken.
abbrev pub place : ℕ → ℕ → ℕ
place n i = if leb n i then 0 else i

pub place-suc : (n k : ℕ) → 0 < n → place n (suc (k % n)) ≡ suc k % n
place-suc n k h = elim (Bool-cases (leb n (suc (k % n)))) [
  | inl full ↦
      let e : suc (k % n) ≡ n = omega (arith, leb→le n (suc (k % n)) full, mod-lt k h) in
      rw full (sym (suc-mod k n ∙ ap (λ m. m % n) e ∙ mod_self n))
  | inr more ↦ rw more (sym (suc-mod k n ∙ mod-eq_of_lt (ground (arith, more))))
]

-- The feeder over the records, after `k` of them.
record Stands (records : List Record) (k : ℕ) (f : JsonFeeder) : Type 0 where
  same : f.records ≡ records
  at : place (length records) f.index ≡ k % length records

next-Stands :
    (records : List Record) (k : ℕ) (is_done : Bool) (f : JsonFeeder)
    → 0 < length records
    → Stands records k f
    → Stands records (if is_done then k else suc k) (next is_done f).1
unfolding next
next-Stands records k true f h v = v
next-Stands records k false f h v = record {
  same = v.same;
  at =
      ap (λ (rs : List Record). place (length records) (suc (place (length rs) f.index))) v.same
      ∙ ap (λ (i : ℕ). place (length records) (suc i)) v.at
      ∙ place-suc (length records) k h;
}

nexts-Stands :
    (records : List Record) (k : ℕ) (f : JsonFeeder) (calls : List Bool)
    → 0 < length records
    → Stands records k f
    → Stands records (k + served calls) (nexts f calls)
unfolding nexts
nexts-Stands records k f [] h v = subst (λ j. Stands records j f) (omega arith) v
nexts-Stands records k f (true ∷ calls) h v =
    nexts-Stands records k (next true f).1 calls h (next-Stands records k true f h v)
nexts-Stands records k f (false ∷ calls) h v =
    subst (λ j. Stands records j (nexts (next false f).1 calls)) (omega arith)
      (nexts-Stands records (suc k) (next false f).1 calls h (next-Stands records k false f h v))

made-Stands :
    (records : List Record) (f : JsonFeeder)
    → new_json_feeder records ≡ fed f
    → (0 < length records) × Stands records 0 f
unfolding new_json_feeder
made-Stands [] f h = ground (arith, h)
made-Stands (r ∷ rs) f h = elim (Option-cases (first_empty 0 (r ∷ rs))) [
  | inr (i, e) ↦ ground (arith, rw e at h)
  | inl e ↦
      let g : ◌≡◌ {A = Fed JsonFeeder} (fed (record { records = r ∷ rs; index = 0 })) (fed f) =
        rw e at h in
      let same : ◌≡◌ {A = JsonFeeder} (record { records = r ∷ rs; index = 0 }) f =
        ground (arith, g) in
      (
        omega arith,
        subst (λ x. Stands (r ∷ rs) 0 x) same
            (record { same = refl; at = ground (arith, zero-mod (length (r ∷ rs))) }),
      )
]

-- A feeder that was made hands out its records in rounds: after any calls, with contexts that have ended
-- among them, the next call whose context has not ended gets the record whose index is the number of
-- records handed out so far, counted modulo the number of records; it never reads out of range and is
-- never exhausted.
pub next_round :
    (records : List Record) (f : JsonFeeder) (calls : List Bool)
    → new_json_feeder records ≡ fed f
    → (r : Record) × (get_elem? records (served calls % length records) ≡ some r)
      × ((next false (nexts f calls)).0 ≡ fed r)
unfolding next
next_round records f calls h =
    let (some_record, start) = made-Stands records f h in
    let v = nexts-Stands records 0 f calls some_record start in
    let (r, e) =
      get_elem?-of_lt records (served calls % length records) (mod-lt (served calls) some_record) in
    (
      r,
      e,
      ap (λ (rs : List Record). handed (get_elem? rs (place (length rs) (nexts f calls).index)))
            v.same
          ∙ ap (λ (i : ℕ). handed (get_elem? records i))
              (v.at ∙ ap (λ (m : ℕ). m % length records) (omega arith))
          ∙ ap handed e,
    )
