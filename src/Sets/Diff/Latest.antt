-- ===== src/Sets/Diff/Latest.antt =====
-- The items that two runs have in common, and when one got worse or better.
use crankfire.Prelude.{
  String, ◌≡◌, refl, sym, ap, ◌∙◌, subst, ◌↔◌, ◌⊎◌, inl, inr, Bool, true, Option, none, some, List,
  [], ◌∷◌, ◌++◌, arith, if◌then◌else◌, Bool-cases, Option-cases, ◌==◌, nat_eq, string_eq, Float64,
  zero_f,
}
use crankfire.Prelude.Int.{pos, beq_ℤ}
use crankfire.Prelude.Maps.{lookup, insert, lookup-insert, or_else}
use crankfire.Sets.{RunSummary, ItemResult, StageResult, SetRun}
use crankfire.Sets.Compare.{error_rate_of}
use crankfire.Sets.Diff.{
  ItemRef, Refs, flatten_stage, flatten_stages, flatten_items, p95_frac, regresses, improves,
}

module _ (R : Float64) where
  open R use {F, of_int, sub, div, lt, eq}

  -- All items of a run, stage by stage.
  abbrev pub stage_items : List (StageResult F) → List (ItemResult F)
  stage_items [] = []
  stage_items (st ∷ stages) = st.items ++ stage_items stages

  -- The last item with the name.
  abbrev pub latest : String → List (ItemResult F) → Option (ItemResult F)
  latest name [] = none
  latest name (it ∷ items) = or_else (latest name items) (if it.name == name then some it else none)

  abbrev it_of : Option (ItemRef F) → Option (ItemResult F)
  it_of none = none
  it_of (some r) = some r.it

  or_else_assoc :
      (x y z : Option (ItemResult F)) → or_else (or_else x y) z ≡ or_else x (or_else y z)
  or_else_assoc none y z = refl
  or_else_assoc (some a) y z = refl

  or_else-none : (x : Option (ItemResult F)) → or_else x none ≡ x
  or_else-none none = refl
  or_else-none (some a) = refl

  latest-append :
      (name : String) (xs ys : List (ItemResult F))
      → latest name (xs ++ ys) ≡ or_else (latest name ys) (latest name xs)
  latest-append name [] ys = sym (or_else-none (latest name ys))
  latest-append name (x ∷ xs) ys =
      ap (λ o. or_else o (if x.name == name then some x else none)) (latest-append name xs ys)
      ∙ or_else_assoc (latest name ys) (latest name xs) (if x.name == name then some x else none)

  insert-it_of :
      (name : String) (r : ItemRef F) (m : Refs R) (key : String)
      → it_of (lookup name (insert key r m))
        ≡ or_else (if key == name then some r.it else none) (it_of (lookup name m))
  insert-it_of name r m key = elim (Bool-cases (key == name)) [
    | inl hit ↦ ap it_of (lookup-insert key name r m) ∙ rw (hit) refl
    | inr miss ↦ ap it_of (lookup-insert key name r m) ∙ rw (miss) refl
  ]

  flatten_stage-latest :
      (name stage : String) (m : Refs R) (items : List (ItemResult F))
      → it_of (lookup name (flatten_stage R stage m items))
        ≡ or_else (latest name items) (it_of (lookup name m))
  unfolding flatten_stage
  flatten_stage-latest name stage m [] = refl
  flatten_stage-latest name stage m (it ∷ items) =
      let r : ItemRef F = record { it = it; stage = stage } in
      let here : Option (ItemResult F) = if it.name == name then some it else none in
      flatten_stage-latest name stage (insert it.name r m) items
      ∙ ap (or_else (latest name items)) (insert-it_of name r m it.name)
      ∙ sym (or_else_assoc (latest name items) here (it_of (lookup name m)))

  flatten_stages-latest :
      (name : String) (m : Refs R) (stages : List (StageResult F))
      → it_of (lookup name (flatten_stages R m stages))
        ≡ or_else (latest name (stage_items stages)) (it_of (lookup name m))
  unfolding flatten_stages
  flatten_stages-latest name m [] = refl
  flatten_stages-latest name m (st ∷ stages) =
      flatten_stages-latest name (flatten_stage R st.name m st.items) stages
      ∙ ap (or_else (latest name (stage_items stages)))
          (flatten_stage-latest name st.name m st.items)
      ∙ sym (
          or_else_assoc (latest name (stage_items stages)) (latest name st.items)
            (it_of (lookup name m)))
      ∙ ap (λ o. or_else o (it_of (lookup name m)))
          (sym (latest-append name st.items (stage_items stages)))

  flatten_items-latest :
      (name : String) (r : SetRun F)
      → it_of (lookup name (flatten_items R r)) ≡ latest name (stage_items r.stages)
  unfolding flatten_items lookup
  flatten_items-latest name r =
      flatten_stages-latest name [] r.stages ∙ or_else-none (latest name (stage_items r.stages))

  -- How much p95 grew, as a share of the first one, which is not 0.
  abbrev pub growth : RunSummary F → RunSummary F → F
  growth a b = if eq a.p95_ms (zero_f R) then zero_f R else div (sub b.p95_ms a.p95_ms) a.p95_ms

  -- The errors per request, of no requests 0.
  abbrev pub failed_share : RunSummary F → F
  failed_share s =
      if beq_ℤ s.total_requests (pos 0)
      then zero_f R
      else div (of_int s.errors) (of_int s.total_requests)

  -- p95 grew by more than 5 %, or the share of errors by more than 0.005.
  abbrev pub IsWorse : RunSummary F → RunSummary F → Type 0
  IsWorse a b =
      (lt (div (of_int (pos 5)) (of_int (pos 100))) (growth a b) ≡ true)
      ⊎ (lt (div (of_int (pos 5)) (of_int (pos 1000))) (sub (failed_share b) (failed_share a))
          ≡ true)

  -- p95 fell by more than 5 %, or the share of errors by more than 0.005.
  abbrev pub IsBetter : RunSummary F → RunSummary F → Type 0
  IsBetter a b =
      (lt (growth a b) (sub (zero_f R) (div (of_int (pos 5)) (of_int (pos 100)))) ≡ true)
      ⊎ (lt (sub (failed_share b) (failed_share a))
            (sub (zero_f R) (div (of_int (pos 5)) (of_int (pos 1000))))
          ≡ true)

  pub regresses-IsWorse :
      (ia ib : ItemRef F) → (regresses R ia ib ≡ true) ↔ IsWorse ia.it.summary ib.it.summary
  unfolding regresses p95_frac error_rate_of
  regresses-IsWorse ia ib = ground arith

  pub improves-IsBetter :
      (ia ib : ItemRef F) → (improves R ia ib ≡ true) ↔ IsBetter ia.it.summary ib.it.summary
  unfolding improves p95_frac error_rate_of
  improves-IsBetter ia ib = ground arith

  -- A name whose last items in the two runs compare as asked.
  abbrev pub Shared : (RunSummary F → RunSummary F → Type 0) → SetRun F → SetRun F → Type 0
  Shared P a b =
      (name : String) × (ia : ItemResult F) × (ib : ItemResult F) × (latest name
          (stage_items a.stages)
        ≡ some ia)
      × (latest name (stage_items b.stages) ≡ some ib)
      × P ia.summary ib.summary

  found_ref :
      (name : String) (r : SetRun F) (it : ItemResult F)
      → latest name (stage_items r.stages) ≡ some it
      → (ref : ItemRef F) × (lookup name (flatten_items R r) ≡ some ref) × (ref.it ≡ it)
  found_ref name r it h = elim (Option-cases (lookup name (flatten_items R r))) [
    | inl gone ↦ ground (arith, ap it_of gone, flatten_items-latest name r, h)
    | inr (ref, e) ↦
        let same : some ref.it ≡ some it = sym (ap it_of e) ∙ flatten_items-latest name r ∙ h in
        (ref, e, ground (arith, same))
  ]

  -- The same of the two maps.
  abbrev pub SharedRefs : (ItemRef F → ItemRef F → Bool) → SetRun F → SetRun F → Type 0
  SharedRefs p a b =
      (name : String) × (ia : ItemRef F) × (ib : ItemRef F) × (lookup name (flatten_items R a)
        ≡ some ia)
      × (lookup name (flatten_items R b) ≡ some ib)
      × (p ia ib ≡ true)

  pub Shared-SharedRefs :
      (p : ItemRef F → ItemRef F → Bool) (P : RunSummary F → RunSummary F → Type 0) (a b : SetRun F)
      → ((ia ib : ItemRef F) → (p ia ib ≡ true) ↔ P ia.it.summary ib.it.summary)
      → SharedRefs p a b ↔ Shared P a b
  Shared-SharedRefs p P a b same = (
    λ (name, ia, ib, ea, eb, h). (
      name,
      ia.it,
      ib.it,
      sym (flatten_items-latest name a) ∙ ap it_of ea,
      sym (flatten_items-latest name b) ∙ ap it_of eb,
      (same ia ib).0 h,
    ),
    λ (name, sa, sb, ea, eb, h).
        let (ia, la, ha) = found_ref name a sa ea in
        let (ib, lb, hb) = found_ref name b sb eb in
        (
          name,
          ia,
          ib,
          la,
          lb,
          (same ia ib).1 (
              subst (λ x. P x.summary ib.it.summary) (sym ha)
                (subst (λ x. P sa.summary x.summary) (sym hb) h)),
        ),
  )
