-- ===== src/Sets/Diff/Verdict.antt =====
-- The verdict on two runs, and the names that have a row.
use crankfire.Prelude.{
  String, ◌≡◌, refl, ◌∙◌, subst, ◌≢◌, ◌↔◌, ◌⊎◌, inl, inr, Bool, true, false, ◌||◌, Option, none,
  some, List, [], ◌∷◌, ◌++◌, arith, Bool-cases, ◌==◌, nat_eq, string_eq, Float64,
}
use crankfire.Prelude.Maps.{lookup, insert, lookup-insert, beq_refl}
use text.Mathlib.TextEquality.{eq_iff}
use crankfire.Sets.{ItemResult, StageResult, SetRun}
use crankfire.Sets.Diff.{
  ItemRef, Refs, flatten_stage, flatten_stages, flatten_items, is_seen, add_name, add_items,
  add_stages, regresses, improves, both, any_item, verdict_of, diff,
}
use crankfire.Sets.Diff.Latest.{
  Shared, SharedRefs, Shared-SharedRefs, IsWorse, IsBetter, regresses-IsWorse, improves-IsBetter,
}
use crankfire.Sets.{RunSummary}

module _ (R : Float64) where
  open R use {F}

  -- Every name of the map is in the order.
  abbrev Listed : Refs R → List String → Type 0
  Listed m order = (name : String) → lookup name m ≢ none → is_seen R order name ≡ true

  is_seen-append :
      (order : List String) (new name : String)
      → is_seen R (order ++ new ∷ []) name ≡ (is_seen R order name || new == name)
  unfolding is_seen
  is_seen-append [] new name = ground arith
  is_seen-append (x ∷ order) new name = ground (arith, is_seen-append order new name)

  add_name-keeps :
      (order : List String) (new name : String)
      → is_seen R order name ≡ true
      → is_seen R (add_name R order new) name ≡ true
  add_name-keeps order new name h = ground (arith, h, is_seen-append order new name)

  add_name_self : (order : List String) (new : String) → is_seen R (add_name R order new) new ≡ true
  add_name_self order new = ground (arith, is_seen-append order new new, beq_refl new)

  add_items-keeps :
      (order : List String) (items : List (ItemResult F)) (name : String)
      → is_seen R order name ≡ true
      → is_seen R (add_items R order items) name ≡ true
  unfolding add_items
  add_items-keeps order [] name h = h
  add_items-keeps order (it ∷ items) name h =
      add_items-keeps (add_name R order it.name) items name (add_name-keeps order it.name name h)

  add_stages-keeps :
      (order : List String) (stages : List (StageResult F)) (name : String)
      → is_seen R order name ≡ true
      → is_seen R (add_stages R order stages) name ≡ true
  unfolding add_stages
  add_stages-keeps order [] name h = h
  add_stages-keeps order (st ∷ stages) name h =
      add_stages-keeps (add_items R order st.items) stages name
        (add_items-keeps order st.items name h)

  add_name-Listed :
      (m : Refs R) (order : List String) (name : String) (r : ItemRef F)
      → Listed m order
      → Listed (insert name r m) (add_name R order name)
  add_name-Listed m order name r h other n = elim (Bool-cases (name == other)) [
    | inl e ↦
        subst (λ k. is_seen R (add_name R order name) k ≡ true) ((eq_iff name other).0 e)
          (add_name_self order name)
    | inr e ↦
        add_name-keeps order name other
          (h other (λ gone. n (lookup-insert name other r m ∙ rw e gone)))
  ]

  add_items-Listed :
      (stage : String) (m : Refs R) (order : List String) (items : List (ItemResult F))
      → Listed m order
      → Listed (flatten_stage R stage m items) (add_items R order items)
  unfolding flatten_stage add_items
  add_items-Listed stage m order [] h = h
  add_items-Listed stage m order (it ∷ items) h =
      add_items-Listed stage (insert it.name (record { it = it; stage = stage }) m)
        (add_name R order it.name) items
        (add_name-Listed m order it.name (record { it = it; stage = stage }) h)

  add_stages-Listed :
      (m : Refs R) (order : List String) (stages : List (StageResult F))
      → Listed m order
      → Listed (flatten_stages R m stages) (add_stages R order stages)
  unfolding flatten_stages add_stages
  add_stages-Listed m order [] h = h
  add_stages-Listed m order (st ∷ stages) h =
      add_stages-Listed (flatten_stage R st.name m st.items) (add_items R order st.items) stages
        (add_items-Listed st.name m order st.items h)

  both-Shared :
      (p : ItemRef F → ItemRef F → Bool) (a b : SetRun F) (name : String)
      (oa ob : Option (ItemRef F))
      → lookup name (flatten_items R a) ≡ oa
      → lookup name (flatten_items R b) ≡ ob
      → both R p oa ob ≡ true
      → SharedRefs R p a b
  both-Shared p a b name none ob ea eb h = ground arith
  both-Shared p a b name (some ia) none ea eb h = ground arith
  both-Shared p a b name (some ia) (some ib) ea eb h = (name, ia, ib, ea, eb, h)

  any_item-Shared :
      (p : ItemRef F → ItemRef F → Bool) (a b : SetRun F) (order : List String)
      → any_item R p (flatten_items R a) (flatten_items R b) order ≡ true
      → SharedRefs R p a b
  unfolding any_item
  any_item-Shared p a b [] h = ground arith
  any_item-Shared p a b (name ∷ order) h =
      elim (Bool-cases
        (both R p (lookup name (flatten_items R a)) (lookup name (flatten_items R b)))) [
          | inl hit ↦ both-Shared p a b name _ _ refl refl hit
          | inr miss ↦ any_item-Shared p a b order (ground (arith, h, miss))
        ]

  any_item-of_seen :
      (p : ItemRef F → ItemRef F → Bool) (ma mb : Refs R) (order : List String) (name : String)
      → is_seen R order name ≡ true
      → both R p (lookup name ma) (lookup name mb) ≡ true
      → any_item R p ma mb order ≡ true
  unfolding any_item is_seen
  any_item-of_seen p ma mb [] name s h = ground arith
  any_item-of_seen p ma mb (x ∷ order) name s h = elim (Bool-cases (x == name)) [
    | inl e ↦ rw ((eq_iff x name).0 e) (ground (arith, h))
    | inr e ↦ ground (arith, any_item-of_seen p ma mb order name (ground (arith, s, e)) h)
  ]

  abbrev pub order_of : SetRun F → SetRun F → List String
  order_of a b = add_stages R (add_stages R [] a.stages) b.stages

  first-Listed : (a b : SetRun F) → Listed (flatten_items R a) (order_of a b)
  unfolding flatten_items lookup
  first-Listed a b name n =
      add_stages-keeps (add_stages R [] a.stages) b.stages name
        (add_stages-Listed [] [] a.stages (λ k no. absurd (no refl)) name n)

  second-Listed : (a b : SetRun F) → Listed (flatten_items R b) (order_of a b)
  unfolding flatten_items lookup
  second-Listed a b name n =
      add_stages-Listed [] (add_stages R [] a.stages) b.stages (λ k no. absurd (no refl)) name n

  any_item_lem :
      (p : ItemRef F → ItemRef F → Bool) (a b : SetRun F)
      → (any_item R p (flatten_items R a) (flatten_items R b) (order_of a b) ≡ true)
        ↔ SharedRefs R p a b
  any_item_lem p a b = (
    λ h. any_item-Shared p a b (order_of a b) h,
    λ (name, ia, ib, ea, eb, h).
        any_item-of_seen p (flatten_items R a) (flatten_items R b) (order_of a b) name
          (first-Listed a b name (λ no. ground (arith, ea, no))) (rw (ea, eb) h),
  )

  any_item-latest :
      (p : ItemRef F → ItemRef F → Bool) (P : RunSummary F → RunSummary F → Type 0) (a b : SetRun F)
      → ((ia ib : ItemRef F) → (p ia ib ≡ true) ↔ P ia.it.summary ib.it.summary)
      → (any_item R p (flatten_items R a) (flatten_items R b) (order_of a b) ≡ true)
        ↔ Shared R P a b
  any_item-latest p P a b same =
      let refs = any_item_lem p a b in
      let items = Shared-SharedRefs R p P a b same in
      (λ h. items.0 (refs.0 h), λ s. refs.1 (items.1 s))

  differ : {x y : String} → (x == y) ≡ false → x ≢ y
  differ {x = x} {y = y} n e = ground (arith, n, eq_iff x y)

  neither : {x y z : String} → (x == y) ≡ false → (x == z) ≡ false → (x ≡ y) ⊎ (x ≡ z) → ⊥
  neither n m (inl e) = differ n e
  neither n m (inr e) = differ m e

  verdict_lem :
      (r i : Bool)
      → let v = verdict_of R r i in
        (((v ≡ "regressed") ⊎ (v ≡ "mixed")) ↔ (r ≡ true))
        × (((v ≡ "improved") ⊎ (v ≡ "mixed")) ↔ (i ≡ true))
        × ((v ≡ "unchanged") ↔ ((r ≡ false) × (i ≡ false)))
  unfolding verdict_of
  verdict_lem true true = (
    (λ h. refl, λ h. inr refl),
    (λ h. refl, λ h. inr refl),
    (λ h. absurd (differ refl h), λ h. ground arith),
  )
  verdict_lem true false = (
    (λ h. refl, λ h. inl refl),
    (λ h. absurd (neither refl refl h), λ h. ground arith),
    (λ h. absurd (differ refl h), λ h. ground arith),
  )
  verdict_lem false true = (
    (λ h. absurd (neither refl refl h), λ h. ground arith),
    (λ h. refl, λ h. inl refl),
    (λ h. absurd (differ refl h), λ h. ground arith),
  )
  verdict_lem false false = (
    (λ h. absurd (neither refl refl h), λ h. ground arith),
    (λ h. absurd (neither refl refl h), λ h. ground arith),
    (λ h. (refl, refl), λ h. refl),
  )

  -- The verdict says that the second run regressed, alone or mixed with improvements, exactly if some
  -- item that both runs have got worse, that it improved exactly if some shared item got better, and that
  -- it is unchanged exactly if there is neither. Of the items with one name, over all stages of a run, the
  -- last counts; an item is worse if its p95 grew by more than 5 % or its share of errors by more than
  -- 0.005, and better if one of them fell by as much.
  pub diff-verdict :
      (a b : SetRun F)
      → let v = (diff R a b).overall_verdict in
        (((v ≡ "regressed") ⊎ (v ≡ "mixed")) ↔ Shared R (IsWorse R) a b)
        × (((v ≡ "improved") ⊎ (v ≡ "mixed")) ↔ Shared R (IsBetter R) a b)
        × ((v ≡ "unchanged") ↔ ((Shared R (IsWorse R) a b → ⊥) × (Shared R (IsBetter R) a b → ⊥)))
  unfolding diff
  diff-verdict a b =
      let r = any_item-latest (regresses R) (IsWorse R) a b (regresses-IsWorse R) in
      let i = any_item-latest (improves R) (IsBetter R) a b (improves-IsBetter R) in
      let v =
        verdict_lem
          (any_item R (regresses R) (flatten_items R a) (flatten_items R b) (order_of a b))
          (any_item R (improves R) (flatten_items R a) (flatten_items R b) (order_of a b)) in
      (
        (λ h. r.0 (v.0.0 h), λ s. v.0.1 (r.1 s)),
        (λ h. i.0 (v.1.0 h), λ s. v.1.1 (i.1 s)),
        (
          λ h. (λ s. no_true (v.2.0 h).0 (r.1 s), λ s. no_true (v.2.0 h).1 (i.1 s)),
          λ n. v.2.1 (to_false (λ t. n.0 (r.0 t)), to_false (λ t. n.1 (i.0 t))),
        ),
      )
    where
      no_true : {x : Bool} → x ≡ false → x ≡ true → ⊥
      no_true e h = ground (arith, e, h)

      to_false : {x : Bool} → (x ≡ true → ⊥) → x ≡ false
      to_false {x = true} h = absurd (h refl)
      to_false {x = false} h = refl
