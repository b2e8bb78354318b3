-- ===== src/Sets/Items/Completion.antt =====
-- What a stage records, in whatever order its items finish.
use crankfire.Prelude.{
  get_elem?-lt, length-replicate, ℕ, zero, suc, ◌<◌, String, ◌≡◌, refl, ap, ◌∙◌, subst, ◌↔◌, ◌⊎◌,
  inl, inr, true, false, Option, none, some, List, [], ◌∷◌, map, arith, nat_beq, if◌then◌else◌,
  Bool-cases, Option-cases, length, get_elem?, set, replicate, length-set, In, nat_eq, string_eq,
  text_eq, Float64,
}
use crankfire.Sets.{SetItem, Stage, ItemResult, is_completed, MetricSnapshot}
use crankfire.Sets.Items.{
  Backend, run_item, StageState, finish_item, finish_items, run_stage, blank_result,
}

get_elem?-set {ℓ} :
    {A : Type ℓ} (xs : List A) (i j : ℕ) (v : A)
    → i < length xs
    → get_elem? (set xs i v) j ≡ (if nat_beq i j then some v else get_elem? xs j)
get_elem?-set [] i j v h = absurd (omega arith)
get_elem?-set (x ∷ xs) zero zero v h = ground arith
get_elem?-set (x ∷ xs) zero (suc j) v h = ground arith
get_elem?-set (x ∷ xs) (suc i) zero v h = ground arith
get_elem?-set (x ∷ xs) (suc i) (suc j) v h = ground (arith, get_elem?-set xs i j v (omega arith))

-- Two lists are equal if the second has the image of every item of a list at its place.
eq_map {ℓ κ} :
    {A : Type ℓ} {B : Type κ} (f : A → B) (xs : List A) (ys : List B)
    → length ys ≡ length xs
    → ((i : ℕ) (a : A) → get_elem? xs i ≡ some a → get_elem? ys i ≡ some (f a))
    → ys ≡ map f xs
eq_map f [] [] l h = refl
eq_map f [] (y ∷ ys) l h = absurd (omega arith)
eq_map f (x ∷ xs) [] l h = absurd (omega arith)
eq_map f (x ∷ xs) (y ∷ ys) l h =
    let head = h 0 x refl in let tail = eq_map f xs ys (omega arith) (λ i a e. h (suc i) a e) in cc

-- Each index of the list occurs.
abbrev pub Covers {ℓ} : {A : Type ℓ} → List ℕ → List A → Type 0
Covers order xs = (i : ℕ) → i < length xs → In i order

module _ {C : Type 0} (R : Float64) (expand : String → String) (backend : Backend (R.F) C) where
  abbrev Items : Type 0
  Items = List SetItem

  abbrev State : Type 0
  State = StageState R expand backend

  abbrev res : SetItem → ItemResult (R.F)
  res item = (run_item R expand backend item).0

  abbrev pub Done : Items → State → ℕ → Type 0
  Done items st j =
      (item : SetItem) → get_elem? items j ≡ some item → get_elem? st.results j ≡ some (res item)

  finish_item-length :
      (items : Items) (st : State) (i : ℕ)
      → length (finish_item R expand backend st i (get_elem? items i)).results ≡ length st.results
  finish_item-length items st i = elim (Option-cases (get_elem? items i)) [
    | inl e ↦ rw e refl
    | inr (item, e) ↦ rw e (length-set st.results i (res item))
  ]

  finish_items-length :
      (items : Items) (st : State) (order : List ℕ)
      → length (finish_items R expand backend items st order).results ≡ length st.results
  unfolding finish_items
  finish_items-length items st [] = refl
  finish_items-length items st (i ∷ order) =
      finish_items-length items (finish_item R expand backend st i (get_elem? items i)) order
      ∙ finish_item-length items st i

  finish_item-Done_self :
      (items : Items) (st : State) (i : ℕ)
      → length st.results ≡ length items
      → Done items (finish_item R expand backend st i (get_elem? items i)) i
  finish_item-Done_self items st i l item e = rw e (
      get_elem?-set st.results i i (res item) (omega (arith, get_elem?-lt items i item e))
      ∙ ground arith)

  finish_item-Done :
      (items : Items) (st : State) (i j : ℕ)
      → length st.results ≡ length items
      → Done items st j
      → Done items (finish_item R expand backend st i (get_elem? items i)) j
  finish_item-Done items st i j l d item e = elim (Option-cases (get_elem? items i)) [
    | inl n ↦ rw n (d item e)
    | inr (other, o) ↦ rw o (
        ground (
          arith,
          get_elem?-set st.results i j (res other) (omega (arith, get_elem?-lt items i other o)),
          d item e,
        ))
  ]

  finish_items-Done :
      (items : Items) (st : State) (order : List ℕ) (j : ℕ)
      → length st.results ≡ length items
      → In j order ⊎ Done items st j
      → Done items (finish_items R expand backend items st order) j
  unfolding finish_items
  finish_items-Done items st [] j l (inl (k, e)) = ground arith
  finish_items-Done items st [] j l (inr d) = d
  finish_items-Done items st (i ∷ order) j l (inr d) =
      finish_items-Done items (finish_item R expand backend st i (get_elem? items i)) order j
        (finish_item-length items st i ∙ l) (inr (finish_item-Done items st i j l d))
  finish_items-Done items st (i ∷ order) j l (inl (zero, e)) =
      let same : i ≡ j = ground arith in
      finish_items-Done items (finish_item R expand backend st i (get_elem? items i)) order j
        (finish_item-length items st i ∙ l)
        (inr (
          subst (λ k. Done items (finish_item R expand backend st i (get_elem? items i)) k) same
            (finish_item-Done_self items st i l)))
  finish_items-Done items st (i ∷ order) j l (inl (suc k, e)) =
      finish_items-Done items (finish_item R expand backend st i (get_elem? items i)) order j
        (finish_item-length items st i ∙ l) (inl (k, e))

  -- An item of the stage did not complete.
  abbrev pub SomeFails : Items → Type 0
  SomeFails items = (item : SetItem) × In item items × (is_completed (res item).status ≡ false)

  finish_item-keeps_fail :
      (st : State) (i : ℕ) (o : Option SetItem)
      → st.any_fail ≡ true
      → (finish_item R expand backend st i o).any_fail ≡ true
  finish_item-keeps_fail st i none h = h
  finish_item-keeps_fail st i (some item) h = ground (arith, h)

  finish_items-keeps_fail :
      (items : Items) (st : State) (order : List ℕ)
      → st.any_fail ≡ true
      → (finish_items R expand backend items st order).any_fail ≡ true
  unfolding finish_items
  finish_items-keeps_fail items st [] h = h
  finish_items-keeps_fail items st (i ∷ order) h =
      finish_items-keeps_fail items (finish_item R expand backend st i (get_elem? items i)) order
        (finish_item-keeps_fail st i (get_elem? items i) h)

  finish_item-cause :
      (items : Items) (st : State) (i : ℕ) (o : Option SetItem)
      → get_elem? items i ≡ o
      → (finish_item R expand backend st i o).any_fail ≡ true
      → (st.any_fail ≡ true) ⊎ SomeFails items
  finish_item-cause items st i none e h = inl h
  finish_item-cause items st i (some item) e h =
      elim (Bool-cases (is_completed (res item).status)) [
        | inl fine ↦ inl (ground (arith, h, fine))
        | inr bad ↦ inr (item, (i, e), bad)
      ]

  finish_items-cause :
      (items : Items) (st : State) (order : List ℕ)
      → (finish_items R expand backend items st order).any_fail ≡ true
      → (st.any_fail ≡ true) ⊎ SomeFails items
  unfolding finish_items
  finish_items-cause items st [] h = inl h
  finish_items-cause items st (i ∷ order) h =
      let o = get_elem? items i in
      elim (finish_items-cause items (finish_item R expand backend st i o) order h) [
        | inl now ↦ finish_item-cause items st i o refl now
        | inr s ↦ inr s
      ]

  finish_items-fails :
      (items : Items) (st : State) (order : List ℕ) (j : ℕ) (item : SetItem)
      → In j order
      → get_elem? items j ≡ some item
      → is_completed (res item).status ≡ false
      → (finish_items R expand backend items st order).any_fail ≡ true
  unfolding finish_items
  finish_items-fails items st [] j item (k, e) g bad = ground arith
  finish_items-fails items st (i ∷ order) j item (zero, e) g bad =
      let here : get_elem? items i ≡ some item = ap (get_elem? items) (ground arith) ∙ g in
      finish_items-keeps_fail items (finish_item R expand backend st i (get_elem? items i)) order
        (rw here (ground (arith, bad)))
  finish_items-fails items st (i ∷ order) j item (suc k, e) g bad =
      finish_items-fails items (finish_item R expand backend st i (get_elem? items i)) order j item
        (k, e) g bad

  -- Whatever the order in which all the items of a stage finish, its results are those of the items
  -- in their order, and it reports a failure exactly when one of them did not complete.
  pub run_stage_results :
      (stage : Stage) (per : List (String × MetricSnapshot (R.F))) (order : List ℕ)
      → Covers order stage.items
      → let st = run_stage R expand backend stage per order in
        (st.results ≡ map (λ item. (run_item R expand backend item).0) stage.items)
        × ((st.any_fail ≡ true) ↔ SomeFails stage.items)
  unfolding run_stage
  run_stage_results stage per order c =
      let items = stage.items in
      let st0 : State = record {
        results = replicate (length items) (blank_result R expand backend);
        any_fail = false;
        per_item = per;
      } in
      let l = length-replicate (length items) (blank_result R expand backend) in
      (
        eq_map res items (finish_items R expand backend items st0 order).results
            (finish_items-length items st0 order ∙ l)
            (λ i item e.
              finish_items-Done items st0 order i l (inl (c i (get_elem?-lt items i item e))) item
                e),
        (
          λ h. caused (finish_items-cause items st0 order h),
          λ f.
              finish_items-fails items st0 order f.1.0 f.0
                (c f.1.0 (get_elem?-lt items f.1.0 f.0 f.1.1)) f.1.1 f.2,
        ),
      )
    where
      caused : (false ≡ true) ⊎ SomeFails stage.items → SomeFails stage.items
      caused (inl h) = ground arith
      caused (inr f) = f
