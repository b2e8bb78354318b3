-- ===== src/Sets/Compare/Winner.antt =====
-- Who wins a row of a comparison.
use crankfire.Prelude.{
  suc, String, ◌≡◌, refl, sym, ◌⊎◌, inl, inr, true, false, Option, none, some, List, [], ◌∷◌, arith,
  Bool-cases, All, In, nat_eq, string_eq, text_eq, Float64,
}
use crankfire.Sets.{ItemResult, is_completed}
use crankfire.Sets.Compare.{CompareMetric, better, consider, consider_all, winner_of, compare_row}

module _ (R : Float64) (m : CompareMetric (R.F)) where
  open R use {F, lt}

  abbrev Item : Type 0
  Item = ItemResult F

  abbrev val : Item → F
  val it = m.value it.summary

  -- No completed item is better than `v`.
  abbrev pub Unbeaten : F → List Item → Type 0
  Unbeaten v = All (λ it. is_completed it.status ≡ true → better R m (val it) v ≡ false)

  -- A completed item of the list with that name and value.
  abbrev pub Entry : String → F → List Item → Type 0
  Entry name v items =
      (it : Item) × In it items × (is_completed it.status ≡ true) × (it.name ≡ name) × (val it ≡ v)

  better_irrefl : (x : F) → better R m x x ≡ false
  better_irrefl x = ground (arith, R.lt_irrefl x)

  better_trans : (x y z : F) → better R m x y ≡ true → better R m y z ≡ true → better R m x z ≡ true
  better_trans x y z h k = ground (arith, R.lt_trans x y z, R.lt_trans z y x)

  -- What the loop does from a best item on.
  record Kept (name : String) (v : F) (items : List Item) (b : Option (String × F)) : Type 0 where
    last : String
    top : F
    result : b ≡ some (last, top)
    moved : ((last ≡ name) × (top ≡ v)) ⊎ ((better R m top v ≡ true) × Entry last top items)
    unbeaten : Unbeaten top items

  Entry-cons :
      (name : String) (v : F) (it : Item) (items : List Item)
      → Entry name v items
      → Entry name v (it ∷ items)
  Entry-cons name v it items (x, (i, e), c, n, q) = (x, (suc i, e), c, n, q)

  moved_on :
      (name last : String) (v top : F) (it : Item) (items : List Item)
      → is_completed it.status ≡ true
      → better R m (val it) v ≡ true
      → ((last ≡ it.name) × (top ≡ val it))
        ⊎ ((better R m top (val it) ≡ true) × Entry last top items)
      → (better R m top v ≡ true) × Entry last top (it ∷ items)
  moved_on name last v top it items c w (inl (e, q)) = (rw q w, (it, (0, refl), c, sym e, sym q))
  moved_on name last v top it items c w (inr (b, entry)) =
      (better_trans top (val it) v b w, Entry-cons last top it items entry)

  after_win :
      (last : String) (top : F) (it : Item) (items : List Item)
      → ((last ≡ it.name) × (top ≡ val it))
        ⊎ ((better R m top (val it) ≡ true) × Entry last top items)
      → better R m (val it) top ≡ false
  after_win last top it items (inl (e, q)) = rw q (better_irrefl (val it))
  after_win last top it items (inr (b, entry)) = elim (Bool-cases (better R m (val it) top)) [
    | inl h ↦ cc (better_trans top (val it) top b h, better_irrefl top)
    | inr h ↦ h
  ]

  won :
      (name : String) (v : F) (it : Item) (items : List Item) (b : Option (String × F))
      → is_completed it.status ≡ true
      → better R m (val it) v ≡ true
      → Kept it.name (val it) items b
      → Kept name v (it ∷ items) b
  won name v it items b c w k = record {
    last = k.last;
    top = k.top;
    result = k.result;
    moved = inr (moved_on name k.last v k.top it items c w k.moved);
    unbeaten = (λ _. after_win k.last k.top it items k.moved, k.unbeaten);
  }

  moved_past :
      (name last : String) (v top : F) (it : Item) (items : List Item)
      → ((last ≡ name) × (top ≡ v)) ⊎ ((better R m top v ≡ true) × Entry last top items)
      → ((last ≡ name) × (top ≡ v)) ⊎ ((better R m top v ≡ true) × Entry last top (it ∷ items))
  moved_past name last v top it items (inl e) = inl e
  moved_past name last v top it items (inr (b, entry)) = inr (b, Entry-cons last top it items entry)

  after_loss :
      (name last : String) (v top : F) (it : Item) (items : List Item)
      → better R m (val it) v ≡ false
      → ((last ≡ name) × (top ≡ v)) ⊎ ((better R m top v ≡ true) × Entry last top items)
      → better R m (val it) top ≡ false
  after_loss name last v top it items l (inl (e, q)) = rw q l
  after_loss name last v top it items l (inr (b, entry)) =
      elim (Bool-cases (better R m (val it) top)) [
        | inl h ↦ cc (better_trans (val it) top v h b)
        | inr h ↦ h
      ]

  lost :
      (name : String) (v : F) (it : Item) (items : List Item) (b : Option (String × F))
      → (is_completed it.status ≡ true → better R m (val it) v ≡ false)
      → Kept name v items b
      → Kept name v (it ∷ items) b
  lost name v it items b l k = record {
    last = k.last;
    top = k.top;
    result = k.result;
    moved = moved_past name k.last v k.top it items k.moved;
    unbeaten = (λ c. after_loss name k.last v k.top it items (l c) k.moved, k.unbeaten);
  }

  consider_all-Kept :
      (name : String) (v : F) (items : List Item)
      → Kept name v items (consider_all R m (some (name, v)) items)
  unfolding consider_all consider
  consider_all-Kept name v [] = record {
    last = name;
    top = v;
    result = refl;
    moved = inl (refl, refl);
    unbeaten = tt;
  }
  consider_all-Kept name v (it ∷ items) = elim (Bool-cases (is_completed it.status)) [
    | inr c ↦
        rw (c, consider_all, consider)
          (lost name v it items _ (λ t. cc) (consider_all-Kept name v items))
    | inl c ↦ elim (Bool-cases (better R m (val it) v)) [
      | inl w ↦
          rw (c, w, consider_all, consider)
            (won name v it items _ c w (consider_all-Kept it.name (val it) items))
      | inr l ↦
          rw (c, l, consider_all, consider)
            (lost name v it items _ (λ _. l) (consider_all-Kept name v items))
    ]
  ]

  -- Either no item is completed and there is no winner, or the winner is a completed item.
  pub data Wins (items : List Item) (winner : String) : Type 0 where
    nobody : All (λ it. is_completed it.status ≡ false) items → winner ≡ "" → Wins items winner
    somebody : (v : F) → Entry winner v items → Unbeaten v items → Wins items winner

  Wins-cons :
      (it : Item) (items : List Item) (w : String)
      → is_completed it.status ≡ false
      → Wins items w
      → Wins (it ∷ items) w
  Wins-cons it items w c (nobody a e) = nobody (c, a) e
  Wins-cons it items w c (somebody v entry u) =
      somebody v (Entry-cons w v it items entry) (λ t. cc, u)

  first_or_later :
      (last : String) (top : F) (it : Item) (items : List Item)
      → is_completed it.status ≡ true
      → ((last ≡ it.name) × (top ≡ val it))
        ⊎ ((better R m top (val it) ≡ true) × Entry last top items)
      → Entry last top (it ∷ items)
  first_or_later last top it items c (inl (e, q)) = (it, (0, refl), c, sym e, sym q)
  first_or_later last top it items c (inr (b, entry)) = Entry-cons last top it items entry

  first_of :
      (it : Item) (items : List Item) (b : Option (String × F))
      → is_completed it.status ≡ true
      → Kept it.name (val it) items b
      → Wins (it ∷ items) (winner_of R b)
  first_of it items b c k = rw k.result (
      somebody k.top (first_or_later k.last k.top it items c k.moved)
        (λ _. after_win k.last k.top it items k.moved, k.unbeaten))

  consider_all-Wins : (items : List Item) → Wins items (winner_of R (consider_all R m none items))
  unfolding consider_all consider
  consider_all-Wins [] = nobody tt refl
  consider_all-Wins (it ∷ items) = elim (Bool-cases (is_completed it.status)) [
    | inl c ↦
        rw (c, consider_all, consider)
          (first_of it items _ c (consider_all-Kept it.name (val it) items))
    | inr c ↦ rw (c, consider_all, consider) (Wins-cons it items _ c (consider_all-Wins items))
  ]

  -- The winner of a metric is the name of a completed item whose value no completed item beats,
  -- whatever the order of the items, or no item is completed and the winner is empty.
  pub compare_row-Wins : (items : List Item) → Wins items (compare_row R m items).winner
  unfolding compare_row
  compare_row-Wins items = consider_all-Wins items
