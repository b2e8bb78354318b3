-- ===== src/Prelude/Order.antt =====
-- Strict total orders, and the sort of a list by one. Go's `sort.Strings` and `sort.Slice` by a total
-- order have one possible result, which an insertion sort gives.
use mathlib.Core.Path.{◌≡◌, refl, sym, ◌∙◌, ap₂, subst}
use mathlib.Core.Logic.{inl, inr}
use mathlib.Core.Bool.{Bool, true, false, ◌&&◌, ◌||◌}
use mathlib.Core.List.{List, [], ◌∷◌, Permᴰ}
use mathlib.Core.List.Permᴰ
use native.Mathlib.Omega.{arith}
use crankfire.Prelude.Tests.{ltb, nat_beq, if◌then◌else◌, Bool-cases}
use crankfire.Prelude.Equality.{Text}

pub record Order {ℓ} (A : Type ℓ) : Type ℓ where
  pub less : A → A → Bool
  pub less_asym : (a b : A) → less a b ≡ true → less b a ≡ false
  pub less_trans : (a b c : A) → less a b ≡ true → less b c ≡ true → less a c ≡ true
  pub less_total : (a b : A) → less a b ≡ false → less b a ≡ false → a ≡ b

unfoldable pub text_less : Text → Text → Bool
text_less s [] = false
text_less [] (c ∷ cs) = true
text_less (b ∷ bs) (c ∷ cs) = ltb b c || nat_beq b c && text_less bs cs

pub text_less_asym : (s t : Text) → text_less s t ≡ true → text_less t s ≡ false
unfolding text_less
text_less_asym [] [] h = refl
text_less_asym (b ∷ bs) [] h = ground arith
text_less_asym [] (c ∷ cs) h = refl
text_less_asym (b ∷ bs) (c ∷ cs) h = ground (arith, text_less_asym bs cs)

pub text_less_trans :
    (s t u : Text) → text_less s t ≡ true → text_less t u ≡ true → text_less s u ≡ true
unfolding text_less
text_less_trans s [] u h k = ground arith
text_less_trans s (c ∷ cs) [] h k = ground arith
text_less_trans [] (c ∷ cs) (d ∷ ds) h k = refl
text_less_trans (b ∷ bs) (c ∷ cs) (d ∷ ds) h k = ground (arith, text_less_trans bs cs ds)

pub text_less_total : (s t : Text) → text_less s t ≡ false → text_less t s ≡ false → s ≡ t
unfolding text_less
text_less_total [] [] h k = refl
text_less_total (b ∷ bs) [] h k = ground arith
text_less_total [] (c ∷ cs) h k = ground arith
text_less_total (b ∷ bs) (c ∷ cs) h k = ground (arith, text_less_total bs cs)

instance abbrev pub text_order : Order Text
text_order = record {
  less = text_less;
  less_asym = text_less_asym;
  less_trans = text_less_trans;
  less_total = text_less_total;
}

module _ {ℓ} {A : Type ℓ} ⦃o : Order A⦄ where
  unfoldable pub insert_sorted : A → List A → List A
  insert_sorted a [] = a ∷ []
  insert_sorted a (x ∷ xs) = if o.less x a then x ∷ insert_sorted a xs else a ∷ x ∷ xs

  unfoldable pub sort : List A → List A
  sort [] = []
  sort (a ∷ rest) = insert_sorted a (sort rest)

  -- Each item comes before the next.
  unfoldable pub Ascending : List A → Type 0
  Ascending [] = Unit
  Ascending (a ∷ []) = Unit
  Ascending (a ∷ b ∷ rest) = (o.less b a ≡ false) × Ascending (b ∷ rest)

  insert_sorted_comm :
      (a b : A) (xs : List A)
      → insert_sorted a (insert_sorted b xs) ≡ insert_sorted b (insert_sorted a xs)
  unfolding insert_sorted
  insert_sorted_comm a b [] = ground (arith, o.less_asym a b, o.less_asym b a, o.less_total a b)
  insert_sorted_comm a b (x ∷ xs) = ground (
    arith,
    insert_sorted_comm a b xs,
    o.less_asym a b,
    o.less_asym b a,
    o.less_total a b,
    o.less_trans b x a,
    o.less_trans x a b,
    o.less_trans x b a,
    o.less_total x a,
    o.less_total x b,
  )

  -- The order in which the items come does not matter.
  pub sort-perm : {xs ys : List A} → Permᴰ xs ys → sort xs ≡ sort ys
  unfolding sort
  sort-perm Permᴰ.nil = refl
  sort-perm (Permᴰ.cons e p) = ap₂ (λ (a : A) (rest : List A). insert_sorted a rest) e (sort-perm p)
  sort-perm (Permᴰ.swap {a = a} {b = b} {l = l} e f) =
      insert_sorted_comm a b (sort l)
      ∙ ap₂ (λ (c d : A). insert_sorted c (insert_sorted d (sort l))) f e
  sort-perm (Permᴰ.trans p q) = sort-perm p ∙ sort-perm q

  insert_sorted_perm : (a : A) (xs : List A) → Permᴰ (insert_sorted a xs) (a ∷ xs)
  unfolding insert_sorted
  insert_sorted_perm a [] = Permᴰ.refl (a ∷ [])
  insert_sorted_perm a (x ∷ xs) = elim (Bool-cases (o.less x a)) [
    | inl before ↦
        rw (before, insert_sorted)
          (Permᴰ.trans (Permᴰ.cons refl (insert_sorted_perm a xs)) (Permᴰ.swap refl refl))
    | inr behind ↦ rw (behind, insert_sorted) (Permᴰ.refl (a ∷ x ∷ xs))
  ]

  -- Sorting rearranges the items.
  pub perm_sort : (xs : List A) → Permᴰ (sort xs) xs
  unfolding sort
  perm_sort [] = Permᴰ.nil
  perm_sort (a ∷ rest) =
      Permᴰ.trans (insert_sorted_perm a (sort rest)) (Permᴰ.cons refl (perm_sort rest))

  Ascending-cons :
      (x a y : A) (xs : List A)
      → o.less a x ≡ false
      → Ascending (x ∷ y ∷ xs)
      → Ascending (insert_sorted a (y ∷ xs))
      → Ascending (x ∷ insert_sorted a (y ∷ xs))
  unfolding insert_sorted Ascending
  Ascending-cons x a y xs below h w = elim (Bool-cases (o.less y a)) [
    | inl before ↦
        let e : insert_sorted a (y ∷ xs) ≡ y ∷ insert_sorted a xs =
          rw (before, insert_sorted) refl in
        subst (λ l. Ascending (x ∷ l)) (sym e) (h.0, subst (λ l. Ascending l) e w)
    | inr behind ↦
        let e : insert_sorted a (y ∷ xs) ≡ a ∷ y ∷ xs = rw (behind, insert_sorted) refl in
        subst (λ l. Ascending (x ∷ l)) (sym e) (below, subst (λ l. Ascending l) e w)
  ]

  insert_sorted-Ascending : (a : A) (xs : List A) → Ascending xs → Ascending (insert_sorted a xs)
  unfolding insert_sorted Ascending
  insert_sorted-Ascending a [] h = tt
  insert_sorted-Ascending a (x ∷ []) h = elim (Bool-cases (o.less x a)) [
    | inl before ↦ rw (before, insert_sorted) (o.less_asym x a before, tt)
    | inr behind ↦ rw (behind, insert_sorted) (behind, tt)
  ]
  insert_sorted-Ascending a (x ∷ y ∷ xs) h = elim (Bool-cases (o.less x a)) [
    | inl before ↦
        let below = o.less_asym x a before in
        rw (before, insert_sorted)
          (Ascending-cons x a y xs below h (insert_sorted-Ascending a (y ∷ xs) h.1))
    | inr behind ↦ rw (behind, insert_sorted) (behind, h)
  ]

  pub sort-Ascending : (xs : List A) → Ascending (sort xs)
  unfolding sort Ascending
  sort-Ascending [] = tt
  sort-Ascending (a ∷ rest) = insert_sorted-Ascending a (sort rest) (sort-Ascending rest)
