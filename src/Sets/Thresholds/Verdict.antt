-- ===== src/Sets/Thresholds/Verdict.antt =====
-- When all thresholds of a set pass.
use crankfire.Prelude.{
  String, ◌≡◌, refl, ap, ◌∙◌, ◌≢◌, ◌↔◌, ◌⊎◌, inl, inr, true, false, none, List, [], ◌∷◌, ◌++◌,
  arith, if◌then◌else◌, Bool-cases, Option-cases, All, ◌==◌, nat_eq, string_eq, text_eq, Float64,
}
use crankfire.Prelude.Maps.{lookup}
use text.Mathlib.TextEquality.{eq_iff}
use crankfire.Sets.{Threshold, ThresholdResult, MetricSnapshot}
use crankfire.Sets.Thresholds.{
  metric_value, eval_one, eval_items, eval_named, eval_scope, evaluate_thresholds, all_passed,
  Meets, Holds, on_aggregate, on_items, on_named,
}
use crankfire.Sets.Thresholds.Readings.{
  metric_value-Reads, Reads-metric_value, compare-Compares, Compares-compare,
}

module _ (R : Float64) where
  open R use {F}

  all_passed-append :
      (xs ys : List (ThresholdResult F))
      → all_passed R (xs ++ ys) ≡ (if all_passed R xs then all_passed R ys else false)
  unfolding all_passed
  all_passed-append [] ys = refl
  all_passed-append (x ∷ xs) ys = ground (arith, all_passed-append xs ys)

  eval_one_passed :
      (t : Threshold F) (snap : MetricSnapshot F)
      → ((eval_one R t snap).passed ≡ true) ↔ Meets R t snap
  unfolding eval_one
  eval_one_passed t snap = elim (Option-cases (metric_value R snap t.metric)) [
    | inl e ↦
        rw (e, eval_one)
          (λ h. cc, λ (v, r, c). ground (arith, e, Reads-metric_value R snap t.metric v r))
    | inr (v, e) ↦
        rw (e, eval_one)
          (
            λ h. (v, metric_value-Reads R snap t.metric v e, compare-Compares R v t.value t.op h),
            λ (w, r, c). ground (
              arith,
              e,
              Reads-metric_value R snap t.metric w r,
              Compares-compare R w t.value t.op c,
            ),
          )
  ]

  eval_items_passed :
      (t : Threshold F) (per_item : List (String × MetricSnapshot F))
      → (all_passed R (eval_items R t per_item) ≡ true) ↔ All (λ p. Meets R t p.1) per_item
  unfolding eval_items all_passed
  eval_items_passed t [] = (λ h. tt, λ h. refl)
  eval_items_passed t ((name, snap) ∷ per_item) =
      let one = eval_one_passed (record t { scope = name }) snap in
      let rest = eval_items_passed t per_item in
      (
        λ h. (one.0 (ground arith), rest.0 (ground arith)),
        λ m. ground (arith, one.1 m.0, rest.1 m.1),
      )

  abbrev Snapshots : Type 0
  Snapshots = List (String × MetricSnapshot F)

  -- The three ways in which a scope is read.
  scope_aggregate :
      (t : Threshold F) (agg : MetricSnapshot F) (per_item : Snapshots)
      → (t.scope ≡ "") ⊎ (t.scope ≡ "aggregate")
      → eval_scope R t agg per_item ≡ eval_one R t agg ∷ []
  unfolding eval_scope
  scope_aggregate t agg per_item (inl e) = rw (e, eval_scope)
  scope_aggregate t agg per_item (inr e) = rw (e, eval_scope)

  scope_items :
      (t : Threshold F) (agg : MetricSnapshot F) (per_item : Snapshots)
      → t.scope ≡ "per_item"
      → eval_scope R t agg per_item ≡ eval_items R t per_item
  unfolding eval_scope
  scope_items t agg per_item e = rw (e, eval_scope)

  scope_named :
      (t : Threshold F) (agg : MetricSnapshot F) (per_item : Snapshots)
      → t.scope ≢ ""
      → t.scope ≢ "aggregate"
      → t.scope ≢ "per_item"
      → eval_scope R t agg per_item ≡ eval_named R t (lookup t.scope per_item)
  unfolding eval_scope
  scope_named t agg per_item a b c = rw (differ a, eval_scope) (rw (differ b, differ c) refl)
    where
      differ : {x y : String} → x ≢ y → (x == y) ≡ false
      differ {x} {y} n = ground (arith, eq_iff x y)

  single : (r : ThresholdResult F) → (all_passed R (r ∷ []) ≡ true) ↔ (r.passed ≡ true)
  unfolding all_passed
  single r = ground arith

  -- A single result in a scope.
  Meets-single :
      (t : Threshold F) (agg snap : MetricSnapshot F) (per_item : Snapshots)
      → eval_scope R t agg per_item ≡ eval_one R t snap ∷ []
      → (all_passed R (eval_scope R t agg per_item) ≡ true) ↔ Meets R t snap
  Meets-single t agg snap per_item e =
      let one = single (eval_one R t snap) in
      let m = eval_one_passed t snap in rw e (λ h. m.0 (one.0 h), λ h. one.1 (m.1 h))

  missing_fails : (t : Threshold F) → (all_passed R (eval_named R t none) ≡ true) → ⊥
  unfolding all_passed
  missing_fails t h = cc

  passes :
      (t : Threshold F) (agg : MetricSnapshot F) (per_item : Snapshots)
      → Holds R t agg per_item
      → all_passed R (eval_scope R t agg per_item) ≡ true
  passes t agg per_item (on_aggregate e m) =
      (Meets-single t agg agg per_item (scope_aggregate t agg per_item e)).1 m
  passes t agg per_item (on_items e m) =
      rw (scope_items t agg per_item e) ((eval_items_passed t per_item).1 m)
  passes t agg per_item (on_named snap a b c l m) =
      (Meets-single t agg snap per_item
          (scope_named t agg per_item a b c ∙ ap (eval_named R t) l)).1
        m

  Holds-named :
      (t : Threshold F) (agg : MetricSnapshot F) (per_item : Snapshots)
      → t.scope ≢ ""
      → t.scope ≢ "aggregate"
      → t.scope ≢ "per_item"
      → all_passed R (eval_scope R t agg per_item) ≡ true
      → Holds R t agg per_item
  Holds-named t agg per_item a b c h = elim (Option-cases (lookup t.scope per_item)) [
    | inl l ↦
        let e = scope_named t agg per_item a b c ∙ ap (eval_named R t) l in
        absurd (missing_fails t (rw e at h))
    | inr (snap, l) ↦ on_named snap a b c l (
        (Meets-single t agg snap per_item
            (scope_named t agg per_item a b c ∙ ap (eval_named R t) l)).0
          h)
  ]

  same_or_not : (x y : String) → (x ≡ y) ⊎ (x ≢ y)
  same_or_not x y = elim (Bool-cases (x == y)) [
    | inl e ↦ inl ((eq_iff x y).0 e)
    | inr e ↦ inr (λ p. ground (arith, eq_iff x y))
  ]

  holds :
      (t : Threshold F) (agg : MetricSnapshot F) (per_item : Snapshots)
      → all_passed R (eval_scope R t agg per_item) ≡ true
      → Holds R t agg per_item
  holds t agg per_item h = elim (same_or_not t.scope "") [
    | inl e ↦ on_aggregate (inl e) ((aggregate_meets (inl e)).0 h)
    | inr a ↦ elim (same_or_not t.scope "aggregate") [
      | inl e ↦ on_aggregate (inr e) ((aggregate_meets (inr e)).0 h)
      | inr b ↦ elim (same_or_not t.scope "per_item") [
        | inl e ↦
            on_items e ((eval_items_passed t per_item).0 (rw (scope_items t agg per_item e) at h))
        | inr c ↦ Holds-named t agg per_item a b c h
      ]
    ]
  ]
    where
      aggregate_meets :
          (t.scope ≡ "") ⊎ (t.scope ≡ "aggregate")
          → (all_passed R (eval_scope R t agg per_item) ≡ true) ↔ Meets R t agg
      aggregate_meets e = Meets-single t agg agg per_item (scope_aggregate t agg per_item e)

  eval_scope_passed :
      (t : Threshold F) (agg : MetricSnapshot F) (per_item : Snapshots)
      → (all_passed R (eval_scope R t agg per_item) ≡ true) ↔ Holds R t agg per_item
  eval_scope_passed t agg per_item = (holds t agg per_item, passes t agg per_item)

  -- Every result is a pass exactly if each threshold holds in its scope: of the aggregate where the
  -- scope is empty or "aggregate", of all items where it is "per_item", and otherwise of the item that
  -- it names, which has to exist. A threshold holds of a snapshot if its metric is one of the six and
  -- compares with the value as its operator, one of the five, says.
  pub all_passed-evaluate_thresholds :
      (ths : List (Threshold F)) (agg : MetricSnapshot F) (per_item : Snapshots)
      → (all_passed R (evaluate_thresholds R ths agg per_item) ≡ true)
        ↔ All (λ t. Holds R t agg per_item) ths
  unfolding evaluate_thresholds all_passed
  all_passed-evaluate_thresholds [] agg per_item = (λ h. tt, λ h. refl)
  all_passed-evaluate_thresholds (t ∷ ths) agg per_item =
      let both =
        all_passed-append (eval_scope R t agg per_item) (evaluate_thresholds R ths agg per_item) in
      let one = eval_scope_passed t agg per_item in
      let rest = all_passed-evaluate_thresholds ths agg per_item in
      (
        λ h. (one.0 (ground (arith, both, h)), rest.0 (ground (arith, both, h))),
        λ h. ground (arith, both, one.1 h.0, rest.1 h.1),
      )
