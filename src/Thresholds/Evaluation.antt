-- ===== src/Thresholds/Evaluation.antt =====
-- What a threshold reads, and when all thresholds pass.
use crankfire.Prelude.{
  ℕ, suc, String, ◌≡◌, refl, sym, ap, subst, ◌↔◌, ◌⊎◌, inl, inr, true, false, some, List, [], ◌∷◌,
  arith, Bool-cases, Option-cases, length, get_elem?, All, In, All-In, ◌==◌, nat_eq, string_eq,
  Float64,
}
use crankfire.Prelude.{if◌then◌else◌, zero_f}
use crankfire.Prelude.Int.{pos, beq_ℤ}
use text.Mathlib.TextEquality.{eq_iff}
use crankfire.Thresholds.{
  Stats, RunThreshold, extract_latency_metric, extract_failure_metric, extract_request_metric,
  extract_metric_value, evaluate_one, evaluate,
}
use crankfire.Thresholds.Comparing.{Compares, compare_values-Compares, Compares-compare_values}

String-cases : (s t : String) → (s ≡ t) ⊎ ((s == t) ≡ false)
String-cases s t = elim (Bool-cases (s == t)) [ inl e ↦ inl ((eq_iff s t).0 e) | inr n ↦ inr n ]

module _ (R : Float64) where
  open R use {F, of_int, div}

  -- The failures per request, of no requests 0.
  abbrev failed_share : Stats F → F
  failed_share s =
      if beq_ℤ s.total (pos 0) then zero_f R else div (of_int s.failures) (of_int s.total)

  -- The metrics with their aggregates, and what each reads.
  abbrev pub readings : Stats F → List (String × (String × F))
  readings s =
      ("http_req_duration", ("p50", s.p50_latency_ms))
      ∷ ("http_req_duration", ("p90", s.p90_latency_ms))
      ∷ ("http_req_duration", ("p95", s.p95_latency_ms))
      ∷ ("http_req_duration", ("p99", s.p99_latency_ms))
      ∷ ("http_req_duration", ("avg", s.mean_latency_ms))
      ∷ ("http_req_duration", ("mean", s.mean_latency_ms))
      ∷ ("http_req_duration", ("min", s.min_latency_ms))
      ∷ ("http_req_duration", ("max", s.max_latency_ms))
      ∷ ("http_req_failed", ("count", of_int s.failures))
      ∷ ("http_req_failed", ("rate", failed_share s))
      ∷ ("http_requests", ("count", of_int s.total))
      ∷ ("http_requests", ("rate", s.requests_per_sec))
      ∷ []

  abbrev Reads : Stats F → String → String → F → Type 0
  Reads s m a v = In (m, (a, v)) (readings s)

  latency_at :
      (s : Stats F) (a b : String) (v : F)
      → a ≡ b
      → extract_latency_metric R a s ≡ some v
      → extract_latency_metric R b s ≡ some v
  latency_at s a b v e h = subst (λ x. extract_latency_metric R x s ≡ some v) e h

  latency-Reads :
      (s : Stats F) (a : String) (v : F)
      → extract_latency_metric R a s ≡ some v
      → Reads s "http_req_duration" a v
  unfolding extract_latency_metric
  latency-Reads s a v h = elim (String-cases a "p50") [
    | inl e ↦ (0, ground (arith, e, latency_at s a "p50" v e h))
    | inr n0 ↦ elim (String-cases a "p90") [
      | inl e ↦ (1, ground (arith, e, latency_at s a "p90" v e h))
      | inr n1 ↦ elim (String-cases a "p95") [
        | inl e ↦ (2, ground (arith, e, latency_at s a "p95" v e h))
        | inr n2 ↦ elim (String-cases a "p99") [
          | inl e ↦ (3, ground (arith, e, latency_at s a "p99" v e h))
          | inr n3 ↦ elim (String-cases a "avg") [
            | inl e ↦ (4, ground (arith, e, latency_at s a "avg" v e h))
            | inr n4 ↦ elim (String-cases a "mean") [
              | inl e ↦ (5, ground (arith, e, latency_at s a "mean" v e h))
              | inr n5 ↦ elim (String-cases a "min") [
                | inl e ↦ (6, ground (arith, e, latency_at s a "min" v e h))
                | inr n6 ↦ elim (String-cases a "max") [
                  | inl e ↦ (7, ground (arith, e, latency_at s a "max" v e h))
                  | inr n7 ↦
                      ground
                        (arith, rw (n0, n1, n2, n3, n4, n5, n6, n7, extract_latency_metric) at h)
                ]
              ]
            ]
          ]
        ]
      ]
    ]
  ]

  failure_at :
      (s : Stats F) (a b : String) (v : F)
      → a ≡ b
      → extract_failure_metric R a s ≡ some v
      → extract_failure_metric R b s ≡ some v
  failure_at s a b v e h = subst (λ x. extract_failure_metric R x s ≡ some v) e h

  failure-Reads :
      (s : Stats F) (a : String) (v : F)
      → extract_failure_metric R a s ≡ some v
      → Reads s "http_req_failed" a v
  unfolding extract_failure_metric
  failure-Reads s a v h = elim (String-cases a "count") [
    | inl e ↦ (8, ground (arith, e, failure_at s a "count" v e h))
    | inr n0 ↦ elim (String-cases a "rate") [
      | inl e ↦ (9, ground (arith, e, failure_at s a "rate" v e h))
      | inr n1 ↦ ground (arith, rw (n0, n1, extract_failure_metric) at h)
    ]
  ]

  request_at :
      (s : Stats F) (a b : String) (v : F)
      → a ≡ b
      → extract_request_metric R a s ≡ some v
      → extract_request_metric R b s ≡ some v
  request_at s a b v e h = subst (λ x. extract_request_metric R x s ≡ some v) e h

  request-Reads :
      (s : Stats F) (a : String) (v : F)
      → extract_request_metric R a s ≡ some v
      → Reads s "http_requests" a v
  unfolding extract_request_metric
  request-Reads s a v h = elim (String-cases a "count") [
    | inl e ↦ (10, ground (arith, e, request_at s a "count" v e h))
    | inr n0 ↦ elim (String-cases a "rate") [
      | inl e ↦ (11, ground (arith, e, request_at s a "rate" v e h))
      | inr n1 ↦ ground (arith, rw (n0, n1, extract_request_metric) at h)
    ]
  ]

  metric_at : (s : Stats F) (m n a : String) (v : F) → m ≡ n → Reads s n a v → Reads s m a v
  metric_at s m n a v e r = subst (λ x. Reads s x a v) (sym e) r

  extract_metric_value-Reads :
      (t : RunThreshold F) (s : Stats F) (v : F)
      → extract_metric_value R t s ≡ some v
      → Reads s t.metric t.aggregate v
  unfolding extract_metric_value
  extract_metric_value-Reads t s v h = elim (String-cases t.metric "http_req_duration") [
    | inl e ↦
        metric_at s t.metric "http_req_duration" t.aggregate v e
          (latency-Reads s t.aggregate v (rw (e, extract_metric_value) at h))
    | inr n0 ↦ elim (String-cases t.metric "http_req_failed") [
      | inl e ↦
          metric_at s t.metric "http_req_failed" t.aggregate v e
            (failure-Reads s t.aggregate v (rw (e, extract_metric_value) at h))
      | inr n1 ↦ elim (String-cases t.metric "http_requests") [
        | inl e ↦
            metric_at s t.metric "http_requests" t.aggregate v e
              (request-Reads s t.aggregate v (rw (e, extract_metric_value) at h))
        | inr n2 ↦ ground (arith, rw (n0, n1, n2, extract_metric_value) at h)
      ]
    ]
  ]

  -- What a threshold of that metric and aggregate reads is found.
  abbrev Found : Stats F → String × (String × F) → Type 0
  Found s r =
      (t : RunThreshold F)
      → t.metric ≡ r.0
      → t.aggregate ≡ r.1.0
      → extract_metric_value R t s ≡ some r.1.1

  readings-Found : (s : Stats F) → All (Found s) (readings s)
  unfolding extract_metric_value extract_latency_metric extract_failure_metric
      extract_request_metric
  readings-Found s = (
    λ t m a. rw (m, a) refl,
    (
      λ t m a. rw (m, a) refl,
      (
        λ t m a. rw (m, a) refl,
        (
          λ t m a. rw (m, a) refl,
          (
            λ t m a. rw (m, a) refl,
            (
              λ t m a. rw (m, a) refl,
              (
                λ t m a. rw (m, a) refl,
                (
                  λ t m a. rw (m, a) refl,
                  (
                    λ t m a. rw (m, a) refl,
                    (
                      λ t m a. rw (m, a) refl,
                      (λ t m a. rw (m, a) refl, (λ t m a. rw (m, a) refl, tt)),
                    ),
                  ),
                ),
              ),
            ),
          ),
        ),
      ),
    ),
  )

  -- A threshold holds: its metric and aggregate are among the readings, and the value read compares.
  abbrev pub Satisfied : Stats F → RunThreshold F → Type 0
  Satisfied s t =
      (v : F) × In (t.metric, (t.aggregate, v)) (readings s) × Compares R v t.operator t.value

  evaluate_one-Satisfied :
      (t : RunThreshold F) (s : Stats F) → ((evaluate_one R t s).pass ≡ true) ↔ Satisfied s t
  unfolding evaluate_one
  evaluate_one-Satisfied t s = elim (Option-cases (extract_metric_value R t s)) [
    | inl e ↦
        rw (e, evaluate_one)
          (λ h. ground arith, λ (v, (i, r), c). ground (arith, e, found t s v i r))
    | inr (v, e) ↦
        rw (e, evaluate_one)
          (
            λ h. (
              v,
              extract_metric_value-Reads t s v e,
              compare_values-Compares R v t.operator t.value h,
            ),
            λ (w, (i, r), c).
                ground
                  (arith, e, found t s w i r, Compares-compare_values R w t.operator t.value c),
          )
  ]
    where
      found :
          (t : RunThreshold F) (s : Stats F) (v : F) (i : ℕ)
          → get_elem? (readings s) i ≡ some (t.metric, (t.aggregate, v))
          → extract_metric_value R t s ≡ some v
      found t s v i r =
          All-In (Found s) (readings s) i (t.metric, (t.aggregate, v)) (readings-Found s) r t refl
            refl

  -- There is one result for each threshold, and all of them pass exactly if each threshold's metric and
  -- aggregate are among the twelve readings of the statistics and the value read compares as its
  -- operator says, where `<=`, `>=` and `==` hold also of values that are not further apart than 1e-9.
  pub evaluate-Satisfied :
      (ths : List (RunThreshold F)) (s : Stats F)
      → (length (evaluate R ths s) ≡ length ths)
        × (All (λ r. r.pass ≡ true) (evaluate R ths s) ↔ All (Satisfied s) ths)
  unfolding evaluate
  evaluate-Satisfied [] s = (refl, (λ h. tt, λ h. tt))
  evaluate-Satisfied (t ∷ ths) s =
      let one = evaluate_one-Satisfied t s in
      let rest = evaluate-Satisfied ths s in
      (ap suc rest.0, (λ h. (one.0 h.0, rest.1.0 h.1), λ h. (one.1 h.0, rest.1.1 h.1)))
