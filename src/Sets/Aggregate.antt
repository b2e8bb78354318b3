-- ===== src/Sets/Aggregate.antt =====
-- internal/setrunner/runner.go: the snapshot of an item's summary, and the aggregate of the snapshots.
use crankfire.Prelude.{
  suc, String, ◌≡◌, refl, ◌⊎◌, inl, inr, true, false, List, [], ◌∷◌, arith, if◌then◌else◌,
  Bool-cases, All, In, Float64, zero_f,
}
use crankfire.Prelude.Int.{pos, ltb_ℤ}
use crankfire.Sets.{RunSummary, MetricSnapshot}

module _ (R : Float64) where
  open R use {F, of_int, add, div, lt}

  pub snapshot_from_summary : RunSummary F → MetricSnapshot F
  snapshot_from_summary s = record {
    p50 = s.p50_ms;
    p95 = s.p95_ms;
    p99 = s.p99_ms;
    error_rate =
        if ltb_ℤ (pos 0) s.total_requests
        then div (of_int s.errors) (of_int s.total_requests)
        else zero_f R;
    rps =
        if lt (zero_f R) s.duration_sec
        then div (of_int s.total_requests) s.duration_sec
        else zero_f R;
    total_errors = of_int s.errors;
  }

  -- `if s.P50 > agg.P50 { agg.P50 = s.P50 }`.
  abbrev pub raised : F → F → F
  raised top x = if lt top x then x else top

  unfoldable pub include : MetricSnapshot F → MetricSnapshot F → MetricSnapshot F
  include agg s = record {
    p50 = raised agg.p50 s.p50;
    p95 = raised agg.p95 s.p95;
    p99 = raised agg.p99 s.p99;
    error_rate = raised agg.error_rate s.error_rate;
    rps = add agg.rps s.rps;
    total_errors = add agg.total_errors s.total_errors;
  }

  pub include_all : MetricSnapshot F → List (String × MetricSnapshot F) → MetricSnapshot F
  include_all agg [] = agg
  include_all agg ((name, s) ∷ per) = include_all (include agg s) per

  abbrev pub no_snapshot : MetricSnapshot F
  no_snapshot = record {
    p50 = zero_f R;
    p95 = zero_f R;
    p99 = zero_f R;
    error_rate = zero_f R;
    rps = zero_f R;
    total_errors = zero_f R;
  }

  -- Of no items the aggregate is the zero snapshot, which is what the loop gives too.
  pub aggregate : List (String × MetricSnapshot F) → MetricSnapshot F
  aggregate per = include_all no_snapshot per

  -- The highest of the values of a metric, from `top` on.
  pub peak : (MetricSnapshot F → F) → F → List (String × MetricSnapshot F) → F
  peak f top [] = top
  peak f top ((name, s) ∷ per) = peak f (raised top (f s)) per

  peak_top :
      (f : MetricSnapshot F → F) (top : F) (per : List (String × MetricSnapshot F))
      → (peak f top per ≡ top) ⊎ (lt top (peak f top per) ≡ true)
  unfolding peak
  peak_top f top [] = inl refl
  peak_top f top ((name, s) ∷ per) =
      let rest = peak_top f (raised top (f s)) per in
      ground (arith, rest, R.lt_trans top (f s) (peak f (raised top (f s)) per))

  abbrev pub Attained : (MetricSnapshot F → F) → F → List (String × MetricSnapshot F) → F → Type 0
  Attained f top per v = (v ≡ top) ⊎ ((p : String × MetricSnapshot F) × In p per × (f p.1 ≡ v))

  Attained-cons :
      (f : MetricSnapshot F → F) (top : F) (name : String) (s : MetricSnapshot F)
      (per : List (String × MetricSnapshot F)) (v : F)
      → Attained f (raised top (f s)) per v
      → Attained f top ((name, s) ∷ per) v
  Attained-cons f top name s per v (inr (p, (i, e), q)) = inr (p, (suc i, e), q)
  Attained-cons f top name s per v (inl e) = elim (Bool-cases (lt top (f s))) [
    | inl up ↦ inr ((name, s), (0, refl), ground (arith, e, up))
    | inr down ↦ inl (ground (arith, e, down))
  ]

  -- No item is above `v`, and `v` is `top` or the value of an item.
  abbrev pub IsPeak : (MetricSnapshot F → F) → F → List (String × MetricSnapshot F) → F → Type 0
  IsPeak f top per v = All (λ p. lt v (f p.1) ≡ false) per × Attained f top per v

  peak-IsPeak :
      (f : MetricSnapshot F → F) (top : F) (per : List (String × MetricSnapshot F))
      → IsPeak f top per (peak f top per)
  unfolding peak
  peak-IsPeak f top [] = (tt, inl refl)
  peak-IsPeak f top ((name, s) ∷ per) =
      let rest = peak-IsPeak f (raised top (f s)) per in
      let above = peak_top f (raised top (f s)) per in
      let v = peak f (raised top (f s)) per in
      (
        (
          ground
              (arith, above, R.lt_irrefl (f s), R.lt_trans top v (f s), R.lt_trans (f s) v (f s)),
          rest.0,
        ),
        Attained-cons f top name s per v rest.1,
      )

  include_all-peaks :
      (agg : MetricSnapshot F) (per : List (String × MetricSnapshot F))
      → let a = include_all agg per in
        (a.p50 ≡ peak (λ s. s.p50) agg.p50 per)
        × (a.p95 ≡ peak (λ s. s.p95) agg.p95 per)
        × (a.p99 ≡ peak (λ s. s.p99) agg.p99 per)
        × (a.error_rate ≡ peak (λ s. s.error_rate) agg.error_rate per)
  unfolding include_all peak include
  include_all-peaks agg [] = (refl, refl, refl, refl)
  include_all-peaks agg ((name, s) ∷ per) = include_all-peaks (include agg s) per

  -- In each of the four metrics that the aggregate takes the highest value of, no item is above the
  -- aggregate, and the aggregate is 0 or the value of one of the items.
  pub aggregate-IsPeak :
      (per : List (String × MetricSnapshot F))
      → let a = aggregate per in
        IsPeak (λ s. s.p50) (zero_f R) per a.p50
        × IsPeak (λ s. s.p95) (zero_f R) per a.p95
        × IsPeak (λ s. s.p99) (zero_f R) per a.p99
        × IsPeak (λ s. s.error_rate) (zero_f R) per a.error_rate
  unfolding aggregate
  aggregate-IsPeak per =
      let e = include_all-peaks no_snapshot per in
      (
        rw e.0 (peak-IsPeak (λ s. s.p50) (zero_f R) per),
        rw e.1 (peak-IsPeak (λ s. s.p95) (zero_f R) per),
        rw e.2 (peak-IsPeak (λ s. s.p99) (zero_f R) per),
        rw e.3 (peak-IsPeak (λ s. s.error_rate) (zero_f R) per),
      )
