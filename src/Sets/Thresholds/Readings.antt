-- ===== src/Sets/Thresholds/Readings.antt =====
-- What a threshold of a set reads, and when it compares.
use crankfire.Prelude.{String, ◌≡◌, ap, inl, inr, true, some, arith, nat_eq, string_eq, Float64}
use text.Mathlib.TextEquality.{eq_iff}
use crankfire.Sets.{MetricSnapshot}
use crankfire.Sets.Thresholds.{metric_value, compare, Reads, Compares}

module _ (R : Float64) where
  open R use {F}

  pub metric_value-Reads :
      (snap : MetricSnapshot F) (m : String) (v : F)
      → metric_value R snap m ≡ some v
      → Reads R snap m v
  unfolding metric_value
  metric_value-Reads snap m v h = ground (
    arith,
    h,
    eq_iff m "p50",
    eq_iff m "p95",
    eq_iff m "p99",
    eq_iff m "error_rate",
    eq_iff m "rps",
    eq_iff m "total_errors",
  )

  pub Reads-metric_value :
      (snap : MetricSnapshot F) (m : String) (v : F)
      → Reads R snap m v
      → metric_value R snap m ≡ some v
  unfolding metric_value
  Reads-metric_value snap m v (inl (e, h)) = rw (e, metric_value) (ap some h)
  Reads-metric_value snap m v (inr (inl (e, h))) = rw (e, metric_value) (ap some h)
  Reads-metric_value snap m v (inr (inr (inl (e, h)))) = rw (e, metric_value) (ap some h)
  Reads-metric_value snap m v (inr (inr (inr (inl (e, h))))) = rw (e, metric_value) (ap some h)
  Reads-metric_value snap m v (inr (inr (inr (inr (inl (e, h)))))) =
      rw (e, metric_value) (ap some h)
  Reads-metric_value snap m v (inr (inr (inr (inr (inr (e, h)))))) =
      rw (e, metric_value) (ap some h)

  pub compare-Compares :
      (v want : F) (op : String) → compare R v want op ≡ true → Compares R v op want
  unfolding compare
  compare-Compares v want op h =
      ground
        (arith, h, eq_iff op "lt", eq_iff op "le", eq_iff op "gt", eq_iff op "ge", eq_iff op "eq")

  pub Compares-compare :
      (v want : F) (op : String) → Compares R v op want → compare R v want op ≡ true
  unfolding compare
  Compares-compare v want op (inl (e, h)) = rw (e, compare) h
  Compares-compare v want op (inr (inl (e, h))) = rw (e, compare) (ground (arith, h))
  Compares-compare v want op (inr (inr (inl (e, h)))) = rw (e, compare) h
  Compares-compare v want op (inr (inr (inr (inl (e, h))))) = rw (e, compare) (ground (arith, h))
  Compares-compare v want op (inr (inr (inr (inr (e, h))))) = rw (e, compare) h
