-- ===== src/Metrics.antt =====
-- internal/metrics: what a request is recorded with, and the statistics that are read. The histogram is
-- a library's (github.com/HdrHistogram/hdrhistogram-go): a parameter, with the laws that its counts have.
use crankfire.Prelude.{String, ◌≡◌, Bool, Option, List}
use crankfire.Prelude.Int.{ℤ}
pub mod Bucket
pub mod Shards
pub mod Collector
pub mod Status
mod Tests

-- `hdrhistogram.New(1, 60_000_000, 3)` and its methods. A value out of range changes nothing. What is
-- stored are counts, so neither the order of the values nor a split over histograms matters.
pub record Histogram : Type 1 where
  pub H : Type 0
  pub fresh : H
  pub lowest_trackable : H → ℤ
  pub highest_trackable : H → ℤ
  pub record_value : ℤ → H → H
  pub merge_hist : H → H → H
  pub total_count : H → ℤ
  pub value_at_quantile : ℤ → H → ℤ
  pub lowest_record : (v : ℤ) (h : H) → lowest_trackable (record_value v h) ≡ lowest_trackable h
  pub highest_record : (v : ℤ) (h : H) → highest_trackable (record_value v h) ≡ highest_trackable h
  pub record_comm :
      (u v : ℤ) (h : H) → record_value u (record_value v h) ≡ record_value v (record_value u h)
  pub merge_fresh : (h : H) → merge_hist h fresh ≡ h
  pub merge_record :
      (v : ℤ) (h other : H)
      → merge_hist h (record_value v other) ≡ record_value v (merge_hist h other)

-- map[string]map[string]int64: protocol, status code, count.
abbrev pub StatusCounts : Type 0
StatusCounts = List (String × List (String × ℤ))

-- The arguments of `record`; an error is there or not.
pub record Request : Type 0 where
  pub latency : ℤ
  pub failed : Bool
  pub protocol : String
  pub status_code : String

pub record EndpointStats (F : Type 0) : Type 0 where
  pub total : ℤ
  pub successes : ℤ
  pub failures : ℤ
  pub min_latency : ℤ
  pub max_latency : ℤ
  pub mean_latency : ℤ
  pub p50_latency : ℤ
  pub p90_latency : ℤ
  pub p95_latency : ℤ
  pub p99_latency : ℤ
  pub requests_per_sec : F
  pub min_latency_ms : F
  pub max_latency_ms : F
  pub mean_latency_ms : F
  pub p50_latency_ms : F
  pub p90_latency_ms : F
  pub p95_latency_ms : F
  pub p99_latency_ms : F
  pub status_buckets : StatusCounts
