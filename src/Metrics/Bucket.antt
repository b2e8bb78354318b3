-- ===== src/Metrics/Bucket.antt =====
-- internal/metrics/collector.go: `statsBucket`, one set of counters. A nil map is the empty one.
use crankfire.Prelude.{
  ℕ, zero, suc, ◌+◌, ◌-◌, ◌*◌, ◌/◌, ◌%◌, ◌^◌, ◌≤◌, ◌<◌, min, max, String, ◌≡◌, refl, sym, ap, ◌∙◌,
  subst, ◌≢◌, ◌↔◌, ◌⊎◌, inl, inr, Bool, true, false, ◌&&◌, ◌||◌, not, Option, none, some, List, [],
  ◌∷◌, ◌++◌, map, arith, ltb, leb, nat_beq, if◌then◌else◌, tests, Bool-cases, Option-cases, length,
  get_elem?, get_or, set, replicate, length-append, length-map, length-set, All, In, Eq, ◌==◌,
  nat_eq, string_eq, Float64, le_f, zero_f,
}
use crankfire.Prelude.Int.{
  ℤ, pos, negsuc, pos_part, quot, rem, neg_part, sub_ℕ, ◌+ℤ◌, ◌-ℤ◌, ◌*ℤ◌, ◌≤ℤ◌, ◌<ℤ◌, ltb_ℤ, leb_ℤ,
  beq_ℤ, int_laws,
}
use crankfire.Prelude.Int64.{
  wrap64, add64, sub64, mul64, Fits64, wrap64-of_Fits64, add64-of_Fits64, add64-pos, sub64-pos,
}
use crankfire.Prelude.Maps.{
  lookup, value_or, insert, delete, write_all, lookup-insert, lookup-insert_self, lookup-delete,
  lookup-write_all, beq_refl, or_else, NoDup, insert-NoDup,
}
use crankfire.Metrics.{Histogram, StatusCounts, Request, EndpointStats}
pub mod Statuses
pub mod Measures
pub mod Counts
pub mod Report

pub record StatsBucket (H : Type 0) : Type 0 where
  pub hist : H
  pub successes : ℤ
  pub failures : ℤ
  pub min_latency : ℤ
  pub max_latency : ℤ
  pub sum_latency : ℤ
  pub status_buckets : StatusCounts

pub record_status_count : String → String → ℤ → StatusCounts → StatusCounts
record_status_count protocol status count buckets =
    let codes : List (String × ℤ) = value_or [] (lookup protocol buckets) in
    insert protocol (insert status (add64 (value_or (pos 0) (lookup status codes)) count) codes)
      buckets

pub record_codes : String → List (String × ℤ) → StatusCounts → StatusCounts
record_codes protocol [] buckets = buckets
record_codes protocol ((status, count) ∷ codes) buckets =
    record_codes protocol codes (record_status_count protocol status count buckets)

-- The loops at the end of `merge`.
pub record_statuses : StatusCounts → StatusCounts → StatusCounts
record_statuses [] buckets = buckets
record_statuses ((protocol, codes) ∷ rest) buckets =
    record_statuses rest (record_codes protocol codes buckets)

pub copy_status_buckets : StatusCounts → StatusCounts
copy_status_buckets [] = []
copy_status_buckets ((protocol, []) ∷ rest) = copy_status_buckets rest
copy_status_buckets ((protocol, code ∷ codes) ∷ rest) =
    (protocol, code ∷ codes) ∷ copy_status_buckets rest

abbrev pub has_status : Request → Bool
has_status r = r.failed && not (r.protocol == "") && not (r.status_code == "")

-- `latency.Microseconds()`.
abbrev pub microseconds : ℤ → ℤ
microseconds latency = quot latency 1000

module _ (Hist : Histogram) where
  open Hist use {
    H, fresh, lowest_trackable, highest_trackable, record_value, merge_hist, total_count,
  }

  pub new_stats_bucket : StatsBucket H
  new_stats_bucket = record {
    hist = fresh;
    successes = pos 0;
    failures = pos 0;
    min_latency = pos 0;
    max_latency = pos 0;
    sum_latency = pos 0;
    status_buckets = [];
  }

  pub clamped : H → ℤ → ℤ
  clamped h us =
      let up = if ltb_ℤ us (lowest_trackable h) then lowest_trackable h else us in
      if ltb_ℤ (highest_trackable h) up then highest_trackable h else up

  pub record_latency : ℤ → H → H
  record_latency latency h =
      if ltb_ℤ (pos 0) latency then record_value (clamped h (microseconds latency)) h else h

  pub record_one : Request → StatsBucket H → StatsBucket H
  record_one r b = record {
    hist = record_latency r.latency b.hist;
    sum_latency = add64 b.sum_latency r.latency;
    min_latency =
        if beq_ℤ b.min_latency (pos 0) || ltb_ℤ r.latency b.min_latency
        then r.latency
        else b.min_latency;
    max_latency = if ltb_ℤ b.max_latency r.latency then r.latency else b.max_latency;
    successes = if r.failed then b.successes else add64 b.successes (pos 1);
    failures = if r.failed then add64 b.failures (pos 1) else b.failures;
    status_buckets =
        if has_status r
        then record_status_count r.protocol r.status_code (pos 1) b.status_buckets
        else b.status_buckets;
  }

  pub merge : StatsBucket H → StatsBucket H → StatsBucket H
  merge b other = record {
    successes = add64 b.successes other.successes;
    failures = add64 b.failures other.failures;
    sum_latency = add64 b.sum_latency other.sum_latency;
    min_latency =
        if ltb_ℤ (pos 0) other.min_latency
          && (beq_ℤ b.min_latency (pos 0) || ltb_ℤ other.min_latency b.min_latency)
        then other.min_latency
        else b.min_latency;
    max_latency =
        if ltb_ℤ b.max_latency other.max_latency then other.max_latency else b.max_latency;
    hist = merge_hist b.hist other.hist;
    status_buckets = record_statuses other.status_buckets b.status_buckets;
  }

  -- `time.Duration(hist.ValueAtQuantile(q)) * time.Microsecond`, or 0 of an empty histogram.
  pub quantile : H → ℕ → ℤ
  quantile h q =
      if ltb_ℤ (pos 0) (total_count h)
      then mul64 (Hist.value_at_quantile (pos q) h) (pos 1000)
      else pos 0

  module _ (R : Float64) where
    open R use {F, of_int, add, div, lt}

    abbrev pub milliseconds : ℤ → F
    milliseconds d = div (of_int d) (of_int (pos 1000000))

    -- `elapsed.Seconds()`.
    abbrev pub seconds : ℤ → F
    seconds d =
        add (of_int (quot d 1000000000)) (div (of_int (rem d 1000000000)) (of_int (pos 1000000000)))

    -- `minElapsedForRPS` is 100 milliseconds.
    abbrev pub long_enough : ℤ → Bool
    long_enough elapsed = leb_ℤ (pos 100000000) elapsed

    pub rate_over : ℤ → ℤ → F
    rate_over elapsed total =
        if long_enough elapsed && ltb_ℤ (pos 0) total && lt (zero_f R) (seconds elapsed)
        then div (of_int total) (seconds elapsed)
        else zero_f R

    pub snapshot : ℤ → StatsBucket H → EndpointStats F
    snapshot elapsed b =
        let total = add64 b.successes b.failures in
        let mean = if ltb_ℤ (pos 0) total then quot b.sum_latency (pos_part total) else pos 0 in
        record {
          total = total;
          successes = b.successes;
          failures = b.failures;
          min_latency = b.min_latency;
          max_latency = b.max_latency;
          mean_latency = mean;
          p50_latency = quantile b.hist 50;
          p90_latency = quantile b.hist 90;
          p95_latency = quantile b.hist 95;
          p99_latency = quantile b.hist 99;
          requests_per_sec = rate_over elapsed total;
          min_latency_ms = milliseconds b.min_latency;
          max_latency_ms = milliseconds b.max_latency;
          mean_latency_ms = milliseconds mean;
          p50_latency_ms = milliseconds (quantile b.hist 50);
          p90_latency_ms = milliseconds (quantile b.hist 90);
          p95_latency_ms = milliseconds (quantile b.hist 95);
          p99_latency_ms = milliseconds (quantile b.hist 99);
          status_buckets = copy_status_buckets b.status_buckets;
        }
