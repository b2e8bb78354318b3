-- ===== src/Metrics/Bucket/Report.antt =====
-- The statistics that a snapshot of a bucket reports, in terms of the requests.
use crankfire.Prelude.{
  ◌+◌, ◌/◌, String, ◌≡◌, refl, ap, ◌∙◌, List, [], ◌∷◌, arith, nat_beq, if◌then◌else◌, length,
  nat_eq, string_eq, Float64,
}
use crankfire.Prelude.Int.{ℤ, pos}
use crankfire.Prelude.Int64.{add64, add64-pos}
use mathlib.Core.Path.{ap₂}
use crankfire.Metrics.{Histogram, Request, EndpointStats}
use crankfire.Metrics.Bucket.{StatsBucket, quantile, milliseconds, rate_over, snapshot}
use crankfire.Metrics.Bucket.Statuses.{status_count, copy_status_buckets-of_IsStatusMap}
use crankfire.Metrics.Bucket.Measures.{count_if, latency_sum, least, greatest, hist_of}
use crankfire.Metrics.Bucket.Counts.{is_success, failed_with, IsCountable, Counts}

success_or_failure :
    (rs : List Request) → count_if is_success rs + count_if Request.failed rs ≡ length rs
success_or_failure [] = refl
success_or_failure (r ∷ rs) = ground (arith, success_or_failure rs)

module _ (Hist : Histogram) (R : Float64) where
  open Hist use {H}
  open R use {F}

  -- The statistics of the requests, over the time elapsed: how many, how many of them failed, the extremes
  -- and the mean of the latencies, the quantiles of one histogram of them all, the rate, and how many
  -- failed with each protocol and code.
  pub record Reports (rs : List Request) (elapsed : ℤ) (s : EndpointStats F) : Type 0 where
    pub all_requests : s.total ≡ pos (length rs)
    pub good : s.successes ≡ pos (count_if is_success rs)
    pub bad : s.failures ≡ pos (count_if Request.failed rs)
    pub fastest : s.min_latency ≡ pos (least rs)
    pub slowest : s.max_latency ≡ pos (greatest rs)
    pub average :
        s.mean_latency ≡ (if nat_beq (length rs) 0 then pos 0 else pos (latency_sum rs / length rs))
    pub median : s.p50_latency ≡ quantile Hist (hist_of Hist rs) 50
    pub ninety : s.p90_latency ≡ quantile Hist (hist_of Hist rs) 90
    pub ninety_five : s.p95_latency ≡ quantile Hist (hist_of Hist rs) 95
    pub ninety_nine : s.p99_latency ≡ quantile Hist (hist_of Hist rs) 99
    pub rate : s.requests_per_sec ≡ rate_over Hist R elapsed (pos (length rs))
    pub fastest_ms : s.min_latency_ms ≡ milliseconds Hist R s.min_latency
    pub slowest_ms : s.max_latency_ms ≡ milliseconds Hist R s.max_latency
    pub average_ms : s.mean_latency_ms ≡ milliseconds Hist R s.mean_latency
    pub median_ms : s.p50_latency_ms ≡ milliseconds Hist R s.p50_latency
    pub ninety_ms : s.p90_latency_ms ≡ milliseconds Hist R s.p90_latency
    pub ninety_five_ms : s.p95_latency_ms ≡ milliseconds Hist R s.p95_latency
    pub ninety_nine_ms : s.p99_latency_ms ≡ milliseconds Hist R s.p99_latency
    pub failed_as :
        (p c : String) → status_count p c s.status_buckets ≡ pos (count_if (failed_with p c) rs)

  total_of :
      (rs : List Request) (b : StatsBucket H)
      → IsCountable rs
      → Counts Hist rs b
      → add64 b.successes b.failures ≡ pos (length rs)
  total_of rs b c v =
      let split = success_or_failure rs in
      ap₂ add64 v.ok v.bad
      ∙ add64-pos (count_if is_success rs) (count_if Request.failed rs) (omega (arith, split, c.1))
      ∙ ap pos split

  pub snapshot-Reports :
      (rs : List Request) (elapsed : ℤ) (b : StatsBucket H)
      → IsCountable rs
      → Counts Hist rs b
      → Reports rs elapsed (snapshot Hist R elapsed b)
  unfolding snapshot
  snapshot-Reports rs elapsed b c v =
      let total = total_of rs b c v in
      record {
        all_requests = total;
        good = v.ok;
        bad = v.bad;
        fastest = v.low;
        slowest = v.high;
        average = ground (arith, total, v.sum);
        median = ap (λ (h : H). quantile Hist h 50) v.histogram;
        ninety = ap (λ (h : H). quantile Hist h 90) v.histogram;
        ninety_five = ap (λ (h : H). quantile Hist h 95) v.histogram;
        ninety_nine = ap (λ (h : H). quantile Hist h 99) v.histogram;
        rate = ap (rate_over Hist R elapsed) total;
        fastest_ms = refl;
        slowest_ms = refl;
        average_ms = refl;
        median_ms = refl;
        ninety_ms = refl;
        ninety_five_ms = refl;
        ninety_nine_ms = refl;
        failed_as = λ p s.
            ap (status_count p s) (copy_status_buckets-of_IsStatusMap b.status_buckets v.filled)
            ∙ v.statuses p s;
      }
