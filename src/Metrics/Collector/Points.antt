-- ===== src/Metrics/Collector/Points.antt =====
-- What one snapshot of a collector records, after the requests since the last one.
use crankfire.Prelude.{
  ℕ, suc, ◌+◌, ◌^◌, ◌<◌, ◌≡◌, refl, ap, ◌∙◌, Option, none, some, List, [], ◌∷◌, ◌++◌, arith, length,
  length-append, All, nat_eq, string_eq, Float64,
}
use crankfire.Prelude.Int.{ℤ, pos}
use crankfire.Prelude.Int64.{sub64, sub64-pos}
use mathlib.Core.Path.{ap₂}
use crankfire.Metrics.{Histogram, Request}
use crankfire.Metrics.Bucket.{quantile}
use crankfire.Metrics.Bucket.Measures.{count_if, hist_of}
use crankfire.Metrics.Bucket.Counts.{is_success, IsCountable}
use crankfire.Metrics.Bucket.Report.{Reports}
use crankfire.Metrics.Shards.{snapshot_sharded}
use crankfire.Metrics.Shards.Pooled.{snapshot_sharded-Reports}
use crankfire.Metrics.Collector.{
  Collector, DataPoint, current_rate, delta_requests, data_point, since_last, take_snapshot,
  request_of, record_request,
}
use crankfire.Metrics.Collector.Recorded.{
  Recordings, record_requests, requests_of, IsDrawn, IsHolding, record_requests-total,
}
use crankfire.Metrics.Collector.Totals.{record_requests-start_time}

module _ (Hist : Histogram) (R : Float64) (V : Type 0) where
  open Hist use {H}
  open R use {F}

  -- Requests, and the time of the snapshot behind them.
  abbrev pub Rounds : Type 0
  Rounds = List (Recordings Hist R V × ℤ)

  unfoldable pub sample_all : Rounds → Collector H F V → Collector H F V
  sample_all [] c = c
  sample_all ((ks, now) ∷ rounds) c =
      sample_all rounds (take_snapshot Hist R V now (record_requests Hist R V ks c))

  abbrev pub calls_of : Rounds → Recordings Hist R V
  calls_of [] = []
  calls_of ((ks, now) ∷ rounds) = ks ++ calls_of rounds

  -- The time between two snapshots: the first counts from the start, where there was one.
  abbrev pub between : ℤ → Option ℤ → ℤ
  between now none = pos 0
  between now (some t) = sub64 now t

  -- A data point of a snapshot: of all requests so far, and at the rate of those since the last one.
  pub record IsPoint (seen : List Request) (fresh : ℕ) (now elapsed : ℤ) (p : DataPoint F)
      : Type 0 where
    pub at : p.timestamp ≡ now
    pub so_far : p.total_requests ≡ pos (length seen)
    pub good : p.successful_requests ≡ pos (count_if is_success seen)
    pub bad : p.errors ≡ pos (count_if Request.failed seen)
    pub rate : p.current_rps ≡ current_rate Hist R V elapsed (pos fresh)
    pub median : p.p50_latency ≡ quantile Hist (hist_of Hist seen) 50
    pub ninety_five : p.p95_latency ≡ quantile Hist (hist_of Hist seen) 95
    pub ninety_nine : p.p99_latency ≡ quantile Hist (hist_of Hist seen) 99

  -- One data point for each round, in their order.
  unfoldable pub Charts : List Request → Option ℤ → Rounds → List (DataPoint F) → Type 0
  Charts seen last [] [] = Unit
  Charts seen last [] (p ∷ points) = ⊥
  Charts seen last (round ∷ rounds) [] = ⊥
  Charts seen last ((ks, now) ∷ rounds) (p ∷ points) =
      let all = requests_of Hist R V ks ++ seen in
      IsPoint all (length ks) now (between now last) p × Charts all (some now) rounds points

  -- The collector has seen these requests, and its last snapshot was of them.
  pub record IsAt (seen : List Request) (last : Option ℤ) (c : Collector H F V) : Type 0 where
    pub holds : IsHolding Hist R V seen c.total
    pub since : (now : ℤ) → since_last Hist R V now c ≡ between now last
    pub delta :
        (n : ℕ)
        → n + length seen < 2 ^ 63
        → delta_requests Hist R V (pos (n + length seen)) c.last_snapshot ≡ pos n

  length-requests_of : (ks : Recordings Hist R V) → length (requests_of Hist R V ks) ≡ length ks
  length-requests_of [] = refl
  length-requests_of (k ∷ ks) = ap suc (length-requests_of ks)

  pub requests_of-append :
      (ks ls : Recordings Hist R V)
      → requests_of Hist R V (ks ++ ls) ≡ requests_of Hist R V ks ++ requests_of Hist R V ls
  requests_of-append [] ls = refl
  requests_of-append (k ∷ ks) ls =
      ap (λ (rs : List Request). request_of Hist R V k ∷ rs) (requests_of-append ks ls)

  pub record_requests-rest :
      (ks : Recordings Hist R V) (c : Collector H F V)
      → ((record_requests Hist R V ks c).last_snapshot ≡ c.last_snapshot)
        × ((record_requests Hist R V ks c).history ≡ c.history)
  unfolding record_requests record_request
  record_requests-rest [] c = (refl, refl)
  record_requests-rest (k ∷ ks) c = record_requests-rest ks (record_request Hist R V k c)

  since_last_by :
      (now : ℤ) (c c' : Collector H F V)
      → c.last_snapshot ≡ c'.last_snapshot
      → c.start_time ≡ c'.start_time
      → since_last Hist R V now c ≡ since_last Hist R V now c'
  unfolding since_last
  since_last_by now c c' e f = ground (arith, e, f)

  since_last-record_requests :
      (ks : Recordings Hist R V) (now : ℤ) (c : Collector H F V)
      → since_last Hist R V now (record_requests Hist R V ks c) ≡ since_last Hist R V now c
  since_last-record_requests ks now c =
      since_last_by now (record_requests Hist R V ks c) c (record_requests-rest ks c).0
        (record_requests-start_time Hist R V ks c)

  pub All-append-IsDrawn :
      (ks ls : Recordings Hist R V)
      → All (IsDrawn Hist R V) (ks ++ ls)
      → All (IsDrawn Hist R V) ks × All (IsDrawn Hist R V) ls
  All-append-IsDrawn [] ls d = (tt, d)
  All-append-IsDrawn (k ∷ ks) ls d =
      let rest = All-append-IsDrawn ks ls d.1 in ((d.0, rest.0), rest.1)

  -- What the snapshot of a round reports.
  round_report :
      (seen : List Request) (ks : Recordings Hist R V) (elapsed : ℤ) (c : Collector H F V)
      → IsHolding Hist R V seen c.total
      → IsCountable (requests_of Hist R V ks ++ seen)
      → All (IsDrawn Hist R V) ks
      → Reports Hist R
          (requests_of Hist R V ks ++ seen)
          elapsed
          (snapshot_sharded Hist R elapsed (record_requests Hist R V ks c).total)
  unfolding IsHolding
  round_report seen ks elapsed c w fit d =
      snapshot_sharded-Reports Hist R elapsed (requests_of Hist R V ks ++ seen)
        (record_requests Hist R V ks c).total fit
        (record_requests-total Hist R V ks seen c d fit w).0

  pub take_snapshot-IsAt :
      (seen : List Request) (ks : Recordings Hist R V) (last : Option ℤ) (now : ℤ)
      (c : Collector H F V)
      → IsAt seen last c
      → IsCountable (requests_of Hist R V ks ++ seen)
      → All (IsDrawn Hist R V) ks
      → IsAt
          (requests_of Hist R V ks ++ seen)
          (some now)
          (take_snapshot Hist R V now (record_requests Hist R V ks c))
  unfolding take_snapshot since_last delta_requests
  take_snapshot-IsAt seen ks last now c w fit d =
      let all = requests_of Hist R V ks ++ seen in
      let elapsed = since_last Hist R V now (record_requests Hist R V ks c) in
      let report = round_report seen ks elapsed c w.holds fit d in
      record {
        holds = record_requests-total Hist R V ks seen c d fit w.holds;
        since = λ later. refl;
        delta = λ n l.
            ap (sub64 (pos (n + length all))) report.all_requests
            ∙ sub64-pos (n + length all) (length all) (omega arith) l
            ∙ ap pos (omega arith);
      }

  pub data_point-IsPoint :
      (seen : List Request) (ks : Recordings Hist R V) (last : Option ℤ) (now : ℤ)
      (c : Collector H F V)
      → IsAt seen last c
      → IsCountable (requests_of Hist R V ks ++ seen)
      → All (IsDrawn Hist R V) ks
      → let before = record_requests Hist R V ks c in
        let elapsed = since_last Hist R V now before in
        IsPoint (requests_of Hist R V ks ++ seen) (length ks) now (between now last) (
          data_point Hist R V now elapsed before.last_snapshot
            (snapshot_sharded Hist R elapsed before.total))
  unfolding data_point
  data_point-IsPoint seen ks last now c w fit d =
      let all = requests_of Hist R V ks ++ seen in
      let before = record_requests Hist R V ks c in
      let elapsed = since_last Hist R V now before in
      let report = round_report seen ks elapsed c w.holds fit d in
      let long : length all ≡ length ks + length seen =
        omega (arith, length-append (requests_of Hist R V ks) seen, length-requests_of ks) in
      let fresh : delta_requests Hist R V (snapshot_sharded Hist R elapsed before.total).total
            before.last_snapshot
          ≡ pos (length ks) =
        ap₂ (delta_requests Hist R V) (report.all_requests ∙ ap pos long)
          (record_requests-rest ks c).0
        ∙ w.delta (length ks) (omega (arith, long, fit.1)) in
      record {
        at = refl;
        so_far = report.all_requests;
        good = report.good;
        bad = report.bad;
        rate =
            ap₂ (current_rate Hist R V) (since_last-record_requests ks now c ∙ w.since now) fresh;
        median = report.median;
        ninety_five = report.ninety_five;
        ninety_nine = report.ninety_nine;
      }
