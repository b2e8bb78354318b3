-- ===== src/Metrics/Collector/History.antt =====
-- The data points that periodic snapshots of a collector record.
use crankfire.Prelude.{
  ◌≡◌, refl, sym, ap, ◌∙◌, subst, Option, none, some, List, [], ◌∷◌, ◌++◌, arith, All, nat_eq,
  string_eq, Float64,
}
use crankfire.Prelude.Int.{ℤ, pos}
use mathlib.Core.List.Permᴰ
use mathlib.Core.List.{append_assoc, append-nil}
use crankfire.Metrics.{Histogram, Request}
use crankfire.Metrics.Bucket.Counts.{IsCountable}
use crankfire.Metrics.Shards.{snapshot_sharded}
use crankfire.Metrics.Shards.Pooled.{IsCountable-perm, IsCountable-append, regroup}
use crankfire.Metrics.Collector.{
  Collector, DataPoint, new_collector, start_collector, delta_requests, data_point, since_last,
  take_snapshot,
}
use crankfire.Metrics.Collector.Recorded.{Recordings, record_requests, requests_of, IsDrawn}
use crankfire.Metrics.Collector.Totals.{begin, begin-total-IsHolding}
use crankfire.Metrics.Collector.Points.{
  Rounds, sample_all, calls_of, Charts, IsAt, requests_of-append, record_requests-rest,
  All-append-IsDrawn, take_snapshot-IsAt, data_point-IsPoint,
}

module _ (Hist : Histogram) (R : Float64) (V : Type 0) where
  open Hist use {H}
  open R use {F}

  history_grows :
      (ks : Recordings Hist R V) (now : ℤ) (c : Collector H F V) (points : List (DataPoint F))
      → let before = record_requests Hist R V ks c in
        let elapsed = since_last Hist R V now before in
        let summary = snapshot_sharded Hist R elapsed before.total in
        (take_snapshot Hist R V now before).history ++ points
        ≡ c.history ++ data_point Hist R V now elapsed before.last_snapshot summary ∷ points
  unfolding take_snapshot
  history_grows ks now c points =
      let before = record_requests Hist R V ks c in
      let elapsed = since_last Hist R V now before in
      let summary = snapshot_sharded Hist R elapsed before.total in
      let p = data_point Hist R V now elapsed before.last_snapshot summary in
      append_assoc before.history (p ∷ []) points
      ∙ ap (λ (points' : List (DataPoint F)). points' ++ p ∷ points)
          ((record_requests-rest Hist R V) ks c).1

  sample_all-Charts :
      (rounds : (Rounds Hist R V)) (seen : List Request) (last : Option ℤ) (c : Collector H F V)
      → (IsAt Hist R V) seen last c
      → IsCountable (requests_of Hist R V ((calls_of Hist R V) rounds) ++ seen)
      → All (IsDrawn Hist R V) ((calls_of Hist R V) rounds)
      → (points : List (DataPoint F)) × (((sample_all Hist R V) rounds c).history
          ≡ c.history ++ points)
        × (Charts Hist R V) seen last rounds points
  unfolding sample_all Charts
  sample_all-Charts [] seen last c w fit d = ([], sym (append-nil c.history), tt)
  sample_all-Charts ((ks, now) ∷ rounds) seen last c w fit d =
      let these = requests_of Hist R V ks in
      let later = requests_of Hist R V ((calls_of Hist R V) rounds) in
      let drawn = (All-append-IsDrawn Hist R V) ks ((calls_of Hist R V) rounds) d in
      let whole =
        subst (λ rs. IsCountable (rs ++ seen))
          ((requests_of-append Hist R V) ks ((calls_of Hist R V) rounds)) fit in
      let later_fit = IsCountable-perm (Permᴰ.symm (regroup these later seen)) whole in
      let this_fits = (IsCountable-append later (these ++ seen) later_fit).1 in
      let before = record_requests Hist R V ks c in
      let next = (take_snapshot-IsAt Hist R V) seen ks last now c w this_fits drawn.0 in
      let rest =
        sample_all-Charts rounds (these ++ seen) (some now) (take_snapshot Hist R V now before) next
          later_fit drawn.1 in
      let elapsed = since_last Hist R V now before in
      let p =
        data_point Hist R V now elapsed before.last_snapshot
          (snapshot_sharded Hist R elapsed before.total) in
      (
        p ∷ rest.0,
        rest.1 ∙ history_grows ks now c rest.0,
        ((data_point-IsPoint Hist R V) seen ks last now c w this_fits drawn.0, rest.2),
      )

  begin-IsAt :
      (began : Option ℤ)
      → (IsAt Hist R V) [] began (begin Hist R V began) × ((begin Hist R V began).history ≡ [])
  unfolding begin new_collector start_collector since_last delta_requests
  begin-IsAt none = (
    record {
      holds = begin-total-IsHolding Hist R V none;
      since = λ now. refl;
      delta = λ n l. ap pos (omega arith);
    },
    refl,
  )
  begin-IsAt (some t) = (
    record {
      holds = begin-total-IsHolding Hist R V (some t);
      since = λ now. refl;
      delta = λ n l. ap pos (omega arith);
    },
    refl,
  )

  -- Snapshots of a collector, started or not, give one data point each, in their order: its time, the
  -- number of requests recorded until then, in whichever shards, how many of them failed, the quantiles of
  -- all their latencies, and the rate of the requests recorded since the last snapshot over the time since
  -- it; the first counts from the start, and over no time where there was none. Latencies are above 0,
  -- their number and sum below 2^63.
  pub history-Charts :
      (rounds : (Rounds Hist R V)) (began : Option ℤ)
      → IsCountable (requests_of Hist R V ((calls_of Hist R V) rounds))
      → All (IsDrawn Hist R V) ((calls_of Hist R V) rounds)
      → (Charts Hist R V) [] began rounds
          ((sample_all Hist R V) rounds (begin Hist R V began)).history
  history-Charts rounds began fit d =
      let start = begin-IsAt began in
      let whole =
        subst IsCountable (sym (append-nil (requests_of Hist R V ((calls_of Hist R V) rounds))))
          fit in
      let k = sample_all-Charts rounds [] began (begin Hist R V began) start.0 whole d in
      let all : ((sample_all Hist R V) rounds (begin Hist R V began)).history ≡ k.0 =
        k.1 ∙ ap (λ (before : List (DataPoint F)). before ++ k.0) start.1 in
      subst (λ points. (Charts Hist R V) [] began rounds points) (sym all) k.2
