-- ===== src/Metrics/Collector/Totals.antt =====
-- What the collector's statistics report of the requests that were recorded.
use crankfire.Prelude.{
  ◌≤◌, String, ◌≡◌, refl, sym, ap, ◌∙◌, subst, ◌≢◌, ◌⊎◌, inl, inr, Option, none, some, List, [],
  ◌∷◌, arith, Bool-cases, length, All, nat_eq, string_eq, Float64,
}
use crankfire.Prelude.Int.{ℤ}
use crankfire.Prelude.Int64.{sub64}
use crankfire.Prelude.Maps.{lookup}
use mathlib.Core.Option
use crankfire.Metrics.{Histogram, EndpointStats}
use crankfire.Metrics.Bucket.{StatsBucket}
use crankfire.Metrics.Bucket.Measures.{IsPositive, latency_sum}
use crankfire.Metrics.Bucket.Counts.{IsCountable}
use crankfire.Metrics.Bucket.Report.{Reports}
use crankfire.Metrics.Shards.{new_sharded_stats, snapshot_sharded}
use crankfire.Metrics.Shards.Pooled.{snapshot_sharded-Reports}
use crankfire.Metrics.Collector.{
  Collector, Stats, new_collector, start_collector, record_request, actual_elapsed,
  snapshot_endpoints, stats,
}
use crankfire.Metrics.Collector.Recorded.{
  Recordings, record_requests, requests_of, is_on, requests_on, IsDrawn, IsHolding, fresh-IsHolding,
  EndpointHolds, record_requests-total, record_requests-EndpointHolds, with_nil, without_nil,
}

module _ (Hist : Histogram) (R : Float64) (V : Type 0) where
  open Hist use {H}
  open R use {F}

  lookup-snapshot_endpoints :
      (elapsed : ℤ) (name : String) (endpoints : List (String × List (StatsBucket H)))
      → lookup name (snapshot_endpoints Hist R V elapsed endpoints)
        ≡ Option.map (snapshot_sharded Hist R elapsed) (lookup name endpoints)
  unfolding snapshot_endpoints lookup
  lookup-snapshot_endpoints elapsed name [] = refl
  lookup-snapshot_endpoints elapsed name ((other, shards) ∷ endpoints) =
      ground (arith, lookup-snapshot_endpoints elapsed name endpoints)

  -- A record on an endpoint is among all of them.
  some_of_all :
      (name : String) (ks : (Recordings Hist R V))
      → (length ((requests_on Hist R V) name ks) ≤ length ((requests_of Hist R V) ks))
        × (latency_sum ((requests_on Hist R V) name ks) ≤ latency_sum ((requests_of Hist R V) ks))
  some_of_all name [] = (omega arith, omega arith)
  some_of_all name (k ∷ ks) =
      let rest = some_of_all name ks in (ground (arith, rest.0), ground (arith, rest.1))

  some-IsPositive :
      (name : String) (ks : (Recordings Hist R V))
      → All IsPositive ((requests_of Hist R V) ks)
      → All IsPositive ((requests_on Hist R V) name ks)
  some-IsPositive name [] a = tt
  some-IsPositive name (k ∷ ks) a = elim (Bool-cases ((is_on Hist R V) name k)) [
    | inl hit ↦ rw (hit) (a.0, some-IsPositive name ks a.1)
    | inr miss ↦ rw (miss) (some-IsPositive name ks a.1)
  ]

  requests_on-IsCountable :
      (name : String) (ks : (Recordings Hist R V))
      → IsCountable ((requests_of Hist R V) ks)
      → IsCountable ((requests_on Hist R V) name ks)
  requests_on-IsCountable name ks c =
      let some = some_of_all name ks in
      (some-IsPositive name ks c.0, omega (arith, c.1, some.0), omega (arith, c.2, some.1))

  -- What the statistics have of an endpoint: nothing without a request on it.
  pub ReportsOn : String → (Recordings Hist R V) → ℤ → Stats F V → Type 0
  ReportsOn name ks elapsed s =
      (((requests_on Hist R V) name ks ≡ []) × (lookup name s.endpoints ≡ none))
      ⊎ ((shot : EndpointStats F) × (lookup name s.endpoints ≡ some shot)
          × Reports Hist R ((requests_on Hist R V) name ks) elapsed shot)

  -- A collector that was started, at a time, or not.
  unfoldable pub begin : Option ℤ → Collector H F V
  begin none = new_collector Hist R V
  begin (some t) = start_collector Hist R V t (new_collector Hist R V)

  pub begin-fresh :
      (began : Option ℤ)
      → ((begin began).start_time ≡ began)
        × ((begin began).total ≡ new_sharded_stats Hist)
        × ((begin began).endpoints ≡ [])
  unfolding begin new_collector start_collector
  begin-fresh none = (refl, refl, refl)
  begin-fresh (some t) = (refl, refl, refl)

  pub record_requests-start_time :
      (ks : (Recordings Hist R V)) (c : Collector H F V)
      → ((record_requests Hist R V) ks c).start_time ≡ c.start_time
  unfolding record_requests record_request
  record_requests-start_time [] c = refl
  record_requests-start_time (k ∷ ks) c =
      record_requests-start_time ks (record_request Hist R V k c)

  abbrev pub time_since : ℤ → ℤ → Option ℤ → ℤ
  time_since elapsed now none = elapsed
  time_since elapsed now (some t) = sub64 now t

  elapsed_of :
      (elapsed now : ℤ) (c : Collector H F V) (began : Option ℤ)
      → c.start_time ≡ began
      → actual_elapsed Hist R V elapsed now c ≡ time_since elapsed now began
  unfolding actual_elapsed
  elapsed_of elapsed now c none e = rw (actual_elapsed, e)
  elapsed_of elapsed now c (some t) e = rw (actual_elapsed, e)

  duration_of :
      (ks : (Recordings Hist R V)) (began : Option ℤ) (elapsed now : ℤ)
      → actual_elapsed Hist R V elapsed now ((record_requests Hist R V) ks (begin began))
        ≡ time_since elapsed now began
  duration_of ks began elapsed now =
      let e = record_requests-start_time ks (begin began) ∙ (begin-fresh began).0 in
      elapsed_of elapsed now ((record_requests Hist R V) ks (begin began)) began e

  pub begin-total-IsHolding : (began : Option ℤ) → (IsHolding Hist R V) [] (begin began).total
  begin-total-IsHolding began =
      subst (λ shards. (IsHolding Hist R V) [] shards) (sym (begin-fresh began).1)
        (fresh-IsHolding Hist R V)

  begin-EndpointHolds :
      (name : String) (began : Option ℤ) → (EndpointHolds Hist R V) name [] (begin began)
  unfolding EndpointHolds lookup
  begin-EndpointHolds name began = inl (refl, ap (lookup name) (begin-fresh began).2)

  snapshot_endpoints-ReportsOn :
      (ks : (Recordings Hist R V)) (name : String) (elapsed now : ℤ) (c : Collector H F V)
      → IsCountable ((requests_on Hist R V) name ks)
      → (EndpointHolds Hist R V) name ((requests_on Hist R V) name ks) c
      → ReportsOn name ks (actual_elapsed Hist R V elapsed now c) (stats Hist R V elapsed now c)
  unfolding EndpointHolds ReportsOn stats IsHolding
  snapshot_endpoints-ReportsOn ks name elapsed now c fit w =
      let actual = actual_elapsed Hist R V elapsed now c in
      let read = lookup-snapshot_endpoints actual name c.endpoints in
      elim w [
        | inl (none_yet, absent) ↦ inl (none_yet, ground (arith, read, absent))
        | inr (shards, found, held) ↦ inr (
          snapshot_sharded Hist R actual shards,
          ground (arith, read, found),
          snapshot_sharded-Reports Hist R actual ((requests_on Hist R V) name ks) shards fit held.0,
        )
      ]

  -- What the statistics report after any calls of `RecordRequest` on a new collector, started or not, in
  -- whichever shards they fall, is what the requests amount to: the summary that of all requests, an
  -- endpoint's that of the requests on it, as `Reports` says, and an endpoint without requests is not
  -- there. The duration counts from the start. Latencies are above 0, their number and sum below 2^63.
  pub stats-Reports :
      (ks : (Recordings Hist R V)) (name : String) (began : Option ℤ) (elapsed now : ℤ)
      → All (IsDrawn Hist R V) ks
      → IsCountable ((requests_of Hist R V) ks)
      → name ≢ ""
      → let s = stats Hist R V elapsed now ((record_requests Hist R V) ks (begin began)) in
        Reports Hist R ((requests_of Hist R V) ks) s.duration s.summary
        × ReportsOn name ks s.duration s
        × (s.duration ≡ time_since elapsed now began)
  unfolding stats IsHolding
  stats-Reports ks name began elapsed now d fit n =
      let c = (record_requests Hist R V) ks (begin began) in
      let actual = actual_elapsed Hist R V elapsed now c in
      let on_fit = requests_on-IsCountable name ks fit in
      let all =
        (record_requests-total Hist R V) ks [] (begin began) d (with_nil IsCountable fit)
          (begin-total-IsHolding began) in
      let on =
        (record_requests-EndpointHolds Hist R V) ks name [] (begin began) n d
          (with_nil IsCountable on_fit) (begin-EndpointHolds name began) in
      (
        snapshot_sharded-Reports Hist R actual ((requests_of Hist R V) ks) c.total fit
            (without_nil (λ rs. (IsHolding Hist R V) rs c.total) all).0,
        snapshot_endpoints-ReportsOn ks name elapsed now c on_fit
            (without_nil (λ rs. (EndpointHolds Hist R V) name rs c) on),
        duration_of ks began elapsed now,
      )
