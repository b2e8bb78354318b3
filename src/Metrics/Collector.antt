-- ===== src/Metrics/Collector.antt =====
-- internal/metrics/collector.go: `Collector`. Each of its locks guards one field, so the calls of all
-- -- goroutines form one sequence; the clock and the shards that `rand` picks are arguments.
use crankfire.Prelude.{
  ℕ, zero, suc, ◌+◌, ◌-◌, ◌*◌, ◌/◌, ◌%◌, ◌^◌, ◌≤◌, ◌<◌, min, max, String, ◌≡◌, refl, sym, ap, ◌∙◌,
  subst, ◌≢◌, ◌↔◌, ◌⊎◌, inl, inr, Bool, true, false, ◌&&◌, ◌||◌, not, Option, none, some, List, [],
  ◌∷◌, ◌++◌, map, arith, ltb, leb, nat_beq, if◌then◌else◌, tests, Bool-cases, Option-cases, length,
  get_elem?, get_or, set, replicate, length-append, length-map, length-set, All, In, Eq, ◌==◌,
  nat_eq, string_eq, Float64, le_f, zero_f,
}
use crankfire.Prelude.Int.{
  ℤ, pos, negsuc, pos_part, quot, rem, neg_part, sub_ℕ, ◌+ℤ◌, ◌-ℤ◌, ◌*ℤ◌, ◌≤ℤ◌, ◌<ℤ◌, ltb_ℤ, leb_ℤ,
  beq_ℤ, int_laws,
}
use crankfire.Prelude.Int64.{
  wrap64, add64, sub64, mul64, Fits64, wrap64-of_Fits64, add64-of_Fits64, add64-pos, sub64-pos,
}
use crankfire.Prelude.Maps.{
  lookup, value_or, insert, delete, write_all, lookup-insert, lookup-insert_self, lookup-delete,
  lookup-write_all, beq_refl, or_else, NoDup, insert-NoDup,
}
use crankfire.Metrics.{Histogram, Request, EndpointStats}
use crankfire.Metrics.Bucket.{StatsBucket, milliseconds, seconds, long_enough}
use crankfire.Metrics.Shards.{new_sharded_stats, record_sharded, snapshot_sharded}
pub mod Recorded
pub mod Totals
pub mod Points
pub mod History

-- A value of interface{}, by the types that `aggregateMetric` tells apart.
pub data Metric (F V : Type 0) : Type 0 where
  int_metric : ℤ → Metric F V
  int64_metric : ℤ → Metric F V
  float_metric : F → Metric F V
  other_metric : V → Metric F V

pub record RequestMetadata (F V : Type 0) : Type 0 where
  pub endpoint : String
  pub protocol : String
  pub status_code : String
  pub custom_metrics : List (String × Metric F V)

pub record DataPoint (F : Type 0) : Type 0 where
  pub timestamp : ℤ
  pub total_requests : ℤ
  pub successful_requests : ℤ
  pub errors : ℤ
  pub current_rps : F
  pub p50_latency : ℤ
  pub p95_latency : ℤ
  pub p99_latency : ℤ
  pub p50_latency_ms : F
  pub p95_latency_ms : F
  pub p99_latency_ms : F

-- A zero time is `none`.
pub record SnapshotState : Type 0 where
  pub timestamp : Option ℤ
  pub total_requests : ℤ
  pub success_count : ℤ
  pub failure_count : ℤ

-- `started` and `startTime`: the time once the collector was started.
pub record Collector (H F V : Type 0) : Type 0 where
  pub total : List (StatsBucket H)
  pub endpoints : List (String × List (StatsBucket H))
  pub custom_metrics : List (String × List (String × Metric F V))
  pub start_time : Option ℤ
  pub history : List (DataPoint F)
  pub last_snapshot : SnapshotState

pub record Stats (F V : Type 0) : Type 0 where
  pub summary : EndpointStats F
  pub duration : ℤ
  pub duration_ms : F
  pub endpoints : List (String × EndpointStats F)
  pub protocol_metrics : List (String × List (String × Metric F V))

-- A call of `RecordRequest`, with the shards that its two records fall in.
pub record Recording (F V : Type 0) : Type 0 where
  pub latency : ℤ
  pub failed : Bool
  pub meta : Option (RequestMetadata F V)
  pub shard : ℕ
  pub endpoint_shard : ℕ

module _ (Hist : Histogram) (R : Float64) (V : Type 0) where
  open Hist use {H}
  open R use {F, of_int, add, div, lt}

  pub new_collector : Collector H F V
  new_collector = record {
    total = new_sharded_stats Hist;
    endpoints = [];
    custom_metrics = [];
    start_time = none;
    history = [];
    last_snapshot = record {
      timestamp = none;
      total_requests = pos 0;
      success_count = pos 0;
      failure_count = pos 0;
    };
  }

  pub start_collector : ℤ → Collector H F V → Collector H F V
  start_collector now c = elim (c.start_time) [
    | none ↦ record c { start_time = some now }
    | some t ↦ c
  ]

  -- The new value of a metric whose current one is there or not.
  pub combined : Option (Metric F V) → Metric F V → Metric F V
  combined (some (int_metric old)) (int_metric v) = int_metric (add64 old v)
  combined (some (int64_metric old)) (int64_metric v) = int64_metric (add64 old v)
  combined (some (float_metric old)) (float_metric v) = float_metric (add old v)
  combined current v = v

  abbrev Metrics : Type 0
  Metrics = List (String × Metric F V)

  pub aggregate_metric : String → Metric F V → Metrics → Metrics
  aggregate_metric key value metrics = insert key (combined (lookup key metrics) value) metrics

  pub aggregate_metrics : Metrics → Metrics → Metrics
  aggregate_metrics [] metrics = metrics
  aggregate_metrics ((key, value) ∷ rest) metrics =
      aggregate_metrics rest (aggregate_metric key value metrics)

  abbrev no_metadata : RequestMetadata F V
  no_metadata = record { endpoint = ""; protocol = ""; status_code = ""; custom_metrics = [] }

  abbrev pub metadata : Recording F V → RequestMetadata F V
  metadata k = value_or no_metadata k.meta

  abbrev pub request_of : Recording F V → Request
  request_of k = record {
    latency = k.latency;
    failed = k.failed;
    protocol = (metadata k).protocol;
    status_code = (metadata k).status_code;
  }

  -- `Load`, or `LoadOrStore` of new statistics, and the record.
  pub record_endpoint :
      String
      → Recording F V
      → List (String × List (StatsBucket H))
      → List (String × List (StatsBucket H))
  record_endpoint endpoint k endpoints =
      let shards = value_or (new_sharded_stats Hist) (lookup endpoint endpoints) in
      insert endpoint (record_sharded Hist k.endpoint_shard (request_of k) shards) endpoints

  pub record_custom : String → Metrics → List (String × Metrics) → List (String × Metrics)
  record_custom protocol [] all_metrics = all_metrics
  record_custom protocol (metric ∷ metrics) all_metrics =
      insert protocol
        (aggregate_metrics (metric ∷ metrics) (value_or [] (lookup protocol all_metrics)))
        all_metrics

  pub record_request : Recording F V → Collector H F V → Collector H F V
  record_request k c =
      let meta = metadata k in
      record c {
        total = record_sharded Hist k.shard (request_of k) c.total;
        endpoints =
            if meta.endpoint == ""
            then c.endpoints
            else record_endpoint meta.endpoint k c.endpoints;
        custom_metrics =
            if meta.protocol == ""
            then c.custom_metrics
            else record_custom meta.protocol meta.custom_metrics c.custom_metrics;
      }

  pub actual_elapsed : ℤ → ℤ → Collector H F V → ℤ
  actual_elapsed elapsed now c = elim (c.start_time) [ none ↦ elapsed | some t ↦ sub64 now t ]

  pub snapshot_endpoints :
      ℤ → List (String × List (StatsBucket H)) → List (String × EndpointStats F)
  snapshot_endpoints elapsed [] = []
  snapshot_endpoints elapsed ((name, shards) ∷ endpoints) =
      (name, snapshot_sharded Hist R elapsed shards) ∷ snapshot_endpoints elapsed endpoints

  pub stats : ℤ → ℤ → Collector H F V → Stats F V
  stats elapsed now c =
      let actual = actual_elapsed elapsed now c in
      record {
        summary = snapshot_sharded Hist R actual c.total;
        duration = actual;
        duration_ms = milliseconds Hist R actual;
        endpoints = snapshot_endpoints actual c.endpoints;
        protocol_metrics = c.custom_metrics;
      }

  -- The time since the last snapshot, or since the start.
  pub since_last : ℤ → Collector H F V → ℤ
  since_last now c = elim (c.last_snapshot.timestamp) [
    | none ↦ elim (c.start_time) [ none ↦ pos 0 | some t ↦ sub64 now t ]
    | some t ↦ sub64 now t
  ]

  pub delta_requests : ℤ → SnapshotState → ℤ
  delta_requests current last = elim (last.timestamp) [
    | none ↦ current
    | some t ↦ sub64 current last.total_requests
  ]

  pub current_rate : ℤ → ℤ → F
  current_rate elapsed delta =
      if long_enough Hist R elapsed && lt (zero_f R) (seconds Hist R elapsed)
      then div (of_int delta) (seconds Hist R elapsed)
      else zero_f R

  pub data_point : ℤ → ℤ → SnapshotState → EndpointStats F → DataPoint F
  data_point now elapsed last summary = record {
    timestamp = now;
    total_requests = summary.total;
    successful_requests = summary.successes;
    errors = summary.failures;
    current_rps = current_rate elapsed (delta_requests summary.total last);
    p50_latency = summary.p50_latency;
    p95_latency = summary.p95_latency;
    p99_latency = summary.p99_latency;
    p50_latency_ms = summary.p50_latency_ms;
    p95_latency_ms = summary.p95_latency_ms;
    p99_latency_ms = summary.p99_latency_ms;
  }

  pub take_snapshot : ℤ → Collector H F V → Collector H F V
  take_snapshot now c =
      let elapsed = since_last now c in
      let summary = snapshot_sharded Hist R elapsed c.total in
      record c {
        history = c.history ++ data_point now elapsed c.last_snapshot summary ∷ [];
        last_snapshot = record {
          timestamp = some now;
          total_requests = summary.total;
          success_count = summary.successes;
          failure_count = summary.failures;
        };
      }
