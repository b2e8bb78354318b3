-- ===== src/Metrics/Shards.antt =====
-- internal/metrics/collector.go: `shardedStats`, 32 buckets with a lock each. `rand.Intn` picks the
-- -- shard of a request: its index is a parameter.
use crankfire.Prelude.{
  ℕ, zero, suc, ◌+◌, ◌-◌, ◌*◌, ◌/◌, ◌%◌, ◌^◌, ◌≤◌, ◌<◌, min, max, String, ◌≡◌, refl, sym, ap, ◌∙◌,
  subst, ◌≢◌, ◌↔◌, ◌⊎◌, inl, inr, Bool, true, false, ◌&&◌, ◌||◌, not, Option, none, some, List, [],
  ◌∷◌, ◌++◌, map, arith, ltb, leb, nat_beq, if◌then◌else◌, tests, Bool-cases, Option-cases, length,
  get_elem?, get_or, set, replicate, length-append, length-map, length-set, All, In, Eq, ◌==◌,
  nat_eq, string_eq, Float64, le_f, zero_f,
}
use crankfire.Prelude.Int.{
  ℤ, pos, negsuc, pos_part, quot, rem, neg_part, sub_ℕ, ◌+ℤ◌, ◌-ℤ◌, ◌*ℤ◌, ◌≤ℤ◌, ◌<ℤ◌, ltb_ℤ, leb_ℤ,
  beq_ℤ, int_laws,
}
use crankfire.Prelude.Int64.{
  wrap64, add64, sub64, mul64, Fits64, wrap64-of_Fits64, add64-of_Fits64, add64-pos, sub64-pos,
}
use crankfire.Prelude.Maps.{
  lookup, value_or, insert, delete, write_all, lookup-insert, lookup-insert_self, lookup-delete,
  lookup-write_all, beq_refl, or_else, NoDup, insert-NoDup,
}
use crankfire.Metrics.{Histogram, Request, EndpointStats}
use crankfire.Metrics.Bucket.{StatsBucket, new_stats_bucket, record_one, merge, snapshot}
pub mod Pooled

pub num_shards : ℕ
num_shards = 32

module _ (Hist : Histogram) where
  open Hist use {H}

  pub new_sharded_stats : List (StatsBucket H)
  new_sharded_stats = replicate num_shards (new_stats_bucket Hist)

  -- Under the lock of the shard `idx`.
  pub record_sharded : ℕ → Request → List (StatsBucket H) → List (StatsBucket H)
  record_sharded idx r shards = elim (get_elem? shards idx) [
    | none ↦ shards
    | some b ↦ set shards idx (record_one Hist r b)
  ]

  pub merge_shards : StatsBucket H → List (StatsBucket H) → StatsBucket H
  merge_shards agg [] = agg
  merge_shards agg (b ∷ shards) = merge_shards (merge Hist agg b) shards

  pub snapshot_sharded : (R : Float64) → ℤ → List (StatsBucket H) → EndpointStats R.F
  snapshot_sharded R elapsed shards =
      snapshot Hist R elapsed (merge_shards (new_stats_bucket Hist) shards)
