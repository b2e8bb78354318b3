-- ===== src/Metrics/Shards/Pooled.antt =====
-- Sharded statistics report the requests whatever the shards they were recorded in.
use crankfire.Prelude.{
  ℕ, zero, suc, ◌^◌, ◌<◌, ◌≡◌, refl, sym, subst, inl, inr, List, [], ◌∷◌, ◌++◌, arith, Option-cases,
  length, get_elem?, replicate, length-append, length-replicate, length-set, nat_eq, string_eq,
  Float64,
}
use crankfire.Prelude.Int.{ℤ}
use mathlib.Core.List.{Permᴰ, append_assoc}
use mathlib.Core.List.Permᴰ
use crankfire.Metrics.{Histogram, Request}
use crankfire.Metrics.Bucket.{StatsBucket, new_stats_bucket, record_one, merge}
use crankfire.Metrics.Bucket.Measures.{
  IsPositive, latency_sum-append, latency_sum-perm, All-perm, All-append, length-perm,
}
use crankfire.Metrics.Bucket.Counts.{
  IsCountable, Counts, new_stats_bucket-Counts, record_one-Counts, merge-Counts, Counts-perm,
}
use crankfire.Metrics.Bucket.Report.{Reports, snapshot-Reports}
use crankfire.Metrics.Shards.{
  num_shards, new_sharded_stats, record_sharded, merge_shards, snapshot_sharded,
}

-- The requests of all shards.
abbrev pooled : List (List Request) → List Request
pooled [] = []
pooled (rs ∷ rss) = rs ++ pooled rss

pub IsCountable-perm : {xs ys : List Request} → Permᴰ xs ys → IsCountable xs → IsCountable ys
IsCountable-perm p c = (
  All-perm (λ r. IsPositive r) p c.0,
  subst (λ n. n < 2 ^ 63) (length-perm p) c.1,
  subst (λ n. n < 2 ^ 63) (latency_sum-perm p) c.2,
)

pub IsCountable-append :
    (xs ys : List Request) → IsCountable (xs ++ ys) → IsCountable xs × IsCountable ys
IsCountable-append xs ys c =
    let both = All-append (λ r. IsPositive r) xs ys c.0 in
    let long = length-append xs ys in
    let sum = latency_sum-append xs ys in
    (
      (both.0, omega (arith, c.1, long), omega (arith, c.2, sum)),
      (both.1, omega (arith, c.1, long), omega (arith, c.2, sum)),
    )

-- Merging a shard before the others, or with them.
pub regroup : (xs ys zs : List Request) → Permᴰ (ys ++ (xs ++ zs)) ((xs ++ ys) ++ zs)
regroup xs ys zs =
    subst (λ l. Permᴰ l ((xs ++ ys) ++ zs)) (append_assoc ys xs zs)
      (Permᴰ.append_right zs (Permᴰ.append_comm ys xs))

module _ (Hist : Histogram) where
  open Hist use {H}

  abbrev Each : List (List Request) → List (StatsBucket H) → Type 0
  Each [] [] = Unit
  Each [] (b ∷ shards) = ⊥
  Each (rs ∷ rss) [] = ⊥
  Each (rs ∷ rss) (b ∷ shards) = Counts Hist rs b × Each rss shards

  -- The shards hold the requests between them.
  pub Hold : List (StatsBucket H) → List Request → Type 0
  Hold shards rs = (rss : List (List Request)) × Each rss shards × Permᴰ (pooled rss) rs

  pub Hold-perm :
      {rs rs' : List Request} (shards : List (StatsBucket H))
      → Permᴰ rs rs'
      → Hold shards rs
      → Hold shards rs'
  unfolding Hold
  Hold-perm shards p (rss, v, q) = (rss, v, Permᴰ.trans q p)

  record_sharded-suc :
      (i : ℕ) (r : Request) (b : StatsBucket H) (shards : List (StatsBucket H))
      → record_sharded Hist (suc i) r (b ∷ shards) ≡ b ∷ record_sharded Hist i r shards
  unfolding record_sharded
  record_sharded-suc i r b shards = elim (Option-cases (get_elem? shards i)) [
    | inl e ↦ rw (record_sharded, e)
    | inr (c, e) ↦ rw (record_sharded, e)
  ]

  record_sharded-Each :
      (i : ℕ) (r : Request) (rss : List (List Request)) (shards : List (StatsBucket H))
      → i < length shards
      → IsCountable (r ∷ pooled rss)
      → Each rss shards
      → Hold (record_sharded Hist i r shards) (r ∷ pooled rss)
  unfolding Hold record_sharded
  record_sharded-Each i r [] [] l c v = absurd (omega arith)
  record_sharded-Each i r [] (b ∷ shards) l c v = absurd v
  record_sharded-Each i r (rs ∷ rss) [] l c v = absurd v
  record_sharded-Each zero r (rs ∷ rss) (b ∷ shards) l c v =
      let here = (IsCountable-append (r ∷ rs) (pooled rss) c).0 in
      (
        (r ∷ rs) ∷ rss,
        (record_one-Counts Hist r rs b here v.0, v.1),
        Permᴰ.refl (r ∷ rs ++ pooled rss),
      )
  record_sharded-Each (suc i) r (rs ∷ rss) (b ∷ shards) l c v =
      let moved = IsCountable-perm (Permᴰ.symm (Permᴰ.middle r rs (pooled rss))) c in
      let there = (IsCountable-append rs (r ∷ pooled rss) moved).1 in
      let rest = record_sharded-Each i r rss shards (omega arith) there v.1 in
      (
        rs ∷ rest.0,
        subst (λ s. Each (rs ∷ rest.0) s) (sym (record_sharded-suc i r b shards)) (v.0, rest.1),
        Permᴰ.trans (Permᴰ.append_left rs rest.2) (Permᴰ.middle r rs (pooled rss)),
      )

  pub record_sharded-Hold :
      (i : ℕ) (r : Request) (rs : List Request) (shards : List (StatsBucket H))
      → i < length shards
      → IsCountable (r ∷ rs)
      → Hold shards rs
      → Hold (record_sharded Hist i r shards) (r ∷ rs)
  unfolding Hold
  record_sharded-Hold i r rs shards l c (rss, v, p) =
      let same = Permᴰ.cons {a = r} refl p in
      let k = record_sharded-Each i r rss shards l (IsCountable-perm (Permᴰ.symm same) c) v in
      (k.0, k.1, Permᴰ.trans k.2 same)

  pub length-record_sharded :
      (i : ℕ) (r : Request) (shards : List (StatsBucket H))
      → length (record_sharded Hist i r shards) ≡ length shards
  unfolding record_sharded
  length-record_sharded i r shards = elim (Option-cases (get_elem? shards i)) [
    | inl e ↦ rw (record_sharded, e)
    | inr (b, e) ↦ rw (record_sharded, e) (length-set shards i (record_one Hist r b))
  ]

  fresh_shards-Each : (n : ℕ) → Each (replicate n []) (replicate n (new_stats_bucket Hist))
  fresh_shards-Each zero = tt
  fresh_shards-Each (suc n) = (new_stats_bucket-Counts Hist, fresh_shards-Each n)

  pooled_fresh : (n : ℕ) → pooled (replicate n []) ≡ []
  pooled_fresh zero = refl
  pooled_fresh (suc n) = pooled_fresh n

  pub new_sharded_stats-Hold : Hold (new_sharded_stats Hist) []
  unfolding Hold new_sharded_stats
  new_sharded_stats-Hold = (
    replicate num_shards [],
    fresh_shards-Each num_shards,
    subst (λ l. Permᴰ (pooled (replicate num_shards [])) l) (pooled_fresh num_shards)
        (Permᴰ.refl (pooled (replicate num_shards []))),
  )

  pub length-new_sharded_stats : length (new_sharded_stats Hist) ≡ 32
  unfolding new_sharded_stats num_shards
  length-new_sharded_stats = length-replicate 32 (new_stats_bucket Hist)

  merge_shards-Counts :
      (rss : List (List Request)) (shards : List (StatsBucket H)) (rs : List Request)
      (agg : StatsBucket H)
      → IsCountable (pooled rss ++ rs)
      → Each rss shards
      → Counts Hist rs agg
      → Counts Hist (pooled rss ++ rs) (merge_shards Hist agg shards)
  unfolding merge_shards
  merge_shards-Counts [] [] rs agg c v w = w
  merge_shards-Counts [] (b ∷ shards) rs agg c v w = absurd v
  merge_shards-Counts (xs ∷ rss) [] rs agg c v w = absurd v
  merge_shards-Counts (xs ∷ rss) (b ∷ shards) rs agg c v w =
      let order = regroup xs (pooled rss) rs in
      let all_fit = IsCountable-perm (Permᴰ.symm order) c in
      let these_fit = (IsCountable-append (pooled rss) (xs ++ rs) all_fit).1 in
      let merged = merge-Counts Hist rs xs agg b these_fit w v.0 in
      let rest = merge_shards-Counts rss shards (xs ++ rs) (merge Hist agg b) all_fit v.1 merged in
      Counts-perm Hist (merge_shards Hist (merge Hist agg b) shards) order all_fit.0 rest

  pub snapshot_sharded-Reports :
      (R : Float64) (elapsed : ℤ) (rs : List Request) (shards : List (StatsBucket H))
      → IsCountable rs
      → Hold shards rs
      → Reports Hist R rs elapsed (snapshot_sharded Hist R elapsed shards)
  unfolding Hold snapshot_sharded
  snapshot_sharded-Reports R elapsed rs shards c (rss, v, p) =
      let order = Permᴰ.trans (Permᴰ.append-nil (pooled rss)) p in
      let fit = IsCountable-perm (Permᴰ.symm order) c in
      let agg = merge_shards Hist (new_stats_bucket Hist) shards in
      let counts =
        merge_shards-Counts rss shards [] (new_stats_bucket Hist) fit v
          (new_stats_bucket-Counts Hist) in
      snapshot-Reports Hist R rs elapsed agg c (Counts-perm Hist agg order fit.0 counts)
