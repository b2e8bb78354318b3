-- ===== src/Metrics/Bucket/Counts.antt =====
-- A bucket holds what the requests recorded in it amount to, and so does a merge of two buckets.
use crankfire.Prelude.{
  ◌+◌, ◌^◌, ◌<◌, String, ◌≡◌, refl, ap, ◌∙◌, inl, inr, Bool, ◌&&◌, not, List, [], ◌∷◌, ◌++◌, arith,
  Bool-cases, length, length-append, All, ◌==◌, nat_eq, string_eq,
}
use crankfire.Prelude.Int.{pos}
use crankfire.Prelude.Int64.{add64, add64-pos}
use crankfire.Prelude.Maps.{lookup}
use mathlib.Core.List.{Permᴰ}
use mathlib.Core.Path.{ap₂}
use crankfire.Metrics.{Histogram, Request}
use crankfire.Metrics.Bucket.{
  StatsBucket, has_status, new_stats_bucket, record_latency, record_one, merge,
}
use crankfire.Metrics.Bucket.Statuses.{
  status_count, IsStatusMap, record_status_count-IsStatusMap, record_statuses-IsStatusMap,
  status_count-record_status_count, status_count-record_statuses,
}
use crankfire.Metrics.Bucket.Measures.{
  nanos, count_if, latency_sum, least, greatest, IsPositive, least-cons, least-append,
  count_if-append, latency_sum-append, greatest-append, count_if_le, hist_of, merge_hist-hist_of,
  hist_of-perm, count_if-perm, latency_sum-perm, greatest-perm, least-perm,
}

abbrev pub is_success : Request → Bool
is_success r = not r.failed

-- A failure that came with this protocol and this code, neither of them empty.
abbrev pub failed_with : String → String → Request → Bool
failed_with protocol status r = has_status r && r.protocol == protocol && r.status_code == status

-- What the counters need: latencies above 0, and no overflow.
abbrev pub IsCountable : List Request → Type 0
IsCountable rs = All IsPositive rs × (length rs < 2 ^ 63) × (latency_sum rs < 2 ^ 63)

IsCountable-rest : (r : Request) (rs : List Request) → IsCountable (r ∷ rs) → IsCountable rs
IsCountable-rest r rs c = (c.0.1, omega (arith, c.1), omega (arith, c.2))

merged_fits :
    (test : Request → Bool) (xs ys : List Request)
    → length (ys ++ xs) < 2 ^ 63
    → count_if test xs + count_if test ys < 2 ^ 63
merged_fits test xs ys l = omega (arith, l, count_if-append test ys xs, count_if_le test (ys ++ xs))

merged_count :
    (test : Request → Bool) (xs ys : List Request)
    → length (ys ++ xs) < 2 ^ 63
    → add64 (pos (count_if test xs)) (pos (count_if test ys)) ≡ pos (count_if test (ys ++ xs))
merged_count test xs ys l =
    add64-pos (count_if test xs) (count_if test ys) (merged_fits test xs ys l)
    ∙ ap pos (omega (arith, count_if-append test ys xs))

module _ (Hist : Histogram) where
  open Hist use {H, merge_hist}

  pub record Counts (rs : List Request) (b : StatsBucket H) : Type 0 where
    pub ok : b.successes ≡ pos (count_if is_success rs)
    pub bad : b.failures ≡ pos (count_if Request.failed rs)
    pub sum : b.sum_latency ≡ pos (latency_sum rs)
    pub low : b.min_latency ≡ pos (least rs)
    pub high : b.max_latency ≡ pos (greatest rs)
    pub histogram : b.hist ≡ hist_of Hist rs
    pub statuses :
        (p s : String) → status_count p s b.status_buckets ≡ pos (count_if (failed_with p s) rs)
    pub filled : IsStatusMap b.status_buckets

  pub new_stats_bucket-Counts : Counts [] (new_stats_bucket Hist)
  unfolding new_stats_bucket hist_of lookup
  new_stats_bucket-Counts = record {
    ok = refl;
    bad = refl;
    sum = refl;
    low = refl;
    high = refl;
    histogram = refl;
    statuses = λ p s. refl;
    filled = (tt, tt);
  }

  record_one_statuses :
      (p s : String) (r : Request) (rs : List Request) (b : StatsBucket H)
      → count_if (failed_with p s) rs + 1 < 2 ^ 63
      → status_count p s b.status_buckets ≡ pos (count_if (failed_with p s) rs)
      → status_count p s (record_one Hist r b).status_buckets
        ≡ pos (count_if (failed_with p s) (r ∷ rs))
  unfolding record_one
  record_one_statuses p s r rs b l e = elim (Bool-cases (has_status r)) [
    | inl hit ↦
        let step =
          status_count-record_status_count r.protocol r.status_code p s (pos 1) b.status_buckets in
        let one = add64-pos (count_if (failed_with p s) rs) 1 l in ground (arith, hit, step, one, e)
    | inr miss ↦ ground (arith, miss, e)
  ]

  record_one_filled :
      (r : Request) (b : StatsBucket H)
      → IsStatusMap b.status_buckets
      → IsStatusMap (record_one Hist r b).status_buckets
  unfolding record_one
  record_one_filled r b w = elim (Bool-cases (has_status r)) [
    | inl hit ↦
        rw (hit)
          (record_status_count-IsStatusMap r.protocol r.status_code (pos 1) b.status_buckets w)
    | inr miss ↦ rw (miss) w
  ]

  pub record_one-Counts :
      (r : Request) (rs : List Request) (b : StatsBucket H)
      → IsCountable (r ∷ rs)
      → Counts rs b
      → Counts (r ∷ rs) (record_one Hist r b)
  unfolding record_one hist_of
  record_one-Counts r rs b c v =
      let some_failed = count_if_le Request.failed rs in
      let some_ok = count_if_le is_success rs in
      record {
        ok = ground (arith, v.ok, c.1, some_ok, add64-pos (count_if is_success rs) 1);
        bad = ground (arith, v.bad, c.1, some_failed, add64-pos (count_if Request.failed rs) 1);
        sum = ground (arith, v.sum, c.2, c.0.0, add64-pos (latency_sum rs) (nanos r));
        low = ground (arith, v.low, least-cons r rs c.0, c.0.0);
        high = ground (arith, v.high, c.0.0);
        histogram = ap (record_latency Hist r.latency) v.histogram;
        statuses = λ p s.
            record_one_statuses p s r rs b (omega (arith, c.1, count_if_le (failed_with p s) rs))
              (v.statuses p s);
        filled = record_one_filled r b v.filled;
      }

  pub merge-Counts :
      (xs ys : List Request) (b other : StatsBucket H)
      → IsCountable (ys ++ xs)
      → Counts xs b
      → Counts ys other
      → Counts (ys ++ xs) (merge Hist b other)
  unfolding merge
  merge-Counts xs ys b other c v w =
      let long = length-append ys xs in
      record {
        ok = ap₂ add64 v.ok w.ok ∙ merged_count is_success xs ys c.1;
        bad = ap₂ add64 v.bad w.bad ∙ merged_count Request.failed xs ys c.1;
        sum =
            ap₂ add64 v.sum w.sum
            ∙ add64-pos (latency_sum xs) (latency_sum ys)
                (omega (arith, c.2, latency_sum-append ys xs))
            ∙ ap pos (omega (arith, latency_sum-append ys xs));
        low = ground (arith, v.low, w.low, least-append ys xs c.0);
        high = ground (arith, v.high, w.high, greatest-append ys xs);
        histogram = ap₂ merge_hist v.histogram w.histogram ∙ merge_hist-hist_of Hist xs ys;
        statuses = λ p s.
            status_count-record_statuses p s other.status_buckets b.status_buckets
              (count_if (failed_with p s) xs) (count_if (failed_with p s) ys) w.filled
              (w.statuses p s) (v.statuses p s) (merged_fits (failed_with p s) xs ys c.1)
            ∙ ap pos (omega (arith, count_if-append (failed_with p s) ys xs));
        filled = record_statuses-IsStatusMap other.status_buckets b.status_buckets v.filled;
      }

  pub Counts-perm :
      {xs ys : List Request} (b : StatsBucket H)
      → Permᴰ xs ys
      → All IsPositive xs
      → Counts xs b
      → Counts ys b
  Counts-perm b p a v = record {
    ok = v.ok ∙ ap pos (count_if-perm is_success p);
    bad = v.bad ∙ ap pos (count_if-perm Request.failed p);
    sum = v.sum ∙ ap pos (latency_sum-perm p);
    low = v.low ∙ ap pos (least-perm p a);
    high = v.high ∙ ap pos (greatest-perm p);
    histogram = v.histogram ∙ hist_of-perm Hist p;
    statuses = λ p' s. v.statuses p' s ∙ ap pos (count_if-perm (failed_with p' s) p);
    filled = v.filled;
  }
