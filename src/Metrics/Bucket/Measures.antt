-- ===== src/Metrics/Bucket/Measures.antt =====
-- What a list of requests amounts to, read off the list: counts, sum and extremes of the latencies, and
-- -- the histogram. None of them depends on the order of the requests.
use crankfire.Prelude.{
  ℕ, suc, ◌+◌, ◌≤◌, ◌<◌, min, max, ◌≡◌, refl, ap, ◌∙◌, subst, Bool, ◌&&◌, ◌||◌, List, [], ◌∷◌, ◌++◌,
  arith, ltb, nat_beq, if◌then◌else◌, length, All, nat_eq, string_eq,
}
use crankfire.Prelude.Int.{ℤ, pos, pos_part, ◌<ℤ◌}
use mathlib.Core.List.{Permᴰ}
use mathlib.Core.Path.{ap₂}
use crankfire.Metrics.{Histogram, Request}
use crankfire.Metrics.Bucket.{record_latency, clamped, microseconds}

abbrev pub nanos : Request → ℕ
nanos r = pos_part r.latency

abbrev pub count_if : (Request → Bool) → List Request → ℕ
count_if test [] = 0
count_if test (r ∷ rs) = if test r then suc (count_if test rs) else count_if test rs

abbrev pub latency_sum : List Request → ℕ
latency_sum [] = 0
latency_sum (r ∷ rs) = nanos r + latency_sum rs

abbrev pub greatest : List Request → ℕ
greatest [] = 0
greatest (r ∷ rs) = max (nanos r) (greatest rs)

-- 0 of no requests.
abbrev pub least : List Request → ℕ
least [] = 0
least (r ∷ []) = nanos r
least (r ∷ s ∷ rs) = min (nanos r) (least (s ∷ rs))

abbrev pub IsPositive : Request → Type 0
IsPositive r = pos 0 <ℤ r.latency

pub least_positive :
    (r : Request) (rs : List Request) → All IsPositive (r ∷ rs) → 0 < least (r ∷ rs)
least_positive r [] p = ground (arith, p.0)
least_positive r (s ∷ rs) p = ground (arith, p.0, least_positive s rs p.1)

-- As the code keeps it, where 0 stands for "none yet".
pub least-cons :
    (r : Request) (rs : List Request)
    → All IsPositive (r ∷ rs)
    → least (r ∷ rs)
      ≡ (if nat_beq (least rs) 0 || ltb (nanos r) (least rs) then nanos r else least rs)
least-cons r [] p = ground arith
least-cons r (s ∷ rs) p = ground (arith, least_positive s rs p.1)

pub All-append :
    (P : Request → Type 0) (xs ys : List Request) → All P (xs ++ ys) → All P xs × All P ys
All-append P [] ys a = (tt, a)
All-append P (x ∷ xs) ys a = let rest = All-append P xs ys a.1 in ((a.0, rest.0), rest.1)

pub least-append :
    (xs ys : List Request)
    → All IsPositive (xs ++ ys)
    → least (xs ++ ys) ≡ (
        if ltb 0 (least xs) && (nat_beq (least ys) 0 || ltb (least xs) (least ys))
        then least xs
        else least ys)
least-append [] ys p = ground arith
least-append (x ∷ []) ys p = ground (arith, least-cons x ys p, p.0)
least-append (x ∷ z ∷ xs) ys p =
    let both = (All-append (λ r. IsPositive r) (x ∷ z ∷ xs) ys p).0 in
    ground (
      arith,
      least-append (z ∷ xs) ys p.1,
      least_positive x (z ∷ xs) both,
      least_positive z xs both.1,
      least_positive z (xs ++ ys) p.1,
    )

pub count_if-append :
    (test : Request → Bool) (xs ys : List Request)
    → count_if test (xs ++ ys) ≡ count_if test xs + count_if test ys
count_if-append test [] ys = omega arith
count_if-append test (x ∷ xs) ys = ground (arith, count_if-append test xs ys)

pub latency_sum-append :
    (xs ys : List Request) → latency_sum (xs ++ ys) ≡ latency_sum xs + latency_sum ys
latency_sum-append [] ys = omega arith
latency_sum-append (x ∷ xs) ys = omega (arith, latency_sum-append xs ys)

pub greatest-append : (xs ys : List Request) → greatest (xs ++ ys) ≡ max (greatest xs) (greatest ys)
greatest-append [] ys = omega arith
greatest-append (x ∷ xs) ys = omega (arith, greatest-append xs ys)

pub count_if_le : (test : Request → Bool) (rs : List Request) → count_if test rs ≤ length rs
count_if_le test [] = omega arith
count_if_le test (r ∷ rs) = ground (arith, count_if_le test rs)

pub count_if-perm :
    (test : Request → Bool) {xs ys : List Request}
    → Permᴰ xs ys
    → count_if test xs ≡ count_if test ys
count_if-perm test Permᴰ.nil = refl
count_if-perm test (Permᴰ.cons e p) =
    ap₂ (λ (r : Request) (n : ℕ). if test r then suc n else n) e (count_if-perm test p)
count_if-perm test (Permᴰ.swap {a = a} {b = b} {l = l} e f) =
    let swapped : count_if test (a ∷ b ∷ l) ≡ count_if test (b ∷ a ∷ l) = ground arith in
    swapped ∙ ap₂ (λ (r s : Request). count_if test (r ∷ s ∷ l)) f e
count_if-perm test (Permᴰ.trans p q) = count_if-perm test p ∙ count_if-perm test q

pub latency_sum-perm : {xs ys : List Request} → Permᴰ xs ys → latency_sum xs ≡ latency_sum ys
latency_sum-perm Permᴰ.nil = refl
latency_sum-perm (Permᴰ.cons e p) =
    ap₂ (λ (r : Request) (n : ℕ). nanos r + n) e (latency_sum-perm p)
latency_sum-perm (Permᴰ.swap {a = a} {b = b} {l = l} e f) =
    let swapped : latency_sum (a ∷ b ∷ l) ≡ latency_sum (b ∷ a ∷ l) = omega arith in
    swapped ∙ ap₂ (λ (r s : Request). latency_sum (r ∷ s ∷ l)) f e
latency_sum-perm (Permᴰ.trans p q) = latency_sum-perm p ∙ latency_sum-perm q

pub length-perm : {xs ys : List Request} → Permᴰ xs ys → length xs ≡ length ys
length-perm Permᴰ.nil = refl
length-perm (Permᴰ.cons e p) = ap suc (length-perm p)
length-perm (Permᴰ.swap e f) = refl
length-perm (Permᴰ.trans p q) = length-perm p ∙ length-perm q

pub greatest-perm : {xs ys : List Request} → Permᴰ xs ys → greatest xs ≡ greatest ys
greatest-perm Permᴰ.nil = refl
greatest-perm (Permᴰ.cons e p) = ap₂ (λ (r : Request) (n : ℕ). max (nanos r) n) e (greatest-perm p)
greatest-perm (Permᴰ.swap {a = a} {b = b} {l = l} e f) =
    let swapped : greatest (a ∷ b ∷ l) ≡ greatest (b ∷ a ∷ l) = omega arith in
    swapped ∙ ap₂ (λ (r s : Request). greatest (r ∷ s ∷ l)) f e
greatest-perm (Permᴰ.trans p q) = greatest-perm p ∙ greatest-perm q

pub All-perm : (P : Request → Type 0) {xs ys : List Request} → Permᴰ xs ys → All P xs → All P ys
All-perm P Permᴰ.nil a = tt
All-perm P (Permᴰ.cons e p) a = (subst P e a.0, All-perm P p a.1)
All-perm P (Permᴰ.swap e f) a = (subst P f a.1.0, (subst P e a.0, a.1.1))
All-perm P (Permᴰ.trans p q) a = All-perm P q (All-perm P p a)

least_swap :
    (a b : Request) (l : List Request)
    → All IsPositive (a ∷ b ∷ l)
    → least (a ∷ b ∷ l) ≡ least (b ∷ a ∷ l)
least_swap a b [] p = omega arith
least_swap a b (c ∷ l) p = omega arith

pub least-perm : {xs ys : List Request} → Permᴰ xs ys → All IsPositive xs → least xs ≡ least ys
least-perm Permᴰ.nil a = refl
least-perm (Permᴰ.cons {a = x} {b = y} {l₁ = xs} {l₂ = ys} e p) a =
    let moved = All-perm (λ r. IsPositive r) (Permᴰ.cons e p) a in
    ground (arith, least-cons x xs a, least-cons y ys moved, least-perm p a.1, ap nanos e)
least-perm (Permᴰ.swap {a = x} {b = y} {l = l} e f) a =
    least_swap x y l a ∙ ap₂ (λ (r s : Request). least (r ∷ s ∷ l)) f e
least-perm (Permᴰ.trans p q) a = least-perm p a ∙ least-perm q (All-perm (λ r. IsPositive r) p a)

module _ (Hist : Histogram) where
  open Hist use {H, fresh, record_value, merge_hist, lowest_trackable, highest_trackable}

  -- One histogram that all the requests were recorded in.
  unfoldable pub hist_of : List Request → H
  hist_of [] = fresh
  hist_of (r ∷ rs) = record_latency Hist r.latency (hist_of rs)

  -- Recording does not move the bounds.
  clamped-record_latency :
      (latency us : ℤ) (h : H) → clamped Hist (record_latency Hist latency h) us ≡ clamped Hist h us
  unfolding clamped record_latency
  clamped-record_latency latency us h =
      let v = clamped Hist h (microseconds latency) in
      ground (arith, Hist.lowest_record v h, Hist.highest_record v h)

  clamped-hist_of :
      (us : ℤ) (rs : List Request) → clamped Hist (hist_of rs) us ≡ clamped Hist fresh us
  unfolding hist_of
  clamped-hist_of us [] = refl
  clamped-hist_of us (r ∷ rs) =
      clamped-record_latency r.latency us (hist_of rs) ∙ clamped-hist_of us rs

  record_latency_comm :
      (s t : ℤ) (h : H)
      → record_latency Hist s (record_latency Hist t h)
        ≡ record_latency Hist t (record_latency Hist s h)
  unfolding record_latency
  record_latency_comm s t h = ground (
    arith,
    clamped-record_latency t (microseconds s) h,
    clamped-record_latency s (microseconds t) h,
    Hist.record_comm (clamped Hist h (microseconds s)) (clamped Hist h (microseconds t)) h,
  )

  pub merge_hist-hist_of :
      (xs ys : List Request) → merge_hist (hist_of xs) (hist_of ys) ≡ hist_of (ys ++ xs)
  unfolding hist_of record_latency
  merge_hist-hist_of xs [] = Hist.merge_fresh (hist_of xs)
  merge_hist-hist_of xs (y ∷ ys) =
      let v = clamped Hist (hist_of ys) (microseconds y.latency) in
      ground (
        arith,
        merge_hist-hist_of xs ys,
        Hist.merge_record v (hist_of xs) (hist_of ys),
        clamped-hist_of (microseconds y.latency) ys,
        clamped-hist_of (microseconds y.latency) (ys ++ xs),
      )

  pub hist_of-perm : {xs ys : List Request} → Permᴰ xs ys → hist_of xs ≡ hist_of ys
  unfolding hist_of
  hist_of-perm Permᴰ.nil = refl
  hist_of-perm (Permᴰ.cons e p) =
      ap₂ (λ (r : Request) (h : H). record_latency Hist r.latency h) e (hist_of-perm p)
  hist_of-perm (Permᴰ.swap {a = a} {b = b} {l = l} e f) =
      record_latency_comm a.latency b.latency (hist_of l)
      ∙ ap₂
          (λ (r s : Request).
            record_latency Hist r.latency (record_latency Hist s.latency (hist_of l)))
          f e
  hist_of-perm (Permᴰ.trans p q) = hist_of-perm p ∙ hist_of-perm q
