-- ===== src/Metrics/Tests.antt =====
-- The collector on concrete requests, with a histogram of small values.
use crankfire.Prelude.{
  ℕ, zero, suc, ◌+◌, ◌-◌, ◌*◌, ◌/◌, String, ◌≡◌, refl, ap, true, false, none, some, List, [], ◌∷◌,
  arith, leb, if◌then◌else◌, ◌==◌, nat_eq, string_eq, In, length, ◌↔◌,
}
use crankfire.Prelude.Int.{ℤ, pos, pos_part, beq_ℤ}
use crankfire.Prelude.Int64.{sub64}
use mathlib.Core.Path.{ap₂, fun_ext}
use crankfire.Prelude.Samples.{int_floats}
use crankfire.Metrics.{Histogram}
use mathlib.Core.List.{Permᴰ}
use crankfire.Metrics.Status.{
  TextCounts, inside, nothing, row_order, flatten_status_buckets, StatusBucket,
}
use crankfire.Metrics.Status.Rows.{HasRow, size_of, Descending, flatten_status_buckets-Descending}
use crankfire.Metrics.Collector.{Recording, RequestMetadata, stats}
use crankfire.Metrics.Collector.Recorded.{record_requests, requests_of}
use crankfire.Metrics.Collector.Totals.{begin, stats-Reports, ReportsOn}
use crankfire.Metrics.Collector.Points.{Charts, sample_all}
use crankfire.Metrics.Collector.History.{history-Charts}
use crankfire.Metrics.Bucket.Report.{Reports}

-- How often each value was recorded, and how many there are.
abbrev Tallies : Type 0
Tallies = (ℤ → ℕ) × ℕ

abbrev tally_one : ℤ → Tallies → Tallies
tally_one v h = ((λ u. if beq_ℤ u v then suc (h.0 u) else h.0 u), suc h.1)

abbrev both_tallies : Tallies → Tallies → Tallies
both_tallies h other = ((λ u. h.0 u + other.0 u), h.1 + other.1)

-- The first value from `v` on at which so many have been counted.
abbrev reached_at : ℕ → ℕ → ℕ → Tallies → ℤ
reached_at zero v wanted h = pos v
reached_at (suc fuel) v wanted h =
    let later = reached_at fuel (suc v) (wanted - h.0 (pos v)) h in
    if leb wanted (h.0 (pos v)) then pos v else later

one_more_comm : (u v : ℤ) (h : Tallies) → tally_one u (tally_one v h) ≡ tally_one v (tally_one u h)
one_more_comm u v h = ap₂ (λ (f : ℤ → ℕ) (n : ℕ). (f, n)) (fun_ext λ w. ground arith) refl

both_tallies_fresh : (h : Tallies) → both_tallies h ((λ u. 0), 0) ≡ h
both_tallies_fresh h = ap₂ (λ (f : ℤ → ℕ) (n : ℕ). (f, n)) (fun_ext λ w. omega arith) (omega arith)

both_tallies_one_more :
    (v : ℤ) (h other : Tallies)
    → both_tallies h (tally_one v other) ≡ tally_one v (both_tallies h other)
both_tallies_one_more v h other =
    ap₂ (λ (f : ℤ → ℕ) (n : ℕ). (f, n)) (fun_ext λ w. ground arith) (omega arith)

abbrev tallies : Histogram
tallies = record {
  H = Tallies;
  fresh = ((λ u. 0), 0);
  lowest_trackable = λ h. pos 1;
  highest_trackable = λ h. pos 60000000;
  record_value = tally_one;
  merge_hist = both_tallies;
  total_count = λ h. pos h.1;
  value_at_quantile = λ q h. reached_at 20 1 (pos_part q * h.1 / 100) h;
  lowest_record = λ v h. refl;
  highest_record = λ v h. refl;
  record_comm = one_more_comm;
  merge_fresh = both_tallies_fresh;
  merge_record = both_tallies_one_more;
}

abbrev on_login : RequestMetadata ℤ String
on_login = record {
  endpoint = "login";
  protocol = "http";
  status_code = "500";
  custom_metrics = [];
}

abbrev two_recordings : List (Recording ℤ String)
two_recordings =
    record {
      latency = pos 5000;
      failed = true;
      meta = some on_login;
      shard = 3;
      endpoint_shard = 31;
    }
    ∷ record { latency = pos 2000; failed = false; meta = none; shard = 0; endpoint_shard = 7 }
    ∷ []

stats-Reports_example :
    let s = stats tallies int_floats String (pos 9) (pos 70) (
      record_requests tallies int_floats String two_recordings
        (begin tallies int_floats String (some (pos 50)))) in
    Reports tallies int_floats
      (requests_of tallies int_floats String two_recordings)
      s.duration
      s.summary
    × ReportsOn tallies int_floats String "login" two_recordings s.duration s
    × (s.duration ≡ pos 20)
unfolding sub64
stats-Reports_example =
    stats-Reports tallies int_floats String two_recordings "login" (some (pos 50)) (pos 9) (pos 70)
      ((omega arith, omega arith), ((omega arith, omega arith), tt))
      ((omega arith, (omega arith, tt)), omega arith, omega arith)
      (λ e. ground (arith, ap (λ (s : String). s == "") e))

abbrev two_rounds : List (List (Recording ℤ String) × ℤ)
two_rounds = (two_recordings, pos 60) ∷ (([], pos 90) ∷ [])

history-Charts_example :
    Charts tallies int_floats String [] none two_rounds
      (sample_all tallies int_floats String two_rounds
        (begin tallies int_floats String none)).history
history-Charts_example =
    history-Charts tallies int_floats String two_rounds none
      ((omega arith, (omega arith, tt)), omega arith, omega arith)
      ((omega arith, omega arith), ((omega arith, omega arith), tt))

abbrev some_codes : TextCounts
some_codes = (65 ∷ [], (52 ∷ [], pos 1) ∷ (53 ∷ [], pos 7) ∷ []) ∷ []

abbrev other_codes : TextCounts
other_codes = (65 ∷ [], (53 ∷ [], pos 7) ∷ (52 ∷ [], pos 1) ∷ []) ∷ []

flatten_status_buckets-Descending_example :
    let r : StatusBucket = record { protocol = 65 ∷ []; code = 53 ∷ []; count = pos 7 } in
    (In r (flatten_status_buckets some_codes) ↔ HasRow some_codes r)
    × (length (flatten_status_buckets some_codes) ≡ size_of some_codes)
    × Descending (flatten_status_buckets some_codes)
    × (flatten_status_buckets some_codes ≡ flatten_status_buckets other_codes)
flatten_status_buckets-Descending_example =
    flatten_status_buckets-Descending (record { protocol = 65 ∷ []; code = 53 ∷ []; count = pos 7 })
      (inside (Permᴰ.swap refl refl) nothing)
