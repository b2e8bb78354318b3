-- ===== src/Feeder/Csv/Turns.antt =====
-- The calls of `CSVFeeder.Next` counted in rounds over the rows.
use crankfire.Prelude.{
  get_elem?-of_lt, leb→le, ℕ, zero, suc, ◌+◌, ◌%◌, ◌≤◌, ◌<◌, String, ◌≡◌, refl, sym, ap, ◌∙◌, subst,
  ◌≢◌, inl, inr, Bool, true, false, Option, none, some, List, [], ◌∷◌, arith, leb, nat_beq,
  if◌then◌else◌, Bool-cases, length, get_elem?, All, nat_eq, string_eq,
}
use native.Mathlib.Nat.{mod-lt, zero-mod}
use crankfire.Feeder.{Record}
use crankfire.Feeder.Rounds.{served, place, place-suc}
use crankfire.Feeder.Csv.{
  Row, row, no_row, CsvFeeder, one_more, count_rows, with_count, new_csv_feeder, record_of,
  read_row, rewound, next_csv, len_csv,
}

-- The feeder after some calls, each with a context that has ended or not.
pub nexts_csv : CsvFeeder → List Bool → CsvFeeder
nexts_csv f [] = f
nexts_csv f (is_done ∷ calls) = nexts_csv (next_csv is_done f).1 calls

abbrev Rows : Type 0
Rows = List (Option (List String))

abbrev after : ℕ → Rows → Rows
after zero rs = rs
after (suc i) [] = []
after (suc i) (r ∷ rs) = after i rs

after-cons :
    (rs : Rows) (i : ℕ) (r : Option (List String))
    → get_elem? rs i ≡ some r
    → after i rs ≡ r ∷ after (suc i) rs
after-cons [] i r e = ground (arith, e)
after-cons (x ∷ rs) zero r e = ground (arith, e)
after-cons (x ∷ rs) (suc i) r e = after-cons rs i r e

after-end : (rs : Rows) (i : ℕ) → length rs ≤ i → after i rs ≡ []
after-end [] zero h = refl
after-end [] (suc i) h = refl
after-end (x ∷ rs) zero h = absurd (omega arith)
after-end (x ∷ rs) (suc i) h = after-end rs i (omega arith)

-- What the reader reads next, from any place.
rewound-cons :
    (rs : Rows) (i : ℕ) (r : Option (List String))
    → get_elem? rs (place (length rs) i) ≡ some r
    → rewound rs (after i rs) ≡ r ∷ after (suc (place (length rs) i)) rs
rewound-cons rs i r e = elim (Bool-cases (leb (length rs) i)) [
  | inl full ↦
      let first : get_elem? rs 0 ≡ some r = rw full at e in
      ap (rewound rs) (after-end rs i (leb→le (length rs) i full))
      ∙ rw full (after-cons rs 0 r first)
  | inr more ↦
      let here : get_elem? rs i ≡ some r = rw more at e in
      ap (rewound rs) (after-cons rs i r here) ∙ rw more refl
]

-- The feeder over the rows, after `k` reads.
record Stands (header : List String) (rs : Rows) (k : ℕ) (f : CsvFeeder) : Type 0 where
  same_header : f.header ≡ header
  same_rows : f.rows ≡ rs
  at : ℕ
  left : f.rest ≡ after at rs
  turn : place (length rs) at ≡ k % length rs

abbrev rest_from : Option (List String) → ℕ → Rows → Rows
rest_from r i rs = r ∷ after i rs

next_row :
    (header : List String) (rs : Rows) (k : ℕ) (f : CsvFeeder) (r : Option (List String))
    → get_elem? rs (k % length rs) ≡ some r
    → (v : Stands header rs k f)
    → next_csv false f ≡ (
      record_of header r,
      record {
        header = header;
        rows = rs;
        rest = after (suc (k % length rs)) rs;
        record_count = f.record_count;
      },
    )
unfolding next_csv
next_row header rs k f r e v =
    let here : get_elem? rs (place (length rs) v.at) ≡ some r = ap (get_elem? rs) v.turn ∙ e in
    let reads : rewound f.rows f.rest ≡ r ∷ after (suc (k % length rs)) rs =
      ap (λ (xs : Rows). rewound xs f.rest) v.same_rows
      ∙ ap (rewound rs) v.left
      ∙ rewound-cons rs v.at r here
      ∙ ap (λ (i : ℕ). rest_from r (suc i) rs) v.turn in
    ap (read_row f) reads
    ∙ ap
        (λ (h : List String). (
          record_of h r,
          record {
            header = h;
            rows = f.rows;
            rest = after (suc (k % length rs)) rs;
            record_count = f.record_count;
          },
        ))
        v.same_header
    ∙ ap
        (λ (xs : Rows). (
          record_of header r,
          record {
            header = header;
            rows = xs;
            rest = after (suc (k % length rs)) rs;
            record_count = f.record_count;
          },
        ))
        v.same_rows

next-Stands :
    (header : List String) (rs : Rows) (k : ℕ) (is_done : Bool) (f : CsvFeeder)
    → 0 < length rs
    → Stands header rs k f
    → Stands header rs (if is_done then k else suc k) (next_csv is_done f).1
unfolding next_csv
next-Stands header rs k true f h v = v
next-Stands header rs k false f h v =
    let (r, e) = get_elem?-of_lt rs (k % length rs) (mod-lt k h) in
    subst (λ x. Stands header rs (suc k) x.1) (sym (next_row header rs k f r e v))
      (record {
        same_header = refl;
        same_rows = refl;
        at = suc (k % length rs);
        left = refl;
        turn = place-suc (length rs) k h;
      })

nexts-Stands :
    (header : List String) (rs : Rows) (k : ℕ) (f : CsvFeeder) (calls : List Bool)
    → 0 < length rs
    → Stands header rs k f
    → Stands header rs (k + served calls) (nexts_csv f calls)
unfolding nexts_csv
nexts-Stands header rs k f [] h v = subst (λ j. Stands header rs j f) (omega arith) v
nexts-Stands header rs k f (true ∷ calls) h v =
    nexts-Stands header rs k (next_csv true f).1 calls h (next-Stands header rs k true f h v)
nexts-Stands header rs k f (false ∷ calls) h v =
    subst (λ j. Stands header rs j (nexts_csv (next_csv false f).1 calls)) (omega arith)
      (nexts-Stands header rs (suc k) (next_csv false f).1 calls h
        (next-Stands header rs k false f h v))

one_more-row : (x : Row ℕ) (n : ℕ) → one_more x ≡ row n → (m : ℕ) × (x ≡ row m) × (n ≡ suc m)
one_more-row (row m) n e = (m, refl, ground (arith, e))
one_more-row (no_row x) n e = ground (arith, e)

-- A scan that succeeds has read every row.
count_rows-row :
    (rs : Rows) (n : ℕ) → count_rows rs ≡ row n → (n ≡ length rs) × All (λ r. r ≢ none) rs
unfolding count_rows
count_rows-row [] n e = (ground (arith, e), tt)
count_rows-row (none ∷ rs) n e = ground (arith, e)
count_rows-row (some r ∷ rs) n e =
    let (m, q, s) = one_more-row (count_rows rs) n e in
    let rest = count_rows-row rs m q in (s ∙ ap suc rest.0, (λ no. ground (arith, no), rest.1))

All-at :
    (rs : Rows) (i : ℕ) (r : Option (List String))
    → All (λ r. r ≢ none) rs
    → get_elem? rs i ≡ some r
    → r ≢ none
All-at [] i r a e = ground (arith, e)
All-at (x ∷ rs) zero r a e = λ no. a.0 (some_eq e ∙ no)
  where
    some_eq : ◌≡◌ {A = Option (Option (List String))} (some x) (some r) → x ≡ r
    some_eq q = ground (arith, q)
All-at (x ∷ rs) (suc i) r a e = All-at rs i r a.1 e

made :
    (header : List String) (rs : Rows) (f : CsvFeeder) (c : Row ℕ)
    → with_count header rs c ≡ row f
    → (n : ℕ) × (c ≡ row n)
      × (0 < n)
      × (f ≡ record { header = header; rows = rs; rest = rs; record_count = n })
made header rs f (no_row x) e = ground (arith, e)
made header rs f (row n) e = elim (Bool-cases (nat_beq n 0)) [
  | inl z ↦ ground (arith, rw z at e)
  | inr p ↦
      let g : ◌≡◌ {A = Row CsvFeeder}
          (row (record { header = header; rows = rs; rest = rs; record_count = n })) (row f) =
        rw p at e in
      (n, refl, ground (arith, p), ground (arith, g))
]

-- A CSV feeder that was made has as many records as rows, the scan has read each of them, and it hands
-- them out in rounds: after any calls, with contexts that have ended among them, the next call whose
-- context has not ended gives the record of the row whose index is the number of rows handed out so
-- far, counted modulo the number of rows.
pub next_csv_round :
    (header : List String) (rs : List (Option (List String))) (f : CsvFeeder) (calls : List Bool)
    → new_csv_feeder (some header) rs ≡ row f
    → (len_csv f ≡ length rs)
      × ((r : Option (List String)) × (r ≢ none)
          × (get_elem? rs (served calls % length rs) ≡ some r)
          × ((next_csv false (nexts_csv f calls)).0 ≡ record_of header r))
unfolding new_csv_feeder len_csv
next_csv_round header rs f calls h =
    let (n, c, p, e) = made header rs f (count_rows rs) h in
    let counted = count_rows-row rs n c in
    let some_row : 0 < length rs = omega (arith, p, counted.0) in
    let fresh : CsvFeeder = record { header = header; rows = rs; rest = rs; record_count = n } in
    let start : Stands header rs 0 fresh = record {
      same_header = refl;
      same_rows = refl;
      at = 0;
      left = refl;
      turn = ground (arith, zero-mod (length rs), some_row);
    } in
    let v =
      nexts-Stands header rs 0 f calls some_row (subst (λ x. Stands header rs 0 x) (sym e) start) in
    let (r, g) = get_elem?-of_lt rs (served calls % length rs) (mod-lt (served calls) some_row) in
    (
      ap (λ (x : CsvFeeder). x.record_count) e ∙ counted.0,
      (
        r,
        All-at rs (served calls % length rs) r counted.1 g,
        g,
        ap (λ (x : Row Record × CsvFeeder). x.0)
            (next_row header rs (served calls) (nexts_csv f calls) r g
              (subst (λ j. Stands header rs j (nexts_csv f calls)) (omega arith) v)),
      ),
    )
