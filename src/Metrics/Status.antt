-- ===== src/Metrics/Status.antt =====
-- internal/metrics/status.go: the failures of each protocol and code, as sorted rows. Protocols and codes
-- are compared as their bytes.
pub mod Rows
use crankfire.Prelude.{
  Text, text_beq, text_beq_iff, ◌≡◌, ap, subst, Bool, true, false, List, [], ◌∷◌, ◌++◌, arith,
  if◌then◌else◌, nat_eq, string_eq,
}
use crankfire.Prelude.Int.{ℤ, ltb_ℤ, beq_ℤ, beq_ℤ_iff}
use mathlib.Core.List.{Permᴰ, append_assoc}
use mathlib.Core.List.Permᴰ
use crankfire.Prelude.Order.{
  Order, sort, sort-perm, perm_sort, Ascending, sort-Ascending, text_less, text_less_asym,
  text_less_trans, text_less_total,
}

pub record StatusBucket : Type 0 where
  pub protocol : Text
  pub code : Text
  pub count : ℤ

-- By descending count, then by protocol and code.
pub row_less : StatusBucket → StatusBucket → Bool
row_less r s =
    if beq_ℤ r.count s.count
    then if text_beq r.protocol s.protocol
      then text_less r.code s.code
      else text_less r.protocol s.protocol
    else ltb_ℤ s.count r.count

pub row_less_asym : (r s : StatusBucket) → row_less r s ≡ true → row_less s r ≡ false
unfolding row_less
row_less_asym r s h = ground (
  arith,
  beq_ℤ_iff r.count s.count,
  beq_ℤ_iff s.count r.count,
  text_beq_iff r.protocol s.protocol,
  text_beq_iff s.protocol r.protocol,
  text_less_asym r.protocol s.protocol,
  text_less_asym r.code s.code,
)

pub row_less_trans :
    (r s t : StatusBucket) → row_less r s ≡ true → row_less s t ≡ true → row_less r t ≡ true
unfolding row_less
row_less_trans r s t h k = ground (
  arith,
  beq_ℤ_iff r.count s.count,
  beq_ℤ_iff s.count t.count,
  beq_ℤ_iff r.count t.count,
  text_beq_iff r.protocol s.protocol,
  text_beq_iff s.protocol t.protocol,
  text_beq_iff r.protocol t.protocol,
  text_less_trans r.protocol s.protocol t.protocol,
  text_less_trans r.code s.code t.code,
  text_less_asym r.protocol s.protocol,
  text_less_asym s.protocol t.protocol,
)

pub row_less_total : (r s : StatusBucket) → row_less r s ≡ false → row_less s r ≡ false → r ≡ s
unfolding row_less
row_less_total r s h k = ground (
  arith,
  beq_ℤ_iff r.count s.count,
  beq_ℤ_iff s.count r.count,
  text_beq_iff r.protocol s.protocol,
  text_beq_iff s.protocol r.protocol,
  text_less_total r.protocol s.protocol,
  text_less_total r.code s.code,
)

instance abbrev pub row_order : Order StatusBucket
row_order = record {
  less = row_less;
  less_asym = row_less_asym;
  less_trans = row_less_trans;
  less_total = row_less_total;
}

abbrev pub TextCounts : Type 0
TextCounts = List (Text × List (Text × ℤ))

pub code_rows : Text → List (Text × ℤ) → List StatusBucket
code_rows protocol [] = []
code_rows protocol ((code, count) ∷ codes) =
    record { protocol = protocol; code = code; count = count } ∷ code_rows protocol codes

pub rows_of : TextCounts → List StatusBucket
rows_of [] = []
rows_of ((protocol, codes) ∷ buckets) = code_rows protocol codes ++ rows_of buckets

pub flatten_status_buckets : TextCounts → List StatusBucket
flatten_status_buckets buckets = sort (rows_of buckets)

-- Two orders in which the entries of one nested map can be visited.
pub data Shuffled : TextCounts → TextCounts → Type 0 where
  nothing : Shuffled [] []
  inside :
      {protocol : Text} {codes codes' : List (Text × ℤ)} {m m' : TextCounts}
      → Permᴰ codes codes'
      → Shuffled m m'
      → Shuffled ((protocol, codes) ∷ m) ((protocol, codes') ∷ m')
  exchanged : {x y : Text × List (Text × ℤ)} {m : TextCounts} → Shuffled (x ∷ y ∷ m) (y ∷ x ∷ m)
  twice : {l m n : TextCounts} → Shuffled l m → Shuffled m n → Shuffled l n

abbrev row_at : Text → Text × ℤ → StatusBucket
row_at protocol (code, count) = record { protocol = protocol; code = code; count = count }

rearranged : (xs ys zs : List StatusBucket) → Permᴰ (xs ++ (ys ++ zs)) (ys ++ (xs ++ zs))
rearranged xs ys zs =
    let joined = Permᴰ.append_right zs (Permᴰ.append_comm xs ys) in
    subst (λ l. Permᴰ l (ys ++ (xs ++ zs))) (append_assoc xs ys zs)
      (subst (λ l. Permᴰ ((xs ++ ys) ++ zs) l) (append_assoc ys xs zs) joined)

code_rows-perm :
    (protocol : Text) {codes codes' : List (Text × ℤ)}
    → Permᴰ codes codes'
    → Permᴰ (code_rows protocol codes) (code_rows protocol codes')
unfolding code_rows
code_rows-perm protocol Permᴰ.nil = Permᴰ.nil
code_rows-perm protocol (Permᴰ.cons e p) =
    Permᴰ.cons (ap (row_at protocol) e) (code_rows-perm protocol p)
code_rows-perm protocol (Permᴰ.swap e f) =
    Permᴰ.swap (ap (row_at protocol) e) (ap (row_at protocol) f)
code_rows-perm protocol (Permᴰ.trans p q) =
    Permᴰ.trans (code_rows-perm protocol p) (code_rows-perm protocol q)

rows_of-perm : {m m' : TextCounts} → Shuffled m m' → Permᴰ (rows_of m) (rows_of m')
unfolding rows_of
rows_of-perm nothing = Permᴰ.nil
rows_of-perm (inside {protocol} {codes} {codes'} {m} {m'} p q) =
    Permᴰ.trans (Permᴰ.append_right (rows_of m) (code_rows-perm protocol p))
      (Permᴰ.append_left (code_rows protocol codes') (rows_of-perm q))
rows_of-perm (exchanged {x} {y} {m}) =
    rearranged (code_rows x.0 x.1) (code_rows y.0 y.1) (rows_of m)
rows_of-perm (twice p q) = Permᴰ.trans (rows_of-perm p) (rows_of-perm q)

-- The rows are the entries of the map, each as often as it is there; they stand by descending count and
-- then by protocol and code; and in whichever order the maps are visited they come out the same.
pub flatten_status_buckets-Ascending :
    {m m' : TextCounts}
    → Shuffled m m'
    → (flatten_status_buckets m ≡ flatten_status_buckets m')
      × Permᴰ (flatten_status_buckets m) (rows_of m)
      × Ascending (flatten_status_buckets m)
unfolding flatten_status_buckets
flatten_status_buckets-Ascending {m} p =
    (sort-perm (rows_of-perm p), perm_sort (rows_of m), sort-Ascending (rows_of m))
