-- ===== src/Metrics/Status/Rows.antt =====
-- The rows of statuses, read directly from the map.
use crankfire.Prelude.{
  ℕ, zero, suc, ◌+◌, ◌≡◌, refl, sym, ap, ◌∙◌, subst, ◌↔◌, ◌⊎◌, inl, inr, true, false, some, List,
  [], ◌∷◌, ◌++◌, arith, length, length-append, In, Text, text_beq_iff, nat_eq, string_eq,
}
use crankfire.Prelude.Int.{ℤ, ◌<ℤ◌}
use mathlib.Core.Path.{ap₂}
use mathlib.Core.List.{Permᴰ}
use mathlib.Core.List.Permᴰ
use crankfire.Prelude.Int.{beq_ℤ_iff}
use crankfire.Prelude.Order.{Ascending, text_less, text_less_total}
use crankfire.Metrics.Status.{
  StatusBucket, TextCounts, row_less, row_order, code_rows, rows_of, flatten_status_buckets,
  Shuffled, flatten_status_buckets-Ascending,
}

-- The map has the count under the protocol and the code.
abbrev pub HasRow : TextCounts → StatusBucket → Type 0
HasRow m r = (codes : List (Text × ℤ)) × In (r.protocol, codes) m × In (r.code, r.count) codes

-- The number of counts in the map.
abbrev pub size_of : TextCounts → ℕ
size_of [] = 0
size_of ((protocol, codes) ∷ m) = length codes + size_of m

-- The larger count first, then by protocol, then by code, as bytes; rows that are equal may follow.
abbrev pub Precedes : StatusBucket → StatusBucket → Type 0
Precedes r s =
    (s.count <ℤ r.count)
    ⊎ ((r.count ≡ s.count)
        × ((text_less r.protocol s.protocol ≡ true)
            ⊎ ((r.protocol ≡ s.protocol) × ((text_less r.code s.code ≡ true) ⊎ (r.code ≡ s.code)))))

abbrev pub Descending : List StatusBucket → Type 0
Descending [] = Unit
Descending (r ∷ []) = Unit
Descending (r ∷ s ∷ rows) = Precedes r s × Descending (s ∷ rows)

row_less-Precedes : (r s : StatusBucket) → row_less s r ≡ false → Precedes r s
unfolding row_less
row_less-Precedes r s h = ground (
  arith,
  h,
  beq_ℤ_iff s.count r.count,
  text_beq_iff s.protocol r.protocol,
  text_less_total s.protocol r.protocol,
  text_less_total s.code r.code,
)

Ascending-Descending : (rows : List StatusBucket) → Ascending rows → Descending rows
unfolding Ascending
Ascending-Descending [] h = tt
Ascending-Descending (r ∷ []) h = tt
Ascending-Descending (r ∷ s ∷ rows) h =
    (row_less-Precedes r s h.0, Ascending-Descending (s ∷ rows) h.1)

In-perm : {A : Type 0} {xs ys : List A} (a : A) → Permᴰ xs ys → In a xs → In a ys
In-perm a Permᴰ.nil h = h
In-perm a (Permᴰ.cons e p) (zero, h) = (zero, ap some (sym e) ∙ h)
In-perm a (Permᴰ.cons e p) (suc i, h) = let (j, k) = In-perm a p (i, h) in (suc j, k)
In-perm a (Permᴰ.swap e f) (zero, h) = (1, ap some (sym e) ∙ h)
In-perm a (Permᴰ.swap e f) (suc zero, h) = (0, ap some (sym f) ∙ h)
In-perm a (Permᴰ.swap e f) (suc (suc i), h) = (suc (suc i), h)
In-perm a (Permᴰ.trans p q) h = In-perm a q (In-perm a p h)

apart : {A : Type 0} (a : A) (xs ys : List A) → In a (xs ++ ys) → In a xs ⊎ In a ys
apart a [] ys h = inr h
apart a (x ∷ xs) ys (zero, e) = inl (zero, e)
apart a (x ∷ xs) ys (suc i, e) = elim (apart a xs ys (i, e)) [
  | inl (j, k) ↦ inl (suc j, k)
  | inr h ↦ inr h
]

together : {A : Type 0} (a : A) (xs ys : List A) → In a xs ⊎ In a ys → In a (xs ++ ys)
together a [] ys (inl (i, e)) = ground (arith, e)
together a [] ys (inr h) = h
together a (x ∷ xs) ys (inl (zero, e)) = (zero, e)
together a (x ∷ xs) ys (inl (suc i, e)) = let (j, k) = together a xs ys (inl (i, e)) in (suc j, k)
together a (x ∷ xs) ys (inr h) = let (j, k) = together a xs ys (inr h) in (suc j, k)

code_rows-In :
    (r : StatusBucket) (protocol : Text) (codes : List (Text × ℤ))
    → In r (code_rows protocol codes)
    → (protocol ≡ r.protocol) × In (r.code, r.count) codes
unfolding code_rows
code_rows-In r protocol [] (i, e) = ground (arith, e)
code_rows-In r protocol ((code, count) ∷ codes) (zero, e) =
    (ground (arith, e), (0, ground (arith, e)))
code_rows-In r protocol ((code, count) ∷ codes) (suc i, e) =
    let h = code_rows-In r protocol codes (i, e) in (h.0, (suc h.1.0, h.1.1))

In-code_rows :
    (r : StatusBucket) (protocol : Text) (codes : List (Text × ℤ))
    → protocol ≡ r.protocol
    → In (r.code, r.count) codes
    → In r (code_rows protocol codes)
unfolding code_rows
In-code_rows r protocol [] p (i, e) = ground (arith, e)
In-code_rows r protocol ((code, count) ∷ codes) p (zero, e) = (zero, ground (arith, e, p))
In-code_rows r protocol ((code, count) ∷ codes) p (suc i, e) =
    let h = In-code_rows r protocol codes p (i, e) in (suc h.0, h.1)

rows_of-HasRow : (r : StatusBucket) (m : TextCounts) → In r (rows_of m) → HasRow m r
unfolding rows_of
rows_of-HasRow r [] (i, e) = ground (arith, e)
rows_of-HasRow r ((protocol, codes) ∷ m) h =
    elim (apart r (code_rows protocol codes) (rows_of m) h) [
      | inl first ↦
          let (p, c) = code_rows-In r protocol codes first in
          (codes, (0, ap (λ (q : Text). some (q, codes)) p), c)
      | inr later ↦ let (codes', (i, e), c) = rows_of-HasRow r m later in (codes', (suc i, e), c)
    ]

HasRow-rows_of : (r : StatusBucket) (m : TextCounts) → HasRow m r → In r (rows_of m)
unfolding rows_of
HasRow-rows_of r [] (codes, (i, e), c) = ground (arith, e)
HasRow-rows_of r ((protocol, codes) ∷ m) (codes', (zero, e), c) =
    together r (code_rows protocol codes) (rows_of m) (
      inl (
        In-code_rows r protocol codes (ground (arith, e)) (
          subst (λ (l : List (Text × ℤ)). In {A = Text × ℤ} (r.code, r.count) l) (ground (arith, e))
            c)))
HasRow-rows_of r ((protocol, codes) ∷ m) (codes', (suc i, e), c) =
    together r (code_rows protocol codes) (rows_of m) (inr (HasRow-rows_of r m (codes', (i, e), c)))

length-code_rows :
    (protocol : Text) (codes : List (Text × ℤ)) → length (code_rows protocol codes) ≡ length codes
unfolding code_rows
length-code_rows protocol [] = refl
length-code_rows protocol ((code, count) ∷ codes) = ap suc (length-code_rows protocol codes)

length-rows_of : (m : TextCounts) → length (rows_of m) ≡ size_of m
unfolding rows_of
length-rows_of [] = refl
length-rows_of ((protocol, codes) ∷ m) =
    length-append (code_rows protocol codes) (rows_of m)
    ∙ ap₂ (λ a b. a + b) (length-code_rows protocol codes) (length-rows_of m)

length-perm : {A : Type 0} {xs ys : List A} → Permᴰ xs ys → length xs ≡ length ys
length-perm Permᴰ.nil = refl
length-perm (Permᴰ.cons e p) = ap suc (length-perm p)
length-perm (Permᴰ.swap e f) = refl
length-perm (Permᴰ.trans p q) = length-perm p ∙ length-perm q

-- There is a row for every count of the map and no other, as many rows as counts; they stand by descending
-- count and then by protocol and code, as bytes; and in whichever order the maps are visited they come out
-- the same.
pub flatten_status_buckets-Descending :
    {m m' : TextCounts} (r : StatusBucket)
    → Shuffled m m'
    → (In r (flatten_status_buckets m) ↔ HasRow m r)
      × (length (flatten_status_buckets m) ≡ size_of m)
      × Descending (flatten_status_buckets m)
      × (flatten_status_buckets m ≡ flatten_status_buckets m')
flatten_status_buckets-Descending {m} r p =
    let sorted = flatten_status_buckets-Ascending p in
    (
      (
        λ h. rows_of-HasRow r m (In-perm r sorted.1 h),
        λ h. In-perm r (Permᴰ.symm sorted.1) (HasRow-rows_of r m h),
      ),
      length-perm sorted.1 ∙ length-rows_of m,
      Ascending-Descending (flatten_status_buckets m) sorted.2,
      sorted.0,
    )
