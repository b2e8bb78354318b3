-- ===== src/Metrics/Bucket/Statuses.antt =====
-- The count of a protocol and a code in the status maps, as requests are recorded and maps merged.
use crankfire.Prelude.{
  ℕ, ◌+◌, ◌^◌, ◌<◌, String, ◌≡◌, refl, ap, ◌∙◌, subst, ◌≢◌, inl, inr, Bool, false, ◌&&◌, Option,
  List, [], ◌∷◌, arith, if◌then◌else◌, Bool-cases, ◌==◌, nat_eq, string_eq,
}
use crankfire.Prelude.Int.{ℤ, pos}
use crankfire.Prelude.Int64.{add64, add64-pos}
use crankfire.Prelude.Maps.{lookup, value_or, insert, lookup-insert, NoDup, insert-NoDup}
use text.Mathlib.TextEquality.{eq_iff}
use crankfire.Metrics.{StatusCounts}
use crankfire.Metrics.Bucket.{
  record_status_count, record_codes, record_statuses, copy_status_buckets,
}

abbrev pub code_count : String → List (String × ℤ) → ℤ
code_count status codes = value_or (pos 0) (lookup status codes)

-- What is read of a missing protocol is the empty map.
abbrev pub codes_of : String → StatusCounts → List (String × ℤ)
codes_of protocol buckets = value_or [] (lookup protocol buckets)

abbrev pub status_count : String → String → StatusCounts → ℤ
status_count protocol status buckets = code_count status (codes_of protocol buckets)

-- As in Go's maps no key stands twice, and a protocol is there only with a code.
abbrev pub IsFilled : List (String × ℤ) → Type 0
IsFilled codes = (codes ≢ []) × NoDup codes

abbrev AllFilled : StatusCounts → Type 0
AllFilled [] = Unit
AllFilled ((protocol, codes) ∷ rest) = IsFilled codes × AllFilled rest

abbrev pub IsStatusMap : StatusCounts → Type 0
IsStatusMap m = NoDup m × AllFilled m

insert_some : (s : String) (v : ℤ) (codes : List (String × ℤ)) → insert s v codes ≢ []
unfolding insert
insert_some s v [] = ground arith
insert_some s v ((c, w) ∷ codes) = ground arith

insert-AllFilled :
    (p : String) (codes : List (String × ℤ)) (m : StatusCounts)
    → IsFilled codes
    → AllFilled m
    → AllFilled (insert p codes m)
unfolding insert
insert-AllFilled p codes [] f a = (f, tt)
insert-AllFilled p codes ((q, old) ∷ m) f a = elim (Bool-cases (q == p)) [
  | inl hit ↦ rw (hit) (f, a.1)
  | inr miss ↦ rw (miss) (a.0, insert-AllFilled p codes m f a.1)
]

codes_of-NoDup : (p : String) (m : StatusCounts) → AllFilled m → NoDup (codes_of p m)
unfolding lookup
codes_of-NoDup p [] a = tt
codes_of-NoDup p ((q, codes) ∷ m) a = elim (Bool-cases (q == p)) [
  | inl hit ↦ rw (hit) (a.0.1)
  | inr miss ↦ rw (miss) (codes_of-NoDup p m a.1)
]

pub record_status_count-IsStatusMap :
    (p s : String) (n : ℤ) (m : StatusCounts)
    → IsStatusMap m
    → IsStatusMap (record_status_count p s n m)
unfolding record_status_count
record_status_count-IsStatusMap p s n m w =
    let codes = insert s (add64 (status_count p s m) n) (codes_of p m) in
    let distinct =
      insert-NoDup s (add64 (status_count p s m) n) (codes_of p m) (codes_of-NoDup p m w.1) in
    let some_code = insert_some s (add64 (status_count p s m) n) (codes_of p m) in
    (insert-NoDup p codes m w.0, insert-AllFilled p codes m (some_code, distinct) w.1)

pub status_count-record_status_count :
    (p s q t : String) (n : ℤ) (m : StatusCounts)
    → status_count q t (record_status_count p s n m)
      ≡ (if p == q && s == t then add64 (status_count q t m) n else status_count q t m)
unfolding record_status_count
status_count-record_status_count p s q t n m =
    let codes = codes_of p m in
    let added = insert s (add64 (code_count s codes) n) codes in
    ground (
      arith,
      lookup-insert p q added m,
      lookup-insert s t (add64 (code_count s codes) n) codes,
      eq_iff p q,
      eq_iff s t,
    )

abbrev counts_up : Bool → ℕ → ℕ → ℕ
counts_up hit a n = if hit then a + n else a

pub record_codes-IsStatusMap :
    (p : String) (codes : List (String × ℤ)) (m : StatusCounts)
    → IsStatusMap m
    → IsStatusMap (record_codes p codes m)
unfolding record_codes
record_codes-IsStatusMap p [] m w = w
record_codes-IsStatusMap p ((s, n) ∷ codes) m w =
    record_codes-IsStatusMap p codes (record_status_count p s n m)
      (record_status_count-IsStatusMap p s n m w)

pub record_statuses-IsStatusMap :
    (other m : StatusCounts) → IsStatusMap m → IsStatusMap (record_statuses other m)
unfolding record_statuses
record_statuses-IsStatusMap [] m w = w
record_statuses-IsStatusMap ((p, codes) ∷ other) m w =
    record_statuses-IsStatusMap other (record_codes p codes m)
      (record_codes-IsStatusMap p codes m w)

status_count-record_codes :
    (p q t : String) (codes : List (String × ℤ)) (m : StatusCounts) (a n : ℕ)
    → NoDup codes
    → code_count t codes ≡ pos n
    → status_count q t m ≡ pos a
    → a + n < 2 ^ 63
    → status_count q t (record_codes p codes m) ≡ pos (counts_up (p == q) a n)
unfolding record_codes lookup
status_count-record_codes p q t [] m a n d e f l = f ∙ ap pos (ground arith)
status_count-record_codes p q t ((s, v) ∷ codes) m a n d e f l =
    let step = status_count-record_status_count p s q t v m in
    elim (Bool-cases (s == t)) [
      | inl hit ↦
          let same : s ≡ t = (eq_iff s t).0 hit in
          let none_left : code_count t codes ≡ pos 0 =
            subst (λ i. code_count i codes ≡ pos 0) same (ap (value_or (pos 0)) d.0) in
          let now : status_count q t (record_status_count p s v m) ≡ pos (counts_up (p == q) a n) =
            ground (arith, step, hit, e, f, add64-pos a n l) in
          status_count-record_codes p q t codes (record_status_count p s v m)
            (counts_up (p == q) a n) 0 d.1 none_left now (ground arith)
          ∙ ap pos (ground arith)
      | inr miss ↦
          let rest : code_count t codes ≡ pos n = ground (arith, e, miss) in
          let now : status_count q t (record_status_count p s v m) ≡ pos a =
            ground (arith, step, miss, f) in
          status_count-record_codes p q t codes (record_status_count p s v m) a n d.1 rest now l
    ]

-- The codes of another protocol change nothing.
other_protocol :
    (p q t : String) (codes : List (String × ℤ)) (m : StatusCounts) (a : ℕ)
    → (p == q) ≡ false
    → status_count q t m ≡ pos a
    → status_count q t (record_codes p codes m) ≡ pos a
unfolding record_codes
other_protocol p q t [] m a miss f = f
other_protocol p q t ((s, v) ∷ codes) m a miss f =
    let step = status_count-record_status_count p s q t v m in
    other_protocol p q t codes (record_status_count p s v m) a miss (ground (arith, step, miss, f))

pub status_count-record_statuses :
    (q t : String) (other m : StatusCounts) (a n : ℕ)
    → IsStatusMap other
    → status_count q t other ≡ pos n
    → status_count q t m ≡ pos a
    → a + n < 2 ^ 63
    → status_count q t (record_statuses other m) ≡ pos (a + n)
unfolding record_statuses lookup
status_count-record_statuses q t [] m a n w e f l = f ∙ ap pos (ground (arith, e))
status_count-record_statuses q t ((p, codes) ∷ other) m a n w e f l = elim (Bool-cases (p == q)) [
  | inl hit ↦
      let same : p ≡ q = (eq_iff p q).0 hit in
      let mine : code_count t codes ≡ pos n = ground (arith, e, hit) in
      let none_left : status_count q t other ≡ pos 0 =
        subst (λ i. status_count i t other ≡ pos 0) same
          (ap (λ (o : Option (List (String × ℤ))). code_count t (value_or [] o)) w.0.0) in
      let now : status_count q t (record_codes p codes m) ≡ pos (a + n) =
        ground (arith, hit, status_count-record_codes p q t codes m a n w.1.0.1 mine f l) in
      status_count-record_statuses q t other (record_codes p codes m) (a + n) 0 (w.0.1, w.1.1)
        none_left now (omega arith)
      ∙ ap pos (omega arith)
  | inr miss ↦
      let rest : status_count q t other ≡ pos n = ground (arith, e, miss) in
      let now : status_count q t (record_codes p codes m) ≡ pos a =
        other_protocol p q t codes m a miss f in
      status_count-record_statuses q t other (record_codes p codes m) a n (w.0.1, w.1.1) rest now l
]

pub copy_status_buckets-of_IsStatusMap :
    (m : StatusCounts) → IsStatusMap m → copy_status_buckets m ≡ m
unfolding copy_status_buckets
copy_status_buckets-of_IsStatusMap [] w = refl
copy_status_buckets-of_IsStatusMap ((p, []) ∷ m) w = absurd (w.1.0.0 refl)
copy_status_buckets-of_IsStatusMap ((p, code ∷ codes) ∷ m) w =
    ap (λ (rest : StatusCounts). (p, code ∷ codes) ∷ rest)
      (copy_status_buckets-of_IsStatusMap m (w.0.1, w.1.1))
