-- ===== src/Sets/Overrides.antt =====
-- internal/setrunner/overrides.go: the configuration of an item. The fields of the configuration that
-- no override touches are the `rest`; `expand` is `os.Expand` with the environment of the process.
use crankfire.Prelude.{
  String, ◌≡◌, refl, ap, ◌∙◌, inl, inr, false, Option, none, some, List, [], ◌∷◌, arith, ltb,
  if◌then◌else◌, Bool-cases, length, nat_eq, string_eq, text_eq,
}
use crankfire.Prelude.Int.{ℤ}
use crankfire.Prelude.Maps.{lookup, write_all, lookup-write_all, or_else, NoDup}
use crankfire.Sets.{Override}

pub record Config (C : Type 0) : Type 0 where
  pub target_url : String
  pub method : String
  pub headers : List (String × String)
  pub body : String
  pub total : ℤ
  pub rate : ℤ
  pub concurrency : ℤ
  pub duration : ℤ
  pub timeout : ℤ
  pub static_token : String
  pub rest : C

abbrev given {ℓ} : {A : Type ℓ} → Option A → A → A
given none a = a
given (some b) a = b

write_all_nil :
    (m : List (String × String)) (j : String) → NoDup m → lookup j (write_all [] m) ≡ lookup j m
unfolding lookup
write_all_nil m j d = ground (arith, lookup-write_all [] m j d)

no_headers : (m : List (String × String)) → ltb 0 (length m) ≡ false → m ≡ []
no_headers [] h = refl
no_headers (h ∷ hs) e = ground arith

module _ {C : Type 0} (expand : String → String) where
  pub apply_overrides : Config C → Override → Config C
  apply_overrides base o = record {
    target_url = given o.target_url base.target_url;
    method = given o.method base.method;
    headers =
        if ltb 0 (length o.headers)
        then write_all (write_all [] base.headers) o.headers
        else base.headers;
    body = given o.body base.body;
    total = given o.total_requests base.total;
    rate = given o.rate base.rate;
    concurrency = given o.concurrency base.concurrency;
    duration = given o.duration base.duration;
    timeout = given o.timeout base.timeout;
    static_token = elim o.auth_token [ none ↦ base.static_token | some t ↦ expand t ];
    rest = base.rest;
  }

  -- A header of the item is the override's where it sets one, and the session's otherwise; no key
  -- stands twice in either map.
  pub lookup-apply_overrides :
      (base : Config C) (o : Override) (k : String)
      → NoDup base.headers
      → NoDup o.headers
      → lookup k (apply_overrides base o).headers
        ≡ or_else (lookup k o.headers) (lookup k base.headers)
  unfolding apply_overrides lookup
  lookup-apply_overrides base o k d e = elim (Bool-cases (ltb 0 (length o.headers))) [
    | inl some_header ↦
        rw (some_header, apply_overrides)
          (lookup-write_all (write_all [] base.headers) o.headers k e
            ∙ ap (or_else (lookup k o.headers)) (write_all_nil base.headers k d))
    | inr no_header ↦ rw (no_header, apply_overrides) (rw (no_headers o.headers no_header) refl)
  ]
