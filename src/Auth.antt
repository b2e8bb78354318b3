-- ===== src/Auth.antt =====
-- internal/auth/oauth2.go: the token of a provider, cached and fetched by one caller at a time. Both
-- -- providers have the same `Token`. The token server's answer is an argument; a critical section under the
-- -- lock is one step, and `Wait` gives the lock up.
use crankfire.Prelude.{
  ℕ, zero, suc, ◌+◌, ◌-◌, ◌*◌, ◌/◌, ◌%◌, ◌^◌, ◌≤◌, ◌<◌, min, max, String, ◌≡◌, refl, sym, ap, ◌∙◌,
  subst, ◌≢◌, ◌↔◌, ◌⊎◌, inl, inr, Bool, true, false, ◌&&◌, ◌||◌, not, Option, none, some, List, [],
  ◌∷◌, ◌++◌, map, arith, ltb, leb, nat_beq, if◌then◌else◌, tests, Bool-cases, Option-cases, length,
  get_elem?, get_or, set, replicate, length-append, length-map, length-set, All, In, Eq, ◌==◌,
  nat_eq, string_eq, Float64, le_f, zero_f,
}
use crankfire.Prelude.Int.{
  ℤ, pos, negsuc, pos_part, quot, rem, neg_part, sub_ℕ, ◌+ℤ◌, ◌-ℤ◌, ◌*ℤ◌, ◌≤ℤ◌, ◌<ℤ◌, ltb_ℤ, leb_ℤ,
  beq_ℤ, int_laws,
}
use crankfire.Prelude.Int64.{
  wrap64, add64, sub64, mul64, Fits64, wrap64-of_Fits64, add64-of_Fits64, add64-pos, sub64-pos,
}
use crankfire.Prelude.Maps.{
  lookup, value_or, insert, delete, write_all, lookup-insert, lookup-insert_self, lookup-delete,
  lookup-write_all, beq_refl, or_else, NoDup, insert-NoDup,
}
pub mod Flight
mod Tests

pub record TokenBody : Type 0 where
  pub access_token : String
  pub expires_in : ℤ
  pub error : String

-- What becomes of the request: it cannot be created, it gets no response, or it is answered with a status
-- and a body that decodes or not.
pub data ServerAnswer : Type 0 where
  not_created no_response : ServerAnswer
  answered : ℕ → Option TokenBody → ServerAnswer

pub data FetchError : Type 0 where
  cannot_create cannot_fetch cannot_decode no_token : FetchError
  bad_status : ℕ → FetchError
  refused : String → FetchError

-- The token and the seconds until it expires.
unfoldable pub checked_body : TokenBody → FetchError ⊎ (String × ℤ)
checked_body body =
    if not (body.error == "")
    then inl (refused body.error)
    else if body.access_token == ""
    then inl no_token
    else inr (body.access_token, body.expires_in)

unfoldable pub fetch_token : ServerAnswer → FetchError ⊎ (String × ℤ)
fetch_token not_created = inl cannot_create
fetch_token no_response = inl cannot_fetch
fetch_token (answered status none) =
    if nat_beq status 200 then inl cannot_decode else inl (bad_status status)
fetch_token (answered status (some body)) =
    if nat_beq status 200 then checked_body body else inl (bad_status status)

-- Where a call of `Token` is: before the lock, waiting on the condition, woken by a broadcast, fetching
-- without the lock, or back with its result.
pub data CallPhase : Type 0 where
  begun waiting woken fetching : CallPhase
  back : FetchError ⊎ String → CallPhase

pub record Provider : Type 0 where
  pub cached_token : String
  pub token_expiry : ℤ
  pub refresh_before_expiry : ℤ
  pub fetch_in_progress : Bool
  pub calls : List CallPhase

unfoldable pub new_provider : ℤ → Provider
new_provider refresh = record {
  cached_token = "";
  token_expiry = pos 0;
  refresh_before_expiry = refresh;
  fetch_in_progress = false;
  calls = [];
}

-- `p.cachedToken != "" && time.Now().Before(p.tokenExpiry)`.
abbrev pub has_token : ℤ → Provider → Bool
has_token now p = not (p.cached_token == "") && ltb_ℤ now p.token_expiry

-- Under the lock, at the start and after a wake-up: the cached token, or wait, or fetch.
unfoldable pub enter : ℤ → ℕ → Provider → Provider
enter now i p =
    if has_token now p
    then record p { calls = set p.calls i (back (inr p.cached_token)) }
    else if p.fetch_in_progress
    then record p { calls = set p.calls i waiting }
    else record p { fetch_in_progress = true; calls = set p.calls i fetching }

abbrev pub woken_up : CallPhase → CallPhase
woken_up waiting = woken
woken_up phase = phase

-- `fetchCond.Broadcast()`.
unfoldable pub broadcast : List CallPhase → List CallPhase
broadcast [] = []
broadcast (phase ∷ phases) = woken_up phase ∷ broadcast phases

-- `time.Now().Add(time.Duration(expiresIn)*time.Second - refreshBeforeExpiry)`.
abbrev pub expiry_of : ℤ → ℤ → ℤ → ℤ
expiry_of now expires_in refresh = add64 now (sub64 (mul64 expires_in (pos 1000000000)) refresh)

-- Under the lock again, with the outcome of the fetch.
unfoldable pub finish_fetch : ℤ → ℕ → FetchError ⊎ (String × ℤ) → Provider → Provider
finish_fetch now i (inl err) p = record p {
  fetch_in_progress = false;
  calls = set (broadcast p.calls) i (back (inl err));
}
finish_fetch now i (inr (token, expires_in)) p = record p {
  fetch_in_progress = false;
  cached_token = token;
  token_expiry = expiry_of now expires_in p.refresh_before_expiry;
  calls = set (broadcast p.calls) i (back (inr token));
}

-- A call may take the lock at the start and after a wake-up.
abbrev pub may_enter : CallPhase → Bool
may_enter begun = true
may_enter woken = true
may_enter phase = false

-- The moves: a call arrives, a call takes the lock, the answer to a fetch comes back.
pub data TokenStep : Provider → Provider → Type 0 where
  arrives : (p : Provider) → TokenStep p (record p { calls = p.calls ++ begun ∷ [] })
  locks :
      (p : Provider) (i : ℕ) (phase : CallPhase) (now : ℤ)
      → get_elem? p.calls i ≡ some phase
      → may_enter phase ≡ true
      → TokenStep p (enter now i p)
  returns :
      (p : Provider) (i : ℕ) (now : ℤ) (answer : ServerAnswer)
      → get_elem? p.calls i ≡ some fetching
      → TokenStep p (finish_fetch now i (fetch_token answer) p)

pub data Reached (refresh : ℤ) : Provider → Type 0 where
  at_first : Reached refresh (new_provider refresh)
  after : {p q : Provider} → Reached refresh p → TokenStep p q → Reached refresh q
