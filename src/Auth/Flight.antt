-- ===== src/Auth/Flight.antt =====
-- Callers of `Token`: one fetches at a time, and nobody waits without a fetch.
use crankfire.Prelude.{
  ℕ, zero, suc, ◌+◌, String, ◌≡◌, refl, ◌≢◌, ◌⊎◌, inl, inr, true, false, none, some, List, [], ◌∷◌,
  ◌++◌, arith, if◌then◌else◌, Bool-cases, get_elem?, set, All, nat_eq, string_eq,
}
use crankfire.Prelude.Int.{ℤ}
use text.Mathlib.TextEquality.{eq_iff}
use crankfire.Auth.{
  FetchError, fetch_token, checked_body, ServerAnswer, answered, CallPhase, begun, waiting, woken,
  fetching, back, Provider, new_provider, has_token, enter, woken_up, broadcast, finish_fetch,
  may_enter, TokenStep, arrives, locks, returns, Reached, at_first, after, not_created, no_response,
}

abbrev fetches : CallPhase → ℕ
fetches fetching = 1
fetches phase = 0

abbrev waits : CallPhase → ℕ
waits waiting = 1
waits phase = 0

abbrev pub count_of : (CallPhase → ℕ) → List CallPhase → ℕ
count_of f [] = 0
count_of f (phase ∷ phases) = f phase + count_of f phases

abbrev pub fetchers : Provider → ℕ
fetchers p = count_of fetches p.calls

abbrev pub waiters : Provider → ℕ
waiters p = count_of waits p.calls

-- A token that was handed out is not empty.
abbrev HasToken : CallPhase → Type 0
HasToken (back (inr token)) = token ≢ ""
HasToken phase = Unit

pub record IsSingle (p : Provider) : Type 0 where
  pub one_fetches : fetchers p ≡ (if p.fetch_in_progress then 1 else 0)
  pub none_forgotten : p.fetch_in_progress ≡ false → waiters p ≡ 0
  pub tokens : All HasToken p.calls

count_of-set :
    (f : CallPhase → ℕ) (phases : List CallPhase) (i : ℕ) (old new : CallPhase)
    → get_elem? phases i ≡ some old
    → count_of f (set phases i new) + f old ≡ count_of f phases + f new
count_of-set f [] i old new e = ground arith
count_of-set f (phase ∷ phases) zero old new e = ground (arith, e)
count_of-set f (phase ∷ phases) (suc i) old new e = omega (arith, count_of-set f phases i old new e)

count_of-append :
    (f : CallPhase → ℕ) (xs ys : List CallPhase)
    → count_of f (xs ++ ys) ≡ count_of f xs + count_of f ys
count_of-append f [] ys = omega arith
count_of-append f (x ∷ xs) ys = omega (arith, count_of-append f xs ys)

fetches-broadcast :
    (phases : List CallPhase) → count_of fetches (broadcast phases) ≡ count_of fetches phases
unfolding broadcast
fetches-broadcast [] = refl
fetches-broadcast (phase ∷ phases) = ground (arith, fetches-broadcast phases)

waits-broadcast : (phases : List CallPhase) → count_of waits (broadcast phases) ≡ 0
unfolding broadcast
waits-broadcast [] = refl
waits-broadcast (phase ∷ phases) = ground (arith, waits-broadcast phases)

broadcast_fetching :
    (phases : List CallPhase) (i : ℕ)
    → get_elem? phases i ≡ some fetching
    → get_elem? (broadcast phases) i ≡ some fetching
unfolding broadcast
broadcast_fetching [] i e = ground (arith, e)
broadcast_fetching (phase ∷ phases) zero e = ground (arith, e)
broadcast_fetching (phase ∷ phases) (suc i) e = broadcast_fetching phases i e

HasToken-woken_up : (phase : CallPhase) → HasToken phase → HasToken (woken_up phase)
HasToken-woken_up begun h = tt
HasToken-woken_up waiting h = tt
HasToken-woken_up woken h = tt
HasToken-woken_up fetching h = tt
HasToken-woken_up (back result) h = h

HasToken-broadcast :
    (phases : List CallPhase) → All HasToken phases → All HasToken (broadcast phases)
unfolding broadcast
HasToken-broadcast [] a = tt
HasToken-broadcast (phase ∷ phases) a = (HasToken-woken_up phase a.0, HasToken-broadcast phases a.1)

HasToken-set :
    (phases : List CallPhase) (i : ℕ) (new : CallPhase)
    → All HasToken phases
    → HasToken new
    → All HasToken (set phases i new)
HasToken-set [] i new a h = tt
HasToken-set (phase ∷ phases) zero new a h = (h, a.1)
HasToken-set (phase ∷ phases) (suc i) new a h = (a.0, HasToken-set phases i new a.1 h)

HasToken-append :
    (phases : List CallPhase) → All HasToken phases → All HasToken (phases ++ begun ∷ [])
HasToken-append [] a = (tt, tt)
HasToken-append (phase ∷ phases) a = (a.0, HasToken-append phases a.1)

-- The token server's token is checked.
fetch_token-given :
    (answer : ServerAnswer) (token : String) (seconds : ℤ)
    → fetch_token answer ≡ inr (token, seconds)
    → token ≢ ""
unfolding fetch_token checked_body
fetch_token-given not_created token seconds e = ground (arith, e)
fetch_token-given no_response token seconds e = ground (arith, e)
fetch_token-given (answered status none) token seconds e = ground (arith, e)
fetch_token-given (answered status (some body)) token seconds e =
    ground (arith, e, eq_iff body.access_token "", eq_iff token "")

may_enter-quiet :
    (phase : CallPhase) → may_enter phase ≡ true → (fetches phase ≡ 0) × (waits phase ≡ 0)
may_enter-quiet begun e = (refl, refl)
may_enter-quiet woken e = (refl, refl)
may_enter-quiet waiting e = ground (arith, e)
may_enter-quiet fetching e = ground (arith, e)
may_enter-quiet (back result) e = ground (arith, e)

enter-IsSingle :
    (p : Provider) (i : ℕ) (phase : CallPhase) (now : ℤ)
    → get_elem? p.calls i ≡ some phase
    → may_enter phase ≡ true
    → IsSingle p
    → IsSingle (enter now i p)
unfolding enter
enter-IsSingle p i phase now e m s =
    let quiet = may_enter-quiet phase m in
    let token = back (inr p.cached_token) in
    let moved = λ (f : CallPhase → ℕ) (new : CallPhase). count_of-set f p.calls i phase new e in
    elim (Bool-cases (has_token now p)) [
      | inl cached ↦
          rw (enter, cached)
            (record {
              one_fetches = omega (arith, moved fetches token, quiet.0, s.one_fetches);
              none_forgotten =
                  λ idle. omega (arith, moved waits token, quiet.1, s.none_forgotten idle);
              tokens =
                  HasToken-set p.calls i token s.tokens
                    (λ empty. ground (arith, cached, (eq_iff p.cached_token "").1 empty));
            })
      | inr missing ↦ elim (Bool-cases p.fetch_in_progress) [
        | inl busy ↦
            rw (enter, missing, busy)
              (record {
                one_fetches = ground (arith, moved fetches waiting, quiet.0, s.one_fetches, busy);
                none_forgotten = λ no. ground (arith, no);
                tokens = HasToken-set p.calls i waiting s.tokens tt;
              })
        | inr idle ↦
            rw (enter, missing, idle)
              (record {
                one_fetches = ground (arith, moved fetches fetching, quiet.0, s.one_fetches, idle);
                none_forgotten = λ no. ground (arith, no);
                tokens = HasToken-set p.calls i fetching s.tokens tt;
              })
      ]
    ]

-- A fetch that ends leaves no fetch, and nobody waiting.
back_from_fetch :
    (p : Provider) (i : ℕ) (result : FetchError ⊎ String)
    → get_elem? p.calls i ≡ some fetching
    → IsSingle p
    → (count_of fetches (set (broadcast p.calls) i (back result)) ≡ 0)
      × (count_of waits (set (broadcast p.calls) i (back result)) ≡ 0)
back_from_fetch p i result e s =
    let there = broadcast_fetching p.calls i e in
    let none_left = count_of-set fetches (broadcast p.calls) i fetching (back result) there in
    let none_waits = count_of-set waits (broadcast p.calls) i fetching (back result) there in
    (
      ground (arith, none_left, fetches-broadcast p.calls, s.one_fetches),
      omega (arith, none_waits, waits-broadcast p.calls),
    )

finish_fetch-IsSingle :
    (p : Provider) (i : ℕ) (now : ℤ) (o : FetchError ⊎ (String × ℤ)) (answer : ServerAnswer)
    → fetch_token answer ≡ o
    → get_elem? p.calls i ≡ some fetching
    → IsSingle p
    → IsSingle (finish_fetch now i o p)
unfolding finish_fetch
finish_fetch-IsSingle p i now (inl err) answer f e s =
    let left = back_from_fetch p i (inl err) e s in
    record {
      one_fetches = left.0;
      none_forgotten = λ idle. left.1;
      tokens =
          HasToken-set (broadcast p.calls) i (back (inl err)) (HasToken-broadcast p.calls s.tokens)
            tt;
    }
finish_fetch-IsSingle p i now (inr (token, seconds)) answer f e s =
    let left = back_from_fetch p i (inr token) e s in
    record {
      one_fetches = left.0;
      none_forgotten = λ idle. left.1;
      tokens =
          HasToken-set (broadcast p.calls) i (back (inr token))
            (HasToken-broadcast p.calls s.tokens) (fetch_token-given answer token seconds f);
    }

step-IsSingle : {p q : Provider} → TokenStep p q → IsSingle p → IsSingle q
step-IsSingle (arrives p) s = record {
  one_fetches = omega (arith, count_of-append fetches p.calls (begun ∷ []), s.one_fetches);
  none_forgotten =
      λ idle. omega (arith, count_of-append waits p.calls (begun ∷ []), s.none_forgotten idle);
  tokens = HasToken-append p.calls s.tokens;
}
step-IsSingle (locks p i phase now e m) s = enter-IsSingle p i phase now e m s
step-IsSingle (returns p i now answer e) s =
    finish_fetch-IsSingle p i now (fetch_token answer) answer refl e s

-- However calls of `Token` interleave, and whatever the token server answers: a fetch is in progress
-- exactly while one caller fetches, and never two; callers wait only then; and a token that was handed
-- out is not empty.
pub reached-IsSingle : (refresh : ℤ) (p : Provider) → Reached refresh p → IsSingle p
unfolding new_provider
reached-IsSingle refresh p at_first = record {
  one_fetches = refl;
  none_forgotten = λ idle. refl;
  tokens = tt;
}
reached-IsSingle refresh q (after {p} r step) = step-IsSingle step (reached-IsSingle refresh p r)
