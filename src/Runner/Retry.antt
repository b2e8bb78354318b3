-- ===== src/Runner/Retry.antt =====
-- internal/runner/retry.go: requesters wrapped with retries and with logging. A request is a function
-- on the world, which also holds the context; `none` is a nil error.
pub mod Outcome
use crankfire.Prelude.{ℕ, zero, suc, Bool, true, false, Option, none, some, ltb, if◌then◌else◌}
use crankfire.Prelude.Int.{ℤ, pos, pos_part, leb_ℤ}

-- The outside of the retry loop: the wrapped requester, `ctx.Err()`, and the `select` between a timer
-- and `ctx.Done()`, true if the timer fired first.
pub record Outside (W E : Type 0) : Type 0 where
  pub inner : W → Option E × W
  pub ctx_err : W → Option E
  pub timer_first : ℤ → W → Bool × W

-- Nil functions are `none`.
pub record RetryPolicy (E : Type 0) : Type 0 where
  pub max_attempts : ℤ
  pub delay : ℤ
  pub should_retry : Option (E → Bool)
  pub delay_func : Option (ℤ → E → ℤ)

module _ {W E : Type 0} (o : Outside W E) where
  -- The policy retries an error, unless its predicate refuses it.
  abbrev pub retries : RetryPolicy E → E → Bool
  retries p e = elim p.should_retry [ none ↦ true | some f ↦ f e ]

  abbrev pub delay_after : RetryPolicy E → ℕ → E → ℤ
  delay_after p attempt e = elim p.delay_func [ none ↦ p.delay | some f ↦ f (pos attempt) e ]

  -- True if the delay passed, false if the context ended first.
  unfoldable pub pause : RetryPolicy E → ℕ → E → W → Bool × W
  pause p attempt e w =
      let d = delay_after p attempt e in if leb_ℤ d (pos 0) then (true, w) else o.timer_first d w

  abbrev resume : (W → Option E × W) → Bool × W → Option E × W
  resume again (true, w) = again w
  resume again (false, w) = (o.ctx_err w, w)

  -- What follows a failed attempt, when `left` more may be made.
  after_failure : RetryPolicy E → ℕ → ℕ → E → (W → Option E × W) → W → Option E × W
  after_failure p left attempt e again w =
      if ltb 0 left
      then if retries p e then resume again (pause p attempt e w) else (some e, w)
      else again w

  abbrev after_attempt :
      RetryPolicy E → ℕ → ℕ → (E → W → Option E × W) → Option E × W → Option E × W
  after_attempt p left attempt again (none, w) = (none, w)
  after_attempt p left attempt again (some e, w) = after_failure p left attempt e (again e) w

  abbrev unless_done : Option E → W → Option E × W → Option E × W
  unless_done none w r = r
  unless_done (some c) w r = (some c, w)

  -- The loop from an attempt on, with the number of attempts that are left.
  pub retry_loop : RetryPolicy E → ℕ → ℕ → Option E → W → Option E × W
  unfolding after_failure
  retry_loop p zero attempt last_err w = (last_err, w)
  retry_loop p (suc left) attempt last_err w =
      let again = λ (e : E) (v : W). retry_loop p left (suc attempt) (some e) v in
      unless_done (o.ctx_err w) w (after_attempt p left attempt again (o.inner w))

  pub retry_do : RetryPolicy E → W → Option E × W
  retry_do p w = retry_loop p (pos_part p.max_attempts) 1 none w

  pub with_retry : RetryPolicy E → W → Option E × W
  with_retry p = if leb_ℤ p.max_attempts (pos 1) then o.inner else retry_do p

  -- The logger is `none` if it is nil.
  abbrev logged : (E → W → W) → Option E × W → Option E × W
  logged log (none, w) = (none, w)
  logged log (some e, w) = (some e, log e w)

  pub with_logging : Option (E → W → W) → W → Option E × W
  with_logging none w = o.inner w
  with_logging (some log) w = logged log (o.inner w)
