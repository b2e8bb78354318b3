-- ===== src/Runner/Retry/Outcome.antt =====
-- What a requester with retries returns, and how often it calls the requester that it wraps.
use crankfire.Prelude.{
  ℕ, zero, suc, ◌+◌, ◌≤◌, ◌<◌, max, ◌≡◌, ap, ◌∙◌, ◌⊎◌, inl, inr, Bool, true, false, Option, none,
  some, arith, ltb, Bool-cases, Option-cases, nat_eq, string_eq, text_eq,
}
use crankfire.Prelude.Int.{ℤ, pos, pos_part, leb_ℤ}
use crankfire.Runner.Retry.{
  Outside, RetryPolicy, retries, delay_after, resume, after_failure, after_attempt, pause,
  retry_loop, retry_do, with_retry,
}

module _ {W E : Type 0} (o : Outside W E) (p : RetryPolicy E) where
  -- Failed attempts that are each followed by a pause: from an attempt in a world to a later one.
  pub data Fails : ℕ → ℕ → W → W → Type 0 where
    here : (attempt : ℕ) (w : W) → Fails zero attempt w w
    fail :
        {k attempt : ℕ} {w w' w'' v : W} (e : E)
        → o.ctx_err w ≡ none
        → o.inner w ≡ (some e, w')
        → retries o p e ≡ true
        → pause o p attempt e w' ≡ (true, w'')
        → Fails k (suc attempt) w'' v
        → Fails (suc k) attempt w v

  -- The failures are behind: the loop goes on with the attempts that are left.
  retry_loop-Fails :
      (k m left attempt : ℕ) (last : Option E) {w v : W}
      → left ≡ k + suc m
      → Fails k attempt w v
      → retry_loop o p left attempt last w ≡ retry_loop o p (suc m) (attempt + k) none v
  unfolding retry_loop
  retry_loop-Fails k m zero attempt last l f = absurd (omega arith)
  retry_loop-Fails k m (suc left) attempt last {w = w} l (here _ _) =
      let e : left ≡ m = omega arith in
      let a : attempt ≡ attempt + 0 = omega arith in
      ap (λ (t : ℕ). retry_loop o p (suc t) attempt none w) e
      ∙ ap (λ (t : ℕ). retry_loop o p (suc m) t none w) a
  retry_loop-Fails k m (suc left) attempt last {v = v} l
        (fail {k = k'} {w'' = w''} e c i r d rest) =
      let more : ltb 0 left ≡ true = ground arith in
      let a : suc attempt + k' ≡ attempt + suc k' = omega arith in
      rw (c, i, more, r, d)
        (retry_loop-Fails k' m left (suc attempt) (some e) (omega arith) rest
          ∙ ap (λ (t : ℕ). retry_loop o p (suc m) t none v) a)

  retry_loop_stop :
      (m attempt : ℕ) (v v' : W) (e : E)
      → o.ctx_err v ≡ none
      → o.inner v ≡ (some e, v')
      → (retries o p e ≡ false) ⊎ (m ≡ 0)
      → retry_loop o p (suc m) attempt none v ≡ (some e, v')
  unfolding retry_loop
  retry_loop_stop zero attempt v v' e h i stop = rw (h, i)
  retry_loop_stop (suc m) attempt v v' e h i (inl r) =
      let more : ltb 0 (suc m) ≡ true = ground arith in rw (h, i, more, r)
  retry_loop_stop (suc m) attempt v v' e h i (inr z) = absurd (omega arith)

  -- The next step of the loop decides, on each of its branches.
  retry_loop_step :
      (m attempt : ℕ) (v v' : W) (e : E)
      → ((c : E) → o.ctx_err v ≡ some c → retry_loop o p (suc m) attempt none v ≡ (some c, v))
        × (o.ctx_err v ≡ none
            → o.inner v ≡ (none, v')
            → retry_loop o p (suc m) attempt none v ≡ (none, v'))
        × (o.ctx_err v ≡ none
            → o.inner v ≡ (some e, v')
            → (retries o p e ≡ false) ⊎ (m ≡ 0)
            → retry_loop o p (suc m) attempt none v ≡ (some e, v'))
        × ((v'' : W)
            → o.ctx_err v ≡ none
            → o.inner v ≡ (some e, v')
            → retries o p e ≡ true
            → 0 < m
            → pause o p attempt e v' ≡ (false, v'')
            → retry_loop o p (suc m) attempt none v ≡ (o.ctx_err v'', v''))
  unfolding retry_loop
  retry_loop_step m attempt v v' e = (
    λ c h. rw h,
    λ h i. rw (h, i),
    λ h i stop. retry_loop_stop m attempt v v' e h i stop,
    λ v'' h i r l d. let more : ltb 0 m ≡ true = ground arith in rw (h, i, more, r, d),
  )

  -- After k attempts that failed and were each followed by a pause, with at least one more attempt
  -- allowed, the next attempt decides what the requester returns: a context error if the context has
  -- ended; nil if it succeeds; its own error if that error is not retried or no attempt is left,
  -- without a pause; the context error if the context ends during the pause.
  pub retry_do_outcome :
      (k m : ℕ) (w v v' : W) (e : E)
      → Fails k 1 w v
      → p.max_attempts ≡ pos (k + suc m)
      → ((c : E) → o.ctx_err v ≡ some c → retry_do o p w ≡ (some c, v))
        × (o.ctx_err v ≡ none → o.inner v ≡ (none, v') → retry_do o p w ≡ (none, v'))
        × (o.ctx_err v ≡ none
            → o.inner v ≡ (some e, v')
            → (retries o p e ≡ false) ⊎ (m ≡ 0)
            → retry_do o p w ≡ (some e, v'))
        × ((v'' : W)
            → o.ctx_err v ≡ none
            → o.inner v ≡ (some e, v')
            → retries o p e ≡ true
            → 0 < m
            → pause o p (1 + k) e v' ≡ (false, v'')
            → retry_do o p w ≡ (o.ctx_err v'', v''))
  unfolding retry_do
  retry_do_outcome k m w v v' e f h =
      let start = retry_loop-Fails k m (pos_part p.max_attempts) 1 none (ap pos_part h) f in
      let step = retry_loop_step m (1 + k) v v' e in
      (
        λ c x. start ∙ step.0 c x,
        λ x i. start ∙ step.1 x i,
        λ x i stop. start ∙ step.2 x i stop,
        λ v'' x i r l d. start ∙ step.3 v'' x i r l d,
      )

  -- A count of the calls of the wrapped requester, which nothing else changes.
  module _ (calls : W → ℕ) (counts : (w : W) → calls (o.inner w).1 ≡ suc (calls w))
      (keeps : (d : ℤ) (w : W) → calls (o.timer_first d w).1 ≡ calls w) where
    pause-calls : (attempt : ℕ) (e : E) (w : W) → calls (pause o p attempt e w).1 ≡ calls w
    unfolding pause
    pause-calls attempt e w = elim (Bool-cases (leb_ℤ (delay_after o p attempt e) (pos 0))) [
      | inl skip ↦ rw (skip, pause)
      | inr long ↦ rw (long, pause) (keeps (delay_after o p attempt e) w)
    ]

    resume-calls :
        (n : ℕ) (again : W → Option E × W) (r : Bool × W)
        → ((v : W) → calls (again v).1 ≤ calls v + n)
        → calls (resume o again r).1 ≤ calls r.1 + n
    resume-calls n again (true, w) h = h w
    resume-calls n again (false, w) h = omega arith

    after_failure-calls :
        (left attempt : ℕ) (e : E) (again : W → Option E × W) (w : W)
        → ((v : W) → calls (again v).1 ≤ calls v + left)
        → calls (after_failure o p left attempt e again w).1 ≤ calls w + left
    unfolding after_failure
    after_failure-calls left attempt e again w h = elim (Bool-cases (ltb 0 left)) [
      | inr last ↦ rw (last, after_failure) (h w)
      | inl more ↦ elim (Bool-cases (retries o p e)) [
        | inr refused ↦ rw (more, refused, after_failure) (omega arith)
        | inl retried ↦
            rw (more, retried, after_failure)
              (omega
                (arith, resume-calls left again (pause o p attempt e w) h, pause-calls attempt e w))
      ]
    ]

    after_attempt-calls :
        (left attempt : ℕ) (again : E → W → Option E × W) (r : Option E × W)
        → ((e : E) (v : W) → calls (again e v).1 ≤ calls v + left)
        → calls (after_attempt o p left attempt again r).1 ≤ calls r.1 + left
    after_attempt-calls left attempt again (none, w) h = omega arith
    after_attempt-calls left attempt again (some e, w) h =
        after_failure-calls left attempt e (again e) w (h e)

    retry_loop-calls :
        (left attempt : ℕ) (last : Option E) (w : W)
        → calls (retry_loop o p left attempt last w).1 ≤ calls w + left
    unfolding retry_loop
    retry_loop-calls zero attempt last w = omega arith
    retry_loop-calls (suc left) attempt last w = elim (Option-cases (o.ctx_err w)) [
      | inr (c, h) ↦ rw h (omega arith)
      | inl h ↦ rw h (
          omega (
            arith,
            after_attempt-calls left attempt (λ e v. retry_loop o p left (suc attempt) (some e) v)
                (o.inner w) (λ e v. retry_loop-calls left (suc attempt) (some e) v),
            counts w,
          ))
    ]

    -- However the requests fail, the wrapped requester is called at most `MaxAttempts` times, and once
    -- where that is not above 1: `calls` is any count that a request raises by one and that waiting
    -- for a timer leaves alone.
    pub with_retry-calls :
        (w : W) → calls (with_retry o p w).1 ≤ calls w + max 1 (pos_part p.max_attempts)
    unfolding with_retry retry_do
    with_retry-calls w = elim (Bool-cases (leb_ℤ p.max_attempts (pos 1))) [
      | inl once ↦ rw (once, with_retry) (omega (arith, counts w))
      | inr more ↦
          rw (more, with_retry) (omega (arith, retry_loop-calls (pos_part p.max_attempts) 1 none w))
    ]
