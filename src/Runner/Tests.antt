-- ===== src/Runner/Tests.antt =====
-- Options, retries, arrival control and runs on concrete inputs.
use crankfire.Prelude.{
  ℕ, suc, ◌+◌, ◌≤◌, max, ◌≡◌, refl, true, Option, none, some, List, [], ◌∷◌, arith, ltb,
  if◌then◌else◌, nat_eq, string_eq, text_eq,
}
use crankfire.Prelude.Int.{ℤ, pos, negsuc, pos_part}
use crankfire.Prelude.Samples.{int_floats}
use crankfire.Runner.Pattern.{LoadPattern, compile_pattern_plan}
use crankfire.Runner.Pattern.Pieces.{pieces, total, pattern_pieces}
use crankfire.Runner.Options.{Options, normalize}
use crankfire.Runner.Options.Defaults.{IsNormal, normalize-IsNormal}
use crankfire.Runner.Retry.{Outside, RetryPolicy, retry_do, with_retry, pause}
use crankfire.Runner.Retry.Outcome.{Fails, here, fail, retry_do_outcome, with_retry-calls}
use crankfire.Runner.Arrival.{RateLimiter, uniform, pattern_ticks}
use crankfire.Runner.Arrival.Pacing.{pattern_ticks_lem}

abbrev a_limiter : Option ℤ → ℤ → ℕ
a_limiter limit burst = pos_part burst

abbrev no_options : Options ℕ
no_options = record {
  concurrency = pos 0;
  total_requests = negsuc 4;
  duration = pos 0;
  rate_per_second = pos 0;
  graceful_shutdown = pos 0;
  limiter_factory = none;
  load_patterns = [];
  arrival_model = "";
  random_seed = pos 0;
}

normalize-IsNormal_example : IsNormal a_limiter (normalize a_limiter (pos 7) no_options)
normalize-IsNormal_example = normalize-IsNormal a_limiter (pos 7) no_options (λ e. ground arith)

-- A requester that fails at its first call; the world counts the calls.
abbrev fails_once : Outside ℕ ℕ
fails_once = record {
  inner = λ w. (if ltb w 1 then some 7 else none, suc w);
  ctx_err = λ w. none;
  timer_first = λ d w. (true, w);
}

abbrev two_attempts : RetryPolicy ℕ
two_attempts = record {
  max_attempts = pos 2;
  delay = pos 5;
  should_retry = none;
  delay_func = none;
}

one_failure : Fails fails_once two_attempts 1 1 0 1
unfolding pause
one_failure = fail 7 refl refl refl refl (here 2 1)

retry_do_outcome_example : retry_do fails_once two_attempts 0 ≡ (none, 2)
retry_do_outcome_example =
    (retry_do_outcome fails_once two_attempts 1 0 0 1 2 7 one_failure refl).1 refl refl

with_retry-calls_example : (with_retry fails_once two_attempts 0).1 ≤ 0 + max 1 2
with_retry-calls_example =
    with_retry-calls fails_once two_attempts (λ w. w) (λ w. refl) (λ d w. refl) 0

-- A limiter that stores its limit and its burst.
abbrev pair_limiter : RateLimiter (int_floats.F)
pair_limiter = record {
  L = Option ℤ × ℤ;
  limit = λ l. l.0;
  burst = λ l. l.1;
  set_limit = λ f l. (f, l.1);
  set_burst = λ b l. (l.0, b);
  limit-set_limit = λ l f. refl;
  burst-set_limit = λ l f. refl;
  limit-set_burst = λ l b. refl;
  burst-set_burst = λ l b. refl;
}

abbrev one_spike : List LoadPattern
one_spike =
    record {
      name = "peak";
      type = "spike";
      from_rps = pos 0;
      to_rps = pos 0;
      duration = pos 50;
      steps = [];
      rps = pos 40;
    }
    ∷ []

one_spike-total : total (pieces one_spike) ≡ 50
unfolding total pieces pattern_pieces
one_spike-total = refl

pattern_ticks_lem_example :
    pattern_ticks int_floats pair_limiter
      (compile_pattern_plan int_floats one_spike)
      (uniform none)
      (pos 10 ∷ pos 60 ∷ [])
    ≡ (
      (pattern_ticks int_floats pair_limiter
          (compile_pattern_plan int_floats one_spike)
          (uniform none)
          (pos 10 ∷ [])).0,
      true,
    )
pattern_ticks_lem_example =
    (pattern_ticks_lem int_floats pair_limiter one_spike (uniform none) (pos 10 ∷ []) (pos 60)
        (omega (arith, one_spike-total)) (omega (arith, one_spike-total), tt)).1
      [] (omega (arith, one_spike-total))
