-- ===== src/Runner/Options/Defaults.antt =====
-- What `normalize` guarantees, and what it leaves alone.
use crankfire.Prelude.{
  String, ◌≡◌, ◌≢◌, inl, inr, false, Option, none, arith, if◌then◌else◌, Bool-cases, ◌==◌, nat_eq,
  string_eq, text_eq,
}
use crankfire.Prelude.Int.{ℤ, pos, ◌≤ℤ◌}
use crankfire.Runner.Options.{Options, normalize}

given_model : (m : String) → ((if m == "" then "uniform" else m) == "") ≡ false
given_model m = elim (Bool-cases (m == "")) [ inl e ↦ rw e | inr e ↦ rw e e ]

module _ {L : Type 0} (new_limiter : Option ℤ → ℤ → L) where
  -- The options that a run may rely on.
  pub record IsNormal (o : Options L) : Type 0 where
    pub some_worker : pos 1 ≤ℤ o.concurrency
    pub some_total : pos 0 ≤ℤ o.total_requests
    pub some_rate : pos 0 ≤ℤ o.rate_per_second
    pub some_grace : o.graceful_shutdown ≢ pos 0
    pub some_factory : o.limiter_factory ≢ none
    pub some_model : (o.arrival_model == "") ≡ false
    pub some_seed : o.random_seed ≢ pos 0

  -- Every run has a worker, no negative count or rate, a grace other than 0, a limiter factory, an
  -- arrival model and a seed, whatever the caller sets; the clock does not read 0.
  pub normalize-IsNormal :
      (now : ℤ) (o : Options L) → now ≢ pos 0 → IsNormal (normalize new_limiter now o)
  unfolding normalize
  normalize-IsNormal now o h = record {
    some_worker = ground arith;
    some_total = ground arith;
    some_rate = ground arith;
    some_grace = λ e. ground arith;
    some_factory = ground arith;
    some_model = given_model o.arrival_model;
    some_seed = λ e. ground arith;
  }

  -- What is set already stays: options that a run may rely on are not changed.
  pub normalize-of_IsNormal :
      (now : ℤ) (o : Options L) → IsNormal o → normalize new_limiter now o ≡ o
  unfolding normalize
  normalize-of_IsNormal now o v = ground arith
