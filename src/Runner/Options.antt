-- ===== src/Runner/Options.antt =====
-- internal/runner/options.go: the options of a run and their defaults. The rate limiter is a library's:
-- `new_limiter` takes the limit, `none` for no limit, and the burst.
pub mod Defaults
use crankfire.Prelude.{
  ℕ, ◌*◌, String, Option, none, some, List, if◌then◌else◌, ◌==◌, nat_eq, string_eq, text_eq,
}
use crankfire.Prelude.Int.{ℤ, pos, ltb_ℤ, leb_ℤ, beq_ℤ}
use crankfire.Runner.Pattern.{LoadPattern}

abbrev pub arrival_model_uniform : String
arrival_model_uniform = "uniform"

abbrev pub arrival_model_poisson : String
arrival_model_poisson = "poisson"

-- Nil functions are `none`; the requester and the sampler are left to the modules that run them.
pub record Options (L : Type 0) : Type 0 where
  pub concurrency : ℤ
  pub total_requests : ℤ
  pub duration : ℤ
  pub rate_per_second : ℤ
  pub graceful_shutdown : ℤ
  pub limiter_factory : Option (ℤ → L)
  pub load_patterns : List LoadPattern
  pub arrival_model : String
  pub random_seed : ℤ

abbrev pub second : ℕ
second = 1_000_000_000

module _ {L : Type 0} (new_limiter : Option ℤ → ℤ → L) where
  pub default_factory : ℤ → L
  default_factory rps =
      if leb_ℤ rps (pos 0) then new_limiter none (pos 0) else new_limiter (some rps) rps

  -- Each assignment reads and writes one field. `now` is the clock's time in nanoseconds.
  pub normalize : ℤ → Options L → Options L
  normalize now o = record {
    concurrency = if leb_ℤ o.concurrency (pos 0) then pos 1 else o.concurrency;
    total_requests = if ltb_ℤ o.total_requests (pos 0) then pos 0 else o.total_requests;
    duration = o.duration;
    rate_per_second = if ltb_ℤ o.rate_per_second (pos 0) then pos 0 else o.rate_per_second;
    graceful_shutdown =
        if beq_ℤ o.graceful_shutdown (pos 0) then pos (5 * second) else o.graceful_shutdown;
    limiter_factory = elim o.limiter_factory [ none ↦ some default_factory | some f ↦ some f ];
    load_patterns = o.load_patterns;
    arrival_model = if o.arrival_model == "" then arrival_model_uniform else o.arrival_model;
    random_seed = if beq_ℤ o.random_seed (pos 0) then now else o.random_seed;
  }
