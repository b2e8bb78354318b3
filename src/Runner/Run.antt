-- ===== src/Runner/Run.antt =====
-- internal/runner/runner.go: `Runner.Run` as a step relation. One scheduler goroutine, the workers and
-- the goroutine that called `Run` take turns in any order; contexts and timers are moves of the
-- outside, and so are the return of `arrival.Wait` and of a request, which may block. The counters are
-- read and written atomically, and stay below 2^63, so they are kept as numbers without a bound.
pub mod Invariant
pub mod Cancels
pub mod Progress
pub mod Drain
mod Tests
use crankfire.Prelude.{ℕ, suc, ◌-◌, ◌<◌, ◌≡◌, Bool, true, false, ◌&&◌, List, [], ◌∷◌, if◌then◌else◌}
use crankfire.Prelude.Int.{ℤ, pos, ltb_ℤ, leb_ℤ}

pub record RunConfig : Type 0 where
  pub concurrency : ℕ
  pub total_requests : ℤ
  pub graceful_shutdown : ℤ
  pub has_requester : Bool

-- Where the scheduler's loop stands: at its head, in `arrival.Wait`, at the `select` with a permit in
-- hand, or returned, with the channel of permits closed.
pub data Phase : Type 0 where
  checking waiting sending closed : Phase

-- The caller waits for the scheduler, then for the workers, and then returns.
pub data Caller : Type 0 where
  scheduling draining returned : Caller

pub record RunState : Type 0 where
  pub phase : Phase
  pub caller : Caller
  pub total : ℕ
  pub errs : ℕ
  -- Permits in the channel's buffer.
  pub queue : ℕ
  -- Workers at `range permits`, in a request, and gone.
  pub idle : ℕ
  pub busy : ℕ
  pub exited : ℕ
  -- Requests that have returned; without a requester, permits that were taken and given up.
  pub finished : ℕ
  -- Whether schedulerCtx and runCtx have ended.
  pub scheduler_done : Bool
  pub run_done : Bool

pub data Label : Type 0 where
  cancel_parent cancel_schedule stop_cancelled stop_total admit wait_failed wait_passed send : Label
  withdraw take finish_ok finish_error exit begin_drain grace_elapsed return_result : Label

pub start : RunConfig → RunState
start c = record {
  phase = checking;
  caller = scheduling;
  total = 0;
  errs = 0;
  queue = 0;
  idle = c.concurrency;
  busy = 0;
  exited = 0;
  finished = 0;
  scheduler_done = false;
  run_done = false;
}

-- The scheduler's test that all requests have been issued.
abbrev pub is_issued : RunConfig → ℕ → Bool
is_issued c total = ltb_ℤ (pos 0) c.total_requests && leb_ℤ c.total_requests (pos total)

-- A negative grace cancels the requests in flight at once.
abbrev drained : RunConfig → RunState → RunState
drained c s =
    if ltb_ℤ c.graceful_shutdown (pos 0)
    then record s { caller = draining; run_done = true; scheduler_done = true }
    else record s { caller = draining }

-- The guard and the effect of each move.
pub data Step (c : RunConfig) (s u : RunState) : Label → Type 0 where
  -- The parent context is cancelled, and with it both contexts.
  on_cancel_parent :
      u ≡ record s { scheduler_done = true; run_done = true } → Step c s u cancel_parent
  -- The duration or the load pattern has ended.
  on_cancel_schedule : u ≡ record s { scheduler_done = true } → Step c s u cancel_schedule
  on_stop_cancelled :
      s.phase ≡ checking
      → s.scheduler_done ≡ true
      → u ≡ record s { phase = closed }
      → Step c s u stop_cancelled
  on_stop_total :
      s.phase ≡ checking
      → s.scheduler_done ≡ false
      → is_issued c s.total ≡ true
      → u ≡ record s { phase = closed }
      → Step c s u stop_total
  on_admit :
      s.phase ≡ checking
      → s.scheduler_done ≡ false
      → is_issued c s.total ≡ false
      → u ≡ record s { phase = waiting }
      → Step c s u admit
  -- `arrival.Wait` returns an error, or lets the request pass.
  on_wait_failed : s.phase ≡ waiting → u ≡ record s { phase = closed } → Step c s u wait_failed
  on_wait_passed :
      s.phase ≡ waiting
      → u ≡ record s { phase = sending; total = suc s.total }
      → Step c s u wait_passed
  on_send :
      s.phase ≡ sending
      → s.queue < c.concurrency
      → u ≡ record s { phase = checking; queue = suc s.queue }
      → Step c s u send
  on_withdraw :
      s.phase ≡ sending
      → s.scheduler_done ≡ true
      → u ≡ record s { phase = closed; total = s.total - 1 }
      → Step c s u withdraw
  -- A worker receives a permit, and its request returns.
  on_take :
      (q i : ℕ)
      → s.queue ≡ suc q
      → s.idle ≡ suc i
      → u ≡ record s { queue = q; idle = i; busy = suc s.busy }
      → Step c s u take
  on_finish_ok :
      (b : ℕ)
      → s.busy ≡ suc b
      → u ≡ record s { busy = b; idle = suc s.idle; finished = suc s.finished }
      → Step c s u finish_ok
  on_finish_error :
      (b : ℕ)
      → c.has_requester ≡ true
      → s.busy ≡ suc b
      → u ≡ record s { busy = b; idle = suc s.idle; finished = suc s.finished; errs = suc s.errs }
      → Step c s u finish_error
  -- The channel is closed and empty: the worker's `range` ends.
  on_exit :
      (i : ℕ)
      → s.phase ≡ closed
      → s.queue ≡ 0
      → s.idle ≡ suc i
      → u ≡ record s { idle = i; exited = suc s.exited }
      → Step c s u exit
  on_begin_drain :
      s.caller ≡ scheduling → s.phase ≡ closed → u ≡ drained c s → Step c s u begin_drain
  on_grace_elapsed :
      s.caller ≡ draining
      → ltb_ℤ c.graceful_shutdown (pos 0) ≡ false
      → u ≡ record s { run_done = true; scheduler_done = true }
      → Step c s u grace_elapsed
  on_return_result :
      s.caller ≡ draining
      → s.exited ≡ c.concurrency
      → u ≡ record s { caller = returned }
      → Step c s u return_result

-- A run, with the moves made so far, the last one first.
pub data Reach (c : RunConfig) : List Label → RunState → Type 0 where
  here : Reach c [] (start c)
  next :
      {ls : List Label} {l : Label} {s u : RunState}
      → Reach c ls s
      → Step c s u l
      → Reach c (l ∷ ls) u
