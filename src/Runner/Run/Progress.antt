-- ===== src/Runner/Run/Progress.antt =====
-- The moves that a run of `Runner.Run` can still make.
use crankfire.Prelude.{
  ℕ, zero, suc, ◌-◌, ◌<◌, ◌≡◌, refl, ◌≢◌, ◌⊎◌, inl, inr, Bool, true, false, List, arith, Bool-cases,
  nat_eq, string_eq, text_eq,
}
use native.Mathlib.Decide.{dec_lt}
use crankfire.Runner.Run.{
  RunConfig, Phase, checking, waiting, sending, closed, Caller, scheduling, draining, returned,
  RunState, Label, is_issued, drained, Step, Reach, on_stop_cancelled, on_stop_total, on_admit,
  on_send, on_take, on_exit, on_begin_drain, on_return_result, cancel_parent, cancel_schedule,
  stop_cancelled, stop_total, admit, wait_passed, send, take, finish_ok, exit, begin_drain,
  return_result, grace_elapsed, wait_failed, finish_error,
}
use crankfire.Runner.Run.Invariant.{Inv, Reach-Inv}

-- The moves that come from outside: a cancellation, a timer, `arrival.Wait` that returns, a request that
-- returns.
abbrev pub is_internal : Label → Bool
is_internal cancel_parent = false
is_internal cancel_schedule = false
is_internal grace_elapsed = false
is_internal wait_failed = false
is_internal wait_passed = false
is_internal finish_ok = false
is_internal finish_error = false
is_internal _ = true

-- A move of the program that is possible, whatever the outside does.
pub record CanMove (c : RunConfig) (s : RunState) : Type 0 where
  pub label : Label
  pub target : RunState
  pub internal : is_internal label ≡ true
  pub move : Step c s target label

-- The scheduler is in `arrival.Wait`, or a worker in a request.
abbrev pub Awaits : RunState → Type 0
Awaits s = (s.phase ≡ waiting) ⊎ (0 < s.busy)

move_checking : (c : RunConfig) (s : RunState) → s.phase ≡ checking → CanMove c s
move_checking c s p = elim (Bool-cases s.scheduler_done) [
  | inl d ↦ record {
    label = stop_cancelled;
    target = record s { phase = closed };
    internal = refl;
    move = on_stop_cancelled p d refl;
  }
  | inr d ↦ elim (Bool-cases (is_issued c s.total)) [
    | inl i ↦ record {
      label = stop_total;
      target = record s { phase = closed };
      internal = refl;
      move = on_stop_total p d i refl;
    }
    | inr i ↦ record {
      label = admit;
      target = record s { phase = waiting };
      internal = refl;
      move = on_admit p d i refl;
    }
  ]
]

pub ℕ-cases : (n : ℕ) → (n ≡ 0) ⊎ ((m : ℕ) × (n ≡ suc m))
ℕ-cases zero = inl refl
ℕ-cases (suc m) = inr (m, refl)

take_one : (c : RunConfig) (s : RunState) (q i : ℕ) → s.queue ≡ suc q → s.idle ≡ suc i → CanMove c s
take_one c s q i h k = record {
  label = take;
  target = record s { queue = q; idle = i; busy = suc s.busy };
  internal = refl;
  move = on_take q i h k refl;
}

send_one :
    (c : RunConfig) (s : RunState) → s.phase ≡ sending → s.queue < c.concurrency → CanMove c s
send_one c s p h = record {
  label = send;
  target = record s { phase = checking; queue = suc s.queue };
  internal = refl;
  move = on_send p h refl;
}

-- With a permit in hand and no request running: the channel has room, or a worker takes a permit.
move_sending :
    (c : RunConfig) (s : RunState)
    → 0 < c.concurrency
    → Inv c s
    → s.phase ≡ sending
    → s.busy ≡ 0
    → CanMove c s
move_sending c s h v p b = elim (dec_lt s.queue c.concurrency) [
  | yes room ↦ send_one c s p room
  | no full ↦ elim (ℕ-cases s.idle) [
    | inl i ↦ absurd (stuck i)
    | inr (i, k) ↦ take_one c s (s.queue - 1) i (omega (arith, v)) k
  ]
]
  where
    stuck : s.idle ≡ 0 → ⊥
    stuck i = ground (arith, v)

-- With the workers gone the caller goes on.
move_caller :
    (c : RunConfig) (s : RunState) (k : Caller)
    → s.caller ≡ k
    → s.phase ≡ closed
    → s.exited ≡ c.concurrency
    → k ≢ returned
    → CanMove c s
move_caller c s scheduling e p x n = record {
  label = begin_drain;
  target = drained c s;
  internal = refl;
  move = on_begin_drain e p refl;
}
move_caller c s draining e p x n = record {
  label = return_result;
  target = record s { caller = returned };
  internal = refl;
  move = on_return_result e x refl;
}
move_caller c s returned e p x n = absurd (n refl)

-- With the channel closed and no request running: the caller goes on, or a worker can.
pub move_closed :
    (c : RunConfig) (s : RunState)
    → Inv c s
    → s.phase ≡ closed
    → s.caller ≢ returned
    → s.busy ≡ 0
    → CanMove c s
move_closed c s v p n b = elim (ℕ-cases s.idle) [
  | inl i ↦ move_caller c s s.caller refl p (omega (arith, v)) n
  | inr (i, k) ↦ elim (ℕ-cases s.queue) [
    | inr (q, m) ↦ take_one c s q i m k
    | inl m ↦ record {
      label = exit;
      target = record s { idle = i; exited = suc s.exited };
      internal = refl;
      move = on_exit i p m k refl;
    }
  ]
]

move_phase :
    (c : RunConfig) (s : RunState) (p : Phase)
    → 0 < c.concurrency
    → Inv c s
    → s.caller ≢ returned
    → s.busy ≡ 0
    → s.phase ≡ p
    → Awaits s ⊎ CanMove c s
move_phase c s checking h v n b e = inr (move_checking c s e)
move_phase c s waiting h v n b e = inl (inl e)
move_phase c s sending h v n b e = inr (move_sending c s h v e b)
move_phase c s closed h v n b e = inr (move_closed c s v e n b)

-- A run never gets stuck by itself: until `Run` has returned, the scheduler is in `arrival.Wait`, or a
-- request is running, or the scheduler, a worker or the caller can make a move that waits for nothing
-- outside. There is at least one worker.
pub run_progress :
    {c : RunConfig} {ls : List Label} {s : RunState}
    → 0 < c.concurrency
    → Reach c ls s
    → s.caller ≢ returned
    → Awaits s ⊎ CanMove c s
run_progress {c} {s = s} h r n = elim (ℕ-cases s.busy) [
  | inl b ↦ move_phase c s s.phase h (Reach-Inv r) n b refl
  | inr (b, e) ↦ inl (inr (omega arith))
]
