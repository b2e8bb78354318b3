-- ===== src/Runner/Run/Invariant.antt =====
-- The invariants of the runs of `Runner.Run`, and what `Run` returns.
use crankfire.Prelude.{
  ℕ, ◌+◌, ◌≤◌, ◌<◌, ◌≡◌, ◌≢◌, Bool, true, false, List, arith, All, nat_eq, string_eq, text_eq,
}
use crankfire.Prelude.Int.{pos, ◌≤ℤ◌, ◌<ℤ◌}
use crankfire.Runner.Run.{
  RunConfig, Phase, waiting, sending, closed, scheduling, returned, RunState, Label, start, Step,
  Reach, here, next, on_cancel_parent, on_cancel_schedule, on_stop_cancelled, on_stop_total,
  on_admit, on_wait_failed, on_wait_passed, on_send, on_withdraw, on_take, on_finish_ok,
  on_finish_error, on_exit, on_begin_drain, on_grace_elapsed, on_return_result, cancel_parent,
  cancel_schedule, wait_failed,
}

-- The permit that the scheduler holds.
abbrev pub in_hand : Phase → ℕ
in_hand sending = 1
in_hand _ = 0

-- A request that the scheduler has admitted and not counted yet.
abbrev pub admitted : Phase → ℕ
admitted waiting = 1
admitted _ = 0

pub record Inv (c : RunConfig) (s : RunState) : Type 0 where
  pub accounted : s.total ≡ s.queue + s.busy + s.finished + in_hand s.phase
  pub workers : s.idle + s.busy + s.exited ≡ c.concurrency
  pub failures : s.errs ≤ s.finished
  pub buffered : s.queue ≤ c.concurrency
  pub within : pos 0 <ℤ c.total_requests → pos (s.total + admitted s.phase) ≤ℤ c.total_requests
  pub exits : 0 < s.exited → (s.phase ≡ closed) × (s.queue ≡ 0)
  pub drains : s.caller ≢ scheduling → s.phase ≡ closed
  pub returns : s.caller ≡ returned → s.exited ≡ c.concurrency

start-Inv : (c : RunConfig) → Inv c (start c)
unfolding start
start-Inv c = ground arith

Step-Inv : {c : RunConfig} {s u : RunState} {l : Label} → Step c s u l → Inv c s → Inv c u
Step-Inv (on_cancel_parent e) v = ground arith
Step-Inv (on_cancel_schedule e) v = ground arith
Step-Inv (on_stop_cancelled p d e) v = ground arith
Step-Inv (on_stop_total p d i e) v = ground arith
Step-Inv (on_admit p d i e) v = ground arith
Step-Inv (on_wait_failed p e) v = ground arith
Step-Inv (on_wait_passed p e) v = ground arith
Step-Inv (on_send p q e) v = ground arith
Step-Inv (on_withdraw p d e) v = ground arith
Step-Inv (on_take q i h k e) v = ground arith
Step-Inv (on_finish_ok b h e) v = ground arith
Step-Inv (on_finish_error b r h e) v = ground arith
Step-Inv (on_exit i p q h e) v = ground arith
Step-Inv (on_begin_drain m p e) v = ground arith
Step-Inv (on_grace_elapsed m g e) v = ground arith
Step-Inv (on_return_result m x e) v = ground arith

pub Reach-Inv : {c : RunConfig} {ls : List Label} {s : RunState} → Reach c ls s → Inv c s
Reach-Inv {c} here = start-Inv c
Reach-Inv (next r st) = Step-Inv st (Reach-Inv r)

-- When `Run` returns, every request that was counted has been made and has returned, none is in
-- flight, the errors are among them, and a positive `TotalRequests` has not been passed. There is at
-- least one worker.
pub run_result :
    {c : RunConfig} {ls : List Label} {s : RunState}
    → 0 < c.concurrency
    → Reach c ls s
    → s.caller ≡ returned
    → (s.finished ≡ s.total)
      × (s.busy ≡ 0)
      × (s.errs ≤ s.total)
      × (pos 0 <ℤ c.total_requests → pos s.total ≤ℤ c.total_requests)
run_result h r e = let v = Reach-Inv r in ground (arith, v)

-- The moves of a run that nothing cuts short.
abbrev pub is_quiet : Label → Bool
is_quiet cancel_parent = false
is_quiet cancel_schedule = false
is_quiet wait_failed = false
is_quiet _ = true

record Quiet (c : RunConfig) (s : RunState) : Type 0 where
  open_context : s.phase ≢ closed → s.scheduler_done ≡ false
  all_issued : s.phase ≡ closed → c.total_requests ≤ℤ pos s.total

Step-Quiet :
    {c : RunConfig} {s u : RunState} {l : Label}
    → Step c s u l
    → is_quiet l ≡ true
    → Inv c s
    → Quiet c s
    → Quiet c u
Step-Quiet (on_cancel_parent e) q v k = cc
Step-Quiet (on_cancel_schedule e) q v k = cc
Step-Quiet (on_stop_cancelled p d e) q v k = ground arith
Step-Quiet (on_stop_total p d i e) q v k = ground arith
Step-Quiet (on_admit p d i e) q v k = ground arith
Step-Quiet (on_wait_failed p e) q v k = cc
Step-Quiet (on_wait_passed p e) q v k = ground arith
Step-Quiet (on_send p m e) q v k = ground arith
Step-Quiet (on_withdraw p d e) q v k = ground arith
Step-Quiet (on_take m i h j e) q v k = ground arith
Step-Quiet (on_finish_ok b h e) q v k = ground arith
Step-Quiet (on_finish_error b r h e) q v k = ground arith
Step-Quiet (on_exit i p m h e) q v k = ground arith
Step-Quiet (on_begin_drain m p e) q v k = ground arith
Step-Quiet (on_grace_elapsed m g e) q v k = ground arith
Step-Quiet (on_return_result m x e) q v k = ground arith

start-Quiet : (c : RunConfig) → Quiet c (start c)
unfolding start
start-Quiet c = ground arith

Reach-Quiet :
    {c : RunConfig} {ls : List Label} {s : RunState}
    → All (λ l. is_quiet l ≡ true) ls
    → Reach c ls s
    → Quiet c s
Reach-Quiet {c} q here = start-Quiet c
Reach-Quiet q (next r st) = Step-Quiet st q.0 (Reach-Inv r) (Reach-Quiet q.1 r)

-- A run that is not cancelled, whose duration and load pattern do not end and whose arrival control
-- does not fail, makes exactly a positive `TotalRequests` requests. There is at least one worker.
pub run_exact_total :
    (c : RunConfig) (ls : List Label) (s : RunState)
    → 0 < c.concurrency
    → pos 0 <ℤ c.total_requests
    → All (λ l. is_quiet l ≡ true) ls
    → Reach c ls s
    → s.caller ≡ returned
    → (pos s.total ≡ c.total_requests) × (pos s.finished ≡ c.total_requests)
run_exact_total c ls s h t q r e =
    let v = Reach-Inv r in
    let k = Reach-Quiet q r in let done = run_result h r e in ground (arith, v, k, done)
