-- ===== src/Runner/Run/Tests.antt =====
-- A run of one request with one worker.
use crankfire.Prelude.{
  ℕ, ◌≤◌, ◌≡◌, refl, ◌≢◌, ◌⊎◌, true, false, List, [], ◌∷◌, ◌+◌, arith, nat_eq, string_eq, text_eq,
}
use crankfire.Prelude.Int.{pos, ◌≤ℤ◌, ◌<ℤ◌}
use crankfire.Runner.Run.{
  RunConfig, RunState, Phase, Caller, Label, checking, waiting, sending, closed, scheduling,
  draining, returned, admit, wait_passed, send, take, finish_ok, stop_total, exit, begin_drain,
  return_result, start, on_admit, on_wait_passed, on_send, on_take, on_finish_ok, on_stop_total,
  on_exit, on_begin_drain, on_return_result, Reach, next,
}
use crankfire.Runner.Run.Invariant.{run_result, run_exact_total}
use crankfire.Runner.Run.Cancels.{run_cancels, has_cancel}
use crankfire.Runner.Run.Progress.{Awaits, CanMove, run_progress}
use crankfire.Runner.Run.Drain.{Moves, run_drains, pending}

abbrev one_request : RunConfig
one_request = record {
  concurrency = 1;
  total_requests = pos 1;
  graceful_shutdown = pos 5;
  has_requester = true;
}

abbrev at : Phase → Caller → ℕ → ℕ → ℕ → ℕ → ℕ → ℕ → RunState
at phase caller total queue idle busy exited finished = record {
  phase = phase;
  caller = caller;
  total = total;
  errs = 0;
  queue = queue;
  idle = idle;
  busy = busy;
  exited = exited;
  finished = finished;
  scheduler_done = false;
  run_done = false;
}

abbrev first_moves : List Label
first_moves = finish_ok ∷ take ∷ send ∷ wait_passed ∷ admit ∷ []

one_request_finished : Reach one_request first_moves (at checking scheduling 1 0 1 0 0 1)
unfolding start
one_request_finished =
    let r0 : Reach one_request [] (at checking scheduling 0 0 1 0 0 0) = Reach.here in
    let r1 : Reach one_request (admit ∷ []) (at waiting scheduling 0 0 1 0 0 0) =
      next r0 (on_admit refl refl refl refl) in
    let r2 : Reach one_request (wait_passed ∷ admit ∷ []) (at sending scheduling 1 0 1 0 0 0) =
      next r1 (on_wait_passed refl refl) in
    let r3 : Reach one_request (send ∷ wait_passed ∷ admit ∷ [])
        (at checking scheduling 1 1 1 0 0 0) =
      next r2 (on_send refl (omega arith) refl) in
    let r4 : Reach one_request (take ∷ send ∷ wait_passed ∷ admit ∷ [])
        (at checking scheduling 1 0 0 1 0 0) =
      next r3 (on_take 0 0 refl refl refl) in
    next r4 (on_finish_ok 0 refl refl)

abbrev all_moves : List Label
all_moves = return_result ∷ begin_drain ∷ exit ∷ stop_total ∷ first_moves

one_request_returned : Reach one_request all_moves (at closed returned 1 0 0 0 1 1)
one_request_returned =
    let r0 : Reach one_request (stop_total ∷ first_moves) (at closed scheduling 1 0 1 0 0 1) =
      next one_request_finished (on_stop_total refl refl refl refl) in
    let r1 : Reach one_request (exit ∷ stop_total ∷ first_moves)
        (at closed scheduling 1 0 0 0 1 1) =
      next r0 (on_exit 0 refl refl refl refl) in
    let r2 : Reach one_request (begin_drain ∷ exit ∷ stop_total ∷ first_moves)
        (at closed draining 1 0 0 0 1 1) =
      next r1 (on_begin_drain refl refl refl) in
    next r2 (on_return_result refl refl refl)

run_result_example :
    let s = at closed returned 1 0 0 0 1 1 in
    (s.finished ≡ s.total)
    × (s.busy ≡ 0)
    × (s.errs ≤ s.total)
    × (pos 0 <ℤ pos 1 → pos s.total ≤ℤ pos 1)
run_result_example = run_result (omega arith) one_request_returned refl

run_exact_total_example : (pos 1 ≡ pos 1) × (pos 1 ≡ pos 1)
run_exact_total_example =
    run_exact_total one_request all_moves (at closed returned 1 0 0 0 1 1) (omega arith)
      (omega arith) (ground arith) one_request_returned refl

run_cancels_example :
    (false ≡ true → (has_cancel all_moves ≡ true) ⊎ (closed ≡ closed))
    × (false ≡ true → returned ≢ scheduling → false ≡ true)
    × (false ≡ true → false ≡ true)
run_cancels_example = run_cancels one_request_returned

run_progress_example :
    let s = at checking scheduling 1 0 1 0 0 1 in Awaits s ⊎ CanMove one_request s
run_progress_example = run_progress (omega arith) one_request_finished (λ e. ground arith)

one_request_stopped :
    Reach one_request (stop_total ∷ first_moves) (at closed scheduling 1 0 1 0 0 1)
one_request_stopped = next one_request_finished (on_stop_total refl refl refl refl)

run_drains_example :
    (m : ℕ) × (v : RunState) × Moves one_request m (at closed draining 1 0 1 0 0 1) v
    × (v.caller ≡ returned)
    × (1 + m ≤ pending (at closed scheduling 1 0 1 0 0 1))
run_drains_example =
    run_drains one_request_stopped refl (Moves.move (on_begin_drain refl refl refl) Moves.stop)
