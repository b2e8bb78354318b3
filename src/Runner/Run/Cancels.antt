-- ===== src/Runner/Run/Cancels.antt =====
-- When the contexts of a run end.
use crankfire.Prelude.{
  ◌≡◌, ◌≢◌, ◌⊎◌, Bool, true, false, ◌||◌, List, [], ◌∷◌, arith, nat_eq, string_eq, text_eq,
}
use crankfire.Prelude.Int.{pos, ltb_ℤ}
use crankfire.Runner.Run.{
  RunConfig, closed, scheduling, RunState, Label, start, Step, Reach, here, next, on_cancel_parent,
  on_cancel_schedule, on_stop_cancelled, on_stop_total, on_admit, on_wait_failed, on_wait_passed,
  on_send, on_withdraw, on_take, on_finish_ok, on_finish_error, on_exit, on_begin_drain,
  on_grace_elapsed, on_return_result, cancel_parent,
}
use crankfire.Runner.Run.Invariant.{Inv, Reach-Inv}

abbrev pub is_cancel : Label → Bool
is_cancel cancel_parent = true
is_cancel _ = false

abbrev pub has_cancel : List Label → Bool
has_cancel [] = false
has_cancel (l ∷ ls) = is_cancel l || has_cancel ls

-- The contexts of a run: when the requests' context has ended, so has the scheduler's, and either
-- the parent context was cancelled or the scheduler has stopped issuing requests.
record Cancels (c : RunConfig) (cancelled : Bool) (s : RunState) : Type 0 where
  child : s.run_done ≡ true → s.scheduler_done ≡ true
  cause : s.run_done ≡ true → (cancelled ≡ true) ⊎ (s.phase ≡ closed)
  hurry : ltb_ℤ c.graceful_shutdown (pos 0) ≡ true → s.caller ≢ scheduling → s.run_done ≡ true

Step-Cancels :
    {c : RunConfig} {s u : RunState} {l : Label} (b : Bool)
    → Step c s u l
    → Inv c s
    → Cancels c b s
    → Cancels c (is_cancel l || b) u
Step-Cancels b (on_cancel_parent e) v k = ground arith
Step-Cancels b (on_cancel_schedule e) v k = ground arith
Step-Cancels b (on_stop_cancelled p d e) v k = ground arith
Step-Cancels b (on_stop_total p d i e) v k = ground arith
Step-Cancels b (on_admit p d i e) v k = ground arith
Step-Cancels b (on_wait_failed p e) v k = ground arith
Step-Cancels b (on_wait_passed p e) v k = ground arith
Step-Cancels b (on_send p m e) v k = ground arith
Step-Cancels b (on_withdraw p d e) v k = ground arith
Step-Cancels b (on_take m i h j e) v k = ground arith
Step-Cancels b (on_finish_ok n h e) v k = ground arith
Step-Cancels b (on_finish_error n r h e) v k = ground arith
Step-Cancels b (on_exit i p m h e) v k = ground arith
Step-Cancels b (on_begin_drain m p e) v k = ground arith
Step-Cancels b (on_grace_elapsed m g e) v k = ground arith
Step-Cancels b (on_return_result m x e) v k = ground arith

start-Cancels : (c : RunConfig) → Cancels c false (start c)
unfolding start
start-Cancels c = ground arith

Reach-Cancels :
    {c : RunConfig} {ls : List Label} {s : RunState} → Reach c ls s → Cancels c (has_cancel ls) s
Reach-Cancels {c} here = start-Cancels c
Reach-Cancels (next {ls} r st) = Step-Cancels (has_cancel ls) st (Reach-Inv r) (Reach-Cancels r)

-- Requests in flight lose their context only after the parent context was cancelled or once the
-- scheduler has stopped issuing; where `GracefulShutdown` is negative they have lost it when the
-- caller waits for the workers; and a scheduler never outlives the context of the requests.
pub run_cancels :
    {c : RunConfig} {ls : List Label} {s : RunState}
    → Reach c ls s
    → (s.run_done ≡ true → (has_cancel ls ≡ true) ⊎ (s.phase ≡ closed))
      × (ltb_ℤ c.graceful_shutdown (pos 0) ≡ true → s.caller ≢ scheduling → s.run_done ≡ true)
      × (s.run_done ≡ true → s.scheduler_done ≡ true)
run_cancels r = let k = Reach-Cancels r in (k.cause, k.hurry, k.child)
