-- ===== src/Runner/Run/Drain.antt =====
-- How a run of `Runner.Run` comes to its end once the scheduler has stopped.
use crankfire.Prelude.{
  ℕ, zero, suc, ◌+◌, ◌*◌, ◌≤◌, ◌≡◌, refl, ◌≢◌, ◌⊎◌, inl, inr, Bool, true, false, List, ◌∷◌, arith,
  nat_eq, string_eq, text_eq, if◌then◌else◌,
}
use crankfire.Runner.Run.{
  RunConfig, finish_ok, closed, Caller, scheduling, draining, returned, RunState, Label, Step,
  Reach, next, on_cancel_parent, on_cancel_schedule, on_stop_cancelled, on_stop_total, on_admit,
  on_wait_failed, on_wait_passed, on_send, on_withdraw, on_take, on_finish_ok, on_finish_error,
  on_exit, on_begin_drain, on_grace_elapsed, on_return_result, cancel_parent, cancel_schedule,
  grace_elapsed,
}
use crankfire.Runner.Run.Invariant.{Reach-Inv}
use crankfire.Runner.Run.Progress.{is_internal, move_closed, ℕ-cases}

-- The moves that are counted: all but cancellations and timers, which may come at any time.
abbrev pub is_counted : Label → Bool
is_counted cancel_parent = false
is_counted cancel_schedule = false
is_counted grace_elapsed = false
is_counted _ = true

-- A sequence of moves with the number of those that are counted.
pub data Moves (c : RunConfig) : ℕ → RunState → RunState → Type 0 where
  stop : {s : RunState} → Moves c 0 s s
  move :
      {n : ℕ} {l : Label} {s t u : RunState}
      → Step c s t l
      → Moves c n t u
      → Moves c ((if is_counted l then 1 else 0) + n) s u

abbrev rank : Caller → ℕ
rank scheduling = 2
rank draining = 1
rank returned = 0

-- The moves that are left once the channel of permits is closed.
abbrev pub pending : RunState → ℕ
pending s = 3 * s.queue + 2 * s.busy + s.idle + rank s.caller

Step-pending :
    {c : RunConfig} {s u : RunState} {l : Label}
    → Step c s u l
    → s.phase ≡ closed
    → (u.phase ≡ closed) × ((if is_counted l then 1 else 0) + pending u ≤ pending s)
Step-pending (on_cancel_parent e) t = ground arith
Step-pending (on_cancel_schedule e) t = ground arith
Step-pending (on_stop_cancelled p d e) t = ground arith
Step-pending (on_stop_total p d i e) t = ground arith
Step-pending (on_admit p d i e) t = ground arith
Step-pending (on_wait_failed p e) t = ground arith
Step-pending (on_wait_passed p e) t = ground arith
Step-pending (on_send p m e) t = ground arith
Step-pending (on_withdraw p d e) t = ground arith
Step-pending (on_take m i h j e) t = ground arith
Step-pending (on_finish_ok n h e) t = ground arith
Step-pending (on_finish_error n r h e) t = ground arith
Step-pending (on_exit i p m h e) t = ground arith
Step-pending (on_begin_drain m p e) t = ground arith
Step-pending (on_grace_elapsed m g e) t = ground arith
Step-pending (on_return_result m x e) t = ground arith

Moves-pending :
    {c : RunConfig} {n : ℕ} {s u : RunState}
    → Moves c n s u
    → s.phase ≡ closed
    → (u.phase ≡ closed) × (n + pending u ≤ pending s)
Moves-pending stop p = (p, omega arith)
Moves-pending (move st ms) p =
    let one = Step-pending st p in
    let rest = Moves-pending ms one.0 in (rest.0, omega (arith, one.1, rest.1))

Moves-Reach :
    {c : RunConfig} {n : ℕ} {s u : RunState}
    → Moves c n s u
    → {ls : List Label} → Reach c ls s
    → (ks : List Label) × Reach c ks u
Moves-Reach stop {ls = ls} r = (ls, r)
Moves-Reach (move {l = l} st ms) {ls = ls} r = Moves-Reach ms {ls = l ∷ ls} (next r st)

counted_internal : (l : Label) → is_internal l ≡ true → is_counted l ≡ true
counted_internal cancel_parent h = ground (arith, h)
counted_internal cancel_schedule h = ground (arith, h)
counted_internal grace_elapsed h = ground (arith, h)
counted_internal l h = refl

Caller-cases : (k : Caller) → (k ≡ returned) ⊎ (k ≢ returned)
Caller-cases scheduling = inr (λ e. ground arith)
Caller-cases draining = inr (λ e. ground arith)
Caller-cases returned = inl refl

-- With the channel closed some counted move is possible until `Run` has returned.
can_count :
    {c : RunConfig} {ls : List Label} (s : RunState)
    → Reach c ls s
    → s.phase ≡ closed
    → s.caller ≢ returned
    → (l : Label) × (u : RunState) × Step c s u l × (is_counted l ≡ true)
can_count {c} s r p n = elim (ℕ-cases s.busy) [
  | inr (b, e) ↦ (
    finish_ok,
    record s { busy = b; idle = suc s.idle; finished = suc s.finished },
    on_finish_ok b e refl,
    refl,
  )
  | inl e ↦
      let m = move_closed c s (Reach-Inv r) p n e in
      (m.label, m.target, m.move, counted_internal m.label m.internal)
]

to_the_end :
    {c : RunConfig} (k : ℕ) {ls : List Label} (s : RunState)
    → pending s ≤ k
    → Reach c ls s
    → s.phase ≡ closed
    → (m : ℕ) × (v : RunState) × Moves c m s v × (v.caller ≡ returned)
to_the_end zero s h r p = elim (Caller-cases s.caller) [
  | inl e ↦ (0, s, stop, e)
  | inr n ↦
      let (l, t, st, counted) = can_count s r p n in
      let less = (Step-pending st p).1 in absurd (ground (arith, less, counted, h))
]
to_the_end (suc k) {ls} s h r p = elim (Caller-cases s.caller) [
  | inl e ↦ (0, s, stop, e)
  | inr n ↦
      let (l, t, st, counted) = can_count s r p n in
      let after = Step-pending st p in
      let less : pending t ≤ k = ground (arith, after.1, counted, h) in
      let (m, v, ms, e) = to_the_end k {ls = l ∷ ls} t less (next r st) after.0 in
      ((if is_counted l then 1 else 0) + m, v, move st ms, e)
]

-- Once the scheduler has stopped, `Run` returns after at most `pending` moves of the scheduler, the
-- workers, the requests and the caller, with any cancellations and timers in between: however many moves
-- have been made, there are more that end with `Run` having returned, and all of them together are at most
-- so many.
pub run_drains :
    {c : RunConfig} {ls : List Label} {n : ℕ} {s u : RunState}
    → Reach c ls s
    → s.phase ≡ closed
    → Moves c n s u
    → (m : ℕ) × (v : RunState) × Moves c m u v × (v.caller ≡ returned) × (n + m ≤ pending s)
run_drains {c} {s = s} {u = u} r p ms =
    let so_far = Moves-pending ms p in
    let (ks, reached) = Moves-Reach ms r in
    let (m, v, more, e) = to_the_end (pending u) {ls = ks} u (omega arith) reached so_far.0 in
    let rest = Moves-pending more so_far.0 in (m, v, more, e, omega (arith, so_far.1, rest.1))
