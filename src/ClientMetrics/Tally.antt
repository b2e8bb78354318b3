-- ===== src/ClientMetrics/Tally.antt =====
-- The counters after a sequence of calls, against counts of the calls.
use crankfire.Prelude.{
  ℕ, ◌+◌, ◌^◌, ◌≤◌, ◌<◌, ◌≡◌, refl, ap, ◌∙◌, Option, none, some, List, [], ◌∷◌, arith, length,
  nat_eq, string_eq,
}
use crankfire.Prelude.Int.{ℤ, pos}
use crankfire.Prelude.Int64.{add64, add64-pos}
use crankfire.ClientMetrics.{
  Counters, new_counters, mark_connected, increment_sent, increment_received, increment_errors,
  reset, since, snapshot,
}

pub data ClientCall : Type 0 where
  connects : ℤ → ClientCall
  sends receives : ℕ → ClientCall
  errs disconnects : ClientCall

abbrev call_once : Counters → ClientCall → Counters
call_once m (connects now) = mark_connected now m
call_once m (sends bytes) = increment_sent (pos bytes) m
call_once m (receives bytes) = increment_received (pos bytes) m
call_once m errs = increment_errors m
call_once m disconnects = reset m

pub call_all : Counters → List ClientCall → Counters
call_all m [] = m
call_all m (c ∷ cs) = call_all (call_once m c) cs

abbrev pub sent_of : ClientCall → ℕ × ℕ
sent_of (sends bytes) = (1, bytes)
sent_of _ = (0, 0)

abbrev pub received_of : ClientCall → ℕ × ℕ
received_of (receives bytes) = (1, bytes)
received_of _ = (0, 0)

abbrev pub errors_of : ClientCall → ℕ
errors_of errs = 1
errors_of _ = 0

-- The sum of a measure over the calls.
abbrev pub sum_of : (ClientCall → ℕ) → List ClientCall → ℕ
sum_of f [] = 0
sum_of f (c ∷ cs) = f c + sum_of f cs

-- When the client connected, unless it has disconnected since.
abbrev connected_after : Option ℤ → ClientCall → Option ℤ
connected_after t (connects now) = some now
connected_after t disconnects = none
connected_after t _ = t

abbrev pub connected : Option ℤ → List ClientCall → Option ℤ
connected t [] = t
connected t (c ∷ cs) = connected (connected_after t c) cs

-- The counters hold these values, and a sequence of calls does not take them past the limit.
record Holds (m : Counters) (s r bs br e : ℕ) (t : Option ℤ) : Type 0 where
  sent : m.messages_sent ≡ pos s
  recv : m.messages_recv ≡ pos r
  bytes_out : m.bytes_sent ≡ pos bs
  bytes_in : m.bytes_recv ≡ pos br
  errs_seen : m.errors ≡ pos e
  time : m.connect_time ≡ t

call_once-Holds :
    (m : Counters) (c : ClientCall) (s r bs br e : ℕ) (t : Option ℤ)
    → s + 1 < 2 ^ 63
    → r + 1 < 2 ^ 63
    → e + 1 < 2 ^ 63
    → bs + (sent_of c).1 < 2 ^ 63
    → br + (received_of c).1 < 2 ^ 63
    → Holds m s r bs br e t
    → Holds
        (call_once m c)
        (s + (sent_of c).0)
        (r + (received_of c).0)
        (bs + (sent_of c).1)
        (br + (received_of c).1)
        (e + errors_of c)
        (connected_after t c)
unfolding mark_connected increment_sent increment_received increment_errors reset
call_once-Holds m (connects now) s r bs br e t a b d x y v = record {
  sent = v.sent ∙ ap pos (omega arith);
  recv = v.recv ∙ ap pos (omega arith);
  bytes_out = v.bytes_out ∙ ap pos (omega arith);
  bytes_in = v.bytes_in ∙ ap pos (omega arith);
  errs_seen = v.errs_seen ∙ ap pos (omega arith);
  time = refl;
}
call_once-Holds m (sends bytes) s r bs br e t a b d x y v = record {
  sent = ap (λ (i : ℤ). add64 i (pos 1)) v.sent ∙ add64-pos s 1 (omega arith);
  recv = v.recv ∙ ap pos (omega arith);
  bytes_out = ap (λ (i : ℤ). add64 i (pos bytes)) v.bytes_out ∙ add64-pos bs bytes (omega arith);
  bytes_in = v.bytes_in ∙ ap pos (omega arith);
  errs_seen = v.errs_seen ∙ ap pos (omega arith);
  time = v.time;
}
call_once-Holds m (receives bytes) s r bs br e t a b d x y v = record {
  sent = v.sent ∙ ap pos (omega arith);
  recv = ap (λ (i : ℤ). add64 i (pos 1)) v.recv ∙ add64-pos r 1 (omega arith);
  bytes_out = v.bytes_out ∙ ap pos (omega arith);
  bytes_in = ap (λ (i : ℤ). add64 i (pos bytes)) v.bytes_in ∙ add64-pos br bytes (omega arith);
  errs_seen = v.errs_seen ∙ ap pos (omega arith);
  time = v.time;
}
call_once-Holds m errs s r bs br e t a b d x y v = record {
  sent = v.sent ∙ ap pos (omega arith);
  recv = v.recv ∙ ap pos (omega arith);
  bytes_out = v.bytes_out ∙ ap pos (omega arith);
  bytes_in = v.bytes_in ∙ ap pos (omega arith);
  errs_seen = ap (λ (i : ℤ). add64 i (pos 1)) v.errs_seen ∙ add64-pos e 1 (omega arith);
  time = v.time;
}
call_once-Holds m disconnects s r bs br e t a b d x y v = record {
  sent = v.sent ∙ ap pos (omega arith);
  recv = v.recv ∙ ap pos (omega arith);
  bytes_out = v.bytes_out ∙ ap pos (omega arith);
  bytes_in = v.bytes_in ∙ ap pos (omega arith);
  errs_seen = v.errs_seen ∙ ap pos (omega arith);
  time = refl;
}

at_most_one : (c : ClientCall) → ((sent_of c).0 ≤ 1) × ((received_of c).0 ≤ 1) × (errors_of c ≤ 1)
at_most_one (connects now) = (omega arith, omega arith, omega arith)
at_most_one (sends bytes) = (omega arith, omega arith, omega arith)
at_most_one (receives bytes) = (omega arith, omega arith, omega arith)
at_most_one errs = (omega arith, omega arith, omega arith)
at_most_one disconnects = (omega arith, omega arith, omega arith)

call_all-Holds :
    (m : Counters) (cs : List ClientCall) (s r bs br e : ℕ) (t : Option ℤ)
    → s + length cs < 2 ^ 63
    → r + length cs < 2 ^ 63
    → e + length cs < 2 ^ 63
    → bs + sum_of (λ c. (sent_of c).1) cs < 2 ^ 63
    → br + sum_of (λ c. (received_of c).1) cs < 2 ^ 63
    → Holds m s r bs br e t
    → Holds
        (call_all m cs)
        (s + sum_of (λ c. (sent_of c).0) cs)
        (r + sum_of (λ c. (received_of c).0) cs)
        (bs + sum_of (λ c. (sent_of c).1) cs)
        (br + sum_of (λ c. (received_of c).1) cs)
        (e + sum_of errors_of cs)
        (connected t cs)
unfolding call_all
call_all-Holds m [] s r bs br e t a b d x y v = record {
  sent = v.sent ∙ ap pos (omega arith);
  recv = v.recv ∙ ap pos (omega arith);
  bytes_out = v.bytes_out ∙ ap pos (omega arith);
  bytes_in = v.bytes_in ∙ ap pos (omega arith);
  errs_seen = v.errs_seen ∙ ap pos (omega arith);
  time = v.time;
}
call_all-Holds m (c ∷ cs) s r bs br e t a b d x y v =
    let w =
      call_once-Holds m c s r bs br e t (omega arith) (omega arith) (omega arith) (omega arith)
        (omega arith) v in
    let one_sent = at_most_one c in
    let k =
      call_all-Holds (call_once m c) cs (s + (sent_of c).0) (r + (received_of c).0)
        (bs + (sent_of c).1) (br + (received_of c).1) (e + errors_of c) (connected_after t c)
        (omega (arith, one_sent.0)) (omega (arith, one_sent.1)) (omega (arith, one_sent.2))
        (omega arith) (omega arith) w in
    record {
      sent = k.sent ∙ ap pos (omega arith);
      recv = k.recv ∙ ap pos (omega arith);
      bytes_out = k.bytes_out ∙ ap pos (omega arith);
      bytes_in = k.bytes_in ∙ ap pos (omega arith);
      errs_seen = k.errs_seen ∙ ap pos (omega arith);
      time = k.time;
    }

-- After any sequence of calls, from whichever goroutines, a snapshot has the number of messages and of
-- bytes sent and received and of errors among the calls, and the time since the last connect, or 0 where
-- the client was not connected or was reset since. The calls and the bytes stay below 2^63.
pub snapshot_lem :
    (cs : List ClientCall) (now : ℤ)
    → length cs < 2 ^ 63
    → sum_of (λ c. (sent_of c).1) cs < 2 ^ 63
    → sum_of (λ c. (received_of c).1) cs < 2 ^ 63
    → let shot = snapshot now (call_all new_counters cs) in
      (shot.messages_sent ≡ pos (sum_of (λ c. (sent_of c).0) cs))
      × (shot.messages_received ≡ pos (sum_of (λ c. (received_of c).0) cs))
      × (shot.bytes_sent ≡ pos (sum_of (λ c. (sent_of c).1) cs))
      × (shot.bytes_received ≡ pos (sum_of (λ c. (received_of c).1) cs))
      × (shot.errors ≡ pos (sum_of errors_of cs))
      × (shot.connection_duration ≡ since now (connected none cs))
unfolding snapshot new_counters
snapshot_lem cs now l x y =
    let start : Holds new_counters 0 0 0 0 0 none = record {
      sent = refl;
      recv = refl;
      bytes_out = refl;
      bytes_in = refl;
      errs_seen = refl;
      time = refl;
    } in
    let k =
      call_all-Holds new_counters cs 0 0 0 0 0 none (omega arith) (omega arith) (omega arith)
        (omega arith) (omega arith) start in
    (
      k.sent ∙ ap pos (omega arith),
      k.recv ∙ ap pos (omega arith),
      k.bytes_out ∙ ap pos (omega arith),
      k.bytes_in ∙ ap pos (omega arith),
      k.errs_seen ∙ ap pos (omega arith),
      ap (since now) k.time,
    )
