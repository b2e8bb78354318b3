-- ===== src/ClientMetrics.antt =====
-- internal/clientmetrics/metrics.go: the counters of a protocol client. Each method runs under the lock,
-- so the calls of all goroutines form one sequence; a zero time is `none`.
use crankfire.Prelude.{Option, none, some}
use crankfire.Prelude.Int.{ℤ, pos}
use crankfire.Prelude.Int64.{add64, sub64}
pub mod Tally
mod Tests

pub record Counters : Type 0 where
  pub connect_time : Option ℤ
  pub messages_sent : ℤ
  pub messages_recv : ℤ
  pub bytes_sent : ℤ
  pub bytes_recv : ℤ
  pub errors : ℤ

pub record CountersSnapshot : Type 0 where
  pub connection_duration : ℤ
  pub messages_sent : ℤ
  pub messages_received : ℤ
  pub bytes_sent : ℤ
  pub bytes_received : ℤ
  pub errors : ℤ

pub new_counters : Counters
new_counters = record {
  connect_time = none;
  messages_sent = pos 0;
  messages_recv = pos 0;
  bytes_sent = pos 0;
  bytes_recv = pos 0;
  errors = pos 0;
}

pub mark_connected : ℤ → Counters → Counters
mark_connected now m = record m { connect_time = some now }

pub increment_sent : ℤ → Counters → Counters
increment_sent bytes m = record m {
  messages_sent = add64 m.messages_sent (pos 1);
  bytes_sent = add64 m.bytes_sent bytes;
}

pub increment_received : ℤ → Counters → Counters
increment_received bytes m = record m {
  messages_recv = add64 m.messages_recv (pos 1);
  bytes_recv = add64 m.bytes_recv bytes;
}

pub increment_errors : Counters → Counters
increment_errors m = record m { errors = add64 m.errors (pos 1) }

pub reset : Counters → Counters
reset m = record m { connect_time = none }

abbrev since : ℤ → Option ℤ → ℤ
since now none = pos 0
since now (some t) = sub64 now t

pub connection_duration : ℤ → Counters → ℤ
connection_duration now m = since now m.connect_time

pub snapshot : ℤ → Counters → CountersSnapshot
snapshot now m = record {
  connection_duration = since now m.connect_time;
  messages_sent = m.messages_sent;
  messages_received = m.messages_recv;
  bytes_sent = m.bytes_sent;
  bytes_received = m.bytes_recv;
  errors = m.errors;
}
