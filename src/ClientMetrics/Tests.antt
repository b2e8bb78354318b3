-- ===== src/ClientMetrics/Tests.antt =====
-- The counters of a client on concrete calls.
use crankfire.Prelude.{◌≡◌, List, [], ◌∷◌, arith, nat_eq, string_eq}
use crankfire.Prelude.Int.{pos}
use crankfire.ClientMetrics.{new_counters, snapshot}
use crankfire.ClientMetrics.Tally.{
  ClientCall, connects, sends, receives, errs, call_all, snapshot_lem,
}

abbrev some_calls : List ClientCall
some_calls = connects (pos 5) ∷ sends 100 ∷ receives 30 ∷ sends 7 ∷ errs ∷ []

snapshot_lem_example : (snapshot (pos 9) (call_all new_counters some_calls)).bytes_sent ≡ pos 107
snapshot_lem_example = (snapshot_lem some_calls (pos 9) (omega arith) (omega arith) (omega arith)).2
