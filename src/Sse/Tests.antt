-- ===== src/Sse/Tests.antt =====
-- An event read from a concrete stream.
use crankfire.Prelude.{◌≡◌, refl, true, false, List, [], ◌∷◌, ◌++◌, arith, nat_eq, string_eq}
use crankfire.Prelude.Int.{pos, ◌+ℤ◌}
use crankfire.Prelude.Int64.{wrap64, add64}
use crankfire.Prelude.{Text, text_eq}
use crankfire.Sse.{got, new_client, read_event, lines_of, join_lines}
use crankfire.Sse.Lines.{event_text, receive_all}
use crankfire.Sse.Events.{reads_from, read_event-event_text}

-- The id 7, no name, and the data `a`, then `b`.
abbrev two_lines : List Text
two_lines = (97 ∷ []) ∷ (98 ∷ []) ∷ []

read_event-event_text_example :
    let turn =
      read_event
        (λ i. false)
        (reads_from (event_text (55 ∷ []) [] two_lines ++ (100 ∷ [])) true new_client) in
    (turn.0 ≡ got (record { id = 55 ∷ []; event = []; event_data = 97 ∷ 10 ∷ 98 ∷ [] }))
    × (turn.1 ≡ record (reads_from (100 ∷ []) true new_client) {
      events_recv = pos 1;
      metrics = receive_all (lines_of (event_text (55 ∷ []) [] two_lines)) new_client.metrics;
    })
unfolding new_client add64 join_lines wrap64 ◌+ℤ◌
read_event-event_text_example =
    read_event-event_text (55 ∷ []) [] two_lines (100 ∷ []) true new_client (ground arith) tt
      (ground arith) refl
