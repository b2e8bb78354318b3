-- ===== src/Sse/Events.antt =====
-- An event that is written as lines is read back.
use crankfire.Prelude.{
  ℕ, suc, ◌≡◌, refl, sym, ap, ◌∙◌, subst, Bool, true, false, some, List, [], ◌∷◌, ◌++◌, arith,
  length, All, nat_eq, string_eq,
}
use crankfire.Prelude.Int.{pos}
use crankfire.Prelude.Int64.{add64}
use mathlib.Core.List.{append_assoc, append-nil}
use crankfire.Prelude.{Text, text_eq, text_beq}
use crankfire.ClientMetrics.{Counters, increment_received}
use crankfire.Sse.{
  Client, Partial, ReadResult, got, no_event, lines_of, lines_from, trim_right, set_field,
  parse_line, join_lines, is_event, event_of, read_lines, read_event, counted, id_field,
  event_field, data_field,
}
use crankfire.Sse.Lines.{
  field_line, data_text, named, event_text, IsLine, lines_from-line, trim_right-line, receive_all,
  IsField, parse_line-field, field_line-IsLine,
}

-- Reading, where the context does not end, goes from one point to another.
module _ (is_eof : Bool) where
  abbrev reading : ℕ → Partial → List Text → Counters → ReadResult × List Text × Counters
  reading n p ls m = read_lines (λ i. false) is_eof n p ls m

  read_lines-line :
      (l : Text) (ls : List Text) (b : ℕ) (bs : Text) (n : ℕ) (p : Partial) (m : Counters)
      → trim_right l ≡ b ∷ bs
      → reading n p (l ∷ ls) m
        ≡ reading (suc n) (parse_line (b ∷ bs) p) ls (increment_received (pos (length l)) m)
  unfolding read_lines text_beq
  read_lines-line l ls b bs n p m e = rw (read_lines, e) refl

  read_lines-end :
      (ls : List Text) (n : ℕ) (p : Partial) (m : Counters)
      → is_event p ≡ true
      → reading n p ((10 ∷ []) ∷ ls) m ≡ (got (event_of p), ls, increment_received (pos 1) m)
  unfolding read_lines text_beq trim_right
  read_lines-end ls n p m e = rw (read_lines, e) refl

  feed_line :
      (b : ℕ) (bs rest : Text) (n : ℕ) (p : Partial) (m : Counters)
      → IsLine (b ∷ bs)
      → reading n p (lines_of (b ∷ bs ++ 10 ∷ rest)) m
        ≡ reading
            (suc n)
            (parse_line (b ∷ bs) p)
            (lines_of rest)
            (receive_all (lines_of (b ∷ bs ++ 10 ∷ [])) m)
  unfolding receive_all lines_from
  feed_line b bs rest n p m k =
      let whole = b ∷ bs ++ 10 ∷ [] in
      let first = lines_from-line [] (b ∷ bs) rest k in
      let alone = lines_from-line [] (b ∷ bs) [] k in
      let next = reading (suc n) (parse_line (b ∷ bs) p) (lines_of rest) in
      ap (λ (ls : List Text). reading n p ls m) first
      ∙ read_lines-line whole (lines_of rest) b bs n p m (trim_right-line (b ∷ bs) k)
      ∙ ap (λ (ls : List Text). next (receive_all ls m)) (sym alone)

  feed_field :
      (field value rest : Text) (n : ℕ) (p : Partial) (m : Counters)
      → IsField field
      → IsLine value
      → reading n p (lines_of (field_line field value ++ 10 ∷ rest)) m
        ≡ reading
            (suc n)
            (set_field field value p)
            (lines_of rest)
            (receive_all (lines_of (field_line field value ++ 10 ∷ [])) m)
  feed_field [] value rest n p m h k = absurd h
  feed_field (b ∷ bs) value rest n p m h k =
      let line = field_line (b ∷ bs) value in
      let q = parse_line-field (b ∷ bs) value p h in
      feed_line b (bs ++ 58 ∷ 32 ∷ value) rest n p m (field_line-IsLine (b ∷ bs) value h k)
      ∙ ap
          (λ (p' : Partial).
            reading (suc n) p' (lines_of rest) (receive_all (lines_of (line ++ 10 ∷ [])) m))
          q

  receive_all-line :
      (line rest : Text) (m : Counters)
      → IsLine line
      → receive_all (lines_of (line ++ 10 ∷ rest)) m
        ≡ receive_all (lines_of rest) (receive_all (lines_of (line ++ 10 ∷ [])) m)
  unfolding receive_all lines_from
  receive_all-line line rest m k =
      ap (λ (ls : List Text). receive_all ls m) (lines_from-line [] line rest k)
      ∙ ap (λ (ls : List Text). receive_all (lines_of rest) (receive_all ls m))
          (sym (lines_from-line [] line [] k))

  -- Reading some text takes the event so far to another one.
  abbrev Feeds : Text → Partial → Partial → Type 0
  Feeds text p q =
      (rest : Text) (n : ℕ) (m : Counters)
      → (n' : ℕ) × (reading n p (lines_of (text ++ rest)) m
          ≡ reading n' q (lines_of rest) (receive_all (lines_of text) m))
        × (receive_all (lines_of (text ++ rest)) m
            ≡ receive_all (lines_of rest) (receive_all (lines_of text) m))

  Feeds-nothing : (p : Partial) → Feeds [] p p
  unfolding receive_all lines_from
  Feeds-nothing p rest n m = (n, refl, refl)

  Feeds-field :
      (field value : Text) (p : Partial)
      → IsField field
      → IsLine value
      → Feeds (field_line field value ++ 10 ∷ []) p (set_field field value p)
  Feeds-field field value p h k rest n m =
      let line = field_line field value in
      let joined : (line ++ 10 ∷ []) ++ rest ≡ line ++ 10 ∷ rest =
        append_assoc line (10 ∷ []) rest in
      (
        suc n,
        ap (λ (t : Text). reading n p (lines_of t) m) joined
            ∙ feed_field field value rest n p m h k,
        ap (λ (t : Text). receive_all (lines_of t) m) joined
            ∙ receive_all-line line rest m (field_line-IsLine field value h k),
      )

  Feeds-append : (s t : Text) (p q r : Partial) → Feeds s p q → Feeds t q r → Feeds (s ++ t) p r
  Feeds-append s t p q r f g rest n m =
      let joined = append_assoc s t rest in
      let first = f (t ++ rest) n m in
      let second = g rest first.0 (receive_all (lines_of s) m) in
      let whole = (f t n m).2 in
      (
        second.0,
        ap (λ (u : Text). reading n p (lines_of u) m) joined
            ∙ first.1
            ∙ second.1
            ∙ ap (λ (m' : Counters). reading second.0 r (lines_of rest) m') (sym whole),
        ap (λ (u : Text). receive_all (lines_of u) m) joined
            ∙ first.2
            ∙ second.2
            ∙ ap (λ (m' : Counters). receive_all (lines_of rest) m') (sym whole),
      )

  id_IsField : IsField id_field
  id_IsField = ground arith

  event_IsField : IsField event_field
  event_IsField = ground arith

  data_IsField : IsField data_field
  data_IsField = ground arith

  Feeds-id :
      (id : Text) → IsLine id → Feeds (named id_field id) no_event (record no_event { id = id })
  unfolding set_field text_beq
  Feeds-id [] k = Feeds-nothing no_event
  Feeds-id (b ∷ bs) k = Feeds-field id_field (b ∷ bs) no_event id_IsField k

  Feeds-event :
      (name : Text) (p : Partial)
      → IsLine name
      → p.event ≡ []
      → Feeds (named event_field name) p (record p { event = name })
  unfolding set_field text_beq
  Feeds-event [] p k e = subst (λ name. Feeds [] p (record p { event = name })) e (Feeds-nothing p)
  Feeds-event (b ∷ bs) p k e = Feeds-field event_field (b ∷ bs) p event_IsField k

  Feeds-data :
      (ls : List Text) (p : Partial)
      → All IsLine ls
      → Feeds (data_text ls) p (record p { data_lines = p.data_lines ++ ls })
  unfolding set_field text_beq
  Feeds-data [] p k =
      subst (λ ls. Feeds [] p (record p { data_lines = ls })) (sym (append-nil p.data_lines))
        (Feeds-nothing p)
  Feeds-data (l ∷ ls) p k =
      let line = field_line data_field l in
      let here = record p { data_lines = p.data_lines ++ l ∷ [] } in
      let there = record p { data_lines = (p.data_lines ++ l ∷ []) ++ ls } in
      let first = Feeds-field data_field l p data_IsField k.0 in
      let both =
        Feeds-append (line ++ 10 ∷ []) (data_text ls) p here there first (Feeds-data ls here k.1) in
      subst (λ lines. Feeds (data_text (l ∷ ls)) p (record p { data_lines = lines }))
        (append_assoc p.data_lines (l ∷ []) ls)
        (subst (λ text. Feeds text p there) (append_assoc line (10 ∷ []) (data_text ls)) both)

  -- The lines of an event, before the empty one.
  Feeds-event_text :
      (id name : Text) (ls : List Text)
      → IsLine id
      → IsLine name
      → All IsLine ls
      → Feeds
          (named id_field id ++ (named event_field name ++ data_text ls))
          no_event
          (record { id = id; event = name; data_lines = ls })
  Feeds-event_text id name ls i n d =
      let with_id = record no_event { id = id } in
      let with_name = record with_id { event = name } in
      let whole = record with_name { data_lines = ls } in
      Feeds-append (named id_field id) (named event_field name ++ data_text ls) no_event with_id
        whole (Feeds-id id i)
        (Feeds-append (named event_field name) (data_text ls) with_id with_name whole
          (Feeds-event name with_id n refl) (Feeds-data ls with_name d))

  abbrev finished : Partial → Text → Counters → ReadResult × List Text × Counters
  finished p rest m = (got (event_of p), lines_of rest, m)

  read_lines-event :
      (id name : Text) (ls : List Text) (rest : Text) (m : Counters)
      → IsLine id
      → IsLine name
      → All IsLine ls
      → is_event (record { id = id; event = name; data_lines = ls }) ≡ true
      → reading 0 no_event (lines_of (event_text id name ls ++ rest)) m ≡ (
        got (record { id = id; event = name; event_data = join_lines ls }),
        lines_of rest,
        receive_all (lines_of (event_text id name ls)) m,
      )
  unfolding receive_all lines_from
  read_lines-event id name ls rest m i n d e =
      let text = named id_field id ++ (named event_field name ++ data_text ls) in
      let whole : Partial = record { id = id; event = name; data_lines = ls } in
      let fed = Feeds-event_text id name ls i n d (10 ∷ rest) 0 m in
      let counters = (Feeds-event_text id name ls i n d (10 ∷ []) 0 m).2 in
      let before = receive_all (lines_of text) m in
      ap (λ (t : Text). reading 0 no_event (lines_of t) m) (append_assoc text (10 ∷ []) rest)
      ∙ fed.1
      ∙ read_lines-end (lines_of rest) fed.0 whole before e
      ∙ ap (finished whole rest) (sym counters)

-- A client whose reader stands before this text.
abbrev pub reads_from : Text → Bool → Client → Client
reads_from text is_eof c = record c {
  reader = some (record { lines = lines_of text; is_eof = is_eof });
}

-- An event that a server writes, a line `id: …` and a line `event: …` where they are not empty and a line
-- `data: …` for each line of its data, is read back, with its data joined by line feeds: the text behind
-- it is left for the next reads, one event more is counted, and each line is counted with its bytes. The
-- values hold no line feed and no carriage return, one of them is there, and the context does not end.
pub read_event-event_text :
    (id name : Text) (ls : List Text) (rest : Text) (is_eof : Bool) (c : Client)
    → IsLine id
    → IsLine name
    → All IsLine ls
    → is_event (record { id = id; event = name; data_lines = ls }) ≡ true
    → let turn = read_event (λ i. false) (reads_from (event_text id name ls ++ rest) is_eof c) in
      (turn.0 ≡ got (record { id = id; event = name; event_data = join_lines ls }))
      × (turn.1 ≡ record (reads_from rest is_eof c) {
        events_recv = add64 c.events_recv (pos 1);
        metrics = receive_all (lines_of (event_text id name ls)) c.metrics;
      })
unfolding read_event
read_event-event_text id name ls rest is_eof c i n d e =
    let k = read_lines-event is_eof id name ls rest c.metrics i n d e in
    (
      ap (λ (t : ReadResult × List Text × Counters). t.0) k,
      ap
          (λ (t : ReadResult × List Text × Counters). record {
            reader = some (record { lines = t.1; is_eof = is_eof });
            events_recv = counted t.0 c.events_recv;
            metrics = t.2;
          })
          k,
    )
