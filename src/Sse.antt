-- ===== src/Sse.antt =====
-- internal/sse: a client that reads events from a stream. Texts are bytes: 10 is a line feed, 13 a carriage
-- -- return, 32 a space, 58 a colon. The transport is outside: what it answers is an argument.
use crankfire.Prelude.{
  ℕ, zero, suc, ◌+◌, ◌-◌, ◌*◌, ◌/◌, ◌%◌, ◌^◌, ◌≤◌, ◌<◌, min, max, String, ◌≡◌, refl, sym, ap, ◌∙◌,
  subst, ◌≢◌, ◌↔◌, ◌⊎◌, inl, inr, Bool, true, false, ◌&&◌, ◌||◌, not, Option, none, some, List, [],
  ◌∷◌, ◌++◌, map, arith, ltb, leb, nat_beq, if◌then◌else◌, tests, Bool-cases, Option-cases, length,
  get_elem?, get_or, set, replicate, length-append, length-map, length-set, All, In, Eq, ◌==◌,
  nat_eq, string_eq, Float64, le_f, zero_f,
}
use crankfire.Prelude.Int.{
  ℤ, pos, negsuc, pos_part, quot, rem, neg_part, sub_ℕ, ◌+ℤ◌, ◌-ℤ◌, ◌*ℤ◌, ◌≤ℤ◌, ◌<ℤ◌, ltb_ℤ, leb_ℤ,
  beq_ℤ, int_laws,
}
use crankfire.Prelude.Int64.{
  wrap64, add64, sub64, mul64, Fits64, wrap64-of_Fits64, add64-of_Fits64, add64-pos, sub64-pos,
}
use crankfire.Prelude.Maps.{
  lookup, value_or, insert, delete, write_all, lookup-insert, lookup-insert_self, lookup-delete,
  lookup-write_all, beq_refl, or_else, NoDup, insert-NoDup,
}
use crankfire.Prelude.{Text, text_eq, text_beq}
use crankfire.ClientMetrics.{
  Counters, CountersSnapshot, new_counters, mark_connected, increment_received, increment_errors,
  snapshot,
}
pub mod Lines
pub mod Events
mod Tests

pub record Event : Type 0 where
  pub id : Text
  pub event : Text
  pub event_data : Text

-- `StatusError` carries the code.
pub data SseError : Type 0 where
  already_connected not_connected cannot_create cannot_request context_done closed read_failed :
      SseError
  bad_status : ℕ → SseError

-- `bufio.Reader` over a body: the lines that `ReadString('\n')` is still to return, each with its line
-- feed, and whether the error behind them is `io.EOF`.
pub record Reader : Type 0 where
  pub lines : List Text
  pub is_eof : Bool

-- The lines of a body; bytes behind the last line feed come with an error and are not used.
unfoldable pub lines_from : Text → Text → List Text
lines_from begun [] = []
lines_from begun (b ∷ bs) =
    if nat_beq b 10 then (begun ++ 10 ∷ []) ∷ lines_from [] bs else lines_from (begun ++ b ∷ []) bs

abbrev pub lines_of : Text → List Text
lines_of body = lines_from [] body

-- A response that is open has its reader.
pub record Client : Type 0 where
  pub reader : Option Reader
  pub events_recv : ℤ
  pub metrics : Counters

unfoldable pub new_client : Client
new_client = record { reader = none; events_recv = pos 0; metrics = new_counters }

-- What becomes of the request: it cannot be created, it fails, or it is answered.
pub data Response : Type 0 where
  no_request no_response : Response
  answered : ℕ → Text → Bool → Response

unfoldable pub fails : SseError → Client → Option SseError × Client
fails err c = (some err, record c { metrics = increment_errors c.metrics })

unfoldable pub connect : ℤ → Response → Client → Option SseError × Client
connect now response c = elim (c.reader) [
  | some reader ↦ (some already_connected, c)
  | none ↦ elim response [
    | no_request ↦ fails cannot_create c
    | no_response ↦ fails cannot_request c
    | answered code body is_eof ↦
        if nat_beq code 200
        then (
          none,
          record c {
            reader = some (record { lines = lines_of body; is_eof = is_eof });
            metrics = mark_connected now c.metrics;
          },
        )
        else fails (bad_status code) c
  ]
]

-- `strings.TrimRight(line, "\r\n")`.
unfoldable pub trim_right : Text → Text
trim_right [] = []
trim_right (b ∷ bs) =
    let rest = trim_right bs in
    if (nat_beq b 10 || nat_beq b 13) && text_beq rest [] then [] else b ∷ rest

-- The texts before and behind the first colon.
unfoldable pub cut_colon : Text → Option (Text × Text)
cut_colon [] = none
cut_colon (b ∷ bs) =
    let rest = cut_colon bs in
    if nat_beq b 58
    then some ([], bs)
    else elim rest [ none ↦ none | some (before, behind) ↦ some (b ∷ before, behind) ]

unfoldable pub strip_space : Text → Text
strip_space [] = []
strip_space (b ∷ bs) = if nat_beq b 32 then bs else b ∷ bs

-- The words `id`, `event` and `data`.
abbrev pub id_field : Text
id_field = 105 ∷ 100 ∷ []

abbrev pub event_field : Text
event_field = 101 ∷ 118 ∷ 101 ∷ 110 ∷ 116 ∷ []

abbrev pub data_field : Text
data_field = 100 ∷ 97 ∷ 116 ∷ 97 ∷ []

-- The event so far, with the lines of its data.
pub record Partial : Type 0 where
  pub id : Text
  pub event : Text
  pub data_lines : List Text

abbrev pub no_event : Partial
no_event = record { id = []; event = []; data_lines = [] }

unfoldable pub set_field : Text → Text → Partial → Partial
set_field field value p =
    if field == id_field
    then record p { id = value }
    else if field == event_field
    then record p { event = value }
    else if field == data_field
    then record p { data_lines = p.data_lines ++ value ∷ [] }
    else p

-- A line that is not empty: a comment or a line without a colon changes nothing.
unfoldable pub parse_line : Text → Partial → Partial
parse_line line p = elim (cut_colon line) [
  | none ↦ p
  | some ([], value) ↦ p
  | some (b ∷ bs, value) ↦ set_field (b ∷ bs) (strip_space value) p
]

-- `strings.Join(dataLines, "\n")`.
unfoldable pub join_lines : List Text → Text
join_lines [] = []
join_lines (l ∷ []) = l
join_lines (l ∷ m ∷ ls) = l ++ 10 ∷ join_lines (m ∷ ls)

abbrev pub has_lines : List Text → Bool
has_lines [] = false
has_lines (l ∷ ls) = true

abbrev pub is_event : Partial → Bool
is_event p = has_lines p.data_lines || not (p.event == []) || not (p.id == [])

abbrev pub event_of : Partial → Event
event_of p = record { id = p.id; event = p.event; event_data = join_lines p.data_lines }

pub data ReadResult : Type 0 where
  got : Event → ReadResult
  not_got : SseError → ReadResult

-- The loop of `ReadEvent`, from its n-th turn on: `done n` tells whether the context has ended by then.
-- The lines that are left and the counters come with the result.
unfoldable pub read_lines :
    (ℕ → Bool) → Bool → ℕ → Partial → List Text → Counters → ReadResult × List Text × Counters
read_lines done is_eof n p [] m =
    if done n
    then (not_got context_done, [], m)
    else (not_got (if is_eof then closed else read_failed), [], increment_errors m)
read_lines done is_eof n p (l ∷ ls) m =
    let received = increment_received (pos (length l)) m in
    let line = trim_right l in
    let rest = read_lines done is_eof (suc n) (parse_line line p) ls received in
    if done n
    then (not_got context_done, l ∷ ls, m)
    else if line == [] && is_event p
    then (got (event_of p), ls, received)
    else rest

abbrev pub counted : ReadResult → ℤ → ℤ
counted (got e) n = add64 n (pos 1)
counted (not_got err) n = n

unfoldable pub read_event : (ℕ → Bool) → Client → ReadResult × Client
read_event done c = elim (c.reader) [
  | none ↦ (not_got not_connected, c)
  | some reader ↦
      let turn = read_lines done reader.is_eof 0 no_event reader.lines c.metrics in
      (
        turn.0,
        record {
          reader = some (record reader { lines = turn.1 });
          events_recv = counted turn.0 c.events_recv;
          metrics = turn.2;
        },
      )
]

pub close : Client → Client
close c = record c { reader = none }

pub record SseMetrics : Type 0 where
  pub connection_duration : ℤ
  pub events_received : ℤ
  pub bytes_received : ℤ
  pub errors : ℤ

pub metrics_of : ℤ → Client → SseMetrics
metrics_of now c =
    let shot = snapshot now c.metrics in
    record {
      connection_duration = shot.connection_duration;
      events_received = c.events_recv;
      bytes_received = shot.bytes_received;
      errors = shot.errors;
    }
