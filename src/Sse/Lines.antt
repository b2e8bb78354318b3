-- ===== src/Sse/Lines.antt =====
-- How a server writes an event, and what becomes of one of its lines.
use crankfire.Prelude.{◌≡◌, refl, ◌≢◌, some, List, [], ◌∷◌, ◌++◌, arith, length, nat_eq, string_eq}
use crankfire.Prelude.Int.{pos}
use mathlib.Core.List.{append_assoc}
use crankfire.Prelude.{Text, text_eq, text_beq}
use crankfire.ClientMetrics.{Counters, increment_received}
use crankfire.Sse.{
  Partial, lines_of, lines_from, trim_right, cut_colon, strip_space, set_field, parse_line,
  id_field, event_field, data_field,
}

-- One line as a server writes it: the field, a colon, a space and the value.
abbrev pub field_line : Text → Text → Text
field_line field value = field ++ 58 ∷ 32 ∷ value

abbrev pub data_text : List Text → Text
data_text [] = []
data_text (l ∷ ls) = field_line data_field l ++ 10 ∷ data_text ls

-- The lines of an event, up to the empty one; the empty id or name has none.
abbrev pub named : Text → Text → Text
named field [] = []
named field (b ∷ bs) = field_line field (b ∷ bs) ++ 10 ∷ []

abbrev pub event_text : Text → Text → List Text → Text
event_text id name data_lines =
    (named id_field id ++ (named event_field name ++ data_text data_lines)) ++ 10 ∷ []

-- A value that fits on a line: without a line feed or a carriage return.
abbrev pub IsLine : Text → Type 0
IsLine [] = Unit
IsLine (b ∷ bs) = (b ≢ 10) × (b ≢ 13) × IsLine bs

IsLine-append : (s t : Text) → IsLine s → IsLine t → IsLine (s ++ t)
IsLine-append [] t h k = k
IsLine-append (b ∷ bs) t h k = (h.0, h.1, IsLine-append bs t h.2 k)

-- A line comes off the text with its line feed.
pub lines_from-line :
    (begun line rest : Text)
    → IsLine line
    → lines_from begun (line ++ 10 ∷ rest) ≡ (begun ++ (line ++ 10 ∷ [])) ∷ lines_of rest
unfolding lines_from
lines_from-line begun [] rest h = refl
lines_from-line begun (b ∷ bs) rest h =
    let next = lines_from-line (begun ++ b ∷ []) bs rest h.2 in
    let joined = append_assoc begun (b ∷ []) (bs ++ 10 ∷ []) in ground (arith, next, joined, h.0)

pub trim_right-line : (line : Text) → IsLine line → trim_right (line ++ 10 ∷ []) ≡ line
unfolding trim_right text_beq
trim_right-line [] h = refl
trim_right-line (b ∷ bs) h = ground (arith, trim_right-line bs h.2, h.0, h.1)

-- A field has no colon in it.
abbrev pub HasNoColon : Text → Type 0
HasNoColon [] = Unit
HasNoColon (b ∷ bs) = (b ≢ 58) × HasNoColon bs

pub cut_colon-field :
    (field behind : Text)
    → HasNoColon field
    → cut_colon (field ++ 58 ∷ behind) ≡ some (field, behind)
unfolding cut_colon
cut_colon-field [] behind h = refl
cut_colon-field (b ∷ bs) behind h = ground (arith, cut_colon-field bs behind h.1, h.0)

-- The counters after lines were received.
unfoldable pub receive_all : List Text → Counters → Counters
receive_all [] m = m
receive_all (l ∷ ls) m = receive_all ls (increment_received (pos (length l)) m)

-- A field as the code tells it apart: a word without a colon.
abbrev pub IsField : Text → Type 0
IsField [] = ⊥
IsField (b ∷ bs) = IsLine (b ∷ bs) × HasNoColon (b ∷ bs)

pub parse_line-field :
    (field value : Text) (p : Partial)
    → IsField field
    → parse_line (field_line field value) p ≡ set_field field value p
unfolding parse_line strip_space
parse_line-field [] value p h = absurd h
parse_line-field (b ∷ bs) value p h =
    rw (parse_line, cut_colon-field (b ∷ bs) (32 ∷ value) h.1) refl

pub field_line-IsLine :
    (field value : Text) → IsField field → IsLine value → IsLine (field_line field value)
field_line-IsLine [] value h k = absurd h
field_line-IsLine (b ∷ bs) value h k = IsLine-append (b ∷ bs) (58 ∷ 32 ∷ value) h.0 (
  (λ e. omega (arith, e)),
  (λ e. omega (arith, e)),
  ((λ e. omega (arith, e)), (λ e. omega (arith, e)), k),
)
