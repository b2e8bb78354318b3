-- ===== src/Placeholders/Tests.antt =====
-- Templates that are filled.
use crankfire.Prelude.{◌≡◌, refl, none, some, List, [], ◌∷◌, arith, nat_eq, string_eq}
use crankfire.Prelude.Maps.{lookup}
use crankfire.Prelude.{text_eq}
use crankfire.Placeholders.{
  StoreGet, apply, replace_matches, match_at, after_key, with_default, span, value_of,
}
use crankfire.Placeholders.Pieces.{
  Piece, literal, hole, template_text, all_filled, apply-template_text,
}

abbrev empty_store : StoreGet
empty_store key = none

-- `u{{n|x}}` with a default, of an empty store and record.
abbrev some_pieces : List Piece
some_pieces = literal (117 ∷ []) ∷ hole (110 ∷ []) (some (120 ∷ [])) ∷ []

apply-template_text_example :
    apply (some empty_store) [] (template_text some_pieces) ≡ all_filled empty_store [] some_pieces
apply-template_text_example =
    apply-template_text empty_store [] some_pieces
      ((refl, tt), ((λ e. ground (arith, e), (refl, tt), (refl, tt)), tt))

-- A placeholder `{{n}}` that nothing fills disappears.
unfilled_disappears : apply (some empty_store) [] (123 ∷ 123 ∷ 110 ∷ 125 ∷ 125 ∷ []) ≡ []
unfolding apply replace_matches match_at after_key with_default span value_of lookup
unfilled_disappears = refl
