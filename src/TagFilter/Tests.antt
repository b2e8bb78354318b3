-- ===== src/TagFilter/Tests.antt =====
-- Filters of concrete expressions.
use crankfire.Prelude.{◌≡◌, refl, ◌↔◌, inl, inr, true, List, [], ◌∷◌, All, In, nat_eq, string_eq}
use crankfire.Prelude.{Text, text_eq, text_beq}
use crankfire.TagFilter.{
  empty_token, Matcher, trim_left, trim_right, replace_all, fields_from, split_from, is_tag,
  parse_ors, parse_groups, parse, matches,
}
use crankfire.TagFilter.Tokens.{expr_text, IsGroup}
use crankfire.TagFilter.RoundTrip.{matches-parse}

-- `a,b c`, of the tags `b` and `c`.
abbrev two_groups : List (List Text)
two_groups = ((97 ∷ []) ∷ (98 ∷ []) ∷ []) ∷ ((99 ∷ []) ∷ []) ∷ []

abbrev two_tags : List Text
two_tags = (98 ∷ []) ∷ (99 ∷ []) ∷ []

two_groups-IsGroup : All IsGroup two_groups
unfolding is_tag
two_groups-IsGroup = ((refl, (refl, tt)), ((refl, tt), tt))

matches-parse_example :
    (m : Matcher) × (parse (expr_text two_groups) ≡ inr m)
    × ((matches m two_tags ≡ true)
        ↔ All (λ ors. (tag : Text) × In tag ors × In tag two_tags) two_groups)
matches-parse_example = matches-parse two_groups two_tags two_groups-IsGroup

-- Three spaces before and behind a comma are not all removed, and leave a comma alone.
three_spaces : parse (97 ∷ 32 ∷ 32 ∷ 32 ∷ 44 ∷ 32 ∷ 32 ∷ 32 ∷ 98 ∷ []) ≡ inl (empty_token (44 ∷ []))
unfolding parse trim_left trim_right text_beq replace_all fields_from split_from parse_groups
    parse_ors is_tag
three_spaces = refl
