-- ===== src/TagFilter.antt =====
-- internal/tagfilter: parser.go and matcher.go. A text is its characters' numbers: 32 is a space, 44 a comma.
use crankfire.Prelude.{
  ℕ, zero, suc, ◌+◌, ◌-◌, ◌*◌, ◌/◌, ◌%◌, ◌^◌, ◌≤◌, ◌<◌, min, max, String, ◌≡◌, refl, sym, ap, ◌∙◌,
  subst, ◌≢◌, ◌↔◌, ◌⊎◌, inl, inr, Bool, true, false, ◌&&◌, ◌||◌, not, Option, none, some, List, [],
  ◌∷◌, ◌++◌, map, arith, ltb, leb, nat_beq, if◌then◌else◌, tests, Bool-cases, Option-cases, length,
  get_elem?, get_or, set, replicate, length-append, length-map, length-set, All, In, Eq, ◌==◌,
  nat_eq, string_eq, Float64, le_f, zero_f,
}
use crankfire.Prelude.Int.{
  ℤ, pos, negsuc, pos_part, quot, rem, neg_part, sub_ℕ, ◌+ℤ◌, ◌-ℤ◌, ◌*ℤ◌, ◌≤ℤ◌, ◌<ℤ◌, ltb_ℤ, leb_ℤ,
  beq_ℤ, int_laws,
}
use crankfire.Prelude.Int64.{
  wrap64, add64, sub64, mul64, Fits64, wrap64-of_Fits64, add64-of_Fits64, add64-pos, sub64-pos,
}
use crankfire.Prelude.Maps.{
  lookup, value_or, insert, delete, write_all, lookup-insert, lookup-insert_self, lookup-delete,
  lookup-write_all, beq_refl, or_else, NoDup, insert-NoDup,
}
use crankfire.Prelude.{Text, text_eq, text_beq}
use crankfire.Prelude.Strings.{is_space, between}
pub mod Tokens
pub mod Trimmed
pub mod RoundTrip
mod Tests

-- The groups, of which each is a choice of tags.
pub record Matcher : Type 0 where
  pub groups : List (List Text)

-- Both carry the text that the message quotes.
pub data FilterError : Type 0 where
  empty_token bad_token : Text → FilterError

unfoldable pub trim_left : Text → Text
trim_left [] = []
trim_left (c ∷ cs) = let rest = trim_left cs in if is_space c then rest else c ∷ cs

unfoldable pub trim_right : Text → Text
trim_right [] = []
trim_right (c ∷ cs) = let rest = trim_right cs in if is_space c && rest == [] then [] else c ∷ rest

-- `strings.TrimSpace`.
abbrev pub trim : Text → Text
trim s = trim_right (trim_left s)

abbrev pub starts_with : Text → Text → Bool
starts_with [] s = true
starts_with (p ∷ ps) [] = false
starts_with (p ∷ ps) (c ∷ cs) = nat_beq p c && starts_with ps cs

-- `strings.ReplaceAll` of a text that is not empty by a comma; `skip` characters belong to the occurrence
-- that was found.
unfoldable pub replace_all : Text → ℕ → Text → Text
replace_all old skip [] = []
replace_all old (suc skip) (c ∷ cs) = replace_all old skip cs
replace_all old zero (c ∷ cs) = elim (starts_with old (c ∷ cs)) [
  | true ↦ 44 ∷ replace_all old (length old - 1) cs
  | false ↦ c ∷ replace_all old zero cs
]

-- A word that was begun, in front of the others, unless it is empty.
abbrev pub end_word : Text → List Text → List Text
end_word [] words = words
end_word (c ∷ cs) words = (c ∷ cs) ∷ words

-- `strings.Fields`, with the word that was begun.
unfoldable pub fields_from : Text → Text → List Text
fields_from word [] = end_word word []
fields_from word (c ∷ cs) = elim (is_space c) [
  | true ↦ end_word word (fields_from [] cs)
  | false ↦ fields_from (word ++ c ∷ []) cs
]

-- `strings.Split` at the commas, with the part that was begun.
unfoldable pub split_from : Text → Text → List Text
split_from part [] = part ∷ []
split_from part (c ∷ cs) = elim (nat_beq c 44) [
  | true ↦ part ∷ split_from [] cs
  | false ↦ split_from (part ++ c ∷ []) cs
]

-- The characters of `tagRe`.
abbrev pub is_tag_char : ℕ → Bool
is_tag_char c =
    between 97 122 c
    || between 65 90 c
    || between 48 57 c
    || nat_beq c 46
    || nat_beq c 95
    || nat_beq c 45

abbrev pub all_tag_chars : Text → Bool
all_tag_chars [] = true
all_tag_chars (c ∷ cs) = is_tag_char c && all_tag_chars cs

-- `tagRe.MatchString`.
unfoldable pub is_tag : Text → Bool
is_tag s = leb 1 (length s) && leb (length s) 64 && all_tag_chars s

-- The tokens of one group; `and_token` is the text of the group.
unfoldable pub parse_ors : Text → List Text → FilterError ⊎ List Text
parse_ors and_token [] = inr []
parse_ors and_token (part ∷ parts) =
    let token = trim part in
    let rest = parse_ors and_token parts in
    if token == []
    then inl (empty_token and_token)
    else if not (is_tag token)
    then inl (bad_token token)
    else elim rest [ inl err ↦ inl err | inr ors ↦ inr (token ∷ ors) ]

unfoldable pub parse_groups : List Text → FilterError ⊎ List (List Text)
parse_groups [] = inr []
parse_groups (and_token ∷ and_tokens) = elim (parse_ors and_token (split_from [] and_token)) [
  | inl err ↦ inl err
  | inr ors ↦ elim (parse_groups and_tokens) [ inl err ↦ inl err | inr groups ↦ inr (ors ∷ groups) ]
]

-- The three replacements.
abbrev pub normalized : Text → Text
normalized expr =
    replace_all (32 ∷ 44 ∷ []) 0
      (replace_all (44 ∷ 32 ∷ []) 0 (replace_all (32 ∷ 44 ∷ 32 ∷ []) 0 expr))

unfoldable pub parse : Text → FilterError ⊎ Matcher
parse expr =
    if trim expr == []
    then inr (record { groups = [] })
    else elim (parse_groups (fields_from [] (normalized (trim expr)))) [
      | inl err ↦ inl err
      | inr groups ↦ inr (record { groups = groups })
    ]

abbrev pub has_tag : Text → List Text → Bool
has_tag tag [] = false
has_tag tag (have ∷ tags) = have == tag || has_tag tag tags

abbrev pub any_tag : List Text → List Text → Bool
any_tag [] tags = false
any_tag (tag ∷ ors) tags = has_tag tag tags || any_tag ors tags

abbrev pub all_groups : List (List Text) → List Text → Bool
all_groups [] tags = true
all_groups (ors ∷ groups) tags = any_tag ors tags && all_groups groups tags

-- An empty list of groups matches everything.
unfoldable pub matches : Matcher → List Text → Bool
matches m tags = all_groups m.groups tags
