-- ===== src/TagFilter/RoundTrip.antt =====
-- An expression that is written from groups of tags is parsed to them, and what its matcher accepts.
use crankfire.Prelude.{
  ℕ, zero, suc, ◌≡◌, refl, sym, ap, ◌∙◌, subst, ◌≢◌, ◌↔◌, inl, inr, true, false, some, List, [],
  ◌∷◌, ◌++◌, map, arith, nat_beq, Bool-cases, get_elem?, All, In, ◌==◌, nat_eq, string_eq,
}
use mathlib.Core.List.{append_assoc, append-nil}
use crankfire.Prelude.{Text, text_eq, text_beq, text_beq_iff}
use crankfire.Prelude.Strings.{is_space}
use crankfire.TagFilter.{
  Matcher, trim_left, trim_right, end_word, fields_from, split_from, all_tag_chars, is_tag,
  parse_ors, parse_groups, parse, has_tag, any_tag, all_groups, matches,
}
use crankfire.TagFilter.Tokens.{group_text, expr_text, IsTag, IsGroup}
use crankfire.TagFilter.Trimmed.{normalized-expr_text, trim-expr_text, trim-tag}

split_from-word :
    (part word rest : Text)
    → all_tag_chars word ≡ true
    → split_from part (word ++ rest) ≡ split_from (part ++ word) rest
unfolding split_from
split_from-word part [] rest h = ap (λ (p : Text). split_from p rest) (sym (append-nil part))
split_from-word part (c ∷ cs) rest h =
    let plain : nat_beq c 44 ≡ false = ground (arith, h) in
    let inner : all_tag_chars cs ≡ true = ground (arith, h) in
    rw (split_from, plain)
      (split_from-word (part ++ c ∷ []) cs rest inner
        ∙ ap (λ (p : Text). split_from p rest) (append_assoc part (c ∷ []) cs))

tag_chars : (tag : Text) → IsTag tag → all_tag_chars tag ≡ true
unfolding is_tag
tag_chars tag h = ground (arith, h)

split_from-group_text : (ors : List Text) → IsGroup ors → split_from [] (group_text ors) ≡ ors
unfolding group_text split_from
split_from-group_text [] h = absurd h
split_from-group_text (tag ∷ []) h =
    ap (split_from []) (sym (append-nil tag)) ∙ split_from-word [] tag [] (tag_chars tag h.0)
split_from-group_text (tag ∷ tag' ∷ tags) h =
    split_from-word [] tag (44 ∷ group_text (tag' ∷ tags)) (tag_chars tag h.0)
    ∙ ap (λ (parts : List Text). tag ∷ parts) (split_from-group_text (tag' ∷ tags) h.1)

abbrev HasNoSpace : Text → Type 0
HasNoSpace [] = Unit
HasNoSpace (c ∷ cs) = (is_space c ≡ false) × HasNoSpace cs

HasNoSpace-append : (s t : Text) → HasNoSpace s → HasNoSpace t → HasNoSpace (s ++ t)
HasNoSpace-append [] t h k = k
HasNoSpace-append (c ∷ s) t h k = (h.0, HasNoSpace-append s t h.1 k)

chars_HasNoSpace : (s : Text) → all_tag_chars s ≡ true → HasNoSpace s
chars_HasNoSpace [] h = tt
chars_HasNoSpace (c ∷ cs) h = (ground (arith, h), chars_HasNoSpace cs (ground (arith, h)))

group_text-HasNoSpace : (ors : List Text) → IsGroup ors → HasNoSpace (group_text ors)
unfolding group_text
group_text-HasNoSpace [] h = absurd h
group_text-HasNoSpace (tag ∷ []) h = chars_HasNoSpace tag (tag_chars tag h.0)
group_text-HasNoSpace (tag ∷ tag' ∷ tags) h =
    HasNoSpace-append tag (44 ∷ group_text (tag' ∷ tags)) (chars_HasNoSpace tag (tag_chars tag h.0))
      (refl, group_text-HasNoSpace (tag' ∷ tags) h.1)

fields_from-word :
    (word s rest : Text)
    → HasNoSpace s
    → fields_from word (s ++ rest) ≡ fields_from (word ++ s) rest
unfolding fields_from
fields_from-word word [] rest h = ap (λ (w : Text). fields_from w rest) (sym (append-nil word))
fields_from-word word (c ∷ cs) rest h =
    rw (fields_from, h.0)
      (fields_from-word (word ++ c ∷ []) cs rest h.1
        ∙ ap (λ (w : Text). fields_from w rest) (append_assoc word (c ∷ []) cs))

end_word-some : (word : Text) (words : List Text) → word ≢ [] → end_word word words ≡ word ∷ words
end_word-some [] words h = absurd (h refl)
end_word-some (c ∷ cs) words h = refl

fields_from-expr_text :
    (groups : List (List Text))
    → All IsGroup groups
    → fields_from [] (expr_text groups) ≡ map group_text groups
unfolding expr_text fields_from
fields_from-expr_text [] h = refl
fields_from-expr_text (ors ∷ []) h =
    let text = group_text ors in
    ap (fields_from []) (sym (append-nil text))
    ∙ fields_from-word [] text [] (group_text-HasNoSpace ors h.0)
    ∙ end_word-some text [] (trim-expr_text ors [] h).1
fields_from-expr_text (ors ∷ ors' ∷ groups) h =
    let text = group_text ors in
    fields_from-word [] text (32 ∷ expr_text (ors' ∷ groups)) (group_text-HasNoSpace ors h.0)
    ∙ end_word-some text (fields_from [] (expr_text (ors' ∷ groups)))
        (trim-expr_text ors [] (h.0, tt)).1
    ∙ ap (λ (words : List Text). text ∷ words) (fields_from-expr_text (ors' ∷ groups) h.1)

tag_some : (tag : Text) → IsTag tag → (tag == []) ≡ false
unfolding is_tag text_beq
tag_some [] h = ground (arith, h)
tag_some (c ∷ cs) h = refl

parse_ors-tags :
    (and_token : Text) (tags : List Text) → All IsTag tags → parse_ors and_token tags ≡ inr tags
unfolding parse_ors
parse_ors-tags and_token [] h = refl
parse_ors-tags and_token (tag ∷ tags) h =
    ground (arith, trim-tag tag h.0, tag_some tag h.0, h.0, parse_ors-tags and_token tags h.1)

group_tags : (ors : List Text) → IsGroup ors → All IsTag ors
group_tags [] h = absurd h
group_tags (tag ∷ tags) h = h

parse_groups-texts :
    (groups : List (List Text))
    → All IsGroup groups
    → parse_groups (map group_text groups) ≡ inr groups
unfolding parse_groups
parse_groups-texts [] h = refl
parse_groups-texts (ors ∷ groups) h =
    let words = split_from-group_text ors h.0 in
    let parsed =
      ap (parse_ors (group_text ors)) words
      ∙ parse_ors-tags (group_text ors) ors (group_tags ors h.0) in
    ground (arith, parsed, parse_groups-texts groups h.1)

text_some : (s : Text) → s ≢ [] → (s == []) ≡ false
unfolding text_beq
text_some [] h = absurd (h refl)
text_some (c ∷ cs) h = refl

pub parse-expr_text :
    (groups : List (List Text))
    → All IsGroup groups
    → parse (expr_text groups) ≡ inr (record { groups = groups })
unfolding parse text_beq trim_right trim_left expr_text
parse-expr_text [] h = refl
parse-expr_text (ors ∷ groups) h =
    let trimmed = trim-expr_text ors groups h in
    let words = fields_from-expr_text (ors ∷ groups) h in
    rw
      (
        parse,
        trimmed.0,
        text_some (expr_text (ors ∷ groups)) trimmed.1,
        normalized-expr_text (ors ∷ groups) h,
        words,
        parse_groups-texts (ors ∷ groups) h,
      )
      refl

has_tag_at :
    (tag have : Text) (tags : List Text) (i : ℕ)
    → get_elem? (have ∷ tags) i ≡ some tag
    → has_tag tag (have ∷ tags) ≡ true
has_tag_at tag have tags zero e = ground (arith, e, text_beq_iff have tag)
has_tag_at tag have [] (suc i) e = ground (arith, e)
has_tag_at tag have (next ∷ tags) (suc i) e = ground (arith, has_tag_at tag next tags i e)

has_tag_iff : (tag : Text) (tags : List Text) → (has_tag tag tags ≡ true) ↔ In tag tags
has_tag_iff tag [] = (λ h. absurd (ground (arith, h)), λ (i, e). absurd (ground (arith, e)))
has_tag_iff tag (have ∷ tags) = (
  λ h. elim (Bool-cases (have == tag)) [
    | inl hit ↦ (0, ap some ((text_beq_iff have tag).0 hit))
    | inr miss ↦
        let rest = (has_tag_iff tag tags).0 (ground (arith, h, miss)) in (suc rest.0, rest.1)
  ],
  λ (i, e). has_tag_at tag have tags i e,
)

any_tag_at :
    (tag : Text) (ors tags : List Text) (other : Text)
    → In other (tag ∷ ors)
    → In other tags
    → any_tag (tag ∷ ors) tags ≡ true
any_tag_at tag ors tags other (zero, e) there =
    ground
      (arith, e, (has_tag_iff tag tags).1 (subst (λ t. In t tags) (sym (ground (arith, e))) there))
any_tag_at tag [] tags other (suc i, e) there = ground (arith, e)
any_tag_at tag (next ∷ ors) tags other (suc i, e) there =
    ground (arith, any_tag_at next ors tags other (i, e) there)

any_tag_iff :
    (ors tags : List Text) → (any_tag ors tags ≡ true) ↔ ((tag : Text) × In tag ors × In tag tags)
any_tag_iff [] tags =
    (λ h. absurd (ground (arith, h)), λ (tag, (i, e), there). absurd (ground (arith, e)))
any_tag_iff (tag ∷ ors) tags = (
  λ h. elim (Bool-cases (has_tag tag tags)) [
    | inl hit ↦ (tag, (0, refl), (has_tag_iff tag tags).0 hit)
    | inr miss ↦
        let (other, (i, e), there) = (any_tag_iff ors tags).0 (ground (arith, h, miss)) in
        (other, (suc i, e), there)
  ],
  λ (other, here, there). any_tag_at tag ors tags other here there,
)

all_groups_iff :
    (groups : List (List Text)) (tags : List Text)
    → (all_groups groups tags ≡ true) ↔ All (λ ors. (tag : Text) × In tag ors × In tag tags) groups
all_groups_iff [] tags = (λ h. tt, λ h. refl)
all_groups_iff (ors ∷ groups) tags =
    let here = any_tag_iff ors tags in
    let rest = all_groups_iff groups tags in
    (
      λ h. (here.0 (ground (arith, h)), rest.0 (ground (arith, h))),
      λ a. ground (arith, here.1 a.0, rest.1 a.1),
    )

-- An expression that writes groups of tags, with commas between the tags of a group and spaces between
-- the groups, is parsed to a matcher that accepts exactly the lists of tags that have one of each group;
-- without groups it accepts all. A group has a tag, and a tag 1 to 64 letters, digits, dots, underscores
-- and dashes.
pub matches-parse :
    (groups : List (List Text)) (tags : List Text)
    → All IsGroup groups
    → (m : Matcher) × (parse (expr_text groups) ≡ inr m)
      × ((matches m tags ≡ true) ↔ All (λ ors. (tag : Text) × In tag ors × In tag tags) groups)
unfolding matches
matches-parse groups tags h =
    (record { groups = groups }, parse-expr_text groups h, all_groups_iff groups tags)
