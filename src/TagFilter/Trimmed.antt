-- ===== src/TagFilter/Trimmed.antt =====
-- Neither trimming nor the replacements change an expression that is written from groups of tags.
use crankfire.Prelude.{
  ℕ, ◌≡◌, refl, sym, ap, ◌∙◌, subst, ◌≢◌, inl, inr, true, List, [], ◌∷◌, ◌++◌, arith, All, nat_eq,
  string_eq,
}
use mathlib.Core.List.{append_assoc, append-nil}
use crankfire.Prelude.{Text, text_eq, text_beq}
use crankfire.TagFilter.{trim_left, trim_right, trim, replace_all, normalized, is_tag_char}
use crankfire.TagFilter.Tokens.{
  group_text, expr_text, IsTag, IsGroup, IsWord, tag_IsWord, tight-expr_text, replace_all-tight,
}

pub normalized-expr_text :
    (groups : List (List Text))
    → All IsGroup groups
    → normalized (expr_text groups) ≡ expr_text groups
normalized-expr_text groups h =
    let t = tight-expr_text 97 groups h in
    let s = expr_text groups in
    let first = replace_all-tight 32 44 97 (32 ∷ []) s (inl (refl, refl)) t in
    let second = replace_all-tight 44 32 97 [] s (inr (refl, refl)) t in
    let third = replace_all-tight 32 44 97 [] s (inl (refl, refl)) t in
    ap (λ (u : Text). replace_all (32 ∷ 44 ∷ []) 0 (replace_all (44 ∷ 32 ∷ []) 0 u)) first
    ∙ ap (λ (u : Text). replace_all (32 ∷ 44 ∷ []) 0 u) second
    ∙ third

-- A text that trimming leaves alone, and that is not empty.
abbrev IsTrimmed : Text → Type 0
IsTrimmed s = (trim_right s ≡ s) × (s ≢ [])

word_IsTrimmed : (word : Text) → IsWord word → IsTrimmed word
unfolding trim_right text_beq
word_IsTrimmed [] h = absurd h
word_IsTrimmed (c ∷ []) h = (ground (arith, h), ground arith)
word_IsTrimmed (c ∷ d ∷ cs) h =
    let rest = word_IsTrimmed (d ∷ cs) (ground (arith, h)) in
    (ground (arith, h, rest.0), ground arith)

IsTrimmed-cons : (c : ℕ) (s : Text) → IsTrimmed s → IsTrimmed (c ∷ s)
unfolding trim_right text_beq
IsTrimmed-cons c [] h = absurd (h.1 refl)
IsTrimmed-cons c (d ∷ s) h = (ground (arith, h.0), ground arith)

IsTrimmed-append : (s t : Text) → IsTrimmed t → IsTrimmed (s ++ t)
IsTrimmed-append [] t h = h
IsTrimmed-append (c ∷ s) t h = IsTrimmed-cons c (s ++ t) (IsTrimmed-append s t h)

group_text-IsTrimmed : (ors : List Text) → IsGroup ors → IsTrimmed (group_text ors)
unfolding group_text
group_text-IsTrimmed [] h = absurd h
group_text-IsTrimmed (tag ∷ []) h = word_IsTrimmed tag (tag_IsWord tag h.0)
group_text-IsTrimmed (tag ∷ tag' ∷ tags) h =
    IsTrimmed-append tag (44 ∷ group_text (tag' ∷ tags))
      (IsTrimmed-cons 44 (group_text (tag' ∷ tags)) (group_text-IsTrimmed (tag' ∷ tags) h.1))

expr_text-IsTrimmed :
    (ors : List Text) (groups : List (List Text))
    → All IsGroup (ors ∷ groups)
    → IsTrimmed (expr_text (ors ∷ groups))
unfolding expr_text
expr_text-IsTrimmed ors [] h = group_text-IsTrimmed ors h.0
expr_text-IsTrimmed ors (ors' ∷ groups) h =
    IsTrimmed-append (group_text ors) (32 ∷ expr_text (ors' ∷ groups))
      (IsTrimmed-cons 32 (expr_text (ors' ∷ groups)) (expr_text-IsTrimmed ors' groups h.1))

-- A text that begins with a character of a tag.
abbrev BeginsTag : Text → Type 0
BeginsTag [] = ⊥
BeginsTag (c ∷ cs) = is_tag_char c ≡ true

BeginsTag-append : (word rest : Text) → IsWord word → BeginsTag (word ++ rest)
BeginsTag-append [] rest h = absurd h
BeginsTag-append (c ∷ cs) rest h = ground (arith, h)

trim_left-BeginsTag : (s : Text) → BeginsTag s → trim_left s ≡ s
unfolding trim_left
trim_left-BeginsTag [] h = absurd h
trim_left-BeginsTag (c ∷ cs) h = ground (arith, h)

group_text-BeginsTag :
    (ors : List Text) (rest : Text) → IsGroup ors → BeginsTag (group_text ors ++ rest)
unfolding group_text
group_text-BeginsTag [] rest h = absurd h
group_text-BeginsTag (tag ∷ []) rest h = BeginsTag-append tag rest (tag_IsWord tag h.0)
group_text-BeginsTag (tag ∷ tag' ∷ tags) rest h =
    subst (λ s. BeginsTag s) (sym (append_assoc tag (44 ∷ group_text (tag' ∷ tags)) rest))
      (BeginsTag-append tag (44 ∷ (group_text (tag' ∷ tags) ++ rest)) (tag_IsWord tag h.0))

expr_text-BeginsTag :
    (ors : List Text) (groups : List (List Text))
    → All IsGroup (ors ∷ groups)
    → BeginsTag (expr_text (ors ∷ groups))
unfolding expr_text
expr_text-BeginsTag ors [] h =
    subst (λ s. BeginsTag s) (append-nil (group_text ors)) (group_text-BeginsTag ors [] h.0)
expr_text-BeginsTag ors (ors' ∷ groups) h =
    group_text-BeginsTag ors (32 ∷ expr_text (ors' ∷ groups)) h.0

pub trim-expr_text :
    (ors : List Text) (groups : List (List Text))
    → All IsGroup (ors ∷ groups)
    → (trim (expr_text (ors ∷ groups)) ≡ expr_text (ors ∷ groups)) × (expr_text (ors ∷ groups) ≢ [])
trim-expr_text ors groups h =
    let whole = expr_text-IsTrimmed ors groups h in
    let left = trim_left-BeginsTag (expr_text (ors ∷ groups)) (expr_text-BeginsTag ors groups h) in
    (ap trim_right left ∙ whole.0, whole.1)

pub trim-tag : (tag : Text) → IsTag tag → trim tag ≡ tag
trim-tag tag h =
    let word = tag_IsWord tag h in
    let begins = subst (λ s. BeginsTag s) (append-nil tag) (BeginsTag-append tag [] word) in
    ap trim_right (trim_left-BeginsTag tag begins) ∙ (word_IsTrimmed tag word).0
