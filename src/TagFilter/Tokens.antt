-- ===== src/TagFilter/Tokens.antt =====
-- How tags, groups and expressions are written, and what trimming and splitting do to them.
use crankfire.Prelude.{
  ℕ, ◌≡◌, refl, sym, ap, ◌∙◌, ◌⊎◌, Bool, true, false, ◌&&◌, not, List, [], ◌∷◌, ◌++◌, arith,
  nat_beq, All, nat_eq, string_eq,
}
use mathlib.Core.List.{append_assoc, append-nil}
use crankfire.Prelude.{Text, text_eq}
use crankfire.TagFilter.{starts_with, replace_all, is_tag_char, all_tag_chars, is_tag}

-- The tags of a group with commas between them, the groups with spaces.
unfoldable pub group_text : List Text → Text
group_text [] = []
group_text (tag ∷ []) = tag
group_text (tag ∷ tag' ∷ tags) = tag ++ 44 ∷ group_text (tag' ∷ tags)

unfoldable pub expr_text : List (List Text) → Text
expr_text [] = []
expr_text (ors ∷ []) = group_text ors
expr_text (ors ∷ ors' ∷ groups) = group_text ors ++ 32 ∷ expr_text (ors' ∷ groups)

abbrev pub IsTag : Text → Type 0
IsTag tag = is_tag tag ≡ true

-- At least one tag.
abbrev pub IsGroup : List Text → Type 0
IsGroup [] = ⊥
IsGroup (tag ∷ tags) = IsTag tag × All IsTag tags

-- A word of characters that tags have.
abbrev pub IsWord : Text → Type 0
IsWord [] = ⊥
IsWord (c ∷ cs) = all_tag_chars (c ∷ cs) ≡ true

pub tag_IsWord : (tag : Text) → IsTag tag → IsWord tag
unfolding is_tag
tag_IsWord [] h = ground (arith, h)
tag_IsWord (c ∷ cs) h = ground (arith, h)

-- Neither a comma next to a space, nor a space next to a comma.
abbrev pub tight : ℕ → Text → Bool
tight before [] = true
tight before (c ∷ cs) =
    not (nat_beq before 32 && nat_beq c 44) && not (nat_beq before 44 && nat_beq c 32) && tight c cs

tight_tag_char : (c : ℕ) (rest : Text) → is_tag_char c ≡ true → tight c rest ≡ tight 97 rest
tight_tag_char c [] h = refl
tight_tag_char c (d ∷ rest) h = ground (arith, h)

tight-word :
    (before : ℕ) (word rest : Text) → IsWord word → tight before (word ++ rest) ≡ tight 97 rest
tight-word before [] rest h = absurd h
tight-word before (c ∷ []) rest h = ground (arith, h, tight_tag_char c rest)
tight-word before (c ∷ d ∷ cs) rest h = ground (arith, h, tight-word c (d ∷ cs) rest)

tight-group_text :
    (before : ℕ) (ors : List Text) (rest : Text)
    → IsGroup ors
    → tight before (group_text ors ++ rest) ≡ tight 97 rest
unfolding group_text
tight-group_text before [] rest h = absurd h
tight-group_text before (tag ∷ []) rest h = tight-word before tag rest (tag_IsWord tag h.0)
tight-group_text before (tag ∷ tag' ∷ tags) rest h =
    let joined = append_assoc tag (44 ∷ group_text (tag' ∷ tags)) rest in
    ap (tight before) joined
    ∙ tight-word before tag (44 ∷ (group_text (tag' ∷ tags) ++ rest)) (tag_IsWord tag h.0)
    ∙ tight-group_text 44 (tag' ∷ tags) rest h.1

pub tight-expr_text :
    (before : ℕ) (groups : List (List Text))
    → All IsGroup groups
    → tight before (expr_text groups) ≡ true
unfolding expr_text
tight-expr_text before [] h = refl
tight-expr_text before (ors ∷ []) h =
    ap (tight before) (sym (append-nil (group_text ors))) ∙ tight-group_text before ors [] h.0
tight-expr_text before (ors ∷ ors' ∷ groups) h =
    tight-group_text before ors (32 ∷ expr_text (ors' ∷ groups)) h.0
    ∙ tight-expr_text 32 (ors' ∷ groups) h.1

-- The pairs of characters that are not in a tight text.
abbrev IsLoose : ℕ → ℕ → Type 0
IsLoose a b = ((a ≡ 32) × (b ≡ 44)) ⊎ ((a ≡ 44) × (b ≡ 32))

starts_with-tight :
    (a b c : ℕ) (more cs : Text)
    → IsLoose a b
    → tight c cs ≡ true
    → starts_with (a ∷ b ∷ more) (c ∷ cs) ≡ false
starts_with-tight a b c more [] l t = ground arith
starts_with-tight a b c more (d ∷ cs) l t = ground (arith, l, t)

pub replace_all-tight :
    (a b before : ℕ) (more s : Text)
    → IsLoose a b
    → tight before s ≡ true
    → replace_all (a ∷ b ∷ more) 0 s ≡ s
unfolding replace_all
replace_all-tight a b before more [] l t = refl
replace_all-tight a b before more (c ∷ cs) l t =
    let inner : tight c cs ≡ true = ground (arith, t) in
    rw (replace_all, starts_with-tight a b c more cs l inner)
      (ap (λ (rest : Text). c ∷ rest) (replace_all-tight a b c more cs l inner))
