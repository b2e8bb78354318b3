-- ===== src/Placeholders/Pieces.antt =====
-- A template as pieces, and what `Apply` makes of it with a store.
use crankfire.Prelude.{
  ℕ, suc, ◌-◌, ◌≡◌, refl, ap, ◌∙◌, ◌≢◌, Bool, true, false, not, Option, none, some, List, [], ◌∷◌,
  ◌++◌, arith, nat_beq, length, All, nat_eq, string_eq,
}
use crankfire.Prelude.Maps.{lookup, value_or, or_else}
use mathlib.Core.List.{append_assoc}
use crankfire.Prelude.{Text, text_eq}
use crankfire.Placeholders.{
  FeederRecord, StoreGet, is_key_char, is_default_char, span, with_default, after_key, match_at,
  value_of, replace_matches, apply,
}

-- Text that stands for itself, and a placeholder with its key and perhaps a default.
pub data Piece : Type 0 where
  literal : Text → Piece
  hole : Text → Option Text → Piece

pub piece_text : Piece → Text
piece_text (literal s) = s
piece_text (hole key none) = 123 ∷ 123 ∷ (key ++ 125 ∷ 125 ∷ [])
piece_text (hole key (some default)) = 123 ∷ 123 ∷ (key ++ 124 ∷ (default ++ 125 ∷ 125 ∷ []))

pub template_text : List Piece → Text
template_text [] = []
template_text (p ∷ ps) = piece_text p ++ template_text ps

-- The store's value, else the record's, else the default, else nothing.
pub filled : StoreGet → FeederRecord → Piece → Text
filled get record_ (literal s) = s
filled get record_ (hole key default) =
    value_or [] (or_else (or_else (get key) (lookup key record_)) default)

pub all_filled : StoreGet → FeederRecord → List Piece → Text
all_filled get record_ [] = []
all_filled get record_ (p ∷ ps) = filled get record_ p ++ all_filled get record_ ps

abbrev pub AllChars : (ℕ → Bool) → Text → Type 0
AllChars test [] = Unit
AllChars test (c ∷ cs) = (test c ≡ true) × AllChars test cs

-- No opening brace in a literal; a key that is not empty, without a closing brace or a bar; a default
-- without a closing brace.
abbrev pub IsPiece : Piece → Type 0
IsPiece (literal s) = AllChars (λ c. not (nat_beq c 123)) s
IsPiece (hole key none) = (key ≢ []) × AllChars is_key_char key
IsPiece (hole key (some default)) =
    (key ≢ []) × AllChars is_key_char key × AllChars is_default_char default

span-stop :
    (test : ℕ → Bool) (s : Text) (c : ℕ) (rest : Text)
    → AllChars test s
    → test c ≡ false
    → span test (s ++ c ∷ rest) ≡ (s, c ∷ rest)
unfolding span
span-stop test [] c rest a e = rw (span, e) refl
span-stop test (b ∷ s) c rest a e = rw (a.0, span-stop test s c rest a.1 e) refl

match_at-other : (c : ℕ) (cs : Text) → not (nat_beq c 123) ≡ true → match_at (c ∷ cs) ≡ none
unfolding match_at
match_at-other c [] e = refl
match_at-other c (d ∷ cs) e = ground (arith, e)

-- A match is skipped up to its end.
replace_matches-skip :
    (get : StoreGet) (record_ : FeederRecord) (s rest : Text)
    → replace_matches get record_ (length s) (s ++ rest) ≡ replace_matches get record_ 0 rest
unfolding replace_matches
replace_matches-skip get record_ [] rest = refl
replace_matches-skip get record_ (c ∷ s) rest = replace_matches-skip get record_ s rest

replace_matches-literal :
    (get : StoreGet) (record_ : FeederRecord) (s rest : Text)
    → AllChars (λ c. not (nat_beq c 123)) s
    → replace_matches get record_ 0 (s ++ rest) ≡ s ++ replace_matches get record_ 0 rest
unfolding replace_matches
replace_matches-literal get record_ [] rest a = refl
replace_matches-literal get record_ (c ∷ s) rest a =
    rw (replace_matches, match_at-other c (s ++ rest) a.0)
      (ap (λ (t : Text). c ∷ t) (replace_matches-literal get record_ s rest a.1))

match_at-key :
    (key rest : Text)
    → key ≢ []
    → AllChars is_key_char key
    → match_at (123 ∷ 123 ∷ (key ++ 125 ∷ 125 ∷ rest))
      ≡ some ((123 ∷ 123 ∷ (key ++ 125 ∷ 125 ∷ [])) ∷ key ∷ [] ∷ [])
unfolding match_at after_key
match_at-key [] rest n a = absurd (n refl)
match_at-key (k ∷ key) rest n a = rw (span-stop is_key_char (k ∷ key) 125 (125 ∷ rest) a refl) refl

match_at-default :
    (key default rest : Text)
    → key ≢ []
    → AllChars is_key_char key
    → AllChars is_default_char default
    → match_at (123 ∷ 123 ∷ (key ++ 124 ∷ (default ++ 125 ∷ 125 ∷ rest)))
      ≡ some ((123 ∷ 123 ∷ (key ++ 124 ∷ (default ++ 125 ∷ 125 ∷ []))) ∷ key ∷ default ∷ [])
unfolding match_at after_key with_default
match_at-default [] default rest n a d = absurd (n refl)
match_at-default (k ∷ key) default rest n a d =
    rw
      (
        span-stop is_key_char (k ∷ key) 124 (default ++ 125 ∷ 125 ∷ rest) a refl,
        span-stop is_default_char default 125 (125 ∷ rest) d refl,
      )
      refl

abbrev groups_of : Text → Option Text → List Text
groups_of key default = piece_text (hole key default) ∷ key ∷ value_or [] default ∷ []

match_at-hole :
    (key : Text) (default : Option Text) (rest : Text)
    → IsPiece (hole key default)
    → match_at (piece_text (hole key default) ++ rest) ≡ some (groups_of key default)
unfolding piece_text
match_at-hole key none rest h =
    ap (λ (t : Text). match_at (123 ∷ 123 ∷ t)) (append_assoc key (125 ∷ 125 ∷ []) rest)
    ∙ match_at-key key rest h.0 h.1
match_at-hole key (some default) rest h =
    ap (λ (t : Text). match_at (123 ∷ 123 ∷ t))
      (append_assoc key (124 ∷ (default ++ 125 ∷ 125 ∷ [])) rest
        ∙ ap (λ (t : Text). key ++ 124 ∷ t) (append_assoc default (125 ∷ 125 ∷ []) rest))
    ∙ match_at-default key default rest h.0 h.1 h.2

value_of-groups_of :
    (get : StoreGet) (record_ : FeederRecord) (key : Text) (default : Option Text)
    → value_of get record_ (groups_of key default) ≡ filled get record_ (hole key default)
unfolding value_of filled
value_of-groups_of get record_ key default = ground arith

replace_matches-match :
    (get : StoreGet) (record_ : FeederRecord) (c : ℕ) (w rest : Text) (groups : List Text)
    → match_at (c ∷ (w ++ rest)) ≡ some ((c ∷ w) ∷ groups)
    → replace_matches get record_ 0 (c ∷ (w ++ rest))
      ≡ value_of get record_ ((c ∷ w) ∷ groups) ++ replace_matches get record_ 0 rest
unfolding replace_matches
replace_matches-match get record_ c w rest groups e =
    let one_less : suc (length w) - 1 ≡ length w = omega arith in
    let skipped =
      ap (λ (n : ℕ). replace_matches get record_ n (w ++ rest)) one_less
      ∙ replace_matches-skip get record_ w rest in
    rw (replace_matches, e)
      (ap (λ (t : Text). value_of get record_ ((c ∷ w) ∷ groups) ++ t) skipped)

replace_matches-piece :
    (get : StoreGet) (record_ : FeederRecord) (p : Piece) (rest : Text)
    → IsPiece p
    → replace_matches get record_ 0 (piece_text p ++ rest)
      ≡ filled get record_ p ++ replace_matches get record_ 0 rest
unfolding piece_text filled
replace_matches-piece get record_ (literal s) rest h = replace_matches-literal get record_ s rest h
replace_matches-piece get record_ (hole key none) rest h =
    replace_matches-match get record_ 123 (123 ∷ (key ++ 125 ∷ 125 ∷ [])) rest (key ∷ [] ∷ [])
      (match_at-hole key none rest h)
    ∙ ap (λ (t : Text). t ++ replace_matches get record_ 0 rest)
        (value_of-groups_of get record_ key none)
replace_matches-piece get record_ (hole key (some default)) rest h =
    replace_matches-match get record_ 123 (123 ∷ (key ++ 124 ∷ (default ++ 125 ∷ 125 ∷ []))) rest
      (key ∷ default ∷ []) (match_at-hole key (some default) rest h)
    ∙ ap (λ (t : Text). t ++ replace_matches get record_ 0 rest)
        (value_of-groups_of get record_ key (some default))

-- With a variable store a template comes out as its pieces filled: a text without opening braces as it
-- is, and a placeholder as the store's value of its key, else the record's, else its default, else as
-- nothing. A key is not empty and has no closing brace or bar in it, a default no closing brace.
pub apply-template_text :
    (get : StoreGet) (record_ : FeederRecord) (ps : List Piece)
    → All IsPiece ps
    → apply (some get) record_ (template_text ps) ≡ all_filled get record_ ps
unfolding apply template_text all_filled replace_matches
apply-template_text get record_ [] h = refl
apply-template_text get record_ (p ∷ ps) h =
    replace_matches-piece get record_ p (template_text ps) h.0
    ∙ ap (λ (t : Text). filled get record_ p ++ t) (apply-template_text get record_ ps h.1)
