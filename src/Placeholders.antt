-- ===== src/Placeholders.antt =====
-- internal/placeholders/placeholders.go. A text is its characters' numbers: 123 and 125 are the braces, 124
-- -- is the bar. The regular expression can match in one way only where it matches, which `match_at` finds.
use crankfire.Prelude.{
  ℕ, zero, suc, ◌+◌, ◌-◌, ◌*◌, ◌/◌, ◌%◌, ◌^◌, ◌≤◌, ◌<◌, min, max, String, ◌≡◌, refl, sym, ap, ◌∙◌,
  subst, ◌≢◌, ◌↔◌, ◌⊎◌, inl, inr, Bool, true, false, ◌&&◌, ◌||◌, not, Option, none, some, List, [],
  ◌∷◌, ◌++◌, map, arith, ltb, leb, nat_beq, if◌then◌else◌, tests, Bool-cases, Option-cases, length,
  get_elem?, get_or, set, replicate, length-append, length-map, length-set, All, In, Eq, ◌==◌,
  nat_eq, string_eq, Float64, le_f, zero_f,
}
use crankfire.Prelude.Int.{
  ℤ, pos, negsuc, pos_part, quot, rem, neg_part, sub_ℕ, ◌+ℤ◌, ◌-ℤ◌, ◌*ℤ◌, ◌≤ℤ◌, ◌<ℤ◌, ltb_ℤ, leb_ℤ,
  beq_ℤ, int_laws,
}
use crankfire.Prelude.Int64.{
  wrap64, add64, sub64, mul64, Fits64, wrap64-of_Fits64, add64-of_Fits64, add64-pos, sub64-pos,
}
use crankfire.Prelude.Maps.{
  lookup, value_or, insert, delete, write_all, lookup-insert, lookup-insert_self, lookup-delete,
  lookup-write_all, beq_refl, or_else, NoDup, insert-NoDup,
}
use crankfire.Prelude.{Text, text_eq, text_beq}
pub mod Pieces
mod Tests

abbrev pub FeederRecord : Type 0
FeederRecord = List (Text × Text)

-- `store.Get`.
abbrev pub StoreGet : Type 0
StoreGet = Text → Option Text

abbrev pub is_key_char : ℕ → Bool
is_key_char c = not (nat_beq c 125) && not (nat_beq c 124)

abbrev pub is_default_char : ℕ → Bool
is_default_char c = not (nat_beq c 125)

-- The longest beginning of such characters, and what is behind it.
unfoldable pub span : (ℕ → Bool) → Text → Text × Text
span test [] = ([], [])
span test (c ∷ cs) =
    let (before, behind) = span test cs in if test c then (c ∷ before, behind) else ([], c ∷ cs)

abbrev pub closes : Text → Bool
closes [] = false
closes (c ∷ []) = false
closes (c ∷ d ∷ cs) = nat_beq c 125 && nat_beq d 125

-- A match with its groups, as `FindStringSubmatch` gives them: the match, the key, and the default, which
-- is the empty text where its group takes no part in the match.
unfoldable pub with_default : Text → Text → Option (List Text)
with_default key behind =
    let (default, rest) = span is_default_char behind in
    if closes rest
    then some ((123 ∷ 123 ∷ (key ++ 124 ∷ (default ++ 125 ∷ 125 ∷ []))) ∷ key ∷ default ∷ [])
    else none

unfoldable pub after_key : Text → Text → Option (List Text)
after_key [] behind = none
after_key (k ∷ key) [] = none
after_key (k ∷ key) (c ∷ cs) =
    if nat_beq c 124
    then with_default (k ∷ key) cs
    else if closes (c ∷ cs)
    then some ((123 ∷ 123 ∷ (k ∷ key ++ 125 ∷ 125 ∷ [])) ∷ (k ∷ key) ∷ [] ∷ [])
    else none

-- The match that begins with a text, if there is one.
unfoldable pub match_at : Text → Option (List Text)
match_at [] = none
match_at (b ∷ []) = none
match_at (b ∷ c ∷ cs) =
    let (key, behind) = span is_key_char cs in
    if nat_beq b 123 && nat_beq c 123 then after_key key behind else none

-- The function that is called on a match, with its groups.
unfoldable pub value_of : StoreGet → FeederRecord → List Text → Text
value_of get record_ [] = []
value_of get record_ (whole ∷ []) = whole
value_of get record_ (whole ∷ key ∷ groups) = elim (get key) [
  | some val ↦ val
  | none ↦ elim (lookup key record_) [
    | some val ↦ val
    | none ↦ elim groups [ [] ↦ whole | default ∷ more ↦ default ]
  ]
]

abbrev pub match_length : List Text → ℕ
match_length [] = 0
match_length (whole ∷ groups) = length whole

-- `ReplaceAllStringFunc`: `skip` characters belong to the match that was replaced.
unfoldable pub replace_matches : StoreGet → FeederRecord → ℕ → Text → Text
replace_matches get record_ skip [] = []
replace_matches get record_ (suc skip) (c ∷ cs) = replace_matches get record_ skip cs
replace_matches get record_ zero (c ∷ cs) = elim (match_at (c ∷ cs)) [
  | none ↦ c ∷ replace_matches get record_ zero cs
  | some parts ↦
      value_of get record_ parts ++ replace_matches get record_ (match_length parts - 1) cs
]

abbrev pub starts_with : Text → Text → Bool
starts_with [] s = true
starts_with (p ∷ ps) [] = false
starts_with (p ∷ ps) (c ∷ cs) = nat_beq p c && starts_with ps cs

-- `strings.ReplaceAll` of a text that is not empty.
unfoldable pub replace_text : Text → Text → ℕ → Text → Text
replace_text old new skip [] = []
replace_text old new (suc skip) (c ∷ cs) = replace_text old new skip cs
replace_text old new zero (c ∷ cs) = elim (starts_with old (c ∷ cs)) [
  | true ↦ new ++ replace_text old new (length old - 1) cs
  | false ↦ c ∷ replace_text old new zero cs
]

-- Without a store: key by key, in the order of the map.
unfoldable pub replace_keys : FeederRecord → Text → Text
replace_keys [] text = text
replace_keys ((key, val) ∷ rest) text =
    replace_keys rest (replace_text (123 ∷ 123 ∷ (key ++ 125 ∷ 125 ∷ [])) val 0 text)

-- `SubstitutePlaceholders` of internal/feeder/template.go, which has the same loop.
pub substitute_placeholders : Text → FeederRecord → Text
substitute_placeholders template record_ = replace_keys record_ template

-- `Apply`; a store that is not given or nil is `none`.
unfoldable pub apply : Option StoreGet → FeederRecord → Text → Text
apply none record_ template = replace_keys record_ template
apply (some get) record_ template = replace_matches get record_ 0 template

unfoldable pub apply_to_map :
    Option StoreGet → FeederRecord → List (Text × Text) → List (Text × Text)
apply_to_map store record_ [] = []
apply_to_map store record_ ((key, val) ∷ rest) =
    (key, apply store record_ val) ∷ apply_to_map store record_ rest
