-- ===== src/Extraction.antt =====
-- internal/extractor: the values that are taken out of a response, with the warnings for the logger, which
-- a nil logger drops. gjson and the package regexp are parameters: `get_bytes` is the text of the result
-- at a path, if it exists, `compile` is `regexp.Compile`, and `find_submatch` the whole match with the
-- groups.
use crankfire.Prelude.{
  ℕ, String, Bool, not, Option, none, some, List, [], ◌∷◌, ◌++◌, nat_beq, if◌then◌else◌, ◌==◌,
  nat_eq, string_eq,
}
use crankfire.Prelude.Maps.{insert}
use Prim.Native.Char.{Char, code}

pub record Extractor : Type 0 where
  pub json_path : String
  pub regex : String
  pub variable : String
  pub on_error : Bool

pub data Warning : Type 0 where
  path_not_found : String → Warning
  invalid_pattern : String → Warning
  pattern_not_found : String → Warning

abbrev is_char : ℕ → Char → Bool
is_char n c = nat_beq (code c) n

-- `$` is 36 and `.` is 46. The path without `$.` in front; a bare `$` is the whole text.
pub after_dollar : String → String → String
after_dollar path String.[] = "@this"
after_dollar path (String.◌∷◌ c rest) = if is_char 46 c then rest else path

pub strip_dollar : String → String
strip_dollar String.[] = ""
strip_dollar (String.◌∷◌ c rest) =
    let path = String.◌∷◌ c rest in if is_char 36 c then after_dollar path rest else path

module _ (Regex : Type 0) (get_bytes : String → String → Option String)
    (compile : String → Option Regex)
    (find_submatch : Regex → String → Option (String × List String)) where
  pub find_json_path : String → String → String × List Warning
  find_json_path body path = elim (get_bytes body (strip_dollar path)) [
    | some result ↦ (result, [])
    | none ↦ ("", path_not_found (strip_dollar path) ∷ [])
  ]

  abbrev first_group : String → List String → String
  first_group whole [] = whole
  first_group whole (group ∷ groups) = group

  pub find_regex : String → String → String × List Warning
  find_regex body pattern = elim (compile pattern) [
    | none ↦ ("", invalid_pattern pattern ∷ [])
    | some regex ↦ elim (find_submatch regex body) [
      | none ↦ ("", pattern_not_found pattern ∷ [])
      | some (whole, groups) ↦ (first_group whole groups, [])
    ]
  ]

  -- The value of one extractor.
  pub extract : String → Extractor → String × List Warning
  extract body ext =
      if not (ext.json_path == "")
      then find_json_path body ext.json_path
      else if not (ext.regex == "")
      then find_regex body ext.regex
      else ("", [])

  -- The loop, on the result and the warnings so far.
  pub extract_each :
      String
      → List Extractor
      → List (String × String)
      → List Warning
      → List (String × String) × List Warning
  extract_each body [] result warnings = (result, warnings)
  extract_each body (ext ∷ exts) result warnings =
      let value = extract body ext in
      extract_each body exts (insert ext.variable value.0 result) (warnings ++ value.1)

  pub extract_all : String → List Extractor → List (String × String) × List Warning
  extract_all body extractors = extract_each body extractors [] []
