-- ===== src/Thresholds/Parsing.antt =====
-- internal/threshold/threshold.go: `Parse` and `ParseMultiple`. The regular expression is a matcher of its
-- parts; `parse_float` is `strconv.ParseFloat`. An error is what its message is formatted from.
use crankfire.Prelude.{
  ℕ, zero, suc, ◌+◌, ◌-◌, ◌*◌, ◌/◌, ◌%◌, ◌^◌, ◌≤◌, ◌<◌, min, max, String, ◌≡◌, refl, sym, ap, ◌∙◌,
  subst, ◌≢◌, ◌↔◌, ◌⊎◌, inl, inr, Bool, true, false, ◌&&◌, ◌||◌, not, Option, none, some, List, [],
  ◌∷◌, ◌++◌, map, arith, ltb, leb, nat_beq, if◌then◌else◌, tests, Bool-cases, Option-cases, length,
  get_elem?, get_or, set, replicate, length-append, length-map, length-set, All, In, Eq, ◌==◌,
  nat_eq, string_eq, Float64, le_f, zero_f,
}
use crankfire.Prelude.Int.{
  ℤ, pos, negsuc, pos_part, quot, rem, neg_part, sub_ℕ, ◌+ℤ◌, ◌-ℤ◌, ◌*ℤ◌, ◌≤ℤ◌, ◌<ℤ◌, ltb_ℤ, leb_ℤ,
  beq_ℤ, int_laws,
}
use crankfire.Prelude.Int64.{
  wrap64, add64, sub64, mul64, Fits64, wrap64-of_Fits64, add64-of_Fits64, add64-pos, sub64-pos,
}
use crankfire.Prelude.Maps.{
  lookup, value_or, insert, delete, write_all, lookup-insert, lookup-insert_self, lookup-delete,
  lookup-write_all, beq_refl, or_else, NoDup, insert-NoDup,
}
use Prim.Native.Char.{Char, code}
use Prim.Native.String.{◌∷◌}
use crankfire.Prelude.Strings.{between, is_empty, trim_space}
use crankfire.Thresholds.{RunThreshold, is_valid_metric, is_valid_aggregate, is_valid_operator}
pub mod Spans
pub mod Operators
pub mod Grammar
pub mod Marks
pub mod Accepted
mod Tests

pub data ParseError : Type 0 where
  empty_threshold : ParseError
  invalid_format : String → ParseError
  invalid_value : String → ParseError
  unsupported_metric : String → ParseError
  unsupported_aggregate : String → ParseError
  unsupported_operator : String → ParseError

-- The classes `[a-z_]`, `[a-z0-9]`, `[0-9]` and `\s`.
abbrev pub is_metric_char : ℕ → Bool
is_metric_char n = between 97 122 n || nat_beq n 95

abbrev pub is_digit : ℕ → Bool
is_digit n = between 48 57 n

abbrev pub is_aggregate_char : ℕ → Bool
is_aggregate_char n = between 97 122 n || is_digit n

abbrev pub is_gap_char : ℕ → Bool
is_gap_char n = nat_beq n 32 || between 9 10 n || between 12 13 n

-- The longest beginning of characters of a class, and what follows.
unfoldable pub span : (ℕ → Bool) → String → String × String
span p String.[] = ("", "")
span p (c ∷ s) = let rest = span p s in if p (code c) then (c ∷ rest.0, rest.1) else ("", c ∷ s)

-- What follows a colon.
unfoldable pub after_colon : String → Option String
after_colon String.[] = none
after_colon (c ∷ s) = if nat_beq (code c) 58 then some s else none

-- The operator without or with `=`, which is 61, and what follows.
unfoldable pub with_equals : String → String → String → String × String
with_equals op op_equals String.[] = (op, "")
with_equals op op_equals (c ∷ s) = if nat_beq (code c) 61 then (op_equals, s) else (op, c ∷ s)

-- The operator, and what follows: 60 is `<` and 62 is `>`. No value begins with `=`, so the regular
-- expression takes `<=` and `>=` where it can.
unfoldable pub operator_at : String → Option (String × String)
operator_at String.[] = none
operator_at (c ∷ s) =
    if nat_beq (code c) 60
    then some (with_equals "<" "<=" s)
    else if nat_beq (code c) 62
    then some (with_equals ">" ">=" s)
    else if nat_beq (code c) 61
    then (let rest = with_equals "=" "==" s in if rest.0 == "==" then some rest else none)
    else none

abbrev pub are_digits : String → Bool
are_digits s = is_empty (span is_digit s).1

-- `[0-9]+\.?[0-9]*|\.[0-9]+`, up to the end; 46 is the point.
unfoldable pub fraction : String → Option String
fraction String.[] = none
fraction (c ∷ s) = if nat_beq (code c) 46 then some s else none

unfoldable pub is_number : String → Bool
is_number s =
    let digits = span is_digit s in
    if is_empty digits.0
    then elim (fraction digits.1) [ none ↦ false | some f ↦ are_digits f && not (is_empty f) ]
    else is_empty digits.1 || elim (fraction digits.1) [ none ↦ false | some f ↦ are_digits f ]

-- The groups of `FindStringSubmatch`.
pub record Groups : Type 0 where
  pub metric : String
  pub aggregate : String
  pub operator : String
  pub value : String

-- Each class ends where the next part begins, so the match takes the longest beginnings.
unfoldable pub find_value : String → String → String → Option Groups
find_value metric aggregate rest = elim (operator_at (span is_gap_char rest).1) [
  | none ↦ none
  | some (operator, following) ↦
      let value = (span is_gap_char following).1 in
      if is_number value
      then some
          (record { metric = metric; aggregate = aggregate; operator = operator; value = value })
      else none
]

unfoldable pub find_groups : String → Option Groups
find_groups s =
    let metric = span is_metric_char s in
    if is_empty metric.0 then none else elim (after_colon metric.1) [
      | none ↦ none
      | some rest ↦
          let aggregate = span is_aggregate_char rest in
          if is_empty aggregate.0 then none else find_value metric.0 aggregate.0 aggregate.1
    ]

module _ {F : Type 0} (parse_float : String → Option F) where
  unfoldable pub checked : String → Groups → ParseError ⊎ RunThreshold F
  checked s g = elim (parse_float g.value) [
    | none ↦ inl (invalid_value g.value)
    | some value ↦
        if not (is_valid_metric g.metric)
        then inl (unsupported_metric g.metric)
        else if not (is_valid_aggregate g.aggregate)
        then inl (unsupported_aggregate g.aggregate)
        else if not (is_valid_operator g.operator)
        then inl (unsupported_operator g.operator)
        else inr (record {
          metric = g.metric;
          aggregate = g.aggregate;
          operator = g.operator;
          value = value;
          raw = s;
        })
  ]

  unfoldable pub parse : String → ParseError ⊎ RunThreshold F
  parse given =
      let s = trim_space given in
      if s == ""
      then inl empty_threshold
      else elim (find_groups s) [ none ↦ inl (invalid_format s) | some g ↦ checked s g ]

  -- The loop, on the result and the errors so far.
  unfoldable pub parse_each :
      ℕ
      → List String
      → List (RunThreshold F)
      → List (ℕ × ParseError)
      → List (RunThreshold F) × List (ℕ × ParseError)
  parse_each i [] result errors = (result, errors)
  parse_each i (s ∷ rest) result errors = elim (parse s) [
    | inl err ↦ parse_each (suc i) rest result (errors ++ (i, err) ∷ [])
    | inr t ↦ parse_each (suc i) rest (result ++ t ∷ []) errors
  ]

  unfoldable pub parse_multiple : List String → List (ℕ × ParseError) ⊎ List (RunThreshold F)
  parse_multiple thresholds =
      let parsed = parse_each 0 thresholds [] [] in
      elim parsed.1 [ [] ↦ inr parsed.0 | err ∷ errs ↦ inl (err ∷ errs) ]
