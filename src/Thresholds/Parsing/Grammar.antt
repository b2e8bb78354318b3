-- ===== src/Thresholds/Parsing/Grammar.antt =====
-- Which texts are thresholds; a text from which the groups are read is one.
use crankfire.Prelude.{
  ℕ, String, ◌≡◌, refl, ap, ◌∙◌, subst, ◌⊎◌, inl, inr, Bool, true, false, some, ◌∷◌, arith,
  Bool-cases, Option-cases, nat_eq, string_eq,
}
use Prim.Native.Char.{code}
use Prim.Native.String.{◌∷◌}
use crankfire.Prelude.Strings.{is_empty}
use crankfire.Thresholds.Parsing.{
  span, after_colon, operator_at, is_digit, is_gap_char, is_metric_char, is_aggregate_char,
  fraction, is_number, Groups, find_value, find_groups,
}
use crankfire.Thresholds.Parsing.Spans.{joined, all_chars, span_text, span_chars}
use crankfire.Thresholds.Parsing.Operators.{
  IsOperator, after_colon_text, fraction_text, operator_at_text,
}

-- Digits, with a point before, between or after them, or none; some digit is there.
abbrev pub IsNumber : String → Type 0
IsNumber v =
    (whole : String) × (rest : String) × (v ≡ joined whole rest)
    × (all_chars is_digit whole ≡ true)
    × (((rest ≡ "") × (is_empty whole ≡ false))
        ⊎ ((part : String) × (rest ≡ joined "." part)
            × (all_chars is_digit part ≡ true)
            × ((is_empty whole ≡ false) ⊎ (is_empty part ≡ false))))

is_empty_text : (s : String) → is_empty s ≡ true → s ≡ ""
is_empty_text String.[] h = refl
is_empty_text (c ∷ s) h = ground (arith, h)

nothing_after : (p : ℕ → Bool) (s : String) → is_empty (span p s).1 ≡ true → all_chars p s ≡ true
unfolding span
nothing_after p String.[] h = refl
nothing_after p (c ∷ s) h = elim (Bool-cases (p (code c))) [
  | inl hit ↦ ground (arith, hit, h, nothing_after p s)
  | inr miss ↦ ground (arith, miss, h)
]

is_number_text : (v : String) → is_number v ≡ true → IsNumber v
unfolding is_number
is_number_text v h =
    let digits = span_chars is_digit v in
    let whole = (span is_digit v).0 in
    let rest = (span is_digit v).1 in
    elim (Option-cases (fraction rest)) [
      | inl no_point ↦ elim (Bool-cases (is_empty rest)) [
        | inl done ↦ (
          whole,
          rest,
          span_text is_digit v,
          digits.0,
          inl (is_empty_text rest done, ground (arith, h, no_point)),
        )
        | inr more ↦ ground (arith, h, no_point, more)
      ]
      | inr (part, point) ↦
          let dotted = fraction_text rest part point in
          elim (Bool-cases (is_empty rest)) [
            | inl done ↦ ground (arith, subst (λ t. is_empty t ≡ true) dotted done)
            | inr more ↦ (
              whole,
              rest,
              span_text is_digit v,
              digits.0,
              inr (
                part,
                dotted,
                nothing_after is_digit part (ground (arith, h, point, more)),
                ground (arith, h, point, more),
              ),
            )
          ]
    ]

-- How a threshold is written: a metric, a colon, an aggregate, an operator and a number, with white space
-- around the operator or none.
pub record IsWritten (s : String) (g : Groups) : Type 0 where
  pub before : String
  pub behind : String
  pub text :
      s
      ≡ joined g.metric (
          joined ":"
            (joined g.aggregate (joined before (joined g.operator (joined behind g.value)))))
  pub metric_given : is_empty g.metric ≡ false
  pub metric_chars : all_chars is_metric_char g.metric ≡ true
  pub aggregate_given : is_empty g.aggregate ≡ false
  pub aggregate_chars : all_chars is_aggregate_char g.aggregate ≡ true
  pub gap_before : all_chars is_gap_char before ≡ true
  pub operator_known : IsOperator g.operator
  pub gap_behind : all_chars is_gap_char behind ≡ true
  pub number : IsNumber g.value

pub find_groups-IsWritten : (s : String) (g : Groups) → find_groups s ≡ some g → IsWritten s g
unfolding find_groups find_value
find_groups-IsWritten s g e =
    let rest = (span is_metric_char s).1 in
    elim (Bool-cases (is_empty (span is_metric_char s).0)) [
      | inl no_metric ↦ ground (arith, e, no_metric)
      | inr metric ↦ elim (Option-cases (after_colon (span is_metric_char s).1)) [
        | inl no_colon ↦ ground (arith, e, metric, no_colon)
        | inr (after, colon) ↦ elim (Bool-cases (is_empty (span is_aggregate_char after).0)) [
          | inl no_aggregate ↦ ground (arith, e, metric, colon, no_aggregate)
          | inr aggregate ↦
              elim (Option-cases
                (operator_at (span is_gap_char (span is_aggregate_char after).1).1)) [
                  | inl no_operator ↦ ground (arith, e, metric, colon, aggregate, no_operator)
                  | inr ((op, following), operator) ↦
                      elim (Bool-cases (is_number (span is_gap_char following).1)) [
                        | inr no_number ↦
                            ground (arith, e, metric, colon, aggregate, operator, no_number)
                        | inl number ↦
                            let g' : Groups = record {
                              metric = (span is_metric_char s).0;
                              aggregate = (span is_aggregate_char after).0;
                              operator = op;
                              value = (span is_gap_char following).1;
                            } in
                            let same : g' ≡ g =
                              ground (arith, e, metric, colon, aggregate, operator, number) in
                            let op_text =
                              operator_at_text (span is_gap_char (span is_aggregate_char after).1).1
                                op following operator in
                            subst (IsWritten s) same (record {
                              before = (span is_gap_char (span is_aggregate_char after).1).0;
                              behind = (span is_gap_char following).0;
                              text =
                                  span_text is_metric_char s
                                  ∙ ap (joined (span is_metric_char s).0) (
                                      after_colon_text rest after colon
                                      ∙ ap (joined ":") (
                                          span_text is_aggregate_char after
                                          ∙ ap (joined (span is_aggregate_char after).0) (
                                              span_text is_gap_char (span is_aggregate_char after).1
                                              ∙ ap
                                                  (joined
                                                    (span is_gap_char
                                                      (span is_aggregate_char after).1).0)
                                                  (op_text.0
                                                    ∙ ap (joined op)
                                                        (span_text is_gap_char following)))));
                              metric_given = metric;
                              metric_chars = (span_chars is_metric_char s).0;
                              aggregate_given = aggregate;
                              aggregate_chars = (span_chars is_aggregate_char after).0;
                              gap_before =
                                  (span_chars is_gap_char (span is_aggregate_char after).1).0;
                              operator_known = op_text.1;
                              gap_behind = (span_chars is_gap_char following).0;
                              number = is_number_text (span is_gap_char following).1 number;
                            })
                      ]
                ]
        ]
      ]
    ]
