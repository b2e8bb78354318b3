-- ===== src/Thresholds/Parsing/Accepted.antt =====
-- The texts that Parse accepts.
use crankfire.Prelude.{
  String, ◌≡◌, refl, sym, ap, ◌∙◌, subst, ◌↔◌, inl, inr, true, false, Option, some, arith, nat_beq,
  Bool-cases, Option-cases, ◌==◌, nat_eq, string_eq,
}
use text.Mathlib.TextEquality.{eq_iff}
use crankfire.Prelude.Strings.{is_empty, trim_space}
use crankfire.Thresholds.{RunThreshold, is_valid_metric, is_valid_aggregate, is_valid_operator}
use crankfire.Thresholds.Parsing.{
  span, after_colon, operator_at, is_gap_char, is_metric_char, is_aggregate_char, is_number, Groups,
  find_value, find_groups, checked, parse,
}
use crankfire.Thresholds.Parsing.Spans.{joined, span-append}
use crankfire.Thresholds.Parsing.Operators.{IsOperator}
use crankfire.Thresholds.Parsing.Grammar.{IsWritten, find_groups-IsWritten}
use crankfire.Thresholds.Parsing.Marks.{
  not_at-joined, IsNumber-not_at, is_number-IsNumber, IsOperator-not_at, operator_at-joined,
}

find_value_parts :
    (m a rest b r op following c v : String)
    → span is_gap_char rest ≡ (b, r)
    → operator_at r ≡ some (op, following)
    → span is_gap_char following ≡ (c, v)
    → is_number v ≡ true
    → find_value m a rest ≡ some (record { metric = m; aggregate = a; operator = op; value = v })
unfolding find_value
find_value_parts m a rest b r op following c v before operator behind number = ground (
  arith,
  operator,
  number,
  ap (λ (x : String × String). x.1) before,
  ap (λ (x : String × String). x.1) behind,
)

find_groups_parts :
    (s m r after a tail : String) (g : Groups)
    → span is_metric_char s ≡ (m, r)
    → after_colon r ≡ some after
    → span is_aggregate_char after ≡ (a, tail)
    → is_empty m ≡ false
    → is_empty a ≡ false
    → find_value m a tail ≡ some g
    → find_groups s ≡ some g
unfolding find_groups
find_groups_parts s m r after a tail g metric colon aggregate m_given a_given value = ground (
  arith,
  colon,
  m_given,
  a_given,
  value,
  ap (λ (x : String × String). x.0) metric,
  ap (λ (x : String × String). x.1) metric,
  ap (λ (x : String × String). x.0) aggregate,
  ap (λ (x : String × String). x.1) aggregate,
)

find_value-IsWritten :
    (s : String) (g : Groups) (w : IsWritten s g)
    → find_value g.metric g.aggregate
        (joined w.before (joined g.operator (joined w.behind g.value)))
      ≡ some g
unfolding find_value
find_value-IsWritten s g w =
    let operator_first =
      IsOperator-not_at is_gap_char g.operator (joined w.behind g.value) refl refl refl
        w.operator_known in
    let before =
      span-append is_gap_char w.before (joined g.operator (joined w.behind g.value)) w.gap_before
        operator_first in
    let no_equals =
      not_at-joined (λ n. nat_beq n 61) is_gap_char w.behind g.value (λ n h. ground (arith, h))
        w.gap_behind
        (IsNumber-not_at (λ n. nat_beq n 61) g.value (λ n h. ground (arith, h)) refl w.number) in
    let operator =
      operator_at-joined g.operator (joined w.behind g.value) w.operator_known no_equals in
    let behind =
      span-append is_gap_char w.behind g.value w.gap_behind
        (IsNumber-not_at is_gap_char g.value (λ n h. ground (arith, h)) refl w.number) in
    find_value_parts g.metric g.aggregate
      (joined w.before (joined g.operator (joined w.behind g.value))) w.before
      (joined g.operator (joined w.behind g.value)) g.operator (joined w.behind g.value) w.behind
      g.value before operator behind (is_number-IsNumber g.value w.number)

find_groups-of_IsWritten : (s : String) (g : Groups) → IsWritten s g → find_groups s ≡ some g
unfolding find_groups after_colon
find_groups-of_IsWritten s g w =
    let tail = joined w.before (joined g.operator (joined w.behind g.value)) in
    let metric =
      span-append is_metric_char g.metric (joined ":" (joined g.aggregate tail)) w.metric_chars
        refl in
    let not_aggregate =
      not_at-joined is_aggregate_char is_gap_char w.before
        (joined g.operator (joined w.behind g.value)) (λ n h. ground (arith, h)) w.gap_before
        (IsOperator-not_at is_aggregate_char g.operator (joined w.behind g.value) refl refl refl
          w.operator_known) in
    let aggregate =
      span-append is_aggregate_char g.aggregate tail w.aggregate_chars not_aggregate in
    subst (λ t. find_groups t ≡ some g) (sym w.text)
      (find_groups_parts (joined g.metric (joined ":" (joined g.aggregate tail))) g.metric
        (joined ":" (joined g.aggregate tail)) (joined g.aggregate tail) g.aggregate tail g metric
        refl aggregate w.metric_given w.aggregate_given (find_value-IsWritten s g w))

find_groups_given : (s : String) (g : Groups) → find_groups s ≡ some g → (s == "") ≡ false
unfolding find_groups span
find_groups_given s g e = elim (Bool-cases (s == "")) [
  | inl nil ↦
      let none_found : find_groups "" ≡ some g =
        subst (λ t. find_groups t ≡ some g) ((eq_iff s "").0 nil) e in
      ground (arith, none_found)
  | inr given ↦ given
]

is_valid_operator-IsOperator : (op : String) → IsOperator op → is_valid_operator op ≡ true
unfolding is_valid_operator
is_valid_operator-IsOperator op (inl e) = subst (λ o. is_valid_operator o ≡ true) (sym e) refl
is_valid_operator-IsOperator op (inr (inl e)) = subst (λ o. is_valid_operator o ≡ true) (sym e) refl
is_valid_operator-IsOperator op (inr (inr (inl e))) =
    subst (λ o. is_valid_operator o ≡ true) (sym e) refl
is_valid_operator-IsOperator op (inr (inr (inr (inl e)))) =
    subst (λ o. is_valid_operator o ≡ true) (sym e) refl
is_valid_operator-IsOperator op (inr (inr (inr (inr e)))) =
    subst (λ o. is_valid_operator o ≡ true) (sym e) refl

module _ {F : Type 0} (parse_float : String → Option F) where
  abbrev pub threshold_of : String → Groups → F → RunThreshold F
  threshold_of s g value = record {
    metric = g.metric;
    aggregate = g.aggregate;
    operator = g.operator;
    value = value;
    raw = s;
  }

  -- A text that is written as a threshold, with a metric and an aggregate that are known, and the threshold
  -- of its parts.
  pub record IsThreshold (s : String) (t : RunThreshold F) : Type 0 where
    pub groups : Groups
    pub value : F
    pub written : IsWritten s groups
    pub denoted : parse_float groups.value ≡ some value
    pub metric_valid : is_valid_metric groups.metric ≡ true
    pub aggregate_valid : is_valid_aggregate groups.aggregate ≡ true
    pub same : threshold_of s groups value ≡ t

  checked_made :
      (s : String) (g : Groups) (value : F)
      → parse_float g.value ≡ some value
      → is_valid_metric g.metric ≡ true
      → is_valid_aggregate g.aggregate ≡ true
      → is_valid_operator g.operator ≡ true
      → checked parse_float s g ≡ inr (threshold_of s g value)
  unfolding checked
  checked_made s g value denoted metric aggregate operator =
      ground (arith, denoted, metric, aggregate, operator)

  checked-IsThreshold :
      (s : String) (g : Groups) (t : RunThreshold F)
      → IsWritten s g
      → checked parse_float s g ≡ inr t
      → IsThreshold s t
  unfolding checked
  checked-IsThreshold s g t written e = elim (Option-cases (parse_float g.value)) [
    | inl bad ↦ ground (arith, e, bad)
    | inr (value, denoted) ↦ elim (Bool-cases (is_valid_metric g.metric)) [
      | inr no_metric ↦ ground (arith, e, denoted, no_metric)
      | inl metric ↦ elim (Bool-cases (is_valid_aggregate g.aggregate)) [
        | inr no_aggregate ↦ ground (arith, e, denoted, metric, no_aggregate)
        | inl aggregate ↦
            let operator = is_valid_operator-IsOperator g.operator written.operator_known in
            let same : threshold_of s g value ≡ t =
              ground (arith, e, checked_made s g value denoted metric aggregate operator) in
            record {
              groups = g;
              value = value;
              written = written;
              denoted = denoted;
              metric_valid = metric;
              aggregate_valid = aggregate;
              same = same;
            }
      ]
    ]
  ]

  parse_given :
      (given : String) (g : Groups)
      → find_groups (trim_space given) ≡ some g
      → parse parse_float given ≡ checked parse_float (trim_space given) g
  unfolding parse
  parse_given given g found = ground (arith, found, find_groups_given (trim_space given) g found)

  -- `Parse` accepts a text with the threshold exactly if the text, without the white space around it, is a
  -- metric, a colon, an aggregate, one of the five operators and a number, with white space around the
  -- operator or none, whose metric and aggregate are known and whose number ParseFloat reads; and the
  -- threshold is that of these parts. The known aggregates are p50, p90, p95, p99, avg, min, max, rate and
  -- count, without the `mean` of the documentation.
  pub parse-IsThreshold :
      (given : String) (t : RunThreshold F)
      → (parse parse_float given ≡ inr t) ↔ IsThreshold (trim_space given) t
  unfolding parse
  parse-IsThreshold given t = (
    λ e. elim (Option-cases (find_groups (trim_space given))) [
      | inl bad ↦ ground (arith, e, bad)
      | inr (g, found) ↦
          checked-IsThreshold (trim_space given) g t
            (find_groups-IsWritten (trim_space given) g found) (sym (parse_given given g found) ∙ e)
    ],
    λ w.
        let made =
          checked_made (trim_space given) w.groups w.value w.denoted w.metric_valid
            w.aggregate_valid
            (is_valid_operator-IsOperator w.groups.operator w.written.operator_known) in
        parse_given given w.groups (find_groups-of_IsWritten (trim_space given) w.groups w.written)
        ∙ made
        ∙ ap inr w.same,
  )
