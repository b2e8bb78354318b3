-- ===== src/Thresholds/Parsing/Tests.antt =====
-- Thresholds that are parsed.
use crankfire.Prelude.{String, ◌≡◌, refl, inl, inr, Option, some, [], ◌∷◌, nat_eq, string_eq}
use crankfire.Thresholds.{RunThreshold, is_valid_metric, is_valid_aggregate, is_valid_operator}
use crankfire.Prelude.Strings.{trim_left, trim_end, trim_space}
use crankfire.Thresholds.Parsing.{
  span, after_colon, with_equals, operator_at, fraction, is_number, find_value, find_groups,
  checked, parse, parse_each, parse_multiple, invalid_format, empty_threshold, unsupported_metric,
}
use crankfire.Thresholds.Parsing.Accepted.{IsThreshold, parse-IsThreshold}

-- The number is kept as it is written.
abbrev as_written : String → Option String
as_written v = some v

abbrev slow : RunThreshold String
slow = record {
  metric = "http_req_duration";
  aggregate = "p95";
  operator = "<=";
  value = "500.";
  raw = "http_req_duration:p95 <=500.";
}

slow-parsed : parse as_written " http_req_duration:p95 <=500. " ≡ inr slow
unfolding parse checked find_groups find_value is_number fraction operator_at with_equals
    after_colon span trim_space trim_left trim_end is_valid_metric is_valid_aggregate
    is_valid_operator
slow-parsed = refl

-- The errors stand with their indices.
some_fail :
    parse_multiple as_written
      ("" ∷ "http_req_failed:rate<.5" ∷ "http_req_failed" ∷ "size:max>1" ∷ [])
    ≡ inl (
        (0, empty_threshold)
        ∷ (2, invalid_format "http_req_failed")
        ∷ (3, unsupported_metric "size")
        ∷ [])
unfolding parse_multiple parse_each parse checked find_groups find_value is_number fraction
    operator_at with_equals after_colon span trim_space trim_left trim_end is_valid_metric
    is_valid_aggregate is_valid_operator
some_fail = refl

parse-IsThreshold_example : IsThreshold as_written "http_req_duration:p95 <=500." slow
unfolding trim_space trim_left trim_end
parse-IsThreshold_example =
    (parse-IsThreshold as_written " http_req_duration:p95 <=500. " slow).0 slow-parsed
