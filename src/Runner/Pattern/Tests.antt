-- ===== src/Runner/Pattern/Tests.antt =====
-- Load patterns on concrete inputs.
use crankfire.Prelude.{◌≡◌, refl, ◌≢◌, some, List, [], ◌∷◌, arith, All, nat_eq, string_eq, text_eq}
use crankfire.Prelude.Int.{pos, ◌≤ℤ◌}
use crankfire.Prelude.Int64.{wrap64, add64}
use crankfire.Prelude.Samples.{int_floats}
use crankfire.Runner.Pattern.{
  LoadPattern, PatternPlan, compile_pattern_plan, rate_at, max_burst, add_patterns, add_pattern,
  add_part, append_segment, empty_plan, float_max,
}
use crankfire.Runner.Pattern.Pieces.{Piece, pieces, total, piece_rate, pattern_pieces}
use crankfire.Runner.Pattern.Schedule.{rate_at-compile_pattern_plan}
use crankfire.Runner.Pattern.Peak.{Under, compile_pattern_plan-Under}

-- A ramp from 0 to 10 in 100, then a spike of 40 for 50.
abbrev two_patterns : List LoadPattern
two_patterns =
    record {
      name = "warm up";
      type = "ramp";
      from_rps = pos 0;
      to_rps = pos 10;
      duration = pos 100;
      steps = [];
      rps = pos 0;
    }
    ∷ record {
      name = "peak";
      type = "spike";
      from_rps = pos 0;
      to_rps = pos 0;
      duration = pos 50;
      steps = [];
      rps = pos 40;
    }
    ∷ []

abbrev two_pieces : List Piece
two_pieces =
    record { len = 100; from = pos 0; to = pos 10 }
    ∷ record { len = 50; from = pos 40; to = pos 40 }
    ∷ []

two_patterns-total : total (pieces two_patterns) ≡ 150
unfolding total pieces pattern_pieces
two_patterns-total = refl

abbrev two_plan : PatternPlan int_floats
two_plan = record {
  segments =
      record { start = pos 0; duration = pos 100; from_rate = pos 0; to_rate = pos 10 }
      ∷ record { start = pos 100; duration = pos 50; from_rate = pos 40; to_rate = pos 40 }
      ∷ [];
  duration = pos 150;
  max_rate = pos 40;
}

two_patterns_plan : compile_pattern_plan int_floats two_patterns ≡ some two_plan
unfolding compile_pattern_plan add_patterns add_pattern add_part append_segment empty_plan float_max
    add64 wrap64
two_patterns_plan = refl

rate_at-compile_pattern_plan_example :
    rate_at int_floats (compile_pattern_plan int_floats two_patterns) (pos 120)
    ≡ piece_rate int_floats (pieces two_patterns) 120
rate_at-compile_pattern_plan_example =
    rate_at-compile_pattern_plan int_floats two_patterns (pos 120)
      (omega (arith, two_patterns-total))

compile_pattern_plan-Under_example :
    (two_plan.segments ≢ [])
    × All (Under int_floats two_plan.max_rate) two_plan.segments
    × (pos 1 ≤ℤ max_burst int_floats (some two_plan))
compile_pattern_plan-Under_example =
    compile_pattern_plan-Under int_floats two_patterns two_plan two_patterns_plan
