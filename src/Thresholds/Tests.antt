-- ===== src/Thresholds/Tests.antt =====
-- Thresholds of a run on concrete inputs.
use crankfire.Prelude.{◌≡◌, ◌↔◌, true, [], ◌∷◌, length, All}
use crankfire.Prelude.Int.{pos}
use crankfire.Prelude.Samples.{int_floats}
use crankfire.Thresholds.{Stats, RunThreshold, evaluate}
use crankfire.Thresholds.Evaluation.{Satisfied, evaluate-Satisfied}

abbrev some_stats : Stats (int_floats.F)
some_stats = record {
  total = pos 10;
  failures = pos 1;
  min_latency_ms = pos 1;
  max_latency_ms = pos 9;
  mean_latency_ms = pos 4;
  p50_latency_ms = pos 4;
  p90_latency_ms = pos 7;
  p95_latency_ms = pos 8;
  p99_latency_ms = pos 9;
  requests_per_sec = pos 5;
}

abbrev p95_below_20 : RunThreshold (int_floats.F)
p95_below_20 = record {
  metric = "http_req_duration";
  aggregate = "p95";
  operator = "<";
  value = pos 20;
  raw = "http_req_duration:p95 < 20";
}

evaluate-Satisfied_example :
    (length (evaluate int_floats (p95_below_20 ∷ []) some_stats) ≡ 1)
    × (All (λ r. r.pass ≡ true) (evaluate int_floats (p95_below_20 ∷ []) some_stats)
        ↔ All (Satisfied int_floats some_stats) (p95_below_20 ∷ []))
evaluate-Satisfied_example = evaluate-Satisfied int_floats (p95_below_20 ∷ []) some_stats
