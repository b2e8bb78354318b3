-- ===== src/Config/Patterns.antt =====
-- internal/cli/run.go: the load patterns and the arrival model of the configuration, handed to the runner.
use crankfire.Prelude.{
  only_one, String, ◌≡◌, refl, subst, ◌≢◌, ◌↔◌, true, false, not, none, List, [], ◌∷◌, arith,
  if◌then◌else◌, All, ◌==◌, nat_eq, string_eq, Float64,
}
use Prim.Native.Char.{Char}
use text.Mathlib.TextEquality.{eq_iff}
use crankfire.Prelude.Strings.{lower_all}
use crankfire.Config.{LoadStep, LoadPattern}
use crankfire.Config.Validate.{folded}
use crankfire.Config.Valid.{IsPositiveStep, IsPattern}
use crankfire.Runner.Pattern as Pattern
use crankfire.Runner.Pattern.{compile_pattern_plan}
use crankfire.Runner.Pattern.Silent.{
  any_lasting, takes_time, any_takes_time, compile_pattern_plan-none,
}
use crankfire.Runner.Options.{arrival_model_uniform, arrival_model_poisson}

pub to_runner_load_steps : List LoadStep → List Pattern.LoadStep
to_runner_load_steps [] = []
to_runner_load_steps (s ∷ ss) =
    record { rps = s.rps; duration = s.duration } ∷ to_runner_load_steps ss

abbrev to_runner_load_pattern : LoadPattern → Pattern.LoadPattern
to_runner_load_pattern p = record {
  name = p.name;
  type = p.type;
  from_rps = p.from_rps;
  to_rps = p.to_rps;
  duration = p.duration;
  steps = to_runner_load_steps p.steps;
  rps = p.rps;
}

unfoldable pub to_runner_load_patterns : List LoadPattern → List Pattern.LoadPattern
to_runner_load_patterns [] = []
to_runner_load_patterns (p ∷ ps) = to_runner_load_pattern p ∷ to_runner_load_patterns ps

any_lasting-to_runner :
    (ss : List LoadStep)
    → ss ≢ []
    → All IsPositiveStep ss
    → any_lasting (to_runner_load_steps ss) ≡ true
unfolding to_runner_load_steps
any_lasting-to_runner [] given v = absurd (given refl)
any_lasting-to_runner (s ∷ ss) given v = ground (arith, v.0.1)

-- A valid pattern takes time unless it is a constant one.
takes_time-IsPattern :
    (p : LoadPattern)
    → IsPattern p.type p
    → takes_time (to_runner_load_pattern p) ≡ not (p.type == "constant")
takes_time-IsPattern p v = ground (
  arith,
  v,
  any_lasting-to_runner p.steps,
  eq_iff p.type "constant",
  eq_iff p.type "ramp",
  eq_iff p.type "step",
  eq_iff p.type "spike",
  only_one p.type "constant" "ramp" refl,
  only_one p.type "constant" "step" refl,
  only_one p.type "constant" "spike" refl,
  only_one p.type "ramp" "step" refl,
  only_one p.type "ramp" "spike" refl,
  only_one p.type "step" "spike" refl,
)

module _ (R : Float64) (lower : Char → Char) where
  -- A pattern whose type is written as `buildLoadPattern` of the loader stores it, trimmed and in lower
  -- case, and that is valid.
  abbrev pub IsStored : LoadPattern → Type 0
  IsStored p = (folded lower p.type ≡ p.type) × IsPattern (folded lower p.type) p

  constant_only :
      (ps : List LoadPattern)
      → All IsStored ps
      → (any_takes_time (to_runner_load_patterns ps) ≡ false) ↔ All (λ p. p.type ≡ "constant") ps
  unfolding to_runner_load_patterns
  constant_only [] v = (λ h. tt, λ h. refl)
  constant_only (p ∷ ps) v =
      let here = takes_time-IsPattern p (subst (λ kind. IsPattern kind p) v.0.0 v.0.1) in
      ground (arith, constant_only ps v.1, here, eq_iff p.type "constant")

  -- Of load patterns that `Validate` accepts, with their types as the loader stores them, the runner makes
  -- a plan exactly if one of them is not constant: it makes none for patterns that are all constant.
  pub compile_pattern_plan-to_runner :
      (ps : List LoadPattern)
      → All IsStored ps
      → (compile_pattern_plan R (to_runner_load_patterns ps) ≡ none)
        ↔ All (λ p. p.type ≡ "constant") ps
  compile_pattern_plan-to_runner ps v =
      let plan = compile_pattern_plan-none R (to_runner_load_patterns ps) in
      let constant = constant_only ps v in (λ h. constant.0 (plan.0 h), λ h. plan.1 (constant.1 h))

  -- `strings.ToLower` of the model, which keeps the white space.
  pub to_runner_arrival_model : String → String
  to_runner_arrival_model model =
      if lower_all lower model == "poisson" then arrival_model_poisson else arrival_model_uniform
