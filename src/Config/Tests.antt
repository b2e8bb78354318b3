-- ===== src/Config/Tests.antt =====
-- Configurations with their issues, and the patterns of a valid one.
use crankfire.Prelude.{◌≡◌, refl, ◌↔◌, inl, true, false, none, [], ◌∷◌, arith, nat_eq, string_eq}
use crankfire.Prelude.Int.{pos}
use Prim.Native.Char.{Char}
use crankfire.Prelude.Samples.{int_floats}
use crankfire.Prelude.Strings.{lower_all, trim_left, trim_end, trim_space}
use crankfire.Config.{LoadPattern, RunConfig}
use crankfire.Config.Valid.{IsValid}
use crankfire.Config.Valid.Whole.{validate-IsValid}
use crankfire.Config.Validate.{validate_load_patterns, validate_pattern, validate}
use crankfire.Config.Patterns.{to_runner_load_patterns, compile_pattern_plan-to_runner}
use crankfire.Runner.Pattern.{compile_pattern_plan}

abbrev as_it_is : Char → Char
as_it_is c = c

abbrev constant_pattern : LoadPattern
constant_pattern = record {
  name = "steady";
  type = "constant";
  from_rps = pos 0;
  to_rps = pos 0;
  duration = pos 60000000000;
  steps = [];
  rps = pos 50;
}

-- `Validate` finds nothing wrong with a constant pattern.
constant_pattern-valid : validate_load_patterns as_it_is 0 (constant_pattern ∷ []) ≡ []
unfolding validate_load_patterns validate_pattern lower_all trim_left trim_end trim_space
constant_pattern-valid = refl

compile_pattern_plan-to_runner_example :
    compile_pattern_plan int_floats (to_runner_load_patterns (constant_pattern ∷ [])) ≡ none
unfolding lower_all trim_left trim_end trim_space
compile_pattern_plan-to_runner_example =
    (compile_pattern_plan-to_runner int_floats as_it_is (constant_pattern ∷ [])
        ((refl, inl (refl, omega arith, omega arith)), tt)).1
      (refl, tt)

abbrev sample_config : RunConfig
sample_config = record {
  target_url = "http://localhost";
  method = "";
  headers = [];
  body = "";
  body_file = "";
  concurrency = pos 4;
  rate = pos 0;
  duration = pos 1000;
  total = pos 0;
  timeout = pos 30;
  retries = pos 0;
  json_output = false;
  dashboard = true;
  load_patterns = constant_pattern ∷ [];
  arrival = "";
  endpoints = [];
  auth = record {
    type = "";
    token_url = "";
    client_id = "";
    client_secret = "";
    username = "";
    password = "";
    scopes = [];
    static_token = "";
    refresh_before_expiry = pos 0;
  };
  feeder = record { path = ""; type = "" };
  protocol = "http";
  websocket = record {
    messages = [];
    message_interval = pos 0;
    receive_timeout = pos 0;
    handshake_timeout = pos 0;
  };
  sse = record { read_timeout = pos 0; max_events = pos 0 };
  grpc = record {
    proto_file = "";
    service = "";
    method = "";
    message = "";
    metadata = [];
    timeout = pos 0;
    tls = false;
    insecure = false;
  };
  har_file = "";
}

validate-IsValid_example : (validate as_it_is sample_config ≡ []) ↔ IsValid as_it_is sample_config
validate-IsValid_example = validate-IsValid as_it_is sample_config
