-- ===== src/Endpoints/Template/Tests.antt =====
-- The template of an endpoint that posts a body to a target with a path.
use crankfire.Prelude.{
  ℕ, String, ◌≡◌, refl, inl, false, Option, none, some, [], ◌∷◌, if◌then◌else◌, ◌==◌, nat_eq,
  string_eq,
}
use crankfire.Prelude.Int.{pos}
use crankfire.Prelude.Maps.{lookup}
use Prim.Native.Char.{Char}
use crankfire.Prelude.Strings.{trim_left, trim_end, trim_space}
use crankfire.Config.{Endpoint, RunConfig}
use crankfire.Config.Validate
use crankfire.Endpoints.Template.{build_endpoint_template}
use crankfire.Endpoints.Template.Accepted.{Acceptable, build_endpoint_template-Acceptable}

abbrev kept : Char → Char
kept c = c

abbrev one_file : String → Option (Option ℕ)
one_file path = if path == "order.json" then some (some 12) else none

abbrev orders : Endpoint
orders = record {
  name = "orders";
  weight = pos 3;
  method = "POST";
  url = " http://shop/orders ";
  path = "";
  headers = ("Accept", "text/plain") ∷ [];
  body = "";
  body_file = "order.json";
  extractors = [];
}

abbrev shop : RunConfig
shop = record {
  target_url = "";
  method = "";
  headers = [];
  body = "";
  body_file = "";
  concurrency = pos 1;
  rate = pos 0;
  duration = pos 0;
  total = pos 10;
  timeout = pos 30;
  retries = pos 0;
  json_output = false;
  dashboard = false;
  load_patterns = [];
  arrival = "";
  endpoints = orders ∷ [];
  auth = record {
    type = "";
    token_url = "";
    client_id = "";
    client_secret = "";
    username = "";
    password = "";
    scopes = [];
    static_token = "";
    refresh_before_expiry = pos 0;
  };
  feeder = record { path = ""; type = "" };
  protocol = "";
  websocket = record {
    messages = [];
    message_interval = pos 0;
    receive_timeout = pos 0;
    handshake_timeout = pos 0;
  };
  sse = record { read_timeout = pos 0; max_events = pos 0 };
  grpc = record {
    proto_file = "";
    service = "";
    method = "";
    message = "";
    metadata = [];
    timeout = pos 0;
    tls = false;
    insecure = false;
  };
  har_file = "";
}

shop-validated : Validate.validate kept shop ≡ []
unfolding Validate.validate Validate.validate_arrival_config Validate.validate_load_patterns
    Validate.validate_endpoints Validate.see_name Validate.validate_extractors
    Validate.validate_auth_config Validate.validate_feeder_config Validate.validate_protocol_config
    Validate.all_provide_url trim_left trim_end trim_space lookup
shop-validated = refl

build_endpoint_template-Acceptable_example :
    Acceptable one_file orders
      (build_endpoint_template (λ key. key) kept one_file some (λ base rel. rel) shop orders)
unfolding trim_left trim_end trim_space
build_endpoint_template-Acceptable_example =
    build_endpoint_template-Acceptable (λ key. key) kept kept one_file some (λ base rel. rel) shop
      orders shop-validated refl (inl refl) (0, refl)
