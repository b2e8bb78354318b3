-- ===== src/Config.antt =====
-- internal/config/config.go: the configuration of a run, as far as it is validated.
use crankfire.Prelude.{
  ℕ, zero, suc, ◌+◌, ◌-◌, ◌*◌, ◌/◌, ◌%◌, ◌^◌, ◌≤◌, ◌<◌, min, max, String, ◌≡◌, refl, sym, ap, ◌∙◌,
  subst, ◌≢◌, ◌↔◌, ◌⊎◌, inl, inr, Bool, true, false, ◌&&◌, ◌||◌, not, Option, none, some, List, [],
  ◌∷◌, ◌++◌, map, arith, ltb, leb, nat_beq, if◌then◌else◌, tests, Bool-cases, Option-cases, length,
  get_elem?, get_or, set, replicate, length-append, length-map, length-set, All, In, Eq, ◌==◌,
  nat_eq, string_eq, Float64, le_f, zero_f,
}
use crankfire.Prelude.Int.{
  ℤ, pos, negsuc, pos_part, quot, rem, neg_part, sub_ℕ, ◌+ℤ◌, ◌-ℤ◌, ◌*ℤ◌, ◌≤ℤ◌, ◌<ℤ◌, ltb_ℤ, leb_ℤ,
  beq_ℤ, int_laws,
}
use crankfire.Prelude.Int64.{
  wrap64, add64, sub64, mul64, Fits64, wrap64-of_Fits64, add64-of_Fits64, add64-pos, sub64-pos,
}
use crankfire.Prelude.Maps.{
  lookup, value_or, insert, delete, write_all, lookup-insert, lookup-insert_self, lookup-delete,
  lookup-write_all, beq_refl, or_else, NoDup, insert-NoDup,
}
pub mod Validate
pub mod Valid
pub mod Patterns
mod Tests

pub record LoadStep : Type 0 where
  pub rps : ℤ
  pub duration : ℤ

pub record LoadPattern : Type 0 where
  pub name : String
  pub type : String
  pub from_rps : ℤ
  pub to_rps : ℤ
  pub duration : ℤ
  pub steps : List LoadStep
  pub rps : ℤ

pub record Extractor : Type 0 where
  pub json_path : String
  pub regex : String
  pub variable : String
  pub on_error : Bool

pub record Endpoint : Type 0 where
  pub name : String
  pub weight : ℤ
  pub method : String
  pub url : String
  pub path : String
  pub headers : List (String × String)
  pub body : String
  pub body_file : String
  pub extractors : List Extractor

pub record FeederConfig : Type 0 where
  pub path : String
  pub type : String

pub record WebSocketConfig : Type 0 where
  pub messages : List String
  pub message_interval : ℤ
  pub receive_timeout : ℤ
  pub handshake_timeout : ℤ

pub record SseConfig : Type 0 where
  pub read_timeout : ℤ
  pub max_events : ℤ

pub record GrpcConfig : Type 0 where
  pub proto_file : String
  pub service : String
  pub method : String
  pub message : String
  pub metadata : List (String × String)
  pub timeout : ℤ
  pub tls : Bool
  pub insecure : Bool

pub record AuthConfig : Type 0 where
  pub type : String
  pub token_url : String
  pub client_id : String
  pub client_secret : String
  pub username : String
  pub password : String
  pub scopes : List String
  pub static_token : String
  pub refresh_before_expiry : ℤ

-- `Config`, as far as `Validate` and the endpoints read it: `arrival` is the arrival model.
pub record RunConfig : Type 0 where
  pub target_url : String
  pub method : String
  pub headers : List (String × String)
  pub body : String
  pub body_file : String
  pub concurrency : ℤ
  pub rate : ℤ
  pub duration : ℤ
  pub total : ℤ
  pub timeout : ℤ
  pub retries : ℤ
  pub json_output : Bool
  pub dashboard : Bool
  pub load_patterns : List LoadPattern
  pub arrival : String
  pub endpoints : List Endpoint
  pub auth : AuthConfig
  pub feeder : FeederConfig
  pub protocol : String
  pub websocket : WebSocketConfig
  pub sse : SseConfig
  pub grpc : GrpcConfig
  pub har_file : String

-- The issues, from which the messages are formatted: a field, or an index with what is wrong there.
pub data Issue : Type 0 where
  issue : String → Issue
  unsupported : String → String → Issue
  at_pattern : ℕ → String → Issue
  at_step : ℕ → ℕ → String → Issue
  unsupported_pattern : ℕ → String → Issue
  at_endpoint : ℕ → String → Issue
  duplicate_name : ℕ → ℕ → Issue
  at_extractor : ℕ → ℕ → String → Issue
