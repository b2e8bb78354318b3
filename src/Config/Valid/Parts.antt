-- ===== src/Config/Valid/Parts.antt =====
-- The checks of the parts find nothing exactly if the parts are valid.
use crankfire.Prelude.{
  only_one, ℕ, suc, String, ◌≡◌, refl, sym, ap, subst, ◌≢◌, ◌↔◌, ◌⊎◌, inl, inr, true, false, ◌||◌,
  List, [], ◌∷◌, ◌++◌, arith, Bool-cases, All, ◌==◌, nat_eq, string_eq,
}
use crankfire.Prelude.Int.{pos, ◌≤ℤ◌}
use text.Mathlib.TextEquality.{eq_iff}
use crankfire.Prelude.Strings.{trim_space}
use crankfire.Config.{
  LoadStep, LoadPattern, Extractor, FeederConfig, WebSocketConfig, SseConfig, GrpcConfig,
  AuthConfig, Issue,
}
use crankfire.Config.Validate.{
  is_blank, is_valid_identifier, validate_arrival_config, validate_steps, validate_pattern,
  validate_extractors, validate_auth_config, validate_feeder_config, validate_protocol_config,
  validate_websocket, validate_sse, validate_grpc,
}
use crankfire.Config.Valid.{IsPositiveStep, IsPattern, IsExtractor, IsAuth, IsFeeder, IsProtocol}

empty_identifier : (s : String) → (s == "") ≡ true → is_valid_identifier s ≡ false
unfolding is_valid_identifier
empty_identifier s e = ap is_valid_identifier ((eq_iff s "").0 e)

-- The words of a feeder type are not blank.
given_type : (s : String) → (s == "csv") || (s == "json") ≡ true → is_blank s ≡ false
unfolding trim_space
given_type s h = elim (Bool-cases (s == "csv")) [
  | inl e ↦ subst (λ t. is_blank t ≡ false) (sym ((eq_iff s "csv").0 e)) refl
  | inr e ↦ subst (λ t. is_blank t ≡ false) (sym ((eq_iff s "json").0 (ground (arith, h, e)))) refl
]

steps_checked :
    (idx step_idx : ℕ) (steps : List LoadStep)
    → (validate_steps idx step_idx steps ≡ []) ↔ All IsPositiveStep steps
unfolding validate_steps
steps_checked idx step_idx [] = (λ h. tt, λ h. refl)
steps_checked idx step_idx (step ∷ steps) = ground (arith, steps_checked idx (suc step_idx) steps)

pub IsPattern-checked :
    (idx : ℕ) (kind : String) (p : LoadPattern)
    → (validate_pattern idx kind p ≡ []) ↔ IsPattern kind p
unfolding validate_pattern
IsPattern-checked idx kind p = ground (
  arith,
  steps_checked idx 0 p.steps,
  eq_iff kind "constant",
  eq_iff kind "ramp",
  eq_iff kind "step",
  eq_iff kind "spike",
  only_one kind "constant" "ramp" refl,
  only_one kind "constant" "step" refl,
  only_one kind "constant" "spike" refl,
  only_one kind "ramp" "step" refl,
  only_one kind "ramp" "spike" refl,
  only_one kind "step" "spike" refl,
)

pub arrival_checked :
    (model : String)
    → (validate_arrival_config model ≡ [])
      ↔ ((model ≡ "") ⊎ ((model ≡ "uniform") ⊎ (model ≡ "poisson")))
unfolding validate_arrival_config
arrival_checked model = elim (Bool-cases (model == "")) [
  | inl e ↦ rw (e, validate_arrival_config) ((λ h. inl ((eq_iff model "").0 e)), λ h. refl)
  | inr e ↦
      rw (e, validate_arrival_config)
        (ground (arith, e, eq_iff model "", eq_iff model "uniform", eq_iff model "poisson"))
]

pub extractors_checked :
    (endpoint_idx idx : ℕ) (exts : List Extractor)
    → (validate_extractors endpoint_idx idx exts ≡ []) ↔ All IsExtractor exts
unfolding validate_extractors
extractors_checked endpoint_idx idx [] = (λ h. tt, λ h. refl)
extractors_checked endpoint_idx idx (ext ∷ exts) = ground (
  arith,
  extractors_checked endpoint_idx (suc idx) exts,
  eq_iff (trim_space ext.json_path) "",
  eq_iff (trim_space ext.regex) "",
  empty_identifier (trim_space ext.variable),
)

pub IsAuth-checked : (auth : AuthConfig) → (validate_auth_config auth ≡ []) ↔ IsAuth auth
unfolding validate_auth_config
IsAuth-checked auth = ground (
  arith,
  eq_iff auth.type "",
  eq_iff auth.type "oauth2_client_credentials",
  eq_iff auth.type "oauth2_resource_owner",
  eq_iff auth.type "oidc_implicit",
  eq_iff auth.type "oidc_auth_code",
  eq_iff (trim_space auth.token_url) "",
  eq_iff (trim_space auth.client_id) "",
  eq_iff (trim_space auth.client_secret) "",
  eq_iff (trim_space auth.username) "",
  eq_iff (trim_space auth.password) "",
  eq_iff (trim_space auth.static_token) "",
  only_one auth.type "oauth2_client_credentials" "oauth2_resource_owner" refl,
  only_one auth.type "oauth2_client_credentials" "oidc_implicit" refl,
  only_one auth.type "oauth2_client_credentials" "oidc_auth_code" refl,
  only_one auth.type "oauth2_resource_owner" "oidc_implicit" refl,
  only_one auth.type "oauth2_resource_owner" "oidc_auth_code" refl,
)

pub IsFeeder-checked :
    (feeder : FeederConfig) → (validate_feeder_config feeder ≡ []) ↔ IsFeeder feeder
unfolding validate_feeder_config
IsFeeder-checked feeder = ground (
  arith,
  eq_iff (trim_space feeder.path) "",
  eq_iff feeder.type "csv",
  eq_iff feeder.type "json",
  given_type feeder.type,
)

pub append_nil : (xs ys : List Issue) → (xs ++ ys ≡ []) ↔ ((xs ≡ []) × (ys ≡ []))
append_nil [] ys = (λ h. (refl, h), λ h. h.1)
append_nil (x ∷ xs) ys = ground arith

websocket_checked :
    (ws : WebSocketConfig)
    → (validate_websocket ws ≡ []) ↔ (
        (pos 0 ≤ℤ ws.message_interval)
        × (pos 0 ≤ℤ ws.receive_timeout)
        × (pos 0 ≤ℤ ws.handshake_timeout))
unfolding validate_websocket
websocket_checked ws = ground arith

sse_checked :
    (sse : SseConfig)
    → (validate_sse sse ≡ []) ↔ ((pos 0 ≤ℤ sse.read_timeout) × (pos 0 ≤ℤ sse.max_events))
unfolding validate_sse
sse_checked sse = ground arith

grpc_checked :
    (grpc : GrpcConfig)
    → (validate_grpc grpc ≡ [])
      ↔ ((grpc.service ≢ "") × (grpc.method ≢ "") × (pos 0 ≤ℤ grpc.timeout))
unfolding validate_grpc
grpc_checked grpc = ground (arith, eq_iff grpc.service "", eq_iff grpc.method "")

-- The protocol's name, and what each name asks for.
abbrev Named : String → Type 0 → Type 0 → Type 0 → Type 0
Named protocol W S G =
    ((protocol ≡ "") ⊎ (protocol ≡ "http"))
    ⊎ (((protocol ≡ "websocket") × W) ⊎ (((protocol ≡ "sse") × S) ⊎ ((protocol ≡ "grpc") × G)))

protocol_named :
    (protocol : String) (ws : WebSocketConfig) (sse : SseConfig) (grpc : GrpcConfig)
    → (validate_protocol_config protocol ws sse grpc ≡ [])
      ↔ Named protocol
          (validate_websocket ws ≡ [])
          (validate_sse sse ≡ [])
          (validate_grpc grpc ≡ [])
unfolding validate_protocol_config
protocol_named protocol ws sse grpc = ground (
  arith,
  append_nil (validate_websocket ws) [],
  eq_iff protocol "",
  eq_iff protocol "http",
  eq_iff protocol "websocket",
  eq_iff protocol "sse",
  eq_iff protocol "grpc",
  only_one protocol "http" "websocket" refl,
  only_one protocol "http" "sse" refl,
  only_one protocol "http" "grpc" refl,
  only_one protocol "websocket" "sse" refl,
  only_one protocol "websocket" "grpc" refl,
  only_one protocol "sse" "grpc" refl,
)

pub IsProtocol-checked :
    (protocol : String) (ws : WebSocketConfig) (sse : SseConfig) (grpc : GrpcConfig)
    → (validate_protocol_config protocol ws sse grpc ≡ []) ↔ IsProtocol protocol ws sse grpc
IsProtocol-checked protocol ws sse grpc = ground (
  arith,
  protocol_named protocol ws sse grpc,
  websocket_checked ws,
  sse_checked sse,
  grpc_checked grpc,
)
