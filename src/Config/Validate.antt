-- ===== src/Config/Validate.antt =====
-- internal/config/config.go: `Validate` and its parts. The warnings go to stderr and change nothing.
use crankfire.Prelude.{
  ℕ, suc, String, Bool, true, false, ◌&&◌, ◌||◌, not, none, some, List, [], ◌∷◌, ◌++◌,
  if◌then◌else◌, ◌==◌, nat_eq, string_eq,
}
use crankfire.Prelude.Int.{pos, ltb_ℤ, leb_ℤ}
use crankfire.Prelude.Maps.{lookup, insert}
use Prim.Native.Char.{Char, code}
use crankfire.Prelude.Strings.{trim_space, lower_all, is_letter, are_words}
use crankfire.Config.{
  LoadStep, LoadPattern, Extractor, Endpoint, FeederConfig, WebSocketConfig, SseConfig, GrpcConfig,
  AuthConfig, RunConfig, Issue, issue, unsupported, at_pattern, at_step, unsupported_pattern,
  at_endpoint, duplicate_name, at_extractor,
}

-- `strings.TrimSpace(s) == ""`.
abbrev pub is_blank : String → Bool
is_blank s = trim_space s == ""

-- An issue that is appended under a condition.
abbrev pub when : Bool → Issue → List Issue
when b i = if b then i ∷ [] else []

-- The issues of several checks, in their order.
abbrev pub gathered : List (List Issue) → List Issue
gathered [] = []
gathered (is ∷ rest) = is ++ gathered rest

unfoldable pub is_valid_identifier : String → Bool
is_valid_identifier String.[] = false
is_valid_identifier (String.◌∷◌ c s) = is_letter (code c) && are_words s

unfoldable pub validate_arrival_config : String → List Issue
validate_arrival_config model =
    let given = if model == "" then "uniform" else model in
    if given == "uniform" || given == "poisson" then [] else unsupported "arrival model" given ∷ []

unfoldable pub validate_steps : ℕ → ℕ → List LoadStep → List Issue
validate_steps idx step_idx [] = []
validate_steps idx step_idx (step ∷ steps) =
    when (ltb_ℤ step.rps (pos 0)) (at_step idx step_idx "rps")
    ++ (when (leb_ℤ step.duration (pos 0)) (at_step idx step_idx "duration")
        ++ validate_steps idx (suc step_idx) steps)

abbrev pub no_steps : List LoadStep → Bool
no_steps [] = true
no_steps (step ∷ steps) = false

-- The cases of the switch, by the type in lower case.
unfoldable pub validate_pattern : ℕ → String → LoadPattern → List Issue
validate_pattern idx kind p =
    if kind == "constant"
    then when (leb_ℤ p.rps (pos 0)) (at_pattern idx "rps")
      ++ when (leb_ℤ p.duration (pos 0)) (at_pattern idx "duration")
    else if kind == "ramp"
    then when (leb_ℤ p.duration (pos 0)) (at_pattern idx "duration")
      ++ when (ltb_ℤ p.from_rps (pos 0) || ltb_ℤ p.to_rps (pos 0))
          (at_pattern idx "from_rps and to_rps")
    else if kind == "step"
    then when (no_steps p.steps) (at_pattern idx "steps") ++ validate_steps idx 0 p.steps
    else if kind == "spike"
    then when (leb_ℤ p.rps (pos 0)) (at_pattern idx "rps")
      ++ when (leb_ℤ p.duration (pos 0)) (at_pattern idx "duration")
    else unsupported_pattern idx p.type ∷ []

unfoldable pub validate_extractors : ℕ → ℕ → List Extractor → List Issue
validate_extractors endpoint_idx idx [] = []
validate_extractors endpoint_idx idx (ext ∷ exts) =
    let has_json_path = not (is_blank ext.json_path) in
    let has_regex = not (is_blank ext.regex) in
    let variable = trim_space ext.variable in
    when (not has_json_path && not has_regex)
      (at_extractor endpoint_idx idx "either jsonpath or regex")
    ++ (when (has_json_path && has_regex) (at_extractor endpoint_idx idx "not both")
        ++ ((if variable == ""
              then at_extractor endpoint_idx idx "var is required" ∷ []
              else when (not (is_valid_identifier variable)) (at_extractor endpoint_idx idx "var"))
            ++ validate_extractors endpoint_idx (suc idx) exts))

unfoldable pub validate_auth_config : AuthConfig → List Issue
validate_auth_config auth =
    if auth.type == ""
    then []
    else if auth.type == "oauth2_client_credentials"
    then when (is_blank auth.token_url) (issue "token_url")
      ++ (when (is_blank auth.client_id) (issue "client_id")
          ++ when (is_blank auth.client_secret) (issue "client_secret"))
    else if auth.type == "oauth2_resource_owner"
    then gathered (
        when (is_blank auth.token_url) (issue "token_url")
        ∷ when (is_blank auth.client_id) (issue "client_id")
        ∷ when (is_blank auth.client_secret) (issue "client_secret")
        ∷ when (is_blank auth.username) (issue "username")
        ∷ when (is_blank auth.password) (issue "password")
        ∷ [])
    else if auth.type == "oidc_implicit"
    then when (is_blank auth.static_token) (issue "static_token")
    else if auth.type == "oidc_auth_code"
    then when (is_blank auth.static_token) (issue "static_token")
    else unsupported "auth type" auth.type ∷ []

unfoldable pub validate_feeder_config : FeederConfig → List Issue
validate_feeder_config feeder =
    if is_blank feeder.path
    then []
    else if is_blank feeder.type
    then issue "feeder type" ∷ []
    else when (not (feeder.type == "csv") && not (feeder.type == "json"))
        (unsupported "feeder type" feeder.type)

abbrev pub is_protocol : String → Bool
is_protocol p = p == "http" || p == "websocket" || p == "sse" || p == "grpc"

unfoldable pub validate_websocket : WebSocketConfig → List Issue
validate_websocket ws =
    when (ltb_ℤ ws.message_interval (pos 0)) (issue "message_interval")
    ++ (when (ltb_ℤ ws.receive_timeout (pos 0)) (issue "receive_timeout")
        ++ when (ltb_ℤ ws.handshake_timeout (pos 0)) (issue "handshake_timeout"))

unfoldable pub validate_sse : SseConfig → List Issue
validate_sse sse =
    when (ltb_ℤ sse.read_timeout (pos 0)) (issue "read_timeout")
    ++ when (ltb_ℤ sse.max_events (pos 0)) (issue "max_events")

unfoldable pub validate_grpc : GrpcConfig → List Issue
validate_grpc grpc =
    when (grpc.service == "") (issue "service")
    ++ (when (grpc.method == "") (issue "method")
        ++ when (ltb_ℤ grpc.timeout (pos 0)) (issue "timeout"))

unfoldable pub validate_protocol_config :
    String → WebSocketConfig → SseConfig → GrpcConfig → List Issue
validate_protocol_config protocol ws sse grpc =
    if protocol == ""
    then []
    else if not (is_protocol protocol)
    then unsupported "protocol" protocol ∷ []
    else (if protocol == "websocket" then validate_websocket ws else [])
      ++ ((if protocol == "sse" then validate_sse sse else [])
          ++ (if protocol == "grpc" then validate_grpc grpc else []))

-- The loop over the endpoints' URLs.
unfoldable pub all_provide_url : List Endpoint → Bool
all_provide_url [] = true
all_provide_url (ep ∷ eps) = not (is_blank ep.url) && all_provide_url eps

abbrev pub has_endpoints : List Endpoint → Bool
has_endpoints [] = false
has_endpoints (ep ∷ eps) = true

abbrev pub target_satisfied : RunConfig → Bool
target_satisfied c =
    not (is_blank c.har_file) || has_endpoints c.endpoints && all_provide_url c.endpoints

module _ (lower : Char → Char) where
  -- `strings.ToLower(strings.TrimSpace(s))`.
  abbrev pub folded : String → String
  folded s = lower_all lower (trim_space s)

  unfoldable pub validate_load_patterns : ℕ → List LoadPattern → List Issue
  validate_load_patterns idx [] = []
  validate_load_patterns idx (p ∷ ps) =
      (if is_blank p.type
        then at_pattern idx "type is required" ∷ []
        else validate_pattern idx (folded p.type) p)
      ++ validate_load_patterns (suc idx) ps

  abbrev pub Seen : Type 0
  Seen = List (String × ℕ)

  -- The check of an endpoint's name: its issue, and the names seen now.
  unfoldable pub see_name : ℕ → String → Seen → List Issue × Seen
  see_name idx name seen = if is_blank name then ([], seen) else elim (lookup (folded name) seen) [
    | some prev ↦ (duplicate_name idx prev ∷ [], seen)
    | none ↦ ([], insert (folded name) idx seen)
  ]

  unfoldable pub validate_endpoints : ℕ → Seen → List Endpoint → List Issue
  validate_endpoints idx seen [] = []
  validate_endpoints idx seen (ep ∷ eps) =
      let named = see_name idx ep.name seen in
      when (leb_ℤ ep.weight (pos 0)) (at_endpoint idx "weight")
      ++ (when (not (is_blank ep.body) && not (is_blank ep.body_file))
            (at_endpoint idx "body and bodyFile")
          ++ (named.0
              ++ (validate_extractors idx 0 ep.extractors
                  ++ validate_endpoints (suc idx) named.1 eps)))

  -- The checks in their order.
  abbrev pub checks : RunConfig → List (List Issue)
  checks c =
      when (is_blank c.target_url && not (target_satisfied c)) (issue "target")
      ∷ when (ltb_ℤ c.concurrency (pos 1)) (issue "concurrency")
      ∷ when (ltb_ℤ c.rate (pos 0)) (issue "rate")
      ∷ when (ltb_ℤ c.total (pos 0)) (issue "total")
      ∷ when (ltb_ℤ c.timeout (pos 0)) (issue "timeout")
      ∷ when (ltb_ℤ c.retries (pos 0)) (issue "retries")
      ∷ when (ltb_ℤ c.duration (pos 0)) (issue "duration")
      ∷ when (not (is_blank c.body) && not (is_blank c.body_file)) (issue "body and bodyFile")
      ∷ when (c.dashboard && c.json_output) (issue "dashboard and json-output")
      ∷ validate_arrival_config c.arrival
      ∷ validate_load_patterns 0 c.load_patterns
      ∷ validate_endpoints 0 [] c.endpoints
      ∷ validate_auth_config c.auth
      ∷ validate_feeder_config c.feeder
      ∷ validate_protocol_config c.protocol c.websocket c.sse c.grpc
      ∷ []

  -- The issues; an error is returned where there are some.
  unfoldable pub validate : RunConfig → List Issue
  validate c = gathered (checks c)
