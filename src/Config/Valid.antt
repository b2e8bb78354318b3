-- ===== src/Config/Valid.antt =====
-- When the parts of a configuration are valid, said without the checks.
pub mod Parts
pub mod Whole
use crankfire.Prelude.{
  ℕ, zero, suc, ◌+◌, ◌-◌, ◌*◌, ◌/◌, ◌%◌, ◌^◌, ◌≤◌, ◌<◌, min, max, String, ◌≡◌, refl, sym, ap, ◌∙◌,
  subst, ◌≢◌, ◌↔◌, ◌⊎◌, inl, inr, Bool, true, false, ◌&&◌, ◌||◌, not, Option, none, some, List, [],
  ◌∷◌, ◌++◌, map, arith, ltb, leb, nat_beq, if◌then◌else◌, tests, Bool-cases, Option-cases, length,
  get_elem?, get_or, set, replicate, length-append, length-map, length-set, All, In, Eq, ◌==◌,
  nat_eq, string_eq, Float64, le_f, zero_f,
}
use crankfire.Prelude.Int.{
  ℤ, pos, negsuc, pos_part, quot, rem, neg_part, sub_ℕ, ◌+ℤ◌, ◌-ℤ◌, ◌*ℤ◌, ◌≤ℤ◌, ◌<ℤ◌, ltb_ℤ, leb_ℤ,
  beq_ℤ, int_laws,
}
use crankfire.Prelude.Int64.{
  wrap64, add64, sub64, mul64, Fits64, wrap64-of_Fits64, add64-of_Fits64, add64-pos, sub64-pos,
}
use crankfire.Prelude.Maps.{
  lookup, value_or, insert, delete, write_all, lookup-insert, lookup-insert_self, lookup-delete,
  lookup-write_all, beq_refl, or_else, NoDup, insert-NoDup,
}
use Prim.Native.Char.{Char}
use text.Mathlib.TextEquality.{eq_iff}
use crankfire.Prelude.Strings.{trim_space, lower_all}
use crankfire.Config.{
  LoadStep, LoadPattern, Extractor, Endpoint, FeederConfig, WebSocketConfig, SseConfig, GrpcConfig,
  AuthConfig, RunConfig, Issue, issue,
}
use crankfire.Config.Validate.{
  gathered, when, is_blank, is_valid_identifier, validate_arrival_config, validate_steps, no_steps,
  validate_pattern, validate_extractors, validate_auth_config, validate_feeder_config,
  validate_protocol_config, validate_websocket, validate_sse, validate_grpc, all_provide_url,
  folded, validate_load_patterns, see_name, Seen, validate_endpoints, validate,
}

-- Not only white space.
abbrev pub IsGiven : String → Type 0
IsGiven s = trim_space s ≢ ""

abbrev pub IsPositiveStep : LoadStep → Type 0
IsPositiveStep step = (pos 0 ≤ℤ step.rps) × (pos 0 <ℤ step.duration)

-- A pattern of one of the four kinds.
abbrev pub IsPattern : String → LoadPattern → Type 0
IsPattern kind p =
    ((kind ≡ "constant") × (pos 0 <ℤ p.rps) × (pos 0 <ℤ p.duration))
    ⊎ (((kind ≡ "ramp") × (pos 0 <ℤ p.duration) × (pos 0 ≤ℤ p.from_rps) × (pos 0 ≤ℤ p.to_rps))
        ⊎ (((kind ≡ "step") × (p.steps ≢ []) × All IsPositiveStep p.steps)
            ⊎ ((kind ≡ "spike") × (pos 0 <ℤ p.rps) × (pos 0 <ℤ p.duration))))

abbrev pub IsExtractor : Extractor → Type 0
IsExtractor ext =
    ((IsGiven ext.json_path × (trim_space ext.regex ≡ ""))
      ⊎ ((trim_space ext.json_path ≡ "") × IsGiven ext.regex))
    × (is_valid_identifier (trim_space ext.variable) ≡ true)

abbrev pub IsEndpoint : Endpoint → Type 0
IsEndpoint ep =
    (pos 0 <ℤ ep.weight)
    × ((trim_space ep.body ≡ "") ⊎ (trim_space ep.body_file ≡ ""))
    × All IsExtractor ep.extractors

-- The secrets that the kind of authentication needs.
abbrev pub IsAuth : AuthConfig → Type 0
IsAuth auth =
    (auth.type ≡ "")
    ⊎ (((auth.type ≡ "oauth2_client_credentials")
          × IsGiven auth.token_url
          × IsGiven auth.client_id
          × IsGiven auth.client_secret)
        ⊎ (((auth.type ≡ "oauth2_resource_owner")
              × IsGiven auth.token_url
              × IsGiven auth.client_id
              × IsGiven auth.client_secret
              × IsGiven auth.username
              × IsGiven auth.password)
            ⊎ (((auth.type ≡ "oidc_implicit") ⊎ (auth.type ≡ "oidc_auth_code"))
                × IsGiven auth.static_token)))

abbrev pub IsFeeder : FeederConfig → Type 0
IsFeeder feeder = (trim_space feeder.path ≡ "") ⊎ ((feeder.type ≡ "csv") ⊎ (feeder.type ≡ "json"))

abbrev pub IsProtocol : String → WebSocketConfig → SseConfig → GrpcConfig → Type 0
IsProtocol protocol ws sse grpc =
    ((protocol ≡ "") ⊎ (protocol ≡ "http"))
    ⊎ (((protocol ≡ "websocket")
          × (pos 0 ≤ℤ ws.message_interval)
          × (pos 0 ≤ℤ ws.receive_timeout)
          × (pos 0 ≤ℤ ws.handshake_timeout))
        ⊎ (((protocol ≡ "sse") × (pos 0 ≤ℤ sse.read_timeout) × (pos 0 ≤ℤ sse.max_events))
            ⊎ ((protocol ≡ "grpc")
                × (grpc.service ≢ "")
                × (grpc.method ≢ "")
                × (pos 0 ≤ℤ grpc.timeout))))

-- The target is given, or a HAR file, or every endpoint has a URL.
abbrev pub HasTarget : RunConfig → Type 0
HasTarget c =
    IsGiven c.target_url
    ⊎ (IsGiven c.har_file ⊎ ((c.endpoints ≢ []) × All (λ ep. IsGiven ep.url) c.endpoints))

module _ (lower : Char → Char) where
  -- Names that are given differ by more than case and the white space around them.
  abbrev pub IsOtherName : String → Endpoint → Type 0
  IsOtherName name ep = (trim_space ep.name ≡ "") ⊎ (folded lower name ≢ folded lower ep.name)

  abbrev pub DistinctNames : List Endpoint → Type 0
  DistinctNames [] = Unit
  DistinctNames (ep ∷ eps) =
      ((trim_space ep.name ≡ "") ⊎ All (IsOtherName ep.name) eps) × DistinctNames eps

  pub record IsValid (c : RunConfig) : Type 0 where
    pub target : HasTarget c
    pub workers : pos 1 ≤ℤ c.concurrency
    pub rated : pos 0 ≤ℤ c.rate
    pub counted : pos 0 ≤ℤ c.total
    pub timed : pos 0 ≤ℤ c.timeout
    pub retried : pos 0 ≤ℤ c.retries
    pub lasting : pos 0 ≤ℤ c.duration
    pub one_body : (trim_space c.body ≡ "") ⊎ (trim_space c.body_file ≡ "")
    pub one_output : (c.dashboard ≡ false) ⊎ (c.json_output ≡ false)
    pub arriving : (c.arrival ≡ "") ⊎ ((c.arrival ≡ "uniform") ⊎ (c.arrival ≡ "poisson"))
    pub patterns : All (λ p. IsPattern (folded lower p.type) p) c.load_patterns
    pub endpoints_ok : All IsEndpoint c.endpoints
    pub names : DistinctNames c.endpoints
    pub secrets : IsAuth c.auth
    pub fed : IsFeeder c.feeder
    pub spoken : IsProtocol c.protocol c.websocket c.sse c.grpc
