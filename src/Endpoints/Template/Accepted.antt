-- ===== src/Endpoints/Template/Accepted.antt =====
-- What a valid configuration guarantees of the templates of its endpoints.
use crankfire.Prelude.{
  ℕ, String, ◌≡◌, sym, ◌∙◌, subst, ◌≢◌, ◌⊎◌, inl, inr, Option, List, [], arith, In, All-In, nat_eq,
  string_eq,
}
use crankfire.Prelude.Int.{pos, ◌<ℤ◌}
use Prim.Native.Char.{Char}
use crankfire.Prelude.Strings.{trim_space}
use crankfire.Config.{RunConfig, Endpoint}
use crankfire.Config.Validate.{validate}
use crankfire.Config.Valid.{IsGiven, IsEndpoint, HasTarget}
use crankfire.Config.Valid.Whole.{validate-IsValid}
use crankfire.Endpoints.{EndpointTemplate}
use crankfire.Endpoints.Template.{
  BuildError, target_required, RequestBuilder, TemplateRequest, template_weight, method_of,
  bodies_of, new_body_source, resolve_endpoint_url, set_headers, merge_headers, new_request_builder,
  build_endpoint_template,
}
use crankfire.Endpoints.Template.Faults.{
  Sum-cases, IsOutside, IsClear, resolve_endpoint_url-IsOutside, new_body_source-IsOutside,
  set_headers-IsOutside,
}
use crankfire.Endpoints.Template.Bodies.{Sends, new_body_source-inline, new_body_source-file}

has_url :
    (cfg : RunConfig) (ep : Endpoint)
    → HasTarget cfg
    → trim_space cfg.har_file ≡ ""
    → In ep cfg.endpoints
    → (trim_space cfg.target_url ≢ "") ⊎ IsGiven ep.url
has_url cfg ep (inl given) no_har found = inl given
has_url cfg ep (inr (inl har)) no_har found = absurd (har no_har)
has_url cfg ep (inr (inr (any, all))) no_har found =
    inr (All-In (λ ep. IsGiven ep.url) cfg.endpoints found.0 ep all found.1)

weight_kept : (ep : Endpoint) → (pos 0 <ℤ ep.weight) → template_weight ep ≡ ep.weight
unfolding template_weight
weight_kept ep h = ground (arith, h)

-- An error from outside, or the endpoint's weight with its body.
abbrev pub Acceptable :
    (String → Option (Option ℕ)) → Endpoint → BuildError ⊎ EndpointTemplate TemplateRequest → Type 0
Acceptable stat ep (inl err) = IsOutside err
Acceptable stat ep (inr t) = (t.weight ≡ ep.weight) × Sends stat ep t.request.builder.body

module _ (canonical : String → String) where
  module _ (lower upper : Char → Char) (stat : String → Option (Option ℕ)) {Url : Type 0}
      (parse_url : String → Option Url) (resolve : Url → Url → String) where
    new_request_builder_error :
        (target method : String) (headers : List (String × String)) (bodies : String × String)
        (err : BuildError)
        → new_request_builder canonical upper stat target method headers bodies ≡ inl err
        → (target_required ≡ err)
          ⊎ ((new_body_source stat bodies.0 bodies.1 ≡ inl err)
              ⊎ (set_headers canonical headers [] ≡ inl err))
    unfolding new_request_builder
    new_request_builder_error target method headers bodies err e =
        elim (Sum-cases (new_body_source stat bodies.0 bodies.1)) [
          | inl (bad, failed) ↦ ground (arith, failed, e)
          | inr (body, made) ↦ elim (Sum-cases (set_headers canonical headers [])) [
            | inl (bad, failed) ↦ ground (arith, made, failed, e)
            | inr (canonicals, done) ↦ ground (arith, made, done, e)
          ]
        ]

    new_request_builder_body :
        (target method : String) (headers : List (String × String)) (bodies : String × String)
        (b : RequestBuilder)
        → new_request_builder canonical upper stat target method headers bodies ≡ inr b
        → new_body_source stat bodies.0 bodies.1 ≡ inr b.body
    unfolding new_request_builder
    new_request_builder_body target method headers bodies b e =
        elim (Sum-cases (new_body_source stat bodies.0 bodies.1)) [
          | inl (bad, failed) ↦ ground (arith, failed, e)
          | inr (body, made) ↦ elim (Sum-cases (set_headers canonical headers [])) [
            | inl (bad, failed) ↦ ground (arith, made, failed, e)
            | inr (canonicals, done) ↦ ground (arith, made, done, e)
          ]
        ]

    build_endpoint_template_error :
        (cfg : RunConfig) (ep : Endpoint) (err : BuildError)
        → build_endpoint_template canonical upper stat parse_url resolve cfg ep ≡ inl err
        → (resolve_endpoint_url parse_url resolve (trim_space cfg.target_url) ep ≡ inl err)
          ⊎ ((target : String) × (new_request_builder canonical upper stat target
                  (method_of cfg ep)
                  (merge_headers canonical cfg.headers ep.headers)
                  (bodies_of cfg ep)
                ≡ inl err))
    unfolding build_endpoint_template
    build_endpoint_template_error cfg ep err e =
        elim (Sum-cases (resolve_endpoint_url parse_url resolve (trim_space cfg.target_url) ep)) [
          | inl (bad, failed) ↦ inl (ground (arith, failed, e))
          | inr (target, resolved) ↦
              elim (Sum-cases (
                new_request_builder canonical upper stat target (method_of cfg ep)
                  (merge_headers canonical cfg.headers ep.headers) (bodies_of cfg ep))) [
                    | inl (bad, failed) ↦ inr (target, ground (arith, resolved, failed, e))
                    | inr (b, made) ↦ ground (arith, resolved, made, e)
                  ]
        ]

    build_endpoint_template_made :
        (cfg : RunConfig) (ep : Endpoint) (t : EndpointTemplate TemplateRequest)
        → build_endpoint_template canonical upper stat parse_url resolve cfg ep ≡ inr t
        → (t.weight ≡ template_weight ep)
          × (new_body_source stat (bodies_of cfg ep).0 (bodies_of cfg ep).1
              ≡ inr t.request.builder.body)
    unfolding build_endpoint_template
    build_endpoint_template_made cfg ep t e =
        elim (Sum-cases (resolve_endpoint_url parse_url resolve (trim_space cfg.target_url) ep)) [
          | inl (bad, failed) ↦ ground (arith, failed, e)
          | inr (target, resolved) ↦
              elim (Sum-cases (
                new_request_builder canonical upper stat target (method_of cfg ep)
                  (merge_headers canonical cfg.headers ep.headers) (bodies_of cfg ep))) [
                    | inl (bad, failed) ↦ ground (arith, resolved, failed, e)
                    | inr (b, made) ↦
                        let body =
                          new_request_builder_body target (method_of cfg ep)
                            (merge_headers canonical cfg.headers ep.headers) (bodies_of cfg ep) b
                            made in
                        ground (arith, resolved, made, e, body)
                  ]
        ]

    -- In a configuration that `Validate` accepts, that reads no HAR file and whose body is empty or more
    -- than white space, building the template of an endpoint can fail only at what lies outside the
    -- configuration's checks: a URL that does not parse, an empty URL that is resolved, a body file that
    -- is not there or is a directory, a header. It never lacks a URL and never finds two bodies; and the
    -- template that it makes has the endpoint's weight, and its body or body file where it gives one.
    pub build_endpoint_template-Acceptable :
        (cfg : RunConfig) (ep : Endpoint)
        → validate lower cfg ≡ []
        → trim_space cfg.har_file ≡ ""
        → IsClear cfg.body
        → In ep cfg.endpoints
        → Acceptable stat ep (build_endpoint_template canonical upper stat parse_url resolve cfg ep)
    build_endpoint_template-Acceptable cfg ep v no_har clear found =
        let ok = (validate-IsValid lower cfg).0 v in
        let here = All-In IsEndpoint cfg.endpoints found.0 ep ok.endpoints_ok found.1 in
        elim (Sum-cases (build_endpoint_template canonical upper stat parse_url resolve cfg ep)) [
          | inl (err, e) ↦
              subst (Acceptable stat ep) (sym e)
                (elim (build_endpoint_template_error cfg ep err e) [
                  | inl unresolved ↦
                      resolve_endpoint_url-IsOutside parse_url resolve (trim_space cfg.target_url)
                        ep err (has_url cfg ep ok.target no_har found) unresolved
                  | inr (target, unbuilt) ↦
                      elim (new_request_builder_error target (method_of cfg ep)
                        (merge_headers canonical cfg.headers ep.headers) (bodies_of cfg ep) err
                        unbuilt) [
                          | inl missing ↦ subst IsOutside missing tt
                          | inr (inl body) ↦
                              new_body_source-IsOutside stat cfg ep err clear ok.one_body body
                          | inr (inr bad) ↦
                              set_headers-IsOutside canonical
                                (merge_headers canonical cfg.headers ep.headers) [] err bad
                        ]
                ])
          | inr (t, e) ↦
              let made = build_endpoint_template_made cfg ep t e in
              let body = t.request.builder.body in
              subst (Acceptable stat ep) (sym e) (
                made.0 ∙ weight_kept ep here.0,
                (
                  new_body_source-inline stat cfg ep body here.1 made.1,
                  new_body_source-file stat cfg ep body made.1,
                ),
              )
        ]
