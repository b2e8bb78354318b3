-- ===== src/Endpoints/Template.antt =====
-- internal/cli/endpoints.go, `buildEndpointTemplate`, and `NewRequestBuilder` and `NewBodySource` of
-- internal/httpclient. What they call is a parameter: `parse_url` and `resolve` of net/url, `canonical` is
-- `http.CanonicalHeaderKey`, `upper` the upper case of a character, and `stat` the size of a file, or
-- `none` for a directory, if there is one.
use crankfire.Prelude.{
  ℕ, zero, suc, ◌+◌, ◌-◌, ◌*◌, ◌/◌, ◌%◌, ◌^◌, ◌≤◌, ◌<◌, min, max, String, ◌≡◌, refl, sym, ap, ◌∙◌,
  subst, ◌≢◌, ◌↔◌, ◌⊎◌, inl, inr, Bool, true, false, ◌&&◌, ◌||◌, not, Option, none, some, List, [],
  ◌∷◌, ◌++◌, map, arith, ltb, leb, nat_beq, if◌then◌else◌, tests, Bool-cases, Option-cases, length,
  get_elem?, get_or, set, replicate, length-append, length-map, length-set, All, In, Eq, ◌==◌,
  nat_eq, string_eq, Float64, le_f, zero_f,
}
use crankfire.Prelude.Int.{
  ℤ, pos, negsuc, pos_part, quot, rem, neg_part, sub_ℕ, ◌+ℤ◌, ◌-ℤ◌, ◌*ℤ◌, ◌≤ℤ◌, ◌<ℤ◌, ltb_ℤ, leb_ℤ,
  beq_ℤ, int_laws,
}
use crankfire.Prelude.Int64.{
  wrap64, add64, sub64, mul64, Fits64, wrap64-of_Fits64, add64-of_Fits64, add64-pos, sub64-pos,
}
use crankfire.Prelude.Maps.{
  lookup, value_or, insert, delete, write_all, lookup-insert, lookup-insert_self, lookup-delete,
  lookup-write_all, beq_refl, or_else, NoDup, insert-NoDup,
}
use Prim.Native.Char.{Char, code}
use crankfire.Prelude.Strings.{trim_space}
use crankfire.Config.{RunConfig, Endpoint}
use crankfire.Config
use crankfire.Config.Validate.{is_blank}
use crankfire.Extraction.{Extractor}
use crankfire.Endpoints.{EndpointTemplate}
pub mod Faults
pub mod Bodies
pub mod Accepted
mod Tests

pub data BuildError : Type 0 where
  url_required invalid_base invalid_path : BuildError
  target_required bodies_given no_body_file is_directory invalid_header : BuildError

pub data BodySource : Type 0 where
  inline_body : String → BodySource
  file_body : String → ℕ → BodySource
  empty_body : BodySource

pub record RequestBuilder : Type 0 where
  pub method : String
  pub target : String
  pub headers : List (String × List String)
  pub body : BodySource

-- The part of an `endpointTemplate` next to its name and weight.
pub record TemplateRequest : Type 0 where
  pub builder : RequestBuilder
  pub extractors : List Extractor

pub convert_extractors : List Config.Extractor → List Extractor
convert_extractors [] = []
convert_extractors (ce ∷ ces) =
    record {
      json_path = ce.json_path;
      regex = ce.regex;
      variable = ce.variable;
      on_error = ce.on_error;
    }
    ∷ convert_extractors ces

pub template_weight : Endpoint → ℤ
template_weight ep = if leb_ℤ ep.weight (pos 0) then pos 1 else ep.weight

pub method_of : RunConfig → Endpoint → String
method_of cfg ep =
    let method = if is_blank ep.method then cfg.method else trim_space ep.method in
    if method == "" then "GET" else method

-- The body with the body file.
pub bodies_of : RunConfig → Endpoint → String × String
bodies_of cfg ep =
    let chosen = if is_blank ep.body then (cfg.body, cfg.body_file) else (ep.body, "") in
    if is_blank ep.body_file then chosen else ("", ep.body_file)

-- `strings.ContainsAny(s, "\r\n")`.
pub has_break : String → Bool
has_break String.[] = false
has_break (String.◌∷◌ c s) = nat_beq (code c) 13 || nat_beq (code c) 10 || has_break s

pub new_body_source : (String → Option (Option ℕ)) → String → String → BuildError ⊎ BodySource
new_body_source stat body body_file =
    if not (body == "")
    then if is_blank body_file then inr (inline_body body) else inl bodies_given
    else if is_blank body_file
    then inr empty_body
    else elim (stat (trim_space body_file)) [
      | none ↦ inl no_body_file
      | some none ↦ inl is_directory
      | some (some size) ↦ inr (file_body (trim_space body_file) size)
    ]

module _ {Url : Type 0} (parse_url : String → Option Url) (resolve : Url → Url → String) where
  -- `base` is trimmed.
  pub resolve_endpoint_url : String → Endpoint → BuildError ⊎ String
  resolve_endpoint_url base ep =
      if not (is_blank ep.url)
      then inr (trim_space ep.url)
      else if base == ""
      then inl url_required
      else if is_blank ep.path
      then inr base
      else elim (parse_url base) [
        | none ↦ inl invalid_base
        | some base_url ↦ elim (parse_url (trim_space ep.path)) [
          | none ↦ inl invalid_path
          | some rel ↦ inr (resolve base_url rel)
        ]
      ]

module _ (canonical : String → String) where
  -- The loop over the overrides.
  pub override_headers : List (String × String) → List (String × String) → List (String × String)
  override_headers merged [] = merged
  override_headers merged ((k, v) ∷ overrides) =
      let key = canonical (trim_space k) in
      override_headers (if key == "" then merged else insert key v merged) overrides

  pub merge_headers : List (String × String) → List (String × String) → List (String × String)
  merge_headers base overrides = override_headers (write_all [] base) overrides

  -- The loop of `NewRequestBuilder` over the headers; `Header.Set` makes its key canonical once more.
  pub set_headers :
      List (String × String)
      → List (String × List String)
      → BuildError ⊎ List (String × List String)
  set_headers [] headers = inr headers
  set_headers ((key, value) ∷ rest) headers =
      let trimmed = trim_space key in
      let more = set_headers rest (insert (canonical (canonical trimmed)) (value ∷ []) headers) in
      if trimmed == ""
      then inl invalid_header
      else if has_break trimmed
      then inl invalid_header
      else if canonical trimmed == ""
      then inl invalid_header
      else if has_break value
      then inl invalid_header
      else more

  module _ (upper : Char → Char) (stat : String → Option (Option ℕ)) where
    pub upper_all : String → String
    upper_all String.[] = ""
    upper_all (String.◌∷◌ c s) = String.◌∷◌ (upper c) (upper_all s)

    pub new_request_builder :
        String → String → List (String × String) → String × String → BuildError ⊎ RequestBuilder
    new_request_builder target method headers bodies =
        if is_blank target
        then inl target_required
        else elim (new_body_source stat bodies.0 bodies.1) [
          | inl err ↦ inl err
          | inr body ↦ elim (set_headers headers []) [
            | inl err ↦ inl err
            | inr canonicals ↦ inr (record {
              method = upper_all (if is_blank method then "GET" else trim_space method);
              target = trim_space target;
              headers = canonicals;
              body = body;
            })
          ]
        ]

    module _ {Url : Type 0} (parse_url : String → Option Url) (resolve : Url → Url → String) where
      pub build_endpoint_template :
          RunConfig → Endpoint → BuildError ⊎ EndpointTemplate TemplateRequest
      build_endpoint_template cfg ep =
          elim (resolve_endpoint_url parse_url resolve (trim_space cfg.target_url) ep) [
            | inl err ↦ inl err
            | inr target ↦
                elim (new_request_builder target (method_of cfg ep)
                  (merge_headers cfg.headers ep.headers) (bodies_of cfg ep)) [
                    | inl err ↦ inl err
                    | inr builder ↦ inr (record {
                      name = if is_blank ep.name then target else ep.name;
                      weight = template_weight ep;
                      request = record {
                        builder = builder;
                        extractors = convert_extractors ep.extractors;
                      };
                    })
                  ]
          ]
