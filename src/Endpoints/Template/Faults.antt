-- ===== src/Endpoints/Template/Faults.antt =====
-- Which errors of building a template a valid configuration leaves.
use crankfire.Prelude.{
  ℕ, String, ◌≡◌, refl, ◌≢◌, ◌⊎◌, inl, inr, Option, List, [], ◌∷◌, arith, nat_eq, string_eq,
}
use crankfire.Prelude.Maps.{insert}
use text.Mathlib.TextEquality.{eq_iff}
use crankfire.Prelude.Strings.{trim_space, trim_left, trim_end}
use crankfire.Config.{RunConfig, Endpoint}
use crankfire.Config.Valid.{IsGiven}
use crankfire.Endpoints.Template.{
  BuildError, url_required, bodies_given, bodies_of, new_body_source, resolve_endpoint_url,
  set_headers,
}

pub Sum-cases : {A B : Type 0} (s : A ⊎ B) → ((a : A) × (s ≡ inl a)) ⊎ ((b : B) × (s ≡ inr b))
Sum-cases (inl a) = inl (a, refl)
Sum-cases (inr b) = inr (b, refl)

-- The errors that a valid configuration can still meet.
abbrev pub IsOutside : BuildError → Type 0
IsOutside url_required = ⊥
IsOutside bodies_given = ⊥
IsOutside err = Unit

-- A body of nothing but white space counts as none for `Validate`, and as one for `NewBodySource`.
abbrev pub IsClear : String → Type 0
IsClear body = (body ≡ "") ⊎ IsGiven body

module _ {Url : Type 0} (parse_url : String → Option Url) (resolve : Url → Url → String) where
  pub resolve_endpoint_url-IsOutside :
      (base : String) (ep : Endpoint) (err : BuildError)
      → (base ≢ "") ⊎ IsGiven ep.url
      → resolve_endpoint_url parse_url resolve base ep ≡ inl err
      → IsOutside err
  unfolding resolve_endpoint_url
  resolve_endpoint_url-IsOutside base ep url_required h e =
      ground (arith, h, eq_iff base "", eq_iff (trim_space ep.url) "")
  resolve_endpoint_url-IsOutside base ep bodies_given h e =
      ground (arith, h, eq_iff base "", eq_iff (trim_space ep.url) "")
  resolve_endpoint_url-IsOutside base ep err h e = tt

pub blank_nothing : trim_space "" ≡ ""
unfolding trim_space trim_left trim_end
blank_nothing = refl

pub new_body_source-IsOutside :
    (stat : String → Option (Option ℕ)) (cfg : RunConfig) (ep : Endpoint) (err : BuildError)
    → IsClear cfg.body
    → ((trim_space cfg.body ≡ "") ⊎ (trim_space cfg.body_file ≡ ""))
    → new_body_source stat (bodies_of cfg ep).0 (bodies_of cfg ep).1 ≡ inl err
    → IsOutside err
unfolding new_body_source bodies_of
new_body_source-IsOutside stat cfg ep url_required h o e = ground (
  arith,
  h,
  o,
  blank_nothing,
  eq_iff cfg.body "",
  eq_iff (trim_space cfg.body) "",
  eq_iff (trim_space cfg.body_file) "",
  eq_iff ep.body "",
  eq_iff (trim_space ep.body) "",
  eq_iff (trim_space ep.body_file) "",
)
new_body_source-IsOutside stat cfg ep bodies_given h o e = ground (
  arith,
  h,
  o,
  blank_nothing,
  eq_iff cfg.body "",
  eq_iff (trim_space cfg.body) "",
  eq_iff (trim_space cfg.body_file) "",
  eq_iff ep.body "",
  eq_iff (trim_space ep.body) "",
  eq_iff (trim_space ep.body_file) "",
)
new_body_source-IsOutside stat cfg ep err h o e = tt

module _ (canonical : String → String) where
  pub set_headers-IsOutside :
      (hs : List (String × String)) (headers : List (String × List String)) (err : BuildError)
      → set_headers canonical hs headers ≡ inl err
      → IsOutside err
  unfolding set_headers
  set_headers-IsOutside [] headers err e = ground (arith, e)
  set_headers-IsOutside ((key, value) ∷ rest) headers url_required e = ground (
    arith,
    e,
    set_headers-IsOutside rest
        (insert (canonical (canonical (trim_space key))) (value ∷ []) headers) url_required,
  )
  set_headers-IsOutside ((key, value) ∷ rest) headers bodies_given e = ground (
    arith,
    e,
    set_headers-IsOutside rest
        (insert (canonical (canonical (trim_space key))) (value ∷ []) headers) bodies_given,
  )
  set_headers-IsOutside ((key, value) ∷ rest) headers err e = tt
