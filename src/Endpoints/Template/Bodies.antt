-- ===== src/Endpoints/Template/Bodies.antt =====
-- The body that the template of an endpoint sends.
use crankfire.Prelude.{
  ℕ, String, ◌≡◌, ◌⊎◌, inl, inr, Option, none, some, arith, Bool-cases, Option-cases, nat_eq,
  string_eq,
}
use text.Mathlib.TextEquality.{eq_iff}
use crankfire.Prelude.Strings.{trim_space}
use crankfire.Config.{RunConfig, Endpoint}
use crankfire.Config.Validate.{is_blank}
use crankfire.Endpoints.Template.{BodySource, inline_body, file_body, bodies_of, new_body_source}
use crankfire.Endpoints.Template.Faults.{blank_nothing}

-- The body of the endpoint or of its file, where the endpoint gives one.
abbrev pub Sends : (String → Option (Option ℕ)) → Endpoint → BodySource → Type 0
Sends stat ep body =
    ((trim_space ep.body ≡ "") ⊎ (body ≡ inline_body ep.body))
    × ((trim_space ep.body_file ≡ "")
        ⊎ ((size : ℕ) × (stat (trim_space ep.body_file) ≡ some (some size))
            × (body ≡ file_body (trim_space ep.body_file) size)))

pub new_body_source-inline :
    (stat : String → Option (Option ℕ)) (cfg : RunConfig) (ep : Endpoint) (body : BodySource)
    → ((trim_space ep.body ≡ "") ⊎ (trim_space ep.body_file ≡ ""))
    → new_body_source stat (bodies_of cfg ep).0 (bodies_of cfg ep).1 ≡ inr body
    → (trim_space ep.body ≡ "") ⊎ (body ≡ inline_body ep.body)
unfolding new_body_source bodies_of
new_body_source-inline stat cfg ep body one e = ground (
  arith,
  one,
  e,
  blank_nothing,
  eq_iff ep.body "",
  eq_iff (trim_space ep.body) "",
  eq_iff (trim_space ep.body_file) "",
)

pub new_body_source-file :
    (stat : String → Option (Option ℕ)) (cfg : RunConfig) (ep : Endpoint) (body : BodySource)
    → new_body_source stat (bodies_of cfg ep).0 (bodies_of cfg ep).1 ≡ inr body
    → (trim_space ep.body_file ≡ "")
      ⊎ ((size : ℕ) × (stat (trim_space ep.body_file) ≡ some (some size))
          × (body ≡ file_body (trim_space ep.body_file) size))
unfolding new_body_source bodies_of
new_body_source-file stat cfg ep body e = elim (Option-cases (stat (trim_space ep.body_file))) [
  | inl gone ↦ inl (ground (arith, e, gone, blank_nothing, eq_iff (trim_space ep.body_file) ""))
  | inr (some size, found) ↦ elim (Bool-cases (is_blank ep.body_file)) [
    | inl blank ↦ inl ((eq_iff (trim_space ep.body_file) "").0 blank)
    | inr given ↦ inr (size, found, ground (arith, e, given, found, blank_nothing))
  ]
  | inr (none, found) ↦
      inl (ground (arith, e, found, blank_nothing, eq_iff (trim_space ep.body_file) ""))
]
