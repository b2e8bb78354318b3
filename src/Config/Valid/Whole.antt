-- ===== src/Config/Valid/Whole.antt =====
-- `Validate` finds no issue exactly if the configuration is valid.
use crankfire.Prelude.{
  only_one, ℕ, suc, String, ◌≡◌, refl, ap, ◌≢◌, ◌↔◌, ◌⊎◌, inl, inr, Bool, true, false, ◌&&◌, not,
  none, List, [], ◌∷◌, ◌++◌, arith, Bool-cases, Option-cases, All, nat_eq, string_eq,
}
use crankfire.Prelude.Int.{ℤ, pos, ◌≤ℤ◌, ltb_ℤ}
use crankfire.Prelude.Maps.{lookup, insert, lookup-insert}
use Prim.Native.Char.{Char}
use text.Mathlib.TextEquality.{eq_iff}
use crankfire.Prelude.Strings.{trim_space, lower_all}
use crankfire.Config.{LoadPattern, Endpoint, RunConfig, Issue, issue}
use crankfire.Config.Validate.{
  gathered, when, is_blank, validate_pattern, validate_extractors, all_provide_url,
  target_satisfied, folded, validate_load_patterns, see_name, Seen, validate_endpoints, checks,
  validate,
}
use crankfire.Config.Valid.{
  IsGiven, IsPattern, IsEndpoint, HasTarget, IsOtherName, DistinctNames, IsValid,
}
use crankfire.Config.Valid.Parts.{
  append_nil, IsPattern-checked, arrival_checked, extractors_checked, IsAuth-checked,
  IsFeeder-checked, IsProtocol-checked,
}

when_nil : (b : Bool) (i : Issue) → (when b i ≡ []) ↔ (b ≡ false)
when_nil b i = ground arith

all_provide_url_iff :
    (eps : List Endpoint) → (all_provide_url eps ≡ true) ↔ All (λ ep. IsGiven ep.url) eps
unfolding all_provide_url
all_provide_url_iff [] = (λ h. tt, λ h. refl)
all_provide_url_iff (ep ∷ eps) =
    ground (arith, all_provide_url_iff eps, eq_iff (trim_space ep.url) "")

target_checked :
    (c : RunConfig)
    → (when (is_blank c.target_url && not (target_satisfied c)) (issue "target") ≡ []) ↔ HasTarget c
target_checked c = ground (
  arith,
  all_provide_url_iff c.endpoints,
  eq_iff (trim_space c.target_url) "",
  eq_iff (trim_space c.har_file) "",
)

module _ (lower : Char → Char) where
  folded_blank : (s : String) → (trim_space s ≡ "") → folded lower s ≡ ""
  unfolding lower_all
  folded_blank s e = ap (lower_all lower) e

  kind_given : (kind : String) (p : LoadPattern) → IsPattern kind p → kind ≢ ""
  kind_given kind p v e = ground (
    arith,
    v,
    eq_iff kind "",
    eq_iff kind "constant",
    eq_iff kind "ramp",
    eq_iff kind "step",
    eq_iff kind "spike",
    only_one kind "" "constant" refl,
    only_one kind "" "ramp" refl,
    only_one kind "" "step" refl,
    only_one kind "" "spike" refl,
  )

  not_blank_pattern :
      (p : LoadPattern) → IsPattern (folded lower p.type) p → is_blank p.type ≡ false
  not_blank_pattern p v = elim (Bool-cases (is_blank p.type)) [
    | inl blank ↦
        let e = folded_blank p.type ((eq_iff (trim_space p.type) "").0 blank) in
        absurd (kind_given (folded lower p.type) p v e)
    | inr given ↦ given
  ]

  patterns_checked :
      (idx : ℕ) (ps : List LoadPattern)
      → (validate_load_patterns lower idx ps ≡ []) ↔ All (λ p. IsPattern (folded lower p.type) p) ps
  unfolding validate_load_patterns
  patterns_checked idx [] = (λ h. tt, λ h. refl)
  patterns_checked idx (p ∷ ps) = ground (
    arith,
    patterns_checked (suc idx) ps,
    IsPattern-checked idx (folded lower p.type) p,
    not_blank_pattern p,
    append_nil (validate_pattern idx (folded lower p.type) p)
        (validate_load_patterns lower (suc idx) ps),
  )

  abbrev Unseen : Seen lower → Endpoint → Type 0
  Unseen seen ep = (trim_space ep.name ≡ "") ⊎ (lookup (folded lower ep.name) seen ≡ none)

  Unseen-insert :
      (name : String) (idx : ℕ) (seen : Seen lower) (eps : List Endpoint)
      → lookup (folded lower name) seen ≡ none
      → All (Unseen (insert (folded lower name) idx seen)) eps
        ↔ (All (IsOtherName lower name) eps × All (Unseen seen) eps)
  Unseen-insert name idx seen [] e = (λ h. (tt, tt), λ h. tt)
  Unseen-insert name idx seen (ep ∷ eps) e = ground (
    arith,
    e,
    Unseen-insert name idx seen eps e,
    lookup-insert (folded lower name) (folded lower ep.name) idx seen,
    eq_iff (folded lower name) (folded lower ep.name),
  )

  endpoint_split :
      (idx : ℕ) (seen : Seen lower) (ep : Endpoint) (eps : List Endpoint)
      → let named = see_name lower idx ep.name seen in
        (validate_endpoints lower idx seen (ep ∷ eps) ≡ [])
        ↔ (IsEndpoint ep × (named.0 ≡ []) × (validate_endpoints lower (suc idx) named.1 eps ≡ []))
  unfolding validate_endpoints
  endpoint_split idx seen ep eps =
      let named = see_name lower idx ep.name seen in
      let rest = validate_endpoints lower (suc idx) named.1 eps in
      let exts = validate_extractors idx 0 ep.extractors in
      ground (
        arith,
        append_nil named.0 (exts ++ rest),
        append_nil exts rest,
        extractors_checked idx 0 ep.extractors,
        eq_iff (trim_space ep.body) "",
        eq_iff (trim_space ep.body_file) "",
      )

  endpoints_checked :
      (idx : ℕ) (seen : Seen lower) (eps : List Endpoint)
      → (validate_endpoints lower idx seen eps ≡ [])
        ↔ (All IsEndpoint eps × DistinctNames lower eps × All (Unseen seen) eps)
  unfolding validate_endpoints see_name
  endpoints_checked idx seen [] = (λ h. (tt, tt, tt), λ h. refl)
  endpoints_checked idx seen (ep ∷ eps) =
      let split = endpoint_split idx seen ep eps in
      let given = eq_iff (trim_space ep.name) "" in
      let key = folded lower ep.name in
      elim (Bool-cases (is_blank ep.name)) [
        | inl blank ↦ ground (arith, split, given, blank, endpoints_checked (suc idx) seen eps)
        | inr named ↦ elim (Option-cases (lookup key seen)) [
          | inl new ↦ ground (
            arith,
            split,
            given,
            named,
            new,
            endpoints_checked (suc idx) (insert key idx seen) eps,
            Unseen-insert ep.name idx seen eps new,
          )
          | inr (prev, old) ↦ ground (arith, split, given, named, old)
        ]
      ]

  gathered_nil : (iss : List (List Issue)) → (gathered iss ≡ []) ↔ All (λ is. is ≡ []) iss
  gathered_nil [] = (λ h. tt, λ h. refl)
  gathered_nil (is ∷ iss) = ground (arith, append_nil is (gathered iss), gathered_nil iss)

  fresh_names : (eps : List Endpoint) → All (Unseen []) eps
  unfolding lookup
  fresh_names [] = tt
  fresh_names (ep ∷ eps) = (inr refl, fresh_names eps)

  one_of_two :
      (s t message : String)
      → (when (not (is_blank s) && not (is_blank t)) (issue message) ≡ [])
        ↔ ((trim_space s ≡ "") ⊎ (trim_space t ≡ ""))
  one_of_two s t message = ground (arith, eq_iff (trim_space s) "", eq_iff (trim_space t) "")

  not_below : (n k : ℤ) (message : String) → (when (ltb_ℤ n k) (issue message) ≡ []) ↔ (k ≤ℤ n)
  not_below n k message = ground arith

  one_output_checked :
      (c : RunConfig)
      → (when (c.dashboard && c.json_output) (issue "dashboard and json-output") ≡ [])
        ↔ ((c.dashboard ≡ false) ⊎ (c.json_output ≡ false))
  one_output_checked c = ground arith

  -- `Validate` accepts a configuration exactly if it is valid, as `IsValid` says of its fields: a target
  -- or something in its place, no negative limit and a worker, one body and one kind of output, load
  -- patterns that are complete for their kind, endpoints with a weight, distinct names and extractors
  -- with one source and a variable, the secrets that the authentication needs, and a protocol with its
  -- settings.
  pub validate-IsValid : (c : RunConfig) → (validate lower c ≡ []) ↔ IsValid lower c
  unfolding validate
  validate-IsValid c = (
    λ h.
        let all = (gathered_nil (checks lower c)).0 h in
        let eps = (endpoints_checked 0 [] c.endpoints).0 (all.1.1.1.1.1.1.1.1.1.1.1.0) in
        record {
          target = (target_checked c).0 (all.0);
          workers = (not_below c.concurrency (pos 1) "concurrency").0 (all.1.0);
          rated = (not_below c.rate (pos 0) "rate").0 (all.1.1.0);
          counted = (not_below c.total (pos 0) "total").0 (all.1.1.1.0);
          timed = (not_below c.timeout (pos 0) "timeout").0 (all.1.1.1.1.0);
          retried = (not_below c.retries (pos 0) "retries").0 (all.1.1.1.1.1.0);
          lasting = (not_below c.duration (pos 0) "duration").0 (all.1.1.1.1.1.1.0);
          one_body = (one_of_two c.body c.body_file "body and bodyFile").0 (all.1.1.1.1.1.1.1.0);
          one_output = (one_output_checked c).0 (all.1.1.1.1.1.1.1.1.0);
          arriving = (arrival_checked c.arrival).0 (all.1.1.1.1.1.1.1.1.1.0);
          patterns = (patterns_checked 0 c.load_patterns).0 (all.1.1.1.1.1.1.1.1.1.1.0);
          endpoints_ok = eps.0;
          names = eps.1;
          secrets = (IsAuth-checked c.auth).0 (all.1.1.1.1.1.1.1.1.1.1.1.1.0);
          fed = (IsFeeder-checked c.feeder).0 (all.1.1.1.1.1.1.1.1.1.1.1.1.1.0);
          spoken =
              (IsProtocol-checked c.protocol c.websocket c.sse c.grpc).0
                (all.1.1.1.1.1.1.1.1.1.1.1.1.1.1.0);
        },
    λ v. (gathered_nil (checks lower c)).1 (
      (target_checked c).1 v.target,
      (
        (not_below c.concurrency (pos 1) "concurrency").1 v.workers,
        (
          (not_below c.rate (pos 0) "rate").1 v.rated,
          (
            (not_below c.total (pos 0) "total").1 v.counted,
            (
              (not_below c.timeout (pos 0) "timeout").1 v.timed,
              (
                (not_below c.retries (pos 0) "retries").1 v.retried,
                (
                  (not_below c.duration (pos 0) "duration").1 v.lasting,
                  (
                    (one_of_two c.body c.body_file "body and bodyFile").1 v.one_body,
                    (
                      (one_output_checked c).1 v.one_output,
                      (
                        (arrival_checked c.arrival).1 v.arriving,
                        (
                          (patterns_checked 0 c.load_patterns).1 v.patterns,
                          (
                            (endpoints_checked 0 [] c.endpoints).1
                                (v.endpoints_ok, v.names, fresh_names c.endpoints),
                            (
                              (IsAuth-checked c.auth).1 v.secrets,
                              (
                                (IsFeeder-checked c.feeder).1 v.fed,
                                (
                                  (IsProtocol-checked c.protocol c.websocket c.sse c.grpc).1
                                      v.spoken,
                                  tt,
                                ),
                              ),
                            ),
                          ),
                        ),
                      ),
                    ),
                  ),
                ),
              ),
            ),
          ),
        ),
      ),
    ),
  )
