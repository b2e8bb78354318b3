-- ===== src/Endpoints.antt =====
-- internal/cli/endpoints.go: the weighted choice of an endpoint, and the requester that makes it. A
-- template `T` is what `buildEndpointTemplate` returns; `draw` is `rnd.Intn`.
use crankfire.Prelude.{◌+◌, String, Option, none, some, List, [], ◌∷◌, ◌++◌, if◌then◌else◌}
use crankfire.Prelude.Int.{ℤ, pos, ltb_ℤ, leb_ℤ}
use crankfire.Prelude.Int64.{add64}
pub mod Template
pub mod Weights
mod Tests
use crankfire.Variables.{MemoryStore, new_store}

pub record EndpointTemplate (T : Type 0) : Type 0 where
  pub name : String
  pub weight : ℤ
  pub request : T

pub record EndpointSelector (T : Type 0) : Type 0 where
  pub templates : List (EndpointTemplate T)
  pub total_weight : ℤ

pub data SelectorError : Type 0 where
  build_failed bad_weight : SelectorError
  no_weight : SelectorError

pub data Selected (T : Type 0) : Type 0 where
  no_selector : Selected T
  selector : EndpointSelector T → Selected T
  refused : SelectorError → Selected T

-- The part of a context that the requester reads and writes.
pub record Context (T : Type 0) : Type 0 where
  pub endpoint : Option (EndpointTemplate T)
  pub store : Option MemoryStore

module _ {T : Type 0} where
  abbrev finish_selector : ℤ → List (EndpointTemplate T) → Selected T
  finish_selector total acc =
      if leb_ℤ total (pos 0)
      then refused no_weight
      else selector (record { templates = acc; total_weight = total })

  -- The loop over the endpoints, each with what building its template gives.
  pub add_endpoints :
      List (Option (EndpointTemplate T)) → ℤ → List (EndpointTemplate T) → Selected T
  add_endpoints [] total acc = finish_selector total acc
  add_endpoints (built ∷ rest) total acc = elim built [
    | none ↦ refused build_failed
    | some t ↦
        if leb_ℤ t.weight (pos 0)
        then refused bad_weight
        else add_endpoints rest (add64 total t.weight) (acc ++ t ∷ [])
  ]

  pub new_endpoint_selector : List (Option (EndpointTemplate T)) → Selected T
  new_endpoint_selector [] = no_selector
  new_endpoint_selector (b ∷ bs) = add_endpoints (b ∷ bs) (pos 0) []

  abbrev last_or : EndpointTemplate T → List (EndpointTemplate T) → EndpointTemplate T
  last_or t [] = t
  last_or t (u ∷ ts) = last_or u ts

  -- The loop; `none` is its end.
  pub find_template : ℤ → ℤ → List (EndpointTemplate T) → Option (EndpointTemplate T)
  find_template n cumulative [] = none
  find_template n cumulative (t ∷ ts) =
      let cumulative' = add64 cumulative t.weight in
      let rest = find_template n cumulative' ts in if ltb_ℤ n cumulative' then some t else rest

  abbrev or_last :
      EndpointTemplate T
      → List (EndpointTemplate T)
      → Option (EndpointTemplate T)
      → EndpointTemplate T
  or_last t ts none = last_or t ts
  or_last t ts (some u) = u

  -- `draw n` is a number below `n`.
  pub pick_template : EndpointSelector T → (ℤ → ℤ) → Option (EndpointTemplate T)
  pick_template s draw = elim s.templates [
    | [] ↦ none
    | t ∷ ts ↦
        if leb_ℤ s.total_weight (pos 0)
        then some t
        else some (or_last t ts (find_template (draw s.total_weight) (pos 0) (t ∷ ts)))
  ]

  abbrev with_store : Context T → Context T
  with_store ctx = record ctx { store = elim ctx.store [ none ↦ some new_store | some m ↦ some m ] }

  abbrev with_endpoint : Context T → Option (EndpointTemplate T) → Context T
  with_endpoint ctx none = ctx
  with_endpoint ctx (some t) = record ctx { endpoint = some t }

  -- The context that the next requester is called with; a nil selector is `none`.
  pub selection_context : Option (EndpointSelector T) → (ℤ → ℤ) → Context T → Context T
  selection_context none draw ctx = ctx
  selection_context (some s) draw ctx = elim ctx.endpoint [
    | some t ↦ ctx
    | none ↦ with_endpoint (with_store ctx) (pick_template s draw)
  ]
