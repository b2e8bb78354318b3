-- ===== src/Endpoints/Tests.antt =====
-- The choice of an endpoint on concrete inputs.
use crankfire.Prelude.{ℕ, ◌≡◌, refl, some, [], ◌∷◌, arith, get_elem?, nat_eq, string_eq}
use crankfire.Prelude.Int.{pos}
use crankfire.Prelude.Int64.{wrap64, add64}
use crankfire.Endpoints.{
  EndpointTemplate, EndpointSelector, selector, new_endpoint_selector, add_endpoints, pick_template,
}
use crankfire.Endpoints.Weights.{spread, pick_template-spread}

abbrev first : EndpointTemplate ℕ
first = record { name = "first"; weight = pos 1; request = 1 }

abbrev second : EndpointTemplate ℕ
second = record { name = "second"; weight = pos 2; request = 2 }

abbrev two_templates : EndpointSelector ℕ
two_templates = record { templates = first ∷ second ∷ []; total_weight = pos 3 }

two_templates_made : new_endpoint_selector (some first ∷ some second ∷ []) ≡ selector two_templates
unfolding new_endpoint_selector add_endpoints add64 wrap64
two_templates_made = refl

pick_template-spread_example :
    pick_template two_templates (λ _. pos 2) ≡ get_elem? (spread (first ∷ second ∷ [])) 2
pick_template-spread_example =
    (pick_template-spread (some first ∷ some second ∷ []) two_templates 2 (omega arith)
        two_templates_made).2
      (omega arith)
