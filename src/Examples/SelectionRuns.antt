-- ===== src/Examples/SelectionRuns.antt =====
-- Selections of an application, and the theorems on them applied.
use kova_gpt_models.Common.{inr, ◌≡◌, refl, true, false, List, [], ◌∷◌, any, str_eq, ok}
use kova_gpt_models.Router.Routes.{
  pro, orion, ultra, cosmo, light, chat, work, chat_surface, work_surface, ultra_mode, route_mem,
}
use kova_gpt_models.Router.Policy.{
  RoutePolicy, Request, resolve_route, resolve_family, find_family, find_effort, family_key,
  effort_label, bound_runtime, work_effort, forbidden_fields, runtime_profile,
}
use kova_gpt_models.Router.Entitlements.{work_allowed, routes_for}
use kova_gpt_models.Router.Auto.{
  Prompt, Budget, Feature, multi_domain_ultra_candidate, ultra_budget_admitted, classify_auto,
  cap_plus, uncapped, ultra_candidate, ultra_allowed, hits, ultra_terms, complex_score, nova_terms,
}
use kova_gpt_models.Contracts.Grant.{ExecutionGrant, no_mode, authorize, within_plan}
use kova_gpt_models.Router.Application.{
  effort_aliases, find_alias, ResolvedSelection, select_family, auto_route,
  resolve_application_selection, selection_policy,
}
use kova_gpt_models.Router.Selected.{
  resolve_application_selection-authorized, resolve_application_selection-auto,
}
use kova_gpt_models.Router.Roundtrip.{selection_policy-resolve_application_selection}
use kova_gpt_models.Examples.Samples.{sample_grant}

abbrev work_selection : Request
work_selection =
    ("schema_version", "kova-models.v2")
    ∷ ("surface", "work")
    ∷ ("family", "cosmo")
    ∷ ("effort", "light")
    ∷ []

-- A prompt that names two of the Ultra phrases.
abbrev market_prompt : Prompt
market_prompt = record {
  has_text = true;
  prompt_chars = 90;
  words = 14;
  phrase_found = λ s. any (str_eq s) ("competitors" ∷ "full report" ∷ []);
  simple = false;
}

abbrev market_budget : Budget
market_budget = record { ultra_authorized = true; remaining_usd = 500; estimated_ultra_usd = 400 }

abbrev work_selected : ResolvedSelection
work_selected = record {
  selected_route = work cosmo light;
  selected_surface = work_surface;
  selected_by_auto = false;
  feature_ids = [];
}

selected :
    resolve_application_selection work_selection sample_grant market_prompt market_budget false
    ≡ ok work_selected
unfolding resolve_application_selection select_family find_alias effort_aliases resolve_route
    resolve_family find_family find_effort family_key effort_label bound_runtime work_effort
    forbidden_fields runtime_profile authorize within_plan work_allowed routes_for route_mem
selected = refl

resolve_application_selection-authorized_example :
    (authorize sample_grant sample_grant.owner_id work_selected.selected_route no_mode ≡ ok tt)
    × (sample_grant.execution_authorized ≡ true)
    × (route_mem work_selected.selected_route sample_grant.allowed_routes ≡ true)
    × (within_plan sample_grant.tier work_selected.selected_route ≡ true)
resolve_application_selection-authorized_example =
    resolve_application_selection-authorized work_selection sample_grant market_prompt market_budget
      false work_selected selected

selection_policy-resolve_application_selection_example :
    (p : RoutePolicy) × (selection_policy work_selected ≡ ok p)
    × (p.route ≡ work_selected.selected_route)
selection_policy-resolve_application_selection_example =
    selection_policy-resolve_application_selection work_selection sample_grant market_prompt
      market_budget false work_selected selected

abbrev pro_grant : ExecutionGrant
pro_grant = record {
  owner_id = "owner";
  tier = pro;
  allowed_routes = chat orion ultra ∷ [];
  execution_authorized = true;
}

abbrev market_features : List Feature
market_features = multi_domain_ultra_candidate ∷ ultra_budget_admitted ∷ []

-- The fields in another order, and the longer name of Auto.
abbrev auto_selection : Request
auto_selection =
    ("mode_id", "kova-auto") ∷ ("surface", "chat") ∷ ("schema_version", "kova-models.v2") ∷ []

resolve_application_selection-auto_example :
    resolve_application_selection auto_selection pro_grant market_prompt market_budget true
    ≡ ok (record {
      selected_route = auto_route ultra_mode;
      selected_surface = chat_surface;
      selected_by_auto = true;
      feature_ids = market_features;
    })
unfolding classify_auto cap_plus uncapped ultra_candidate ultra_allowed hits ultra_terms
    complex_score nova_terms auto_route route_mem
resolve_application_selection-auto_example =
    resolve_application_selection-auto auto_selection "kova-auto" pro_grant market_prompt
      market_budget ultra_mode market_features (refl, refl, refl, refl) (inr refl) refl refl refl
