-- ===== src/Examples/RouterRuns.antt =====
-- Requests and prompts, and the theorems on the router applied to them.
use kova_gpt_models.Common.{
  refl, ◌≤◌, ◌⊎◌, ◌↔◌, ◌≡◌, str_eq, true, false, List, [], ◌∷◌, any, Result, ok, err,
}
use kova_gpt_models.Router.Routes.{
  ChatMode, Tier, pro, cosmo, light, work, medium_mode, ultra_mode, mode_eq, route_mem,
}
use kova_gpt_models.Contracts.Grant.{all_routes}
use kova_gpt_models.Router.Entitlements.{compat_allowed}
use kova_gpt_models.Router.Policy.{
  RoutePolicy, Request, resolve_route, resolve_alias, resolve_family, find_family, find_effort,
  find_mode, family_key, effort_label, mode_key, bound_runtime, chat_policy, work_effort,
  forbidden_fields, runtime_profile,
}
use kova_gpt_models.Router.Resolve.{
  Fits, resolve_route-Fits, request_for, resolves_to, resolve_route_complete,
}
use kova_gpt_models.Router.Auto.{
  Prompt, Budget, Feature, multi_domain_ultra_candidate, ultra_budget_admitted, classify_auto,
  cap_plus, uncapped, single_engine, ultra_candidate, ultra_allowed, hits, ultra_terms,
  complex_score, nova_terms, classify_auto-allowed, classify_auto-ultra,
}

abbrev light_request : Request
light_request = ("surface", "work") ∷ ("family", "cosmo") ∷ ("effort", "Light") ∷ []

abbrev policy_or : RoutePolicy → Result RoutePolicy → RoutePolicy
policy_or p (ok q) = q
policy_or p (err e) = p

abbrev light_policy : RoutePolicy
unfolding resolve_route resolve_alias resolve_family chat_policy work_effort find_mode find_family
    find_effort bound_runtime forbidden_fields runtime_profile family_key effort_label mode_key
light_policy = policy_or (chat_policy medium_mode) (resolve_route light_request)

resolve_route-Fits_example : Fits light_policy
unfolding resolve_route resolve_alias resolve_family chat_policy work_effort find_mode find_family
    find_effort bound_runtime forbidden_fields runtime_profile family_key effort_label mode_key
resolve_route-Fits_example = resolve_route-Fits light_request light_policy refl

resolve_route_complete_example :
    resolves_to (work cosmo light) (resolve_route (request_for (work cosmo light))) ≡ true
unfolding route_mem all_routes
resolve_route_complete_example = resolve_route_complete (work cosmo light) refl

-- A prompt that names two of the Ultra phrases.
abbrev report_prompt : Prompt
report_prompt = record {
  has_text = true;
  prompt_chars = 80;
  words = 12;
  phrase_found = λ s. any (str_eq s) ("competitors" ∷ "full report" ∷ []);
  simple = false;
}

abbrev report_budget : Budget
report_budget = record { ultra_authorized = true; remaining_usd = 500; estimated_ultra_usd = 400 }

abbrev report_features : List Feature
report_features = multi_domain_ultra_candidate ∷ ultra_budget_admitted ∷ []

classify_auto-allowed_example : any (mode_eq ultra_mode) (compat_allowed pro) ≡ true
unfolding classify_auto cap_plus uncapped single_engine ultra_candidate ultra_allowed hits
    ultra_terms complex_score nova_terms
classify_auto-allowed_example =
    classify_auto-allowed report_prompt pro report_budget ultra_mode report_features refl

classify_auto-ultra_example : (◌≡◌ {A = ChatMode} ultra_mode ultra_mode) ↔ (
    (◌≡◌ {A = Tier} pro pro)
    × (report_budget.ultra_authorized ≡ true)
    × (report_budget.estimated_ultra_usd ≤ report_budget.remaining_usd)
    × ((2 ≤ hits report_prompt ultra_terms)
        ⊎ ((hits report_prompt ultra_terms ≡ 1) × (3 ≤ complex_score report_prompt))))
unfolding classify_auto cap_plus uncapped single_engine ultra_candidate ultra_allowed hits
    ultra_terms complex_score nova_terms
classify_auto-ultra_example =
    classify_auto-ultra report_prompt pro report_budget ultra_mode report_features refl
