-- ===== src/Core/Admit/Prepared.antt =====
-- What the plan of an accepted Core request takes from the tables: its route, its ids, its candidate.
use kova_gpt_models.Common.{
  ℕ, ◌≡◌, refl, sym, ap, ◌∙◌, arith, String, str_eq, eq_iff, true, Option, some, List, [], ◌∷◌,
  ◌++◌, map, length, ◌==◌, ok, Option-cases, Result-cases, Bool-cases, inl, inr,
}
use kova_gpt_models.Router.Routes.{Family, cosmo, orion, nova, Route, route_mem}
use kova_gpt_models.Router.Policy.{RoutePolicy, Passes, Request}
use kova_gpt_models.Router.Resolve.{Fits, route_passes}
use kova_gpt_models.Router.Models.{candidates, matching_candidates, Candidate, model_source}
use kova_gpt_models.Contracts.Grant.{all_routes}
use kova_gpt_models.Core.Messages.{Message}
use kova_gpt_models.Core.Request.{StageKind, stage_key, stages_of, resolved_policy}
use kova_gpt_models.Core.Resolved.{requested_policy-Fits}
use kova_gpt_models.Core.Plan.{
  CoreOperation, CorePlan, Context, ids_of, build_core_plan, prepare, operation_for, find_candidate,
  is_last,
}
use kova_gpt_models.Core.Bounds.{planned, plan_operations-planned, build_parts, prepare_context}
use kova_gpt_models.Core.Admit.Ids.{good_ids, route_passes-good}

-- The ids of the planned operations are those of the stages.
ids-planned :
    (c : Context) (before : List CoreOperation) (stages : List (StageKind × ℕ))
    → ids_of (planned c before stages) ≡ map stage_key stages
unfolding planned operation_for
ids-planned c before [] = refl
ids-planned c before (stage ∷ rest) =
    let op = operation_for c before stage (is_last rest) in
    ap (λ l. stage_key stage ∷ l) (ids-planned c (before ++ op ∷ []) rest)

resolved_policy-Fits : (fields : Request) (p : RoutePolicy) → resolved_policy fields ≡ ok p → Fits p
resolved_policy-Fits fields p h =
    requested_policy-Fits fields p (unfold resolved_policy in ground arith)

module _ (file : Option (List ℕ)) (instruction : Route → List ℕ)
    (counter : String → List Message → ℕ) (id : String) (fields : Request) (messages : List Message)
    (model : String) (c : Context) (stages : List (StageKind × ℕ))
    (h : prepare file instruction counter id fields messages model ≡ ok (c, stages)) where
  pub prepare_resolved : resolved_policy fields ≡ ok c.policy
  unfolding prepare
  prepare_resolved = ground arith

  -- The stages are those of the policy.
  prepare_passes : (p : Passes) × (c.policy.passes ≡ some p) × (stages ≡ stages_of p)
  prepare_passes = elim (Option-cases c.policy.passes) [
    | inl none_given ↦ absurd (unfold prepare in ground arith)
    | inr (p, given) ↦ (p, given, unfold prepare in ground arith)
  ]

  pub prepare_candidate :
      (k : Candidate) × (find_candidate c.model ≡ ok k) × (c.revision ≡ k.revision)
  prepare_candidate = elim (Result-cases (find_candidate model)) [
    | inl (k, found) ↦ (k, (unfold prepare in ground arith), unfold prepare in ground arith)
    | inr (x, missing) ↦ absurd (unfold prepare in ground arith)
  ]

-- A candidate that is found is the row of a family.
find_candidate-family :
    (model : String) (k : Candidate)
    → find_candidate model ≡ ok k
    → (f : Family) × ((model_source f).slot ≡ model) × ((model_source f).revision ≡ k.revision)
unfolding find_candidate candidates
find_candidate-family model k h = elim (Bool-cases (str_eq (model_source cosmo).slot model)) [
  | inl a ↦ (cosmo, ground (arith, eq_iff (model_source cosmo).slot model), ground arith)
  | inr b ↦ elim (Bool-cases (str_eq (model_source orion).slot model)) [
    | inl a ↦ (orion, ground (arith, eq_iff (model_source orion).slot model), ground arith)
    | inr d ↦ (nova, ground (arith, eq_iff (model_source nova).slot model), ground arith)
  ]
]

one_row :
    (f : Family)
    → (length (matching_candidates (model_source f).slot (model_source f).revision) == 1) ≡ true
unfolding matching_candidates candidates model_source
one_row cosmo = refl
one_row orion = refl
one_row nova = refl

-- The model of a candidate that is found has one row, the one found.
find_candidate-matching :
    (model : String) (k : Candidate)
    → find_candidate model ≡ ok k
    → (length (matching_candidates model k.revision) == 1) ≡ true
find_candidate-matching model k h =
    let (f, slot, revision) = find_candidate-family model k h in
    rw (sym slot, sym revision) (one_row f)

passes_good :
    (policy : RoutePolicy) (p : Passes)
    → policy.passes ≡ some p
    → policy.passes ≡ route_passes policy.route
    → good_ids (map stage_key (stages_of p)) ≡ true
passes_good policy p given known = rw (sym known ∙ given) at (route_passes-good policy.route)

module _ (file : Option (List ℕ)) (instruction : Route → List ℕ)
    (counter : String → List Message → ℕ) (id : String) (fields : Request) (messages : List Message)
    (model : String) (plan : CorePlan)
    (h : build_core_plan file instruction counter id fields messages model ≡ ok plan) where
  -- What an execution snapshot reads of an accepted plan.
  pub plan_route : route_mem plan.route all_routes ≡ true
  plan_route =
      let (c, stages, prepared, looped, same) =
        build_parts file instruction counter id fields messages model plan h in
      let resolved =
        prepare_resolved file instruction counter id fields messages model c stages prepared in
      rw same ((resolved_policy-Fits fields c.policy resolved).known)

  pub plan_ids : good_ids (ids_of plan.operations) ≡ true
  plan_ids =
      let (c, stages, prepared, looped, same) =
        build_parts file instruction counter id fields messages model plan h in
      let resolved =
        prepare_resolved file instruction counter id fields messages model c stages prepared in
      let fits = resolved_policy-Fits fields c.policy resolved in
      let (p, given, from) =
        prepare_passes file instruction counter id fields messages model c stages prepared in
      let (_, _, positive) =
        prepare_context file instruction counter id fields messages model c stages prepared in
      let (ops, _) = plan_operations-planned c [] stages plan.operations positive looped in
      rw (ops, ids-planned c [] stages, from) (passes_good c.policy p given fits.passes_known)

  pub plan_candidate :
      (length (matching_candidates plan.candidate_model plan.candidate_revision) == 1) ≡ true
  plan_candidate =
      let (c, stages, prepared, looped, same) =
        build_parts file instruction counter id fields messages model plan h in
      let (k, found, revision) =
        prepare_candidate file instruction counter id fields messages model c stages prepared in
      rw (same, revision) (find_candidate-matching c.model k found)

  pub plan_known : (k : Candidate) × (find_candidate plan.candidate_model ≡ ok k)
  plan_known =
      let (c, stages, prepared, looped, same) =
        build_parts file instruction counter id fields messages model plan h in
      let (k, found, _) =
        prepare_candidate file instruction counter id fields messages model c stages prepared in
      (k, rw same found)
