-- ===== src/Core/Admit/Theorem.antt =====
-- The plan of an accepted Core request is admitted under limits and caps that cover it.
use kova_gpt_models.Common.{
  ℕ, suc, ◌*◌, ◌≤◌, ◌≡◌, refl, ap, arith, String, eq_refl, is_identifier, true, ◌&&◌, Option, List,
  [], ◌∷◌, ◌++◌, map, all, length, sum_of, leb, ◌==◌, ok,
}
use kova_gpt_models.Router.Routes.{Route, route_mem}
use kova_gpt_models.Router.Policy.{Request}
use kova_gpt_models.Router.Models.{native_context_tokens, matching_candidates, Candidate}
use kova_gpt_models.Contracts.Spec.{
  max_integer, is_positive, ExecutionLimits, check_limits, Stage, Plan, RuntimeIdentity,
  ExecutionSpec, token_reservation, kova_core,
}
use kova_gpt_models.Contracts.Grant.{all_routes}
use kova_gpt_models.Contracts.Validate.{
  check_spec, check_identity, check_engine, check_stages, strs_eq, last_ids, public_ids,
}
use kova_gpt_models.Contracts.Admission.{CostCaps, stages_for, caps_cover, check_pins, from_plan}
use kova_gpt_models.Core.Messages.{Message}
use kova_gpt_models.Core.Plan.{CoreOperation, CorePlan, ids_of, build_core_plan}
use kova_gpt_models.Core.Bounds.{Budgeted, build_core_plan-Budgeted}
use kova_gpt_models.Core.Admit.Prepared.{plan_route, plan_ids, plan_candidate}
use kova_gpt_models.Core.View.{view_operation, view_plan}
use kova_gpt_models.Core.Admit.Ids.{good_ids, fresh}
use kova_gpt_models.Core.Admit.Stages.{stages_accepted, stages_for_parts}

-- Only the last stage is public.
public_last :
    (context : ℕ) (before ops : List CoreOperation) (caps : CostCaps) (stages : List Stage)
    → Budgeted context before ops
    → stages_for caps (map view_operation ops) ≡ ok stages
    → strs_eq (public_ids stages) (last_ids stages) ≡ true
public_last context before [] caps stages b s = unfold stages_for in ground arith
public_last context before (o ∷ []) caps stages b s =
    let (cap, rest, same, more) = stages_for_parts caps (view_operation o) [] stages s in
    let none_left : rest ≡ [] = (unfold stages_for in ground arith) in
    ground (arith, eq_refl o.stage_id)
public_last context before (o ∷ o' ∷ ops) caps stages b s =
    let (cap, rest, same, more) =
      stages_for_parts caps (view_operation o) (map view_operation (o' ∷ ops)) stages s in
    let (cap', rest', same', more') =
      stages_for_parts caps (view_operation o') (map view_operation ops) rest more in
    let ih = public_last context (before ++ o ∷ []) (o' ∷ ops) caps rest b.6 more in ground arith

-- There is a stage for each operation.
stages_for-length :
    (caps : CostCaps) (ops : List CoreOperation) (stages : List Stage)
    → stages_for caps (map view_operation ops) ≡ ok stages
    → length stages ≡ length (ids_of ops)
stages_for-length caps [] stages s = unfold stages_for in ground arith
stages_for-length caps (o ∷ ops) stages s =
    let (cap, rest, same, more) =
      stages_for_parts caps (view_operation o) (map view_operation ops) stages s in
    rw same (ap suc (stages_for-length caps ops rest more))

good_ids_parts :
    (ids : List String)
    → good_ids ids ≡ true
    → ((leb 1 (length ids) && leb (length ids) 16) ≡ true)
      × (all is_identifier ids ≡ true)
      × (fresh [] ids ≡ true)
good_ids_parts ids h = ground arith

-- The snapshot of a plan that the checks accept.
abbrev pub spec_of :
    String × ℕ → CorePlan → ExecutionLimits → List Stage → RuntimeIdentity → ExecutionSpec
spec_of encoded plan limits stages identity = record {
  fingerprint = encoded.0;
  encoded_bytes = encoded.1;
  schema_version = 1;
  plan = view_plan plan;
  limits = limits;
  stages = stages;
  runtime_identity = identity;
}

module _ (table : List Candidate)
    (encode : Plan → ExecutionLimits → List Stage → RuntimeIdentity → String × ℕ) (plan : CorePlan)
    (limits : ExecutionLimits) (identity : RuntimeIdentity) (caps : CostCaps)
    (stages : List Stage) where
  -- The checks of a snapshot, one after another.
  check_spec_core :
      (is_positive (encode (view_plan plan) limits stages identity).1 (8 * 1024 * 1024)) ≡ true
      → check_limits limits ≡ ok tt
      → check_identity identity ≡ ok tt
      → route_mem plan.route all_routes ≡ true
      → identity.model ≡ plan.candidate_model
      → identity.model_revision ≡ plan.candidate_revision
      → (length (matching_candidates identity.model identity.model_revision) == 1) ≡ true
      → (leb 1 (length stages) && leb (length stages) 16) ≡ true
      → check_stages kova_core identity [] stages (view_plan plan).operations ≡ ok tt
      → strs_eq (public_ids stages) (last_ids stages) ≡ true
      → sum_of token_reservation stages ≤ limits.token_limit
      → sum_of (λ s. s.cost_cap_microusd) stages ≤ limits.cost_limit_microusd
      → check_spec
          (spec_of (encode (view_plan plan) limits stages identity) plan limits stages identity)
        ≡ ok tt
  unfolding check_spec check_engine
  check_spec_core a b d e f g i j k l m n =
      ground (arith, eq_refl plan.candidate_model, eq_refl plan.candidate_revision)

  from_plan_core :
      check_limits limits ≡ ok tt
      → check_pins table identity ≡ ok tt
      → caps_cover caps (view_plan plan).operations ≡ true
      → stages_for caps (view_plan plan).operations ≡ ok stages
      → check_spec
          (spec_of (encode (view_plan plan) limits stages identity) plan limits stages identity)
        ≡ ok tt
      → from_plan table encode (view_plan plan) limits identity caps
        ≡ ok (spec_of (encode (view_plan plan) limits stages identity) plan limits stages identity)
  unfolding from_plan
  from_plan_core a b d e f = rw (a, b, d, e, f) refl

module _ (file : Option (List ℕ)) (instruction : Route → List ℕ)
    (counter : String → List Message → ℕ) (id : String) (fields : Request) (messages : List Message)
    (model : String) (table : List Candidate)
    (encode : Plan → ExecutionLimits → List Stage → RuntimeIdentity → String × ℕ) where
  -- The plan of an accepted Core request is admitted as an execution snapshot whenever the caller's
  -- side holds: the limits and the runtime identity pass their own checks, the identity is pinned by
  -- the table, is that of the plan's candidate and has the native context, the caps are those of the
  -- operations and are positive, the stages they give fit the token and the cost limit, and the
  -- encoded snapshot has at most 8 MiB. No check on routes, ids, dependencies, budgets, the number of
  -- stages or the public stage can refuse it, and the snapshot holds the plan with those stages.
  pub from_plan-build_core_plan :
      (plan : CorePlan) (limits : ExecutionLimits) (identity : RuntimeIdentity) (caps : CostCaps)
      (stages : List Stage)
      → build_core_plan file instruction counter id fields messages model ≡ ok plan
      → check_limits limits ≡ ok tt
      → check_identity identity ≡ ok tt
      → check_pins table identity ≡ ok tt
      → identity.model ≡ plan.candidate_model
      → identity.model_revision ≡ plan.candidate_revision
      → identity.context_tokens ≡ native_context_tokens
      → caps_cover caps (view_plan plan).operations ≡ true
      → stages_for caps (view_plan plan).operations ≡ ok stages
      → all (λ s. is_positive s.cost_cap_microusd max_integer) stages ≡ true
      → sum_of token_reservation stages ≤ limits.token_limit
      → sum_of (λ s. s.cost_cap_microusd) stages ≤ limits.cost_limit_microusd
      → is_positive (encode (view_plan plan) limits stages identity).1 (8 * 1024 * 1024) ≡ true
      → from_plan table encode (view_plan plan) limits identity caps
        ≡ ok (spec_of (encode (view_plan plan) limits stages identity) plan limits stages identity)
  from_plan-build_core_plan plan limits identity caps stages built ls is pins m r native cover made
        positive tokens costs bytes =
      let budgeted =
        build_core_plan-Budgeted file instruction counter id fields messages model plan built in
      let route = plan_route file instruction counter id fields messages model plan built in
      let ids = plan_ids file instruction counter id fields messages model plan built in
      let (count, identifiers, new) = good_ids_parts (ids_of plan.operations) ids in
      let candidate = plan_candidate file instruction counter id fields messages model plan built in
      let size = stages_for-length caps plan.operations stages made in
      let accepted =
        stages_accepted identity native caps [] plan.operations [] stages budgeted made positive
          identifiers new refl refl in
      let public = public_last native_context_tokens [] plan.operations caps stages budgeted made in
      from_plan_core table encode plan limits identity caps stages ls pins cover made (
        check_spec_core table encode plan limits identity caps stages bytes ls is route m r
          (rw (m, r) candidate) (rw size count) accepted public tokens costs)
