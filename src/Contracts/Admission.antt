-- ===== src/Contracts/Admission.antt =====
-- `ExecutionSpec.from_plan`: the admission of a plan under explicit limits, cost caps and the identity
-- of the served model. The canonical bytes and their SHA-256 come from the standard library: they are
-- given as `encode`, by the digest and the number of bytes.
use kova_gpt_models.Common.{
  ℕ, ◌≡◌, arith, refl, is_none, String, str_eq, Bool, true, false, ◌&&◌, Option, none, some, List,
  [], ◌∷◌, all, any, map, leb, Result, ok, err, execution_error, guard, or_fail, ◌>>=◌, ◌>>◌,
  if◌then◌else◌, key_error,
}
use kova_gpt_models.Router.Models.{Candidate, candidates, matching}
use kova_gpt_models.Contracts.Spec.{
  max_integer, is_positive, ExecutionLimits, check_limits, Stage, Operation, Plan, RuntimeIdentity,
  ExecutionSpec,
}
use kova_gpt_models.Contracts.Validate.{check_spec, str_mem}

-- `stage_cost_caps`
abbrev pub CostCaps : Type 0
CostCaps = List (String × ℕ)

abbrev pub cap_of : CostCaps → String → Option ℕ
cap_of [] id = none
cap_of ((k, n) ∷ caps) id = if str_eq k id then some n else cap_of caps id

abbrev op_ids : List Operation → List String
op_ids = map (λ o. o.op_id)

-- `set(stage_cost_caps) == set(ids)`
abbrev pub caps_cover : CostCaps → List Operation → Bool
caps_cover caps ops =
    all (λ p. str_mem p.0 (op_ids ops)) caps
    && all (λ id. any (λ p. str_eq p.0 id) caps) (op_ids ops)

abbrev pub pinned : Option String → String → Bool
pinned none s = false
pinned (some p) s = str_eq s p

-- `len(admitted) == 1`
unfoldable pub single : List Candidate → Result Candidate
single (c ∷ []) = ok c
single _ = err execution_error

-- The checks of the runtime identity against the row of its model.
unfoldable pub check_row : RuntimeIdentity → Candidate → Result (Unit {0})
check_row identity c = do
  guard (pinned c.adapter_sha256 identity.adapter_sha256) execution_error
  guard (pinned c.adapter_bundle_sha256 identity.adapter_bundle_sha256) execution_error
  guard (is_positive identity.context_tokens max_integer) execution_error
  guard (leb identity.context_tokens c.context_tokens) execution_error

-- The checks of the runtime identity against the current table.
unfoldable pub check_pins : List Candidate → RuntimeIdentity → Result (Unit {0})
unfolding single check_row
check_pins table identity =
    single (matching identity.model identity.model_revision table) >>= check_row identity

-- The stage of an operation.
abbrev pub stage_for : ℕ → Operation → Stage
stage_for cap o = record {
  id = o.op_id;
  dependencies = o.depends_on;
  maximum_input_tokens = o.maximum_input_tokens;
  maximum_output_tokens = o.maximum_output_tokens;
  cost_cap_microusd = cap;
  public = o.public_output;
  activity = o.activity_event_allowed;
  condition = o.op_condition;
}

unfoldable pub stages_for : CostCaps → List Operation → Result (List Stage)
stages_for caps [] = ok []
stages_for caps (o ∷ ops) = do
  cap ← or_fail (cap_of caps o.op_id) key_error
  rest ← stages_for caps ops
  ok (stage_for cap o ∷ rest)

-- ExecutionSpec.from_plan, with the rows of CORE_SERVING["candidates"].
unfoldable pub from_plan :
    List Candidate
    → (Plan → ExecutionLimits → List Stage → RuntimeIdentity → String × ℕ)
    → Plan
    → ExecutionLimits
    → RuntimeIdentity
    → CostCaps
    → Result ExecutionSpec
from_plan table encode plan limits identity caps = do
  check_limits limits
  check_pins table identity
  guard (caps_cover caps plan.operations) execution_error
  stages ← stages_for caps plan.operations
  let (digest, bytes) = encode plan limits stages identity
  let spec : ExecutionSpec = record {
    fingerprint = digest;
    encoded_bytes = bytes;
    schema_version = 1;
    plan = plan;
    limits = limits;
    stages = stages;
    runtime_identity = identity;
  }
  check_spec spec
  ok spec

abbrev unpinned : Candidate → Bool
unpinned c = is_none c.adapter_sha256

single-unpinned :
    (identity : RuntimeIdentity) (cs : List Candidate)
    → all unpinned cs ≡ true
    → (single cs >>= check_row identity) ≡ err execution_error
unfolding single check_row
single-unpinned identity [] h = refl
single-unpinned identity (c ∷ []) h = ground arith
single-unpinned identity (c ∷ d ∷ cs) h = refl

all-matching :
    (model revision : String) (cs : List Candidate)
    → all unpinned cs ≡ true
    → all unpinned (matching model revision cs) ≡ true
all-matching model revision [] h = refl
all-matching model revision (c ∷ cs) h = ground (arith, all-matching model revision cs)

-- The table of the source pins no adapter, and as long as it does not, no plan is admitted: with
-- limits that pass their own checks, every call is refused with an execution error.
pub from_plan_unpinned :
    (encode : Plan → ExecutionLimits → List Stage → RuntimeIdentity → String × ℕ) (plan : Plan)
    (limits : ExecutionLimits) (identity : RuntimeIdentity) (caps : CostCaps)
    → check_limits limits ≡ ok tt
    → from_plan candidates encode plan limits identity caps ≡ err execution_error
unfolding from_plan candidates check_pins
from_plan_unpinned encode plan limits identity caps h = rw (
  h,
  single-unpinned identity (matching identity.model identity.model_revision candidates)
      (all-matching identity.model identity.model_revision candidates refl),
)
