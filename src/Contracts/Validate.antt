-- ===== src/Contracts/Validate.antt =====
-- `ExecutionSpec.__post_init__`: the checks on a decoded snapshot, in their order. Field sets and
-- field types hold by typing; that the bytes are canonical JSON is left to the encoder.
use kova_gpt_models.Common.{
  ◌*◌, String, codes, str_eq, is_identifier, is_hex, is_space, Bool, true, false, ◌&&◌, not, Option,
  none, some, List, [], ◌∷◌, map, all, any, length, filter, sum_of, leb, ltb, ◌==◌, Result, ok, err,
  execution_error, guard, ◌>>=◌, ◌>>◌, rethrow,
}
use kova_gpt_models.Router.Routes.{route_mem}
use kova_gpt_models.Router.Models.{source_reference_for_route, matching_candidates}
use kova_gpt_models.Contracts.Grant.{all_routes}
use kova_gpt_models.Contracts.Spec.{
  max_integer, is_positive, check_limits, Stage, token_reservation, Engine, kova_core, kova_ultra,
  Operation, Plan, RuntimeIdentity, ExecutionSpec,
}

-- `text.strip()` is not empty.
abbrev pub has_text : String → Bool
has_text s = any (λ c. not (is_space c)) (codes s)

abbrev pub str_mem : String → List String → Bool
str_mem s = any (str_eq s)

-- `len(set(xs)) == len(xs)`
abbrev pub all_distinct : List String → Bool
all_distinct [] = true
all_distinct (x ∷ xs) = not (str_mem x xs) && all_distinct xs

-- Equality of two lists of texts.
abbrev pub strs_eq : List String → List String → Bool
strs_eq [] [] = true
strs_eq (x ∷ xs) (y ∷ ys) = str_eq x y && strs_eq xs ys
strs_eq _ _ = false

abbrev pub bool_eq : Bool → Bool → Bool
bool_eq true b = b
bool_eq false b = not b

abbrev condition_eq : Option String → Option String → Bool
condition_eq none none = true
condition_eq (some a) (some b) = str_eq a b
condition_eq _ _ = false

abbrev is_ultra : Engine → Bool
is_ultra kova_core = false
is_ultra kova_ultra = true

-- Only the debate stage of an Ultra plan is conditional.
abbrev condition_allowed : Engine → Stage → Operation → Option String → Bool
condition_allowed e s op none = true
condition_allowed e s op (some c) =
    is_ultra e
    && (str_eq s.id "debate-round-1"
        && (str_eq c "judge_detected_material_disagreement" && op.maximum_rounds == 1))

-- The body of the loop over stages and operations; `seen` holds the ids of the stages above.
unfoldable pub check_stage :
    Engine → RuntimeIdentity → List String → Stage → Operation → Result (Unit {0})
unfolding is_identifier
check_stage engine identity seen s op = do
  guard (is_identifier s.id) execution_error
  guard (not (str_mem s.id seen)) execution_error
  guard (all_distinct s.dependencies && all (λ d. str_mem d seen) s.dependencies) execution_error
  guard (is_positive s.maximum_input_tokens max_integer) execution_error
  guard (is_positive s.maximum_output_tokens max_integer) execution_error
  guard (is_positive s.cost_cap_microusd max_integer) execution_error
  guard (leb (token_reservation s) identity.context_tokens) execution_error
  guard (str_eq s.id op.op_id && strs_eq s.dependencies op.depends_on) execution_error
  guard
      (s.maximum_input_tokens == op.maximum_input_tokens
        && (s.maximum_output_tokens == op.maximum_output_tokens
            && (bool_eq s.public op.public_output && bool_eq s.activity op.activity_event_allowed)))
      execution_error
  guard (condition_eq s.condition op.op_condition) execution_error
  guard (condition_allowed engine s op s.condition) execution_error

-- The loop; `zip(..., strict=True)` refuses lists of different lengths.
unfoldable pub check_stages :
    Engine → RuntimeIdentity → List String → List Stage → List Operation → Result (Unit {0})
check_stages engine identity seen [] [] = ok tt
check_stages engine identity seen (s ∷ ss) (op ∷ ops) =
    check_stage engine identity seen s op >> check_stages engine identity (s.id ∷ seen) ss ops
check_stages engine identity seen _ _ = err execution_error

-- The id of the last stage; the empty list has been refused before.
abbrev pub last_ids : List Stage → List String
last_ids [] = []
last_ids (s ∷ []) = s.id ∷ []
last_ids (s ∷ t ∷ ss) = last_ids (t ∷ ss)

abbrev pub public_ids : List Stage → List String
public_ids ss = map (λ s. s.id) (filter (λ s. s.public) ss)

-- The engine's share of the identity checks.
unfoldable pub check_engine : Plan → RuntimeIdentity → Engine → Result (Unit {0})
check_engine plan identity kova_core =
    guard
      (str_eq plan.candidate_model identity.model
        && str_eq plan.candidate_revision identity.model_revision)
      execution_error
check_engine plan identity kova_ultra = do
  guard plan.model_selection_required execution_error
  source ← rethrow (source_reference_for_route plan.route) execution_error
  guard (str_eq identity.model source.slot && str_eq identity.model_revision source.revision)
      execution_error

-- The checks on the runtime identity.
unfoldable pub check_identity : RuntimeIdentity → Result (Unit {0})
unfolding is_hex
check_identity identity = do
  guard (has_text identity.model) execution_error
  guard (is_hex 40 identity.model_revision) execution_error
  guard (is_hex 64 identity.adapter_sha256) execution_error
  guard (is_hex 64 identity.adapter_bundle_sha256) execution_error
  guard (is_positive identity.context_tokens max_integer) execution_error

-- `ExecutionSpec.__post_init__`
unfoldable pub check_spec : ExecutionSpec → Result (Unit {0})
check_spec spec = do
  guard (ltb 0 spec.encoded_bytes && leb spec.encoded_bytes (8 * 1024 * 1024)) execution_error
  guard (spec.schema_version == 1) execution_error
  check_limits spec.limits
  check_identity spec.runtime_identity
  guard (route_mem spec.plan.route all_routes) execution_error
  guard (not spec.plan.production_ready && not spec.plan.endpoint_deployed) execution_error
  check_engine spec.plan spec.runtime_identity spec.plan.engine
  guard
      (length (matching_candidates spec.runtime_identity.model spec.runtime_identity.model_revision)
        == 1)
      execution_error
  guard (leb 1 (length spec.stages) && leb (length spec.stages) 16) execution_error
  check_stages spec.plan.engine spec.runtime_identity [] spec.stages spec.plan.operations
  guard (strs_eq (public_ids spec.stages) (last_ids spec.stages)) execution_error
  guard (leb (sum_of token_reservation spec.stages) spec.limits.token_limit) execution_error
  guard (leb (sum_of (λ s. s.cost_cap_microusd) spec.stages) spec.limits.cost_limit_microusd)
      execution_error
