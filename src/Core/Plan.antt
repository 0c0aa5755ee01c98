-- ===== src/Core/Plan.antt =====
-- build_core_plan: the operations of a Core request, one for each stage of its policy.
use kova_gpt_models.Common.{
  ℕ, suc, ◌+◌, min, String, codes, str_eq, Bool, true, false, ◌&&◌, Option, List, [], ◌∷◌, ◌++◌,
  map, find, length, sum_of, leb, ltb, Result, ok, key_error, value_error, guard, or_fail, ◌>>=◌,
  ◌>>◌, if◌then◌else◌,
}
use kova_gpt_models.Router.Routes.{Route}
use kova_gpt_models.Router.Policy.{Reasoning, RoutePolicy, Request}
use kova_gpt_models.Router.Models.{Candidate, candidates, source_reference_for_route}
use kova_gpt_models.Core.Messages.{
  system, Message, clean_messages, load_runtime_identity, trusted_message_count,
  selected_candidate_provenance, placeholder, artifact_message,
}
use kova_gpt_models.Core.Request.{
  resolved_policy, StageKind, planning_kind, answer_kind, critic_kind, verification_kind, stages_of,
  stage_key, route_limit,
}

-- A row of `artifact_bindings`.
pub record Binding : Type 0 where
  pub source_stage : String
  pub marker : List ℕ
  pub target_index : ℕ
  -- `target_field == "content"`
  pub targets_content : Bool
  pub exact_target_only : Bool

-- `request_template`
pub record Template : Type 0 where
  pub model : String
  pub model_revision : String
  pub messages : List Message
  pub bindings : List Binding
  pub reasoning : Reasoning
  pub thinking : Option Bool
  pub max_completion_tokens : ℕ
  pub streams : Bool

pub record CoreOperation : Type 0 where
  pub stage_id : String
  pub phase : StageKind
  pub public_response : Bool
  pub depends_on : List String
  pub template_input_tokens : ℕ
  pub reserved_prior_tokens : ℕ
  pub maximum_input_tokens : ℕ
  pub maximum_output_tokens : ℕ
  pub activity_allowed : Bool
  pub template : Template

pub record CorePlan : Type 0 where
  pub request_id : String
  pub route : Route
  pub candidate_model : String
  pub candidate_revision : String
  pub operations : List CoreOperation

-- STAGE_INSTRUCTIONS
unfoldable pub stage_instruction : StageKind → List ℕ
stage_instruction planning_kind =
    codes
      "Create only a concise private execution plan for the next stage. Do not expose hidden chain-of-thought."
stage_instruction answer_kind =
    codes
      "Produce or revise the answer using available verified context. Do not invent tool results."
stage_instruction critic_kind =
    codes "Identify concrete defects in the draft without exposing hidden chain-of-thought."
stage_instruction verification_kind =
    codes
      "Return the corrected final answer. Include only conclusions and useful concise explanation."

-- _stage_output_limit
abbrev pub stage_output_limit : ℕ → Bool → ℕ
stage_output_limit limit final = if final then limit else min 512 limit

abbrev pub ids_of : List CoreOperation → List String
ids_of = map (λ o. o.stage_id)

-- reserved_prior_artifact_tokens
abbrev pub reserved_of : List CoreOperation → ℕ
reserved_of = sum_of (λ o. o.maximum_output_tokens)

-- The binding of a dependency at an index.
abbrev pub binding_for : ℕ → String → Binding
binding_for index d = record {
  source_stage = d;
  marker = placeholder d;
  target_index = index;
  targets_content = true;
  exact_target_only = true;
}

-- The bindings of the dependencies, whose messages stand from `first` on.
unfoldable pub bindings_from : ℕ → List String → List Binding
bindings_from first [] = []
bindings_from first (d ∷ ds) = binding_for first d ∷ bindings_from (suc first) ds

abbrev pub is_last : List (StageKind × ℕ) → Bool
is_last [] = true
is_last (s ∷ ss) = false

-- What the loop takes from the request: the model and its revision, the context of the candidate,
-- the policy with its output limit, the three system messages and the turns, and the trusted counter,
-- which gives 0 for any value that it refuses.
pub record Context : Type 0 where
  pub model : String
  pub revision : String
  pub context_tokens : ℕ
  pub policy : RoutePolicy
  pub limit : ℕ
  pub identity : Message
  pub provenance : Message
  pub behavior : Message
  pub turns : List Message
  pub count_tokens : String → List Message → ℕ

-- provider_messages
abbrev pub provider_messages : Context → StageKind → List String → List Message
provider_messages c kind deps =
    c.identity
    ∷ c.provenance
    ∷ c.behavior
    ∷ record { role = system; content = stage_instruction kind }
    ∷ (c.turns ++ map artifact_message deps)

-- The operation of a stage after the operations `before`.
unfoldable pub operation_for : Context → List CoreOperation → StageKind × ℕ → Bool → CoreOperation
operation_for c before stage final =
    let deps = ids_of before in
    let messages = provider_messages c stage.0 deps in
    let tokens = c.count_tokens c.model messages in
    let output = stage_output_limit c.limit final in
    record {
      stage_id = stage_key stage;
      phase = stage.0;
      public_response = final;
      depends_on = deps;
      template_input_tokens = tokens;
      reserved_prior_tokens = reserved_of before;
      maximum_input_tokens = tokens + reserved_of before;
      maximum_output_tokens = output;
      activity_allowed = c.policy.activity_updates;
      template = record {
        model = c.model;
        model_revision = c.revision;
        messages = messages;
        bindings = bindings_from (trusted_message_count + length c.turns) deps;
        reasoning = c.policy.reasoning;
        thinking = c.policy.thinking;
        max_completion_tokens = output;
        streams = final;
      };
    }

-- The loop over the stages.
unfoldable pub plan_operations :
    Context → List CoreOperation → List (StageKind × ℕ) → Result (List CoreOperation)
plan_operations c before [] = ok before
plan_operations c before (stage ∷ rest) = do
  let op = operation_for c before stage (is_last rest)
  guard (ltb 0 op.template_input_tokens) value_error
  guard (leb (op.maximum_input_tokens + op.maximum_output_tokens) c.context_tokens) value_error
  plan_operations c (before ++ op ∷ []) rest

-- CANDIDATES[candidate_model]
unfoldable pub find_candidate : String → Result Candidate
unfolding candidates
find_candidate model =
    or_fail (find (λ (c : Candidate). str_eq c.model model) candidates) value_error

-- The part of build_core_plan before its loop: what the loop takes, and the stages.
unfoldable pub prepare :
    Option (List ℕ)
    → (Route → List ℕ)
    → (String → List Message → ℕ)
    → String
    → Request
    → List Message
    → String
    → Result (Context × List (StageKind × ℕ))
prepare file instruction counter request_id fields messages model = do
  identity ← load_runtime_identity file
  policy ← resolved_policy fields
  guard (leb 1 (length (codes request_id)) && leb (length (codes request_id)) 128) value_error
  candidate ← find_candidate model
  source ← source_reference_for_route policy.route
  guard (str_eq model source.slot) value_error
  turns ← clean_messages messages
  limit ← route_limit policy
  passes ← or_fail policy.passes key_error
  provenance ← selected_candidate_provenance policy.route model
  ok (
    record {
      model = model;
      revision = candidate.revision;
      context_tokens = candidate.context_tokens;
      policy = policy;
      limit = limit;
      identity = record { role = system; content = identity };
      provenance = provenance;
      behavior = record { role = system; content = instruction policy.route };
      turns = turns;
      count_tokens = counter;
    },
    stages_of passes,
  )

abbrev pub core_plan : String → Context → List CoreOperation → CorePlan
core_plan id c ops = record {
  request_id = id;
  route = c.policy.route;
  candidate_model = c.model;
  candidate_revision = c.revision;
  operations = ops;
}

-- build_core_plan, with the identity file, the texts of the behaviour instructions and the trusted
-- token counter.
unfoldable pub build_core_plan :
    Option (List ℕ)
    → (Route → List ℕ)
    → (String → List Message → ℕ)
    → String
    → Request
    → List Message
    → String
    → Result CorePlan
build_core_plan file instruction counter request_id fields messages model = do
  (c, stages) ← prepare file instruction counter request_id fields messages model
  operations ← plan_operations c [] stages
  ok (core_plan request_id c operations)
