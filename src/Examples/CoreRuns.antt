-- ===== src/Examples/CoreRuns.antt =====
-- A Core request of three stages: its plan, its admission and the binding of its second stage.
use kova_gpt_models.Common.{
  ℕ, ◌+◌, ◌≤◌, ◌<◌, ◌≡◌, refl, arith, String, codes, is_identifier, is_hex, true, false, Option,
  none, some, List, [], ◌∷◌, map, all, filter, take, drop, length, str_eq, Result, ok, err,
  execution_error,
}
use kova_gpt_models.Router.Routes.{instant_mode, Route, compat}
use kova_gpt_models.Router.Policy.{
  low_reasoning, Request, resolve_route, resolve_alias, resolve_family, find_family, find_effort,
  find_mode, family_key, effort_label, mode_key, bound_runtime, chat_policy, work_effort,
  forbidden_fields, runtime_profile,
}
use kova_gpt_models.Router.Models.{
  native_context_tokens, Candidate, candidates, model_source, route_slot,
  source_reference_for_route,
}
use kova_gpt_models.Contracts.Spec.{ExecutionLimits, check_limits, Stage, Plan, RuntimeIdentity}
use kova_gpt_models.Contracts.Validate.{check_identity}
use kova_gpt_models.Contracts.Admission.{
  CostCaps, stages_for, check_pins, check_row, single, from_plan, from_plan_unpinned,
}
use kova_gpt_models.Core.Messages.{
  user, Message, clean_messages, provenance_text, placeholder_prefix, placeholder, artifact_of,
  selected_candidate_provenance,
}
use kova_gpt_models.Core.Request.{
  planning_kind, requested_policy, resolved_policy, kind_name, stages_of, decimal, stage_key,
  core_route_limit, route_limit,
}
use kova_gpt_models.Core.Plan.{
  CoreOperation, CorePlan, stage_instruction, bindings_from, operation_for, plan_operations,
  find_candidate, prepare, build_core_plan,
}
use kova_gpt_models.Core.Bounds.{Budgeted, build_core_plan-Budgeted}
use kova_gpt_models.Core.View.{view_plan}
use kova_gpt_models.Core.Admit.Theorem.{spec_of, from_plan-build_core_plan}
use kova_gpt_models.Core.Bind.{
  Outputs, artifact_chars, is_bound, only_one, bind_core_operation, ProviderRequest,
}
use kova_gpt_models.Core.Bind.Complete.{request_of}
use kova_gpt_models.Core.Bind.Planned.{bound_of, bind_core_operation-build_core_plan}
use kova_gpt_models.Core.Trusted.{masked, bind_core_operation-masked}
use kova_gpt_models.Examples.Samples.{digest_text}

abbrev identity_file : Option (List ℕ)
identity_file = some (codes "You are Kova.")

abbrev behavior_text : Route → List ℕ
behavior_text r = codes "Answer briefly."

abbrev sample_counter : String → List Message → ℕ
sample_counter model messages = 10 + length messages

abbrev core_fields : Request
core_fields = ("surface", "chat") ∷ ("family", "orion") ∷ ("effort", "Medium") ∷ []

abbrev core_turns : List Message
core_turns = record { role = user; content = codes "Why?" } ∷ []

abbrev empty_plan : CorePlan
empty_plan = record {
  request_id = "";
  route = compat instant_mode;
  candidate_model = "";
  candidate_revision = "";
  operations = [];
}

abbrev plan_of : Result CorePlan → CorePlan
plan_of (ok p) = p
plan_of (err e) = empty_plan

abbrev core_sample : CorePlan
unfolding build_core_plan prepare plan_operations operation_for
core_sample = plan_of (
    build_core_plan identity_file behavior_text sample_counter "request" core_fields core_turns
      "kova-orion")

core_sample-built :
    build_core_plan identity_file behavior_text sample_counter "request" core_fields core_turns
      "kova-orion"
    ≡ ok core_sample
unfolding build_core_plan prepare plan_operations operation_for resolved_policy requested_policy
    resolve_route resolve_alias resolve_family find_family find_effort find_mode family_key
    effort_label mode_key bound_runtime chat_policy work_effort forbidden_fields runtime_profile
    candidates model_source route_slot source_reference_for_route find_candidate clean_messages
    route_limit core_route_limit stages_of stage_key kind_name decimal selected_candidate_provenance
    provenance_text stage_instruction bindings_from placeholder placeholder_prefix artifact_of
core_sample-built = refl

build_core_plan-Budgeted_example : Budgeted native_context_tokens [] core_sample.operations
build_core_plan-Budgeted_example =
    build_core_plan-Budgeted identity_file behavior_text sample_counter "request" core_fields
      core_turns "kova-orion" core_sample core_sample-built

abbrev core_limits : ExecutionLimits
core_limits = record {
  deadline_unix_ms = 5000;
  token_limit = 100000;
  cost_limit_microusd = 60;
  max_parallel = 1;
  stage_timeout_us = 1000000;
}

abbrev core_identity : RuntimeIdentity
core_identity = record {
  model = "kova-orion";
  model_revision = "70d244cc86ccca08cf5af4e1e306ecf908b1ad5e";
  adapter_sha256 = digest_text;
  adapter_bundle_sha256 = digest_text;
  context_tokens = 32768;
}

-- A table that pins an adapter.
abbrev pinned_table : List Candidate
pinned_table =
    record {
      model = "kova-orion";
      revision = "70d244cc86ccca08cf5af4e1e306ecf908b1ad5e";
      context_tokens = 32768;
      adapter_sha256 = some digest_text;
      adapter_bundle_sha256 = some digest_text;
    }
    ∷ []

abbrev core_caps : CostCaps
core_caps = ("planning-1", 10) ∷ ("answer-1", 20) ∷ ("verification-1", 30) ∷ []

abbrev core_encode : Plan → ExecutionLimits → List Stage → RuntimeIdentity → String × ℕ
core_encode plan limits stages identity = (digest_text, 900)

abbrev stages_or : Result (List Stage) → List Stage
stages_or (ok s) = s
stages_or (err e) = []

abbrev core_stages : List Stage
unfolding build_core_plan prepare plan_operations operation_for stages_for
core_stages = stages_or (stages_for core_caps (view_plan core_sample).operations)

from_plan-build_core_plan_example :
    from_plan pinned_table core_encode (view_plan core_sample) core_limits core_identity core_caps
    ≡ ok (spec_of (digest_text, 900) core_sample core_limits core_stages core_identity)
unfolding build_core_plan prepare plan_operations operation_for resolved_policy requested_policy
    resolve_route resolve_alias resolve_family find_family find_effort find_mode family_key
    effort_label mode_key bound_runtime chat_policy work_effort forbidden_fields runtime_profile
    candidates model_source route_slot source_reference_for_route find_candidate clean_messages
    route_limit core_route_limit stages_of stage_key kind_name decimal selected_candidate_provenance
    provenance_text stage_instruction bindings_from placeholder placeholder_prefix artifact_of
    stages_for check_limits check_identity is_hex is_identifier check_pins check_row single
from_plan-build_core_plan_example =
    from_plan-build_core_plan identity_file behavior_text sample_counter "request" core_fields
      core_turns "kova-orion" pinned_table core_encode core_sample core_limits core_identity
      core_caps core_stages core_sample-built refl refl refl refl refl refl refl refl refl
      (omega arith) (omega arith) refl

from_plan_unpinned_example :
    from_plan candidates core_encode (view_plan core_sample) core_limits core_identity core_caps
    ≡ err execution_error
unfolding check_limits
from_plan_unpinned_example =
    from_plan_unpinned core_encode (view_plan core_sample) core_limits core_identity core_caps refl

abbrev no_operation : CoreOperation
no_operation = record {
  stage_id = "";
  phase = planning_kind;
  public_response = false;
  depends_on = [];
  template_input_tokens = 0;
  reserved_prior_tokens = 0;
  maximum_input_tokens = 0;
  maximum_output_tokens = 0;
  activity_allowed = false;
  template = record {
    model = "";
    model_revision = "";
    messages = [];
    bindings = [];
    reasoning = low_reasoning;
    thinking = none;
    max_completion_tokens = 0;
    streams = false;
  };
}

abbrev second : List CoreOperation → CoreOperation
second (o ∷ p ∷ ops) = p
second _ = no_operation

-- The stage `answer-1`, the second of three.
abbrev answer_operation : CoreOperation
unfolding build_core_plan prepare plan_operations operation_for
answer_operation = second core_sample.operations

abbrev core_outputs : Outputs
core_outputs = ("planning-1", codes "First, look.") ∷ []

bind_core_operation-build_core_plan_example :
    bind_core_operation identity_file sample_counter core_sample "answer-1" core_outputs
    ≡ ok (request_of answer_operation (bound_of answer_operation core_turns core_outputs))
unfolding build_core_plan prepare plan_operations operation_for resolved_policy requested_policy
    resolve_route resolve_alias resolve_family find_family find_effort find_mode family_key
    effort_label mode_key bound_runtime chat_policy work_effort forbidden_fields runtime_profile
    candidates model_source route_slot source_reference_for_route find_candidate clean_messages
    route_limit core_route_limit stages_of stage_key kind_name decimal selected_candidate_provenance
    provenance_text stage_instruction bindings_from placeholder placeholder_prefix artifact_of
    artifact_chars
bind_core_operation-build_core_plan_example =
    bind_core_operation-build_core_plan identity_file behavior_text sample_counter "request"
      core_fields core_turns "kova-orion" core_sample (take 1 core_sample.operations)
      answer_operation (drop 2 core_sample.operations) core_outputs 12 (codes "You are Kova.")
      core_sample-built refl refl refl (omega arith) refl refl refl refl refl (omega arith)
      (omega arith)

abbrev answer_request : ProviderRequest
unfolding build_core_plan prepare plan_operations operation_for resolved_policy requested_policy
    resolve_route resolve_alias resolve_family find_family find_effort find_mode family_key
    effort_label mode_key bound_runtime chat_policy work_effort forbidden_fields runtime_profile
    candidates model_source route_slot source_reference_for_route find_candidate clean_messages
    route_limit core_route_limit stages_of stage_key kind_name decimal selected_candidate_provenance
    provenance_text stage_instruction bindings_from placeholder placeholder_prefix artifact_of
answer_request = request_of answer_operation (bound_of answer_operation core_turns core_outputs)

bind_core_operation-masked_example :
    (op : CoreOperation) × (only_one
        (filter (λ o. str_eq o.stage_id "answer-1") core_sample.operations)
      ≡ ok op)
    × (answer_request.max_tokens ≡ op.maximum_output_tokens)
    × (0 < sample_counter core_sample.candidate_model answer_request.provider_messages_bound)
    × (sample_counter core_sample.candidate_model answer_request.provider_messages_bound
        ≤ op.maximum_input_tokens)
    × (sample_counter core_sample.candidate_model answer_request.provider_messages_bound
          + answer_request.max_tokens
        ≤ native_context_tokens)
    × (all is_bound answer_request.provider_messages_bound ≡ true)
    × (map masked answer_request.provider_messages_bound ≡ map masked op.template.messages)
unfolding answer_request
bind_core_operation-masked_example =
    bind_core_operation-masked identity_file sample_counter core_sample "answer-1" core_outputs
      answer_request bind_core_operation-build_core_plan_example
