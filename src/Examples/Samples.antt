-- ===== src/Examples/Samples.antt =====
-- A grant, an admitted snapshot of two stages and a sanitizer that the runs share.
use kova_gpt_models.Common.{String, true, false, none, some, [], ◌∷◌}
use kova_gpt_models.Router.Routes.{plus, cosmo, light, Route, work}
use kova_gpt_models.Contracts.Grant.{ExecutionGrant}
use kova_gpt_models.Contracts.Spec.{
  ExecutionLimits, Stage, Operation, Plan, RuntimeIdentity, ExecutionSpec, kova_core,
}
use kova_gpt_models.Store.State.{Artifact}

abbrev pub sample_route : Route
sample_route = work cosmo light

abbrev pub sample_grant : ExecutionGrant
sample_grant = record {
  owner_id = "owner";
  tier = plus;
  allowed_routes = sample_route ∷ [];
  execution_authorized = true;
}

abbrev pub digest_text : String
digest_text = "0123456789abcdef0123456789abcdef0123456789abcdef0123456789abcdef"

abbrev draft_stage : Stage
draft_stage = record {
  id = "draft";
  dependencies = [];
  maximum_input_tokens = 1000;
  maximum_output_tokens = 500;
  cost_cap_microusd = 20;
  public = false;
  activity = true;
  condition = none;
}

abbrev answer_stage : Stage
answer_stage = record {
  id = "answer";
  dependencies = "draft" ∷ [];
  maximum_input_tokens = 2000;
  maximum_output_tokens = 500;
  cost_cap_microusd = 30;
  public = true;
  activity = true;
  condition = none;
}

abbrev sample_operation : Stage → Operation
sample_operation s = record {
  op_id = s.id;
  depends_on = s.dependencies;
  maximum_input_tokens = s.maximum_input_tokens;
  maximum_output_tokens = s.maximum_output_tokens;
  public_output = s.public;
  activity_event_allowed = s.activity;
  op_condition = s.condition;
  maximum_rounds = 0;
}

abbrev sample_plan : Plan
sample_plan = record {
  route = sample_route;
  production_ready = false;
  endpoint_deployed = false;
  engine = kova_core;
  candidate_model = "kova-cosmo";
  candidate_revision = "c1899de289a04d12100db370d81485cdf75e47ca";
  model_selection_required = false;
  operations = sample_operation draft_stage ∷ sample_operation answer_stage ∷ [];
}

abbrev sample_limits : ExecutionLimits
sample_limits = record {
  deadline_unix_ms = 5000;
  token_limit = 4000;
  cost_limit_microusd = 50;
  max_parallel = 1;
  stage_timeout_us = 1000000;
}

abbrev sample_identity : RuntimeIdentity
sample_identity = record {
  model = "kova-cosmo";
  model_revision = "c1899de289a04d12100db370d81485cdf75e47ca";
  adapter_sha256 = digest_text;
  adapter_bundle_sha256 = digest_text;
  context_tokens = 32768;
}

abbrev pub sample_spec : ExecutionSpec
sample_spec = record {
  fingerprint = digest_text;
  encoded_bytes = 900;
  schema_version = 1;
  plan = sample_plan;
  limits = sample_limits;
  stages = draft_stage ∷ answer_stage ∷ [];
  runtime_identity = sample_identity;
}

abbrev pub sample_artifact : Artifact
sample_artifact = record {
  content = some "done";
  tool_calls = [];
  input_tokens = 10;
  output_tokens = 5;
  debate_required = none;
  digest = digest_text;
  encoded_bytes = 90;
}
