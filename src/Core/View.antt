-- ===== src/Core/View.antt =====
-- What an execution snapshot reads of a Core plan (execution/contracts.py).
use kova_gpt_models.Common.{false, none, map}
use kova_gpt_models.Contracts.Spec.{Operation, Plan, kova_core}
use kova_gpt_models.Core.Plan.{CoreOperation, CorePlan}

abbrev pub view_operation : CoreOperation → Operation
view_operation o = record {
  op_id = o.stage_id;
  depends_on = o.depends_on;
  maximum_input_tokens = o.maximum_input_tokens;
  maximum_output_tokens = o.maximum_output_tokens;
  public_output = o.public_response;
  activity_event_allowed = o.activity_allowed;
  op_condition = none;
  maximum_rounds = 0;
}

abbrev pub view_plan : CorePlan → Plan
view_plan p = record {
  route = p.route;
  production_ready = false;
  endpoint_deployed = false;
  engine = kova_core;
  candidate_model = p.candidate_model;
  candidate_revision = p.candidate_revision;
  model_selection_required = false;
  operations = map view_operation p.operations;
}
