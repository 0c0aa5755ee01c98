-- ===== src/Examples/BindRuns.antt =====
-- A stage of an Ultra plan with one artifact, bound under a table that pins an adapter.
use kova_gpt_models.Common.{
  ℕ, ◌+◌, ◌≤◌, ◌<◌, ◌≡◌, refl, String, codes, str_eq, is_hex, replace_first, true, false, Option,
  none, some, List, [], ◌∷◌, map, all, filter, length, ok,
}
use kova_gpt_models.Router.Routes.{cosmo, ultra, work}
use kova_gpt_models.Router.Models.{
  Candidate, candidates, model_source, route_slot, source_reference_for_route,
}
use kova_gpt_models.Contracts.Spec.{RuntimeIdentity}
use kova_gpt_models.Contracts.Admission.{single}
use kova_gpt_models.Core.Messages.{
  system, user, Message, provenance_text, placeholder_prefix, placeholder, artifact_of,
  artifact_message, selected_candidate_provenance,
}
use kova_gpt_models.Core.Bind.{is_bound}
use kova_gpt_models.Core.Trusted.{masked}
use kova_gpt_models.Ultra.Bind.{
  Artifacts, UltraStage, UltraPlan, check_loaded, saved_conversation, artifact_text, bind_artifact,
  bind_artifacts, UltraRequest, only_stage, bound_stage, bind_ultra_operation,
}
use kova_gpt_models.Ultra.Bound.{bind_ultra_operation-masked, bind_ultra_operation-candidates}
use kova_gpt_models.Examples.Samples.{digest_text}

abbrev approved_text : Option (List ℕ)
approved_text = some (codes "You are Kova.")

abbrev message_counter : String → List Message → ℕ
message_counter model messages = 10 + length messages

abbrev loaded_model : RuntimeIdentity
loaded_model = record {
  model = "kova-cosmo";
  model_revision = "c1899de289a04d12100db370d81485cdf75e47ca";
  adapter_sha256 = digest_text;
  adapter_bundle_sha256 = digest_text;
  context_tokens = 32768;
}

abbrev one_adapter : List Candidate
one_adapter =
    record {
      model = "kova-cosmo";
      revision = "c1899de289a04d12100db370d81485cdf75e47ca";
      context_tokens = 32768;
      adapter_sha256 = some digest_text;
      adapter_bundle_sha256 = some digest_text;
    }
    ∷ []

abbrev conversation_of : Message → List Message
unfolding provenance_text model_source
conversation_of last =
    record { role = system; content = codes "You are Kova." }
    ∷ record { role = system; content = provenance_text (model_source cosmo) }
    ∷ record { role = system; content = codes "Answer well." }
    ∷ record { role = system; content = codes "Find conflicts." }
    ∷ record { role = user; content = codes "Compare them." }
    ∷ last
    ∷ []

abbrev conflict_stage : UltraStage
unfolding conversation_of artifact_of placeholder placeholder_prefix
conflict_stage = record {
  stage_id = "disagreement-check";
  stage_depends_on = "specialist-1" ∷ [];
  messages = conversation_of (artifact_message "specialist-1");
  bindings =
      record {
        source_stage = "specialist-1";
        marker = placeholder "specialist-1";
        target_index = 5;
        targets_content = true;
        exact_target_only = true;
        binds_empty = false;
      }
      ∷ [];
  input_limit = 2000;
  output_limit = 512;
  public_stage = false;
}

abbrev compare_plan : UltraPlan
unfolding conflict_stage
compare_plan = record {
  is_ultra_engine = true;
  ultra_route = work cosmo ultra;
  conversation_messages = none;
  task = codes "Compare them.";
  ultra_stages = conflict_stage ∷ [];
}

abbrev recorded : Artifacts
recorded = ("specialist-1", some (codes "It costs less.")) ∷ []

abbrev compare_request : UltraRequest
unfolding conversation_of artifact_of
compare_request = record {
  request_model = "kova-cosmo";
  request_messages = conversation_of (artifact_of "specialist-1" (codes "It costs less."));
  request_max_tokens = 512;
  request_stream = false;
}

compare_bound :
    bind_ultra_operation approved_text one_adapter message_counter compare_plan "disagreement-check"
      recorded loaded_model
    ≡ ok compare_request
unfolding compare_plan conflict_stage conversation_of compare_request artifact_of placeholder
    placeholder_prefix provenance_text model_source route_slot source_reference_for_route candidates
    selected_candidate_provenance single is_hex check_loaded saved_conversation artifact_text
    bind_artifact bind_artifacts only_stage bound_stage bind_ultra_operation replace_first
compare_bound = refl

bind_ultra_operation-masked_example :
    (op : UltraStage) × (only_stage
        (filter (λ o. str_eq o.stage_id "disagreement-check") compare_plan.ultra_stages)
      ≡ ok op)
    × (compare_request.request_max_tokens ≡ op.output_limit)
    × (0 < message_counter loaded_model.model compare_request.request_messages)
    × (message_counter loaded_model.model compare_request.request_messages ≤ op.input_limit)
    × (message_counter loaded_model.model compare_request.request_messages
          + compare_request.request_max_tokens
        ≤ loaded_model.context_tokens)
    × (all is_bound compare_request.request_messages ≡ true)
    × (map masked compare_request.request_messages ≡ map masked op.messages)
bind_ultra_operation-masked_example =
    bind_ultra_operation-masked approved_text one_adapter message_counter compare_plan
      "disagreement-check" recorded loaded_model compare_request compare_bound

bind_ultra_operation-candidates_example : ¬ (
    bind_ultra_operation approved_text candidates message_counter compare_plan "disagreement-check"
      recorded loaded_model
    ≡ ok compare_request)
bind_ultra_operation-candidates_example =
    bind_ultra_operation-candidates approved_text message_counter compare_plan "disagreement-check"
      recorded loaded_model compare_request
