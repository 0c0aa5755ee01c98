-- ===== src/Examples/PageRuns.antt =====
-- A journal of two events, read in two pages.
use kova_gpt_models.Common.{
  ◌+◌, ◌≡◌, refl, arith, is_identifier, is_hex, none, some, [], ◌∷◌, ◌++◌, Result, ok, err,
}
use kova_gpt_models.Router.Models.{matching_candidates}
use kova_gpt_models.Router.Routes.{route_mem}
use kova_gpt_models.Contracts.Grant.{all_routes}
use kova_gpt_models.Contracts.Spec.{check_limits}
use kova_gpt_models.Contracts.Validate.{
  check_spec, check_identity, check_engine, check_stages, check_stage,
}
use kova_gpt_models.Store.State.{
  Job, load_spec, read_time, job_created, stage_started_event, log_event,
}
use kova_gpt_models.Store.Journal.{new_job}
use kova_gpt_models.Store.Events.{IsGapless}
use kova_gpt_models.Store.Replay.{PublicEvent, public_events, replay_rows, replay}
use kova_gpt_models.Store.Pages.{replay_plus}
use kova_gpt_models.Examples.Samples.{sample_spec}

abbrev unlogged : Job
unlogged = new_job "job" "owner" "key" sample_spec

abbrev job_or : Result Job → Job
job_or (ok j) = j
job_or (err e) = unlogged

abbrev logged_once : Job
unfolding new_job log_event
logged_once = job_or (log_event job_created none 10 unlogged)

abbrev logged_twice : Job
unfolding new_job log_event
logged_twice = job_or (log_event stage_started_event (some "draft") 20 logged_once)

abbrev created_event : PublicEvent
created_event = record {
  public_event = record {
    event_sequence = 1;
    kind = job_created;
    event_stage = none;
    occurred_ms = 10;
  };
  public_text = none;
}

abbrev started_event : PublicEvent
started_event = record {
  public_event = record {
    event_sequence = 2;
    kind = stage_started_event;
    event_stage = some "draft";
    occurred_ms = 20;
  };
  public_text = none;
}

first_page : replay 0 1 logged_twice ≡ ok (created_event ∷ [], 1)
unfolding logged_twice logged_once new_job log_event read_time replay replay_rows public_events
    load_spec check_spec check_limits check_identity check_engine check_stages check_stage
    is_identifier is_hex matching_candidates route_mem all_routes
first_page = refl

second_page : replay 1 1 logged_twice ≡ ok (started_event ∷ [], 2)
unfolding logged_twice logged_once new_job log_event read_time replay replay_rows public_events
    load_spec check_spec check_limits check_identity check_engine check_stages check_stage
    is_identifier is_hex matching_candidates route_mem all_routes
second_page = refl

logged_twice-IsGapless : IsGapless logged_twice
unfolding logged_twice logged_once new_job log_event read_time
logged_twice-IsGapless = refl

replay_plus_example :
    replay 0 (1 + 1) logged_twice ≡ ok ((created_event ∷ []) ++ (started_event ∷ []), 2)
replay_plus_example =
    replay_plus 0 1 1 logged_twice (created_event ∷ []) (started_event ∷ []) 1 2
      logged_twice-IsGapless (omega arith) first_page second_page
