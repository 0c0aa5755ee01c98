-- ===== src/Examples/JobRuns.antt =====
-- The life of a job of two stages, and the theorems on the journal applied to it.
use kova_gpt_models.Common.{
  ℕ, refl, ◌≡◌, codes, String, true, false, Option, none, some, [], ◌∷◌, Result, ok, err,
}
use kova_gpt_models.Examples.Samples.{digest_text, sample_grant, sample_spec, sample_artifact}
use kova_gpt_models.Common.{is_identifier, is_hex, all, ◌||◌, ◌<◌}
use kova_gpt_models.Store.Budget.{IsFunded, Steps-IsFunded}
use kova_gpt_models.Store.Events.{IsGapless, Steps-IsGapless}
use kova_gpt_models.Store.Final.{Steps-final, finish_succeeded}
use kova_gpt_models.Store.Stale.{Refuses, recovered_runner_refused, finished_runner_refused}
use kova_gpt_models.Store.State.{
  StageRow, StageState, Artifact, JobState, EventKind, job_succeeded, job_paused, job_resumed,
  is_completed, is_skipped, interrupted,
}
use kova_gpt_models.Store.Jobs.{last_completed}
use kova_gpt_models.Router.Models.{matching_candidates}
use kova_gpt_models.Router.Routes.{route_mem}
use kova_gpt_models.Contracts.Grant.{all_routes, authorize}
use kova_gpt_models.Contracts.Validate.{
  check_spec, check_identity, check_engine, check_stages, check_stage,
}
use kova_gpt_models.Contracts.Spec.{check_limits}
use kova_gpt_models.Store.State.{
  Job, load_spec, read_time, check_runner, job_created, log_event, succeeded, running, paused,
  stage_completed,
}
use kova_gpt_models.Store.Stages.{
  dependency_artifact, gather, skip_decision, start_stage, safe_result, completion_state, claim,
  complete, claim_started,
}
use kova_gpt_models.Store.Jobs.{
  final_state, check_final, check_results, begin, lease, finish, request_cancel, recover_abandoned,
}
use kova_gpt_models.Store.Journal.{new_job}
use kova_gpt_models.Store.Public.{append_public_delta, check_fragment, replay_all, insert_fragment}
use kova_gpt_models.Store.Steps.{
  begins, claims, completes, cancels, appends, finishes, Steps, here, next, Created, created,
}

abbrev made : Job
made = new_job "job" "owner" "key" sample_spec

abbrev job_of : Result Job → Job
job_of (ok j) = j
job_of (err e) = made

abbrev first_of : {A : Type 0} → Result (Job × A) → Job
first_of (ok p) = p.0
first_of (err e) = made

abbrev created_job : Job
created_job = job_of (log_event job_created none 10 made)

abbrev begun : Job
begun = first_of (begin sample_grant 20 "run-1" 20 created_job)

abbrev drafting : Job
drafting = first_of (claim sample_grant "run-1" 1 "draft" 30 "try-1" 30 begun)

abbrev drafted : Job
drafted = first_of (complete (λ a. ok a) "run-1" 1 "draft" "try-1" sample_artifact 40 40 drafting)

abbrev answering : Job
answering = first_of (claim sample_grant "run-1" 1 "answer" 50 "try-2" 50 drafted)

abbrev streamed : Job
streamed = first_of (
    append_public_delta (λ t. t) (λ t. "digest") sample_grant "run-1" 1 "answer" "try-2"
      (codes "done") 55 55 answering)

abbrev answered : Job
answered = first_of (complete (λ a. ok a) "run-1" 1 "answer" "try-2" sample_artifact 60 60 streamed)

abbrev done : Job
done = first_of (finish "run-1" 1 succeeded 70 70 answered)

spec_accepted : check_spec sample_spec ≡ ok tt
unfolding check_spec check_limits check_identity check_engine check_stages check_stage is_identifier
    is_hex matching_candidates route_mem all_routes check_runner authorize load_spec read_time
    log_event begin claim complete gather skip_decision start_stage safe_result completion_state
    append_public_delta check_fragment replay_all insert_fragment finish final_state check_final
    check_results new_job
spec_accepted = refl

created_job-Created : Created created_job
unfolding check_spec check_limits check_identity check_engine check_stages check_stage is_identifier
    is_hex matching_candidates route_mem all_routes check_runner authorize load_spec read_time
    log_event begin claim complete gather skip_decision start_stage safe_result completion_state
    append_public_delta check_fragment replay_all insert_fragment finish final_state check_final
    check_results new_job
created_job-Created = created "job" "owner" "key" sample_spec 10 refl

finished : Steps created_job done
unfolding check_spec check_limits check_identity check_engine check_stages check_stage is_identifier
    is_hex matching_candidates route_mem all_routes check_runner authorize load_spec read_time
    log_event begin claim complete gather skip_decision start_stage safe_result completion_state
    append_public_delta check_fragment replay_all insert_fragment finish final_state check_final
    check_results new_job dependency_artifact
finished =
    next
      (next
        (next
          (next
            (next
              (next (next here (begins sample_grant 20 "run-1" 20 (lease "run-1" 1) refl)) (
                claims sample_grant "run-1" 1 "draft" 30 "try-1" 30 (claim_started "try-1" [])
                  refl))
              (completes (λ a. ok a) "run-1" 1 "draft" "try-1" sample_artifact 40 40 stage_completed
                refl))
            (claims sample_grant "run-1" 1 "answer" 50 "try-2" 50
              (claim_started "try-2" (("draft", some sample_artifact) ∷ [])) refl))
          (appends (λ t. t) (λ t. "digest") sample_grant "run-1" 1 "answer" "try-2" (codes "done")
            55 55 6 refl))
        (completes (λ a. ok a) "run-1" 1 "answer" "try-2" sample_artifact 60 60 stage_completed
          refl))
      (finishes "run-1" 1 succeeded 70 70 succeeded refl)

Steps-IsFunded_example : IsFunded done
Steps-IsFunded_example = Steps-IsFunded created_job-Created finished

Steps-IsGapless_example : IsGapless done
Steps-IsGapless_example = Steps-IsGapless created_job-Created finished

-- A cancellation that comes after the end changes nothing.
cancelled_late : Steps done done
unfolding load_spec check_spec check_limits check_identity check_engine check_stages check_stage
    is_identifier is_hex matching_candidates route_mem all_routes check_runner read_time log_event
    begin recover_abandoned finish final_state check_final check_results request_cancel authorize
    new_job claim complete gather dependency_artifact skip_decision start_stage safe_result
    completion_state append_public_delta check_fragment replay_all insert_fragment
cancelled_late = next here (cancels 80 81 false refl)

Steps-final_example : done ≡ done
unfolding load_spec check_spec check_limits check_identity check_engine check_stages check_stage
    is_identifier is_hex matching_candidates route_mem all_routes check_runner read_time log_event
    begin recover_abandoned finish final_state check_final check_results request_cancel authorize
    new_job claim complete gather dependency_artifact skip_decision start_stage safe_result
    completion_state append_public_delta check_fragment replay_all insert_fragment
Steps-final_example = Steps-final created_job-Created finished refl cancelled_late

-- The same job before its end, written out.
abbrev row_of : String → StageState → Option Artifact → StageRow
row_of id state a = record {
  stage_id = id;
  state = state;
  attempt = some "try";
  stage_epoch = some 1;
  result = a;
  checksum = some digest_text;
}

abbrev ready_job : Job
ready_job = record {
  job_id = "job";
  owner = "owner";
  idem = "key";
  fingerprint = digest_text;
  spec = sample_spec;
  job_state = running;
  runner = some "run-1";
  epoch = 1;
  cancel_requested = false;
  tokens_reserved = 4000;
  cost_reserved = 50;
  sequence = 0;
  stages =
      row_of "draft" stage_completed (some sample_artifact)
      ∷ row_of "answer" stage_completed (some sample_artifact)
      ∷ [];
  events = [];
  fragments = [];
}

abbrev ended : JobState → EventKind → ℕ → Job
ended state kind now = record ready_job {
  job_state = state;
  runner = none;
  sequence = 1;
  events = record { event_sequence = 1; kind = kind; event_stage = none; occurred_ms = now } ∷ [];
}

finish_succeeded_example :
    (ready_job.cancel_requested ≡ false)
    × (70 < ready_job.spec.limits.deadline_unix_ms)
    × (all
          (λ r. is_completed r.state || is_skipped r.state)
          (ended succeeded job_succeeded 70).stages
        ≡ true)
    × (last_completed (ended succeeded job_succeeded 70).stages ≡ true)
    × ((ended succeeded job_succeeded 70).stages ≡ ready_job.stages)
unfolding load_spec check_spec check_limits check_identity check_engine check_stages check_stage
    is_identifier is_hex matching_candidates route_mem all_routes check_runner read_time log_event
    begin recover_abandoned finish final_state check_final check_results request_cancel authorize
    new_job claim complete gather dependency_artifact skip_decision start_stage safe_result
    completion_state append_public_delta check_fragment replay_all insert_fragment
finish_succeeded_example =
    finish_succeeded "run-1" 1 succeeded 70 70 ready_job (ended succeeded job_succeeded 70) refl

-- The runner is lost in the middle of a stage; the job is recovered.
abbrev recovered : Job
recovered = first_of (recover_abandoned "run-1" 1 true 90 drafting)

recovered_runner_refused_example : Refuses "run-1" 1 recovered
unfolding load_spec check_spec check_limits check_identity check_engine check_stages check_stage
    is_identifier is_hex matching_candidates route_mem all_routes check_runner read_time log_event
    begin recover_abandoned finish final_state check_final check_results request_cancel authorize
    new_job claim complete gather dependency_artifact skip_decision start_stage safe_result
    completion_state append_public_delta check_fragment replay_all insert_fragment
recovered_runner_refused_example =
    recovered_runner_refused "run-1" 1 true 90 interrupted drafting recovered recovered refl here

-- The runner pauses the job, and another runner takes it.
abbrev taken : Job
taken = record (ended paused job_paused 45) {
  job_state = running;
  runner = some "run-2";
  epoch = 2;
  sequence = 2;
  events =
      record { event_sequence = 2; kind = job_resumed; event_stage = none; occurred_ms = 100 }
      ∷ (ended paused job_paused 45).events;
}

finished_runner_refused_example : Refuses "run-1" 1 taken
unfolding load_spec check_spec check_limits check_identity check_engine check_stages check_stage
    is_identifier is_hex matching_candidates route_mem all_routes check_runner read_time log_event
    begin recover_abandoned finish final_state check_final check_results request_cancel authorize
    new_job claim complete gather dependency_artifact skip_decision start_stage safe_result
    completion_state append_public_delta check_fragment replay_all insert_fragment
finished_runner_refused_example =
    finished_runner_refused "run-1" 1 paused 45 45 paused ready_job (ended paused job_paused 45)
      taken refl (next here (begins sample_grant 100 "run-2" 100 (lease "run-2" 2) refl))
