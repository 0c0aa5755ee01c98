-- ===== src/Store/Jobs.antt =====
-- The operations on a whole job: `begin`, `request_cancel`, `finish`, `recover_abandoned`, and the
-- readers `frontier`, `control_state`, `status` and `result`.
use kova_gpt_models.Common.{
  ℕ, suc, String, Bool, true, false, ◌&&◌, ◌||◌, not, Option, none, some, List, [], ◌∷◌, map, count,
  length, all, any, leb, Result, ok, execution_error, busy, guard, or_fail, ◌>>=◌, ◌>>◌,
  if◌then◌else◌, is_none, key_error,
}
use kova_gpt_models.Contracts.Spec.{Stage, ExecutionSpec}
use kova_gpt_models.Contracts.Grant.{ExecutionGrant, authorize, no_mode}
use kova_gpt_models.Router.Routes.{Route}
use kova_gpt_models.Store.State.{
  JobState, running, paused, cancelling, succeeded, failed, cancelled, expired, interrupted,
  waiting_tools, StageState, stage_uncertain, stage_cancelled, stage_expired, stage_failed,
  stage_waiting_tools, job_resumed, job_expired, job_cancel_requested, job_cancelled, is_terminal,
  is_resumable, is_running, is_pending, is_completed, is_skipped, StageRow, Job, load_spec,
  check_runner, read_time, log_event, job_event, find_row, stored_result,
}

-- What `begin` returns: nothing if the deadline has passed, else the runner's token and epoch.
pub data Lease : Type 0 where
  no_lease : Lease
  lease : String → ℕ → Lease

-- LocalJobStore.begin; `fresh` is the new UUID.
unfoldable pub begin : ExecutionGrant → ℕ → String → ℕ → Job → Result (Job × Lease)
begin grant now fresh event_now job = do
  spec ← load_spec job
  authorize grant grant.owner_id spec.plan.route no_mode
  guard (is_none job.runner) busy
  guard (is_resumable job.job_state) execution_error
  t ← read_time now
  if leb spec.limits.deadline_unix_ms t
      then (do
        job' ← log_event job_expired none event_now (record job { job_state = expired })
        ok (job', no_lease))
      else (do
        job' ←
            log_event job_resumed none event_now
              (record job { runner = some fresh; epoch = suc job.epoch; job_state = running })
        ok (job', lease fresh (suc job.epoch)))

-- LocalJobStore.request_cancel
unfoldable pub request_cancel : ℕ → ℕ → Job → Result (Job × Bool)
request_cancel event_now second_now job =
    if is_terminal job.job_state || job.cancel_requested
    then ok (job, false)
    else if is_none job.runner
    then (do
      requested ←
          log_event job_cancel_requested none event_now
            (record job { cancel_requested = true; job_state = cancelled })
      ended ← log_event job_cancelled none second_now requested
      ok (ended, true))
    else (do
      requested ←
          log_event job_cancel_requested none event_now
            (record job { cancel_requested = true; job_state = cancelling })
      ok (requested, true))

abbrev is_paused : JobState → Bool
is_paused paused = true
is_paused _ = false

abbrev is_waiting : StageState → Bool
is_waiting stage_waiting_tools = true
is_waiting _ = false

abbrev pub last_completed : List StageRow → Bool
last_completed [] = false
last_completed (r ∷ []) = is_completed r.state
last_completed (r ∷ s ∷ rows) = last_completed (s ∷ rows)

-- Every completed row still has the artifact of its checksum.
unfoldable pub check_results : List StageRow → Result (Unit {0})
unfolding stored_result
check_results [] = ok tt
check_results (r ∷ rows) =
    if is_completed r.state
    then (stored_result r >>= λ _. check_results rows)
    else check_results rows

-- The conditions on the frontier for the final state that was asked for.
unfoldable pub check_final : JobState → List StageRow → Result (Unit {0})
check_final succeeded rows = do
  guard (all (λ r. is_completed r.state || is_skipped r.state) rows && last_completed rows)
      execution_error
  check_results rows
check_final waiting_tools rows = guard (any (λ r. is_waiting r.state) rows) execution_error
check_final paused rows =
    guard (all (λ r. is_completed r.state || (is_skipped r.state || is_pending r.state)) rows)
      execution_error
check_final _ rows = ok tt

-- The final state: a cancellation wins, then the deadline.
unfoldable pub final_state : Job → ExecutionSpec → ℕ → JobState → Result JobState
final_state job spec now state =
    if job.cancel_requested
    then ok cancelled
    else (do t ← read_time now; ok (if leb spec.limits.deadline_unix_ms t then expired else state))

-- LocalJobStore.finish
unfoldable pub finish : String → ℕ → JobState → ℕ → ℕ → Job → Result (Job × JobState)
finish token epoch asked now event_now job = do
  guard (is_terminal asked || is_paused asked) execution_error
  check_runner job token epoch
  spec ← load_spec job
  guard (all (λ r. not (is_running r.state)) job.stages) execution_error
  state ← final_state job spec now asked
  check_final state job.stages
  kind ← job_event state
  job' ← log_event kind none event_now (record job { job_state = state; runner = none })
  ok (job', state)

abbrev in_state : (StageState → Bool) → List StageRow → Bool
in_state p rows = any (λ r. p r.state) rows

abbrev is_uncertain : StageState → Bool
is_uncertain stage_uncertain = true
is_uncertain _ = false

abbrev is_cancelled_stage : StageState → Bool
is_cancelled_stage stage_cancelled = true
is_cancelled_stage _ = false

abbrev is_expired_stage : StageState → Bool
is_expired_stage stage_expired = true
is_expired_stage _ = false

abbrev is_failed_stage : StageState → Bool
is_failed_stage stage_failed = true
is_failed_stage _ = false

-- The state of a job whose runner has been confirmed stopped.
unfoldable pub recovered_state : Job → JobState
recovered_state job =
    if in_state is_running job.stages || in_state is_uncertain job.stages
    then interrupted
    else if job.cancel_requested || in_state is_cancelled_stage job.stages
    then cancelled
    else if in_state is_expired_stage job.stages
    then expired
    else if in_state is_failed_stage job.stages
    then failed
    else if in_state is_waiting job.stages
    then waiting_tools
    else paused

-- UPDATE stages SET state='uncertain' WHERE state='running'
abbrev pub quarantine : StageRow → StageRow
quarantine r = if is_running r.state then record r { state = stage_uncertain } else r

-- LocalJobStore.recover_abandoned
unfoldable pub recover_abandoned : String → ℕ → Bool → ℕ → Job → Result (Job × JobState)
unfolding recovered_state
recover_abandoned token epoch confirmed event_now job = do
  guard confirmed execution_error
  check_runner job token epoch
  _ ← load_spec job
  kind ← job_event (recovered_state job)
  job' ← log_event kind none event_now (record job {
    stages = map quarantine job.stages;
    job_state = recovered_state job;
    runner = none;
    epoch = suc job.epoch;
  })
  ok (job', recovered_state job)

-- LocalJobStore.frontier
pub record Frontier : Type 0 where
  pub state : JobState
  pub cancel_flag : Bool
  pub stage_states : List (String × StageState)

unfoldable pub frontier : String → ℕ → Job → Result Frontier
frontier token epoch job = do
  check_runner job token epoch
  _ ← load_spec job
  ok (record {
    state = job.job_state;
    cancel_flag = job.cancel_requested;
    stage_states = map (λ r. (r.stage_id, r.state)) job.stages;
  })

-- LocalJobStore.control_state
unfoldable pub control_state : String → ℕ → Job → Result (JobState × Bool)
control_state token epoch job = do
  check_runner job token epoch
  ok (job.job_state, job.cancel_requested)

-- LocalJobStore.status, less the names that it copies from the plan.
pub record Status : Type 0 where
  pub state : JobState
  pub status_route : Route
  pub status_sequence : ℕ
  pub completed_stages : ℕ
  pub skipped_stages : ℕ
  pub total_stages : ℕ
  pub cancel_flag : Bool
  pub tokens : ℕ
  pub cost_microusd : ℕ
  pub deadline_unix_ms : ℕ

unfoldable pub status : Job → Result Status
status job = do
  spec ← load_spec job
  ok (record {
    state = job.job_state;
    status_route = spec.plan.route;
    status_sequence = job.sequence;
    completed_stages = count (λ r. is_completed r.state) job.stages;
    skipped_stages = count (λ r. is_skipped r.state) job.stages;
    total_stages = length job.stages;
    cancel_flag = job.cancel_requested;
    tokens = job.tokens_reserved;
    cost_microusd = job.cost_reserved;
    deadline_unix_ms = spec.limits.deadline_unix_ms;
  })

abbrev pub last_stage : List Stage → Option Stage
last_stage [] = none
last_stage (s ∷ []) = some s
last_stage (s ∷ t ∷ ss) = last_stage (t ∷ ss)

abbrev is_succeeded : JobState → Bool
is_succeeded succeeded = true
is_succeeded _ = false

-- LocalJobStore.result: the content and tool calls of the last stage, of a job that succeeded.
unfoldable pub result : Job → Result (Option String × List String)
unfolding stored_result
result job = do
  guard (is_succeeded job.job_state) execution_error
  spec ← load_spec job
  stage ← or_fail (last_stage spec.stages) key_error
  row ← or_fail (find_row stage.id job.stages) key_error
  a ← stored_result row
  ok (a.content, a.tool_calls)
