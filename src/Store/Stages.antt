-- ===== src/Store/Stages.antt =====
-- The operations that a runner makes on one stage: `claim`, `complete` and `fail_stage`.
-- The transaction is the result type: an operation that raises leaves the job as it was.
use kova_gpt_models.Common.{
  ℕ, ◌+◌, ◌*◌, String, codes, str_eq, Bool, true, false, ◌&&◌, ◌||◌, not, Option, none, some, List,
  [], ◌∷◌, find, count, length, leb, ltb, Result, ok, execution_error, key_error, guard, or_fail,
  ◌>>=◌, ◌>>◌, if◌then◌else◌, is_none,
}
use kova_gpt_models.Contracts.Spec.{
  max_integer, is_positive, Stage, ExecutionSpec, token_reservation,
}
use kova_gpt_models.Contracts.Grant.{ExecutionGrant, authorize, no_mode}
use kova_gpt_models.Store.State.{
  StageState, stage_running, stage_completed, stage_skipped, stage_cancelled, stage_expired,
  stage_waiting_tools, stage_failed, EventKind, stage_started_event, stage_completed_event,
  stage_skipped_event, stage_failed_event, is_running_job, is_running, is_pending, is_completed,
  is_skipped, Artifact, StageRow, Job, load_spec, option_str_eq, option_nat_eq, check_runner,
  read_time, log_event, find_row, update_row, find_stage, stored_result,
}

pub data Claim : Type 0 where
  claim_skipped : Claim
  claim_started : String → List (String × Option Artifact) → Claim

abbrev not_empty : List String → Bool
not_empty [] = false
not_empty _ = true

-- The artifact of one dependency: a skipped one is allowed to the synthesis stage alone.
unfoldable pub dependency_artifact : Stage → String → StageRow → Result (Option Artifact)
unfolding stored_result
dependency_artifact stage dep row =
    if is_skipped row.state
    then (do
      guard (str_eq stage.id "synthesis" && str_eq dep "debate-round-1") execution_error
      ok none)
    else (do guard (is_completed row.state) execution_error; a ← stored_result row; ok (some a))

-- The loop over the dependencies of a stage.
unfoldable pub gather :
    Stage → List StageRow → List String → Result (List (String × Option Artifact))
gather stage rows [] = ok []
gather stage rows (dep ∷ deps) = do
  row ← or_fail (find_row dep rows) key_error
  a ← dependency_artifact stage dep row
  rest ← gather stage rows deps
  ok ((dep, a) ∷ rest)

-- `artifacts["judge"]["debate_required"]`, required to be a Boolean.
unfoldable pub judge_decision : List (String × Option Artifact) → Result Bool
judge_decision arts = do
  (_, a) ← or_fail (find (λ p. str_eq p.0 "judge") arts) key_error
  judged ← or_fail a key_error
  or_fail judged.debate_required execution_error

-- Whether a conditional stage is skipped.
unfoldable pub skip_decision : Stage → List (String × Option Artifact) → Result Bool
unfolding judge_decision
skip_decision stage arts =
    if is_none stage.condition then ok false else (do d ← judge_decision arts; ok (not d))

-- UPDATE stages SET state='skipped'
unfoldable pub skip_stage : Job → String → ℕ → Result (Job × Claim)
unfolding update_row log_event
skip_stage job id event_now = do
  job' ←
      log_event stage_skipped_event (some id) event_now
        (record job { stages = update_row id (λ r. record r { state = stage_skipped }) job.stages })
  ok (job', claim_skipped)

-- The reservation and the start of an attempt, a fresh identifier.
unfoldable pub start_stage :
    Job
    → ExecutionSpec
    → Stage
    → String
    → List (String × Option Artifact)
    → ℕ
    → String
    → ℕ
    → Result (Job × Claim)
unfolding update_row log_event
start_stage job spec stage id arts epoch fresh event_now = do
  let tokens = job.tokens_reserved + token_reservation stage
  let cost = job.cost_reserved + stage.cost_cap_microusd
  guard (leb tokens spec.limits.token_limit && leb cost spec.limits.cost_limit_microusd)
      execution_error
  job' ← log_event stage_started_event (some id) event_now (record job {
    tokens_reserved = tokens;
    cost_reserved = cost;
    stages =
        update_row id
          (λ r. record r { state = stage_running; attempt = some fresh; stage_epoch = some epoch })
          job.stages;
  })
  ok (job', claim_started fresh arts)

-- LocalJobStore.claim, on the job that `_owned` has found; `fresh` is the new UUID.
unfoldable pub claim :
    ExecutionGrant → String → ℕ → String → ℕ → String → ℕ → Job → Result (Job × Claim)
claim grant token epoch id now fresh event_now job = do
  check_runner job token epoch
  spec ← load_spec job
  authorize grant grant.owner_id spec.plan.route no_mode
  guard (is_running_job job.job_state && not job.cancel_requested) execution_error
  t ← read_time now
  guard (ltb t spec.limits.deadline_unix_ms) execution_error
  stage ← or_fail (find_stage id spec.stages) execution_error
  row ← or_fail (find_row id job.stages) key_error
  guard (is_pending row.state) execution_error
  guard (ltb (count (λ r. is_running r.state) job.stages) spec.limits.max_parallel) execution_error
  arts ← gather stage job.stages stage.dependencies
  skip ← skip_decision stage arts
  if skip
      then skip_stage job id event_now
      else start_stage job spec stage id arts epoch fresh event_now

-- _safe_result: the checks around `sanitize_engine_response`, which is given as `sanitize`.
abbrev content_fits : Option String → Bool
content_fits none = true
content_fits (some s) = leb (length (codes s)) 250000

unfoldable pub safe_result : (Artifact → Result Artifact) → Artifact → Stage → Result Artifact
safe_result sanitize value stage = do
  let judge = str_eq stage.id "judge"
  guard (is_none value.debate_required || judge) execution_error
  guard (not judge || not (is_none value.debate_required)) execution_error
  guard (is_positive value.input_tokens max_integer) execution_error
  guard (is_positive value.output_tokens max_integer) execution_error
  guard
      (leb value.input_tokens stage.maximum_input_tokens
        && leb value.output_tokens stage.maximum_output_tokens)
      execution_error
  guard (content_fits value.content) execution_error
  clean ← sanitize value
  guard (leb clean.encoded_bytes (2 * 1024 * 1024)) execution_error
  ok (record clean {
    input_tokens = value.input_tokens;
    output_tokens = value.output_tokens;
    debate_required = value.debate_required;
  })

-- The state that a finished stage takes: cancellation and expiry win over a late success.
unfoldable pub completion_state : Job → ExecutionSpec → ℕ → Artifact → Result StageState
completion_state job spec now value =
    if job.cancel_requested || not (is_running_job job.job_state) then ok stage_cancelled else (do
      t ← read_time now
      ok (
          if leb spec.limits.deadline_unix_ms t
          then stage_expired
          else if not_empty value.tool_calls
          then stage_waiting_tools
          else stage_completed))

abbrev pub keeps_result : StageState → Bool
keeps_result stage_completed = true
keeps_result stage_waiting_tools = true
keeps_result _ = false

abbrev pub completion_event : StageState → EventKind
completion_event stage_completed = stage_completed_event
completion_event _ = stage_failed_event

-- `row["state"] == "running" and row["attempt"] == attempt and row["epoch"] == epoch`
abbrev pub owns_attempt : StageRow → String → ℕ → Bool
owns_attempt row attempt epoch =
    is_running row.state
    && (option_str_eq row.attempt attempt && option_nat_eq row.stage_epoch epoch)

-- The row after a completion: the artifact is kept only if the state keeps it.
abbrev pub settle_row : StageState → Artifact → StageRow → StageRow
settle_row state a row = record row {
  state = state;
  result = if keeps_result state then some a else none;
  checksum = if keeps_result state then some a.digest else none;
}

-- LocalJobStore.complete
unfoldable pub complete :
    (Artifact → Result Artifact)
    → String
    → ℕ
    → String
    → String
    → Artifact
    → ℕ
    → ℕ
    → Job
    → Result (Job × StageState)
complete sanitize token epoch id attempt value now event_now job = do
  check_runner job token epoch
  spec ← load_spec job
  stage ← or_fail (find_stage id spec.stages) execution_error
  row ← or_fail (find_row id job.stages) key_error
  guard (owns_attempt row attempt epoch) execution_error
  encoded ← safe_result sanitize value stage
  state ← completion_state job spec now value
  job' ←
      log_event (completion_event state) (some id) event_now
        (record job { stages = update_row id (settle_row state encoded) job.stages })
  ok (job', state)

-- LocalJobStore.fail_stage
unfoldable pub fail_stage : String → ℕ → String → String → ℕ → Job → Result Job
fail_stage token epoch id attempt event_now job = do
  check_runner job token epoch
  row ← or_fail (find_row id job.stages) execution_error
  guard (owns_attempt row attempt epoch) execution_error
  log_event stage_failed_event (some id) event_now
      (record job { stages = update_row id (λ r. record r { state = stage_failed }) job.stages })
