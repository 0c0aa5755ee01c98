-- ===== src/Store/Journal.antt =====
-- The journal as a whole: `create`, and the transaction that an operation on one job runs in.
use kova_gpt_models.Common.{
  ℕ, String, str_eq, is_identifier, Bool, false, ◌&&◌, Option, none, some, List, [], ◌∷◌, ◌++◌, map,
  find, ltb, Result, ok, execution_error, guard, or_fail, ◌>>=◌, ◌>>◌, if◌then◌else◌,
}
use kova_gpt_models.Contracts.Spec.{Stage, ExecutionSpec}
use kova_gpt_models.Contracts.Grant.{ExecutionGrant, authorize, no_mode}
use kova_gpt_models.Store.State.{
  queued, stage_pending, job_created, StageRow, Job, load_spec, read_time, log_event,
}

pub record Journal : Type 0 where
  pub jobs : List Job

-- The row that `create` inserts for a stage.
abbrev pub new_row : Stage → StageRow
new_row s = record {
  stage_id = s.id;
  state = stage_pending;
  attempt = none;
  stage_epoch = none;
  result = none;
  checksum = none;
}

-- The rows that `create` inserts for a job, before its first event.
unfoldable pub new_job : String → String → String → ExecutionSpec → Job
new_job id owner idem spec = record {
  job_id = id;
  owner = owner;
  idem = idem;
  fingerprint = spec.fingerprint;
  spec = spec;
  job_state = queued;
  runner = none;
  epoch = 0;
  cancel_requested = false;
  tokens_reserved = 0;
  cost_reserved = 0;
  sequence = 0;
  stages = map new_row spec.stages;
  events = [];
  fragments = [];
}

abbrev pub find_idem : String → String → List Job → Option Job
find_idem owner idem = find (λ j. str_eq j.owner owner && str_eq j.idem idem)

-- The new job, appended; `fresh` is the new job id.
unfoldable pub insert_job :
    ExecutionGrant → String → ExecutionSpec → ℕ → String → ℕ → Journal → Result (Journal × String)
unfolding new_job
insert_job grant idem spec now fresh event_now journal = do
  t ← read_time now
  guard (ltb t spec.limits.deadline_unix_ms) execution_error
  job ← log_event job_created none event_now (new_job fresh grant.owner_id idem spec)
  ok (record { jobs = journal.jobs ++ job ∷ [] }, fresh)

-- The answer to a repeated request.
unfoldable pub existing_job : ExecutionSpec → Journal → Job → Result (Journal × String)
existing_job spec journal job = do
  _ ← load_spec job
  guard (str_eq job.fingerprint spec.fingerprint) execution_error
  ok (journal, job.job_id)

-- LocalJobStore.create
unfoldable pub create :
    ExecutionGrant → String → ExecutionSpec → ℕ → String → ℕ → Journal → Result (Journal × String)
create grant idem spec now fresh event_now journal = do
  authorize grant grant.owner_id spec.plan.route no_mode
  guard (is_identifier idem) execution_error
  elim (find_idem grant.owner_id idem journal.jobs) [
    | some job ↦ existing_job spec journal job
    | none ↦ insert_job grant idem spec now fresh event_now journal
  ]

abbrev is_job : String → String → Job → Bool
is_job owner id j = str_eq j.job_id id && str_eq j.owner owner

-- LocalJobStore._owned
unfoldable pub owned : String → String → Journal → Result Job
owned owner id journal = do
  guard (is_identifier owner) execution_error
  guard (is_identifier id) execution_error
  or_fail (find (is_job owner id) journal.jobs) execution_error

-- UPDATE jobs … WHERE id=?; the primary key makes the job unique.
unfoldable pub replace_job : String → Job → List Job → List Job
replace_job id job [] = []
replace_job id job (j ∷ js) = if str_eq j.job_id id then job ∷ js else j ∷ replace_job id job js

-- One transaction on the job that `_owned` finds: an error rolls the journal back.
unfoldable pub transact {ℓ} :
    {A : Type ℓ} → String → String → (Job → Result (Job × A)) → Journal → Result (Journal × A)
unfolding owned replace_job
transact owner id operation journal = do
  job ← owned owner id journal
  (job', a) ← operation job
  ok (record { jobs = replace_job id job' journal.jobs }, a)
