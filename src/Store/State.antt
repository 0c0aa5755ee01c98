-- ===== src/Store/State.antt =====
-- The tables of the journal (execution/store.py, SCHEMA) and what every operation reads of them.
-- A `Job` is a row of `jobs` with the rows of `stages`, `events` and
-- `answer_fragments` that belong to it, the stages
-- in the order of their ordinals, the events and the answer fragments newest first.
use kova_gpt_models.Common.{
  ℕ, suc, String, str_eq, Bool, true, false, ◌&&◌, not, Option, none, some, List, [], ◌∷◌, find,
  ◌==◌, Result, ok, err, execution_error, integrity, guard, or_fail, ◌>>=◌, ◌>>◌, if◌then◌else◌,
}
use kova_gpt_models.Contracts.Spec.{max_integer, is_positive, Stage, ExecutionSpec}
use kova_gpt_models.Contracts.Validate.{check_spec}

pub data JobState : Type 0 where
  queued running paused cancelling : JobState
  succeeded failed cancelled expired interrupted waiting_tools : JobState

pub data StageState : Type 0 where
  stage_pending stage_running stage_completed stage_skipped : StageState
  stage_cancelled stage_expired stage_waiting_tools stage_failed stage_uncertain : StageState

-- PUBLIC_EVENT_TYPES
pub data EventKind : Type 0 where
  job_created job_resumed job_paused job_succeeded job_failed : EventKind
  job_cancel_requested job_cancelled job_expired job_interrupted job_waiting_tools : EventKind
  stage_started_event stage_completed_event stage_skipped_event stage_failed_event : EventKind
  answer_fragment : EventKind

-- TERMINAL
abbrev pub is_terminal : JobState → Bool
is_terminal queued = false
is_terminal running = false
is_terminal paused = false
is_terminal cancelling = false
is_terminal _ = true

abbrev pub is_running_job : JobState → Bool
is_running_job running = true
is_running_job _ = false

-- The states that `begin` accepts.
abbrev pub is_resumable : JobState → Bool
is_resumable queued = true
is_resumable paused = true
is_resumable _ = false

abbrev pub is_running : StageState → Bool
is_running stage_running = true
is_running _ = false

abbrev pub is_pending : StageState → Bool
is_pending stage_pending = true
is_pending _ = false

abbrev pub is_completed : StageState → Bool
is_completed stage_completed = true
is_completed _ = false

abbrev pub is_skipped : StageState → Bool
is_skipped stage_skipped = true
is_skipped _ = false

-- A stage result; `digest` is the SHA-256 of its canonical bytes and `encoded_bytes` their number.
pub record Artifact : Type 0 where
  pub content : Option String
  pub tool_calls : List String
  pub input_tokens : ℕ
  pub output_tokens : ℕ
  pub debate_required : Option Bool
  pub digest : String
  pub encoded_bytes : ℕ

pub record StageRow : Type 0 where
  pub stage_id : String
  pub state : StageState
  pub attempt : Option String
  pub stage_epoch : Option ℕ
  pub result : Option Artifact
  pub checksum : Option String

pub record Event : Type 0 where
  pub event_sequence : ℕ
  pub kind : EventKind
  pub event_stage : Option String
  pub occurred_ms : ℕ

-- A row of `answer_fragments`: the decoded text as code points, the SHA-256 of the stored bytes and
-- the checksum column.
pub record Fragment : Type 0 where
  pub fragment_sequence : ℕ
  pub fragment_stage : String
  pub fragment_attempt : String
  pub text : List ℕ
  pub text_digest : String
  pub fragment_checksum : String
  pub chars : ℕ

pub record Job : Type 0 where
  pub job_id : String
  pub owner : String
  pub idem : String
  pub fingerprint : String
  pub spec : ExecutionSpec
  pub job_state : JobState
  pub runner : Option String
  pub epoch : ℕ
  pub cancel_requested : Bool
  pub tokens_reserved : ℕ
  pub cost_reserved : ℕ
  pub sequence : ℕ
  pub stages : List StageRow
  pub events : List Event
  pub fragments : List Fragment

-- LocalJobStore._spec: the checksum, then the validation of the snapshot.
unfoldable pub load_spec : Job → Result ExecutionSpec
load_spec job = do
  guard (str_eq job.spec.fingerprint job.fingerprint) integrity
  check_spec job.spec
  ok job.spec

abbrev pub option_str_eq : Option String → String → Bool
option_str_eq none s = false
option_str_eq (some r) s = str_eq r s

abbrev pub option_nat_eq : Option ℕ → ℕ → Bool
option_nat_eq none n = false
option_nat_eq (some m) n = m == n

-- LocalJobStore._runner: the fence of the present runner.
unfoldable pub check_runner : Job → String → ℕ → Result (Unit {0})
check_runner job token epoch =
    guard (not (str_eq token "") && (option_str_eq job.runner token && job.epoch == epoch))
      execution_error

-- LocalJobStore._time on a reading of the clock.
unfoldable pub read_time : ℕ → Result ℕ
read_time now = guard (is_positive now max_integer) execution_error >> ok now

-- LocalJobStore._event
unfoldable pub log_event : EventKind → Option String → ℕ → Job → Result Job
unfolding read_time
log_event kind stage now job = do
  t ← read_time now
  ok (record job {
    sequence = suc job.sequence;
    events =
        record {
          event_sequence = suc job.sequence;
          kind = kind;
          event_stage = stage;
          occurred_ms = t;
        }
        ∷ job.events;
  })

-- The event of `"job_" + state`, for the states that a job may end or pause in.
abbrev pub job_event : JobState → Result EventKind
job_event paused = ok job_paused
job_event succeeded = ok job_succeeded
job_event failed = ok job_failed
job_event cancelled = ok job_cancelled
job_event expired = ok job_expired
job_event interrupted = ok job_interrupted
job_event waiting_tools = ok job_waiting_tools
job_event _ = err execution_error

-- SELECT … FROM stages WHERE id=?
abbrev pub find_row : String → List StageRow → Option StageRow
find_row id = find (λ r. str_eq r.stage_id id)

-- UPDATE stages … WHERE id=?; ids are unique in a job.
unfoldable pub update_row : String → (StageRow → StageRow) → List StageRow → List StageRow
update_row id f [] = []
update_row id f (r ∷ rows) = if str_eq r.stage_id id then f r ∷ rows else r ∷ update_row id f rows

-- The stage of the snapshot with this id.
abbrev pub find_stage : String → List Stage → Option Stage
find_stage id = find (λ s. str_eq s.id id)

-- LocalJobStore._result
unfoldable pub stored_result : StageRow → Result Artifact
stored_result row = do
  a ← or_fail row.result integrity
  guard (option_str_eq row.checksum a.digest) integrity
  ok a
