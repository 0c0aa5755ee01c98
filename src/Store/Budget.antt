-- ===== src/Store/Budget.antt =====
-- The budget of a job: its reservations are those of the stages that ever started, they stay within
-- the limits of admission, and no more stages run at once than the limits allow.
use kova_gpt_models.Common.{
  ℕ, ◌+◌, ◌≤◌, ◌<◌, ◌≡◌, refl, inl, inr, String, Bool, true, false, Option, none, some, List, [],
  ◌∷◌, and_left, count, sum_of, map, Result, ok, arith, if◌then◌else◌,
}
use kova_gpt_models.Contracts.Spec.{Stage, token_reservation}
use kova_gpt_models.Contracts.Grant.{ExecutionGrant}
use kova_gpt_models.Store.State.{
  JobState, StageState, stage_pending, stage_running, stage_skipped, stage_failed,
  stage_failed_event, Artifact, StageRow, Job, is_running, is_pending, find_row, find_stage,
  log_event, update_row, EventKind,
}
use kova_gpt_models.Store.Stages.{
  Claim, claim, complete, fail_stage, skip_stage, start_stage, settle_row, completion_event,
}
use kova_gpt_models.Store.Jobs.{Lease, begin, request_cancel, finish, recover_abandoned, quarantine}
use kova_gpt_models.Store.Journal.{new_job, new_row}
use kova_gpt_models.Store.Rows.{find_row-id, sum_of-update_row, count-update_row}
use kova_gpt_models.Store.Inversion.{
  claim_parts, claim_room, claim_outcome, completion_state-stopped, complete_parts, complete_state,
  complete_outcome, fail_stage_parts, fail_stage_outcome,
}
use kova_gpt_models.Store.Public.{append_public_delta, append_outcome, insert_fragment}
use kova_gpt_models.Store.Steps.{
  Step, begins, claims, completes, fails, cancels, appends, finishes, recovers, Steps, here, next,
  Created, created,
}

-- A stage that has been started, whatever became of it.
abbrev pub is_started : StageState → Bool
is_started stage_pending = false
is_started stage_skipped = false
is_started _ = true

abbrev stage_cost : (Stage → ℕ) → Option Stage → ℕ
stage_cost f none = 0
stage_cost f (some s) = f s

-- What a row weighs: the reservation of its stage, once it has been started.
abbrev pub charge : (Stage → ℕ) → List Stage → StageRow → ℕ
charge f stages r = if is_started r.state then stage_cost f (find_stage r.stage_id stages) else 0

abbrev pub charges : (Stage → ℕ) → Job → ℕ
charges f job = sum_of (charge f job.spec.stages) job.stages

abbrev pub running_count : Job → ℕ
running_count job = count (λ r. is_running r.state) job.stages

pub record IsFunded (job : Job) : Type 0 where
  pub tokens_exact : job.tokens_reserved ≡ charges token_reservation job
  pub cost_exact : job.cost_reserved ≡ charges (λ s. s.cost_cap_microusd) job
  pub tokens_within : job.tokens_reserved ≤ job.spec.limits.token_limit
  pub cost_within : job.cost_reserved ≤ job.spec.limits.cost_limit_microusd
  pub parallel : running_count job ≤ job.spec.limits.max_parallel

begin-IsFunded :
    (g : ExecutionGrant) (now : ℕ) (fresh : String) (event_now : ℕ) (l : Lease) (job job' : Job)
    → begin g now fresh event_now job ≡ ok (job', l)
    → IsFunded job
    → IsFunded job'
unfolding begin log_event
begin-IsFunded g now fresh event_now l job job' h f = ground arith

-- An update of one row moves each total by the change in that row.
module _ (id : String) (g : StageRow → StageRow) (job : Job) (row : StageRow)
    (found : find_row id job.stages ≡ some row) where
  charge_shift :
      (f : Stage → ℕ)
      → sum_of (charge f job.spec.stages) (update_row id g job.stages)
          + charge f job.spec.stages row
        ≡ charges f job + charge f job.spec.stages (g row)
  charge_shift f = sum_of-update_row id g (charge f job.spec.stages) job.stages row found

  running_shift :
      count (λ r. is_running r.state) (update_row id g job.stages)
        + (if is_running row.state then 1 else 0)
      ≡ running_count job + (if is_running (g row).state then 1 else 0)
  running_shift = count-update_row id g (λ r. is_running r.state) job.stages row found

skip_stage-IsFunded :
    (id : String) (t : ℕ) (job job' : Job) (reply : Claim) (row : StageRow)
    → find_row id job.stages ≡ some row
    → is_pending row.state ≡ true
    → skip_stage job id t ≡ ok (job', reply)
    → IsFunded job
    → IsFunded job'
unfolding skip_stage log_event
skip_stage-IsFunded id t job job' reply row found pending h f =
    let g : StageRow → StageRow = λ r. record r { state = stage_skipped } in
    ground (
      arith,
      charge_shift id g job row found token_reservation,
      charge_shift id g job row found (λ s. s.cost_cap_microusd),
      running_shift id g job row found,
    )

start_stage-IsFunded :
    (id : String) (stage : Stage) (arts : List (String × Option Artifact)) (epoch : ℕ)
    (fresh : String) (t : ℕ) (job job' : Job) (reply : Claim) (row : StageRow)
    → find_row id job.stages ≡ some row
    → find_stage id job.spec.stages ≡ some stage
    → is_pending row.state ≡ true
    → running_count job < job.spec.limits.max_parallel
    → start_stage job job.spec stage id arts epoch fresh t ≡ ok (job', reply)
    → IsFunded job
    → IsFunded job'
unfolding start_stage log_event
start_stage-IsFunded id stage arts epoch fresh t job job' reply row found listed pending room h f =
    let g : StageRow → StageRow =
      λ r. record r { state = stage_running; attempt = some fresh; stage_epoch = some epoch } in
    ground (
      arith,
      find_row-id id job.stages row found,
      charge_shift id g job row found token_reservation,
      charge_shift id g job row found (λ s. s.cost_cap_microusd),
      running_shift id g job row found,
    )

claim-IsFunded :
    (g : ExecutionGrant) (token : String) (epoch : ℕ) (id : String) (now : ℕ) (fresh : String)
    (event_now : ℕ) (reply : Claim) (job job' : Job)
    → claim g token epoch id now fresh event_now job ≡ ok (job', reply)
    → IsFunded job
    → IsFunded job'
claim-IsFunded g token epoch id now fresh t reply job job' h f =
    let (stage, row, arts, listed, found, gathered, pending) =
      claim_parts g token epoch id now fresh t job job' reply h in
    elim (claim_outcome g token epoch id now fresh t job job' reply h stage arts listed gathered) [
      | inl e ↦ skip_stage-IsFunded id t job job' reply row found pending e f
      | inr e ↦
          start_stage-IsFunded id stage arts epoch fresh t job job' reply row found listed pending
            (claim_room g token epoch id now fresh t job job' reply h) e f
    ]

-- A row that stops running keeps its charge.
stop_row-IsFunded :
    (id : String) (g : StageRow → StageRow) (k : EventKind) (t : ℕ) (job job' : Job)
    (row : StageRow)
    → find_row id job.stages ≡ some row
    → is_running row.state ≡ true
    → (g row).stage_id ≡ row.stage_id
    → is_started (g row).state ≡ true
    → is_running (g row).state ≡ false
    → log_event k (some id) t (record job { stages = update_row id g job.stages }) ≡ ok job'
    → IsFunded job
    → IsFunded job'
unfolding log_event
stop_row-IsFunded id g k t job job' row found runs same started stopped h f = ground (
  arith,
  charge_shift id g job row found token_reservation,
  charge_shift id g job row found (λ s. s.cost_cap_microusd),
  running_shift id g job row found,
)

complete-IsFunded :
    (sanitize : Artifact → Result Artifact) (token : String) (epoch : ℕ) (id attempt : String)
    (value : Artifact) (now event_now : ℕ) (s : StageState) (job job' : Job)
    → complete sanitize token epoch id attempt value now event_now job ≡ ok (job', s)
    → IsFunded job
    → IsFunded job'
complete-IsFunded sanitize token epoch id attempt value now t s job job' h f =
    let (stage, row, a, listed, found, clean, owns) =
      complete_parts sanitize token epoch id attempt value now t s job job' h in
    let stopped =
      completion_state-stopped job job.spec now value s
        (complete_state sanitize token epoch id attempt value now t s job job' h) in
    stop_row-IsFunded id (settle_row s a) (completion_event s) t job job' row found
      (and_left _ _ owns) refl (ground arith) stopped.2
      (complete_outcome sanitize token epoch id attempt value now t s job job' h stage a listed
        clean)
      f

fail_stage-IsFunded :
    (token : String) (epoch : ℕ) (id attempt : String) (event_now : ℕ) (job job' : Job)
    → fail_stage token epoch id attempt event_now job ≡ ok job'
    → IsFunded job
    → IsFunded job'
fail_stage-IsFunded token epoch id attempt t job job' h f =
    let (row, found, owns) = fail_stage_parts token epoch id attempt t job job' h in
    stop_row-IsFunded id (λ r. record r { state = stage_failed }) stage_failed_event t job job' row
      found (and_left _ _ owns) refl refl refl
      (fail_stage_outcome token epoch id attempt t job job' h) f

request_cancel-IsFunded :
    (event_now second_now : ℕ) (answer : Bool) (job job' : Job)
    → request_cancel event_now second_now job ≡ ok (job', answer)
    → IsFunded job
    → IsFunded job'
unfolding request_cancel log_event
request_cancel-IsFunded t u answer job job' h f = ground arith

finish-IsFunded :
    (token : String) (epoch : ℕ) (asked : JobState) (now event_now : ℕ) (s : JobState)
    (job job' : Job)
    → finish token epoch asked now event_now job ≡ ok (job', s)
    → IsFunded job
    → IsFunded job'
unfolding finish log_event
finish-IsFunded token epoch asked now t s job job' h f = ground arith

-- The quarantine of running stages leaves their charges, and no stage running.
charge-quarantine :
    (f : Stage → ℕ) (ss : List Stage) (rows : List StageRow)
    → sum_of (charge f ss) (map quarantine rows) ≡ sum_of (charge f ss) rows
charge-quarantine f ss [] = refl
charge-quarantine f ss (r ∷ rows) = ground (arith, charge-quarantine f ss rows)

pub running-quarantine :
    (rows : List StageRow) → count (λ r. is_running r.state) (map quarantine rows) ≡ 0
running-quarantine [] = refl
running-quarantine (r ∷ rows) = ground (arith, running-quarantine rows)

recover_abandoned-IsFunded :
    (token : String) (epoch : ℕ) (confirmed : Bool) (event_now : ℕ) (s : JobState) (job job' : Job)
    → recover_abandoned token epoch confirmed event_now job ≡ ok (job', s)
    → IsFunded job
    → IsFunded job'
unfolding recover_abandoned log_event
recover_abandoned-IsFunded token epoch confirmed t s job job' h f = ground (
  arith,
  charge-quarantine token_reservation job.spec.stages job.stages,
  charge-quarantine (λ s. s.cost_cap_microusd) job.spec.stages job.stages,
  running-quarantine job.stages,
)

append_public_delta-IsFunded :
    (lower : List ℕ → List ℕ) (digest : List ℕ → String) (g : ExecutionGrant) (token : String)
    (epoch : ℕ) (id attempt : String) (fragment : List ℕ) (now event_now n : ℕ) (job job' : Job)
    → append_public_delta lower digest g token epoch id attempt fragment now event_now job
      ≡ ok (job', n)
    → IsFunded job
    → IsFunded job'
unfolding insert_fragment log_event
append_public_delta-IsFunded lower digest g token epoch id attempt fragment now t n job job' h f =
    ground (arith, append_outcome lower digest g token epoch id attempt fragment now t job job' n h)

pub Step-IsFunded : {job job' : Job} → Step job job' → IsFunded job → IsFunded job'
Step-IsFunded (begins g now fresh t l h) f = begin-IsFunded g now fresh t l _ _ h f
Step-IsFunded (claims g token epoch id now fresh t reply h) f =
    claim-IsFunded g token epoch id now fresh t reply _ _ h f
Step-IsFunded (completes sanitize token epoch id attempt value now t s h) f =
    complete-IsFunded sanitize token epoch id attempt value now t s _ _ h f
Step-IsFunded (fails token epoch id attempt t h) f =
    fail_stage-IsFunded token epoch id attempt t _ _ h f
Step-IsFunded (cancels t u answer h) f = request_cancel-IsFunded t u answer _ _ h f
Step-IsFunded (appends lower digest g token epoch id attempt fragment now t n h) f =
    append_public_delta-IsFunded lower digest g token epoch id attempt fragment now t n _ _ h f
Step-IsFunded (finishes token epoch asked now t s h) f =
    finish-IsFunded token epoch asked now t s _ _ h f
Step-IsFunded (recovers token epoch confirmed t s h) f =
    recover_abandoned-IsFunded token epoch confirmed t s _ _ h f

charge-new_row :
    (f : Stage → ℕ) (ss stages : List Stage) → sum_of (charge f ss) (map new_row stages) ≡ 0
charge-new_row f ss [] = refl
charge-new_row f ss (s ∷ stages) = omega (arith, charge-new_row f ss stages)

running-new_row : (stages : List Stage) → count (λ r. is_running r.state) (map new_row stages) ≡ 0
running-new_row [] = refl
running-new_row (s ∷ stages) = omega (arith, running-new_row stages)

Created-IsFunded : {job : Job} → Created job → IsFunded job
unfolding new_job log_event
Created-IsFunded (created id owner idem spec t h) = ground (
  arith,
  charge-new_row token_reservation spec.stages spec.stages,
  charge-new_row (λ s. s.cost_cap_microusd) spec.stages spec.stages,
  running-new_row spec.stages,
)

-- Whatever is done to a created job, in any order: its token and cost reservations are the sums of
-- the reservations of the stages that have ever been started, both stay within the limits of its
-- admission, and at most `max_parallel` stages run at once.
pub Steps-IsFunded : {job job' : Job} → Created job → Steps job job' → IsFunded job'
Steps-IsFunded c here = Created-IsFunded c
Steps-IsFunded c (next r st) = Step-IsFunded st (Steps-IsFunded c r)
