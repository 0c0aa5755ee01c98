-- ===== src/Store/Fencing.antt =====
-- Ownership of a job: who holds it, what a final state means, and that a runner which has lost its
-- fence can do nothing more.
use kova_gpt_models.Common.{
  ℕ, ◌≡◌, String, Bool, true, false, not, List, is_none, Result, ok, arith,
}
use kova_gpt_models.Contracts.Grant.{ExecutionGrant}
use kova_gpt_models.Store.State.{
  JobState, running, cancelling, StageState, Artifact, Job, log_event,
}
use kova_gpt_models.Store.Stages.{Claim, claim, complete, fail_stage, skip_stage, start_stage}
use kova_gpt_models.Store.Jobs.{Lease, begin, request_cancel, finish, recover_abandoned}
use kova_gpt_models.Store.Journal.{new_job}
use kova_gpt_models.Store.Inversion.{
  claim_parts, claim_outcome, complete_parts, complete_outcome, fail_stage_outcome,
}
use kova_gpt_models.Store.Public.{append_public_delta, append_outcome, insert_fragment}
use kova_gpt_models.Store.Steps.{
  Step, begins, claims, completes, fails, cancels, appends, finishes, recovers, Created, created,
}

-- The states in which a runner holds the job.
abbrev pub is_held : JobState → Bool
is_held running = true
is_held cancelling = true
is_held _ = false

-- A job has a runner exactly in those states.
abbrev pub IsOwned : Job → Type 0
IsOwned job = is_none job.runner ≡ not (is_held job.job_state)

-- What an operation on a stage leaves alone.
pub record SameHolder (job job' : Job) : Type 0 where
  pub same_state : job'.job_state ≡ job.job_state
  pub same_runner : job'.runner ≡ job.runner
  pub same_epoch : job'.epoch ≡ job.epoch

pub claim-SameHolder :
    (g : ExecutionGrant) (token : String) (epoch : ℕ) (id : String) (now : ℕ) (fresh : String)
    (event_now : ℕ) (reply : Claim) (job job' : Job)
    → claim g token epoch id now fresh event_now job ≡ ok (job', reply)
    → SameHolder job job'
unfolding skip_stage start_stage log_event
claim-SameHolder g token epoch id now fresh t reply job job' h =
    let (stage, row, arts, listed, found, gathered, pending) =
      claim_parts g token epoch id now fresh t job job' reply h in
    ground (
      arith,
      claim_outcome g token epoch id now fresh t job job' reply h stage arts listed gathered,
    )

pub complete-SameHolder :
    (sanitize : Artifact → Result Artifact) (token : String) (epoch : ℕ) (id attempt : String)
    (value : Artifact) (now event_now : ℕ) (s : StageState) (job job' : Job)
    → complete sanitize token epoch id attempt value now event_now job ≡ ok (job', s)
    → SameHolder job job'
unfolding log_event
complete-SameHolder sanitize token epoch id attempt value now t s job job' h =
    let (stage, row, a, listed, found, clean, owns) =
      complete_parts sanitize token epoch id attempt value now t s job job' h in
    ground (
      arith,
      complete_outcome sanitize token epoch id attempt value now t s job job' h stage a listed
          clean,
    )

pub fail_stage-SameHolder :
    (token : String) (epoch : ℕ) (id attempt : String) (event_now : ℕ) (job job' : Job)
    → fail_stage token epoch id attempt event_now job ≡ ok job'
    → SameHolder job job'
unfolding log_event
fail_stage-SameHolder token epoch id attempt t job job' h =
    ground (arith, fail_stage_outcome token epoch id attempt t job job' h)

pub append_public_delta-SameHolder :
    (lower : List ℕ → List ℕ) (digest : List ℕ → String) (g : ExecutionGrant) (token : String)
    (epoch : ℕ) (id attempt : String) (fragment : List ℕ) (now event_now n : ℕ) (job job' : Job)
    → append_public_delta lower digest g token epoch id attempt fragment now event_now job
      ≡ ok (job', n)
    → SameHolder job job'
unfolding insert_fragment log_event
append_public_delta-SameHolder lower digest g token epoch id attempt fragment now t n job job' h =
    ground (arith, append_outcome lower digest g token epoch id attempt fragment now t job job' n h)

begin-IsOwned :
    (g : ExecutionGrant) (now : ℕ) (fresh : String) (event_now : ℕ) (l : Lease) (job job' : Job)
    → begin g now fresh event_now job ≡ ok (job', l)
    → IsOwned job'
unfolding begin log_event
begin-IsOwned g now fresh t l job job' h = ground arith

request_cancel-IsOwned :
    (event_now second_now : ℕ) (answer : Bool) (job job' : Job)
    → request_cancel event_now second_now job ≡ ok (job', answer)
    → IsOwned job
    → IsOwned job'
unfolding request_cancel log_event
request_cancel-IsOwned t u answer job job' h o = ground arith

finish-IsOwned :
    (token : String) (epoch : ℕ) (asked : JobState) (now event_now : ℕ) (s : JobState)
    (job job' : Job)
    → finish token epoch asked now event_now job ≡ ok (job', s)
    → IsOwned job'
unfolding finish log_event
finish-IsOwned token epoch asked now t s job job' h = ground arith

recover_abandoned-IsOwned :
    (token : String) (epoch : ℕ) (confirmed : Bool) (event_now : ℕ) (s : JobState) (job job' : Job)
    → recover_abandoned token epoch confirmed event_now job ≡ ok (job', s)
    → IsOwned job'
unfolding recover_abandoned log_event
recover_abandoned-IsOwned token epoch confirmed t s job job' h = ground arith

SameHolder-IsOwned : {job job' : Job} → SameHolder job job' → IsOwned job → IsOwned job'
SameHolder-IsOwned s o = ground arith

pub Step-IsOwned : {job job' : Job} → Step job job' → IsOwned job → IsOwned job'
Step-IsOwned (begins g now fresh t l h) o = begin-IsOwned g now fresh t l _ _ h
Step-IsOwned (claims g token epoch id now fresh t reply h) o =
    SameHolder-IsOwned (claim-SameHolder g token epoch id now fresh t reply _ _ h) o
Step-IsOwned (completes sanitize token epoch id attempt value now t s h) o =
    SameHolder-IsOwned (complete-SameHolder sanitize token epoch id attempt value now t s _ _ h) o
Step-IsOwned (fails token epoch id attempt t h) o =
    SameHolder-IsOwned (fail_stage-SameHolder token epoch id attempt t _ _ h) o
Step-IsOwned (cancels t u answer h) o = request_cancel-IsOwned t u answer _ _ h o
Step-IsOwned (appends lower digest g token epoch id attempt fragment now t n h) o =
    SameHolder-IsOwned
      (append_public_delta-SameHolder lower digest g token epoch id attempt fragment now t n _ _ h)
      o
Step-IsOwned (finishes token epoch asked now t s h) o =
    finish-IsOwned token epoch asked now t s _ _ h
Step-IsOwned (recovers token epoch confirmed t s h) o =
    recover_abandoned-IsOwned token epoch confirmed t s _ _ h

pub Created-IsOwned : {job : Job} → Created job → IsOwned job
unfolding new_job log_event
Created-IsOwned (created id owner idem spec t h) = ground arith
