-- ===== src/Store/Steps.antt =====
-- The life of a job as steps: each successful operation of the journal that changes it, by any
-- caller, at any clock reading, in any order.
use kova_gpt_models.Common.{ℕ, List, String, Bool, ◌≡◌, Result, ok, none}
use kova_gpt_models.Contracts.Spec.{ExecutionSpec}
use kova_gpt_models.Contracts.Grant.{ExecutionGrant}
use kova_gpt_models.Store.State.{JobState, StageState, Artifact, Job, job_created, log_event}
use kova_gpt_models.Store.Stages.{Claim, claim, complete, fail_stage}
use kova_gpt_models.Store.Jobs.{Lease, begin, request_cancel, finish, recover_abandoned}
use kova_gpt_models.Store.Journal.{new_job}
use kova_gpt_models.Store.Public.{append_public_delta}

pub data Step (job job' : Job) : Type 0 where
  begins :
      (g : ExecutionGrant) (now : ℕ) (fresh : String) (event_now : ℕ) (l : Lease)
      → begin g now fresh event_now job ≡ ok (job', l)
      → Step job job'
  claims :
      (g : ExecutionGrant) (token : String) (epoch : ℕ) (id : String) (now : ℕ) (fresh : String)
      (event_now : ℕ) (reply : Claim)
      → claim g token epoch id now fresh event_now job ≡ ok (job', reply)
      → Step job job'
  completes :
      (sanitize : Artifact → Result Artifact) (token : String) (epoch : ℕ) (id attempt : String)
      (value : Artifact) (now event_now : ℕ) (s : StageState)
      → complete sanitize token epoch id attempt value now event_now job ≡ ok (job', s)
      → Step job job'
  fails :
      (token : String) (epoch : ℕ) (id attempt : String) (event_now : ℕ)
      → fail_stage token epoch id attempt event_now job ≡ ok job'
      → Step job job'
  cancels :
      (event_now second_now : ℕ) (answer : Bool)
      → request_cancel event_now second_now job ≡ ok (job', answer)
      → Step job job'
  appends :
      (lower : List ℕ → List ℕ) (digest : List ℕ → String) (g : ExecutionGrant) (token : String)
      (epoch : ℕ) (id attempt : String) (fragment : List ℕ) (now event_now n : ℕ)
      → append_public_delta lower digest g token epoch id attempt fragment now event_now job
        ≡ ok (job', n)
      → Step job job'
  finishes :
      (token : String) (epoch : ℕ) (asked : JobState) (now event_now : ℕ) (s : JobState)
      → finish token epoch asked now event_now job ≡ ok (job', s)
      → Step job job'
  recovers :
      (token : String) (epoch : ℕ) (confirmed : Bool) (event_now : ℕ) (s : JobState)
      → recover_abandoned token epoch confirmed event_now job ≡ ok (job', s)
      → Step job job'

-- What can become of a job in any number of steps.
pub data Steps (job : Job) : Job → Type 0 where
  here : Steps job job
  next : {j k : Job} → Steps job j → Step j k → Steps job k

-- A job as `create` leaves it: its rows and the event that records it.
pub data Created (job : Job) : Type 0 where
  created :
      (id owner idem : String) (spec : ExecutionSpec) (event_now : ℕ)
      → log_event job_created none event_now (new_job id owner idem spec) ≡ ok job
      → Created job
