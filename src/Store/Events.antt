-- ===== src/Store/Events.antt =====
-- The event journal: sequence numbers without gaps.
use kova_gpt_models.Common.{
  ℕ, zero, suc, map, ◌≡◌, String, Bool, Option, List, [], ◌∷◌, Result, ok, arith,
}
use kova_gpt_models.Contracts.Grant.{ExecutionGrant}
use kova_gpt_models.Store.State.{JobState, StageState, Artifact, Job, EventKind, log_event}
use kova_gpt_models.Store.Stages.{Claim, claim, complete, fail_stage, skip_stage, start_stage}
use kova_gpt_models.Store.Jobs.{Lease, begin, request_cancel, finish, recover_abandoned}
use kova_gpt_models.Store.Journal.{new_job}
use kova_gpt_models.Store.Inversion.{
  claim_parts, claim_outcome, complete_parts, complete_outcome, fail_stage_outcome,
}
use kova_gpt_models.Store.Public.{append_public_delta, append_outcome, insert_fragment}
use kova_gpt_models.Store.Steps.{
  Step, begins, claims, completes, fails, cancels, appends, finishes, recovers, Steps, here, next,
  Created, created,
}

-- The numbers n, n - 1, …, 1.
abbrev pub down_from : ℕ → List ℕ
down_from zero = []
down_from (suc n) = suc n ∷ down_from n

-- The events carry the numbers from the job's sequence down to 1, newest first.
abbrev pub IsGapless : Job → Type 0
IsGapless job = map (λ e. e.event_sequence) job.events ≡ down_from job.sequence

log_event-IsGapless :
    (k : EventKind) (s : Option String) (t : ℕ) (job job' : Job)
    → log_event k s t job ≡ ok job'
    → IsGapless job
    → IsGapless job'
unfolding log_event
log_event-IsGapless k s t job job' h g = ground arith

begin-IsGapless :
    (g : ExecutionGrant) (now : ℕ) (fresh : String) (event_now : ℕ) (l : Lease) (job job' : Job)
    → begin g now fresh event_now job ≡ ok (job', l)
    → IsGapless job
    → IsGapless job'
unfolding begin log_event
begin-IsGapless g now fresh t l job job' h i = ground arith

claim-IsGapless :
    (g : ExecutionGrant) (token : String) (epoch : ℕ) (id : String) (now : ℕ) (fresh : String)
    (event_now : ℕ) (reply : Claim) (job job' : Job)
    → claim g token epoch id now fresh event_now job ≡ ok (job', reply)
    → IsGapless job
    → IsGapless job'
unfolding skip_stage start_stage log_event
claim-IsGapless g token epoch id now fresh t reply job job' h i =
    let (stage, row, arts, listed, found, gathered, pending) =
      claim_parts g token epoch id now fresh t job job' reply h in
    ground (
      arith,
      claim_outcome g token epoch id now fresh t job job' reply h stage arts listed gathered,
    )

complete-IsGapless :
    (sanitize : Artifact → Result Artifact) (token : String) (epoch : ℕ) (id attempt : String)
    (value : Artifact) (now event_now : ℕ) (s : StageState) (job job' : Job)
    → complete sanitize token epoch id attempt value now event_now job ≡ ok (job', s)
    → IsGapless job
    → IsGapless job'
complete-IsGapless sanitize token epoch id attempt value now t s job job' h i =
    let (stage, row, a, listed, found, clean, owns) =
      complete_parts sanitize token epoch id attempt value now t s job job' h in
    log_event-IsGapless _ _ _ _ job'
      (complete_outcome sanitize token epoch id attempt value now t s job job' h stage a listed
        clean)
      i

fail_stage-IsGapless :
    (token : String) (epoch : ℕ) (id attempt : String) (event_now : ℕ) (job job' : Job)
    → fail_stage token epoch id attempt event_now job ≡ ok job'
    → IsGapless job
    → IsGapless job'
fail_stage-IsGapless token epoch id attempt t job job' h i =
    log_event-IsGapless _ _ _ _ job' (fail_stage_outcome token epoch id attempt t job job' h) i

request_cancel-IsGapless :
    (event_now second_now : ℕ) (answer : Bool) (job job' : Job)
    → request_cancel event_now second_now job ≡ ok (job', answer)
    → IsGapless job
    → IsGapless job'
unfolding request_cancel log_event
request_cancel-IsGapless t u answer job job' h i = ground arith

finish-IsGapless :
    (token : String) (epoch : ℕ) (asked : JobState) (now event_now : ℕ) (s : JobState)
    (job job' : Job)
    → finish token epoch asked now event_now job ≡ ok (job', s)
    → IsGapless job
    → IsGapless job'
unfolding finish log_event
finish-IsGapless token epoch asked now t s job job' h i = ground arith

recover_abandoned-IsGapless :
    (token : String) (epoch : ℕ) (confirmed : Bool) (event_now : ℕ) (s : JobState) (job job' : Job)
    → recover_abandoned token epoch confirmed event_now job ≡ ok (job', s)
    → IsGapless job
    → IsGapless job'
unfolding recover_abandoned log_event
recover_abandoned-IsGapless token epoch confirmed t s job job' h i = ground arith

append_public_delta-IsGapless :
    (lower : List ℕ → List ℕ) (digest : List ℕ → String) (g : ExecutionGrant) (token : String)
    (epoch : ℕ) (id attempt : String) (fragment : List ℕ) (now event_now n : ℕ) (job job' : Job)
    → append_public_delta lower digest g token epoch id attempt fragment now event_now job
      ≡ ok (job', n)
    → IsGapless job
    → IsGapless job'
unfolding insert_fragment log_event
append_public_delta-IsGapless lower digest g token epoch id attempt fragment now t n job job' h f =
    ground (arith, append_outcome lower digest g token epoch id attempt fragment now t job job' n h)

Step-IsGapless : {job job' : Job} → Step job job' → IsGapless job → IsGapless job'
Step-IsGapless (begins g now fresh t l h) i = begin-IsGapless g now fresh t l _ _ h i
Step-IsGapless (claims g token epoch id now fresh t reply h) i =
    claim-IsGapless g token epoch id now fresh t reply _ _ h i
Step-IsGapless (completes sanitize token epoch id attempt value now t s h) i =
    complete-IsGapless sanitize token epoch id attempt value now t s _ _ h i
Step-IsGapless (fails token epoch id attempt t h) i =
    fail_stage-IsGapless token epoch id attempt t _ _ h i
Step-IsGapless (cancels t u answer h) i = request_cancel-IsGapless t u answer _ _ h i
Step-IsGapless (appends lower digest g token epoch id attempt fragment now t n h) f =
    append_public_delta-IsGapless lower digest g token epoch id attempt fragment now t n _ _ h f
Step-IsGapless (finishes token epoch asked now t s h) i =
    finish-IsGapless token epoch asked now t s _ _ h i
Step-IsGapless (recovers token epoch confirmed t s h) i =
    recover_abandoned-IsGapless token epoch confirmed t s _ _ h i

Created-IsGapless : {job : Job} → Created job → IsGapless job
unfolding new_job log_event
Created-IsGapless (created id owner idem spec t h) = ground arith

-- Whatever is done to a created job, its events are numbered from 1 to its sequence with none
-- missing and none twice.
pub Steps-IsGapless : {job job' : Job} → Created job → Steps job job' → IsGapless job'
Steps-IsGapless c here = Created-IsGapless c
Steps-IsGapless c (next r st) = Step-IsGapless st (Steps-IsGapless c r)
