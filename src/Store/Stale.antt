-- ===== src/Store/Stale.antt =====
-- A runner whose job was finished or recovered is fenced out for good.
use kova_gpt_models.Common.{
  ℕ, suc, ◌≤◌, ◌<◌, ◌≢◌, ◌≡◌, String, List, Bool, true, is_none, Result, ok, err, execution_error,
  arith,
}
use kova_gpt_models.Contracts.Grant.{ExecutionGrant}
use kova_gpt_models.Store.State.{JobState, Artifact, Job, check_runner, log_event}
use kova_gpt_models.Store.Stages.{claim, complete, fail_stage}
use kova_gpt_models.Store.Jobs.{
  Lease, no_lease, lease, begin, request_cancel, finish, recover_abandoned, frontier, control_state,
}
use kova_gpt_models.Store.Fencing.{
  claim-SameHolder, complete-SameHolder, fail_stage-SameHolder, append_public_delta-SameHolder,
}
use kova_gpt_models.Store.Public.{append_public_delta, append_fence}
use kova_gpt_models.Store.Steps.{
  Step, begins, claims, completes, fails, cancels, appends, finishes, recovers, Steps, here, next,
}

-- No runner of this epoch can come back: the job has moved on, or stands without a runner at a
-- later or equal epoch, from which `begin` moves on.
pub data IsRetired (epoch : ℕ) (job : Job) : Type 0 where
  moved_on : epoch < job.epoch → IsRetired epoch job
  released : epoch ≤ job.epoch → is_none job.runner ≡ true → IsRetired epoch job

begin-IsRetired :
    (g : ExecutionGrant) (now : ℕ) (fresh : String) (t : ℕ) (l : Lease) (e : ℕ) (job job' : Job)
    → begin g now fresh t job ≡ ok (job', l)
    → e ≤ job.epoch
    → IsRetired e job'
unfolding begin log_event
begin-IsRetired g now fresh t no_lease e job job' h le = released (ground arith) (ground arith)
begin-IsRetired g now fresh t (lease f k) e job job' h le = moved_on (ground arith)

-- Cancelling keeps the runner and the epoch.
request_cancel-holder :
    (t u : ℕ) (answer : Bool) (job job' : Job)
    → request_cancel t u job ≡ ok (job', answer)
    → (job'.epoch ≡ job.epoch) × (job'.runner ≡ job.runner)
unfolding request_cancel log_event
request_cancel-holder t u answer job job' h = ground arith

finish_releases :
    (token : String) (epoch : ℕ) (asked : JobState) (now t : ℕ) (s : JobState) (job job' : Job)
    → finish token epoch asked now t job ≡ ok (job', s)
    → (job'.epoch ≡ job.epoch) × (is_none job'.runner ≡ true) × (job.epoch ≡ epoch)
unfolding finish log_event check_runner
finish_releases token epoch asked now t s job job' h = ground arith

recover_moves_on :
    (token : String) (epoch : ℕ) (confirmed : Bool) (t : ℕ) (s : JobState) (job job' : Job)
    → recover_abandoned token epoch confirmed t job ≡ ok (job', s)
    → (job'.epoch ≡ suc job.epoch) × (is_none job'.runner ≡ true) × (job.epoch ≡ epoch)
unfolding recover_abandoned log_event check_runner
recover_moves_on token epoch confirmed t s job job' h = ground arith

same-IsRetired :
    {e : ℕ} {job job' : Job}
    → job'.epoch ≡ job.epoch
    → job'.runner ≡ job.runner
    → IsRetired e job
    → IsRetired e job'
same-IsRetired p q (moved_on h) = moved_on (omega arith)
same-IsRetired p q (released h r) = released (omega arith) (rw q r)

retired-le : {e : ℕ} {job : Job} → IsRetired e job → e ≤ job.epoch
retired-le (moved_on h) = omega arith
retired-le (released h r) = h

Step-IsRetired : {e : ℕ} {job job' : Job} → Step job job' → IsRetired e job → IsRetired e job'
Step-IsRetired {e} (begins g now fresh t l h) r =
    begin-IsRetired g now fresh t l e _ _ h (retired-le r)
Step-IsRetired (claims g token epoch id now fresh t reply h) r =
    let s = claim-SameHolder g token epoch id now fresh t reply _ _ h in
    same-IsRetired s.same_epoch s.same_runner r
Step-IsRetired (completes sanitize token epoch id attempt value now t st h) r =
    let s = complete-SameHolder sanitize token epoch id attempt value now t st _ _ h in
    same-IsRetired s.same_epoch s.same_runner r
Step-IsRetired (fails token epoch id attempt t h) r =
    let s = fail_stage-SameHolder token epoch id attempt t _ _ h in
    same-IsRetired s.same_epoch s.same_runner r
Step-IsRetired (cancels t u answer h) r =
    let s = request_cancel-holder t u answer _ _ h in same-IsRetired s.0 s.1 r
Step-IsRetired (appends lower digest g token epoch id attempt fragment now t n h) r =
    let s =
      append_public_delta-SameHolder lower digest g token epoch id attempt fragment now t n _ _ h in
    same-IsRetired s.same_epoch s.same_runner r
Step-IsRetired (finishes token epoch asked now t st h) r =
    let s = finish_releases token epoch asked now t st _ _ h in
    let le = retired-le r in released (omega arith) s.1
Step-IsRetired (recovers token epoch confirmed t st h) r =
    let s = recover_moves_on token epoch confirmed t st _ _ h in
    let le = retired-le r in moved_on (omega arith)

Steps-IsRetired : {e : ℕ} {job job' : Job} → IsRetired e job → Steps job job' → IsRetired e job'
Steps-IsRetired r here = r
Steps-IsRetired r (next rs st) = Step-IsRetired st (Steps-IsRetired r rs)

retired_fence :
    (token : String) (e : ℕ) (job : Job)
    → IsRetired e job
    → check_runner job token e ≡ err execution_error
unfolding check_runner
retired_fence token e job (moved_on h) = ground arith
retired_fence token e job (released h r) = ground arith

-- What a runner may ask of a job, each answered with an error.
pub record Refuses (token : String) (epoch : ℕ) (job : Job) : Type 0 where
  pub no_claim :
      (g : ExecutionGrant) (id : String) (now : ℕ) (fresh : String) (t : ℕ)
      → claim g token epoch id now fresh t job ≡ err execution_error
  pub no_complete :
      (sanitize : Artifact → Result Artifact) (id attempt : String) (value : Artifact) (now t : ℕ)
      → complete sanitize token epoch id attempt value now t job ≡ err execution_error
  pub no_fail :
      (id attempt : String) (t : ℕ) → fail_stage token epoch id attempt t job ≡ err execution_error
  pub no_append :
      (lower : List ℕ → List ℕ) (digest : List ℕ → String) (g : ExecutionGrant)
      (id attempt : String) (fragment : List ℕ) (now t n : ℕ) (job' : Job)
      → append_public_delta lower digest g token epoch id attempt fragment now t job ≢ ok (job', n)
  pub no_finish :
      (asked : JobState) (now t : ℕ) → finish token epoch asked now t job ≡ err execution_error
  pub no_recover :
      (confirmed : Bool) (t : ℕ)
      → recover_abandoned token epoch confirmed t job ≡ err execution_error
  pub no_frontier : frontier token epoch job ≡ err execution_error
  pub no_control_state : control_state token epoch job ≡ err execution_error

fenced-Refuses :
    (token : String) (epoch : ℕ) (job : Job)
    → check_runner job token epoch ≡ err execution_error
    → Refuses token epoch job
unfolding claim complete fail_stage finish recover_abandoned frontier control_state
fenced-Refuses token epoch job e = record {
  no_claim = λ g id now fresh t. rw e;
  no_complete = λ sanitize id attempt value now t. rw e;
  no_fail = λ id attempt t. rw e;
  no_append = λ lower digest g id attempt fragment now t n job' h.
      cc (e, append_fence lower digest g token epoch id attempt fragment now t job job' n h);
  no_finish = λ asked now t. ground arith;
  no_recover = λ confirmed t. ground arith;
  no_frontier = rw e;
  no_control_state = rw e;
}

-- After a job was recovered from a runner, that runner's token and epoch are refused by every
-- fenced operation, whatever happens to the job afterwards: it cannot claim, complete or fail a stage,
-- append a fragment, finish the job, recover it again, nor read its frontier or its control state.
pub recovered_runner_refused :
    (token : String) (epoch : ℕ) (confirmed : Bool) (event_now : ℕ) (s : JobState)
    (job job' later : Job)
    → recover_abandoned token epoch confirmed event_now job ≡ ok (job', s)
    → Steps job' later
    → Refuses token epoch later
recovered_runner_refused token epoch confirmed t s job job' later h r =
    let moved = recover_moves_on token epoch confirmed t s job job' h in
    fenced-Refuses token epoch later
      (retired_fence token epoch later (Steps-IsRetired (moved_on (omega arith)) r))

-- After a runner has finished a job, paused or for good, that runner's token and epoch are refused by
-- every fenced operation, whatever happens to the job afterwards: it cannot claim, complete or fail a
-- stage, append a fragment, finish the job again, recover it, nor read its frontier or its control
-- state.
pub finished_runner_refused :
    (token : String) (epoch : ℕ) (asked : JobState) (now event_now : ℕ) (s : JobState)
    (job job' later : Job)
    → finish token epoch asked now event_now job ≡ ok (job', s)
    → Steps job' later
    → Refuses token epoch later
finished_runner_refused token epoch asked now t s job job' later h r =
    let gone = finish_releases token epoch asked now t s job job' h in
    fenced-Refuses token epoch later
      (retired_fence token epoch later (Steps-IsRetired (released (omega arith) gone.1) r))
