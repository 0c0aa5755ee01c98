-- ===== src/Store/Final.antt =====
-- Final states of a job.
use kova_gpt_models.Common.{
  ℕ, ◌<◌, ◌≢◌, ◌∙◌, sym, subst, ◌≡◌, refl, String, Bool, true, false, ◌||◌, all, arith, ok,
}
use kova_gpt_models.Contracts.Grant.{ExecutionGrant}
use kova_gpt_models.Store.State.{
  JobState, Job, succeeded, is_terminal, is_completed, is_skipped, check_runner, log_event,
  load_spec, is_resumable, read_time,
}
use kova_gpt_models.Store.Jobs.{
  Lease, begin, request_cancel, finish, recover_abandoned, check_final, final_state, last_completed,
}
use kova_gpt_models.Store.Inversion.{claim_fence, complete_fence, fail_stage_fence}
use kova_gpt_models.Store.Fencing.{IsOwned, Step-IsOwned, Created-IsOwned}
use kova_gpt_models.Store.Public.{append_fence}
use kova_gpt_models.Store.Steps.{
  Step, begins, claims, completes, fails, cancels, appends, finishes, recovers, Steps, here, next,
  Created,
}

-- No fence passes on a job in a final state.
no_fence :
    (job : Job) (token : String) (epoch : ℕ)
    → IsOwned job
    → is_terminal job.job_state ≡ true
    → check_runner job token epoch ≢ ok tt
unfolding check_runner
no_fence job token epoch o t h = ground arith

finish_fence :
    (token : String) (epoch : ℕ) (asked : JobState) (now t : ℕ) (s : JobState) (job job' : Job)
    → finish token epoch asked now t job ≡ ok (job', s)
    → check_runner job token epoch ≡ ok tt
unfolding finish
finish_fence token epoch asked now t s job job' h = ground arith

recover_fence :
    (token : String) (epoch : ℕ) (confirmed : Bool) (t : ℕ) (s : JobState) (job job' : Job)
    → recover_abandoned token epoch confirmed t job ≡ ok (job', s)
    → check_runner job token epoch ≡ ok tt
unfolding recover_abandoned
recover_fence token epoch confirmed t s job job' h = ground arith

begin_resumable :
    (g : ExecutionGrant) (now : ℕ) (fresh : String) (t : ℕ) (l : Lease) (job job' : Job)
    → begin g now fresh t job ≡ ok (job', l)
    → is_resumable job.job_state ≡ true
unfolding begin
begin_resumable g now fresh t l job job' h = ground arith

cancel_final :
    (t u : ℕ) (answer : Bool) (job job' : Job)
    → request_cancel t u job ≡ ok (job', answer)
    → is_terminal job.job_state ≡ true
    → job' ≡ job
unfolding request_cancel
cancel_final t u answer job job' h e = ground arith

Step-final :
    {job job' : Job} → Step job job' → IsOwned job → is_terminal job.job_state ≡ true → job' ≡ job
Step-final {job} (begins g now fresh t l h) o e =
    absurd (ground (arith, begin_resumable g now fresh t l job _ h))
Step-final {job} (claims g token epoch id now fresh t reply h) o e =
    absurd (no_fence job token epoch o e (claim_fence g token epoch id now fresh t job _ reply h))
Step-final {job} (completes sanitize token epoch id attempt value now t s h) o e = absurd (
    no_fence job token epoch o e
      (complete_fence sanitize token epoch id attempt value now t s job _ h))
Step-final {job} (fails token epoch id attempt t h) o e =
    absurd (no_fence job token epoch o e (fail_stage_fence token epoch id attempt t job _ h))
Step-final {job} (cancels t u answer h) o e = cancel_final t u answer job _ h e
Step-final {job} (appends lower digest g token epoch id attempt fragment now t n h) o e = absurd (
    no_fence job token epoch o e
      (append_fence lower digest g token epoch id attempt fragment now t job _ n h))
Step-final {job} (finishes token epoch asked now t s h) o e =
    absurd (no_fence job token epoch o e (finish_fence token epoch asked now t s job _ h))
Step-final {job} (recovers token epoch confirmed t s h) o e =
    absurd (no_fence job token epoch o e (recover_fence token epoch confirmed t s job _ h))

Steps-IsOwned : {job job' : Job} → IsOwned job → Steps job job' → IsOwned job'
Steps-IsOwned o here = o
Steps-IsOwned o (next r st) = Step-IsOwned st (Steps-IsOwned o r)

Steps-final_from :
    {job job' : Job} → Steps job job' → IsOwned job → is_terminal job.job_state ≡ true → job' ≡ job
Steps-final_from here o e = refl
Steps-final_from {job} (next {j = j} {k = k} r st) o e =
    let same = Steps-final_from r o e in
    Step-final st (Steps-IsOwned o r)
      (subst (λ (x : Job). is_terminal x.job_state ≡ true) (sym same) e)
    ∙ same

-- Once a created job has reached a final state, no sequence of journal operations changes anything
-- in it: not its state, its stages, its reservations or its events.
pub Steps-final :
    {fresh job job' : Job}
    → Created fresh
    → Steps fresh job
    → is_terminal job.job_state ≡ true
    → Steps job job'
    → job' ≡ job
Steps-final c r e r' = Steps-final_from r' (Steps-IsOwned (Created-IsOwned c) r) e

-- A job that `finish` leaves succeeded was not cancelled and not past its deadline by the clock that
-- was read, every one of its stages is completed or skipped, its last stage is completed, and the
-- stages are left as they were.
pub finish_succeeded :
    (token : String) (epoch : ℕ) (asked : JobState) (now event_now : ℕ) (job job' : Job)
    → finish token epoch asked now event_now job ≡ ok (job', succeeded)
    → (job.cancel_requested ≡ false)
      × (now < job.spec.limits.deadline_unix_ms)
      × (all (λ r. is_completed r.state || is_skipped r.state) job'.stages ≡ true)
      × (last_completed job'.stages ≡ true)
      × (job'.stages ≡ job.stages)
unfolding finish final_state check_final log_event load_spec read_time
finish_succeeded token epoch asked now t job job' h = ground arith
