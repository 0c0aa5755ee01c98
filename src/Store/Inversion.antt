-- ===== src/Store/Inversion.antt =====
-- What a successful operation on a stage has checked, and the job that it leaves.
use kova_gpt_models.Common.{
  ℕ, ◌<◌, ◌≡◌, ◌⊎◌, String, true, Option, some, List, count, Result, ok, arith, false,
}
use kova_gpt_models.Contracts.Spec.{Stage, ExecutionSpec}
use kova_gpt_models.Contracts.Grant.{ExecutionGrant}
use kova_gpt_models.Store.State.{
  Job, StageRow, StageState, stage_failed, stage_failed_event, Artifact, is_running, is_running_job,
  is_pending, is_skipped, find_row, find_stage, update_row, log_event, load_spec, check_runner,
}
use kova_gpt_models.Store.Stages.{
  Claim, claim, complete, fail_stage, gather, skip_stage, start_stage, completion_state,
  completion_event, settle_row, safe_result, owns_attempt,
}

module _ (g : ExecutionGrant) (token : String) (epoch : ℕ) (id : String) (now : ℕ) (fresh : String)
    (event_now : ℕ) (job job' : Job) (reply : Claim)
    (h : claim g token epoch id now fresh event_now job ≡ ok (job', reply)) where
  -- The stage, its row and the artifacts of its dependencies that a successful claim has found.
  pub claim_parts :
      (stage : Stage) × (row : StageRow) × (arts : List (String × Option Artifact)) × (find_stage id
          job.spec.stages
        ≡ some stage)
      × (find_row id job.stages ≡ some row)
      × (gather stage job.stages stage.dependencies ≡ ok arts)
      × (is_pending row.state ≡ true)
  unfolding claim load_spec
  claim_parts = ground arith

  pub claim_fence : check_runner job token epoch ≡ ok tt
  unfolding claim
  claim_fence = ground arith

  pub claim_active : (is_running_job job.job_state ≡ true) × (job.cancel_requested ≡ false)
  unfolding claim
  claim_active = ground arith

  pub claim_room : count (λ r. is_running r.state) job.stages < job.spec.limits.max_parallel
  unfolding claim load_spec
  claim_room = ground arith

  -- A claim skips the stage or starts it.
  pub claim_outcome :
      (stage : Stage) (arts : List (String × Option Artifact))
      → find_stage id job.spec.stages ≡ some stage
      → gather stage job.stages stage.dependencies ≡ ok arts
      → (skip_stage job id event_now ≡ ok (job', reply))
        ⊎ (start_stage job job.spec stage id arts epoch fresh event_now ≡ ok (job', reply))
  unfolding claim load_spec
  claim_outcome stage arts e f = ground arith

-- A completed stage is started and runs no longer.
pub completion_state-stopped :
    (job : Job) (spec : ExecutionSpec) (now : ℕ) (value : Artifact) (s : StageState)
    → completion_state job spec now value ≡ ok s
    → (is_pending s ≡ false) × (is_skipped s ≡ false) × (is_running s ≡ false)
unfolding completion_state
completion_state-stopped job spec now value s h = ground arith

module _ (sanitize : Artifact → Result Artifact) (token : String) (epoch : ℕ) (id attempt : String)
    (value : Artifact) (now event_now : ℕ) (s : StageState) (job job' : Job)
    (h : complete sanitize token epoch id attempt value now event_now job ≡ ok (job', s)) where
  -- The stage, its running row and the checked artifact of a successful completion.
  pub complete_parts :
      (stage : Stage) × (row : StageRow) × (a : Artifact) × (find_stage id job.spec.stages
        ≡ some stage)
      × (find_row id job.stages ≡ some row)
      × (safe_result sanitize value stage ≡ ok a)
      × (owns_attempt row attempt epoch ≡ true)
  unfolding complete load_spec
  complete_parts = ground arith

  pub complete_fence : check_runner job token epoch ≡ ok tt
  unfolding complete
  complete_fence = ground arith

  pub complete_state : completion_state job job.spec now value ≡ ok s
  unfolding complete load_spec
  complete_state = ground arith

  pub complete_outcome :
      (stage : Stage) (a : Artifact)
      → find_stage id job.spec.stages ≡ some stage
      → safe_result sanitize value stage ≡ ok a
      → log_event
          (completion_event s)
          (some id)
          event_now
          (record job { stages = update_row id (settle_row s a) job.stages })
        ≡ ok job'
  unfolding complete load_spec
  complete_outcome stage a e f = ground arith

module _ (token : String) (epoch : ℕ) (id attempt : String) (event_now : ℕ) (job job' : Job)
    (h : fail_stage token epoch id attempt event_now job ≡ ok job') where
  pub fail_stage_parts :
      (row : StageRow) × (find_row id job.stages ≡ some row)
      × (owns_attempt row attempt epoch ≡ true)
  unfolding fail_stage
  fail_stage_parts = ground arith

  pub fail_stage_fence : check_runner job token epoch ≡ ok tt
  unfolding fail_stage
  fail_stage_fence = ground arith

  pub fail_stage_outcome :
      log_event stage_failed_event
        (some id)
        event_now
        (record job { stages = update_row id (λ r. record r { state = stage_failed }) job.stages })
      ≡ ok job'
  unfolding fail_stage
  fail_stage_outcome = ground arith
