-- ===== src/Examples/RunnerRuns.antt =====
-- A round of the scheduler after the first stage of the sample job, a batch and a fragment.
use kova_gpt_models.Common.{
  ℕ, codes, [], ◌∷◌, ◌≤◌, ◌<◌, ◌≡◌, refl, is_identifier, is_hex, String, str_eq, true, none, List,
  length, all, ok, if◌then◌else◌,
}
use kova_gpt_models.Router.Routes.{route_mem}
use kova_gpt_models.Router.Models.{matching_candidates}
use kova_gpt_models.Contracts.Grant.{all_routes}
use kova_gpt_models.Contracts.Spec.{Stage, check_limits}
use kova_gpt_models.Contracts.Validate.{
  check_spec, check_identity, check_engine, check_stages, check_stage,
}
use kova_gpt_models.Store.State.{StageState, stage_completed, stage_pending, stage_waiting_tools}
use kova_gpt_models.Runner.Rounds.{starts, round}
use kova_gpt_models.Runner.Progress.{frontier_of, may_start, round_progress}
use kova_gpt_models.Runner.Outcomes.{
  cancel_failure, ended, raised, Turn, absorb_turns, batch_state, turns_state, running_batch,
  batch_state-absorb_turns,
}
use kova_gpt_models.Runner.Pieces.{pieces, concat, fits_row, concat-pieces}
use kova_gpt_models.Examples.Samples.{sample_spec}

-- The draft is completed, the answer is pending.
abbrev half_done : String → StageState
half_done id = if str_eq id "draft" then stage_completed else stage_pending

round_progress_example :
    (batch : List Stage) × (round sample_spec none 1 (frontier_of half_done sample_spec.stages)
      ≡ ok (starts batch))
    × (0 < length batch)
    × (length batch ≤ sample_spec.limits.max_parallel)
    × (all (may_start half_done) batch ≡ true)
unfolding check_spec check_limits check_identity check_engine check_stages check_stage is_identifier
    is_hex matching_candidates route_mem all_routes
round_progress_example = round_progress sample_spec refl half_done none 1 refl refl refl

-- A stage ends, then another waits for tools while a third is cancelled.
abbrev batch_turns : List Turn
batch_turns =
    record { check_failure = none; ends = ended stage_completed ∷ [] }
    ∷ record { check_failure = none; ends = ended stage_waiting_tools ∷ raised cancel_failure ∷ [] }
    ∷ []

batch_state-absorb_turns_example :
    batch_state (absorb_turns running_batch batch_turns) ≡ turns_state batch_turns
batch_state-absorb_turns_example = batch_state-absorb_turns batch_turns

abbrev short_fragment : List ℕ
short_fragment = codes "The answer."

concat-pieces_example :
    (concat (pieces short_fragment) ≡ short_fragment)
    × (all fits_row (pieces short_fragment) ≡ true)
concat-pieces_example = concat-pieces short_fragment
