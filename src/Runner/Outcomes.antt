-- ===== src/Runner/Outcomes.antt =====
-- LocalRunner.run: how a batch of stages ends. A failure is one of the classes that the loop tells
-- apart; the classes of the transport for a deadline and a cancellation count with the runner's own.
use kova_gpt_models.Common.{
  ◌≡◌, refl, sym, ap, ◌∙◌, Bool, true, false, not, ◌||◌, Option, none, some, List, [], ◌∷◌, arith,
  if◌then◌else◌, is_none,
}
use kova_gpt_models.Store.State.{
  JobState, failed, cancelled, expired, waiting_tools, StageState, stage_cancelled, stage_expired,
  stage_waiting_tools, stage_completed, stage_skipped, stage_pending, stage_running,
  stage_uncertain, stage_failed,
}
use kova_gpt_models.Runner.Rounds.{is_done}

pub data Failure : Type 0 where
  deadline_failure cancel_failure other_failure : Failure

-- What `future.result()` gives: the state of `perform`, or what it raises.
pub data StageEnd : Type 0 where
  ended : StageState → StageEnd
  raised : Failure → StageEnd

-- One turn of the loop over the futures: what `global_check` raises, and the stages that are done.
pub record Turn : Type 0 where
  pub check_failure : Option Failure
  pub ends : List StageEnd

-- `final_state` and `failure`
pub record Batch : Type 0 where
  pub asked : JobState
  pub failure : Option Failure

-- `outcome if outcome in ("waiting_tools", "cancelled", "expired") else "failed"`
unfoldable pub outcome_state : StageState → JobState
outcome_state stage_waiting_tools = waiting_tools
outcome_state stage_cancelled = cancelled
outcome_state stage_expired = expired
outcome_state _ = failed

-- `if failure is None: failure = error`
abbrev pub first_failure : Batch → Option Failure → Batch
first_failure b f = if is_none b.failure then record b { failure = f } else b

-- The body of the loop over the stages that are done.
unfoldable pub absorb_end : Batch → StageEnd → Batch
unfolding outcome_state
absorb_end b (ended s) =
    if is_done s
    then b
    else if is_none b.failure
    then record { asked = outcome_state s; failure = some other_failure }
    else b
absorb_end b (raised f) = first_failure b (some f)

unfoldable pub absorb_ends : Batch → List StageEnd → Batch
unfolding absorb_end
absorb_ends b [] = b
absorb_ends b (e ∷ es) = absorb_ends (absorb_end b e) es

unfoldable pub absorb_turns : Batch → List Turn → Batch
unfolding absorb_ends
absorb_turns b [] = b
absorb_turns b (t ∷ ts) = absorb_turns (absorb_ends (first_failure b t.check_failure) t.ends) ts

-- `final_state not in ("waiting_tools", "cancelled", "expired")`
abbrev keeps_asked : JobState → Bool
keeps_asked waiting_tools = true
keeps_asked cancelled = true
keeps_asked expired = true
keeps_asked _ = false

-- The state that the run ends in after the batch, or none where it goes on.
unfoldable pub batch_state : Batch → Option JobState
batch_state b = elim b.failure [
  | none ↦ none
  | some deadline_failure ↦ some expired
  | some cancel_failure ↦ some cancelled
  | some other_failure ↦ some (if keeps_asked b.asked then b.asked else failed)
]

-- What one event of a batch asks for by itself.
abbrev failure_state : Failure → JobState
failure_state deadline_failure = expired
failure_state cancel_failure = cancelled
failure_state other_failure = failed

abbrev check_state : Option Failure → Option JobState
check_state none = none
check_state (some f) = some (failure_state f)

abbrev stage_asks : StageState → Option JobState
stage_asks stage_completed = none
stage_asks stage_skipped = none
stage_asks stage_waiting_tools = some waiting_tools
stage_asks stage_cancelled = some cancelled
stage_asks stage_expired = some expired
stage_asks stage_pending = some failed
stage_asks stage_running = some failed
stage_asks stage_uncertain = some failed
stage_asks stage_failed = some failed

abbrev end_state : StageEnd → Option JobState
end_state (ended s) = stage_asks s
end_state (raised f) = some (failure_state f)

abbrev first_some : Option JobState → Option JobState → Option JobState
first_some none x = x
first_some (some s) x = some s

-- The first of the stages that asks for a state.
abbrev ends_state : List StageEnd → Option JobState
ends_state [] = none
ends_state (e ∷ es) = first_some (end_state e) (ends_state es)

-- The first event of a batch that asks for a state, the check of a turn before its stages.
abbrev pub turns_state : List Turn → Option JobState
turns_state [] = none
turns_state (t ∷ ts) =
    first_some (first_some (check_state t.check_failure) (ends_state t.ends)) (turns_state ts)

abbrev pub running_batch : Batch
running_batch = record { asked = failed; failure = none }

-- Nothing but a failure has changed what is asked for.
abbrev is_settled : Batch → Bool
is_settled b = not (is_none b.failure) || not (keeps_asked b.asked)

check_settles :
    (b : Batch) (f : Option Failure)
    → is_settled b ≡ true
    → (batch_state (first_failure b f) ≡ first_some (batch_state b) (check_state f))
      × (is_settled (first_failure b f) ≡ true)
unfolding batch_state
check_settles b f h = ground arith

end_settles :
    (b : Batch) (e : StageEnd)
    → is_settled b ≡ true
    → (batch_state (absorb_end b e) ≡ first_some (batch_state b) (end_state e))
      × (is_settled (absorb_end b e) ≡ true)
unfolding batch_state absorb_end outcome_state
end_settles b (ended s) h = ground arith
end_settles b (raised f) h = ground arith

first_some-none : (x : Option JobState) → first_some x none ≡ x
first_some-none none = refl
first_some-none (some s) = refl

first_some_assoc :
    (x y z : Option JobState) → first_some (first_some x y) z ≡ first_some x (first_some y z)
first_some_assoc none y z = refl
first_some_assoc (some s) y z = refl

ends_settle :
    (b : Batch) (es : List StageEnd)
    → is_settled b ≡ true
    → (batch_state (absorb_ends b es) ≡ first_some (batch_state b) (ends_state es))
      × (is_settled (absorb_ends b es) ≡ true)
unfolding absorb_ends
ends_settle b [] h = (sym (first_some-none (batch_state b)), h)
ends_settle b (e ∷ es) h =
    let (state, settled) = end_settles b e h in
    let (rest, still) = ends_settle (absorb_end b e) es settled in
    (
      rest
          ∙ ap (λ x. first_some x (ends_state es)) state
          ∙ first_some_assoc (batch_state b) (end_state e) (ends_state es),
      still,
    )

turns_settle :
    (b : Batch) (ts : List Turn)
    → is_settled b ≡ true
    → batch_state (absorb_turns b ts) ≡ first_some (batch_state b) (turns_state ts)
unfolding absorb_turns
turns_settle b [] h = sym (first_some-none (batch_state b))
turns_settle b (t ∷ ts) h =
    let (checked, settled) = check_settles b t.check_failure h in
    let (state, still) = ends_settle (first_failure b t.check_failure) t.ends settled in
    turns_settle (absorb_ends (first_failure b t.check_failure) t.ends) ts still
    ∙ ap (λ x. first_some x (turns_state ts))
        (state
          ∙ ap (λ x. first_some x (ends_state t.ends)) checked
          ∙ first_some_assoc (batch_state b) (check_state t.check_failure) (ends_state t.ends))
    ∙ first_some_assoc (batch_state b)
        (first_some (check_state t.check_failure) (ends_state t.ends)) (turns_state ts)

-- The first event of a batch decides how the run ends. Whatever order the stages end in, the state
-- that the run asks for after a batch is the one that the first failing event asks for by itself, the
-- check of a turn before its stages: expired or cancelled for those failures, the state itself of a
-- stage that waits for tools, is cancelled or has expired, and failed for all else. The run goes on
-- exactly when no check fails and every stage is completed or skipped.
pub batch_state-absorb_turns :
    (ts : List Turn) → batch_state (absorb_turns running_batch ts) ≡ turns_state ts
batch_state-absorb_turns ts = turns_settle running_batch ts refl ∙ (unfold batch_state in refl)
