-- ===== src/Runner/Rounds.antt =====
-- LocalRunner.run: one round of its loop, from the frontier that the journal gives, and the final
-- state that it asks for. Threads, clocks and the worker are outside; their outcomes are given.
use kova_gpt_models.Common.{
  ℕ, ◌-◌, min, String, str_eq, Bool, true, false, ◌||◌, Option, none, some, List, [], ◌∷◌, find,
  take, all, length, leb, ltb, Result, ok, execution_error, key_error, guard, or_fail, ◌>>=◌, ◌>>◌,
  if◌then◌else◌,
}
use kova_gpt_models.Contracts.Spec.{Stage, ExecutionSpec}
use kova_gpt_models.Store.State.{
  JobState, succeeded, paused, StageState, is_pending, is_completed, is_skipped,
}

-- `state in ("completed", "skipped")`
abbrev pub is_done : StageState → Bool
is_done s = is_completed s || is_skipped s

-- `frontier[id]`
unfoldable pub state_at : List (String × StageState) → String → Result StageState
state_at frontier id = do (_, s) ← or_fail (find (λ p. str_eq p.0 id) frontier) key_error; ok s

-- `all(frontier[dep] in ("completed", "skipped") for dep in …)`
unfoldable pub all_done : List (String × StageState) → List String → Result Bool
all_done frontier [] = ok true
all_done frontier (d ∷ ds) = do
  s ← state_at frontier d
  let rest = all_done frontier ds
  if is_done s then rest else ok false

unfoldable pub stage_ready : List (String × StageState) → Stage → Result Bool
stage_ready frontier s = do
  state ← state_at frontier s.id
  if is_pending state then all_done frontier s.dependencies else ok false

-- The list `ready`.
unfoldable pub ready : List (String × StageState) → List Stage → Result (List Stage)
ready frontier [] = ok []
ready frontier (s ∷ ss) = do
  r ← stage_ready frontier s
  rest ← ready frontier ss
  ok (if r then s ∷ rest else rest)

-- What a round does: it ends the run, or starts a batch of stages.
pub data Round : Type 0 where
  ends_in : JobState → Round
  starts : List Stage → Round

-- `max_stages is not None and started_count >= max_stages`
abbrev pub slice_spent : Option ℕ → ℕ → Bool
slice_spent none started = false
slice_spent (some n) started = leb n started

-- `width`
abbrev pub width : ℕ → Option ℕ → ℕ → ℕ
width max_parallel none started = max_parallel
width max_parallel (some n) started = min max_parallel (n - started)

-- The round, after `global_check`.
unfoldable pub round : ExecutionSpec → Option ℕ → ℕ → List (String × StageState) → Result Round
round spec max_stages started frontier =
    if all (λ p. is_done p.1) frontier
    then ok (ends_in succeeded)
    else if slice_spent max_stages started
    then ok (ends_in paused)
    else (do
      rs ← ready frontier spec.stages
      guard (ltb 0 (length rs)) execution_error
      ok (starts (take (width spec.limits.max_parallel max_stages started) rs)))
