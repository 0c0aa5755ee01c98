-- ===== src/Store/Replay.antt =====
-- LocalJobStore.replay: a page of events for the owner, after a cursor. The rows of a job come newest
-- first, so `ORDER BY sequence` reads them in reverse.
use kova_gpt_models.Common.{
  ℕ, suc, min, ◌-◌, String, str_eq, Bool, true, false, ◌&&◌, Option, none, some, List, [], ◌∷◌,
  ◌++◌, find, filter, take, length, leb, ltb, ◌==◌, Result, ok, execution_error, integrity,
  key_error, guard, or_fail, ◌>>=◌, ◌>>◌, if◌then◌else◌,
}
use kova_gpt_models.Contracts.Spec.{max_integer, is_positive, Stage}
use kova_gpt_models.Store.State.{
  EventKind, answer_fragment, Event, Fragment, Job, load_spec, find_stage,
}
use kova_gpt_models.Store.Jobs.{last_stage}
use kova_gpt_models.Store.Public.{replay_fragment}

abbrev is_fragment : EventKind → Bool
is_fragment answer_fragment = true
is_fragment _ = false

-- An event of the page, with the text of an answer fragment.
pub record PublicEvent : Type 0 where
  pub public_event : Event
  pub public_text : Option (List ℕ)

abbrev pub oldest_first : List Event → List Event
oldest_first [] = []
oldest_first (e ∷ es) = oldest_first es ++ e ∷ []

-- The rows of a page.
abbrev pub page : ℕ → ℕ → Job → List Event
page after limit job =
    take limit (filter (λ e. ltb after e.event_sequence) (oldest_first job.events))

-- `row["sequence"] == after + index + 1` for every row.
abbrev pub consecutive : ℕ → List Event → Bool
consecutive after [] = true
consecutive after (e ∷ es) = e.event_sequence == suc after && consecutive (suc after) es

abbrev find_fragment : ℕ → List Fragment → Option Fragment
find_fragment n = find (λ f. f.fragment_sequence == n)

abbrev keep_if : Bool → Event → List PublicEvent
keep_if keep e = if keep then record { public_event = e; public_text = none } ∷ [] else []

-- What a fragment row gives: only the public last stage has fragments.
unfoldable pub fragment_event :
    List Stage → List Fragment → Event → String → Result (List PublicEvent)
fragment_event stages fragments e id = do
  last ← or_fail (last_stage stages) key_error
  guard (str_eq id last.id && last.public) execution_error
  f ← or_fail (find_fragment e.event_sequence fragments) integrity
  text ← replay_fragment id f
  ok (record { public_event = e; public_text = some text } ∷ [])

-- What a row gives: nothing, or one event.
unfoldable pub public_events : List Stage → List Fragment → Event → Result (List PublicEvent)
unfolding fragment_event
public_events stages fragments e =
    if is_fragment e.kind
    then (do id ← or_fail e.event_stage execution_error; fragment_event stages fragments e id)
    else elim e.event_stage [
      | none ↦ ok (keep_if true e)
      | some id ↦ or_fail (find_stage id stages) key_error >>= λ s. ok (keep_if s.activity e)
    ]

-- The loop over the rows.
unfoldable pub replay_rows : List Stage → List Fragment → List Event → Result (List PublicEvent)
replay_rows stages fragments [] = ok []
replay_rows stages fragments (e ∷ es) = do
  first ← public_events stages fragments e
  rest ← replay_rows stages fragments es
  ok (first ++ rest)

-- `rows[-1]["sequence"] if rows else after`
abbrev pub next_sequence : ℕ → List Event → ℕ
next_sequence after [] = after
next_sequence after (e ∷ es) = next_sequence e.event_sequence es

-- LocalJobStore.replay
unfoldable pub replay : ℕ → ℕ → Job → Result (List PublicEvent × ℕ)
replay after limit job = do
  guard (leb after max_integer) execution_error
  guard (is_positive limit 500) execution_error
  spec ← load_spec job
  guard (leb after job.sequence) execution_error
  let rows = page after limit job
  guard (length rows == min (job.sequence - after) limit && consecutive after rows) integrity
  events ← replay_rows spec.stages job.fragments rows
  ok (events, next_sequence after rows)
