-- ===== src/Store/Public.antt =====
-- LocalJobStore.append_public_delta and _replay_fragment: the provisional public answer.
-- A text is the list of its code points; `lower` stands for `str.lower`, `digest` for SHA-256 of the
-- encoded text.
use kova_gpt_models.Common.{
  occurs, is_surrogate, ℕ, suc, ◌+◌, String, str_eq, codes, Bool, false, ◌&&◌, not, some, List, [],
  ◌∷◌, ◌++◌, ◌≡◌, ◌<◌, ◌≤◌, arith, length, take, sum_of, any, leb, ltb, ◌==◌, Result, ok,
  execution_error, integrity, guard, or_fail, ◌>>=◌, ◌>>◌, if◌then◌else◌, key_error, ◌-◌, drop,
}
use kova_gpt_models.Contracts.Grant.{ExecutionGrant, authorize, no_mode}
use kova_gpt_models.Store.State.{
  answer_fragment, is_running_job, Fragment, Job, load_spec, check_runner, read_time, log_event,
  find_row,
}
use kova_gpt_models.Store.Stages.{owns_attempt}
use kova_gpt_models.Store.Jobs.{last_stage}

-- FORBIDDEN_PUBLIC_MARKERS
abbrev pub markers : List (List ℕ)
markers = codes "<think" ∷ codes "</think>" ∷ []

-- PUBLIC_MARKER_TAIL_CHARS: the length of the longest marker, less one.
abbrev pub tail_chars : ℕ
tail_chars = 7

-- The bytes of a code point in UTF-8.
abbrev utf8_bytes : ℕ → ℕ
utf8_bytes c = if ltb c 128 then 1 else if ltb c 2048 then 2 else if ltb c 65536 then 3 else 4

-- `text[-n:]`
abbrev pub last_chars : ℕ → List ℕ → List ℕ
last_chars n t = drop (length t - n) t

-- The texts of fragments that come newest first, joined in their order.
abbrev pub joined : List Fragment → List ℕ
joined [] = []
joined (f ∷ fs) = joined fs ++ f.text

-- LocalJobStore._replay_fragment, on the row that was found for a sequence.
unfoldable pub replay_fragment : String → Fragment → Result (List ℕ)
replay_fragment stage f = do
  guard
      (str_eq f.fragment_stage stage
        && (not (str_eq f.fragment_attempt "") && str_eq f.text_digest f.fragment_checksum))
      integrity
  guard (length f.text == f.chars) integrity
  ok f.text

-- The replayed texts of the rows `previous`, newest first.
unfoldable pub replay_all : List Fragment → Result (List ℕ)
unfolding replay_fragment
replay_all [] = ok []
replay_all (f ∷ fs) = do
  before ← replay_all fs
  t ← replay_fragment f.fragment_stage f
  ok (before ++ t)

abbrev pub has_marker : (List ℕ → List ℕ) → List ℕ → Bool
has_marker lower t = any (λ m. occurs m (lower t)) markers

-- The checks on a fragment alone.
unfoldable pub check_fragment : List ℕ → Result (Unit {0})
check_fragment fragment = do
  guard (ltb 0 (length fragment) && leb (length fragment) 8192) execution_error
  guard (not (any is_surrogate fragment)) execution_error
  guard (leb (sum_of utf8_bytes fragment) 32768) execution_error

-- The row and its event.
unfoldable pub insert_fragment :
    (List ℕ → String) → String → String → List ℕ → ℕ → Job → Result (Job × ℕ)
unfolding log_event
insert_fragment digest id attempt fragment event_now job = do
  job' ← log_event answer_fragment (some id) event_now job
  ok (
    record job' {
      fragments =
          record {
            fragment_sequence = suc job.sequence;
            fragment_stage = id;
            fragment_attempt = attempt;
            text = fragment;
            text_digest = digest fragment;
            fragment_checksum = digest fragment;
            chars = length fragment;
          }
          ∷ job.fragments;
    },
    suc job.sequence,
  )

-- LocalJobStore.append_public_delta
unfoldable pub append_public_delta :
    (List ℕ → List ℕ)
    → (List ℕ → String)
    → ExecutionGrant
    → String
    → ℕ
    → String
    → String
    → List ℕ
    → ℕ
    → ℕ
    → Job
    → Result (Job × ℕ)
append_public_delta lower digest grant token epoch id attempt fragment now event_now job = do
  check_fragment fragment
  check_runner job token epoch
  spec ← load_spec job
  authorize grant grant.owner_id spec.plan.route no_mode
  guard (is_running_job job.job_state && not job.cancel_requested) execution_error
  t ← read_time now
  guard (ltb t spec.limits.deadline_unix_ms) execution_error
  stage ← or_fail (last_stage spec.stages) key_error
  guard (stage.public && str_eq stage.id id) execution_error
  row ← or_fail (find_row id job.stages) execution_error
  guard (owns_attempt row attempt epoch) execution_error
  guard
      (ltb (length job.fragments) 4096
        && leb (sum_of (λ f. f.chars) job.fragments + length fragment) 250000)
      execution_error
  previous ← replay_all (take tail_chars job.fragments)
  guard (not (has_marker lower (last_chars tail_chars previous ++ fragment))) execution_error
  insert_fragment digest id attempt fragment event_now job

module _ (lower : List ℕ → List ℕ) (digest : List ℕ → String) (g : ExecutionGrant) (token : String)
    (epoch : ℕ) (id attempt : String) (fragment : List ℕ) (now event_now : ℕ) (job job' : Job)
    (n : ℕ)
    (h : append_public_delta lower digest g token epoch id attempt fragment now event_now job
      ≡ ok (job', n)) where
  pub append_fence : check_runner job token epoch ≡ ok tt
  unfolding append_public_delta
  append_fence = ground arith

  pub append_outcome : insert_fragment digest id attempt fragment event_now job ≡ ok (job', n)
  unfolding append_public_delta
  append_outcome = ground arith

  -- The text before the fragment, as far as it was read, and the search in it.
  pub append_search :
      (previous : List ℕ) × (replay_all (take tail_chars job.fragments) ≡ ok previous)
      × (has_marker lower (last_chars tail_chars previous ++ fragment) ≡ false)
  unfolding append_public_delta
  append_search = ground arith

  pub append_room :
      (length job.fragments < 4096)
      × (sum_of (λ f. f.chars) job.fragments + length fragment ≤ 250000)
      × (0 < length fragment)
  unfolding append_public_delta check_fragment
  append_room = ground arith
