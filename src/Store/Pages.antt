-- ===== src/Store/Pages.antt =====
-- Reading the journal by pages: a cursor never skips an event and never repeats one.
use kova_gpt_models.Common.{
  ℕ, min, ◌+◌, ◌-◌, ◌≤◌, ◌<◌, ◌≡◌, refl, sym, ap, ◌∙◌, arith, true, List, [], ◌∷◌, ◌++◌, take, drop,
  length, leb, le→leb, eq→==, ok, Result-cases, inl, inr,
}
use mathlib.Core.List.{append_assoc}
use kova_gpt_models.Contracts.Spec.{max_integer, is_positive, Stage, ExecutionSpec}
use kova_gpt_models.Store.State.{Event, Fragment, Job, load_spec}
use kova_gpt_models.Store.Events.{IsGapless}
use kova_gpt_models.Store.Sequence.{
  length-oldest_first, length-down_from, oldest_first-consecutive, filter-drop, drop-consecutive,
  take-consecutive, next_sequence-length, length-take, length-drop, take_plus, drop_plus, drop-min,
}
use kova_gpt_models.Store.Replay.{
  PublicEvent, oldest_first, page, consecutive, public_events, replay_rows, next_sequence, replay,
}

module _ (job : Job) (g : IsGapless job) where
  journal-consecutive : consecutive 0 (oldest_first job.events) ≡ true
  journal-consecutive = oldest_first-consecutive job.events job.sequence g

  journal-length : length (oldest_first job.events) ≡ job.sequence
  journal-length = length-oldest_first job.events ∙ length-down_from job.events job.sequence g

  page-rows :
      (after limit : ℕ) → page after limit job ≡ take limit (drop after (oldest_first job.events))
  page-rows after limit =
      ap (take limit)
        (filter-drop (oldest_first job.events) 0 after after journal-consecutive (omega arith))

  page-consecutive :
      (after limit : ℕ) → after ≤ job.sequence → consecutive after (page after limit job) ≡ true
  page-consecutive after limit le =
      let rest =
        drop-consecutive (oldest_first job.events) 0 after after journal-consecutive
          (omega (arith, journal-length)) (omega arith) in
      rw (page-rows after limit)
        (take-consecutive (drop after (oldest_first job.events)) after limit rest)

  page-length : (after limit : ℕ) → length (page after limit job) ≡ min (job.sequence - after) limit
  page-length after limit =
      ap length (page-rows after limit)
      ∙ length-take (drop after (oldest_first job.events)) limit
      ∙ ap (λ n. min n limit)
          (length-drop (oldest_first job.events) after ∙ ap (λ n. n - after) journal-length)

  -- Where the next page starts.
  page-next :
      (after limit : ℕ)
      → after ≤ job.sequence
      → next_sequence after (page after limit job) ≡ min (after + limit) job.sequence
  page-next after limit le =
      next_sequence-length (page after limit job) after (page-consecutive after limit le)
      ∙ omega (arith, page-length after limit)

  -- Two pages in a row have the rows of one page.
  page_plus :
      (after m n : ℕ)
      → after ≤ job.sequence
      → page after (m + n) job
        ≡ page after m job ++ page (next_sequence after (page after m job)) n job
  page_plus after m n le =
      let all_rows = oldest_first job.events in
      let next : min (after + m) (length all_rows) ≡ next_sequence after (page after m job) =
        ap (min (after + m)) journal-length ∙ sym (page-next after m le) in
      let rest : drop m (drop after all_rows)
          ≡ drop (next_sequence after (page after m job)) all_rows =
        drop_plus all_rows after m
        ∙ drop-min all_rows (after + m)
        ∙ ap (λ k. drop k all_rows) next in
      page-rows after (m + n)
      ∙ take_plus (drop after all_rows) m n
      ∙ ap (λ r. take m (drop after all_rows) ++ take n r) rest
      ∙ sym (
          ap (λ r. r ++ page (next_sequence after (page after m job)) n job) (page-rows after m)
          ∙ ap (λ r. take m (drop after all_rows) ++ r)
              (page-rows (next_sequence after (page after m job)) n))

-- The events of rows that are read in two parts.
replay_rows-append :
    (stages : List Stage) (fragments : List Fragment) (xs ys : List Event)
    (es fs : List PublicEvent)
    → replay_rows stages fragments xs ≡ ok es
    → replay_rows stages fragments ys ≡ ok fs
    → replay_rows stages fragments (xs ++ ys) ≡ ok (es ++ fs)
unfolding replay_rows
replay_rows-append stages fragments [] ys es fs h k =
    let none_read : [] ≡ es = ground arith in rw (sym none_read) k
replay_rows-append stages fragments (x ∷ xs) ys es fs h k =
    elim (Result-cases (public_events stages fragments x)) [
      | inr (e, refused) ↦ absurd (ground arith)
      | inl (first, read) ↦ elim (Result-cases (replay_rows stages fragments xs)) [
        | inr (e, refused) ↦ absurd (ground arith)
        | inl (rest, others) ↦
            let same : first ++ rest ≡ es = ground arith in
            let ih = replay_rows-append stages fragments xs ys rest fs others k in
            rw (sym same, append_assoc first rest fs, read, ih) refl
      ]
    ]

-- What an accepted call has read.
replay-parts :
    (after limit : ℕ) (job : Job) (es : List PublicEvent) (next : ℕ)
    → replay after limit job ≡ ok (es, next)
    → (spec : ExecutionSpec) × (load_spec job ≡ ok spec)
      × (replay_rows spec.stages job.fragments (page after limit job) ≡ ok es)
      × (next ≡ next_sequence after (page after limit job))
      × (after ≤ job.sequence)
      × (0 < limit)
      × (leb after max_integer ≡ true)
replay-parts after limit job es next h = elim (Result-cases (load_spec job)) [
  | inr (e, refused) ↦ absurd (unfold replay in ground arith)
  | inl (spec, loaded) ↦
      elim (Result-cases (replay_rows spec.stages job.fragments (page after limit job))) [
        | inr (e, refused) ↦ absurd (unfold replay in ground arith)
        | inl (events, read) ↦ (
          spec,
          loaded,
          (unfold replay in ground arith),
          (unfold replay in ground arith),
          (unfold replay in ground arith),
          (unfold replay in ground arith),
          (unfold replay in ground arith),
        )
      ]
]

-- A call on a journal without gaps whose rows can be read is accepted.
replay-given :
    (after limit : ℕ) (job : Job) (spec : ExecutionSpec) (es : List PublicEvent)
    → IsGapless job
    → leb after max_integer ≡ true
    → is_positive limit 500 ≡ true
    → after ≤ job.sequence
    → load_spec job ≡ ok spec
    → replay_rows spec.stages job.fragments (page after limit job) ≡ ok es
    → replay after limit job ≡ ok (es, next_sequence after (page after limit job))
unfolding replay
replay-given after limit job spec es g a b c d e =
    rw
      (
        a,
        b,
        d,
        le→leb after job.sequence c,
        eq→== (length (page after limit job)) (min (job.sequence - after) limit)
            (page-length job g after limit),
        page-consecutive job g after limit c,
        e,
      )
      refl

-- Reading a journal without gaps in two pages gives what one page of both sizes gives, if a page may
-- have that size: the same events in the same order, and the same cursor. No event is skipped
-- between two pages, and none is repeated.
pub replay_plus :
    (after m n : ℕ) (job : Job) (es fs : List PublicEvent) (next last : ℕ)
    → IsGapless job
    → m + n ≤ 500
    → replay after m job ≡ ok (es, next)
    → replay next n job ≡ ok (fs, last)
    → replay after (m + n) job ≡ ok (es ++ fs, last)
replay_plus after m n job es fs next last g size first second =
    let (spec, loaded, read, cursor, le, some_rows, bounded) =
      replay-parts after m job es next first in
    let (spec', loaded', read', cursor', le', _, _) = replay-parts next n job fs last second in
    let same : spec' ≡ spec = ground arith in
    let rows =
      page_plus job g after m n le ∙ ap (λ c. page after m job ++ page c n job) (sym cursor) in
    let both =
      replay_rows-append spec.stages job.fragments (page after m job) (page next n job) es fs read
        (rw same at read') in
    let end : next_sequence after (page after (m + n) job) ≡ last =
      page-next job g after (m + n) le
      ∙ omega (arith, page-next job g after m le, page-next job g next n le', cursor, cursor') in
    replay-given after (m + n) job spec (es ++ fs) g bounded (ground arith) le loaded
      (ap (replay_rows spec.stages job.fragments) rows ∙ both)
    ∙ ap (λ c. ok (es ++ fs, c)) end
