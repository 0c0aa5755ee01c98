-- ===== src/Runner/Progress.antt =====
-- Progress of the scheduler: on a clean frontier of an accepted snapshot no round is stuck.
use kova_gpt_models.Common.{
  ℕ, zero, suc, ◌≤◌, ◌<◌, ◌≡◌, refl, String, str_eq, eq_iff, eq_refl, Bool, true, false, ◌&&◌, ◌||◌,
  Option, none, some, List, [], ◌∷◌, map, filter, find, take, all, length, ok, arith,
}
use kova_gpt_models.Contracts.Spec.{
  check_limits, Stage, Operation, Engine, RuntimeIdentity, ExecutionSpec,
}
use kova_gpt_models.Contracts.Validate.{check_stage, check_stages, check_spec, str_mem}
use kova_gpt_models.Store.State.{StageState, is_pending}
use kova_gpt_models.Runner.Rounds.{
  is_done, state_at, all_done, stage_ready, ready, starts, width, slice_spent, round,
}

-- The frontier of a job whose stages have these states.
abbrev pub frontier_of : (String → StageState) → List Stage → List (String × StageState)
frontier_of st = map (λ s. (s.id, st s.id))

-- No stage is running, failed or left in doubt.
abbrev pub is_clean : (String → StageState) → List Stage → Bool
is_clean st = all (λ s. is_pending (st s.id) || is_done (st s.id))

abbrev pub may_start : (String → StageState) → Stage → Bool
may_start st s = is_pending (st s.id) && all (λ d. is_done (st d)) s.dependencies

abbrev ids : List Stage → List String
ids = map (λ s. s.id)

find-frontier_of :
    (st : String → StageState) (ss : List Stage) (d : String)
    → str_mem d (ids ss) ≡ true
    → find (λ p. str_eq p.0 d) (frontier_of st ss) ≡ some (d, st d)
find-frontier_of st [] d h = cc
find-frontier_of st (s ∷ ss) d h =
    ground (arith, eq_iff s.id d, eq_iff d s.id, find-frontier_of st ss d)

-- The stages are in order after those of `seen`.
unfoldable ordered : List String → List Stage → Bool
ordered seen [] = true
ordered seen (s ∷ ss) = all (λ d. str_mem d seen) s.dependencies && ordered (s.id ∷ seen) ss

check_stage-dependencies :
    (engine : Engine) (identity : RuntimeIdentity) (seen : List String) (s : Stage) (op : Operation)
    → check_stage engine identity seen s op ≡ ok tt
    → all (λ d. str_mem d seen) s.dependencies ≡ true
unfolding check_stage
check_stage-dependencies engine identity seen s op h = ground arith

check_stages-ordered :
    (engine : Engine) (identity : RuntimeIdentity) (seen : List String) (ss : List Stage)
    (ops : List Operation)
    → check_stages engine identity seen ss ops ≡ ok tt
    → ordered seen ss ≡ true
unfolding check_stages ordered
check_stages-ordered engine identity seen [] [] h = refl
check_stages-ordered engine identity seen [] (op ∷ ops) h = refl
check_stages-ordered engine identity seen (s ∷ ss) [] h = cc
check_stages-ordered engine identity seen (s ∷ ss) (op ∷ ops) h = ground (
  arith,
  check_stage-dependencies engine identity seen s op,
  check_stages-ordered engine identity (s.id ∷ seen) ss ops,
)

module _ (st : String → StageState) (frontier : List (String × StageState)) (known : List String)
    (reads : (d : String) → str_mem d known ≡ true → state_at frontier d ≡ ok (st d)) where
  all_done-known :
      (ds : List String)
      → all (λ d. str_mem d known) ds ≡ true
      → all_done frontier ds ≡ ok (all (λ d. is_done (st d)) ds)
  unfolding all_done
  all_done-known [] h = refl
  all_done-known (d ∷ ds) h = ground (arith, reads d, all_done-known ds)

  stage_ready-known :
      (s : Stage)
      → str_mem s.id known ≡ true
      → all (λ d. str_mem d known) s.dependencies ≡ true
      → stage_ready frontier s ≡ ok (may_start st s)
  unfolding stage_ready
  stage_ready-known s h k = ground (arith, reads s.id, all_done-known s.dependencies)

  ready-known :
      (ss : List Stage)
      → all (λ s. str_mem s.id known && all (λ d. str_mem d known) s.dependencies) ss ≡ true
      → ready frontier ss ≡ ok (filter (may_start st) ss)
  unfolding ready
  ready-known [] h = refl
  ready-known (s ∷ ss) h = ground (arith, stage_ready-known s, ready-known ss)

all-subset :
    (p q : String → Bool) (ds : List String)
    → ((d : String) → p d ≡ true → q d ≡ true)
    → all p ds ≡ true
    → all q ds ≡ true
all-subset p q [] sub h = refl
all-subset p q (d ∷ ds) sub h = ground (arith, sub d, all-subset p q ds sub)

-- Every stage of an ordered list, and each of its dependencies, is among the stages seen.
ordered-known :
    (seen known : List String) (ss : List Stage)
    → ((d : String) → str_mem d seen ≡ true → str_mem d known ≡ true)
    → all (λ s. str_mem s.id known) ss ≡ true
    → ordered seen ss ≡ true
    → all (λ s. str_mem s.id known && all (λ d. str_mem d known) s.dependencies) ss ≡ true
unfolding ordered
ordered-known seen known [] sub h o = refl
ordered-known seen known (s ∷ ss) sub h o =
    let wider : (d : String) → str_mem d (s.id ∷ seen) ≡ true → str_mem d known ≡ true =
      λ d e. ground (arith, sub d, eq_iff d s.id) in
    ground (
      arith,
      all-subset (λ d. str_mem d seen) (λ d. str_mem d known) s.dependencies sub,
      ordered-known (s.id ∷ seen) known ss wider,
    )

-- If no stage may start, every stage of a clean frontier is done.
none_may_start :
    (st : String → StageState) (seen : List String) (ss : List Stage)
    → ((d : String) → str_mem d seen ≡ true → is_done (st d) ≡ true)
    → ordered seen ss ≡ true
    → is_clean st ss ≡ true
    → filter (may_start st) ss ≡ []
    → all (λ s. is_done (st s.id)) ss ≡ true
unfolding ordered
none_may_start st seen [] done o c e = refl
none_may_start st seen (s ∷ ss) done o c e =
    let first : is_done (st s.id) ≡ true =
      ground (arith, all-subset (λ d. str_mem d seen) (λ d. is_done (st d)) s.dependencies done) in
    let wider : (d : String) → str_mem d (s.id ∷ seen) ≡ true → is_done (st d) ≡ true =
      λ d h. ground (arith, done d, eq_iff d s.id) in
    ground (arith, none_may_start st (s.id ∷ seen) ss wider)

all-take : (p : Stage → Bool) (n : ℕ) (ss : List Stage) → all p ss ≡ true → all p (take n ss) ≡ true
all-take p zero ss h = refl
all-take p (suc n) [] h = refl
all-take p (suc n) (s ∷ ss) h = ground (arith, all-take p n ss)

length-take-le : (n : ℕ) (ss : List Stage) → length (take n ss) ≤ n
length-take-le zero ss = omega arith
length-take-le (suc n) [] = omega arith
length-take-le (suc n) (s ∷ ss) = ground (arith, length-take-le n ss)

all-filter : (p : Stage → Bool) (ss : List Stage) → all p (filter p ss) ≡ true
all-filter p [] = refl
all-filter p (s ∷ ss) = ground (arith, all-filter p ss)

ids-known :
    (known : List String) (ss : List Stage)
    → ((d : String) → str_mem d (ids ss) ≡ true → str_mem d known ≡ true)
    → all (λ s. str_mem s.id known) ss ≡ true
ids-known known [] sub = refl
ids-known known (s ∷ ss) sub =
    let first : str_mem s.id known ≡ true = sub s.id (ground (arith, eq_refl s.id)) in
    let rest = ids-known known ss (λ d h. sub d (ground arith)) in ground arith

frontier-done :
    (st : String → StageState) (ss : List Stage)
    → all (λ p. is_done p.1) (frontier_of st ss) ≡ all (λ s. is_done (st s.id)) ss
frontier-done st [] = refl
frontier-done st (s ∷ ss) = ground (arith, frontier-done st ss)

empty-of-length : (ss : List Stage) → length ss ≡ 0 → ss ≡ []
empty-of-length [] h = refl
empty-of-length (s ∷ ss) h = absurd (omega arith)

length-take-positive : (n : ℕ) (ss : List Stage) → 0 < n → 0 < length ss → 0 < length (take n ss)
length-take-positive zero ss h k = absurd (omega arith)
length-take-positive (suc n) [] h k = absurd (omega arith)
length-take-positive (suc n) (s ∷ ss) h k = omega arith

width_bounds :
    (top : ℕ) (max_stages : Option ℕ) (started : ℕ)
    → 0 < top
    → slice_spent max_stages started ≡ false
    → (0 < width top max_stages started) × (width top max_stages started ≤ top)
width_bounds top none started h k = (h, omega arith)
width_bounds top (some n) started h k = (ground arith, omega arith)

module _ (spec : ExecutionSpec) (accepted : check_spec spec ≡ ok tt) where
  accepted-ordered : ordered [] spec.stages ≡ true
  unfolding check_spec
  accepted-ordered =
      check_stages-ordered spec.plan.engine spec.runtime_identity [] spec.stages
        spec.plan.operations (ground arith)

  accepted_limits : check_limits spec.limits ≡ ok tt
  unfolding check_spec
  accepted_limits = ground arith

  accepted_parallel : 0 < spec.limits.max_parallel
  unfolding check_limits
  accepted_parallel = let h = accepted_limits in ground arith

  ready-frontier :
      (st : String → StageState)
      → ready (frontier_of st spec.stages) spec.stages ≡ ok (filter (may_start st) spec.stages)
  unfolding state_at
  ready-frontier st =
      let known = ids spec.stages in
      let reads : (d : String)
          → str_mem d known ≡ true
          → state_at (frontier_of st spec.stages) d ≡ ok (st d) =
        λ d h. rw (find-frontier_of st spec.stages d h) in
      ready-known st (frontier_of st spec.stages) known reads spec.stages (
        ordered-known [] known spec.stages (λ d h. cc) (ids-known known spec.stages (λ d h. h))
          accepted-ordered)

  -- In an accepted snapshot, as long as some stage is not done, none is running, failed or in doubt,
  -- and the slice of the call is not spent, a round starts a batch: at least one stage and at most
  -- `max_parallel`, each of them pending with all its dependencies done.
  pub round_progress :
      (st : String → StageState) (max_stages : Option ℕ) (started : ℕ)
      → is_clean st spec.stages ≡ true
      → all (λ s. is_done (st s.id)) spec.stages ≡ false
      → slice_spent max_stages started ≡ false
      → (batch : List Stage) × (round spec max_stages started (frontier_of st spec.stages)
          ≡ ok (starts batch))
        × (0 < length batch)
        × (length batch ≤ spec.limits.max_parallel)
        × (all (may_start st) batch ≡ true)
  unfolding round
  round_progress st max_stages started clean open_stage slice =
      let able = filter (may_start st) spec.stages in
      let wide = width_bounds spec.limits.max_parallel max_stages started accepted_parallel slice in
      let n = width spec.limits.max_parallel max_stages started in
      let some_able : 0 < length able = ground (
        arith,
        empty-of-length able,
        none_may_start st [] spec.stages (λ d h. cc) accepted-ordered clean,
      ) in
      (
        take n able,
        rw (frontier-done st spec.stages, open_stage, slice, ready-frontier st) (ground arith),
        length-take-positive n able wide.0 some_able,
        (let short = length-take-le n able in let top = wide.1 in omega arith),
        all-take (may_start st) n able (all-filter (may_start st) spec.stages),
      )
