-- ===== src/Core/Admit/Stages.antt =====
-- The checks of an execution snapshot on the stages of a Core plan.
use kova_gpt_models.Common.{
  ℕ, ◌+◌, ◌≤◌, ◌<◌, ◌≡◌, refl, ap, arith, String, eq_iff, eq_refl, is_identifier, Bool, true, false,
  List, [], ◌∷◌, ◌++◌, map, all, ok, Option-cases, Result-cases, inl, inr,
}
use kova_gpt_models.Router.Models.{native_context_tokens}
use kova_gpt_models.Contracts.Spec.{
  max_integer, is_positive, Stage, Operation, RuntimeIdentity, kova_core,
}
use kova_gpt_models.Contracts.Validate.{
  check_stage, check_stages, str_mem, all_distinct, strs_eq, bool_eq,
}
use kova_gpt_models.Contracts.Admission.{CostCaps, cap_of, stage_for, stages_for}
use kova_gpt_models.Core.Plan.{CoreOperation, ids_of}
use kova_gpt_models.Core.Bounds.{Budgeted}
use kova_gpt_models.Core.View.{view_operation}
use kova_gpt_models.Core.Admit.Ids.{fresh, strs_distinct-snoc}

strs_eq_refl : (xs : List String) → strs_eq xs xs ≡ true
strs_eq_refl [] = refl
strs_eq_refl (x ∷ xs) = ground (arith, eq_refl x, strs_eq_refl xs)

bool_refl : (b : Bool) → bool_eq b b ≡ true
bool_refl true = refl
bool_refl false = refl

map-snoc :
    (before : List CoreOperation) (o : CoreOperation)
    → ids_of (before ++ o ∷ []) ≡ ids_of before ++ o.stage_id ∷ []
map-snoc [] o = refl
map-snoc (x ∷ before) o = ap (λ l. x.stage_id ∷ l) (map-snoc before o)

-- The dependencies that have been seen are seen with one more.
all_mem-snoc :
    (x : String) (seen ds : List String)
    → all (λ d. str_mem d seen) ds ≡ true
    → all (λ d. str_mem d (x ∷ seen)) (ds ++ x ∷ []) ≡ true
all_mem-snoc x seen [] h = ground (arith, eq_refl x)
all_mem-snoc x seen (d ∷ ds) h = ground (arith, all_mem-snoc x seen ds)

-- What is not among the ids seen is not among those of the operations before.
unseen :
    (x : String) (seen ds : List String)
    → all (λ d. str_mem d seen) ds ≡ true
    → str_mem x seen ≡ false
    → str_mem x ds ≡ false
unseen x seen [] h k = refl
unseen x seen (d ∷ ds) h k = ground (arith, eq_iff x d, unseen x seen ds)

pub stages_for_parts :
    (caps : CostCaps) (o : Operation) (ops : List Operation) (stages : List Stage)
    → stages_for caps (o ∷ ops) ≡ ok stages
    → (cap : ℕ) × (rest : List Stage) × (stages ≡ stage_for cap o ∷ rest)
      × (stages_for caps ops ≡ ok rest)
stages_for_parts caps o ops stages h = elim (Option-cases (cap_of caps o.op_id)) [
  | inl no_cap ↦ absurd (unfold stages_for in ground arith)
  | inr (cap, found) ↦ elim (Result-cases (stages_for caps ops)) [
    | inl (rest, e) ↦ (cap, rest, (unfold stages_for in ground arith), e)
    | inr (x, e) ↦ absurd (unfold stages_for in ground arith)
  ]
]

module _ (identity : RuntimeIdentity)
    (native : identity.context_tokens ≡ native_context_tokens) where
  -- One stage, after those of `seen`.
  stage_accepted :
      (cap : ℕ) (seen : List String) (o : CoreOperation)
      → is_identifier o.stage_id ≡ true
      → str_mem o.stage_id seen ≡ false
      → all_distinct o.depends_on ≡ true
      → all (λ d. str_mem d seen) o.depends_on ≡ true
      → 0 < o.maximum_input_tokens
      → 0 < o.maximum_output_tokens
      → o.maximum_input_tokens + o.maximum_output_tokens ≤ native_context_tokens
      → is_positive cap max_integer ≡ true
      → check_stage kova_core identity seen (stage_for cap (view_operation o)) (view_operation o)
        ≡ ok tt
  unfolding check_stage
  stage_accepted cap seen o a b c d e f g h = ground (
    arith,
    eq_refl o.stage_id,
    strs_eq_refl o.depends_on,
    bool_refl o.public_response,
    bool_refl o.activity_allowed,
  )

  pub stages_accepted :
      (caps : CostCaps) (before ops : List CoreOperation) (seen : List String) (stages : List Stage)
      → Budgeted native_context_tokens before ops
      → stages_for caps (map view_operation ops) ≡ ok stages
      → all (λ s. is_positive s.cost_cap_microusd max_integer) stages ≡ true
      → all is_identifier (ids_of ops) ≡ true
      → fresh seen (ids_of ops) ≡ true
      → all_distinct (ids_of before) ≡ true
      → all (λ d. str_mem d seen) (ids_of before) ≡ true
      → check_stages kova_core identity seen stages (map view_operation ops) ≡ ok tt
  unfolding check_stages
  stages_accepted caps before [] seen stages b s p i f d m = unfold stages_for in ground arith
  stages_accepted caps before (o ∷ ops) seen stages b s p i f d m =
      let (cap, rest, same, more) =
        stages_for_parts caps (view_operation o) (map view_operation ops) stages s in
      let new : str_mem o.stage_id seen ≡ false = ground arith in
      let snoc = map-snoc before o in
      let ih =
        stages_accepted caps (before ++ o ∷ []) ops (o.stage_id ∷ seen) rest b.6 more (ground arith)
          (ground arith) (ground arith)
          (rw snoc (
            strs_distinct-snoc o.stage_id (ids_of before) d
              (unseen o.stage_id seen (ids_of before) m new)))
          (rw snoc (all_mem-snoc o.stage_id seen (ids_of before) m)) in
      let first =
        stage_accepted cap seen o (ground arith) new (rw (b.0) d) (rw (b.0) m) (omega arith) b.3 b.4
          (ground arith) in
      rw same (rw first ih)
