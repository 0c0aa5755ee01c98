-- ===== src/Core/Bind/Position.antt =====
-- An operation of a plan: the one with its id, made after those before it.
use kova_gpt_models.Common.{
  ℕ, ◌≡◌, refl, sym, arith, String, str_eq, eq_iff, eq_refl, is_identifier, Bool, true, false, not,
  List, [], ◌∷◌, ◌++◌, all, filter, ok, Option-cases, Result-cases, is_none, inl, inr,
}
use mathlib.Core.List.{append-nil, append_assoc}
use kova_gpt_models.Contracts.Validate.{str_mem, all_distinct}
use kova_gpt_models.Core.Request.{StageKind}
use kova_gpt_models.Core.Plan.{CoreOperation, Context, ids_of, operation_for, is_last}
use kova_gpt_models.Core.Bounds.{planned}
use kova_gpt_models.Core.Admit.Ids.{fresh}
use kova_gpt_models.Core.Bind.{Outputs, output_of, artifact_chars}

-- The operation at a place is the one for its stage.
pub planned_at :
    (c : Context) (done : List CoreOperation) (stages : List (StageKind × ℕ))
    (before : List CoreOperation) (op : CoreOperation) (after : List CoreOperation)
    → planned c done stages ≡ before ++ op ∷ after
    → (stage : StageKind × ℕ) × (final : Bool) × (op ≡ operation_for c (done ++ before) stage final)
unfolding planned
planned_at c done [] [] op after h = absurd (ground arith)
planned_at c done [] (b ∷ before) op after h = absurd (ground arith)
planned_at c done (stage ∷ rest) [] op after h =
    let first : operation_for c done stage (is_last rest) ≡ op = ground arith in
    (stage, is_last rest, rw append-nil (sym first))
planned_at c done (stage ∷ rest) (b ∷ before) op after h =
    let made = operation_for c done stage (is_last rest) in
    let first : made ≡ b = ground arith in
    let others : planned c (done ++ made ∷ []) rest ≡ before ++ op ∷ after = ground arith in
    let (s, final, same) = planned_at c (done ++ made ∷ []) rest before op after others in
    (s, final, rw (sym first, sym (append_assoc done (made ∷ []) before)) same)

fresh-unseen :
    (x : String) (seen ids : List String)
    → fresh seen ids ≡ true
    → str_mem x seen ≡ true
    → str_mem x ids ≡ false
fresh-unseen x seen [] h k = refl
fresh-unseen x seen (i ∷ ids) h k = ground (arith, eq_iff x i, fresh-unseen x (i ∷ seen) ids)

pub fresh-distinct : (seen ids : List String) → fresh seen ids ≡ true → all_distinct ids ≡ true
fresh-distinct seen [] h = refl
fresh-distinct seen (i ∷ ids) h =
    ground (arith, eq_refl i, fresh-unseen i (i ∷ seen) ids, fresh-distinct (i ∷ seen) ids)

filter_none :
    (id : String) (ops : List CoreOperation)
    → str_mem id (ids_of ops) ≡ false
    → filter (λ o. str_eq o.stage_id id) ops ≡ []
filter_none id [] h = refl
filter_none id (o ∷ ops) h =
    ground (arith, eq_iff id o.stage_id, eq_iff o.stage_id id, filter_none id ops)

mem_middle :
    (before : List CoreOperation) (op : CoreOperation) (after : List CoreOperation)
    → str_mem op.stage_id (ids_of (before ++ op ∷ after)) ≡ true
mem_middle [] op after = ground (arith, eq_refl op.stage_id)
mem_middle (o ∷ before) op after = ground (arith, mem_middle before op after)

pub filter_one :
    (before : List CoreOperation) (op : CoreOperation) (after : List CoreOperation)
    → all_distinct (ids_of (before ++ op ∷ after)) ≡ true
    → filter (λ o. str_eq o.stage_id op.stage_id) (before ++ op ∷ after) ≡ op ∷ []
filter_one [] op after h = ground (arith, eq_refl op.stage_id, filter_none op.stage_id after)
filter_one (o ∷ before) op after h =
    ground
      (arith, mem_middle before op after, eq_iff o.stage_id op.stage_id, filter_one before op after)

pub ids_before :
    (before : List CoreOperation) (op : CoreOperation) (after : List CoreOperation)
    → all is_identifier (ids_of (before ++ op ∷ after)) ≡ true
    → all is_identifier (ids_of before) ≡ true
ids_before [] op after h = refl
ids_before (o ∷ before) op after h = ground (arith, ids_before before op after)

-- Counted outputs are there.
pub artifact_chars-given :
    (outputs : Outputs) (ds : List String) (total : ℕ)
    → artifact_chars outputs ds ≡ ok total
    → all (λ d. not (is_none (output_of outputs d))) ds ≡ true
artifact_chars-given outputs [] total h = refl
artifact_chars-given outputs (d ∷ ds) total h = elim (Option-cases (output_of outputs d)) [
  | inl no_text ↦ absurd (unfold artifact_chars in ground arith)
  | inr (text, given) ↦ elim (Result-cases (artifact_chars outputs ds)) [
    | inl (rest, counted) ↦ ground (arith, artifact_chars-given outputs ds rest counted)
    | inr (e, refused) ↦ absurd (unfold artifact_chars in ground arith)
  ]
]
