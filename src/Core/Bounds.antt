-- ===== src/Core/Bounds.antt =====
-- The reservations of a Core plan: what each operation may read and write, and what comes before it.
use kova_gpt_models.Common.{
  ℕ, ◌+◌, ◌≤◌, ◌<◌, ◌≡◌, refl, sym, ◌∙◌, arith, String, Bool, true, false, Option, List, [], ◌∷◌,
  ◌++◌, ok, Result-cases, inl, inr,
}
use mathlib.Core.List.{append-nil, append_assoc}
use kova_gpt_models.Router.Routes.{Route}
use kova_gpt_models.Router.Policy.{Request}
use kova_gpt_models.Router.Models.{native_context_tokens, candidates}
use kova_gpt_models.Core.Messages.{Message}
use kova_gpt_models.Core.Request.{StageKind, route_limit}
use kova_gpt_models.Core.Plan.{
  is_last, CoreOperation, CorePlan, Context, ids_of, reserved_of, operation_for, plan_operations,
  find_candidate, build_core_plan, prepare, core_plan,
}

abbrev pub ends : List CoreOperation → Bool
ends [] = true
ends (o ∷ ops) = false

-- The operations in order, after those of `before`: each depends on all that come before it and
-- reserves their whole output beside its own template, within the context, may write something, and
-- the last one alone is public.
abbrev pub Budgeted : ℕ → List CoreOperation → List CoreOperation → Type 0
Budgeted context before [] = Unit {0}
Budgeted context before (o ∷ ops) =
    (o.depends_on ≡ ids_of before)
    × (o.maximum_input_tokens ≡ o.template_input_tokens + reserved_of before)
    × (0 < o.template_input_tokens)
    × (0 < o.maximum_output_tokens)
    × (o.maximum_input_tokens + o.maximum_output_tokens ≤ context)
    × (o.public_response ≡ ends ops)
    × Budgeted context (before ++ o ∷ []) ops

-- The operations of the stages, one after another.
unfoldable pub planned : Context → List CoreOperation → List (StageKind × ℕ) → List CoreOperation
planned c before [] = []
planned c before (stage ∷ rest) =
    let op = operation_for c before stage (is_last rest) in op ∷ planned c (before ++ op ∷ []) rest

ends-planned :
    (c : Context) (before : List CoreOperation) (rest : List (StageKind × ℕ))
    → is_last rest ≡ ends (planned c before rest)
unfolding planned
ends-planned c before [] = refl
ends-planned c before (stage ∷ rest) = refl

-- One operation and the check of its reservations.
step_outcome :
    (c : Context) (before : List CoreOperation) (stage : StageKind × ℕ)
    (rest : List (StageKind × ℕ)) (ops : List CoreOperation)
    → plan_operations c before (stage ∷ rest) ≡ ok ops
    → (plan_operations c (before ++ operation_for c before stage (is_last rest) ∷ []) rest ≡ ok ops)
      × (0 < (operation_for c before stage (is_last rest)).template_input_tokens)
      × ((operation_for c before stage (is_last rest)).maximum_input_tokens
            + (operation_for c before stage (is_last rest)).maximum_output_tokens
          ≤ c.context_tokens)
unfolding plan_operations
step_outcome c before stage rest ops h = ground arith

output_positive :
    (c : Context) (before : List CoreOperation) (stage : StageKind × ℕ) (final : Bool)
    → 0 < c.limit
    → 0 < (operation_for c before stage final).maximum_output_tokens
unfolding operation_for
output_positive c before stage final pos = ground arith

pub plan_operations-planned :
    (c : Context) (before : List CoreOperation) (stages : List (StageKind × ℕ))
    (ops : List CoreOperation)
    → 0 < c.limit
    → plan_operations c before stages ≡ ok ops
    → (ops ≡ before ++ planned c before stages)
      × Budgeted c.context_tokens before (planned c before stages)
unfolding planned operation_for
plan_operations-planned c before [] ops pos h =
    let e : before ≡ ops = (unfold plan_operations in ground arith) in (rw append-nil (sym e), tt)
plan_operations-planned c before (stage ∷ rest) ops pos h =
    let op = operation_for c before stage (is_last rest) in
    let (next, some_tokens, fits) = step_outcome c before stage rest ops h in
    let (same, budgeted) = plan_operations-planned c (before ++ op ∷ []) rest ops pos next in
    (
      same ∙ append_assoc before (op ∷ []) (planned c (before ++ op ∷ []) rest),
      (
        refl,
        refl,
        some_tokens,
        output_positive c before stage (is_last rest) pos,
        fits,
        ends-planned c (before ++ op ∷ []) rest,
        budgeted,
      ),
    )

module _ (file : Option (List ℕ)) (instruction : Route → List ℕ)
    (counter : String → List Message → ℕ) (id : String) (fields : Request) (messages : List Message)
    (model : String) where
  pub build_parts :
      (plan : CorePlan)
      → build_core_plan file instruction counter id fields messages model ≡ ok plan
      → (c : Context) × (stages : List (StageKind × ℕ)) × (prepare file instruction counter id
            fields messages model
          ≡ ok (c, stages))
        × (plan_operations c [] stages ≡ ok plan.operations)
        × (plan ≡ core_plan id c plan.operations)
  unfolding build_core_plan
  build_parts plan h =
      elim (Result-cases (prepare file instruction counter id fields messages model)) [
        | inl ((c, stages), e) ↦ (c, stages, e, ground arith, ground arith)
        | inr (x, e) ↦ absurd (ground arith)
      ]

  pub prepare_context :
      (c : Context) (stages : List (StageKind × ℕ))
      → prepare file instruction counter id fields messages model ≡ ok (c, stages)
      → (c.context_tokens ≡ native_context_tokens) × (c.model ≡ model) × (0 < c.limit)
  unfolding prepare find_candidate candidates route_limit
  prepare_context c stages h = ground arith

  -- In the plan of an accepted Core request every operation depends on all that come before it,
  -- reserves their whole output beside its own template, fits with its output into the native context
  -- of the candidate, and is public exactly when it is the last.
  pub build_core_plan-Budgeted :
      (plan : CorePlan)
      → build_core_plan file instruction counter id fields messages model ≡ ok plan
      → Budgeted native_context_tokens [] plan.operations
  build_core_plan-Budgeted plan h =
      let (c, stages, prepared, looped, _) = build_parts plan h in
      let (context, _, positive) = prepare_context c stages prepared in
      let (same, budgeted) = plan_operations-planned c [] stages plan.operations positive looped in
      rw same (rw context at budgeted)
