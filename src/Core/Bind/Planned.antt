-- ===== src/Core/Bind/Planned.antt =====
-- Binding composed with planning: any stage of an accepted plan can be bound.
use kova_gpt_models.Common.{
  ℕ, ◌+◌, ◌≤◌, ◌<◌, ◌≡◌, refl, sym, ap, ◌∙◌, arith, String, codes, str_eq, is_identifier, occurs,
  Bool, true, false, not, Option, some, List, [], ◌∷◌, ◌++◌, map, all, filter, length, take, ltb,
  le→leb, lt→ltb, ok,
}
use kova_gpt_models.Router.Routes.{Route}
use kova_gpt_models.Router.Policy.{Request}
use kova_gpt_models.Router.Models.{native_context_tokens, Candidate}
use kova_gpt_models.Core.Messages.{
  system, Message, trusted_message_count, placeholder_prefix, selected_candidate_provenance,
  artifact_message,
}
use kova_gpt_models.Core.Request.{StageKind}
use kova_gpt_models.Core.Plan.{
  CoreOperation, CorePlan, Context, ids_of, operation_for, build_core_plan, find_candidate,
  core_plan,
}
use kova_gpt_models.Core.Bounds.{
  Budgeted, plan_operations-planned, build_parts, prepare_context, build_core_plan-Budgeted,
}
use kova_gpt_models.Core.Admit.Ids.{good_ids, fresh}
use kova_gpt_models.Core.Admit.Prepared.{plan_ids, plan_known}
use kova_gpt_models.Core.Bind.{
  Outputs, same_stages, artifact_chars, is_bound, only_one, bound_messages, bind_core_operation,
}
use kova_gpt_models.Core.Bind.Artifacts.{bound_artifact}
use kova_gpt_models.Core.Bind.Position.{planned_at, fresh-distinct, filter_one, ids_before}
use kova_gpt_models.Core.Bind.Complete.{
  prepare_identity, prepare_messages, request_of, clean_outputs, conversation,
  bound_messages-operation,
}
use kova_gpt_models.Core.Trusted.{find_candidate-context}

operation_fits :
    (context : ℕ) (done before : List CoreOperation) (op : CoreOperation)
    (after : List CoreOperation)
    → Budgeted context done (before ++ op ∷ after)
    → op.maximum_input_tokens + op.maximum_output_tokens ≤ context
operation_fits context done [] op after b = b.4
operation_fits context done (o ∷ before) op after b =
    operation_fits context (done ++ o ∷ []) before op after b.6

take-append : (xs ys : List Message) → take (length xs) (xs ++ ys) ≡ xs
take-append [] ys = refl
take-append (x ∷ xs) ys = ap (λ l. x ∷ l) (take-append xs ys)

bind_steps :
    (file : Option (List ℕ)) (counter : String → List Message → ℕ) (plan : CorePlan)
    (outputs : Outputs) (op : CoreOperation) (bound : List Message) (k : Candidate)
    → is_identifier op.stage_id ≡ true
    → filter (λ o. str_eq o.stage_id op.stage_id) plan.operations ≡ op ∷ []
    → bound_messages file plan op outputs ≡ ok bound
    → 0 < counter plan.candidate_model bound
    → counter plan.candidate_model bound ≤ op.maximum_input_tokens
    → find_candidate plan.candidate_model ≡ ok k
    → op.maximum_input_tokens + op.maximum_output_tokens ≤ k.context_tokens
    → bind_core_operation file counter plan op.stage_id outputs ≡ ok (request_of op bound)
unfolding bind_core_operation only_one
bind_steps file counter plan outputs op bound k i f b p t c x =
    let named : ltb 0 (length (codes op.stage_id)) ≡ true =
      (unfold is_identifier in ground arith) in
    rw
      (
        named,
        f,
        b,
        lt→ltb 0 (counter plan.candidate_model bound) p,
        le→leb (counter plan.candidate_model bound) op.maximum_input_tokens t,
        c,
        le→leb (counter plan.candidate_model bound + op.maximum_output_tokens) k.context_tokens
            (omega arith),
      )
      refl

-- The messages that a stage is bound to: those of its template up to the turns, then one for each
-- dependency, with its output.
abbrev pub bound_of : CoreOperation → List Message → Outputs → List Message
bound_of op turns outputs =
    take (trusted_message_count + length turns) op.template.messages
    ++ map (bound_artifact outputs) op.depends_on

operation-bound_of :
    (c : Context) (before : List CoreOperation) (stage : StageKind × ℕ) (final : Bool)
    (outputs : Outputs)
    → bound_of (operation_for c before stage final) c.turns outputs
      ≡ conversation c stage.0 ++ map (bound_artifact outputs) (ids_of before)
unfolding operation_for
operation-bound_of c before stage final outputs =
    let place : trusted_message_count + length c.turns ≡ length (conversation c stage.0) =
      omega arith in
    rw place (
      ap (λ l. l ++ map (bound_artifact outputs) (ids_of before))
        (take-append (conversation c stage.0) (map artifact_message (ids_of before))))

ids_parts :
    (ids : List String)
    → good_ids ids ≡ true
    → (all is_identifier ids ≡ true) × (fresh [] ids ≡ true)
ids_parts ids h = ground arith

id_at :
    (before : List CoreOperation) (op : CoreOperation) (after : List CoreOperation)
    → all is_identifier (ids_of (before ++ op ∷ after)) ≡ true
    → is_identifier op.stage_id ≡ true
id_at [] op after h = ground arith
id_at (o ∷ before) op after h = ground (arith, id_at before op after)

-- The messages of an operation made from a context, in terms of the plan and the request.
operation_bound :
    (file : Option (List ℕ)) (instruction : Route → List ℕ) (c : Context) (stage : StageKind × ℕ)
    (final : Bool) (outputs : Outputs) (plan : CorePlan) (before : List CoreOperation)
    (op : CoreOperation) (messages : List Message) (text text' : List ℕ) (total : ℕ) {id : String}
    {ops : List CoreOperation}
    → file ≡ some text
    → file ≡ some text'
    → c.identity ≡ record { role = system; content = text' }
    → op ≡ operation_for c before stage final
    → plan ≡ core_plan id c ops
    → selected_candidate_provenance c.policy.route c.model ≡ ok c.provenance
    → c.behavior ≡ record { role = system; content = instruction c.policy.route }
    → c.turns ≡ messages
    → same_stages outputs op.depends_on ≡ true
    → artifact_chars outputs op.depends_on ≡ ok total
    → total ≤ 750000
    → clean_outputs outputs ≡ true
    → all is_identifier (ids_of before) ≡ true
    → all is_bound messages ≡ true
    → occurs placeholder_prefix text ≡ false
    → occurs placeholder_prefix (instruction plan.route) ≡ false
    → bound_messages file plan op outputs ≡ ok (bound_of op messages outputs)
operation_bound file instruction c stage final outputs plan before op messages text text' total
      given given' identity op_made made provenance behavior turns_made same chars le clean ids
      turns i_clean b_clean =
    let deps : op.depends_on ≡ ids_of before =
      (unfold operation_for in ap (λ (o : CoreOperation). o.depends_on) op_made) in
    let route : plan.route ≡ c.policy.route = ap (λ (p : CorePlan). p.route) made in
    let text_same : text ≡ text' = ground arith in
    let identity_bound : is_bound c.identity ≡ true =
      rw (identity, sym text_same) (ap not i_clean) in
    let behavior_bound : is_bound c.behavior ≡ true = rw (behavior, sym route) (ap not b_clean) in
    let turns_bound : all is_bound c.turns ≡ true = rw turns_made turns in
    let trusted : all is_bound (c.identity ∷ c.behavior ∷ c.turns) ≡ true =
      rw (identity_bound, behavior_bound) turns_bound in
    let base =
      bound_messages-operation file c stage final outputs plan before text' total given' identity
        (rw made provenance) (rw deps at same) (rw deps at chars) le ids clean trusted in
    rw (op_made, sym turns_made)
      (base ∙ ap ok (sym (operation-bound_of c before stage final outputs)))

module _ (file : Option (List ℕ)) (instruction : Route → List ℕ)
    (counter : String → List Message → ℕ) (id : String) (fields : Request) (messages : List Message)
    (model : String) where
  -- The messages of any stage of an accepted plan can be bound.
  bound_messages-planned :
      (plan : CorePlan) (before : List CoreOperation) (op : CoreOperation)
      (after : List CoreOperation) (outputs : Outputs) (total : ℕ) (text : List ℕ)
      → build_core_plan file instruction counter id fields messages model ≡ ok plan
      → plan.operations ≡ before ++ op ∷ after
      → same_stages outputs op.depends_on ≡ true
      → artifact_chars outputs op.depends_on ≡ ok total
      → total ≤ 750000
      → clean_outputs outputs ≡ true
      → all is_bound messages ≡ true
      → file ≡ some text
      → occurs placeholder_prefix text ≡ false
      → occurs placeholder_prefix (instruction plan.route) ≡ false
      → bound_messages file plan op outputs ≡ ok (bound_of op messages outputs)
  bound_messages-planned plan before op after outputs total text built split same chars le clean
        turns given i_clean b_clean =
      let (c, stages, prepared, looped, made) =
        build_parts file instruction counter id fields messages model plan built in
      let (_, _, positive) =
        prepare_context file instruction counter id fields messages model c stages prepared in
      let (ops, _) = plan_operations-planned c [] stages plan.operations positive looped in
      let (stage, final, op_made) = planned_at c [] stages before op after (sym ops ∙ split) in
      let (text', given', identity) =
        prepare_identity file instruction counter id fields messages model c stages prepared in
      let (provenance, behavior, turns_made, _) =
        prepare_messages file instruction counter id fields messages model c stages prepared in
      let (ids, _) =
        ids_parts (ids_of plan.operations)
          (plan_ids file instruction counter id fields messages model plan built) in
      operation_bound file instruction c stage final outputs plan before op messages text text'
        total given given' identity op_made made provenance behavior turns_made same chars le clean
        (ids_before before op after (rw split at ids)) turns i_clean b_clean

  -- Any stage of an accepted plan can be bound. If the outputs are those of its dependencies, each
  -- within its size and all together within theirs, if neither they nor the turns, the identity text
  -- and the behaviour instruction hold the start of a placeholder, and if the trusted counter finds
  -- some tokens in the bound messages and no more than the plan has reserved, then the request is
  -- made: its messages are those of the template up to the turns, followed by one message for each
  -- dependency that presents its output.
  pub bind_core_operation-build_core_plan :
      (plan : CorePlan) (before : List CoreOperation) (op : CoreOperation)
      (after : List CoreOperation) (outputs : Outputs) (total : ℕ) (text : List ℕ)
      → build_core_plan file instruction counter id fields messages model ≡ ok plan
      → plan.operations ≡ before ++ op ∷ after
      → same_stages outputs op.depends_on ≡ true
      → artifact_chars outputs op.depends_on ≡ ok total
      → total ≤ 750000
      → clean_outputs outputs ≡ true
      → all is_bound messages ≡ true
      → file ≡ some text
      → occurs placeholder_prefix text ≡ false
      → occurs placeholder_prefix (instruction plan.route) ≡ false
      → 0 < counter plan.candidate_model (bound_of op messages outputs)
      → counter plan.candidate_model (bound_of op messages outputs) ≤ op.maximum_input_tokens
      → bind_core_operation file counter plan op.stage_id outputs
        ≡ ok (request_of op (bound_of op messages outputs))
  bind_core_operation-build_core_plan plan before op after outputs total text built split same chars
        le clean turns given i_clean b_clean some_tokens reserved =
      let bound =
        bound_messages-planned plan before op after outputs total text built split same chars le
          clean turns given i_clean b_clean in
      let budgeted =
        build_core_plan-Budgeted file instruction counter id fields messages model plan built in
      let fits = operation_fits native_context_tokens [] before op after (rw split at budgeted) in
      let (ids, new) =
        ids_parts (ids_of plan.operations)
          (plan_ids file instruction counter id fields messages model plan built) in
      let (k, known) = plan_known file instruction counter id fields messages model plan built in
      bind_steps file counter plan outputs op (bound_of op messages outputs) k
        (id_at before op after (rw split at ids))
        (rw split (
          filter_one before op after
            (fresh-distinct [] (ids_of (before ++ op ∷ after)) (rw split at new))))
        bound some_tokens reserved known
        (rw (find_candidate-context plan.candidate_model k known) fits)
