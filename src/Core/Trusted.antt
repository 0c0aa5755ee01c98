-- ===== src/Core/Trusted.antt =====
-- Binding stage outputs leaves the trusted messages and the turns of the user as they are.
use kova_gpt_models.Common.{
  ℕ, zero, suc, ◌+◌, ◌≤◌, ◌<◌, ◌≡◌, refl, sym, ap, ◌∙◌, arith, String, true, Option, some, List, [],
  ◌∷◌, map, all, filter, ok, Option-cases, Result-cases, inl, inr, if◌then◌else◌, str_eq,
  replace_first,
}
use kova_gpt_models.Router.Models.{native_context_tokens, candidates, Candidate}
use kova_gpt_models.Core.Messages.{is_assistant, Message}
use kova_gpt_models.Core.Plan.{Binding, CoreOperation, CorePlan, find_candidate}
use kova_gpt_models.Core.Bind.{
  Outputs, message_at, with_content, apply_binding, apply_bindings, bound_messages,
  bind_core_operation, ProviderRequest, is_bound, only_one, output_of,
}

-- A message without the content that a binding may change.
abbrev pub masked : Message → Message
masked m = record { role = m.role; content = if is_assistant m.role then [] else m.content }

pub with_content-masked :
    (messages : List Message) (n : ℕ) (text : List ℕ) (target : Message)
    → message_at messages n ≡ some target
    → is_assistant target.role ≡ true
    → map masked (with_content messages n text) ≡ map masked messages
with_content-masked [] n text target h k = refl
with_content-masked (m ∷ ms) zero text target h k =
    let same : m ≡ target = ground arith in
    let turn : is_assistant m.role ≡ true = rw same k in ap (λ x. x ∷ map masked ms) (rw turn refl)
with_content-masked (m ∷ ms) (suc n) text target h k =
    ap (λ x. masked m ∷ x) (with_content-masked ms n text target h k)

apply_binding-masked :
    (outputs : Outputs) (messages next : List Message) (bound : List ℕ) (b : Binding)
    → apply_binding outputs messages bound b ≡ ok next
    → map masked next ≡ map masked messages
apply_binding-masked outputs messages next bound b h =
    elim (Option-cases (output_of outputs b.source_stage)) [
      | inl no_text ↦ absurd (unfold apply_binding in ground arith)
      | inr (text, given) ↦ elim (Option-cases (message_at messages b.target_index)) [
        | inl no_target ↦ absurd (unfold apply_binding in ground arith)
        | inr (target, found) ↦
            let turn : is_assistant target.role ≡ true = (unfold apply_binding in ground arith) in
            let same : with_content messages b.target_index
                  (replace_first b.marker text target.content)
                ≡ next =
              (unfold apply_binding in ground arith) in
            rw (sym same) (
              with_content-masked messages b.target_index
                (replace_first b.marker text target.content) target found turn)
      ]
    ]

apply_bindings-masked :
    (outputs : Outputs) (messages next : List Message) (bound : List ℕ) (bs : List Binding)
    → apply_bindings outputs messages bound bs ≡ ok next
    → map masked next ≡ map masked messages
apply_bindings-masked outputs messages next bound [] h =
    let same : messages ≡ next = (unfold apply_bindings in ground arith) in
    ap (map masked) (sym same)
apply_bindings-masked outputs messages next bound (b ∷ bs) h =
    elim (Result-cases (apply_binding outputs messages bound b)) [
      | inl (between, first) ↦
          apply_bindings-masked outputs between next (b.target_index ∷ bound) bs
            (unfold apply_bindings in ground arith)
          ∙ apply_binding-masked outputs messages between bound b first
      | inr (e, refused) ↦ absurd (unfold apply_bindings in ground arith)
    ]

bound_messages-applied :
    (file : Option (List ℕ)) (plan : CorePlan) (op : CoreOperation) (outputs : Outputs)
    (messages : List Message)
    → bound_messages file plan op outputs ≡ ok messages
    → (apply_bindings outputs op.template.messages [] op.template.bindings ≡ ok messages)
      × (all is_bound messages ≡ true)
unfolding bound_messages
bound_messages-applied file plan op outputs messages h = ground arith

-- A candidate that is found has the native context.
pub find_candidate-context :
    (model : String) (k : Candidate)
    → find_candidate model ≡ ok k
    → k.context_tokens ≡ native_context_tokens
unfolding find_candidate candidates
find_candidate-context model k h = ground arith

module _ (file : Option (List ℕ)) (counter : String → List Message → ℕ) (plan : CorePlan)
    (stage_id : String) (outputs : Outputs) where
  -- The request of a bound stage belongs to the one operation with its id. It asks for the output of
  -- that operation; its messages are counted, with no more tokens than the operation has reserved,
  -- and fit the native context with the output; none holds the start of a placeholder; and they are
  -- those of the template, in number, roles and order, with the same content in every message that
  -- is not of the assistant.
  pub bind_core_operation-masked :
      (request : ProviderRequest)
      → bind_core_operation file counter plan stage_id outputs ≡ ok request
      → (op : CoreOperation) × (only_one (filter (λ o. str_eq o.stage_id stage_id) plan.operations)
          ≡ ok op)
        × (request.max_tokens ≡ op.maximum_output_tokens)
        × (0 < counter plan.candidate_model request.provider_messages_bound)
        × (counter plan.candidate_model request.provider_messages_bound ≤ op.maximum_input_tokens)
        × (counter plan.candidate_model request.provider_messages_bound + request.max_tokens
            ≤ native_context_tokens)
        × (all is_bound request.provider_messages_bound ≡ true)
        × (map masked request.provider_messages_bound ≡ map masked op.template.messages)
  bind_core_operation-masked request h =
      elim (Result-cases (only_one (filter (λ o. str_eq o.stage_id stage_id) plan.operations))) [
        | inr (e, none_such) ↦ absurd (unfold bind_core_operation in ground arith)
        | inl (op, found) ↦ elim (Result-cases (bound_messages file plan op outputs)) [
          | inr (e, unbound) ↦ absurd (unfold bind_core_operation in ground arith)
          | inl (messages, bound) ↦ elim (Result-cases (find_candidate plan.candidate_model)) [
            | inr (e, unknown) ↦ absurd (unfold bind_core_operation in ground arith)
            | inl (k, known) ↦
                let (applied, clean) = bound_messages-applied file plan op outputs messages bound in
                let context = find_candidate-context plan.candidate_model k known in
                let same : request.provider_messages_bound ≡ messages =
                  (unfold bind_core_operation in ground arith) in
                (
                  op,
                  found,
                  (unfold bind_core_operation in ground arith),
                  (unfold bind_core_operation in ground arith),
                  (unfold bind_core_operation in ground arith),
                  (unfold bind_core_operation in ground arith),
                  rw same clean,
                  rw same (
                      apply_bindings-masked outputs op.template.messages messages []
                        op.template.bindings applied),
                )
          ]
        ]
      ]
