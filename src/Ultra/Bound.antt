-- ===== src/Ultra/Bound.antt =====
-- What a bound Ultra request keeps of its template, and when there is none.
use kova_gpt_models.Common.{
  ℕ, suc, ◌+◌, ◌≤◌, ◌<◌, ◌≡◌, refl, sym, ◌∙◌, arith, String, str_eq, is_none, Bool, true, Option,
  List, [], ◌∷◌, map, all, filter, length, ok, replace_first, Option-cases, Result-cases, inl, inr,
}
use kova_gpt_models.Router.Models.{
  Candidate, candidates, ModelSourceReference, source_reference_for_route,
}
use kova_gpt_models.Contracts.Spec.{RuntimeIdentity}
use kova_gpt_models.Contracts.Admission.{single}
use kova_gpt_models.Core.Messages.{trusted_message_count, Message, is_assistant}
use kova_gpt_models.Core.Bind.{message_at, with_content, is_bound}
use kova_gpt_models.Core.Trusted.{masked, with_content-masked}
use kova_gpt_models.Ultra.Bind.{
  Artifacts, UltraBinding, UltraStage, UltraPlan, artifact_for, check_loaded, saved_conversation,
  artifact_text, bind_artifact, bind_artifacts, UltraRequest, only_stage, bound_stage,
  bind_ultra_operation,
}

bind_artifact-masked :
    (artifacts : Artifacts) (id : String) (sources : List String) (messages : List Message)
    (index : ℕ) (expected : String) (b : UltraBinding) (next : List Message) (chars : ℕ)
    → bind_artifact artifacts id sources messages index expected b ≡ ok (next, chars)
    → map masked next ≡ map masked messages
bind_artifact-masked artifacts id sources messages index expected b next chars h =
    elim (Option-cases (artifact_for artifacts b.source_stage)) [
      | inl missing ↦ absurd (unfold bind_artifact in ground arith)
      | inr (artifact, given) ↦ elim (Option-cases (message_at messages index)) [
        | inl no_target ↦ absurd (unfold bind_artifact in ground arith)
        | inr (target, found) ↦ elim (Result-cases (artifact_text id b artifact)) [
          | inr (e, refused) ↦ absurd (unfold bind_artifact in ground arith)
          | inl (text, read) ↦
              let turn : is_assistant target.role ≡ true = (unfold bind_artifact in ground arith) in
              let content = replace_first b.marker text target.content in
              let same : with_content messages index content ≡ next =
                (unfold bind_artifact in ground arith) in
              rw (sym same) (with_content-masked messages index content target found turn)
        ]
      ]
    ]

bind_artifacts-masked :
    (artifacts : Artifacts) (id : String) (sources : List String) (messages : List Message)
    (index : ℕ) (deps : List String) (bs : List UltraBinding) (last : List Message) (chars : ℕ)
    → bind_artifacts artifacts id sources messages index deps bs ≡ ok (last, chars)
    → map masked last ≡ map masked messages
bind_artifacts-masked artifacts id sources messages index deps [] last chars h =
    let same : messages ≡ last = (unfold bind_artifacts in ground arith) in rw same refl
bind_artifacts-masked artifacts id sources messages index [] (b ∷ bs) last chars h =
    absurd (unfold bind_artifacts in ground arith)
bind_artifacts-masked artifacts id sources messages index (d ∷ deps) (b ∷ bs) last chars h =
    elim (Result-cases (bind_artifact artifacts id sources messages index d b)) [
      | inr (e, refused) ↦ absurd (unfold bind_artifacts in ground arith)
      | inl ((next, n), first) ↦
          elim (Result-cases
            (bind_artifacts artifacts id (b.source_stage ∷ sources) next (suc index) deps bs)) [
              | inr (e, refused) ↦ absurd (unfold bind_artifacts in ground arith)
              | inl ((end, m), rest) ↦
                  let same : end ≡ last = (unfold bind_artifacts in ground arith) in
                  rw (sym same) (
                    bind_artifacts-masked artifacts id (b.source_stage ∷ sources) next (suc index)
                      deps bs end m rest
                    ∙ bind_artifact-masked artifacts id sources messages index d b next n first)
            ]
    ]

-- The row of a table without adapters is none that a model can be loaded by.
abbrev unpinned : Candidate → Bool
unpinned c = is_none c.adapter_sha256

all-filter :
    (slot : String) (cs : List Candidate)
    → all unpinned cs ≡ true
    → all unpinned (filter (λ c. str_eq c.model slot) cs) ≡ true
all-filter slot [] h = refl
all-filter slot (c ∷ cs) h = ground (arith, all-filter slot cs)

unpinned_row :
    (cs : List Candidate) (row : Candidate)
    → all unpinned cs ≡ true
    → single cs ≡ ok row
    → is_none row.adapter_sha256 ≡ true
unfolding single
unpinned_row [] row h k = absurd (ground arith)
unpinned_row (c ∷ []) row h k = ground arith
unpinned_row (c ∷ d ∷ cs) row h k = absurd (ground arith)

not_loaded :
    (cs : List Candidate) (source : ModelSourceReference) (identity : RuntimeIdentity)
    → all unpinned cs ≡ true
    → ¬ (check_loaded cs source identity ≡ ok tt)
not_loaded cs source identity h k =
    elim (Result-cases (single (filter (λ c. str_eq c.model source.slot) cs))) [
      | inr (e, refused) ↦ unfold check_loaded in ground arith
      | inl (row, found) ↦
          let bare =
            unpinned_row (filter (λ c. str_eq c.model source.slot) cs) row
              (all-filter source.slot cs h) found in
          unfold check_loaded in ground arith
    ]

module _ (file : Option (List ℕ)) (table : List Candidate) (plan : UltraPlan) (op : UltraStage)
    (artifacts : Artifacts) (identity : RuntimeIdentity) (bound : List Message)
    (h : bound_stage file table plan op artifacts identity ≡ ok bound) where
  -- The loaded model has been checked.
  bound_stage-loaded :
      (source : ModelSourceReference) × (check_loaded table source identity ≡ ok tt)
  bound_stage-loaded = elim (Result-cases (source_reference_for_route plan.ultra_route)) [
    | inr (e, refused) ↦ absurd (unfold bound_stage in ground arith)
    | inl (source, found) ↦ (source, unfold bound_stage in ground arith)
  ]

  bound_stage-saved : (conversation : List Message) × (saved_conversation plan ≡ ok conversation)
  bound_stage-saved = elim (Result-cases (saved_conversation plan)) [
    | inr (e, refused) ↦ absurd (unfold bound_stage in ground arith)
    | inl (conversation, saved) ↦ (conversation, saved)
  ]

  bound_stage-masked : (all is_bound bound ≡ true) × (map masked bound ≡ map masked op.messages)
  bound_stage-masked =
      let (conversation, saved) = bound_stage-saved in
      let first = trusted_message_count + length conversation in
      elim (Result-cases (
        bind_artifacts artifacts op.stage_id [] op.messages first op.stage_depends_on
          op.bindings)) [
            | inr (e, refused) ↦ absurd (unfold bound_stage in ground arith)
            | inl ((messages, chars), applied) ↦
                let same : messages ≡ bound = (unfold bound_stage in ground arith) in
                (
                  (unfold bound_stage in ground arith),
                  rw (sym same) (
                      bind_artifacts-masked artifacts op.stage_id [] op.messages first
                        op.stage_depends_on op.bindings messages chars applied),
                )
          ]

-- The request of a bound Ultra stage belongs to the one stage with its id. It asks for the output of that
-- stage; its messages are counted, with no more tokens than the stage has reserved, and fit the
-- context of the loaded model with the output; none holds the start of a placeholder; and they are
-- those of the template, in number, roles and order, with the same content in every message that
-- is not of the assistant.
pub bind_ultra_operation-masked :
    (file : Option (List ℕ)) (table : List Candidate) (counter : String → List Message → ℕ)
    (plan : UltraPlan) (stage_id : String) (artifacts : Artifacts) (identity : RuntimeIdentity)
    (request : UltraRequest)
    → bind_ultra_operation file table counter plan stage_id artifacts identity ≡ ok request
    → (op : UltraStage) × (only_stage (filter (λ o. str_eq o.stage_id stage_id) plan.ultra_stages)
        ≡ ok op)
      × (request.request_max_tokens ≡ op.output_limit)
      × (0 < counter identity.model request.request_messages)
      × (counter identity.model request.request_messages ≤ op.input_limit)
      × (counter identity.model request.request_messages + request.request_max_tokens
          ≤ identity.context_tokens)
      × (all is_bound request.request_messages ≡ true)
      × (map masked request.request_messages ≡ map masked op.messages)
bind_ultra_operation-masked file table counter plan stage_id artifacts identity request h =
    elim (Result-cases (only_stage (filter (λ o. str_eq o.stage_id stage_id) plan.ultra_stages))) [
      | inr (e, none_such) ↦ absurd (unfold bind_ultra_operation in ground arith)
      | inl (op, found) ↦ elim (Result-cases (bound_stage file table plan op artifacts identity)) [
        | inr (e, refused) ↦ absurd (unfold bind_ultra_operation in ground arith)
        | inl (messages, bound) ↦
            let (clean, same) =
              bound_stage-masked file table plan op artifacts identity messages bound in
            let e : request.request_messages ≡ messages =
              (unfold bind_ultra_operation in ground arith) in
            (
              op,
              found,
              (unfold bind_ultra_operation in ground arith),
              (unfold bind_ultra_operation in ground arith),
              (unfold bind_ultra_operation in ground arith),
              (unfold bind_ultra_operation in ground arith),
              rw e clean,
              rw e same,
            )
      ]
    ]

-- The table of the source pins no adapter, and as long as it does not, no Ultra stage is ever bound,
-- whatever the plan, the artifacts and the loaded model.
pub bind_ultra_operation-candidates :
    (file : Option (List ℕ)) (counter : String → List Message → ℕ) (plan : UltraPlan)
    (stage_id : String) (artifacts : Artifacts) (identity : RuntimeIdentity)
    (request : UltraRequest)
    → ¬ (bind_ultra_operation file candidates counter plan stage_id artifacts identity ≡ ok request)
bind_ultra_operation-candidates file counter plan stage_id artifacts identity request h =
    elim (Result-cases (only_stage (filter (λ o. str_eq o.stage_id stage_id) plan.ultra_stages))) [
      | inr (e, none_such) ↦ unfold bind_ultra_operation in ground arith
      | inl (op, found) ↦
          elim (Result-cases (bound_stage file candidates plan op artifacts identity)) [
            | inr (e, refused) ↦ unfold bind_ultra_operation in ground arith
            | inl (messages, bound) ↦
                let (source, loaded) =
                  bound_stage-loaded file candidates plan op artifacts identity messages bound in
                not_loaded candidates source identity (unfold candidates in refl) loaded
          ]
    ]
