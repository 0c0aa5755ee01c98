-- ===== src/Ultra/Bind.antt =====
-- bind_ultra_operation (ultra/binding.py): the artifacts of the stages before take the place of their
-- placeholders, a skipped debate round that of an empty text.
use kova_gpt_models.Common.{
  ℕ, suc, ◌+◌, String, str_eq, is_hex, is_space, occurrences, replace_first, codes_eq, Bool, true,
  false, ◌&&◌, not, Option, none, some, List, [], ◌∷◌, all, any, filter, take, drop, length, leb,
  ltb, ◌==◌, Result, ok, err, execution_error, key_error, guard, or_fail, ◌>>=◌, ◌>>◌,
  if◌then◌else◌,
}
use kova_gpt_models.Router.Routes.{Route}
use kova_gpt_models.Router.Models.{Candidate, ModelSourceReference, source_reference_for_route}
use kova_gpt_models.Contracts.Spec.{RuntimeIdentity}
use kova_gpt_models.Contracts.Validate.{str_mem}
use kova_gpt_models.Contracts.Admission.{single}
use kova_gpt_models.Core.Messages.{
  Role, user, is_system, is_user, is_assistant, Message, load_runtime_identity,
  trusted_message_count, selected_candidate_provenance, placeholder,
}
use kova_gpt_models.Core.Bind.{message_at, with_content, trusted_head, is_bound}
use kova_gpt_models.Ultra.Conversation.{validated_conversation}

-- The artifacts: stage ids, all different, with their texts; a skipped one has none.
abbrev pub Artifacts : Type 0
Artifacts = List (String × Option (List ℕ))

-- A row of `artifact_bindings`.
pub record UltraBinding : Type 0 where
  pub source_stage : String
  pub marker : List ℕ
  pub target_index : ℕ
  pub targets_content : Bool
  pub exact_target_only : Bool
  -- `when_source_skipped == "bind_empty"`
  pub binds_empty : Bool

pub record UltraStage : Type 0 where
  pub stage_id : String
  pub stage_depends_on : List String
  pub messages : List Message
  pub bindings : List UltraBinding
  pub input_limit : ℕ
  pub output_limit : ℕ
  pub public_stage : Bool

-- What the binding reads of an Ultra plan.
pub record UltraPlan : Type 0 where
  pub is_ultra_engine : Bool
  pub ultra_route : Route
  pub conversation_messages : Option (List Message)
  pub task : List ℕ
  pub ultra_stages : List UltraStage

-- `artifacts[source]`
abbrev pub artifact_for : Artifacts → String → Option (Option (List ℕ))
artifact_for [] id = none
artifact_for ((k, a) ∷ rest) id = if str_eq k id then some a else artifact_for rest id

-- `set(artifacts) == set(operation["depends_on"])`
abbrev pub same_sources : Artifacts → List String → Bool
same_sources artifacts ds =
    all (λ p. any (str_eq p.0) ds) artifacts && all (λ d. any (λ p. str_eq p.0 d) artifacts) ds

-- `pinned` is a digest, and the loaded one.
abbrev pub pin_holds : Option String → String → Bool
pin_holds none s = false
pin_holds (some p) s = is_hex 64 p && str_eq s p

-- The checks of the loaded model and its adapter against the row of the route's source.
unfoldable pub check_loaded :
    List Candidate → ModelSourceReference → RuntimeIdentity → Result (Unit {0})
check_loaded table source identity = do
  row ← single (filter (λ c. str_eq c.model source.slot) table)
  guard (str_eq row.revision source.revision) execution_error
  guard (str_eq identity.model source.slot && str_eq identity.model_revision source.revision)
      execution_error
  guard (pin_holds row.adapter_sha256 identity.adapter_sha256) execution_error
  guard (pin_holds row.adapter_bundle_sha256 identity.adapter_bundle_sha256) execution_error

abbrev same_role : Role → Role → Bool
same_role Role.system r = is_system r
same_role Role.user r = is_user r
same_role Role.assistant r = is_assistant r
same_role Role.other_role r = not (is_system r) && (not (is_user r) && not (is_assistant r))

abbrev same_messages : List Message → List Message → Bool
same_messages [] [] = true
same_messages (m ∷ ms) (n ∷ ns) =
    (same_role m.role n.role && codes_eq m.content n.content) && same_messages ms ns
same_messages _ _ = false

-- `conversation`
unfoldable pub saved_conversation : UltraPlan → Result (List Message)
saved_conversation plan = elim plan.conversation_messages [
  | none ↦ ok (record { role = user; content = plan.task } ∷ [])
  | some ms ↦ validated_conversation ms
]

-- The text of an artifact: an empty one for a skipped debate round, in the synthesis alone.
unfoldable pub artifact_text : String → UltraBinding → Option (List ℕ) → Result (List ℕ)
artifact_text stage_id b none = do
  guard (str_eq stage_id "synthesis" && (str_eq b.source_stage "debate-round-1" && b.binds_empty))
      execution_error
  ok []
artifact_text stage_id b (some text) = do
  guard (any (λ c. not (is_space c)) text && leb (length text) 250000) execution_error
  ok text

-- The body of the loop over the bindings: `index` is `first_artifact + offset`, `expected` is
-- `operation["depends_on"][offset]`, `sources` has the sources of those before.
unfoldable pub bind_artifact :
    Artifacts
    → String
    → List String
    → List Message
    → ℕ
    → String
    → UltraBinding
    → Result (List Message × ℕ)
bind_artifact artifacts stage_id sources messages index expected b = do
  artifact ← or_fail (artifact_for artifacts b.source_stage) execution_error
  guard (not (str_mem b.source_stage sources) && str_eq b.source_stage expected) execution_error
  guard (b.target_index == index) execution_error
  target ← or_fail (message_at messages index) execution_error
  guard (b.targets_content && b.exact_target_only) execution_error
  guard
      (is_assistant target.role
        && (codes_eq b.marker (placeholder b.source_stage)
            && occurrences b.marker target.content == 1))
      execution_error
  text ← artifact_text stage_id b artifact
  ok (with_content messages index (replace_first b.marker text target.content), length text)

-- The loop, with the characters that it adds up. There is a dependency for each binding, since the
-- artifacts are as many as the bindings and as the different dependencies.
unfoldable pub bind_artifacts :
    Artifacts
    → String
    → List String
    → List Message
    → ℕ
    → List String
    → List UltraBinding
    → Result (List Message × ℕ)
bind_artifacts artifacts stage_id sources messages index deps [] = ok (messages, 0)
bind_artifacts artifacts stage_id sources messages index [] (b ∷ bs) = err key_error
bind_artifacts artifacts stage_id sources messages index (d ∷ deps) (b ∷ bs) = do
  (next, chars) ← bind_artifact artifacts stage_id sources messages index d b
  (last, more) ←
      bind_artifacts artifacts stage_id (b.source_stage ∷ sources) next (suc index) deps bs
  ok (last, chars + more)

pub record UltraRequest : Type 0 where
  pub request_model : String
  pub request_messages : List Message
  pub request_max_tokens : ℕ
  pub request_stream : Bool

-- `len(matches) == 1`
unfoldable pub only_stage : List UltraStage → Result UltraStage
only_stage (o ∷ []) = ok o
only_stage _ = err execution_error

-- The messages of a stage with the artifacts in place.
unfoldable pub bound_stage :
    Option (List ℕ)
    → List Candidate
    → UltraPlan
    → UltraStage
    → Artifacts
    → RuntimeIdentity
    → Result (List Message)
bound_stage file table plan op artifacts identity = do
  guard (same_sources artifacts op.stage_depends_on) execution_error
  guard (length op.bindings == length artifacts) execution_error
  source ← source_reference_for_route plan.ultra_route
  check_loaded table source identity
  guard (leb trusted_message_count (length op.messages)) execution_error
  text ← load_runtime_identity file
  provenance ← selected_candidate_provenance plan.ultra_route source.slot
  guard (trusted_head text provenance op.messages) execution_error
  conversation ← saved_conversation plan
  let first = trusted_message_count + length conversation
  guard (length op.messages == first + length op.bindings) execution_error
  guard
      (same_messages (take (length conversation) (drop trusted_message_count op.messages))
        conversation)
      execution_error
  (messages, chars) ←
      bind_artifacts artifacts op.stage_id [] op.messages first op.stage_depends_on op.bindings
  guard (leb chars 750000) execution_error
  guard (all is_bound messages) execution_error
  ok messages

-- bind_ultra_operation, with the rows of CORE_SERVING["candidates"]; the counter gives 0 for any value
-- that is refused.
unfoldable pub bind_ultra_operation :
    Option (List ℕ)
    → List Candidate
    → (String → List Message → ℕ)
    → UltraPlan
    → String
    → Artifacts
    → RuntimeIdentity
    → Result UltraRequest
bind_ultra_operation file table counter plan stage_id artifacts identity = do
  guard plan.is_ultra_engine execution_error
  op ← only_stage (filter (λ o. str_eq o.stage_id stage_id) plan.ultra_stages)
  messages ← bound_stage file table plan op artifacts identity
  let tokens = counter identity.model messages
  guard (ltb 0 tokens && leb tokens op.input_limit) execution_error
  guard (leb (tokens + op.output_limit) identity.context_tokens) execution_error
  ok (record {
    request_model = identity.model;
    request_messages = messages;
    request_max_tokens = op.output_limit;
    request_stream = op.public_stage;
  })
