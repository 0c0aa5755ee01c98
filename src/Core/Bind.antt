-- ===== src/Core/Bind.antt =====
-- bind_core_operation: the recorded outputs of earlier stages take the place of their placeholders.
-- The recorded outputs are a list of stage ids, all different, with their texts.
pub mod Artifacts
pub mod Position
pub mod Complete
pub mod Planned
use kova_gpt_models.Common.{
  ℕ, zero, suc, ◌+◌, String, codes, str_eq, occurs, occurrences, replace_first, codes_eq, Bool,
  true, false, ◌&&◌, ◌||◌, not, Option, none, some, List, [], ◌∷◌, all, any, filter, length, leb,
  ltb, ◌==◌, Result, ok, err, value_error, guard, or_fail, ◌>>=◌, ◌>>◌, if◌then◌else◌,
}
use kova_gpt_models.Router.Policy.{Reasoning}
use kova_gpt_models.Router.Models.{Candidate}
use kova_gpt_models.Core.Messages.{
  Role, system, is_system, is_assistant, Message, load_runtime_identity, trusted_message_count,
  selected_candidate_provenance, placeholder_prefix,
}
use kova_gpt_models.Core.Plan.{Binding, Template, CoreOperation, CorePlan, find_candidate}

abbrev pub Outputs : Type 0
Outputs = List (String × List ℕ)

-- `prior_stage_outputs[dependency]`
abbrev pub output_of : Outputs → String → Option (List ℕ)
output_of [] id = none
output_of ((k, text) ∷ outputs) id = if str_eq k id then some text else output_of outputs id

-- `set(prior_stage_outputs) == set(dependencies)`
abbrev pub same_stages : Outputs → List String → Bool
same_stages outputs ds =
    all (λ p. any (str_eq p.0) ds) outputs && all (λ d. any (λ p. str_eq p.0 d) outputs) ds

-- The loop over the dependencies: the characters of their outputs.
unfoldable pub artifact_chars : Outputs → List String → Result ℕ
artifact_chars outputs [] = ok 0
artifact_chars outputs (d ∷ ds) = do
  text ← or_fail (output_of outputs d) value_error
  guard (ltb 0 (length text) && leb (length text) 250000) value_error
  rest ← artifact_chars outputs ds
  ok (length text + rest)

abbrev pub message_at : List Message → ℕ → Option Message
message_at [] n = none
message_at (m ∷ ms) zero = some m
message_at (m ∷ ms) (suc n) = message_at ms n

-- The messages with another content at one index.
abbrev pub with_content : List Message → ℕ → List ℕ → List Message
with_content [] n text = []
with_content (m ∷ ms) zero text = record { role = m.role; content = text } ∷ ms
with_content (m ∷ ms) (suc n) text = m ∷ with_content ms n text

-- The body of the loop over the bindings; `bound` has the targets of those before.
unfoldable pub apply_binding : Outputs → List Message → List ℕ → Binding → Result (List Message)
apply_binding outputs messages bound b = do
  text ← or_fail (output_of outputs b.source_stage) value_error
  guard b.targets_content value_error
  guard b.exact_target_only value_error
  target ← or_fail (message_at messages b.target_index) value_error
  guard (not (any (λ n. b.target_index == n) bound)) value_error
  guard (is_assistant target.role) value_error
  guard (occurrences b.marker target.content == 1) value_error
  ok (with_content messages b.target_index (replace_first b.marker text target.content))

unfoldable pub apply_bindings :
    Outputs → List Message → List ℕ → List Binding → Result (List Message)
apply_bindings outputs messages bound [] = ok messages
apply_bindings outputs messages bound (b ∷ bs) = do
  next ← apply_binding outputs messages bound b
  apply_bindings outputs next (b.target_index ∷ bound) bs

-- Equality with a system message.
abbrev is_system_text : List ℕ → Message → Bool
is_system_text text m = is_system m.role && codes_eq m.content text

-- The first two messages are the identity and the provenance.
abbrev pub trusted_head : List ℕ → Message → List Message → Bool
trusted_head identity provenance (m ∷ n ∷ ms) =
    is_system_text identity m && is_system_text provenance.content n
trusted_head identity provenance _ = false

-- No message holds the start of a placeholder.
abbrev pub is_bound : Message → Bool
is_bound m = not (occurs placeholder_prefix m.content)

-- `len(matching) == 1`
unfoldable pub only_one : List CoreOperation → Result CoreOperation
only_one (o ∷ []) = ok o
only_one _ = err value_error

-- The provider request.
pub record ProviderRequest : Type 0 where
  pub provider_model : String
  pub provider_messages_bound : List Message
  pub max_tokens : ℕ
  pub reasoning_effort : Reasoning
  pub enable_thinking : Option Bool
  pub stream : Bool

-- The messages of an operation with the outputs in place.
unfoldable pub bound_messages :
    Option (List ℕ) → CorePlan → CoreOperation → Outputs → Result (List Message)
bound_messages file plan op outputs = do
  guard (same_stages outputs op.depends_on) value_error
  total ← artifact_chars outputs op.depends_on
  guard (leb total 750000) value_error
  guard (leb trusted_message_count (length op.template.messages)) value_error
  identity ← load_runtime_identity file
  provenance ← selected_candidate_provenance plan.route plan.candidate_model
  guard (trusted_head identity provenance op.template.messages) value_error
  guard (length op.template.bindings == length op.depends_on) value_error
  messages ← apply_bindings outputs op.template.messages [] op.template.bindings
  guard (all is_bound messages) value_error
  ok messages

-- bind_core_operation; the counter gives 0 for any value that is refused.
unfoldable pub bind_core_operation :
    Option (List ℕ)
    → (String → List Message → ℕ)
    → CorePlan
    → String
    → Outputs
    → Result ProviderRequest
bind_core_operation file counter plan stage_id outputs = do
  guard (ltb 0 (length (codes stage_id))) value_error
  op ← only_one (filter (λ o. str_eq o.stage_id stage_id) plan.operations)
  messages ← bound_messages file plan op outputs
  let tokens = counter plan.candidate_model messages
  guard (ltb 0 tokens) value_error
  guard (leb tokens op.maximum_input_tokens) value_error
  candidate ← find_candidate plan.candidate_model
  guard (leb (tokens + op.maximum_output_tokens) candidate.context_tokens) value_error
  ok (record {
    provider_model = op.template.model;
    provider_messages_bound = messages;
    max_tokens = op.maximum_output_tokens;
    reasoning_effort = op.template.reasoning;
    enable_thinking = op.template.thinking;
    stream = op.template.streams;
  })
