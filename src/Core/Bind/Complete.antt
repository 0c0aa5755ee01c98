-- ===== src/Core/Bind/Complete.antt =====
-- A stage of an accepted plan can be bound, and what the request then holds.
use kova_gpt_models.Common.{
  ℕ, suc, ◌+◌, ◌≤◌, ◌≡◌, refl, sym, ap, arith, String, str_eq, is_identifier, occurs, Bool, true,
  false, not, Option, some, List, [], ◌∷◌, ◌++◌, map, all, length, leb, ◌==◌, ok, Bool-cases,
  le→leb, eq→==, Option-cases, Result-cases, inl, inr,
}
use kova_gpt_models.Common.Search.{codes_eq_refl}
use kova_gpt_models.Router.Routes.{Family, cosmo, orion, nova, Route}
use kova_gpt_models.Router.Policy.{Request}
use kova_gpt_models.Router.Models.{
  ModelSourceReference, source_reference_for_route, model_source, route_slot,
}
use kova_gpt_models.Core.Messages.{
  system, is_system, Message, clean_messages, trusted_message_count, selected_candidate_provenance,
  placeholder_prefix, artifact_message, provenance_text,
}
use kova_gpt_models.Core.Request.{
  StageKind, planning_kind, answer_kind, critic_kind, verification_kind,
}
use kova_gpt_models.Core.Plan.{
  CoreOperation, CorePlan, Context, ids_of, operation_for, prepare, bindings_from,
  stage_instruction,
}
use kova_gpt_models.Core.Bind.{
  Outputs, output_of, same_stages, artifact_chars, trusted_head, apply_bindings, is_bound,
  bound_messages, ProviderRequest,
}
use kova_gpt_models.Core.Bind.Artifacts.{
  bound_artifact, text_of, artifact_of-bound, apply_bindings-artifacts,
}
use kova_gpt_models.Core.Bind.Position.{artifact_chars-given}

family_bound :
    (f : Family)
    → is_bound (record { role = system; content = provenance_text (model_source f) }) ≡ true
unfolding provenance_text model_source placeholder_prefix
family_bound cosmo = refl
family_bound orion = refl
family_bound nova = refl

source_family :
    (route : Route) (r : ModelSourceReference)
    → source_reference_for_route route ≡ ok r
    → (f : Family) × (model_source f ≡ r)
source_family route r h = elim (Option-cases (route_slot route)) [
  | inl no_slot ↦ absurd (unfold source_reference_for_route in ground arith)
  | inr (f, slot) ↦ (f, unfold source_reference_for_route in ground arith)
]

-- The provenance is a system message without a placeholder.
provenance_bound :
    (route : Route) (model : String) (m : Message)
    → selected_candidate_provenance route model ≡ ok m
    → (is_system m.role ≡ true) × (is_bound m ≡ true)
provenance_bound route model m h = elim (Result-cases (source_reference_for_route route)) [
  | inr (e, unknown) ↦ absurd (unfold selected_candidate_provenance in ground arith)
  | inl (r, found) ↦
      let same : (record { role = system; content = provenance_text r }) ≡ m =
        (unfold selected_candidate_provenance in ground arith) in
      let (f, source) = source_family route r found in
      (rw (sym same) refl, rw (sym same, sym source) (family_bound f))
]

instruction_bound :
    (kind : StageKind)
    → is_bound (record { role = system; content = stage_instruction kind }) ≡ true
unfolding stage_instruction placeholder_prefix
instruction_bound planning_kind = refl
instruction_bound answer_kind = refl
instruction_bound critic_kind = refl
instruction_bound verification_kind = refl

-- The trusted messages and the turns that a request is prepared with.
module _ (file : Option (List ℕ)) (instruction : Route → List ℕ)
    (counter : String → List Message → ℕ) (id : String) (fields : Request) (messages : List Message)
    (model : String) (c : Context) (stages : List (StageKind × ℕ))
    (h : prepare file instruction counter id fields messages model ≡ ok (c, stages)) where
  pub prepare_identity :
      (text : List ℕ) × (file ≡ some text) × (c.identity ≡ record { role = system; content = text })
  prepare_identity = elim (Option-cases file) [
    | inl no_file ↦ absurd (unfold prepare in ground arith)
    | inr (text, given) ↦ (text, given, unfold prepare in ground arith)
  ]

  pub prepare_messages :
      (selected_candidate_provenance c.policy.route c.model ≡ ok c.provenance)
      × (c.behavior ≡ record { role = system; content = instruction c.policy.route })
      × (c.turns ≡ messages)
      × (c.count_tokens ≡ counter)
  unfolding prepare clean_messages
  prepare_messages = ground arith

-- The request of an operation that is bound.
abbrev pub request_of : CoreOperation → List Message → ProviderRequest
request_of op messages = record {
  provider_model = op.template.model;
  provider_messages_bound = messages;
  max_tokens = op.maximum_output_tokens;
  reasoning_effort = op.template.reasoning;
  enable_thinking = op.template.thinking;
  stream = op.template.streams;
}

all-bound-append :
    (xs ys : List Message)
    → all is_bound xs ≡ true
    → all is_bound ys ≡ true
    → all is_bound (xs ++ ys) ≡ true
all-bound-append [] ys h k = k
all-bound-append (x ∷ xs) ys h k = ground (arith, all-bound-append xs ys)

-- Outputs without placeholders.
abbrev pub clean_outputs : Outputs → Bool
clean_outputs = all (λ p. not (occurs placeholder_prefix p.1))

output_clean :
    (outputs : Outputs) (d : String)
    → clean_outputs outputs ≡ true
    → occurs placeholder_prefix (text_of (output_of outputs d)) ≡ false
unfolding placeholder_prefix
output_clean [] d h = refl
output_clean ((k, text) ∷ outputs) d h = elim (Bool-cases (str_eq k d)) [
  | inl e ↦ rw e (ground arith)
  | inr e ↦ rw e (output_clean outputs d (ground arith))
]

artifacts-bound :
    (outputs : Outputs) (ds : List String)
    → clean_outputs outputs ≡ true
    → all is_identifier ds ≡ true
    → all is_bound (map (bound_artifact outputs) ds) ≡ true
artifacts-bound outputs [] h k = refl
artifacts-bound outputs (d ∷ ds) h k =
    let first =
      artifact_of-bound d (text_of (output_of outputs d)) (ground arith)
        (output_clean outputs d h) in
    ground (arith, artifacts-bound outputs ds)

length-bindings_from : (n : ℕ) (ds : List String) → length (bindings_from n ds) ≡ length ds
unfolding bindings_from
length-bindings_from n [] = refl
length-bindings_from n (d ∷ ds) = ap suc (length-bindings_from (suc n) ds)

-- The four trusted messages and the turns.
abbrev pub conversation : Context → StageKind → List Message
conversation c kind =
    c.identity
    ∷ c.provenance
    ∷ c.behavior
    ∷ record { role = system; content = stage_instruction kind }
    ∷ c.turns

-- One step after another.
bound_messages-steps :
    (file : Option (List ℕ)) (plan : CorePlan) (op : CoreOperation) (outputs : Outputs)
    (text : List ℕ) (provenance : Message) (bound : List Message) (total : ℕ)
    → same_stages outputs op.depends_on ≡ true
    → artifact_chars outputs op.depends_on ≡ ok total
    → leb total 750000 ≡ true
    → leb trusted_message_count (length op.template.messages) ≡ true
    → file ≡ some text
    → selected_candidate_provenance plan.route plan.candidate_model ≡ ok provenance
    → trusted_head text provenance op.template.messages ≡ true
    → (length op.template.bindings == length op.depends_on) ≡ true
    → apply_bindings outputs op.template.messages [] op.template.bindings ≡ ok bound
    → all is_bound bound ≡ true
    → bound_messages file plan op outputs ≡ ok bound
unfolding bound_messages
bound_messages-steps file plan op outputs text provenance bound total a b d e f g h i j k =
    rw (a, b, d, e, f, g, h, i, j, k) refl

trusted_head-conversation :
    (c : Context) (kind : StageKind) (rest : List Message) (text : List ℕ)
    → c.identity ≡ record { role = system; content = text }
    → is_system c.provenance.role ≡ true
    → trusted_head text c.provenance (conversation c kind ++ rest) ≡ true
trusted_head-conversation c kind rest text i p =
    rw (i, codes_eq_refl text, p, codes_eq_refl c.provenance.content) refl

-- The messages of an operation, made from a context, with its outputs in place.
pub bound_messages-operation :
    (file : Option (List ℕ)) (c : Context) (stage : StageKind × ℕ) (final : Bool)
    (outputs : Outputs) (plan : CorePlan) (before : List CoreOperation) (text : List ℕ) (total : ℕ)
    → file ≡ some text
    → c.identity ≡ record { role = system; content = text }
    → selected_candidate_provenance plan.route plan.candidate_model ≡ ok c.provenance
    → same_stages outputs (ids_of before) ≡ true
    → artifact_chars outputs (ids_of before) ≡ ok total
    → total ≤ 750000
    → all is_identifier (ids_of before) ≡ true
    → clean_outputs outputs ≡ true
    → all is_bound (c.identity ∷ c.behavior ∷ c.turns) ≡ true
    → bound_messages file plan (operation_for c before stage final) outputs
      ≡ ok (conversation c stage.0 ++ map (bound_artifact outputs) (ids_of before))
unfolding operation_for
bound_messages-operation file c stage final outputs plan before text total f i p same chars le ids
      clean trusted =
    let ds = ids_of before in
    let head = conversation c stage.0 in
    let given = artifact_chars-given outputs ds total chars in
    let place : trusted_message_count + length c.turns ≡ length head = omega arith in
    let applied = apply_bindings-artifacts outputs head [] ds refl ids given in
    let (p_role, p_bound) = provenance_bound plan.route plan.candidate_model c.provenance p in
    let i_bound = instruction_bound stage.0 in
    let head_bound : all is_bound head ≡ true = ground arith in
    let clean_all =
      all-bound-append head (map (bound_artifact outputs) ds) head_bound
        (artifacts-bound outputs ds clean ids) in
    bound_messages-steps file plan (operation_for c before stage final) outputs text c.provenance _
      total same chars (le→leb total 750000 le) (ground arith) f p
      (trusted_head-conversation c stage.0 (map artifact_message ds) text i p_role)
      (eq→== _ _ (length-bindings_from (trusted_message_count + length c.turns) ds))
      (rw place applied) clean_all
