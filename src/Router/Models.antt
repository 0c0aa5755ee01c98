-- ===== src/Router/Models.antt =====
-- release/model_revisions.py and core/current_candidates.py: which source model serves a route.
use kova_gpt_models.Common.{
  ℕ, String, str_eq, ◌&&◌, Option, none, some, List, [], ◌∷◌, Result, or_fail, value_error, ok,
  ◌>>=◌, filter,
}
use kova_gpt_models.Router.Routes.{
  Family, cosmo, orion, nova, instant_mode, Route, compat, chat, work,
}

pub record ModelSourceReference : Type 0 where
  pub slot : String
  pub upstream : String
  pub revision : String

-- MODEL_SOURCE_REFERENCES
unfoldable pub model_source : Family → ModelSourceReference
model_source cosmo = record {
  slot = "kova-cosmo";
  upstream = "Qwen/Qwen3-0.6B";
  revision = "c1899de289a04d12100db370d81485cdf75e47ca";
}
model_source orion = record {
  slot = "kova-orion";
  upstream = "Qwen/Qwen3-1.7B";
  revision = "70d244cc86ccca08cf5af4e1e306ecf908b1ad5e";
}
model_source nova = record {
  slot = "kova-nova";
  upstream = "Qwen/Qwen3-4B";
  revision = "1cfa9a7208912126459214e8b04321603b3df60c";
}

-- ROUTE_MODEL_SLOTS: there is no Chat route for the Nova family.
unfoldable pub route_slot : Route → Option Family
route_slot (compat instant_mode) = some cosmo
route_slot (compat _) = some orion
route_slot (chat nova _) = none
route_slot (chat f _) = some f
route_slot (work f _) = some f

-- source_reference_for_route
unfoldable pub source_reference_for_route : Route → Result ModelSourceReference
unfolding route_slot model_source
source_reference_for_route r = do
  family ← or_fail (route_slot r) value_error
  ok (model_source family)

-- NATIVE_CONTEXT_TOKENS
abbrev pub native_context_tokens : ℕ
native_context_tokens = 32768

-- A row of CORE_SERVING["candidates"].
pub record Candidate : Type 0 where
  pub model : String
  pub revision : String
  pub context_tokens : ℕ
  pub adapter_sha256 : Option String
  pub adapter_bundle_sha256 : Option String

abbrev candidate_of : Family → Candidate
unfolding model_source
candidate_of f = record {
  model = (model_source f).slot;
  revision = (model_source f).revision;
  context_tokens = native_context_tokens;
  adapter_sha256 = none;
  adapter_bundle_sha256 = none;
}

-- CORE_SERVING["candidates"]: TRAINED_ADAPTER_SHA256 and ADAPTER_BUNDLE_SHA256 pin no adapter.
unfoldable pub candidates : List Candidate
unfolding model_source
candidates = candidate_of cosmo ∷ candidate_of orion ∷ candidate_of nova ∷ []

-- The rows of a table with this model and revision.
abbrev pub matching : String → String → List Candidate → List Candidate
matching model revision = filter (λ c. str_eq c.model model && str_eq c.revision revision)

-- The candidates with this model and revision.
unfoldable pub matching_candidates : String → String → List Candidate
unfolding candidates
matching_candidates model revision = matching model revision candidates
