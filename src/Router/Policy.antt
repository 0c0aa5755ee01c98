-- ===== src/Router/Policy.antt =====
-- router/policy.py: the compute policy of a route, with config/kova-runtime-profiles.v1.json.
-- A request is its list of fields, with text values; a value of another type is in none of the
-- tables. The texts of behaviour instructions are left out.
use kova_gpt_models.Common.{
  ℕ, ◌+◌, String, str_eq, Bool, true, false, ◌&&◌, not, Option, none, some, List, [], ◌∷◌, find,
  any, all, length, leb, ◌==◌, Result, ok, value_error, guard, or_fail, ◌>>=◌, ◌>>◌, if◌then◌else◌,
}
use kova_gpt_models.Router.Routes.{
  Surface, chat_surface, work_surface, Family, cosmo, orion, nova, Effort, light, medium, high,
  extra_high, max, ultra, ChatMode, instant_mode, medium_mode, high_mode, extra_high_mode, max_mode,
  ultra_mode, Route, compat, chat, work,
}
use kova_gpt_models.Contracts.Spec.{Engine, kova_core, kova_ultra}

pub data Reasoning : Type 0 where
  low_reasoning medium_reasoning xhigh_reasoning : Reasoning

-- Planning, answer, critic and verification passes.
pub record Passes : Type 0 where
  pub planning : ℕ
  pub answers : ℕ
  pub critics : ℕ
  pub verifications : ℕ

abbrev pub pass_sum : Passes → ℕ
pass_sum p = p.planning + p.answers + p.critics + p.verifications

abbrev passes_of : ℕ → ℕ → ℕ → ℕ → Option Passes
passes_of a b c d = some (record { planning = a; answers = b; critics = c; verifications = d })

pub record Profile : Type 0 where
  pub profile_output_tokens : ℕ
  pub maximum_passes : ℕ

-- RUNTIME_PROFILES
unfoldable pub runtime_profile : Effort → Profile
runtime_profile light = record { profile_output_tokens = 2048; maximum_passes = 1 }
runtime_profile medium = record { profile_output_tokens = 4096; maximum_passes = 3 }
runtime_profile high = record { profile_output_tokens = 8192; maximum_passes = 5 }
runtime_profile extra_high = record { profile_output_tokens = 16384; maximum_passes = 9 }
runtime_profile max = record { profile_output_tokens = 24576; maximum_passes = 11 }
runtime_profile ultra = record { profile_output_tokens = 32768; maximum_passes = 10 }

-- RUNTIME_PROFILES["ultra"]["maximum_specialists"]
abbrev pub maximum_specialists : ℕ
maximum_specialists = 5

-- A policy; a field that the source leaves out is `none` or `false`.
pub record RoutePolicy : Type 0 where
  pub surface : Surface
  pub route : Route
  pub profile : Family
  pub engine : Engine
  pub reasoning : Reasoning
  pub passes : Option Passes
  pub output_tokens : Option ℕ
  pub thinking : Option Bool
  pub activity_updates : Bool
  pub judge : Bool
  pub synthesis : Bool
  pub compatibility_alias : Bool

abbrev compat_policy :
    ChatMode → Engine → Family → Reasoning → Option Passes → Bool → Option Bool → Bool → RoutePolicy
compat_policy m e f r p activity thinking judged = record {
  surface = chat_surface;
  route = compat m;
  profile = f;
  engine = e;
  reasoning = r;
  passes = p;
  output_tokens = none;
  thinking = thinking;
  activity_updates = activity;
  judge = judged;
  synthesis = judged;
  compatibility_alias = true;
}

-- CHAT_POLICIES
unfoldable pub chat_policy : ChatMode → RoutePolicy
chat_policy instant_mode =
    compat_policy instant_mode kova_core cosmo low_reasoning (passes_of 0 1 0 0) false (some false)
      false
chat_policy medium_mode =
    compat_policy medium_mode kova_core orion medium_reasoning (passes_of 1 1 0 1) false (some true)
      false
chat_policy high_mode =
    compat_policy high_mode kova_core orion xhigh_reasoning (passes_of 1 1 1 1) true (some true)
      false
chat_policy extra_high_mode =
    compat_policy extra_high_mode kova_core orion xhigh_reasoning (passes_of 2 2 2 2) true
      (some true) false
chat_policy max_mode =
    compat_policy max_mode kova_core orion xhigh_reasoning (passes_of 2 3 2 3) true (some true)
      false
chat_policy ultra_mode =
    compat_policy ultra_mode kova_ultra orion xhigh_reasoning none true none true

pub record EffortPolicy : Type 0 where
  pub effort_reasoning : Reasoning
  pub effort_passes : Option Passes
  pub effort_tokens : ℕ
  pub effort_thinking : Bool

-- WORK_EFFORTS
unfoldable pub work_effort : Effort → EffortPolicy
work_effort light = record {
  effort_reasoning = low_reasoning;
  effort_passes = passes_of 0 1 0 0;
  effort_tokens = 2048;
  effort_thinking = false;
}
work_effort medium = record {
  effort_reasoning = medium_reasoning;
  effort_passes = passes_of 1 1 0 1;
  effort_tokens = 4096;
  effort_thinking = true;
}
work_effort high = record {
  effort_reasoning = xhigh_reasoning;
  effort_passes = passes_of 1 2 1 1;
  effort_tokens = 8192;
  effort_thinking = true;
}
work_effort extra_high = record {
  effort_reasoning = xhigh_reasoning;
  effort_passes = passes_of 2 3 2 2;
  effort_tokens = 16384;
  effort_thinking = true;
}
work_effort max = record {
  effort_reasoning = xhigh_reasoning;
  effort_passes = passes_of 2 4 2 3;
  effort_tokens = 24576;
  effort_thinking = true;
}
work_effort ultra = record {
  effort_reasoning = xhigh_reasoning;
  effort_passes = none;
  effort_tokens = 32768;
  effort_thinking = true;
}

-- `family in …`, `effort in WORK_EFFORTS`, `route_id in CHAT_POLICIES`, by the keys of the tables.
unfoldable pub family_key : Family → String
family_key cosmo = "cosmo"
family_key orion = "orion"
family_key nova = "nova"

unfoldable pub effort_label : Effort → String
effort_label light = "Light"
effort_label medium = "Medium"
effort_label high = "High"
effort_label extra_high = "Extra High"
effort_label max = "Max"
effort_label ultra = "Ultra"

unfoldable pub mode_key : ChatMode → String
mode_key instant_mode = "instant"
mode_key medium_mode = "medium"
mode_key high_mode = "high"
mode_key extra_high_mode = "extra-high"
mode_key max_mode = "max"
mode_key ultra_mode = "ultra"

unfoldable pub find_family : List Family → String → Option Family
unfolding family_key
find_family fs s = find (λ f. str_eq (family_key f) s) fs

unfoldable pub find_effort : String → Option Effort
unfolding effort_label
find_effort s =
    find (λ e. str_eq (effort_label e) s) (light ∷ medium ∷ high ∷ extra_high ∷ max ∷ ultra ∷ [])

unfoldable pub find_mode : String → Option ChatMode
unfolding mode_key
find_mode s =
    find (λ m. str_eq (mode_key m) s)
      (instant_mode ∷ medium_mode ∷ high_mode ∷ extra_high_mode ∷ max_mode ∷ ultra_mode ∷ [])

abbrev pub Request : Type 0
Request = List (String × String)

abbrev pub field : String → Request → Option String
field k [] = none
field k ((j, v) ∷ r) = if str_eq j k then some v else field k r

abbrev has_field : Request → String → Bool
has_field r k = any (λ p. str_eq p.0 k) r

-- `set(request) == keys`; the keys of a dictionary are distinct.
abbrev pub has_keys : List String → Request → Bool
has_keys ks r = length r == length ks && all (has_field r) ks

-- FORBIDDEN_FIELDS
unfoldable pub forbidden_fields : List String
forbidden_fields =
    "model" ∷ "provider" ∷ "engine" ∷ "reasoning_effort" ∷ "planning_passes" ∷ "answer_passes"
    ∷ "critic_passes" ∷ "verification_passes" ∷ "dynamic_agent_maximum" ∷ "behavior_contract_id"
    ∷ "behavior_instruction" ∷ "display_name" ∷ "family_display_name" ∷ []

abbrev tokens_or : ℕ → Option ℕ → ℕ
tokens_or d none = d
tokens_or d (some n) = n

abbrev passes_fit : Profile → Option Passes → Bool
passes_fit p none = true
passes_fit p (some q) = leb (pass_sum q) p.maximum_passes

-- _bound_runtime
unfoldable pub bound_runtime : RoutePolicy → Effort → Result RoutePolicy
unfolding runtime_profile
bound_runtime policy effort = do
  let profile = runtime_profile effort
  let tokens = tokens_or profile.profile_output_tokens policy.output_tokens
  guard (leb tokens profile.profile_output_tokens) value_error
  guard (passes_fit profile policy.passes) value_error
  ok (record policy { output_tokens = some tokens })

-- The profile that bounds a compatibility mode.
abbrev pub mode_effort : ChatMode → Effort
mode_effort instant_mode = light
mode_effort medium_mode = medium
mode_effort high_mode = high
mode_effort extra_high_mode = extra_high
mode_effort max_mode = max
mode_effort ultra_mode = ultra

abbrev pub is_ultra_effort : Effort → Bool
is_ultra_effort ultra = true
is_ultra_effort _ = false

abbrev pub chat_activity : Effort → Bool
chat_activity light = false
chat_activity medium = false
chat_activity _ = true

-- The policy of a family and an effort, on either surface.
abbrev pub family_policy : Surface → Route → Family → Effort → Bool → RoutePolicy
family_policy s r f e activity =
    let w = work_effort e in
    record {
      surface = s;
      route = r;
      profile = f;
      engine = if is_ultra_effort e then kova_ultra else kova_core;
      reasoning = w.effort_reasoning;
      passes = w.effort_passes;
      output_tokens = some w.effort_tokens;
      thinking = some w.effort_thinking;
      activity_updates = activity;
      judge = is_ultra_effort e;
      synthesis = is_ultra_effort e;
      compatibility_alias = false;
    }

-- The branch of a compatibility alias.
unfoldable pub resolve_alias : Request → Result RoutePolicy
resolve_alias request = do
  id ← or_fail (field "route_id" request) value_error
  guard (not (str_eq id "kova-auto")) value_error
  mode ← or_fail (find_mode id) value_error
  bound_runtime (chat_policy mode) (mode_effort mode)

-- The branches of a family and an effort.
unfoldable pub resolve_family :
    Surface
    → (Family → Effort → Route)
    → List Family
    → (Effort → Bool)
    → Request
    → Result RoutePolicy
resolve_family s route families activity request = do
  guard (has_keys ("surface" ∷ "family" ∷ "effort" ∷ []) request) value_error
  name ← or_fail (field "family" request) value_error
  f ← or_fail (find_family families name) value_error
  label ← or_fail (field "effort" request) value_error
  e ← or_fail (find_effort label) value_error
  bound_runtime (family_policy s (route f e) f e (activity e)) e

-- resolve_route
unfoldable pub resolve_route : Request → Result RoutePolicy
resolve_route request = do
  guard (not (any (has_field request) forbidden_fields)) value_error
  surface ← or_fail (field "surface" request) value_error
  if str_eq surface "chat"
      then (if has_keys ("surface" ∷ "route_id" ∷ []) request
          then resolve_alias request
          else resolve_family chat_surface chat (cosmo ∷ orion ∷ []) chat_activity request)
      else (do
        guard (str_eq surface "work") value_error
        resolve_family work_surface work (cosmo ∷ orion ∷ nova ∷ []) (λ _. true) request)
