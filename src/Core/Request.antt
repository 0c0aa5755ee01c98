-- ===== src/Core/Request.antt =====
-- The request of a Core plan: its fields, the policy they resolve to and the stages of that policy.
use Prim.Native.String.{◌++◌ as ◌⧺◌}
use kova_gpt_models.Common.{
  ℕ, zero, suc, ◌/◌, ◌%◌, String, codes, split_on, replace_code, title, named, is_prefix, str_eq,
  Bool, true, false, Option, none, some, List, [], ◌∷◌, ◌++◌, any, ltb, Result, ok, err,
  value_error, guard, or_fail, ◌>>=◌, ◌>>◌, if◌then◌else◌,
}
use kova_gpt_models.Router.Routes.{
  instant_mode, medium_mode, high_mode, extra_high_mode, max_mode, Route, compat,
}
use kova_gpt_models.Router.Policy.{RoutePolicy, Passes, Request, field, has_keys, resolve_route}
use kova_gpt_models.Contracts.Spec.{Engine, kova_core, kova_ultra}

-- `isinstance(route_id, str) and route_id.startswith("chat:")`
abbrev pub is_canonical : String → Bool
is_canonical id = is_prefix (codes "chat:") (codes id)

abbrev effort_labels : List String
effort_labels = "Light" ∷ "Medium" ∷ "High" ∷ "Extra High" ∷ "Max" ∷ "Ultra" ∷ []

-- The request for `chat:<family>:<effort>`. A part that no table has is refused like `resolve_route`
-- refuses it.
unfoldable pub canonical_request : List (List ℕ) → Result Request
canonical_request (surface ∷ family ∷ effort ∷ []) = do
  f ← or_fail (named ("cosmo" ∷ "orion" ∷ []) family) value_error
  e ← or_fail (named effort_labels (title false (replace_code b'-' b' ' effort))) value_error
  ok (("surface", "chat") ∷ ("family", f) ∷ ("effort", e) ∷ [])
canonical_request _ = err value_error

-- The policy of a route id, as Core and Ultra requests name it.
unfoldable pub resolve_route_id : String → Result RoutePolicy
resolve_route_id id =
    if is_canonical id
    then (canonical_request (split_on b':' (codes id)) >>= resolve_route)
    else resolve_route (("surface", "chat") ∷ ("route_id", id) ∷ [])

abbrev pub has_route_id : Request → Bool
has_route_id = any (λ p. str_eq p.0 "route_id")

abbrev is_core : Engine → Bool
is_core kova_core = true
is_core kova_ultra = false

-- The policy of the fields other than `request_id` and the content, before the check of the engine.
unfoldable pub requested_policy : Request → Result RoutePolicy
requested_policy fields =
    if has_route_id fields
    then (do
      guard (has_keys ("route_id" ∷ []) fields) value_error
      id ← or_fail (field "route_id" fields) value_error
      resolve_route_id id)
    else (do
      guard (has_keys ("surface" ∷ "family" ∷ "effort" ∷ []) fields) value_error
      resolve_route fields)

-- _resolved_policy; the request has its `request_id` and its `messages` beside these fields.
unfoldable pub resolved_policy : Request → Result RoutePolicy
resolved_policy fields = do
  policy ← requested_policy fields
  guard (is_core policy.engine) value_error
  ok policy

-- The kinds of STAGE_INSTRUCTIONS.
pub data StageKind : Type 0 where
  planning_kind answer_kind critic_kind verification_kind : StageKind

unfoldable pub kind_name : StageKind → String
kind_name planning_kind = "planning"
kind_name answer_kind = "answer"
kind_name critic_kind = "critic"
kind_name verification_kind = "verification"

-- The stages of one kind, numbered from 1, after `n`.
abbrev numbered : StageKind → ℕ → ℕ → List (StageKind × ℕ)
numbered k n zero = []
numbered k n (suc count) = (k, suc n) ∷ numbered k (suc n) count

-- _stages
unfoldable pub stages_of : Passes → List (StageKind × ℕ)
stages_of p =
    numbered planning_kind 0 p.planning
    ++ (numbered answer_kind 0 p.answers
        ++ (numbered critic_kind 0 p.critics ++ numbered verification_kind 0 p.verifications))

abbrev digits : List String
digits = "0" ∷ "1" ∷ "2" ∷ "3" ∷ "4" ∷ "5" ∷ "6" ∷ "7" ∷ "8" ∷ "9" ∷ []

abbrev digit_at : List String → ℕ → String
digit_at [] n = ""
digit_at (d ∷ ds) zero = d
digit_at (d ∷ ds) (suc n) = digit_at ds n

-- The decimal numeral of a number; `suc n` digits are more than it has.
unfoldable pub decimal : ℕ → ℕ → String
decimal zero n = ""
decimal (suc fuel) n =
    let rest = decimal fuel (n / 10) in
    if ltb n 10 then digit_at digits n else rest ⧺ digit_at digits (n % 10)

-- `f"{kind}-{index}"`
unfoldable pub stage_key : StageKind × ℕ → String
unfolding kind_name decimal
stage_key (kind, index) = kind_name kind ⧺ ("-" ⧺ decimal (suc index) index)

-- CORE_ROUTE_LIMITS
unfoldable pub core_route_limit : Route → Option ℕ
core_route_limit (compat instant_mode) = some 2048
core_route_limit (compat medium_mode) = some 4096
core_route_limit (compat high_mode) = some 8192
core_route_limit (compat extra_high_mode) = some 16384
core_route_limit (compat max_mode) = some 24576
core_route_limit _ = none

abbrev first_limit : Option ℕ → Option ℕ → Option ℕ
first_limit (some n) other = some n
first_limit none other = other

-- `policy.get("maximum_output_tokens", CORE_ROUTE_LIMITS.get(route_id))`, which has to be positive.
unfoldable pub route_limit : RoutePolicy → Result ℕ
unfolding core_route_limit
route_limit policy = do
  n ← or_fail (first_limit policy.output_tokens (core_route_limit policy.route)) value_error
  guard (ltb 0 n) value_error
  ok n
