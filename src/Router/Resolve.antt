-- ===== src/Router/Resolve.antt =====
-- What `resolve_route` resolves to, and which routes it reaches.
use kova_gpt_models.Common.{
  ℕ, ◌≤◌, ◌≡◌, refl, String, Bool, true, false, Option, none, some, List, [], ◌∷◌, Result, ok, err,
  arith, ◌⊎◌, inl, inr, Option-cases,
}
use kova_gpt_models.Router.Routes.{
  Surface, chat_surface, work_surface, Family, cosmo, orion, nova, Effort, light, ChatMode,
  instant_mode, Route, compat, chat, work, route_mem, route_eq,
}
use kova_gpt_models.Contracts.Spec.{Engine, kova_core, kova_ultra}
use kova_gpt_models.Contracts.Grant.{all_routes}
use kova_gpt_models.Router.Policy.{
  RoutePolicy, Passes, pass_sum, runtime_profile, Request, field, resolve_route, resolve_alias,
  resolve_family, find_family, find_effort, find_mode, family_key, effort_label, mode_key,
  bound_runtime, chat_policy, work_effort, mode_effort, is_ultra_effort, forbidden_fields,
  chat_activity, family_policy,
}

-- The effort whose runtime profile bounds a route.
abbrev pub route_effort : Route → Effort
route_effort (compat m) = mode_effort m
route_effort (chat f e) = e
route_effort (work f e) = e

-- The passes that the tables give a route.
abbrev pub route_passes : Route → Option Passes
route_passes (compat m) = (chat_policy m).passes
route_passes (chat f e) = (work_effort e).effort_passes
route_passes (work f e) = (work_effort e).effort_passes

abbrev pass_total : Option Passes → ℕ
pass_total none = 0
pass_total (some p) = pass_sum p

abbrev ultra_engine : Engine → Bool
ultra_engine kova_core = false
ultra_engine kova_ultra = true

-- A policy that fits its route: a known route, the output bound of its profile, the passes of the
-- tables and no more than the profile has, and the Ultra engine with its judge and synthesis for Ultra effort alone.
pub record Fits (p : RoutePolicy) : Type 0 where
  pub known : route_mem p.route all_routes ≡ true
  pub tokens : p.output_tokens ≡ some (runtime_profile (route_effort p.route)).profile_output_tokens
  pub passes_known : p.passes ≡ route_passes p.route
  pub passes_bounded : pass_total p.passes ≤ (runtime_profile (route_effort p.route)).maximum_passes
  pub engine_by_effort : ultra_engine p.engine ≡ is_ultra_effort (route_effort p.route)
  pub judged : p.judge ≡ is_ultra_effort (route_effort p.route)
  pub synthesised : p.synthesis ≡ is_ultra_effort (route_effort p.route)

alias-Fits :
    (m : ChatMode) (p : RoutePolicy) → bound_runtime (chat_policy m) (mode_effort m) ≡ ok p → Fits p
unfolding bound_runtime chat_policy runtime_profile all_routes route_mem
alias-Fits instant_mode p h = ground arith
alias-Fits _ p h = ground arith

abbrev has_chat : Family → Bool
has_chat nova = false
has_chat _ = true

find_family-chat :
    (s : String) (f : Family) → find_family (cosmo ∷ orion ∷ []) s ≡ some f → has_chat f ≡ true
unfolding find_family
find_family-chat s f h = ground arith

chat-Fits :
    (f : Family) (e : Effort) (p : RoutePolicy)
    → has_chat f ≡ true
    → bound_runtime (family_policy chat_surface (chat f e) f e (chat_activity e)) e ≡ ok p
    → Fits p
unfolding bound_runtime work_effort runtime_profile all_routes route_mem
chat-Fits cosmo light p k h = ground arith
chat-Fits _ _ p k h = ground arith

work-Fits :
    (f : Family) (e : Effort) (p : RoutePolicy)
    → bound_runtime (family_policy work_surface (work f e) f e true) e ≡ ok p
    → Fits p
unfolding bound_runtime work_effort runtime_profile all_routes route_mem
work-Fits cosmo light p h = ground arith
work-Fits _ _ p h = ground arith

alias_mode :
    (r : Request) (p : RoutePolicy)
    → resolve_alias r ≡ ok p
    → (m : ChatMode) × (bound_runtime (chat_policy m) (mode_effort m) ≡ ok p)
unfolding resolve_alias
alias_mode r p h = elim (Option-cases (field "route_id" r)) [
  | inl no_id ↦ absurd (ground arith)
  | inr (id, named) ↦ elim (Option-cases (find_mode id)) [
    | inl unknown ↦ absurd (ground arith)
    | inr (m, mode) ↦ (m, ground arith)
  ]
]

family_parts :
    (s : Surface) (route : Family → Effort → Route) (families : List Family)
    (activity : Effort → Bool) (r : Request) (p : RoutePolicy)
    → resolve_family s route families activity r ≡ ok p
    → (name : String) × (f : Family) × (e : Effort) × (find_family families name ≡ some f)
      × (bound_runtime (family_policy s (route f e) f e (activity e)) e ≡ ok p)
unfolding resolve_family
family_parts s route families activity r p h = elim (Option-cases (field "family" r)) [
  | inl no_name ↦ absurd (ground arith)
  | inr (name, named) ↦ elim (Option-cases (find_family families name)) [
    | inl unknown ↦ absurd (ground arith)
    | inr (f, found) ↦ elim (Option-cases (field "effort" r)) [
      | inl no_label ↦ absurd (ground arith)
      | inr (label, labelled) ↦ elim (Option-cases (find_effort label)) [
        | inl unlisted ↦ absurd (ground arith)
        | inr (e, effort) ↦ (name, f, e, found, ground arith)
      ]
    ]
  ]
]

resolve_branches :
    (r : Request) (p : RoutePolicy)
    → resolve_route r ≡ ok p
    → (resolve_alias r ≡ ok p)
      ⊎ ((resolve_family chat_surface chat (cosmo ∷ orion ∷ []) chat_activity r ≡ ok p)
          ⊎ (resolve_family work_surface work (cosmo ∷ orion ∷ nova ∷ []) (λ _. true) r ≡ ok p))
unfolding resolve_route
resolve_branches r p h = ground arith

resolve_alias-Fits : (r : Request) (p : RoutePolicy) → resolve_alias r ≡ ok p → Fits p
resolve_alias-Fits r p h = let (m, b) = alias_mode r p h in alias-Fits m p b

resolve_chat-Fits :
    (r : Request) (p : RoutePolicy)
    → resolve_family chat_surface chat (cosmo ∷ orion ∷ []) chat_activity r ≡ ok p
    → Fits p
resolve_chat-Fits r p h =
    let (s, f, e, found, b) =
      family_parts chat_surface chat (cosmo ∷ orion ∷ []) chat_activity r p h in
    chat-Fits f e p (find_family-chat s f found) b

resolve_work-Fits :
    (r : Request) (p : RoutePolicy)
    → resolve_family work_surface work (cosmo ∷ orion ∷ nova ∷ []) (λ _. true) r ≡ ok p
    → Fits p
resolve_work-Fits r p h =
    let (s, f, e, found, b) =
      family_parts work_surface work (cosmo ∷ orion ∷ nova ∷ []) (λ _. true) r p h in
    work-Fits f e p b

-- A resolved policy is of a known route and fits the runtime profile of its effort: the output
-- bound of the profile, the passes of the tables, at most as many as the profile has, and the Ultra engine, the judge and the synthesis
-- exactly for Ultra effort.
pub resolve_route-Fits : (r : Request) (p : RoutePolicy) → resolve_route r ≡ ok p → Fits p
resolve_route-Fits r p h = elim (resolve_branches r p h) [
  | inl a ↦ resolve_alias-Fits r p a
  | inr (inl c) ↦ resolve_chat-Fits r p c
  | inr (inr w) ↦ resolve_work-Fits r p w
]

-- The request for a route.
abbrev pub request_for : Route → Request
request_for (compat m) = ("surface", "chat") ∷ ("route_id", mode_key m) ∷ []
request_for (chat f e) =
    ("surface", "chat") ∷ ("family", family_key f) ∷ ("effort", effort_label e) ∷ []
request_for (work f e) =
    ("surface", "work") ∷ ("family", family_key f) ∷ ("effort", effort_label e) ∷ []

abbrev pub resolves_to : Route → Result RoutePolicy → Bool
resolves_to r (err e) = false
resolves_to r (ok p) = route_eq p.route r

-- Every known route is reached, by the request that names it.
pub resolve_route_complete :
    (r : Route)
    → route_mem r all_routes ≡ true
    → resolves_to r (resolve_route (request_for r)) ≡ true
unfolding resolve_route resolve_alias resolve_family chat_policy work_effort find_mode find_family
    find_effort bound_runtime forbidden_fields runtime_profile all_routes route_mem family_key
    effort_label mode_key
resolve_route_complete (compat instant_mode) h = refl
resolve_route_complete (compat _) h = refl
resolve_route_complete (chat cosmo light) h = refl
resolve_route_complete (chat orion light) h = refl
resolve_route_complete (chat nova _) h = absurd (ground arith)
resolve_route_complete (chat _ _) h = refl
resolve_route_complete (work cosmo light) h = refl
resolve_route_complete (work orion light) h = refl
resolve_route_complete (work nova light) h = refl
resolve_route_complete (work _ _) h = refl
