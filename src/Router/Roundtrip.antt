-- ===== src/Router/Roundtrip.antt =====
-- The policy that a resolved selection gives again is the policy of its route.
use kova_gpt_models.Common.{
  ◌≡◌, refl, sym, ap, ◌∙◌, arith, String, eq_iff, Bool, true, some, ok, Option-cases, inl, inr,
}
use kova_gpt_models.Router.Routes.{
  Surface, chat_surface, work_surface, Family, cosmo, orion, nova, Effort, light, ChatMode,
  instant_mode, medium_mode, high_mode, extra_high_mode, max_mode, ultra_mode, Route, chat, work,
}
use kova_gpt_models.Router.Policy.{
  RoutePolicy, Request, find_family, family_key, find_effort, effort_label, resolve_route,
  resolve_family, forbidden_fields, chat_activity, family_policy, bound_runtime, chat_policy,
  mode_effort, work_effort, runtime_profile,
}
use kova_gpt_models.Router.Auto.{Prompt, Budget}
use kova_gpt_models.Contracts.Grant.{ExecutionGrant}
use kova_gpt_models.Router.Application.{
  ResolvedSelection, family_request, select_family, auto_route, resolve_application_selection,
  effort_aliases, find_alias, effort_key, route_id, split_colon, policy_for, selection_policy,
  families_of,
}
use kova_gpt_models.Router.Selected.{select_family-parts, select_auto-parts, selection_branches}

abbrev route_on : Surface → Family → Effort → Route
route_on chat_surface = chat
route_on work_surface = work

abbrev activity_on : Surface → Effort → Bool
activity_on chat_surface e = chat_activity e
activity_on work_surface e = true

-- The request of a family reaches the branch of its surface.
family_request-branch :
    (s : Surface) (family : String) (e : Effort)
    → resolve_route (family_request s family e)
      ≡ resolve_family s (route_on s) (families_of s) (activity_on s) (family_request s family e)
unfolding resolve_route forbidden_fields
family_request-branch chat_surface family e = refl
family_request-branch work_surface family e = refl

find_effort-label : (e d : Effort) → find_effort (effort_label e) ≡ some d → e ≡ d
unfolding find_effort effort_label
find_effort-label light d h = ground arith
find_effort-label _ d h = ground arith

find_family-key :
    (s : Surface) (name : String) (f : Family)
    → find_family (families_of s) name ≡ some f
    → family_key f ≡ name
unfolding find_family family_key
find_family-key chat_surface name f h = ground (arith, eq_iff "cosmo" name, eq_iff "orion" name)
find_family-key work_surface name f h =
    ground (arith, eq_iff "cosmo" name, eq_iff "orion" name, eq_iff "nova" name)

bound-route :
    (s : Surface) (r : Route) (f : Family) (e : Effort) (a : Bool) (p : RoutePolicy)
    → bound_runtime (family_policy s r f e a) e ≡ ok p
    → p.route ≡ r
unfolding bound_runtime
bound-route s r f e a p h = ground arith

-- The text of a route spells its family and its effort, by the names that the request is read with.
Spells : Surface → Family → Effort → Type 0
Spells s f e =
    policy_for s (route_id (route_on s f e)) ≡ resolve_route (family_request s (family_key f) e)

chat-Spells : (f : Family) (e : Effort) → Spells chat_surface f e
unfolding Spells policy_for route_id effort_key find_alias effort_aliases split_colon family_key
chat-Spells cosmo light = refl
chat-Spells orion light = refl
chat-Spells nova light = refl
chat-Spells cosmo _ = refl
chat-Spells orion _ = refl
chat-Spells nova _ = refl

work-Spells : (f : Family) (e : Effort) → Spells work_surface f e
unfolding Spells policy_for route_id effort_key find_alias effort_aliases split_colon family_key
work-Spells cosmo light = refl
work-Spells orion light = refl
work-Spells nova light = refl
work-Spells cosmo _ = refl
work-Spells orion _ = refl
work-Spells nova _ = refl

policy_for-route :
    (s : Surface) (f : Family) (e : Effort)
    → policy_for s (route_id (route_on s f e)) ≡ resolve_route (family_request s (family_key f) e)
unfolding Spells
policy_for-route chat_surface f e = chat-Spells f e
policy_for-route work_surface f e = work-Spells f e

find_effort_self : (e : Effort) → find_effort (effort_label e) ≡ some e
unfolding find_effort effort_label
find_effort_self light = refl
find_effort_self _ = refl

-- The family and the policy of a request that its branch accepts.
family_named :
    (s : Surface) (family : String) (e : Effort) (p : RoutePolicy)
    → resolve_family s (route_on s) (families_of s) (activity_on s) (family_request s family e)
      ≡ ok p
    → (f : Family) × (find_family (families_of s) family ≡ some f)
      × (bound_runtime (family_policy s (route_on s f e) f e (activity_on s e)) e ≡ ok p)
unfolding resolve_family
family_named s family e p h = elim (Option-cases (find_family (families_of s) family)) [
  | inl unknown ↦ absurd (ground arith)
  | inr (f, found) ↦ let label = find_effort_self e in (f, found, ground arith)
]

-- The route that a family and an effort resolve to resolves again, to the same policy.
family_again :
    (s : Surface) (family : String) (e : Effort) (p : RoutePolicy)
    → resolve_route (family_request s family e) ≡ ok p
    → policy_for s (route_id p.route) ≡ ok p
family_again s family e p h =
    let branch = sym (family_request-branch s family e) ∙ h in
    let (f, found, bounded) = family_named s family e p branch in
    let route = bound-route s (route_on s f e) f e (activity_on s e) p bounded in
    ap (λ r. policy_for s (route_id r)) route
    ∙ policy_for-route s f e
    ∙ ap (λ n. resolve_route (family_request s n e)) (find_family-key s family f found)
    ∙ h

abbrev auto_policy : ChatMode → RoutePolicy
auto_policy m =
    let f = (chat_policy m).profile in
    let e = mode_effort m in family_policy chat_surface (chat f e) f e (chat_activity e)

auto_again :
    (m : ChatMode)
    → (p : RoutePolicy) × (policy_for chat_surface (route_id (auto_route m)) ≡ ok p)
      × (p.route ≡ auto_route m)
unfolding policy_for route_id effort_key find_alias effort_aliases split_colon auto_route
    chat_policy resolve_route resolve_family forbidden_fields find_family find_effort effort_label
    family_key bound_runtime work_effort runtime_profile
auto_again instant_mode = (auto_policy instant_mode, refl, refl)
auto_again medium_mode = (auto_policy medium_mode, refl, refl)
auto_again high_mode = (auto_policy high_mode, refl, refl)
auto_again extra_high_mode = (auto_policy extra_high_mode, refl, refl)
auto_again max_mode = (auto_policy max_mode, refl, refl)
auto_again ultra_mode = (auto_policy ultra_mode, refl, refl)

family_selection :
    (grant : ExecutionGrant) (s : Surface) (value : Request) (sel : ResolvedSelection)
    → select_family grant s value ≡ ok sel
    → (p : RoutePolicy) × (selection_policy sel ≡ ok p) × (p.route ≡ sel.selected_route)
family_selection grant s value sel h =
    let (family, e, p, resolved, _, route, surface) = select_family-parts grant s value sel h in
    (p, rw (route, surface) (family_again s family e p resolved), sym route)

-- The metadata of a resolved selection come from the policy of its own route: taking the text of its
-- route id apart and resolving it again on the surface of the selection is accepted, and gives a
-- policy of that same route.
pub selection_policy-resolve_application_selection :
    (value : Request) (grant : ExecutionGrant) (prompt : Prompt) (budget : Budget) (enabled : Bool)
    (sel : ResolvedSelection)
    → resolve_application_selection value grant prompt budget enabled ≡ ok sel
    → (p : RoutePolicy) × (selection_policy sel ≡ ok p) × (p.route ≡ sel.selected_route)
selection_policy-resolve_application_selection value grant prompt budget enabled sel h =
    elim (selection_branches value grant prompt budget enabled sel h) [
      | inl c ↦ family_selection grant chat_surface value sel c
      | inr (inl a) ↦
          let (m, fs, _, _, route, surface, _) =
            select_auto-parts grant prompt budget enabled value sel a in
          let (p, again, same) = auto_again m in (p, rw (route, surface) again, rw route same)
      | inr (inr w) ↦ family_selection grant work_surface value sel w
    ]
