-- ===== src/Router/Selected.antt =====
-- What a resolved selection is worth: it is authorised, and its policy is that of its route.
use kova_gpt_models.Common.{
  ◌≡◌, refl, arith, String, str_eq, length, some, eq_refl, ◌∙◌, Bool, true, List, [], ◌∷◌, any, ok,
  Option-cases, Result-cases, ◌⊎◌, inl, inr,
}
use kova_gpt_models.Router.Routes.{
  Tier, free, plus, pro, Surface, chat_surface, work_surface, Effort, ChatMode, instant_mode,
  mode_eq, route_mem,
}
use kova_gpt_models.Router.Policy.{RoutePolicy, Request, field, resolve_route, chat_policy}
use kova_gpt_models.Router.Entitlements.{compat_allowed, chat_allowed, routes_for}
use kova_gpt_models.Router.Auto.{Prompt, Budget, Feature, classify_auto, classify_auto-allowed}
use kova_gpt_models.Contracts.Grant.{ExecutionGrant, no_mode, authorize, within_plan}
use kova_gpt_models.Router.Application.{
  find_alias, ResolvedSelection, family_request, select_family, auto_route, select_auto,
  resolve_application_selection,
}

-- The route of the classifier's mode is in the plan of the tier.
auto_route-within_plan :
    (t : Tier) (m : ChatMode)
    → any (mode_eq m) (compat_allowed t) ≡ true
    → within_plan t (auto_route m) ≡ true
unfolding compat_allowed within_plan auto_route chat_policy chat_allowed routes_for route_mem
auto_route-within_plan free instant_mode h = refl
auto_route-within_plan plus instant_mode h = refl
auto_route-within_plan pro instant_mode h = refl
auto_route-within_plan _ _ h = ground arith

pub select_family-parts :
    (grant : ExecutionGrant) (s : Surface) (value : Request) (sel : ResolvedSelection)
    → select_family grant s value ≡ ok sel
    → (family : String) × (effort : Effort) × (p : RoutePolicy) × (resolve_route
          (family_request s family effort)
        ≡ ok p)
      × (authorize grant grant.owner_id p.route no_mode ≡ ok tt)
      × (sel.selected_route ≡ p.route)
      × (sel.selected_surface ≡ s)
unfolding select_family
select_family-parts grant s value sel h = elim (Option-cases (field "family" value)) [
  | inl no_family ↦ absurd (ground arith)
  | inr (family, named) ↦ elim (Option-cases (field "effort" value)) [
    | inl no_effort ↦ absurd (ground arith)
    | inr (label, labelled) ↦ elim (Option-cases (find_alias label)) [
      | inl unknown ↦ absurd (ground arith)
      | inr (effort, alias) ↦ elim (Result-cases (resolve_route (family_request s family effort))) [
        | inl (p, resolved) ↦
            (family, effort, p, resolved, ground arith, ground arith, ground arith)
        | inr (e, refused) ↦ absurd (ground arith)
      ]
    ]
  ]
]

pub select_auto-parts :
    (grant : ExecutionGrant) (prompt : Prompt) (budget : Budget) (enabled : Bool) (value : Request)
    (sel : ResolvedSelection)
    → select_auto grant prompt budget enabled value ≡ ok sel
    → (m : ChatMode) × (fs : List Feature) × (classify_auto prompt grant.tier budget ≡ ok (m, fs))
      × (authorize grant grant.owner_id (auto_route m) no_mode ≡ ok tt)
      × (sel.selected_route ≡ auto_route m)
      × (sel.selected_surface ≡ chat_surface)
      × (enabled ≡ true)
unfolding select_auto
select_auto-parts grant prompt budget enabled value sel h =
    elim (Result-cases (classify_auto prompt grant.tier budget)) [
      | inl ((m, fs), classified) ↦
          (m, fs, classified, ground arith, ground arith, ground arith, ground arith)
      | inr (e, refused) ↦ absurd (ground arith)
    ]

pub selection_branches :
    (value : Request) (grant : ExecutionGrant) (prompt : Prompt) (budget : Budget) (enabled : Bool)
    (sel : ResolvedSelection)
    → resolve_application_selection value grant prompt budget enabled ≡ ok sel
    → (select_family grant chat_surface value ≡ ok sel)
      ⊎ ((select_auto grant prompt budget enabled value ≡ ok sel)
          ⊎ (select_family grant work_surface value ≡ ok sel))
unfolding resolve_application_selection
selection_branches value grant prompt budget enabled sel h = ground arith

family-allowed :
    (grant : ExecutionGrant) (s : Surface) (value : Request) (sel : ResolvedSelection)
    → select_family grant s value ≡ ok sel
    → authorize grant grant.owner_id sel.selected_route no_mode ≡ ok tt
family-allowed grant s value sel h =
    let (family, effort, p, _, allowed, same, _) = select_family-parts grant s value sel h in
    rw same allowed

selection-allowed :
    (value : Request) (grant : ExecutionGrant) (prompt : Prompt) (budget : Budget) (enabled : Bool)
    (sel : ResolvedSelection)
    → resolve_application_selection value grant prompt budget enabled ≡ ok sel
    → authorize grant grant.owner_id sel.selected_route no_mode ≡ ok tt
selection-allowed value grant prompt budget enabled sel h =
    elim (selection_branches value grant prompt budget enabled sel h) [
      | inl c ↦ family-allowed grant chat_surface value sel c
      | inr (inl a) ↦
          let (m, fs, _, allowed, same, _, _) =
            select_auto-parts grant prompt budget enabled value sel a in
          rw same allowed
      | inr (inr w) ↦ family-allowed grant work_surface value sel w
    ]

-- A resolved selection is authorised: the grant lets its owner execute, lists the route and has it in
-- its plan.
pub resolve_application_selection-authorized :
    (value : Request) (grant : ExecutionGrant) (prompt : Prompt) (budget : Budget) (enabled : Bool)
    (sel : ResolvedSelection)
    → resolve_application_selection value grant prompt budget enabled ≡ ok sel
    → (authorize grant grant.owner_id sel.selected_route no_mode ≡ ok tt)
      × (grant.execution_authorized ≡ true)
      × (route_mem sel.selected_route grant.allowed_routes ≡ true)
      × (within_plan grant.tier sel.selected_route ≡ true)
resolve_application_selection-authorized value grant prompt budget enabled sel h =
    let allowed = selection-allowed value grant prompt budget enabled sel h in
    (
      allowed,
      (unfold authorize in ground arith),
      (unfold authorize in ground arith),
      unfold authorize in ground arith,
    )

auto_authorized :
    (grant : ExecutionGrant) (m : ChatMode)
    → grant.execution_authorized ≡ true
    → route_mem (auto_route m) grant.allowed_routes ≡ true
    → within_plan grant.tier (auto_route m) ≡ true
    → authorize grant grant.owner_id (auto_route m) no_mode ≡ ok tt
unfolding authorize auto_route
auto_authorized grant m a b c = ground (arith, eq_refl grant.owner_id)

-- The branch of Auto, once its route is authorised.
auto-selected :
    (value : Request) (mode : String) (grant : ExecutionGrant) (prompt : Prompt) (budget : Budget)
    (m : ChatMode) (fs : List Feature)
    → field "mode_id" value ≡ some mode
    → (mode ≡ "auto") ⊎ (mode ≡ "kova-auto")
    → classify_auto prompt grant.tier budget ≡ ok (m, fs)
    → authorize grant grant.owner_id (auto_route m) no_mode ≡ ok tt
    → select_auto grant prompt budget true value
      ≡ ok (record {
        selected_route = auto_route m;
        selected_surface = chat_surface;
        selected_by_auto = true;
        feature_ids = fs;
      })
unfolding select_auto
auto-selected value mode grant prompt budget m fs named (inl name) classified granted =
    rw (named, name, classified, granted) refl
auto-selected value mode grant prompt budget m fs named (inr name) classified granted =
    rw (named, name, classified, granted) refl

field-has_field :
    (k v : String) (r : Request) → field k r ≡ some v → any (λ p. str_eq p.0 k) r ≡ true
field-has_field k v [] h = cc
field-has_field k v (p ∷ r) h = ground (arith, field-has_field k v r)

-- A selection has the schema version, the surface Chat and the mode, and no other field.
abbrev pub IsModeSelection : Request → String → Type 0
IsModeSelection value mode =
    (length value ≡ 3)
    × (field "schema_version" value ≡ some "kova-models.v2")
    × (field "surface" value ≡ some "chat")
    × (field "mode_id" value ≡ some mode)

-- Such a selection reaches the branch of Auto.
mode_selection-branch :
    (value : Request) (mode : String) (grant : ExecutionGrant) (prompt : Prompt) (budget : Budget)
    → IsModeSelection value mode
    → grant.execution_authorized ≡ true
    → resolve_application_selection value grant prompt budget true
      ≡ select_auto grant prompt budget true value
unfolding resolve_application_selection
mode_selection-branch value mode grant prompt budget (size, version, surface, named) authorized =
    let has_version = field-has_field "schema_version" "kova-models.v2" value version in
    let has_surface = field-has_field "surface" "chat" value surface in
    let has_mode = field-has_field "mode_id" mode value named in
    rw (version, surface, size, has_version, has_surface, has_mode, authorized) refl

-- A selection of Auto by either of its two names, with no other field, by a server that has enabled
-- it and whose prompt the classifier accepts, is refused only for a route that the grant does not
-- list: with the canonical route of the chosen mode among the routes of an authorised grant, the plan
-- of the tier never refuses it, and the selection is that route with the features of the classifier.
pub resolve_application_selection-auto :
    (value : Request) (mode : String) (grant : ExecutionGrant) (prompt : Prompt) (budget : Budget)
    (m : ChatMode) (fs : List Feature)
    → IsModeSelection value mode
    → (mode ≡ "auto") ⊎ (mode ≡ "kova-auto")
    → grant.execution_authorized ≡ true
    → classify_auto prompt grant.tier budget ≡ ok (m, fs)
    → route_mem (auto_route m) grant.allowed_routes ≡ true
    → resolve_application_selection value grant prompt budget true
      ≡ ok (record {
        selected_route = auto_route m;
        selected_surface = chat_surface;
        selected_by_auto = true;
        feature_ids = fs;
      })
resolve_application_selection-auto value mode grant prompt budget m fs shape name authorized
      classified listed =
    let allowed = classify_auto-allowed prompt grant.tier budget m fs classified in
    let granted =
      auto_authorized grant m authorized listed (auto_route-within_plan grant.tier m allowed) in
    mode_selection-branch value mode grant prompt budget shape authorized
    ∙ auto-selected value mode grant prompt budget m fs shape.3 name classified granted
