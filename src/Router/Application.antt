-- ===== src/Router/Application.antt =====
-- router/application.py: a versioned selection resolved under the grant of the server. The selection is
-- its list of fields, with text values; a value of another type is in none of the tables.
use Prim.Native.Char.{Char, code}
use Prim.Native.String.{◌++◌ as ◌⧺◌}
use kova_gpt_models.Common.{
  String, str_eq, codes, is_prefix, ◌==◌, key_error, Bool, true, false, ◌||◌, not, is_none, Option,
  List, [], ◌∷◌, any, find, Result, ok, err, value_error, execution_error, blocked,
  legacy_selection, guard, or_fail, ◌>>=◌, ◌>>◌, if◌then◌else◌,
}
use kova_gpt_models.Router.Routes.{
  Surface, chat_surface, work_surface, Family, cosmo, orion, nova, Effort, light, medium, high,
  extra_high, max, ultra, ChatMode, Route, compat, chat, work,
}
use kova_gpt_models.Router.Policy.{
  RoutePolicy, Request, field, has_keys, family_key, effort_label, mode_key, mode_effort,
  find_family, chat_policy, resolve_route,
}
use kova_gpt_models.Router.Auto.{Prompt, Budget, Feature, classify_auto}
use kova_gpt_models.Contracts.Grant.{ExecutionGrant, no_mode, authorize}

-- The keys of WORK_EFFORT_ALIASES for an effort.
unfoldable pub effort_aliases : Effort → List String
effort_aliases light = "Light" ∷ "light" ∷ []
effort_aliases medium = "Medium" ∷ "medium" ∷ []
effort_aliases high = "High" ∷ "high" ∷ []
effort_aliases extra_high = "Extra High" ∷ "extra-high" ∷ "extra_high" ∷ []
effort_aliases max = "Max" ∷ "max" ∷ []
effort_aliases ultra = "Ultra" ∷ "ultra" ∷ []

-- WORK_EFFORT_ALIASES
unfoldable pub find_alias : String → Option Effort
unfolding effort_aliases
find_alias s =
    find (λ e. any (λ a. str_eq a s) (effort_aliases e))
      (light ∷ medium ∷ high ∷ extra_high ∷ max ∷ ultra ∷ [])

pub record ResolvedSelection : Type 0 where
  pub selected_route : Route
  pub selected_surface : Surface
  pub selected_by_auto : Bool
  pub feature_ids : List Feature

abbrev surface_key : Surface → String
surface_key chat_surface = "chat"
surface_key work_surface = "work"

abbrev pub families_of : Surface → List Family
families_of chat_surface = cosmo ∷ orion ∷ []
families_of work_surface = cosmo ∷ orion ∷ nova ∷ []

-- The request of a surface, a family and an effort.
abbrev pub family_request : Surface → String → Effort → Request
family_request s family e =
    ("surface", surface_key s) ∷ ("family", family) ∷ ("effort", effort_label e) ∷ []

-- The branches with a family and an effort, after the check of the fields.
unfoldable pub select_family : ExecutionGrant → Surface → Request → Result ResolvedSelection
select_family grant s value = do
  family ← or_fail (field "family" value) execution_error
  guard (not (is_none (find_family (families_of s) family))) execution_error
  label ← or_fail (field "effort" value) execution_error
  effort ← or_fail (find_alias label) execution_error
  policy ← resolve_route (family_request s family effort)
  authorize grant grant.owner_id policy.route no_mode
  ok (record {
    selected_route = policy.route;
    selected_surface = s;
    selected_by_auto = false;
    feature_ids = [];
  })

-- The canonical route of a mode that the classifier chooses.
unfoldable pub auto_route : ChatMode → Route
unfolding chat_policy
auto_route mode = chat (chat_policy mode).profile (mode_effort mode)

-- The branch of Auto, after the check of the fields.
unfoldable pub select_auto :
    ExecutionGrant → Prompt → Budget → Bool → Request → Result ResolvedSelection
unfolding auto_route
select_auto grant prompt budget auto_enabled value = do
  mode ← or_fail (field "mode_id" value) execution_error
  guard (str_eq mode "auto" || str_eq mode "kova-auto") execution_error
  guard auto_enabled blocked
  (chosen, features) ← classify_auto prompt grant.tier budget
  authorize grant grant.owner_id (auto_route chosen) no_mode
  ok (record {
    selected_route = auto_route chosen;
    selected_surface = chat_surface;
    selected_by_auto = true;
    feature_ids = features;
  })

abbrev family_fields : List String
family_fields = "schema_version" ∷ "surface" ∷ "family" ∷ "effort" ∷ []

-- resolve_application_selection
unfoldable pub resolve_application_selection :
    Request → ExecutionGrant → Prompt → Budget → Bool → Result ResolvedSelection
resolve_application_selection value grant prompt budget auto_enabled = do
  guard grant.execution_authorized blocked
  version ← or_fail (field "schema_version" value) legacy_selection
  guard (str_eq version "kova-models.v2") execution_error
  surface ← or_fail (field "surface" value) execution_error
  if str_eq surface "chat"
      then (if has_keys family_fields value then select_family grant chat_surface value else (do
        guard (has_keys ("schema_version" ∷ "surface" ∷ "mode_id" ∷ []) value) execution_error
        select_auto grant prompt budget auto_enabled value))
      else (do
        guard (str_eq surface "work") execution_error
        guard (has_keys family_fields value) execution_error
        select_family grant work_surface value)

-- The effort as route ids spell it: `effort.lower().replace(' ', '-')`
unfoldable pub effort_key : Effort → String
effort_key light = "light"
effort_key medium = "medium"
effort_key high = "high"
effort_key extra_high = "extra-high"
effort_key max = "max"
effort_key ultra = "ultra"

-- The text of a route id.
unfoldable pub route_id : Route → String
unfolding effort_key family_key mode_key
route_id (compat m) = mode_key m
route_id (chat f e) = "chat:" ⧺ (family_key f ⧺ (":" ⧺ effort_key e))
route_id (work f e) = "work:" ⧺ (family_key f ⧺ (":" ⧺ effort_key e))

abbrev onto : Char → List String → List String
onto c [] = String.◌∷◌ c String.[] ∷ []
onto c (w ∷ ws) = String.◌∷◌ c w ∷ ws

-- `s.split(":")`
unfoldable pub split_colon : String → List String
split_colon String.[] = String.[] ∷ []
split_colon (String.◌∷◌ c s) =
    let rest = split_colon s in if code c == b':' then String.[] ∷ rest else onto c rest

-- `_, family, effort = …`
abbrev unpack : List String → Result (String × String)
unpack (first ∷ family ∷ effort ∷ []) = ok (family, effort)
unpack _ = err value_error

-- The policy of the family and the effort that a route id spells, on a surface.
unfoldable pub spelled_policy : Surface → String → Result RoutePolicy
unfolding split_colon find_alias
spelled_policy s id = do
  (family, alias) ← unpack (split_colon id)
  effort ← or_fail (find_alias alias) key_error
  resolve_route (family_request s family effort)

-- ResolvedSelection.policy, for the surface and the route id of a selection.
unfoldable pub policy_for : Surface → String → Result RoutePolicy
unfolding spelled_policy
policy_for chat_surface id =
    if is_prefix (codes "chat:") (codes id)
    then spelled_policy chat_surface id
    else resolve_route (("surface", "chat") ∷ ("route_id", id) ∷ [])
policy_for work_surface id = spelled_policy work_surface id

abbrev pub selection_policy : ResolvedSelection → Result RoutePolicy
selection_policy s = policy_for s.selected_surface (route_id s.selected_route)
