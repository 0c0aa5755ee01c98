-- ===== src/Contracts/Grant.antt =====
-- `ExecutionGrant` and `ExecutionGrant.authorize`.
use kova_gpt_models.Common.{
  String, str_eq, is_identifier, Bool, true, false, ◌&&◌, ◌||◌, not, List, [], ◌∷◌, ◌++◌, map, all,
  any, Result, ok, blocked, execution_error, guard, ◌>>◌,
}
use kova_gpt_models.Router.Routes.{
  Tier, pro, cosmo, orion, instant_mode, medium_mode, high_mode, extra_high_mode, max_mode,
  ultra_mode, Route, compat, chat, work, tier_eq, mode_eq, route_mem,
}
use kova_gpt_models.Router.Entitlements.{
  efforts, all_work_routes, work_allowed, chat_allowed, compat_allowed,
}

-- ALL_ROUTES: the compatibility modes, the canonical Chat routes and the Work routes.
unfoldable pub all_routes : List Route
unfolding all_work_routes
all_routes =
    (compat instant_mode
      ∷ compat medium_mode
      ∷ compat high_mode
      ∷ compat extra_high_mode
      ∷ compat max_mode
      ∷ compat ultra_mode
      ∷ [])
    ++ ((map (chat cosmo) efforts ++ map (chat orion) efforts) ++ all_work_routes)

pub record ExecutionGrant : Type 0 where
  pub owner_id : String
  pub tier : Tier
  pub allowed_routes : List Route
  pub execution_authorized : Bool

-- `ExecutionGrant.__post_init__`
unfoldable pub make_grant : String → Tier → List Route → Bool → Result ExecutionGrant
unfolding is_identifier all_routes
make_grant owner tier routes authorized = do
  guard (is_identifier owner) execution_error
  guard (all (λ r. route_mem r all_routes) routes) execution_error
  ok (record {
    owner_id = owner;
    tier = tier;
    allowed_routes = routes;
    execution_authorized = authorized;
  })

-- The optional `application_mode_id`: absent, a text, or another value.
pub data ModeId : Type 0 where
  no_mode not_text : ModeId
  mode_text : String → ModeId

abbrev is_mode : ModeId → Bool
is_mode not_text = false
is_mode _ = true

-- The plan check of `authorize`, by the shape of the route id.
unfoldable pub within_plan : Tier → Route → Bool
unfolding route_mem work_allowed chat_allowed compat_allowed
within_plan t (compat m) = any (mode_eq m) (compat_allowed t)
within_plan t (chat f e) = route_mem (chat f e) (chat_allowed t)
within_plan t (work f e) = route_mem (work f e) (work_allowed t)

-- `route_id == "ultra"`
abbrev is_ultra_mode : Route → Bool
is_ultra_mode (compat ultra_mode) = true
is_ultra_mode _ = false

-- `ExecutionGrant.authorize`
unfoldable pub authorize : ExecutionGrant → String → Route → ModeId → Result (Unit {0})
unfolding within_plan
authorize g owner route mode = do
  guard (g.execution_authorized && str_eq owner g.owner_id) blocked
  guard (is_mode mode) blocked
  guard (route_mem route g.allowed_routes) blocked
  guard (within_plan g.tier route) blocked
  guard (not (is_ultra_mode route && not (tier_eq g.tier pro))) blocked

-- Equality of two grants: the allowed routes are a set.
unfoldable pub grant_eq : ExecutionGrant → ExecutionGrant → Bool
grant_eq g h =
    str_eq g.owner_id h.owner_id
    && (tier_eq g.tier h.tier
        && (all (λ r. route_mem r h.allowed_routes) g.allowed_routes
            && (all (λ r. route_mem r g.allowed_routes) h.allowed_routes
                && ((g.execution_authorized && h.execution_authorized)
                    || (not g.execution_authorized && not h.execution_authorized)))))
