-- ===== src/Router/Entitlements.antt =====
-- router/entitlements.py with the table of config/current-product-policy.v3.json, the accepted
-- policy that `load_policy` pins by its digest.
use kova_gpt_models.Common.{List, [], ◌∷◌, ◌++◌, map}
use kova_gpt_models.Router.Routes.{
  Tier, free, plus, pro, Surface, chat_surface, work_surface, Family, cosmo, orion, nova, Effort,
  light, medium, high, extra_high, max, ultra, ChatMode, instant_mode, medium_mode, high_mode,
  extra_high_mode, max_mode, ultra_mode, Route, chat, work,
}

-- EFFORT_IDS
abbrev pub efforts : List Effort
efforts = light ∷ medium ∷ high ∷ extra_high ∷ max ∷ ultra ∷ []

-- PRODUCT_POLICY["entitlements"][surface][tier][family]
abbrev pub entitled_levels : Surface → Tier → Family → List Effort
entitled_levels chat_surface free cosmo = light ∷ []
entitled_levels chat_surface free _ = []
entitled_levels chat_surface plus nova = []
entitled_levels chat_surface plus _ = light ∷ medium ∷ high ∷ []
entitled_levels chat_surface pro nova = []
entitled_levels chat_surface pro _ = efforts
entitled_levels work_surface free _ = []
entitled_levels work_surface _ _ = efforts

abbrev route_of : Surface → Family → Effort → Route
route_of chat_surface = chat
route_of work_surface = work

-- _routes
unfoldable pub routes_for : Surface → Tier → List Route
routes_for s t =
    map (route_of s cosmo) (entitled_levels s t cosmo)
    ++ (map (route_of s orion) (entitled_levels s t orion)
        ++ map (route_of s nova) (entitled_levels s t nova))

-- ALL_WORK_ROUTES
unfoldable pub all_work_routes : List Route
all_work_routes = map (work cosmo) efforts ++ (map (work orion) efforts ++ map (work nova) efforts)

-- WORK_ALLOWED_BY_TIER
unfoldable pub work_allowed : Tier → List Route
unfolding routes_for
work_allowed = routes_for work_surface

-- CHAT_ALLOWED_BY_TIER
unfoldable pub chat_allowed : Tier → List Route
unfolding routes_for
chat_allowed = routes_for chat_surface

-- COMPAT_CHAT_ALLOWED_BY_TIER
unfoldable pub compat_allowed : Tier → List ChatMode
compat_allowed free = instant_mode ∷ []
compat_allowed plus = instant_mode ∷ medium_mode ∷ high_mode ∷ []
compat_allowed pro =
    instant_mode ∷ medium_mode ∷ high_mode ∷ extra_high_mode ∷ max_mode ∷ ultra_mode ∷ []
