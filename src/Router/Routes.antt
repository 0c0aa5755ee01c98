-- ===== src/Router/Routes.antt =====
-- The names that routes are made of (router/policy.py, router/entitlements.py and the tables they
-- load). A route id is a text of one of three shapes; here it is the value that the text spells:
-- a compatibility mode such as `extra-high`, `chat:<family>:<effort>` or `work:<family>:<effort>`.
use kova_gpt_models.Common.{ℕ, ◌==◌, Bool, false, ◌&&◌, List, any}

pub data Tier : Type 0 where
  free plus pro : Tier

pub data Surface : Type 0 where
  chat_surface work_surface : Surface

pub data Family : Type 0 where
  cosmo orion nova : Family

pub data Effort : Type 0 where
  light medium high extra_high max ultra : Effort

-- The keys of CHAT_POLICIES.
pub data ChatMode : Type 0 where
  instant_mode medium_mode high_mode extra_high_mode max_mode ultra_mode : ChatMode

pub data Route : Type 0 where
  compat : ChatMode → Route
  chat work : Family → Effort → Route

abbrev tier_code : Tier → ℕ
tier_code free = 0
tier_code plus = 1
tier_code pro = 2

abbrev family_code : Family → ℕ
family_code cosmo = 0
family_code orion = 1
family_code nova = 2

abbrev effort_code : Effort → ℕ
effort_code light = 0
effort_code medium = 1
effort_code high = 2
effort_code extra_high = 3
effort_code max = 4
effort_code ultra = 5

abbrev mode_code : ChatMode → ℕ
mode_code instant_mode = 0
mode_code medium_mode = 1
mode_code high_mode = 2
mode_code extra_high_mode = 3
mode_code max_mode = 4
mode_code ultra_mode = 5

abbrev pub tier_eq : Tier → Tier → Bool
tier_eq a b = tier_code a == tier_code b

abbrev pub family_eq : Family → Family → Bool
family_eq a b = family_code a == family_code b

abbrev pub effort_eq : Effort → Effort → Bool
effort_eq a b = effort_code a == effort_code b

abbrev pub mode_eq : ChatMode → ChatMode → Bool
mode_eq a b = mode_code a == mode_code b

-- Equality of route ids.
unfoldable pub route_eq : Route → Route → Bool
route_eq (compat m) (compat n) = mode_eq m n
route_eq (chat f e) (chat g d) = family_eq f g && effort_eq e d
route_eq (work f e) (work g d) = family_eq f g && effort_eq e d
route_eq _ _ = false

-- `route_id in routes`, for a set of routes.
unfoldable pub route_mem : Route → List Route → Bool
unfolding route_eq
route_mem r = any (route_eq r)
