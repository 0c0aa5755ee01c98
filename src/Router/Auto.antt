-- ===== src/Router/Auto.antt =====
-- router/auto.py: the classifier behind Kova Auto. What the regular expressions find in the prompt
-- is given: they come from the standard library. Amounts of dollars are counted in micro-dollars.
use kova_gpt_models.Common.{
  ℕ, ◌+◌, min, ◌≡◌, String, Bool, true, ◌&&◌, ◌||◌, not, List, [], ◌∷◌, ◌++◌, length, filter, any,
  leb, ltb, ◌≤◌, ◌⊎◌, inl, inr, ◌↔◌, refl, Result, ok, value_error, guard, ◌>>◌, if◌then◌else◌,
  arith,
}
use kova_gpt_models.Router.Routes.{
  Tier, free, plus, pro, ChatMode, instant_mode, medium_mode, high_mode, extra_high_mode, max_mode,
  ultra_mode, mode_eq, tier_eq,
}
use kova_gpt_models.Router.Entitlements.{compat_allowed}

-- The prompt as the expressions read it.
pub record Prompt : Type 0 where
  -- `prompt.strip()` is not empty
  pub has_text : Bool
  -- len(prompt)
  pub prompt_chars : ℕ
  -- len(_tokens(prompt))
  pub words : ℕ
  -- the bounded search for a phrase, of `_contains`
  pub phrase_found : String → Bool
  -- any(pattern.search(prompt) for pattern in SIMPLE_PATTERNS)
  pub simple : Bool

-- CURRENT_OR_TOOL_TERMS
unfoldable pub current_terms : List String
current_terms =
    "latest" ∷ "current" ∷ "today" ∷ "news" ∷ "weather" ∷ "price" ∷ "schedule" ∷ "search" ∷ "browse"
    ∷ "email" ∷ "calendar" ∷ "drive" ∷ "document" ∷ "website" ∷ []

-- ORION_TERMS
unfoldable pub orion_terms : List String
orion_terms = "debug" ∷ "error" ∷ "explain" ∷ "review" ∷ "fix" ∷ "compare" ∷ "code" ∷ "react" ∷ []

-- NOVA_TERMS
unfoldable pub nova_terms : List String
nova_terms =
    "analyze" ∷ "architecture" ∷ "race" ∷ "security" ∷ "audit" ∷ "research" ∷ "strategy" ∷ "proof"
    ∷ "optimize" ∷ "migration" ∷ "financial" ∷ "business" ∷ "evaluate" ∷ []

-- ULTRA_TERMS
unfoldable pub ultra_terms : List String
ultra_terms =
    "competitors" ∷ "multi-domain" ∷ "comprehensive" ∷ "launch strategy" ∷ "full report"
    ∷ "multiple specialists" ∷ "parallel agents" ∷ "cross-functional" ∷ []

-- len(_contains(prompt, phrases))
unfoldable pub hits : Prompt → List String → ℕ
hits p phrases = length (filter p.phrase_found phrases)

pub record Budget : Type 0 where
  pub ultra_authorized : Bool
  pub remaining_usd : ℕ
  pub estimated_ultra_usd : ℕ

-- _validate_budget; the types and the lower bounds hold by typing.
abbrev check_budget : Budget → Result (Unit {0})
check_budget b = guard (ltb 0 b.estimated_ultra_usd) value_error

pub data Feature : Type 0 where
  free_plan_instant_cap multi_domain_ultra_candidate ultra_budget_admitted : Feature
  ultra_budget_or_entitlement_fallback maximum_single_engine_complexity : Feature
  deep_single_engine_complexity reasoning_complexity tool_or_balanced_reasoning : Feature
  simple_direct_request balanced_default plus_plan_high_cap : Feature

-- complex_score
unfoldable pub complex_score : Prompt → ℕ
complex_score p =
    min (hits p nova_terms) 2
    + (if leb 60 p.words then 1 else 0)
    + (if leb 140 p.words then 1 else 0)

-- ultra_candidate
unfoldable pub ultra_candidate : Prompt → Bool
ultra_candidate p =
    leb 2 (hits p ultra_terms) || (leb 1 (hits p ultra_terms) && leb 3 (complex_score p))

-- ultra_allowed
unfoldable pub ultra_allowed : Tier → Budget → Bool
ultra_allowed t b =
    tier_eq t pro && (b.ultra_authorized && leb b.estimated_ultra_usd b.remaining_usd)

-- The route of a prompt that is no Ultra candidate.
unfoldable pub single_engine : Prompt → ChatMode × List Feature
single_engine p =
    if leb 4 (complex_score p)
    then (max_mode, maximum_single_engine_complexity ∷ [])
    else if leb 3 (complex_score p)
    then (extra_high_mode, deep_single_engine_complexity ∷ [])
    else if leb 1 (complex_score p)
    then (high_mode, reasoning_complexity ∷ [])
    else if leb 1 (hits p current_terms) || leb 1 (hits p orion_terms)
    then (medium_mode, tool_or_balanced_reasoning ∷ [])
    else if leb p.words 30 && p.simple
    then (instant_mode, simple_direct_request ∷ [])
    else (medium_mode, balanced_default ∷ [])

-- The route before the cap of the Plus plan.
unfoldable pub uncapped : Tier → Budget → Prompt → ChatMode × List Feature
uncapped free b p = (instant_mode, free_plan_instant_cap ∷ [])
uncapped t b p =
    if ultra_candidate p
    then (if ultra_allowed t b
        then (ultra_mode, multi_domain_ultra_candidate ∷ ultra_budget_admitted ∷ [])
        else (max_mode, multi_domain_ultra_candidate ∷ ultra_budget_or_entitlement_fallback ∷ []))
    else single_engine p

abbrev within_plus : ChatMode → Bool
within_plus m = mode_eq m instant_mode || (mode_eq m medium_mode || mode_eq m high_mode)

-- The plan limit, after every other branch.
unfoldable pub cap_plus : Tier → ChatMode × List Feature → ChatMode × List Feature
cap_plus t (m, fs) =
    if tier_eq t plus && not (within_plus m)
    then (high_mode, fs ++ plus_plan_high_cap ∷ [])
    else (m, fs)

-- classify_auto: the route and the features that chose it.
unfoldable pub classify_auto : Prompt → Tier → Budget → Result (ChatMode × List Feature)
classify_auto p t b = do
  guard p.has_text value_error
  guard (leb p.prompt_chars 250000) value_error
  check_budget b
  ok (cap_plus t (uncapped t b p))

-- The classifier never leaves the plan: it chooses a mode that the tier allows.
pub classify_auto-allowed :
    (p : Prompt) (t : Tier) (b : Budget) (m : ChatMode) (fs : List Feature)
    → classify_auto p t b ≡ ok (m, fs)
    → any (mode_eq m) (compat_allowed t) ≡ true
unfolding classify_auto cap_plus uncapped single_engine compat_allowed ultra_allowed
classify_auto-allowed p free b m fs h = ground arith
classify_auto-allowed p _ b m fs h = ground arith

chooses_ultra :
    (p : Prompt) (t : Tier) (b : Budget) (m : ChatMode) (fs : List Feature)
    → classify_auto p t b ≡ ok (m, fs)
    → mode_eq m ultra_mode ≡ (ultra_candidate p && ultra_allowed t b)
unfolding classify_auto cap_plus uncapped single_engine ultra_allowed
chooses_ultra p free b m fs h = ground arith
chooses_ultra p _ b m fs h = ground arith

candidate-hits :
    (p : Prompt)
    → ultra_candidate p ≡ true
    → (2 ≤ hits p ultra_terms) ⊎ ((hits p ultra_terms ≡ 1) × (3 ≤ complex_score p))
unfolding ultra_candidate
candidate-hits p h = ground arith

hits-candidate :
    (p : Prompt)
    → (2 ≤ hits p ultra_terms) ⊎ ((hits p ultra_terms ≡ 1) × (3 ≤ complex_score p))
    → ultra_candidate p ≡ true
unfolding ultra_candidate
hits-candidate p (inl h) = ground arith
hits-candidate p (inr h) = ground arith

mode_eq-ultra : (m : ChatMode) → mode_eq m ultra_mode ≡ true → m ≡ ultra_mode
mode_eq-ultra m h = ground arith

allowed-parts :
    (t : Tier) (b : Budget)
    → ultra_allowed t b ≡ true
    → (t ≡ pro) × (b.ultra_authorized ≡ true) × (b.estimated_ultra_usd ≤ b.remaining_usd)
unfolding ultra_allowed
allowed-parts free b h = absurd (ground arith)
allowed-parts plus b h = absurd (ground arith)
allowed-parts pro b h = (refl, ground arith, ground arith)

parts-allowed :
    (t : Tier) (b : Budget)
    → t ≡ pro
    → b.ultra_authorized ≡ true
    → b.estimated_ultra_usd ≤ b.remaining_usd
    → ultra_allowed t b ≡ true
unfolding ultra_allowed
parts-allowed t b p a le = rw (p, a) (ground arith)

-- It chooses Ultra exactly when a Pro user is authorized for it with at least its estimated cost left,
-- and the prompt has two of the phrases of Ultra, or one of them and a complexity of at least 3.
pub classify_auto-ultra :
    (p : Prompt) (t : Tier) (b : Budget) (m : ChatMode) (fs : List Feature)
    → classify_auto p t b ≡ ok (m, fs)
    → (m ≡ ultra_mode) ↔ (
        (t ≡ pro)
        × (b.ultra_authorized ≡ true)
        × (b.estimated_ultra_usd ≤ b.remaining_usd)
        × ((2 ≤ hits p ultra_terms) ⊎ ((hits p ultra_terms ≡ 1) × (3 ≤ complex_score p))))
classify_auto-ultra p t b m fs h = (
  λ e.
      (let chosen : mode_eq m ultra_mode ≡ true = rw e refl in
        let both = chooses_ultra p t b m fs h in
        let (pro_tier, authorized, enough) = allowed-parts t b (ground arith) in
        (pro_tier, authorized, enough, candidate-hits p (ground arith))),
  λ e.
      (let allowed = parts-allowed t b e.0 e.1 e.2 in
        let candidate = hits-candidate p e.3 in
        let both = chooses_ultra p t b m fs h in mode_eq-ultra m (ground arith)),
)
