-- ===== src/Ultra/Plan.antt =====
-- The stages of an Ultra plan and their token budget (`build_ultra_plan`). The texts of the messages
-- are in Request: here the trusted token counter gives the tokens of each stage's template.
use kova_gpt_models.Common.{
  ℕ, suc, ◌+◌, ◌-◌, ◌*◌, ◌/◌, min, Bool, true, false, ◌&&◌, ◌||◌, List, [], ◌∷◌, ◌++◌, String, map,
  all, length, sum_of, leb, ltb, Result, ok, value_error, guard, ◌>>=◌, ◌>>◌, if◌then◌else◌,
}
use kova_gpt_models.Router.Routes.{Tier, plus, pro, Surface, chat_surface, work_surface, tier_eq}
use kova_gpt_models.Router.Models.{native_context_tokens}
use kova_gpt_models.Router.Policy.{maximum_specialists, runtime_profile}
use kova_gpt_models.Router.Routes.{ultra}
use kova_gpt_models.Ultra.Specialists.{Domain, domains, Specialist, select_specialists}

pub record Admission : Type 0 where
  pub entitlement : Tier
  pub ultra_authorized : Bool
  pub remaining_usd : ℕ
  pub estimated_max_usd : ℕ
  pub max_agents : ℕ
  pub max_total_tokens : ℕ

abbrev entitled : Surface → Tier → Bool
entitled chat_surface t = tier_eq t pro
entitled work_surface t = tier_eq t plus || tier_eq t pro

-- _validate_admission; amounts of dollars are counted in micro-dollars.
unfoldable pub validate_admission : Surface → Admission → Result (Unit {0})
validate_admission s a = do
  guard (entitled s a.entitlement) value_error
  guard a.ultra_authorized value_error
  guard (ltb 0 a.estimated_max_usd) value_error
  guard (leb a.estimated_max_usd a.remaining_usd) value_error
  guard (leb 2 a.max_agents && leb a.max_agents 5) value_error
  guard (leb 4096 a.max_total_tokens && leb a.max_total_tokens 131072) value_error

-- The ids of the stages: `specialist-1`, …, and the four that follow.
pub data StageName : Type 0 where
  specialist : ℕ → StageName
  disagreement_check judge_stage debate_round synthesis_stage : StageName

pub record Spec : Type 0 where
  pub name : StageName
  pub depends_on : List StageName
  pub artifacts : List StageName
  pub template_tokens : ℕ

-- specialist_ids, from 1
abbrev pub specialist_names : ℕ → List Specialist → List StageName
specialist_names n [] = []
specialist_names n (s ∷ ss) = specialist (suc n) ∷ specialist_names (suc n) ss

-- A stage whose artifacts are those of its dependencies, as all are.
abbrev spec_of : (StageName → ℕ) → StageName → List StageName → Spec
spec_of tokens n deps = record {
  name = n;
  depends_on = deps;
  artifacts = deps;
  template_tokens = tokens n;
}

-- specs: the specialists, the disagreement check, the judge, the debate and the synthesis.
unfoldable pub specs : (StageName → ℕ) → List StageName → List Spec
specs tokens ids =
    map (λ n. spec_of tokens n []) ids
    ++ (spec_of tokens disagreement_check ids
        ∷ spec_of tokens judge_stage (ids ++ disagreement_check ∷ [])
        ∷ spec_of tokens debate_round (ids ++ disagreement_check ∷ judge_stage ∷ [])
        ∷ spec_of tokens synthesis_stage
            (ids ++ disagreement_check ∷ judge_stage ∷ debate_round ∷ [])
        ∷ [])

-- The tokens that one stage leaves for each of its artifacts and its output.
abbrev pub stage_share : Spec → ℕ
stage_share s = (native_context_tokens - s.template_tokens) / (1 + length s.artifacts)

abbrev pub min_share : ℕ → List Spec → ℕ
min_share n [] = n
min_share n (s ∷ ss) = min (stage_share s) (min_share n ss)

-- output_and_propagation_units
abbrev pub unit_count : List Spec → ℕ
unit_count ss = length ss + sum_of (λ s. length s.artifacts) ss

abbrev pub fixed_tokens : List Spec → ℕ
fixed_tokens = sum_of (λ s. s.template_tokens)

-- per_operation_tokens; where the source's difference is negative this one is 0, and both are
-- refused.
unfoldable pub per_operation : ℕ → List Spec → ℕ
unfolding runtime_profile
per_operation total ss =
    min_share
      (min ((total - fixed_tokens ss) / unit_count ss)
        (runtime_profile ultra).profile_output_tokens)
      ss

pub record UltraOperation : Type 0 where
  pub stage_name : StageName
  pub dependencies : List StageName
  pub maximum_input_tokens : ℕ
  pub maximum_output_tokens : ℕ
  pub public_output : Bool

abbrev is_synthesis : StageName → Bool
is_synthesis synthesis_stage = true
is_synthesis _ = false

-- The operation of a stage.
abbrev pub operation_of : ℕ → Spec → UltraOperation
operation_of per s = record {
  stage_name = s.name;
  dependencies = s.depends_on;
  maximum_input_tokens = s.template_tokens + length s.artifacts * per;
  maximum_output_tokens = per;
  public_output = is_synthesis s.name;
}

abbrev pub reservation : UltraOperation → ℕ
reservation o = o.maximum_input_tokens + o.maximum_output_tokens

-- reserved_total
abbrev pub reserved_total : List UltraOperation → ℕ
reserved_total = sum_of reservation

-- The budget part of build_ultra_plan.
unfoldable pub allocate : ℕ → List Spec → Result (List UltraOperation)
allocate total ss = do
  let per = per_operation total ss
  guard (all (λ s. ltb 0 s.template_tokens) ss) value_error
  guard (leb 512 per) value_error
  let operations = map (operation_of per) ss
  guard (leb (reserved_total operations) total) value_error
  ok operations

-- requested_agents
abbrev pub requested_agents : Admission → List Domain → ℕ
requested_agents a ds = min a.max_agents (if ltb (length ds + 2) 2 then 2 else length ds + 2)

-- build_ultra_plan after the request has been resolved, on a task with these phrases present.
unfoldable pub build_ultra_plan :
    (String → Bool)
    → Surface
    → Admission
    → (List Specialist → StageName → ℕ)
    → Result (List Specialist × List UltraOperation)
unfolding domains select_specialists specs allocate
build_ultra_plan present s a tokens = do
  validate_admission s a
  guard (leb a.max_agents maximum_specialists) value_error
  let ds = domains present
  guard (leb (length ds) a.max_agents) value_error
  let chosen = select_specialists ds (requested_agents a ds)
  operations ← allocate a.max_total_tokens (specs (tokens chosen) (specialist_names 0 chosen))
  ok (chosen, operations)
