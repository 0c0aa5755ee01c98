-- ===== src/Ultra/Specialists.antt =====
-- The domains of a task and the specialists chosen for them. What the bounded search finds in the
-- task is given: it comes from the standard library.
use kova_gpt_models.Common.{
  ℕ, zero, suc, String, str_eq, Bool, ◌&&◌, ◌||◌, not, Option, none, some, List, [], ◌∷◌, ◌++◌,
  filter, length, count, any, ltb, ◌==◌, if◌then◌else◌,
}

-- The keys of DOMAIN_SPECIALISTS, in the order of their names but for the default.
pub data Domain : Type 0 where
  business coding math research work_domain general : Domain

abbrev domain_code : Domain → ℕ
domain_code business = 0
domain_code coding = 1
domain_code math = 2
domain_code research = 3
domain_code work_domain = 4
domain_code general = 5

abbrev pub domain_eq : Domain → Domain → Bool
domain_eq a b = domain_code a == domain_code b

-- DOMAIN_SPECIALISTS
abbrev pub domain_roles : Domain → List String
domain_roles coding = "planner" ∷ "implementation" ∷ "security" ∷ "test" ∷ "performance" ∷ []
domain_roles research =
    "source_finder" ∷ "evidence_analyst" ∷ "counterargument" ∷ "fact_checker" ∷ "domain_reviewer"
    ∷ []
domain_roles math = "solver_a" ∷ "solver_b" ∷ "verification" ∷ []
domain_roles business = "market" ∷ "cost" ∷ "risk" ∷ "strategy" ∷ "operations" ∷ []
domain_roles work_domain = "researcher" ∷ "planner" ∷ "browser" ∷ "document" ∷ "data_analyst" ∷ []
domain_roles general = "planner" ∷ "domain_specialist" ∷ "critic" ∷ []

-- DOMAIN_TERMS; the default domain has none.
abbrev pub domain_terms : Domain → List String
domain_terms coding =
    "code" ∷ "debug" ∷ "software" ∷ "api" ∷ "architecture" ∷ "database" ∷ "security" ∷ []
domain_terms research = "research" ∷ "sources" ∷ "evidence" ∷ "competitors" ∷ "fact check" ∷ []
domain_terms math = "math" ∷ "calculate" ∷ "prove" ∷ "equation" ∷ "probability" ∷ []
domain_terms business = "business" ∷ "market" ∷ "pricing" ∷ "launch" ∷ "revenue" ∷ "cost" ∷ []
domain_terms work_domain =
    "document" ∷ "spreadsheet" ∷ "browser" ∷ "report" ∷ "presentation" ∷ "project" ∷ []
domain_terms general = []

-- The score of a domain, for the phrases that are present in the task.
abbrev pub score : (String → Bool) → Domain → ℕ
score present d = count present (domain_terms d)

-- The sort key (-score, name).
abbrev comes_first : (String → Bool) → Domain → Domain → Bool
comes_first present a b =
    ltb (score present b) (score present a)
    || (score present a == score present b && ltb (domain_code a) (domain_code b))

unfoldable pub insert_domain : (String → Bool) → Domain → List Domain → List Domain
insert_domain present d [] = d ∷ []
insert_domain present d (e ∷ es) =
    if comes_first present d e then d ∷ e ∷ es else e ∷ insert_domain present d es

-- sorted(scores.items(), key=…)
unfoldable pub sort_domains : (String → Bool) → List Domain → List Domain
unfolding insert_domain
sort_domains present [] = []
sort_domains present (d ∷ ds) = insert_domain present d (sort_domains present ds)

abbrev or_general : List Domain → List Domain
or_general [] = general ∷ []
or_general ds = ds

-- _domains
unfoldable pub domains : (String → Bool) → List Domain
unfolding sort_domains
domains present = or_general (
    filter (λ d. ltb 0 (score present d))
      (sort_domains present (coding ∷ research ∷ math ∷ business ∷ work_domain ∷ [])))

-- The text `{domain}:{role}`.
pub record Specialist : Type 0 where
  pub domain : Domain
  pub role : String

abbrev pub specialist_eq : Specialist → Specialist → Bool
specialist_eq a b = domain_eq a.domain b.domain && str_eq a.role b.role

-- `roles[index]`, where there is one.
abbrev pub role_at : List String → ℕ → Option String
role_at [] i = none
role_at (r ∷ rs) zero = some r
role_at (r ∷ rs) (suc i) = role_at rs i

abbrev pub add_role : Domain → Option String → List Specialist → List Specialist
add_role d none acc = acc
add_role d (some r) acc = acc ++ record { domain = d; role = r } ∷ []

-- The inner loop of _select_specialists, which ends when `maximum` are chosen.
unfoldable pub choose_round : ℕ → ℕ → List Domain → List Specialist → List Specialist
choose_round maximum index [] acc = acc
choose_round maximum index (d ∷ ds) acc =
    if length acc == maximum
    then acc
    else choose_round maximum index ds (add_role d (role_at (domain_roles d) index) acc)

-- The outer loop; a round that adds nothing ends it. Out of fuel, it has no result.
unfoldable pub choose_rounds : ℕ → ℕ → ℕ → List Domain → List Specialist → Option (List Specialist)
unfolding choose_round
choose_rounds zero maximum index ds acc = none
choose_rounds (suc fuel) maximum index ds acc =
    let chosen = choose_round maximum index ds acc in
    let rest = choose_rounds fuel maximum (suc index) ds chosen in
    if not (ltb (length acc) maximum)
    then some acc
    else if length chosen == length acc
    then some acc
    else rest

-- The loop over the general roles.
unfoldable pub fill_general : ℕ → List String → List Specialist → List Specialist
fill_general maximum [] acc = acc
fill_general maximum (r ∷ rs) acc =
    let item : Specialist = record { domain = general; role = r } in
    let acc' : List Specialist = if any (specialist_eq item) acc then acc else acc ++ item ∷ [] in
    let rest = fill_general maximum rs acc' in if length acc' == maximum then acc' else rest

-- What follows the outer loop. A choice that is full has been returned from inside it, unless the
-- maximum is 0: the loop has then not been entered, and all the general roles are added.
unfoldable pub finish_choice : ℕ → List Specialist → List Specialist
unfolding fill_general
finish_choice maximum acc =
    if ltb 0 maximum && length acc == maximum
    then acc
    else fill_general maximum (domain_roles general) acc

abbrev pub made : Option (List Specialist) → List Specialist
made none = []
made (some chosen) = chosen

-- _select_specialists; each round but the last adds one, so it has `maximum` rounds and one.
unfoldable pub select_specialists : List Domain → ℕ → List Specialist
unfolding choose_rounds finish_choice
select_specialists ds maximum =
    finish_choice maximum (made (choose_rounds (suc maximum) maximum 0 ds []))
