-- ===== src/Examples/PlanRuns.antt =====
-- The stages of a small Ultra plan, and the theorems on its budget applied to them.
use kova_gpt_models.Common.{length, some, ◌≤◌, ◌≡◌, refl, arith, map, List, [], ◌∷◌, All, ok}
use kova_gpt_models.Router.Routes.{ultra}
use kova_gpt_models.Router.Policy.{runtime_profile}
use kova_gpt_models.Ultra.Plan.{
  Spec, specialist, specs, UltraOperation, operation_of, per_operation, reserved_total, allocate,
}
use kova_gpt_models.Ultra.Specialists.{
  math, coding, Specialist, choose_round, choose_rounds, fill_general, finish_choice,
  select_specialists,
}
use kova_gpt_models.Ultra.Selection.{choose_rounds-ends, select_specialists-le}
use kova_gpt_models.Ultra.Budget.{Bounded, allocate_accepts, allocate_bounds}

-- Two specialists, with 200 tokens in each template.
abbrev two_specialists : List Spec
unfolding specs
two_specialists = specs (λ n. 200) (specialist 1 ∷ specialist 2 ∷ [])

abbrev two_operations : List UltraOperation
unfolding specs
two_operations = map (operation_of 990) two_specialists

allocate_accepts_example :
    allocate 21000 two_specialists
    ≡ ok (map (operation_of (per_operation 21000 two_specialists)) two_specialists)
unfolding specs per_operation runtime_profile
allocate_accepts_example = allocate_accepts 21000 two_specialists refl (omega arith)

allocate_bounds_example :
    (reserved_total two_operations ≤ 21000)
    × (512 ≤ per_operation 21000 two_specialists)
    × (per_operation 21000 two_specialists ≤ (runtime_profile ultra).profile_output_tokens)
    × All (Bounded (per_operation 21000 two_specialists)) two_operations
unfolding specs per_operation runtime_profile allocate
allocate_bounds_example = allocate_bounds 21000 two_specialists two_operations refl

abbrev four_specialists : List Specialist
four_specialists =
    record { domain = math; role = "solver_a" }
    ∷ record { domain = coding; role = "planner" }
    ∷ record { domain = math; role = "solver_b" }
    ∷ record { domain = coding; role = "implementation" }
    ∷ []

four_chosen : choose_rounds 5 4 0 (math ∷ coding ∷ []) [] ≡ some four_specialists
unfolding choose_rounds choose_round
four_chosen = refl

choose_rounds-ends_example :
    (chosen : List Specialist) × (choose_rounds 9 4 0 (math ∷ coding ∷ []) [] ≡ some chosen)
    × (choose_rounds 5 4 0 (math ∷ coding ∷ []) [] ≡ some chosen)
choose_rounds-ends_example = choose_rounds-ends 9 4 (math ∷ coding ∷ []) (omega arith)

-- Where none is asked for, the general roles are chosen all the same.
none_asked : length (select_specialists (math ∷ coding ∷ []) 0) ≡ 3
unfolding select_specialists choose_rounds choose_round finish_choice fill_general
none_asked = refl

select_specialists-le_example : length (select_specialists (math ∷ coding ∷ []) 4) ≤ 4
select_specialists-le_example = select_specialists-le (math ∷ coding ∷ []) 4 (omega arith)
