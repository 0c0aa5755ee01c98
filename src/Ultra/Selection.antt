-- ===== src/Ultra/Selection.antt =====
-- The choice of specialists: the end of its loop and its length.
use kova_gpt_models.Common.{
  ℕ, zero, suc, ◌-◌, ◌≤◌, ◌<◌, ◌≡◌, ◌∙◌, ap, String, Option, none, some, List, [], ◌∷◌, ◌++◌,
  length, length-append, ltb, arith, Bool-cases, inl, inr, sym, is_none, false, Option-cases,
}
use kova_gpt_models.Ultra.Specialists.{
  Domain, general, domain_roles, Specialist, role_at, add_role, choose_round, choose_rounds,
  fill_general, finish_choice, made, select_specialists,
}

add_role-length :
    (d : Domain) (r : Option String) (acc : List Specialist)
    → (length acc ≤ length (add_role d r acc)) × (length (add_role d r acc) ≤ suc (length acc))
add_role-length d none acc = (omega arith, omega arith)
add_role-length d (some r) acc =
    let item : Specialist = record { domain = d; role = r } in
    let grown = length-append acc (item ∷ []) in (omega arith, omega arith)

choose_round-length :
    (maximum index : ℕ) (ds : List Domain) (acc : List Specialist)
    → length acc ≤ maximum
    → (length acc ≤ length (choose_round maximum index ds acc))
      × (length (choose_round maximum index ds acc) ≤ maximum)
unfolding choose_round
choose_round-length maximum index [] acc h = (omega arith, h)
choose_round-length maximum index (d ∷ ds) acc h =
    let role = role_at (domain_roles d) index in
    let (more, one) = add_role-length d role acc in
    let rest = choose_round-length maximum index ds (add_role d role acc) in
    (ground arith, ground arith)

-- The loop ends with a choice that is within the maximum.
choose_rounds-le :
    (fuel maximum index : ℕ) (ds : List Domain) (acc : List Specialist)
    → length acc ≤ maximum
    → length (made (choose_rounds fuel maximum index ds acc)) ≤ maximum
unfolding choose_rounds
choose_rounds-le zero maximum index ds acc h = omega arith
choose_rounds-le (suc fuel) maximum index ds acc h =
    let (more, room) = choose_round-length maximum index ds acc h in
    let rest =
      choose_rounds-le fuel maximum (suc index) ds (choose_round maximum index ds acc) room in
    ground arith

choose_rounds-end :
    (fuel maximum index : ℕ) (ds : List Domain) (acc : List Specialist)
    → length acc ≤ maximum
    → maximum - length acc < fuel
    → is_none (choose_rounds fuel maximum index ds acc) ≡ false
unfolding choose_rounds
choose_rounds-end zero maximum index ds acc h k = absurd (omega arith)
choose_rounds-end (suc fuel) maximum index ds acc h k =
    let (more, room) = choose_round-length maximum index ds acc h in
    let rest =
      choose_rounds-end fuel maximum (suc index) ds (choose_round maximum index ds acc) room in
    ground arith

-- One round more than enough changes nothing.
choose_rounds-more :
    (fuel maximum index : ℕ) (ds : List Domain) (acc : List Specialist)
    → length acc ≤ maximum
    → maximum - length acc < fuel
    → choose_rounds (suc fuel) maximum index ds acc ≡ choose_rounds fuel maximum index ds acc
unfolding choose_rounds
choose_rounds-more zero maximum index ds acc h k = absurd (omega arith)
choose_rounds-more (suc fuel) maximum index ds acc h k =
    let (more, room) = choose_round-length maximum index ds acc h in
    let rest =
      choose_rounds-more fuel maximum (suc index) ds (choose_round maximum index ds acc) room in
    ground arith

fill_general-le :
    (maximum : ℕ) (rs : List String) (acc : List Specialist)
    → length acc < maximum
    → length (fill_general maximum rs acc) ≤ maximum
unfolding fill_general
fill_general-le maximum [] acc h = omega arith
fill_general-le maximum (r ∷ rs) acc h =
    let item : Specialist = record { domain = general; role = r } in
    let grown = length-append acc (item ∷ []) in
    let kept = fill_general-le maximum rs acc h in
    let added = fill_general-le maximum rs (acc ++ item ∷ []) in ground arith

any_rounds :
    (fuel maximum : ℕ) (ds : List Domain)
    → maximum < fuel
    → choose_rounds fuel maximum 0 ds [] ≡ choose_rounds (suc maximum) maximum 0 ds []
any_rounds zero maximum ds h = absurd (omega arith)
any_rounds (suc fuel) maximum ds h = elim (Bool-cases (ltb maximum fuel)) [
  | inl e ↦
      choose_rounds-more fuel maximum 0 ds [] (omega arith) (ground arith)
      ∙ any_rounds fuel maximum ds (ground arith)
  | inr e ↦
      let same : fuel ≡ maximum = ground arith in
      ap (λ n. choose_rounds (suc n) maximum 0 ds []) same
]

-- The loop that chooses the specialists terminates for any domains and any maximum: given more rounds
-- than the maximum, it ends by its own conditions, never for want of rounds, with a choice that does
-- not depend on how many more were given.
pub choose_rounds-ends :
    (fuel maximum : ℕ) (ds : List Domain)
    → maximum < fuel
    → (chosen : List Specialist) × (choose_rounds fuel maximum 0 ds [] ≡ some chosen)
      × (choose_rounds (suc maximum) maximum 0 ds [] ≡ some chosen)
choose_rounds-ends fuel maximum ds h = elim (Option-cases (choose_rounds fuel maximum 0 ds [])) [
  | inl out ↦
      let end = choose_rounds-end fuel maximum 0 ds [] (omega arith) (omega arith) in
      absurd (ground arith)
  | inr (chosen, ended) ↦ (chosen, ended, sym (any_rounds fuel maximum ds h) ∙ ended)
]

-- Where a specialist is asked for at all, at most as many are chosen as were asked for.
pub select_specialists-le :
    (ds : List Domain) (maximum : ℕ)
    → 0 < maximum
    → length (select_specialists ds maximum) ≤ maximum
unfolding select_specialists finish_choice
select_specialists-le ds maximum positive =
    let chosen = choose_rounds-le (suc maximum) maximum 0 ds [] (omega arith) in
    let filled =
      fill_general-le maximum (domain_roles general)
        (made (choose_rounds (suc maximum) maximum 0 ds [])) in
    ground arith
