-- ===== src/Usage/Units.antt =====
-- The debit of work units and the check of a persisted charge.
use kova_gpt_models.Common.{ℕ, false, ◌+◌, ◌*◌, ◌/◌, ◌≤◌, ◌≡◌, ◌↔◌, Bool, true, ok, arith}
use kova_gpt_models.Usage.Ledger.{max_units, usage_units, check_charge}

-- Standard work is debited exactly its units, whenever they are at most the largest exact integer.
-- Fast work is debited the least whole number of units that is at least three halves of the standard
-- ones, whenever that is at most the largest exact integer. Nothing else is debited.
pub usage_units_bounds :
    (n u : ℕ)
    → ((usage_units n false ≡ ok u) ↔ ((u ≡ n) × (n ≤ max_units)))
      × ((usage_units n true ≡ ok u) ↔ ((3 * n ≤ 2 * u) × (2 * u ≤ 3 * n + 1) × (u ≤ max_units)))
unfolding usage_units
usage_units_bounds n u = (
  (λ h. (ground arith, ground arith), λ h. ground arith),
  (λ h. (ground arith, ground arith, ground arith), λ h. ground arith),
)

pub usage_units_mono :
    (m n u v : ℕ) (fast : Bool)
    → m ≤ n
    → usage_units m fast ≡ ok u
    → usage_units n fast ≡ ok v
    → u ≤ v
unfolding usage_units
usage_units_mono m n u v fast le h k = ground arith

reachable-charge : (c r : ℕ) → check_charge c r true ≡ ok tt → usage_units (c * 2 / 3) true ≡ ok c
unfolding check_charge usage_units
reachable-charge c r h = ground arith

pub charge-reachable :
    (c r n : ℕ) → c ≤ r → usage_units n true ≡ ok c → check_charge c r true ≡ ok tt
unfolding check_charge usage_units
charge-reachable c r n le h = ground arith

pub charge-le : (c r : ℕ) (fast : Bool) → check_charge c r fast ≡ ok tt → c ≤ r
unfolding check_charge
charge-le c r fast h = ground arith

-- The persisted charge of a fast row passes its check exactly when it is at most the reservation and
-- is the debit of some whole number of standard units.
pub check_charge_iff :
    (c r : ℕ)
    → (check_charge c r true ≡ ok tt) ↔ ((c ≤ r) × ((n : ℕ) × (usage_units n true ≡ ok c)))
check_charge_iff c r = (
  λ h. (charge-le c r true h, (c * 2 / 3, reachable-charge c r h)),
  λ h. charge-reachable c r h.1.0 h.0 h.1.1,
)
