-- ===== src/Usage/Snapshot.antt =====
-- The report of the allowance.
use kova_gpt_models.Common.{
  ℕ, ◌+◌, ◌-◌, ◌*◌, ◌/◌, ◌≤◌, ◌<◌, ◌≡◌, Option, none, some, String, sum_of, ◌⊎◌, Option-cases,
  Result, ok, err, arith, Result-cases, inl, inr,
}
use native.Mathlib.Nat.{div-le_of_le-mul, div-mul-le_self, mul_comm}
use kova_gpt_models.Router.Routes.{Tier, plus, pro}
use kova_gpt_models.Usage.Totals.{held_of, used_of, totals-sums}
use kova_gpt_models.Contracts.Grant.{ExecutionGrant}
use kova_gpt_models.Usage.Ledger.{WorkWeek, Ledger, Totals, totals}
use kova_gpt_models.Usage.Operations.{
  Snapshot, available, snapshot, report_week, current_grant, current_week, find_week, capacity,
}

share_bounds :
    (r cap : ℕ) → r ≤ cap → (r * 10000 / cap ≤ 10000) × (r * 10000 / cap * cap ≤ r * 10000)
share_bounds r cap le =
    (div-le_of_le-mul cap (omega (arith, mul_comm cap 10000)), div-mul-le_self (r * 10000) cap)

report_available :
    (g : ExecutionGrant) (clock : Option ℕ) (again : Option ExecutionGrant) (l : Ledger)
    (week : Result WorkWeek) (remaining percent : ℕ) (t : Totals) (cap : ℕ) (w : WorkWeek) (now : ℕ)
    → report_week g clock again l week ≡ ok (available remaining percent t cap w now)
    → (remaining ≡ cap - t.held - t.used)
      × (percent ≡ remaining * 10000 / cap)
      × (w.starts_ms ≤ now)
      × (now < w.ends_ms)
      × (week ≡ ok w)
      × (cap ≡ capacity w g.tier)
      × (totals g.owner_id w.period_id l ≡ ok t)
unfolding report_week
report_available g clock again l (ok week) remaining percent t cap w now h = ground arith
report_available g clock again l (err e) remaining percent t cap w now h = absurd (ground arith)

module _ (first : Option ExecutionGrant) (clock clock_again : Option ℕ)
    (again : Option ExecutionGrant) (l : Ledger) (r : Snapshot)
    (h : snapshot first clock clock_again again l ≡ ok r) where
  snapshot_grant : (g : ExecutionGrant) × (current_grant first ≡ ok g)
  unfolding snapshot
  snapshot_grant = elim (Result-cases (current_grant first)) [
    | inl p ↦ p
    | inr e ↦ absurd (ground arith)
  ]

  snapshot_report :
      (g : ExecutionGrant)
      → current_grant first ≡ ok g
      → report_week g clock_again again l (current_week l g.owner_id clock) ≡ ok r
  unfolding snapshot
  snapshot_report g e = ground arith

read_grant :
    (answer : Option ExecutionGrant) (g : ExecutionGrant)
    → current_grant answer ≡ ok g
    → answer ≡ some g
unfolding current_grant
read_grant none g h = absurd (ground arith)
read_grant (some a) g h = ground arith

read_week :
    (l : Ledger) (owner : String) (clock : Option ℕ) (w : WorkWeek)
    → current_week l owner clock ≡ ok w
    → find_week owner l.weeks ≡ some w
unfolding current_week
read_week l owner clock w h = elim (Option-cases (find_week owner l.weeks)) [
  | inl missing ↦ absurd (ground arith)
  | inr (v, found) ↦ ground arith
]

-- The grant of a report is of a tier with an allowance.
snapshot_paid :
    (first : Option ExecutionGrant) (clock clock_again : Option ℕ) (again : Option ExecutionGrant)
    (l : Ledger) (r : Snapshot) (g : ExecutionGrant)
    → snapshot first clock clock_again again l ≡ ok r
    → current_grant first ≡ ok g
    → (g.tier ≡ plus) ⊎ (g.tier ≡ pro)
unfolding snapshot
snapshot_paid first clock clock_again again l r g h e = ground arith

capacity_of :
    (w : WorkWeek) (t : Tier)
    → (t ≡ plus) ⊎ (t ≡ pro)
    → ((t ≡ plus) × (capacity w t ≡ w.plus_units)) ⊎ ((t ≡ pro) × (capacity w t ≡ 5 * w.plus_units))
capacity_of w t (inl e) = inl (e, rw e (omega arith))
capacity_of w t (inr e) = inr (e, rw e (omega arith))

-- A report of the allowance belongs to the owner of a current grant of the Plus or the Pro tier. Its
-- week is the owner's week, and the reported time is within it; its capacity is the units of that week
-- for Plus and five times as many for Pro; its totals are the sums of the owner's unsettled
-- reservations and of the owner's charges in the week's period. What remains is the capacity less
-- both, or nothing, and the percentage is at most 100 and never above the true share of the capacity.
pub snapshot_available :
    (first : Option ExecutionGrant) (clock clock_again : Option ℕ) (again : Option ExecutionGrant)
    (l : Ledger) (remaining percent : ℕ) (t : Totals) (cap : ℕ) (w : WorkWeek) (now : ℕ)
    → snapshot first clock clock_again again l ≡ ok (available remaining percent t cap w now)
    → (g : ExecutionGrant) × (first ≡ some g)
      × (find_week g.owner_id l.weeks ≡ some w)
      × (w.starts_ms ≤ now)
      × (now < w.ends_ms)
      × (((g.tier ≡ plus) × (cap ≡ w.plus_units)) ⊎ ((g.tier ≡ pro) × (cap ≡ 5 * w.plus_units)))
      × (t.held ≡ sum_of (held_of g.owner_id) l.usage)
      × (t.used ≡ sum_of (used_of g.owner_id w.period_id) l.usage)
      × (remaining ≡ cap - (t.held + t.used))
      × (percent ≤ 10000)
      × (percent * cap ≤ remaining * 10000)
snapshot_available first clock clock_again again l remaining percent t cap w now h =
    let (g, granted) = snapshot_grant first clock clock_again again l _ h in
    let week = current_week l g.owner_id clock in
    let (left, share, from, until, current, whole, summed) =
      report_available g clock_again again l week remaining percent t cap w now
        (snapshot_report first clock clock_again again l _ h g granted) in
    let bounds = share_bounds remaining cap (omega arith) in
    let sums = totals-sums g.owner_id w.period_id l t summed in
    let paid = snapshot_paid first clock clock_again again l _ g h granted in
    (
      g,
      read_grant first g granted,
      read_week l g.owner_id clock w current,
      from,
      until,
      rw whole (capacity_of w g.tier paid),
      sums.0,
      sums.1,
      omega arith,
      rw share bounds.0,
      rw share bounds.1,
    )
