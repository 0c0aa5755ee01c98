-- ===== src/Usage/Totals.antt =====
-- The totals that admission reads, against plain sums over the whole table.
use kova_gpt_models.Common.{
  ℕ, ◌+◌, ◌≡◌, refl, String, str_eq, true, ◌&&◌, not, Option, none, some, List, [], ◌∷◌, filter,
  sum_of, is_none, ok, arith, if◌then◌else◌, ◌||◌, Bool-cases, inl, inr,
}
use kova_gpt_models.Usage.Ledger.{
  UsageRow, Ledger, Totals, counts_for, add_row, total_rows, totals, validate_record, check_record,
  check_settlement,
}

abbrev pub amount : Option ℕ → ℕ
amount none = 0
amount (some n) = n

-- What a row holds back: its reservation, until it is settled.
abbrev pub held_of : String → UsageRow → ℕ
held_of owner r = if str_eq r.owner owner && is_none r.settled then r.reserved else 0

-- What a row has used of a period.
abbrev pub used_of : String → String → UsageRow → ℕ
used_of owner period r =
    if str_eq r.owner owner && str_eq r.period period then amount r.settled else 0

-- What a row holds back for another period.
abbrev pub carried_of : String → String → UsageRow → ℕ
carried_of owner period r =
    if str_eq r.owner owner && (is_none r.settled && not (str_eq r.period period))
    then r.reserved
    else 0

-- A validated row has a receipt exactly when it is settled.
settlement-agrees :
    (r : UsageRow) (s : Option ℕ) (c : Option String)
    → check_settlement r s c ≡ ok tt
    → is_none s ≡ is_none c
unfolding check_settlement
settlement-agrees r none none h = refl
settlement-agrees r none (some c) h = cc
settlement-agrees r (some n) none h = cc
settlement-agrees r (some n) (some c) h = refl

pub validate-settled :
    (r : UsageRow) → validate_record r ≡ ok tt → is_none r.settled ≡ is_none r.receipt
unfolding validate_record check_record
validate-settled r h = settlement-agrees r r.settled r.receipt (ground arith)

-- What one row adds, when it is added.
add_row-sums :
    (owner period : String) (t t' : Totals) (r : UsageRow)
    → str_eq r.owner owner ≡ true
    → (str_eq r.period period || is_none r.settled) ≡ true
    → add_row period t r r.settled ≡ ok t'
    → (t'.held ≡ t.held + held_of owner r)
      × (t'.used ≡ t.used + used_of owner period r)
      × (t'.previous ≡ t.previous + carried_of owner period r)
unfolding add_row
add_row-sums owner period t t' r o p h = ground arith

-- The steps of the loop on a row.
pub total_rows-cons :
    (period : String) (t t' : Totals) (r : UsageRow) (rows : List UsageRow)
    → total_rows period t (r ∷ rows) ≡ ok t'
    → (u : Totals) × (validate_record r ≡ ok tt)
      × (add_row period t r r.settled ≡ ok u)
      × (total_rows period u rows ≡ ok t')
unfolding total_rows
total_rows-cons period t t' r rows h = ground arith

filter_counted :
    (owner period : String) (r : UsageRow) (rows : List UsageRow)
    → counts_for owner period r ≡ true
    → filter (counts_for owner period) (r ∷ rows) ≡ r ∷ filter (counts_for owner period) rows
filter_counted owner period r rows h = ground arith

counted_either :
    (owner period : String) (r : UsageRow)
    → counts_for owner period r ≡ true
    → is_none r.settled ≡ is_none r.receipt
    → (str_eq r.owner owner ≡ true) × ((str_eq r.period period || is_none r.settled) ≡ true)
counted_either owner period r h e = ground arith

total_rows-sums :
    (owner period : String) (t t' : Totals) (rows : List UsageRow)
    → total_rows period t (filter (counts_for owner period) rows) ≡ ok t'
    → (t'.held ≡ t.held + sum_of (held_of owner) rows)
      × (t'.used ≡ t.used + sum_of (used_of owner period) rows)
      × (t'.previous ≡ t.previous + sum_of (carried_of owner period) rows)
total_rows-sums owner period t t' [] h = unfold total_rows in ground arith
total_rows-sums owner period t t' (r ∷ rows) h = elim (Bool-cases (counts_for owner period r)) [
  | inl counted ↦
      let (u, valid, added, rest) =
        total_rows-cons period t t' r (filter (counts_for owner period) rows)
          (rw (filter_counted owner period r rows counted) at h) in
      let either = counted_either owner period r counted (validate-settled r valid) in
      let ih = total_rows-sums owner period u t' rows rest in
      let one = add_row-sums owner period t u r either.0 either.1 added in omega arith
  | inr skipped ↦ ground (arith, total_rows-sums owner period t t' rows)
]

-- When the totals of an owner and a period are computed, `held` is the sum of the reservations of
-- all the owner's unsettled rows, of any period, `used` is the sum of the charges of the owner's
-- settled rows of this period, and `previous` is the part of `held` that other periods left.
pub totals-sums :
    (owner period : String) (l : Ledger) (t : Totals)
    → totals owner period l ≡ ok t
    → (t.held ≡ sum_of (held_of owner) l.usage)
      × (t.used ≡ sum_of (used_of owner period) l.usage)
      × (t.previous ≡ sum_of (carried_of owner period) l.usage)
unfolding totals
totals-sums owner period l t h =
    let s =
      total_rows-sums owner period (record { held = 0; used = 0; previous = 0 }) t l.usage h in
    omega arith
