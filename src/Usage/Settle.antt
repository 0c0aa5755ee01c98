-- ===== src/Usage/Settle.antt =====
-- Settlement: the reservation of a job becomes a charge, once.
use kova_gpt_models.Common.{
  ℕ, ◌+◌, ◌≤◌, ◌≡◌, sym, String, str_eq, true, false, ◌&&◌, not, Option, some, List, [], ◌∷◌,
  sum_of, is_none, any, ok, arith, if◌then◌else◌, ◌==◌,
}
use kova_gpt_models.Contracts.Grant.{ExecutionGrant}
use kova_gpt_models.Usage.Ledger.{
  UsageRow, Ledger, is_fast, usage_units, validate_record, check_record,
}
use kova_gpt_models.Usage.Operations.{Receipt, charge_receipt, settle_row, find_usage, receipt_is}
use kova_gpt_models.Usage.Units.{usage_units_mono}
use kova_gpt_models.Usage.Totals.{amount}

-- What a row takes from its owner's allowance: its charge once settled, before that its reservation.
abbrev pub commitment : String → UsageRow → ℕ
commitment owner r =
    if str_eq r.owner owner then (if is_none r.settled then r.reserved else amount r.settled) else 0

pub valid-reserved :
    (r : UsageRow)
    → validate_record r ≡ ok tt
    → (usage_units r.standard (is_fast r) ≡ ok r.reserved) × (r.fast_flag ≤ 1)
unfolding validate_record check_record
valid-reserved r h = ground arith

pub charge_parts :
    (g : ExecutionGrant) (verified : Option Receipt) (again : Option ExecutionGrant)
    (job id : String) (row : UsageRow) (l l' : Ledger)
    → charge_receipt g verified again job id row l ≡ ok l'
    → (value : Receipt) × (charged : ℕ) × (verified ≡ some value)
      × (value.quiescent ≡ true)
      × (str_eq value.receipt_sha256 row.fingerprint ≡ true)
      × (value.units ≤ row.standard)
      × (usage_units value.units (not (row.fast_flag == 0)) ≡ ok charged)
      × (any (λ r. str_eq r.owner g.owner_id && receipt_is r.receipt id) l.usage ≡ false)
      × (l' ≡ record l { usage = settle_row g.owner_id job charged id l.usage })
unfolding charge_receipt
charge_parts g verified again job id row l l' h = ground arith

pub fast-same : (r : UsageRow) → r.fast_flag ≤ 1 → not (r.fast_flag == 0) ≡ is_fast r
fast-same r h = ground arith

-- The charge is at most the reservation of the row.
pub charge-le-reserved :
    (r : UsageRow) (n charged : ℕ)
    → validate_record r ≡ ok tt
    → n ≤ r.standard
    → usage_units n (not (r.fast_flag == 0)) ≡ ok charged
    → charged ≤ r.reserved
charge-le-reserved r n charged v le u =
    let f = valid-reserved r v in
    usage_units_mono n r.standard charged r.reserved (is_fast r) le (rw (sym (fast-same r f.1)) u)
      f.0

-- Settling the row that is found moves the owner's commitments by the change in that row.
pub commitment-settle_row :
    (owner job : String) (charged : ℕ) (id : String) (rows : List UsageRow) (row : UsageRow)
    → find_usage owner job rows ≡ some row
    → sum_of (commitment owner) (settle_row owner job charged id rows) + commitment owner row
      ≡ sum_of (commitment owner) rows + charged
unfolding find_usage settle_row
commitment-settle_row owner job charged id [] row h = cc
commitment-settle_row owner job charged id (r ∷ rows) row h =
    ground (arith, commitment-settle_row owner job charged id rows row)

pub find_usage-owner :
    (owner job : String) (rows : List UsageRow) (row : UsageRow)
    → find_usage owner job rows ≡ some row
    → str_eq row.owner owner ≡ true
unfolding find_usage
find_usage-owner owner job [] row h = cc
find_usage-owner owner job (r ∷ rows) row h = ground (arith, find_usage-owner owner job rows row)

pub settle_row-found :
    (owner job : String) (charged : ℕ) (id : String) (rows : List UsageRow) (row : UsageRow)
    → find_usage owner job rows ≡ some row
    → find_usage owner job (settle_row owner job charged id rows)
      ≡ some (record row { settled = some charged; receipt = some id })
unfolding find_usage settle_row
settle_row-found owner job charged id [] row h = cc
settle_row-found owner job charged id (r ∷ rows) row h =
    ground (arith, settle_row-found owner job charged id rows row)
