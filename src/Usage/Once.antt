-- ===== src/Usage/Once.antt =====
-- A job is charged once.
use kova_gpt_models.Common.{
  ℕ, ◌≤◌, ◌≡◌, refl, ap, ◌∙◌, String, is_identifier, str_eq, eq_iff, Bool, true, false, ◌&&◌, not,
  Option, none, some, sum_of, is_none, any, ok, err, arith, if◌then◌else◌, Bool-cases, Option-cases,
  Result-cases, subst, inl, inr, ◌==◌, usage_unavailable,
}
use kova_gpt_models.Contracts.Grant.{ExecutionGrant}
use kova_gpt_models.Usage.Ledger.{
  UsageRow, Ledger, is_fast, usage_units, validate_record, check_record, check_settlement,
  check_charge,
}
use kova_gpt_models.Usage.Operations.{
  Receipt, settle, settle_found, charge_receipt, settle_row, current_grant, same_grant, find_usage,
  receipt_is,
}
use kova_gpt_models.Usage.Units.{charge-reachable}
use kova_gpt_models.Usage.Totals.{validate-settled}
use kova_gpt_models.Usage.Settle.{
  commitment, charge_parts, charge-le-reserved, commitment-settle_row, find_usage-owner,
  settle_row-found, fast-same, valid-reserved,
}

module _ (first : Option ExecutionGrant) (verified : Option Receipt) (again : Option ExecutionGrant)
    (job id : String) (l l' : Ledger) (h : settle first verified again job id l ≡ ok l') where
  pub settle_grant : (g : ExecutionGrant) × (current_grant first ≡ ok g)
  unfolding settle
  settle_grant = elim (Result-cases (current_grant first)) [
    | inl p ↦ p
    | inr e ↦ absurd (ground arith)
  ]

  settle_row_read :
      (g : ExecutionGrant)
      → current_grant first ≡ ok g
      → (row : UsageRow) × (find_usage g.owner_id job l.usage ≡ some row)
  unfolding settle
  settle_row_read g e = elim (Option-cases (find_usage g.owner_id job l.usage)) [
    | inl missing ↦ absurd (ground arith)
    | inr p ↦ p
  ]

  settle_rest :
      (g : ExecutionGrant) (row : UsageRow)
      → current_grant first ≡ ok g
      → find_usage g.owner_id job l.usage ≡ some row
      → (validate_record row ≡ ok tt)
        × (settle_found g verified again job id row l row.receipt ≡ ok l')
        × (is_identifier job ≡ true)
        × (is_identifier id ≡ true)
  unfolding settle
  settle_rest g row e f = ground arith

charge-fits :
    (r : UsageRow) (n charged : ℕ)
    → validate_record r ≡ ok tt
    → n ≤ r.standard
    → usage_units n (not (r.fast_flag == 0)) ≡ ok charged
    → check_charge charged r.reserved (is_fast r) ≡ ok tt
charge-fits r n charged v le u = elim (Bool-cases (is_fast r)) [
  | inl f ↦ rw f (
      charge-reachable charged r.reserved n (charge-le-reserved r n charged v le u) (
        subst (λ (b : Bool). usage_units n b ≡ ok charged) (fast-same r (valid-reserved r v).1 ∙ f)
          u))
  | inr f ↦ rw f (unfold check_charge in ground (arith, charge-le-reserved r n charged v le u))
]

charged-valid :
    (r : UsageRow) (n charged : ℕ) (id : String)
    → validate_record r ≡ ok tt
    → n ≤ r.standard
    → usage_units n (not (r.fast_flag == 0)) ≡ ok charged
    → is_identifier id ≡ true
    → validate_record (record r { settled = some charged; receipt = some id }) ≡ ok tt
unfolding validate_record check_record check_settlement
charged-valid r n charged id v le u i = ground (arith, charge-fits r n charged v le u)

settle_found-some :
    (g : ExecutionGrant) (verified : Option Receipt) (again : Option ExecutionGrant)
    (job id known : String) (row : UsageRow) (l l' : Ledger)
    → settle_found g verified again job id row l (some known) ≡ ok l'
    → (l' ≡ l) × (known ≡ id) × (same_grant g again ≡ ok tt)
unfolding settle_found
settle_found-some g verified again job id known row l l' h = ground (arith, eq_iff known id)

settle-settled_found :
    (first : Option ExecutionGrant) (verified : Option Receipt) (again : Option ExecutionGrant)
    (job id : String) (l : Ledger) (g : ExecutionGrant) (row : UsageRow)
    → is_identifier job ≡ true
    → is_identifier id ≡ true
    → current_grant first ≡ ok g
    → find_usage g.owner_id job l.usage ≡ some row
    → validate_record row ≡ ok tt
    → settle first verified again job id l ≡ settle_found g verified again job id row l row.receipt
unfolding settle
settle-settled_found first verified again job id l g row j i e f v = ground arith

-- A settlement that writes: the row that it settles and what it writes there.
pub record Charged (g : ExecutionGrant) (job id : String) (l l' : Ledger) : Type 0 where
  pub row : UsageRow
  pub charge : ℕ
  pub row_found : find_usage g.owner_id job l.usage ≡ some row
  pub unsettled : is_none row.settled ≡ true
  pub charge_bounded : charge ≤ row.reserved
  pub receipt_new : any (λ r. str_eq r.owner g.owner_id && receipt_is r.receipt id) l.usage ≡ false
  pub row_settled :
      find_usage g.owner_id job l'.usage
      ≡ some (record row { settled = some charge; receipt = some id })
  pub row_valid : validate_record (record row { settled = some charge; receipt = some id }) ≡ ok tt
  pub written : l' ≡ record l { usage = settle_row g.owner_id job charge id l.usage }

charge-Charged :
    (g : ExecutionGrant) (verified : Option Receipt) (again : Option ExecutionGrant)
    (job id : String) (row : UsageRow) (l l' : Ledger)
    → find_usage g.owner_id job l.usage ≡ some row
    → validate_record row ≡ ok tt
    → is_none row.receipt ≡ true
    → is_identifier id ≡ true
    → charge_receipt g verified again job id row l ≡ ok l'
    → Charged g job id l l'
charge-Charged g verified again job id row l l' found valid open_row ident h =
    let (value, charged, got, quiet, same, fits, debited, new, wrote) =
      charge_parts g verified again job id row l l' h in
    record {
      row = row;
      charge = charged;
      row_found = found;
      unsettled = validate-settled row valid ∙ open_row;
      charge_bounded = charge-le-reserved row value.units charged valid fits debited;
      receipt_new = new;
      row_settled = rw wrote (settle_row-found g.owner_id job charged id l.usage row found);
      row_valid = charged-valid row value.units charged id valid fits debited ident;
      written = wrote;
    }

-- What a settlement that is accepted has done.
pub data Settled (g : ExecutionGrant) (job id : String) (l l' : Ledger) : Type 0 where
  -- The job had been settled with this receipt before.
  earlier :
      (row : UsageRow)
      → find_usage g.owner_id job l.usage ≡ some row
      → validate_record row ≡ ok tt
      → row.receipt ≡ some id
      → l' ≡ l
      → Settled g job id l l'
  now_charged : Charged g job id l l' → Settled g job id l l'

settle-Settled_row :
    (g : ExecutionGrant) (verified : Option Receipt) (again : Option ExecutionGrant)
    (job id : String) (row : UsageRow) (l l' : Ledger) (c : Option String)
    → row.receipt ≡ c
    → find_usage g.owner_id job l.usage ≡ some row
    → validate_record row ≡ ok tt
    → is_identifier id ≡ true
    → settle_found g verified again job id row l c ≡ ok l'
    → Settled g job id l l'
settle-Settled_row g verified again job id row l l' none e found valid ident h = now_charged (
    charge-Charged g verified again job id row l l' found valid (ground arith) ident
      (unfold settle_found in h))
settle-Settled_row g verified again job id row l l' (some known) e found valid ident h =
    let (same, key, _) = settle_found-some g verified again job id known row l l' h in
    earlier row found valid (e ∙ ap some key) same

pub settle-Settled :
    (first : Option ExecutionGrant) (verified : Option Receipt) (again : Option ExecutionGrant)
    (job id : String) (l l' : Ledger)
    → settle first verified again job id l ≡ ok l'
    → (g : ExecutionGrant) × (current_grant first ≡ ok g) × Settled g job id l l'
settle-Settled first verified again job id l l' h =
    let (g, granted) = settle_grant first verified again job id l l' h in
    let (row, found) = settle_row_read first verified again job id l l' h g granted in
    let (valid, rest, j, i) = settle_rest first verified again job id l l' h g row granted found in
    (
      g,
      granted,
      settle-Settled_row g verified again job id row l l' row.receipt refl found valid i rest,
    )

Settled-commitment :
    (g : ExecutionGrant) (job id : String) (l l' : Ledger)
    → Settled g job id l l'
    → sum_of (commitment g.owner_id) l'.usage ≤ sum_of (commitment g.owner_id) l.usage
Settled-commitment g job id l l' (earlier row found valid r same) = rw same (omega arith)
Settled-commitment g job id l l' (now_charged c) = ground (
  arith,
  c.written,
  c.unsettled,
  c.charge_bounded,
  find_usage-owner g.owner_id job l.usage c.row c.row_found,
  commitment-settle_row g.owner_id job c.charge id l.usage c.row c.row_found,
)

-- A settlement never raises what an owner has committed: the sum, over the owner's rows, of the
-- charges of the settled ones and the reservations of the others.
pub settle-commitment :
    (first : Option ExecutionGrant) (verified : Option Receipt) (again : Option ExecutionGrant)
    (job id : String) (l l' : Ledger)
    → settle first verified again job id l ≡ ok l'
    → (g : ExecutionGrant) × (current_grant first ≡ ok g)
      × (sum_of (commitment g.owner_id) l'.usage ≤ sum_of (commitment g.owner_id) l.usage)
settle-commitment first verified again job id l l' h =
    let (g, granted, s) = settle-Settled first verified again job id l l' h in
    (g, granted, Settled-commitment g job id l l' s)

-- The row of the job after an accepted settlement: valid, and with this receipt.
Settled-row :
    (g : ExecutionGrant) (job id : String) (l l' : Ledger)
    → Settled g job id l l'
    → (row : UsageRow) × (find_usage g.owner_id job l'.usage ≡ some row)
      × (validate_record row ≡ ok tt)
      × (row.receipt ≡ some id)
Settled-row g job id l l' (earlier row found valid r same) = (row, rw same found, valid, r)
Settled-row g job id l l' (now_charged c) = (_, c.row_settled, c.row_valid, refl)

settle_found-grant :
    (g : ExecutionGrant) (verified : Option Receipt) (again : Option ExecutionGrant)
    (job id : String) (row : UsageRow) (l l' : Ledger) (c : Option String)
    → settle_found g verified again job id row l c ≡ ok l'
    → same_grant g again ≡ ok tt
unfolding settle_found charge_receipt
settle_found-grant g verified again job id row l l' none h = ground arith
settle_found-grant g verified again job id row l l' (some known) h = ground arith

settle_found-known :
    (g : ExecutionGrant) (verified : Option Receipt) (again : Option ExecutionGrant)
    (job id known : String) (row : UsageRow) (l : Ledger)
    → same_grant g again ≡ ok tt
    → settle_found g verified again job id row l (some known)
      ≡ (if str_eq known id then ok l else err usage_unavailable)
unfolding settle_found
settle_found-known g verified again job id known row l s = ground arith

-- After an accepted settlement with one receipt, settling the job again under the same grants leaves
-- the ledger as it is with the same receipt, whatever the receipt is now said to be worth, and is
-- refused with any other well-formed one.
pub settle_once :
    (first : Option ExecutionGrant) (verified : Option Receipt) (again : Option ExecutionGrant)
    (job id : String) (l l' : Ledger) (verified' : Option Receipt) (other : String)
    → settle first verified again job id l ≡ ok l'
    → is_identifier other ≡ true
    → settle first verified' again job other l'
      ≡ (if str_eq id other then ok l' else err usage_unavailable)
settle_once first verified again job id l l' verified' other h ident =
    let (g, granted, s) = settle-Settled first verified again job id l l' h in
    let (old, read) = settle_row_read first verified again job id l l' h g granted in
    let (_, rest, j, _) = settle_rest first verified again job id l l' h g old granted read in
    let same = settle_found-grant g verified again job id old l l' old.receipt rest in
    let (row, found, valid, known) = Settled-row g job id l l' s in
    settle-settled_found first verified' again job other l' g row j ident granted found valid
    ∙ (rw known (settle_found-known g verified' again job other id row l' same))
