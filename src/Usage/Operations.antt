-- ===== src/Usage/Operations.antt =====
-- The operations of `WorkUsageLedger`. A trusted callback may answer differently at each call, so an
-- operation takes the answer to each call that it makes, in their order; `none` stands for a
-- callback that raised or returned a value of another type. The transaction is the result type: an
-- operation that raises leaves the ledger as it was.
use kova_gpt_models.Common.{
  ℕ, ◌+◌, ◌-◌, ◌*◌, ◌/◌, min, String, str_eq, Bool, true, false, ◌&&◌, ◌||◌, not, Option, none,
  some, List, [], ◌∷◌, ◌++◌, find, any, leb, ltb, ◌==◌, is_none, Result, ok, err, usage_unavailable,
  or_fail, ◌>>=◌, ◌>>◌, if◌then◌else◌,
}
use kova_gpt_models.Router.Routes.{Route, work, Tier, plus, pro, tier_eq, route_eq}
use kova_gpt_models.Contracts.Grant.{ExecutionGrant, authorize, grant_eq, no_mode}
use kova_gpt_models.Contracts.Spec.{ExecutionSpec}
use kova_gpt_models.Usage.Ledger.{
  max_units, need, number, usage_units, identifier, WorkWeek, check_week, WorkQuote, check_quote,
  UsageRow, Ledger, validate_record, Totals, totals,
}

-- WorkUsageLedger._grant
unfoldable pub current_grant : Option ExecutionGrant → Result ExecutionGrant
current_grant answer = do g ← or_fail answer usage_unavailable; need g.execution_authorized; ok g

-- WorkUsageLedger._same_grant
unfoldable pub same_grant : ExecutionGrant → Option ExecutionGrant → Result (Unit {0})
unfolding current_grant
same_grant expected answer = do g ← current_grant answer; need (grant_eq g expected)

-- WorkUsageLedger._now
unfoldable pub current_time : Option ℕ → Result ℕ
current_time answer = do now ← or_fail answer usage_unavailable; number now 1 max_units

abbrev pub find_week : String → List WorkWeek → Option WorkWeek
find_week owner = find (λ w. str_eq w.owner_id owner)

-- SELECT * FROM work_usage WHERE owner=? AND job=?
unfoldable pub find_usage : String → String → List UsageRow → Option UsageRow
find_usage owner job = find (λ r. str_eq r.owner owner && str_eq r.job job)

-- `week.starts_ms <= now < limit`
abbrev pub in_week : WorkWeek → ℕ → ℕ → Bool
in_week w now limit = leb w.starts_ms now && ltb now limit

-- WorkUsageLedger._week
unfoldable pub current_week : Ledger → String → Option ℕ → Result WorkWeek
unfolding current_time
current_week l owner clock = do
  w ← or_fail (find_week owner l.weeks) usage_unavailable
  check_week w
  now ← current_time clock
  need (in_week w now w.ends_ms)
  ok w

-- INSERT INTO work_weeks … ON CONFLICT(owner) DO UPDATE
unfoldable pub upsert_week : WorkWeek → List WorkWeek → List WorkWeek
upsert_week w [] = w ∷ []
upsert_week w (x ∷ xs) = if str_eq x.owner_id w.owner_id then w ∷ xs else x ∷ upsert_week w xs

abbrev same_week : WorkWeek → WorkWeek → Bool
same_week a b =
    a.starts_ms == b.starts_ms && (a.ends_ms == b.ends_ms && a.plus_units == b.plus_units)

-- What the configured week must satisfy against the owner's prior week. The answer tells whether
-- there is anything to write.
unfoldable pub check_prior : WorkWeek → ℕ → List UsageRow → Option WorkWeek → Result Bool
check_prior w now rows none = ok true
check_prior w now rows (some prior) =
    if str_eq prior.period_id w.period_id then (do need (same_week prior w); ok false) else (do
      need (leb prior.ends_ms now && leb prior.ends_ms w.starts_ms)
      need (not (any (λ r. str_eq r.owner w.owner_id && str_eq r.period w.period_id) rows))
      ok true)

-- WorkUsageLedger.configure_week; a `WorkWeek` has passed its checks when it was built.
unfoldable pub configure_week : WorkWeek → Bool → Option ℕ → Bool → Ledger → Result Ledger
unfolding current_time upsert_week
configure_week w admin clock admin_again l = do
  check_week w
  need admin
  now ← current_time clock
  need (in_week w now w.ends_ms)
  write ← check_prior w now l.usage (find_week w.owner_id l.weeks)
  if write then (do need admin_again; ok (record l { weeks = upsert_week w l.weeks })) else ok l

-- The answers that `reserve_for_job` gets: the grant at its three readings, the clock at its three
-- readings, and whether the fast backend is available.
pub record Answers : Type 0 where
  pub grant_first : Option ExecutionGrant
  pub grant_locked : Option ExecutionGrant
  pub grant_final : Option ExecutionGrant
  pub clock_week : Option ℕ
  pub clock_deadline : Option ℕ
  pub clock_final : Option ℕ
  pub fast_available : Bool

pub data Reservation : Type 0 where
  unmetered : Reservation
  -- work units, period, whether it is settled, whether it is new
  metered : ℕ → String → Bool → Bool → Reservation

-- `route.startswith('work:')`
abbrev pub is_work : Route → Bool
is_work (work f e) = true
is_work _ = false

-- `week.plus_units * (5 if g.tier == 'pro' else 1)`
abbrev pub capacity : WorkWeek → Tier → ℕ
capacity w t = w.plus_units * (if tier_eq t pro then 5 else 1)

abbrev paid : Tier → Bool
paid t = tier_eq t plus || tier_eq t pro

abbrev pub nat_of : Bool → ℕ
nat_of b = if b then 1 else 0

abbrev pub consent_eq : Option String → Option String → Bool
consent_eq none none = true
consent_eq (some a) (some b) = str_eq a b
consent_eq _ _ = false

-- The persisted columns equal those of the quote.
abbrev pub matches_quote : UsageRow → WorkQuote → Bool
matches_quote r q =
    str_eq r.fingerprint q.spec_sha256
    && (route_eq r.row_route q.route
        && (r.standard == q.standard_units
            && (r.fast_flag == nat_of q.fast && consent_eq r.consent q.consent_id)))

-- The row of a new reservation.
abbrev pub new_row : String → String → String → WorkQuote → ℕ → UsageRow
new_row owner job period q units = record {
  owner = owner;
  job = job;
  period = period;
  fingerprint = q.spec_sha256;
  row_route = q.route;
  standard = q.standard_units;
  fast_flag = nat_of q.fast;
  consent = q.consent_id;
  reserved = units;
  settled = none;
  receipt = none;
}

-- An earlier reservation of the job is reported again.
unfoldable pub repeat_reservation :
    ExecutionGrant → Answers → WorkQuote → UsageRow → Ledger → Result (Ledger × Reservation)
unfolding same_grant
repeat_reservation g a q row l = do
  validate_record row
  need (matches_quote row q)
  same_grant g a.grant_final
  ok (l, metered row.reserved row.period (not (is_none row.settled)) false)

-- A new reservation, if the totals leave room for it.
unfoldable pub admit_reservation :
    ExecutionGrant
    → Answers
    → String
    → ExecutionSpec
    → WorkQuote
    → WorkWeek
    → Ledger
    → Result (Ledger × Reservation)
unfolding same_grant current_time
admit_reservation g a job spec q w l = do
  units ← usage_units q.standard_units q.fast
  t ← totals g.owner_id w.period_id l
  need (leb (t.held + t.used + units) (capacity w g.tier))
  now ← current_time a.clock_final
  need (in_week w now (min w.ends_ms spec.limits.deadline_unix_ms))
  same_grant g a.grant_final
  ok (
    record l { usage = l.usage ++ new_row g.owner_id job w.period_id q units ∷ [] },
    metered units w.period_id false true,
  )

-- With the row that the job already has, if any.
unfoldable pub reserve_or_repeat :
    ExecutionGrant
    → Answers
    → String
    → ExecutionSpec
    → WorkQuote
    → WorkWeek
    → Ledger
    → Option UsageRow
    → Result (Ledger × Reservation)
reserve_or_repeat g a job spec q w l (some row) = repeat_reservation g a q row l
reserve_or_repeat g a job spec q w l none = admit_reservation g a job spec q w l

-- The transaction of `reserve_for_job` on a Work route.
unfoldable pub reserve_work :
    ExecutionGrant
    → Answers
    → String
    → ExecutionSpec
    → Option WorkQuote
    → Ledger
    → Result (Ledger × Reservation)
unfolding same_grant current_week current_time
reserve_work g a job spec quote l = do
  same_grant g a.grant_locked
  need (paid g.tier)
  q ← or_fail quote usage_unavailable
  need (route_eq q.route spec.plan.route && str_eq q.spec_sha256 spec.fingerprint)
  need (not q.fast || a.fast_available)
  w ← current_week l g.owner_id a.clock_week
  now ← current_time a.clock_deadline
  need (ltb now spec.limits.deadline_unix_ms)
  reserve_or_repeat g a job spec q w l (find_usage g.owner_id job l.usage)

-- A `WorkQuote` has passed its checks when it was built.
unfoldable pub built_quote : Option WorkQuote → Result (Unit {0})
built_quote none = ok tt
built_quote (some q) = check_quote q

-- WorkUsageLedger.reserve_for_job
unfoldable pub reserve_for_job :
    Answers → String → ExecutionSpec → Option WorkQuote → Ledger → Result (Ledger × Reservation)
unfolding current_grant same_grant
reserve_for_job a job spec quote l = do
  built_quote quote
  identifier job
  g ← current_grant a.grant_first
  authorize g g.owner_id spec.plan.route no_mode
  if is_work spec.plan.route
      then reserve_work g a job spec quote l
      else (do need (is_none quote); same_grant g a.grant_locked; ok (l, unmetered))

pub data Outcome : Type 0 where
  work_succeeded work_failed work_cancelled work_expired : Outcome
  other_outcome : String → Outcome

abbrev known_outcome : Outcome → Bool
known_outcome (other_outcome s) = false
known_outcome _ = true

-- What `verify_receipt` returns.
pub record Receipt : Type 0 where
  pub receipt_sha256 : String
  pub units : ℕ
  pub quiescent : Bool
  pub outcome : Outcome

-- UPDATE work_usage SET settled=?,receipt=? WHERE owner=? AND job=?; the primary key makes the row
-- unique.
unfoldable pub settle_row : String → String → ℕ → String → List UsageRow → List UsageRow
settle_row owner job charged id [] = []
settle_row owner job charged id (r ∷ rows) =
    if str_eq r.owner owner && str_eq r.job job
    then record r { settled = some charged; receipt = some id } ∷ rows
    else r ∷ settle_row owner job charged id rows

abbrev pub receipt_is : Option String → String → Bool
receipt_is none id = false
receipt_is (some r) id = str_eq r id

-- The receipt is new: the job's reservation is replaced by the charge.
unfoldable pub charge_receipt :
    ExecutionGrant
    → Option Receipt
    → Option ExecutionGrant
    → String
    → String
    → UsageRow
    → Ledger
    → Result Ledger
unfolding same_grant settle_row
charge_receipt g verified again job id row l = do
  value ← or_fail verified usage_unavailable
  need (str_eq value.receipt_sha256 row.fingerprint && value.quiescent)
  need (known_outcome value.outcome)
  units ← number value.units 0 row.standard
  need (not (any (λ r. str_eq r.owner g.owner_id && receipt_is r.receipt id) l.usage))
  charged ← usage_units units (not (row.fast_flag == 0))
  same_grant g again
  ok (record l { usage = settle_row g.owner_id job charged id l.usage })

-- A row with a receipt is settled already: the same receipt changes nothing.
unfoldable pub settle_found :
    ExecutionGrant
    → Option Receipt
    → Option ExecutionGrant
    → String
    → String
    → UsageRow
    → Ledger
    → Option String
    → Result Ledger
settle_found g verified again job id row l (some known) = do
  need (str_eq known id)
  same_grant g again
  ok l
settle_found g verified again job id row l none = charge_receipt g verified again job id row l

-- WorkUsageLedger.settle
unfoldable pub settle :
    Option ExecutionGrant
    → Option Receipt
    → Option ExecutionGrant
    → String
    → String
    → Ledger
    → Result Ledger
settle first verified again job id l = do
  identifier job
  identifier id
  g ← current_grant first
  row ← or_fail (find_usage g.owner_id job l.usage) usage_unavailable
  validate_record row
  settle_found g verified again job id row l row.receipt

-- The report of `snapshot`, less its constant fields; the percentage is in hundredths.
pub data Snapshot : Type 0 where
  unavailable : Snapshot
  -- remaining units, hundredths of a percent, the totals, capacity, the week and the time
  available : ℕ → ℕ → Totals → ℕ → WorkWeek → ℕ → Snapshot

-- The rest of `snapshot`, from the outcome of `_week`; it handles `WorkUsageError` alone.
unfoldable pub report_week :
    ExecutionGrant → Option ℕ → Option ExecutionGrant → Ledger → Result WorkWeek → Result Snapshot
unfolding same_grant current_time
report_week g clock again l (err usage_unavailable) = do same_grant g again; ok unavailable
report_week g clock again l (err e) = err e
report_week g clock again l (ok w) = do
  t ← totals g.owner_id w.period_id l
  let cap = capacity w g.tier
  let remaining = cap - t.held - t.used
  now ← current_time clock
  same_grant g again
  if in_week w now w.ends_ms
      then ok (available remaining (remaining * 10000 / cap) t cap w now)
      else ok unavailable

-- WorkUsageLedger.snapshot
unfoldable pub snapshot :
    Option ExecutionGrant → Option ℕ → Option ℕ → Option ExecutionGrant → Ledger → Result Snapshot
snapshot first clock clock_again again l = do
  g ← current_grant first
  need (paid g.tier)
  report_week g clock_again again l (current_week l g.owner_id clock)
