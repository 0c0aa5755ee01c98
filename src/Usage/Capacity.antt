-- ===== src/Usage/Capacity.antt =====
-- Admission never overbooks an allowance, and its rows pass the ledger's own audit.
use kova_gpt_models.Common.{
  ℕ, ◌+◌, ◌/◌, ◌≤◌, ◌≡◌, refl, ◌∙◌, subst, String, eq_iff, eq_refl, is_identifier, Bool, true,
  false, Option, none, some, List, [], ◌∷◌, ◌++◌, ◌==◌, filter, ok, arith,
}
use kova_gpt_models.Router.Routes.{Tier}
use kova_gpt_models.Contracts.Grant.{ExecutionGrant}
use kova_gpt_models.Contracts.Spec.{ExecutionSpec}
use kova_gpt_models.Usage.Ledger.{
  WorkWeek, WorkQuote, UsageRow, Ledger, Totals, check_quote, check_week, check_record,
  check_settlement, row_quote, usage_units, totals, total_rows, add_row, counts_for,
  validate_record, max_units,
}
use kova_gpt_models.Usage.Operations.{
  Answers, metered, reserve_for_job, current_grant, capacity, current_week, find_week, find_usage,
  new_row, nat_of,
}
use kova_gpt_models.Usage.Totals.{total_rows-cons}
use kova_gpt_models.Usage.Reserve.{
  reserve_grant, reserve_built, reserve_identifier, reserve_quote, reserve_week, reserve_new,
  admit_totals, admit_row,
}

fast-flag : (b : Bool) → (nat_of b == 1) ≡ b
fast-flag true = refl
fast-flag false = refl

row_quote-new_row :
    (owner job period : String) (q : WorkQuote) (units : ℕ)
    → row_quote (new_row owner job period q units) ≡ q
row_quote-new_row owner job period q units = λ i. record q { fast = fast-flag q.fast i }

units_positive :
    (q : WorkQuote) (units : ℕ)
    → check_quote q ≡ ok tt
    → usage_units q.standard_units q.fast ≡ ok units
    → (1 ≤ units) × (units ≤ max_units)
unfolding check_quote usage_units
units_positive q units h k = ground arith

-- The row of an admitted reservation passes `_validate_record`.
pub new_row-valid :
    (owner job period : String) (q : WorkQuote) (units : ℕ)
    → is_identifier owner ≡ true
    → is_identifier job ≡ true
    → is_identifier period ≡ true
    → check_quote q ≡ ok tt
    → usage_units q.standard_units q.fast ≡ ok units
    → validate_record (new_row owner job period q units) ≡ ok tt
unfolding validate_record check_record check_settlement
new_row-valid owner job period q units o j p c u = ground (
  arith,
  row_quote-new_row owner job period q units,
  fast-flag q.fast,
  units_positive q units c u,
)

total_rows-append :
    (period : String) (t u : Totals) (rows more : List UsageRow)
    → total_rows period t rows ≡ ok u
    → total_rows period t (rows ++ more) ≡ total_rows period u more
unfolding total_rows
total_rows-append period t u [] more h = ground arith
total_rows-append period t u (r ∷ rows) more h =
    let (v, valid, added, rest) = total_rows-cons period t u r rows h in
    ground (arith, total_rows-append period v u rows more rest)

filter-append :
    (owner period : String) (rows more : List UsageRow)
    → filter (counts_for owner period) (rows ++ more)
      ≡ filter (counts_for owner period) rows ++ filter (counts_for owner period) more
filter-append owner period [] more = refl
filter-append owner period (r ∷ rows) more = ground (arith, filter-append owner period rows more)

filter-new_row :
    (owner job period : String) (q : WorkQuote) (units : ℕ)
    → filter (counts_for owner period) (new_row owner job period q units ∷ [])
      ≡ new_row owner job period q units ∷ []
filter-new_row owner job period q units = ground (arith, eq_refl owner, eq_refl period)

-- With a valid row of this period added, the totals grow by its reservation.
totals-new_row :
    (owner job period : String) (q : WorkQuote) (units : ℕ) (l : Ledger) (t : Totals)
    → validate_record (new_row owner job period q units) ≡ ok tt
    → totals owner period l ≡ ok t
    → t.held + units ≤ max_units
    → totals owner period (record l { usage = l.usage ++ new_row owner job period q units ∷ [] })
      ≡ ok (record t { held = t.held + units })
unfolding totals
totals-new_row owner job period q units l t valid before fits =
    rw
      (
        filter-append owner period l.usage (new_row owner job period q units ∷ []),
        filter-new_row owner job period q units,
      )
      (total_rows-append period _ t _ (new_row owner job period q units ∷ []) before
        ∙ (unfold total_rows add_row in ground (arith, eq_refl period)))

current_week-found :
    (l : Ledger) (owner : String) (clock : Option ℕ) (w : WorkWeek)
    → current_week l owner clock ≡ ok w
    → (find_week owner l.weeks ≡ some w) × (check_week w ≡ ok tt)
unfolding current_week
current_week-found l owner clock w h = ground arith

find_week-owner :
    (owner : String) (ws : List WorkWeek) (w : WorkWeek)
    → find_week owner ws ≡ some w
    → w.owner_id ≡ owner
find_week-owner owner [] w h = cc
find_week-owner owner (x ∷ xs) w h =
    ground (arith, eq_iff x.owner_id owner, find_week-owner owner xs w)

check_week-facts :
    (w : WorkWeek)
    → check_week w ≡ ok tt
    → (is_identifier w.owner_id ≡ true)
      × (is_identifier w.period_id ≡ true)
      × (w.plus_units ≤ max_units / 5)
unfolding check_week
check_week-facts w h = ground arith

capacity-le : (w : WorkWeek) (t : Tier) → w.plus_units ≤ max_units / 5 → capacity w t ≤ max_units
capacity-le w t h = ground arith

-- What a new reservation is booked under.
pub record Booked (a : Answers) (job : String) (q : WorkQuote) (l l' : Ledger) (units : ℕ)
    (period : String) : Type 0 where
  pub grant : ExecutionGrant
  pub week : WorkWeek
  pub before : Totals
  pub grant_read : current_grant a.grant_first ≡ ok grant
  pub week_found : find_week grant.owner_id l.weeks ≡ some week
  pub same_period : period ≡ week.period_id
  pub totals_before : totals grant.owner_id period l ≡ ok before
  pub within : before.held + before.used + units ≤ capacity week grant.tier
  pub small : capacity week grant.tier ≤ max_units
  pub week_read : current_week l grant.owner_id a.clock_week ≡ ok week
  pub valid : validate_record (new_row grant.owner_id job period q units) ≡ ok tt
  pub fresh : find_usage grant.owner_id job l.usage ≡ none
  pub written : l' ≡ record l { usage = l.usage ++ new_row grant.owner_id job period q units ∷ [] }

pub reserve-Booked :
    (a : Answers) (job : String) (spec : ExecutionSpec) (quote : Option WorkQuote) (l l' : Ledger)
    (units : ℕ) (period : String)
    → reserve_for_job a job spec quote l ≡ ok (l', metered units period false true)
    → (q : WorkQuote) × (quote ≡ some q) × Booked a job q l l' units period
reserve-Booked a job spec quote l l' units period h =
    let (g, granted, work) = reserve_grant a job spec quote l l' units period h in
    let (q, quoted) = reserve_quote g a job spec quote l l' units period work in
    let (w, week) = reserve_week g a job spec quote l l' units period work in
    let (fresh, admitted, _, _) =
      reserve_new g a job spec quote l l' units period work q w quoted week in
    let (t, now, before, within, _, _, _, _) =
      admit_totals g a job spec q w l l' units period admitted in
    let (debited, same, written) = admit_row g a job spec q w l l' units period admitted in
    let found = current_week-found l g.owner_id a.clock_week w week in
    let facts = check_week-facts w found.1 in
    let built = reserve_built a job spec quote l l' units period h q quoted in
    (
      q,
      quoted,
      record {
        grant = g;
        week = w;
        before = t;
        grant_read = granted;
        week_found = found.0;
        same_period = same;
        totals_before = rw same before;
        within = within;
        small = capacity-le w g.tier facts.2;
        week_read = week;
        valid = rw same (
            new_row-valid g.owner_id job w.period_id q units
              (subst (λ (o : String). is_identifier o ≡ true)
                (find_week-owner g.owner_id l.weeks w found.0) facts.0)
              (reserve_identifier a job spec quote l l' units period h) facts.1 built debited);
        fresh = fresh;
        written = rw same written;
      },
    )

-- A new reservation leaves a ledger whose totals are computed, and in which all that the owner has
-- used in the week, holds in it and holds from earlier weeks fits the capacity of the owner's tier.
pub reserve_within_capacity :
    (a : Answers) (job : String) (spec : ExecutionSpec) (quote : Option WorkQuote) (l l' : Ledger)
    (units : ℕ) (period : String)
    → reserve_for_job a job spec quote l ≡ ok (l', metered units period false true)
    → (g : ExecutionGrant) × (w : WorkWeek) × (t : Totals) × (current_grant a.grant_first ≡ ok g)
      × (find_week g.owner_id l'.weeks ≡ some w)
      × (totals g.owner_id w.period_id l' ≡ ok t)
      × (t.held + t.used ≤ capacity w g.tier)
reserve_within_capacity a job spec quote l l' units period h =
    let (q, quoted, b) = reserve-Booked a job spec quote l l' units period h in
    let total =
      totals-new_row b.grant.owner_id job period q units l b.before b.valid b.totals_before
        (let w = b.within in let c = b.small in omega arith) in
    (
      b.grant,
      b.week,
      record b.before { held = b.before.held + units },
      b.grant_read,
      rw b.written b.week_found,
      rw (← b.same_period, b.written) total,
      (let w = b.within in omega arith),
    )
