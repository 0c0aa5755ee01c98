-- ===== src/Usage/Ledger.antt =====
-- The values and tables of the ledger: weeks, quotes, the rows of `work_weeks` and `work_usage`, and
-- the totals that admission reads. All the source's integers are at least 0 where it accepts them.
use kova_gpt_models.Common.{
  ℕ, ◌+◌, ◌*◌, ◌/◌, String, str_eq, is_identifier, is_hex, Bool, true, false, ◌&&◌, ◌||◌, Option,
  none, some, List, [], ◌∷◌, filter, leb, ◌==◌, is_none, Result, ok, err, usage_unavailable,
  execution_error, guard, rethrow, ◌>>=◌, ◌>>◌, if◌then◌else◌,
}
use kova_gpt_models.Router.Routes.{Route, route_mem}
use kova_gpt_models.Router.Entitlements.{all_work_routes}

-- MAX and WEEK_MS
abbrev pub max_units : ℕ
max_units = 9007199254740991

abbrev pub week_ms : ℕ
week_ms = 604800000

-- need
abbrev pub need : Bool → Result (Unit {0})
need b = guard b usage_unavailable

-- number
abbrev pub number : ℕ → ℕ → ℕ → Result ℕ
number value minimum maximum = need (leb minimum value && leb value maximum) >> ok value

-- The debit of standard units, before its range check: fast work costs half as much again, rounded
-- up.
abbrev pub debit : ℕ → Bool → ℕ
debit standard fast = if fast then (standard * 3 + 1) / 2 else standard

-- usage_units
unfoldable pub usage_units : ℕ → Bool → Result ℕ
usage_units standard fast = do
  _ ← number standard 0 max_units
  number (debit standard fast) 0 max_units

-- contracts.identifier
abbrev pub identifier : String → Result (Unit {0})
identifier s = guard (is_identifier s) execution_error

pub record WorkWeek : Type 0 where
  pub owner_id : String
  pub period_id : String
  pub starts_ms : ℕ
  pub ends_ms : ℕ
  pub plus_units : ℕ

-- `WorkWeek.__post_init__`
unfoldable pub check_week : WorkWeek → Result (Unit {0})
check_week w = do
  identifier w.owner_id
  identifier w.period_id
  _ ← number w.starts_ms 1 max_units
  _ ← number w.ends_ms 1 max_units
  need (w.starts_ms + week_ms == w.ends_ms)
  _ ← number w.plus_units 1 (max_units / 5)
  ok tt

pub record WorkQuote : Type 0 where
  pub route : Route
  pub spec_sha256 : String
  pub standard_units : ℕ
  pub fast : Bool
  pub consent_id : Option String

abbrev check_consent : Bool → Option String → Result (Unit {0})
check_consent true (some c) = identifier c
check_consent true none = err execution_error
check_consent false c = need (is_none c)

-- `WorkQuote.__post_init__`
unfoldable pub check_quote : WorkQuote → Result (Unit {0})
check_quote q = do
  need (route_mem q.route all_work_routes)
  need (is_hex 64 q.spec_sha256)
  _ ← number q.standard_units 1 (max_units * 2 / 3)
  check_consent q.fast q.consent_id

-- A row of `work_usage`.
pub record UsageRow : Type 0 where
  pub owner : String
  pub job : String
  pub period : String
  pub fingerprint : String
  pub row_route : Route
  pub standard : ℕ
  pub fast_flag : ℕ
  pub consent : Option String
  pub reserved : ℕ
  pub settled : Option ℕ
  pub receipt : Option String

-- The two tables. `work_weeks` has a row for each owner, in the shape of a `WorkWeek`.
pub record Ledger : Type 0 where
  pub weeks : List WorkWeek
  pub usage : List UsageRow

-- `row['fast'] == 1`
abbrev pub is_fast : UsageRow → Bool
is_fast r = r.fast_flag == 1

-- The quote that a row is checked against.
abbrev pub row_quote : UsageRow → WorkQuote
row_quote r = record {
  route = r.row_route;
  spec_sha256 = r.fingerprint;
  standard_units = r.standard;
  fast = is_fast r;
  consent_id = r.consent;
}

-- The persisted charge of a settled row: reachable by the debit of whole standard units.
unfoldable pub check_charge : ℕ → ℕ → Bool → Result (Unit {0})
unfolding usage_units
check_charge charged reserved fast = do
  _ ← number charged 0 reserved
  if fast then (do u ← usage_units (charged * 2 / 3) true; need (u == charged)) else ok tt

-- The settlement columns of a row agree.
unfoldable pub check_settlement : UsageRow → Option ℕ → Option String → Result (Unit {0})
check_settlement r none none = ok tt
check_settlement r (some charged) (some receipt) = do
  check_charge charged r.reserved (is_fast r)
  identifier receipt
check_settlement r _ _ = err usage_unavailable

-- The body of `_validate_record`, before its handler.
unfoldable pub check_record : UsageRow → Result (Unit {0})
check_record r = do
  identifier r.owner
  identifier r.job
  identifier r.period
  _ ← number r.fast_flag 0 1
  check_quote (row_quote r)
  _ ← number r.reserved 1 max_units
  u ← usage_units r.standard (is_fast r)
  need (r.reserved == u)
  check_settlement r r.settled r.receipt

-- WorkUsageLedger._validate_record
unfoldable pub validate_record : UsageRow → Result (Unit {0})
validate_record r = rethrow (check_record r) usage_unavailable

-- held, used and previous
pub record Totals : Type 0 where
  pub held : ℕ
  pub used : ℕ
  pub previous : ℕ

-- `owner=? AND (period=? OR settled IS NULL OR receipt IS NULL)`
abbrev pub counts_for : String → String → UsageRow → Bool
counts_for owner period r =
    str_eq r.owner owner && (str_eq r.period period || (is_none r.settled || is_none r.receipt))

-- The body of the loop of `_totals` on a row that has been validated.
unfoldable pub add_row : String → Totals → UsageRow → Option ℕ → Result Totals
add_row period t r none = do
  held ← number (t.held + r.reserved) 0 max_units
  if str_eq r.period period then ok (record t { held = held }) else (do
    previous ← number (t.previous + r.reserved) 0 max_units
    ok (record t { held = held; previous = previous }))
add_row period t r (some charged) = do
  used ← number (t.used + charged) 0 max_units
  ok (record t { used = used })

-- The loop of `_totals`.
unfoldable pub total_rows : String → Totals → List UsageRow → Result Totals
total_rows period t [] = ok t
total_rows period t (r ∷ rows) = do
  validate_record r
  t' ← add_row period t r r.settled
  total_rows period t' rows

-- WorkUsageLedger._totals
unfoldable pub totals : String → String → Ledger → Result Totals
totals owner period l =
    total_rows period (record { held = 0; used = 0; previous = 0 })
      (filter (counts_for owner period) l.usage)
