-- ===== src/Examples/LedgerRuns.antt =====
-- A week of work, reservations and settlements, and the theorems on the ledger applied to them.
use kova_gpt_models.Common.{
  ℕ, Option, ◌+◌, ◌-◌, ◌*◌, ◌≤◌, ◌<◌, ◌≡◌, ◌≢◌, if◌then◌else◌, ◌↔◌, ◌⊎◌, refl, arith, eq_iff,
  is_identifier, is_hex, String, str_eq, true, false, ◌&&◌, none, some, [], ◌∷◌, any, sum_of, ok,
  err, usage_unavailable,
}
use kova_gpt_models.Router.Routes.{plus, pro, route_eq, route_mem}
use kova_gpt_models.Router.Entitlements.{all_work_routes}
use kova_gpt_models.Contracts.Grant.{ExecutionGrant, authorize, grant_eq}
use kova_gpt_models.Usage.Ledger.{
  WorkWeek, WorkQuote, Ledger, Totals, max_units, usage_units, check_week, check_quote,
  check_charge, check_settlement, check_record, validate_record, add_row, total_rows, totals,
}
use kova_gpt_models.Usage.Operations.{
  Answers, metered, Receipt, work_succeeded, current_grant, find_week, capacity, configure_week,
  check_prior, upsert_week, reserve_for_job, reserve_work, reserve_or_repeat, admit_reservation,
  repeat_reservation, built_quote, settle, settle_found, charge_receipt, settle_row, snapshot,
  report_week, current_week, current_time, same_grant, find_usage, new_row,
}
use kova_gpt_models.Usage.Units.{usage_units_bounds, check_charge_iff}
use kova_gpt_models.Usage.Totals.{totals-sums, held_of, used_of, carried_of}
use kova_gpt_models.Usage.Capacity.{reserve_within_capacity}
use kova_gpt_models.Usage.Repeat.{reserve_repeat}
use kova_gpt_models.Usage.Settle.{commitment}
use kova_gpt_models.Usage.Once.{settle-commitment, settle_once}
use kova_gpt_models.Usage.Snapshot.{snapshot_available}
use kova_gpt_models.Usage.Weeks.{configure_week_scope, configure_week_prior}
use kova_gpt_models.Examples.Samples.{digest_text, sample_route, sample_grant, sample_spec}

abbrev sample_week : WorkWeek
sample_week = record {
  owner_id = "owner";
  period_id = "week-1";
  starts_ms = 1000;
  ends_ms = 604801000;
  plus_units = 10;
}

abbrev next_week : WorkWeek
next_week = record sample_week { period_id = "week-2"; starts_ms = 604801000; ends_ms = 1209601000 }

abbrev sample_quote : WorkQuote
sample_quote = record {
  route = sample_route;
  spec_sha256 = digest_text;
  standard_units = 3;
  fast = true;
  consent_id = some "consent";
}

abbrev empty_week : Ledger
empty_week = record { weeks = sample_week ∷ []; usage = [] }

abbrev reserved_week : Ledger
reserved_week = record empty_week { usage = new_row "owner" "job" "week-1" sample_quote 5 ∷ [] }

abbrev settled_week : Ledger
settled_week = record empty_week {
  usage =
      record (new_row "owner" "job" "week-1" sample_quote 5) {
        settled = some 3;
        receipt = some "receipt";
      }
      ∷ [];
}

abbrev sample_answers : Answers
sample_answers = record {
  grant_first = some sample_grant;
  grant_locked = some sample_grant;
  grant_final = some sample_grant;
  clock_week = some 2000;
  clock_deadline = some 2001;
  clock_final = some 2002;
  fast_available = true;
}

abbrev sample_receipt : Receipt
sample_receipt = record {
  receipt_sha256 = digest_text;
  units = 2;
  quiescent = true;
  outcome = work_succeeded;
}

usage_units_bounds_example :
    ((usage_units 3 false ≡ ok 5) ↔ ((◌≡◌ {A = ℕ} 5 3) × (3 ≤ max_units)))
    × ((usage_units 3 true ≡ ok 5) ↔ ((3 * 3 ≤ 2 * 5) × (2 * 5 ≤ 3 * 3 + 1) × (5 ≤ max_units)))
usage_units_bounds_example = usage_units_bounds 3 5

check_charge_iff_example :
    (check_charge 3 5 true ≡ ok tt) ↔ ((3 ≤ 5) × ((n : ℕ) × (usage_units n true ≡ ok 3)))
check_charge_iff_example = check_charge_iff 3 5

abbrev held_totals : Totals
held_totals = record { held = 5; used = 0; previous = 0 }

totals-sums_example :
    (5 ≡ sum_of (held_of "owner") reserved_week.usage)
    × (0 ≡ sum_of (used_of "owner" "week-1") reserved_week.usage)
    × (0 ≡ sum_of (carried_of "owner" "week-1") reserved_week.usage)
unfolding usage_units check_week check_quote is_identifier is_hex route_mem route_eq authorize
    grant_eq check_charge check_settlement check_record validate_record add_row total_rows totals
    current_grant same_grant current_time current_week check_prior upsert_week configure_week
    built_quote reserve_for_job reserve_work reserve_or_repeat admit_reservation repeat_reservation
    settle settle_found charge_receipt settle_row report_week snapshot find_usage all_work_routes
totals-sums_example = totals-sums "owner" "week-1" reserved_week held_totals refl

reserve_within_capacity_example :
    (g : ExecutionGrant) × (w : WorkWeek) × (t : Totals) × (current_grant (some sample_grant)
      ≡ ok g)
    × (find_week g.owner_id reserved_week.weeks ≡ some w)
    × (totals g.owner_id w.period_id reserved_week ≡ ok t)
    × (t.held + t.used ≤ capacity w g.tier)
unfolding usage_units check_week check_quote is_identifier is_hex route_mem route_eq authorize
    grant_eq check_charge check_settlement check_record validate_record add_row total_rows totals
    current_grant same_grant current_time current_week check_prior upsert_week configure_week
    built_quote reserve_for_job reserve_work reserve_or_repeat admit_reservation repeat_reservation
    settle settle_found charge_receipt settle_row report_week snapshot find_usage all_work_routes
reserve_within_capacity_example =
    reserve_within_capacity sample_answers "job" sample_spec (some sample_quote) empty_week
      reserved_week 5 "week-1" refl

reserve_repeat_example :
    reserve_for_job sample_answers "job" sample_spec (some sample_quote) reserved_week
    ≡ ok (reserved_week, metered 5 "week-1" false false)
unfolding usage_units check_week check_quote is_identifier is_hex route_mem route_eq authorize
    grant_eq check_charge check_settlement check_record validate_record add_row total_rows totals
    current_grant same_grant current_time current_week check_prior upsert_week configure_week
    built_quote reserve_for_job reserve_work reserve_or_repeat admit_reservation repeat_reservation
    settle settle_found charge_receipt settle_row report_week snapshot find_usage all_work_routes
reserve_repeat_example =
    reserve_repeat sample_answers "job" sample_spec (some sample_quote) empty_week reserved_week 5
      "week-1" refl

settle-commitment_example :
    (g : ExecutionGrant) × (current_grant (some sample_grant) ≡ ok g)
    × (sum_of (commitment g.owner_id) settled_week.usage
        ≤ sum_of (commitment g.owner_id) reserved_week.usage)
unfolding usage_units check_week check_quote is_identifier is_hex route_mem route_eq authorize
    grant_eq check_charge check_settlement check_record validate_record add_row total_rows totals
    current_grant same_grant current_time current_week check_prior upsert_week configure_week
    built_quote reserve_for_job reserve_work reserve_or_repeat admit_reservation repeat_reservation
    settle settle_found charge_receipt settle_row report_week snapshot find_usage all_work_routes
settle-commitment_example =
    settle-commitment (some sample_grant) (some sample_receipt) (some sample_grant) "job" "receipt"
      reserved_week settled_week refl

settle_once_example :
    settle (some sample_grant) none (some sample_grant) "job" "other" settled_week
    ≡ (if str_eq "receipt" "other" then ok settled_week else err usage_unavailable)
unfolding usage_units check_week check_quote is_identifier is_hex route_mem route_eq authorize
    grant_eq check_charge check_settlement check_record validate_record add_row total_rows totals
    current_grant same_grant current_time current_week check_prior upsert_week configure_week
    built_quote reserve_for_job reserve_work reserve_or_repeat admit_reservation repeat_reservation
    settle settle_found charge_receipt settle_row report_week snapshot find_usage all_work_routes
settle_once_example =
    settle_once (some sample_grant) (some sample_receipt) (some sample_grant) "job" "receipt"
      reserved_week settled_week none "other" refl refl

snapshot_available_example :
    (g : ExecutionGrant) × (◌≡◌ {A = Option ExecutionGrant} (some sample_grant) (some g))
    × (find_week g.owner_id reserved_week.weeks ≡ some sample_week)
    × (1000 ≤ 3000)
    × (3000 < 604801000)
    × (((g.tier ≡ plus) × (10 ≡ sample_week.plus_units))
        ⊎ ((g.tier ≡ pro) × (10 ≡ 5 * sample_week.plus_units)))
    × (5 ≡ sum_of (held_of g.owner_id) reserved_week.usage)
    × (0 ≡ sum_of (used_of g.owner_id "week-1") reserved_week.usage)
    × (5 ≡ 10 - (5 + 0))
    × (5000 ≤ 10000)
    × (5000 * 10 ≤ 5 * 10000)
unfolding usage_units check_week check_quote is_identifier is_hex route_mem route_eq authorize
    grant_eq check_charge check_settlement check_record validate_record add_row total_rows totals
    current_grant same_grant current_time current_week check_prior upsert_week configure_week
    built_quote reserve_for_job reserve_work reserve_or_repeat admit_reservation repeat_reservation
    settle settle_found charge_receipt settle_row report_week snapshot find_usage all_work_routes
snapshot_available_example =
    snapshot_available (some sample_grant) (some 2500) (some 3000) (some sample_grant) reserved_week
      5 5000 held_totals 10 sample_week 3000 refl

abbrev second_week : Ledger
second_week = record settled_week { weeks = next_week ∷ [] }

other_owner : ◌≢◌ {A = String} "other" "owner"
other_owner e = ground (arith, eq_iff "other" "owner")

configure_week_scope_example :
    (true ≡ true)
    × (second_week.usage ≡ settled_week.usage)
    × (find_week "other" second_week.weeks ≡ find_week "other" settled_week.weeks)
unfolding usage_units check_week check_quote is_identifier is_hex route_mem route_eq authorize
    grant_eq check_charge check_settlement check_record validate_record add_row total_rows totals
    current_grant same_grant current_time current_week check_prior upsert_week configure_week
    built_quote reserve_for_job reserve_work reserve_or_repeat admit_reservation repeat_reservation
    settle settle_found charge_receipt settle_row report_week snapshot find_usage all_work_routes
configure_week_scope_example =
    configure_week_scope next_week true (some 604801000) true settled_week second_week "other"
      other_owner refl

configure_week_prior_example :
    (now : ℕ) × (◌≡◌ {A = Option ℕ} (some 604801000) (some now))
    × (next_week.starts_ms ≤ now)
    × (now < next_week.ends_ms)
    × (((second_week ≡ settled_week)
          × (sample_week.period_id ≡ next_week.period_id)
          × (sample_week.starts_ms ≡ next_week.starts_ms)
          × (sample_week.ends_ms ≡ next_week.ends_ms)
          × (sample_week.plus_units ≡ next_week.plus_units))
        ⊎ ((find_week "owner" second_week.weeks ≡ some next_week)
            × (true ≡ true)
            × (sample_week.ends_ms ≤ now)
            × (sample_week.ends_ms ≤ next_week.starts_ms)
            × (any (λ r. str_eq r.owner "owner" && str_eq r.period "week-2") settled_week.usage
                ≡ false)))
unfolding usage_units check_week check_quote is_identifier is_hex route_mem route_eq authorize
    grant_eq check_charge check_settlement check_record validate_record add_row total_rows totals
    current_grant same_grant current_time current_week check_prior upsert_week configure_week
    built_quote reserve_for_job reserve_work reserve_or_repeat admit_reservation repeat_reservation
    settle settle_found charge_receipt settle_row report_week snapshot find_usage all_work_routes
configure_week_prior_example =
    configure_week_prior next_week true (some 604801000) true settled_week second_week sample_week
      refl refl
