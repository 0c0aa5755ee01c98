-- ===== src/Usage/Repeat.antt =====
-- Repeating a reservation.
use kova_gpt_models.Common.{
  ℕ, ◌≡◌, refl, ◌∙◌, String, str_eq, eq_refl, true, false, Option, none, some, List, [], ◌∷◌, ◌++◌,
  ok, arith,
}
use kova_gpt_models.Router.Routes.{Route, route_eq}
use kova_gpt_models.Contracts.Grant.{ExecutionGrant}
use kova_gpt_models.Contracts.Spec.{ExecutionSpec}
use kova_gpt_models.Usage.Ledger.{WorkWeek, WorkQuote, UsageRow, Ledger, validate_record}
use kova_gpt_models.Usage.Operations.{
  Answers, Reservation, metered, reserve_for_job, reserve_work, reserve_or_repeat,
  repeat_reservation, admit_reservation, current_grant, same_grant, current_week, find_usage,
  new_row, matches_quote, consent_eq, is_work,
}
use kova_gpt_models.Usage.Capacity.{reserve-Booked}

-- The steps before the ledger's rows are read do not depend on them.
reserve_again :
    (a : Answers) (job : String) (spec : ExecutionSpec) (q : WorkQuote) (l : Ledger)
    (r : Ledger × Reservation) (g : ExecutionGrant) (w : WorkWeek) (rows : List UsageRow)
    → reserve_for_job a job spec (some q) l ≡ ok r
    → is_work spec.plan.route ≡ true
    → current_grant a.grant_first ≡ ok g
    → current_week l g.owner_id a.clock_week ≡ ok w
    → reserve_for_job a job spec (some q) (record l { usage = rows })
      ≡ reserve_or_repeat g a job spec q w
          (record l { usage = rows })
          (find_usage g.owner_id job rows)
unfolding reserve_for_job reserve_work current_week
reserve_again a job spec q l r g w rows h wk e f = ground arith

route_eq_refl : (r : Route) → route_eq r r ≡ true
unfolding route_eq
route_eq_refl r = ground arith

consent_eq_refl : (c : Option String) → consent_eq c c ≡ true
consent_eq_refl none = refl
consent_eq_refl (some s) = eq_refl s

matches-new_row :
    (owner job period : String) (q : WorkQuote) (units : ℕ)
    → matches_quote (new_row owner job period q units) q ≡ true
matches-new_row owner job period q units =
    ground (arith, eq_refl q.spec_sha256, route_eq_refl q.route, consent_eq_refl q.consent_id)

find_usage-append :
    (owner job : String) (rows : List UsageRow) (r : UsageRow)
    → find_usage owner job rows ≡ none
    → str_eq r.owner owner ≡ true
    → str_eq r.job job ≡ true
    → find_usage owner job (rows ++ r ∷ []) ≡ some r
unfolding find_usage
find_usage-append owner job [] r h o j = ground arith
find_usage-append owner job (x ∷ xs) r h o j = ground (arith, find_usage-append owner job xs r)

reserve_is_work :
    (a : Answers) (job : String) (spec : ExecutionSpec) (quote : Option WorkQuote) (l l' : Ledger)
    (units : ℕ) (period : String)
    → reserve_for_job a job spec quote l ≡ ok (l', metered units period false true)
    → is_work spec.plan.route ≡ true
unfolding reserve_for_job
reserve_is_work a job spec quote l l' units period h = ground arith

-- The last reading of the grant was the first one.
reserve_final_grant :
    (a : Answers) (job : String) (spec : ExecutionSpec) (quote : Option WorkQuote) (l l' : Ledger)
    (units : ℕ) (period : String) (g : ExecutionGrant)
    → reserve_for_job a job spec quote l ≡ ok (l', metered units period false true)
    → current_grant a.grant_first ≡ ok g
    → same_grant g a.grant_final ≡ ok tt
unfolding reserve_for_job reserve_work reserve_or_repeat repeat_reservation admit_reservation
reserve_final_grant a job spec quote l l' units period g h e = ground arith

repeat-new_row :
    (g : ExecutionGrant) (a : Answers) (q : WorkQuote) (l : Ledger) (job period : String)
    (units : ℕ)
    → validate_record (new_row g.owner_id job period q units) ≡ ok tt
    → same_grant g a.grant_final ≡ ok tt
    → repeat_reservation g a q (new_row g.owner_id job period q units) l
      ≡ ok (l, metered units period false false)
unfolding repeat_reservation
repeat-new_row g a q l job period units v s =
    ground (arith, matches-new_row g.owner_id job period q units)

-- The same request, made again with the same answers on the ledger that a new reservation left,
-- reports that reservation as not new and changes nothing.
pub reserve_repeat :
    (a : Answers) (job : String) (spec : ExecutionSpec) (quote : Option WorkQuote) (l l' : Ledger)
    (units : ℕ) (period : String)
    → reserve_for_job a job spec quote l ≡ ok (l', metered units period false true)
    → reserve_for_job a job spec quote l' ≡ ok (l', metered units period false false)
reserve_repeat a job spec quote l l' units period h =
    let (q, quoted, b) = reserve-Booked a job spec quote l l' units period h in
    let row = new_row b.grant.owner_id job period q units in
    let rows = l.usage ++ row ∷ [] in
    let again =
      reserve_again a job spec q l (l', metered units period false true) b.grant b.week rows
        (rw quoted at h) (reserve_is_work a job spec quote l l' units period h) b.grant_read
        b.week_read in
    let found =
      find_usage-append b.grant.owner_id job l.usage row b.fresh (eq_refl b.grant.owner_id)
        (eq_refl job) in
    let done =
      repeat-new_row b.grant a q (record l { usage = rows }) job period units b.valid
        (reserve_final_grant a job spec quote l l' units period b.grant h b.grant_read) in
    rw (quoted, b.written) (again ∙ (rw found (unfold reserve_or_repeat in done)))
