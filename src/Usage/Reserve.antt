-- ===== src/Usage/Reserve.antt =====
-- Admission of Work: what a new reservation has checked, and what it leaves.
use kova_gpt_models.Common.{
  ℕ, ◌+◌, ◌≤◌, ◌≡◌, String, is_identifier, str_eq, true, false, Option, none, some, [], ◌∷◌, ◌++◌,
  ok, arith, Option-cases, Result-cases, inl, inr, ◌<◌,
}
use kova_gpt_models.Router.Routes.{route_eq}
use kova_gpt_models.Contracts.Grant.{ExecutionGrant}
use kova_gpt_models.Contracts.Spec.{ExecutionSpec}
use kova_gpt_models.Usage.Ledger.{
  WorkWeek, WorkQuote, Ledger, Totals, check_quote, usage_units, totals,
}
use kova_gpt_models.Usage.Operations.{
  Answers, metered, reserve_for_job, reserve_work, admit_reservation, repeat_reservation,
  reserve_or_repeat, current_grant, capacity, current_week, current_time, find_usage, new_row,
  built_quote,
}

module _ (a : Answers) (job : String) (spec : ExecutionSpec) (quote : Option WorkQuote)
    (l l' : Ledger) (units : ℕ) (period : String)
    (h : reserve_for_job a job spec quote l ≡ ok (l', metered units period false true)) where
  pub reserve_grant :
      (g : ExecutionGrant) × (current_grant a.grant_first ≡ ok g)
      × (reserve_work g a job spec quote l ≡ ok (l', metered units period false true))
  unfolding reserve_for_job
  reserve_grant = ground arith

  pub reserve_identifier : is_identifier job ≡ true
  unfolding reserve_for_job
  reserve_identifier = ground arith

  pub reserve_built : (q : WorkQuote) → quote ≡ some q → check_quote q ≡ ok tt
  unfolding reserve_for_job built_quote
  reserve_built q e = ground arith

module _ (g : ExecutionGrant) (a : Answers) (job : String) (spec : ExecutionSpec)
    (quote : Option WorkQuote) (l l' : Ledger) (units : ℕ) (period : String)
    (h : reserve_work g a job spec quote l ≡ ok (l', metered units period false true)) where
  pub reserve_quote : (q : WorkQuote) × (quote ≡ some q)
  unfolding reserve_work
  reserve_quote = elim (Option-cases quote) [ inl e ↦ absurd (ground arith) | inr p ↦ p ]

  pub reserve_week : (w : WorkWeek) × (current_week l g.owner_id a.clock_week ≡ ok w)
  unfolding reserve_work
  reserve_week = elim (Result-cases (current_week l g.owner_id a.clock_week)) [
    | inl p ↦ p
    | inr e ↦ absurd (ground arith)
  ]

  pub reserve_new :
      (q : WorkQuote) (w : WorkWeek)
      → quote ≡ some q
      → current_week l g.owner_id a.clock_week ≡ ok w
      → (find_usage g.owner_id job l.usage ≡ none)
        × (admit_reservation g a job spec q w l ≡ ok (l', metered units period false true))
        × (route_eq q.route spec.plan.route ≡ true)
        × (str_eq q.spec_sha256 spec.fingerprint ≡ true)
  unfolding reserve_work reserve_or_repeat repeat_reservation
  reserve_new q w e f = ground arith

module _ (g : ExecutionGrant) (a : Answers) (job : String) (spec : ExecutionSpec) (q : WorkQuote)
    (w : WorkWeek) (l l' : Ledger) (units : ℕ) (period : String)
    (h : admit_reservation g a job spec q w l ≡ ok (l', metered units period false true)) where
  pub admit_totals :
      (t : Totals) × (now : ℕ) × (totals g.owner_id w.period_id l ≡ ok t)
      × (t.held + t.used + units ≤ capacity w g.tier)
      × (current_time a.clock_final ≡ ok now)
      × (w.starts_ms ≤ now)
      × (now < w.ends_ms)
      × (now < spec.limits.deadline_unix_ms)
  unfolding admit_reservation
  admit_totals = ground arith

  pub admit_row :
      (usage_units q.standard_units q.fast ≡ ok units)
      × (period ≡ w.period_id)
      × (l' ≡ record l { usage = l.usage ++ new_row g.owner_id job w.period_id q units ∷ [] })
  unfolding admit_reservation
  admit_row = ground arith
