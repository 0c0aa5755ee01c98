-- ===== src/Usage/Weeks.antt =====
-- The configuration of an owner's week.
use kova_gpt_models.Common.{
  ℕ, ◌≤◌, ◌<◌, sym, ◌∙◌, refl, none, ◌≡◌, ◌≢◌, String, str_eq, eq_iff, eq_refl, Bool, true, false,
  Option, some, List, [], ◌∷◌, any, ◌&&◌, ok, arith, inl, inr, ◌⊎◌, ap,
}
use kova_gpt_models.Usage.Ledger.{WorkWeek, Ledger}
use kova_gpt_models.Usage.Operations.{
  configure_week, check_prior, current_time, upsert_week, find_week,
}

upsert_week-found :
    (w : WorkWeek) (ws : List WorkWeek) → find_week w.owner_id (upsert_week w ws) ≡ some w
unfolding upsert_week
upsert_week-found w [] = ground (arith, eq_refl w.owner_id)
upsert_week-found w (x ∷ xs) = ground (arith, eq_refl w.owner_id, upsert_week-found w xs)

upsert_week-other :
    (w : WorkWeek) (o : String) (ws : List WorkWeek)
    → o ≢ w.owner_id
    → find_week o (upsert_week w ws) ≡ find_week o ws
unfolding upsert_week
upsert_week-other w o [] ne = ground (arith, eq_iff w.owner_id o)
upsert_week-other w o (x ∷ xs) ne = ground (
  arith,
  eq_iff w.owner_id o,
  eq_iff x.owner_id o,
  eq_iff x.owner_id w.owner_id,
  upsert_week-other w o xs ne,
)

configure_outcome :
    (w : WorkWeek) (admin : Bool) (clock : Option ℕ) (again : Bool) (l l' : Ledger)
    → configure_week w admin clock again l ≡ ok l'
    → (l' ≡ l) ⊎ (l' ≡ record l { weeks = upsert_week w l.weeks })
unfolding configure_week
configure_outcome w admin clock again l l' h = ground arith

configure_admin :
    (w : WorkWeek) (admin : Bool) (clock : Option ℕ) (again : Bool) (l l' : Ledger)
    → configure_week w admin clock again l ≡ ok l'
    → admin ≡ true
unfolding configure_week
configure_admin w admin clock again l l' h = ground arith

-- A configured week is authorized, and leaves all usage and the week of any other owner alone.
pub configure_week_scope :
    (w : WorkWeek) (admin : Bool) (clock : Option ℕ) (again : Bool) (l l' : Ledger) (o : String)
    → o ≢ w.owner_id
    → configure_week w admin clock again l ≡ ok l'
    → (admin ≡ true) × (l'.usage ≡ l.usage) × (find_week o l'.weeks ≡ find_week o l.weeks)
configure_week_scope w admin clock again l l' o ne h =
    let allowed = configure_admin w admin clock again l l' h in
    elim (configure_outcome w admin clock again l l' h) [
      | inl same ↦ (allowed, ap (λ (x : Ledger). x.usage) same, rw same)
      | inr wrote ↦
          (allowed, ap (λ (x : Ledger). x.usage) wrote, rw wrote (upsert_week-other w o l.weeks ne))
    ]

-- The clock at a configuration.
configure_clock :
    (w : WorkWeek) (admin : Bool) (clock : Option ℕ) (again : Bool) (l l' : Ledger)
    → configure_week w admin clock again l ≡ ok l'
    → (now : ℕ) × (clock ≡ some now)
unfolding configure_week current_time
configure_clock w admin none again l l' h = absurd (ground arith)
configure_clock w admin (some now) again l l' h = (now, refl)

-- What is accepted at a time for an owner with a prior week.
configure-prior :
    (w : WorkWeek) (admin : Bool) (now : ℕ) (again : Bool) (l l' : Ledger) (prior : WorkWeek)
    → configure_week w admin (some now) again l ≡ ok l'
    → find_week w.owner_id l.weeks ≡ some prior
    → (w.starts_ms ≤ now)
      × (now < w.ends_ms)
      × (((l' ≡ l)
            × (prior.period_id ≡ w.period_id)
            × (prior.starts_ms ≡ w.starts_ms)
            × (prior.ends_ms ≡ w.ends_ms)
            × (prior.plus_units ≡ w.plus_units))
          ⊎ ((find_week w.owner_id l'.weeks ≡ some w)
              × (again ≡ true)
              × (prior.ends_ms ≤ now)
              × (prior.ends_ms ≤ w.starts_ms)
              × (any (λ r. str_eq r.owner w.owner_id && str_eq r.period w.period_id) l.usage
                  ≡ false)))
unfolding configure_week check_prior current_time
configure-prior w admin now again l l' prior h found = (
  ground arith,
  ground arith,
  ground (arith, eq_iff prior.period_id w.period_id, upsert_week-found w l.weeks),
)

-- When the owner had a week before, a configuration is accepted only at a time within the new week.
-- It either repeats the prior week, with the same period, bounds and units, and changes nothing; or it
-- is authorized again, that time and the start of the new week are not before the end of the prior
-- one, no usage of the owner is booked in the new period, and the new week is then the owner's.
pub configure_week_prior :
    (w : WorkWeek) (admin : Bool) (clock : Option ℕ) (again : Bool) (l l' : Ledger)
    (prior : WorkWeek)
    → configure_week w admin clock again l ≡ ok l'
    → find_week w.owner_id l.weeks ≡ some prior
    → (now : ℕ) × (clock ≡ some now)
      × (w.starts_ms ≤ now)
      × (now < w.ends_ms)
      × (((l' ≡ l)
            × (prior.period_id ≡ w.period_id)
            × (prior.starts_ms ≡ w.starts_ms)
            × (prior.ends_ms ≡ w.ends_ms)
            × (prior.plus_units ≡ w.plus_units))
          ⊎ ((find_week w.owner_id l'.weeks ≡ some w)
              × (again ≡ true)
              × (prior.ends_ms ≤ now)
              × (prior.ends_ms ≤ w.starts_ms)
              × (any (λ r. str_eq r.owner w.owner_id && str_eq r.period w.period_id) l.usage
                  ≡ false)))
configure_week_prior w admin clock again l l' prior h found =
    let (now, read) = configure_clock w admin clock again l l' h in
    let at = sym (ap (λ c. configure_week w admin c again l) read) ∙ h in
    let (from, until, accepted) = configure-prior w admin now again l l' prior at found in
    (now, read, from, until, accepted)
