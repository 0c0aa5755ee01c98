-- ===== src/Store/Rows.antt =====
-- Lemmas on the rows of a job: what an update of one row does to sums, counts and predicates.
use kova_gpt_models.Common.{
  ℕ, ◌+◌, ◌≡◌, String, str_eq, eq_iff, Bool, some, List, [], ◌∷◌, count, sum_of, All, arith,
  if◌then◌else◌, Bool-cases, inl, inr,
}
use kova_gpt_models.Store.State.{StageRow, find_row, update_row}

pub find_row-id :
    (id : String) (rows : List StageRow) (row : StageRow)
    → find_row id rows ≡ some row
    → row.stage_id ≡ id
find_row-id id [] row h = cc
find_row-id id (r ∷ rows) row h = ground (arith, eq_iff r.stage_id id, find_row-id id rows row)

module _ (id : String) (g : StageRow → StageRow) where
  pub sum_of-update_row :
      (f : StageRow → ℕ) (rows : List StageRow) (row : StageRow)
      → find_row id rows ≡ some row
      → sum_of f (update_row id g rows) + f row ≡ sum_of f rows + f (g row)
  unfolding update_row
  sum_of-update_row f [] row h = cc
  sum_of-update_row f (r ∷ rows) row h = ground (arith, sum_of-update_row f rows row)

  pub count-update_row :
      (p : StageRow → Bool) (rows : List StageRow) (row : StageRow)
      → find_row id rows ≡ some row
      → count p (update_row id g rows) + (if p row then 1 else 0)
        ≡ count p rows + (if p (g row) then 1 else 0)
  unfolding update_row
  count-update_row p [] row h = cc
  count-update_row p (r ∷ rows) row h = ground (arith, count-update_row p rows row)

  pub All-update_row {κ} :
      (P : StageRow → Type κ) (rows : List StageRow)
      → ((r : StageRow) → P r → P (g r))
      → All P rows
      → All P (update_row id g rows)
  unfolding update_row
  All-update_row P [] k h = tt
  All-update_row P (r ∷ rows) k h = elim (Bool-cases (str_eq r.stage_id id)) [
    | inl e ↦ rw e (k r h.0, h.1)
    | inr e ↦ rw e (h.0, All-update_row P rows k h.1)
  ]
