-- ===== src/Ultra/Debate.antt =====
-- ultra/binding.py: the gate of the debate round. What `json.loads` gives for a text is given, as
-- `none` where it raises or has other fields or types than the schema.
use kova_gpt_models.Common.{
  ℕ, ◌≡◌, refl, arith, String, codes, str_eq, eq_refl, is_space, Bool, true, false, ◌&&◌, not,
  Option, some, List, [], ◌∷◌, all, any, find, length, leb, ◌==◌, Result, ok, execution_error,
  guard, or_fail, ◌>>=◌, ◌>>◌, Option-cases, Result-cases, Bool-cases, inl, inr,
}
use kova_gpt_models.Contracts.Validate.{str_mem, all_distinct, bool_eq}

-- An entry of `disagreements`.
pub record Disagreement : Type 0 where
  pub disagreement_id : String
  pub stage_refs : List String
  pub entry_summary : List ℕ

-- The artifact of the judge.
pub record Judgment : Type 0 where
  pub material : Bool
  pub disagreement_refs : List String
  pub judge_summary : List ℕ

-- _load
unfoldable pub load {ℓ} : {A : Type ℓ} → (List ℕ → Option A) → List ℕ → Result A
load parse text = do
  guard (leb (length text) 250000) execution_error
  or_fail (parse text) execution_error

-- _summary
unfoldable pub check_summary : List ℕ → Result (Unit {0})
check_summary text =
    guard (any (λ c. not (is_space c)) text && leb (length text) 8192) execution_error

abbrev digit : ℕ → Bool
digit c = leb b'0' c && leb c b'9'

-- d[1-9][0-9]{0,2}
unfoldable pub is_disagreement_id : List ℕ → Bool
is_disagreement_id (d ∷ n ∷ rest) =
    d == b'd' && ((leb b'1' n && leb n b'9') && (leb (length rest) 2 && all digit rest))
is_disagreement_id _ = false

-- The body of the loop over the entries; `seen` has the ids of those before.
unfoldable pub check_entry : List String → List String → Disagreement → Result (Unit {0})
check_entry specialists seen e = do
  guard (is_disagreement_id (codes e.disagreement_id) && not (str_mem e.disagreement_id seen))
      execution_error
  guard
      ((leb 2 (length e.stage_refs) && leb (length e.stage_refs) 5)
        && (all_distinct e.stage_refs && all (λ r. str_mem r specialists) e.stage_refs))
      execution_error
  check_summary e.entry_summary

unfoldable pub check_entries : List String → List String → List Disagreement → Result (List String)
check_entries specialists seen [] = ok seen
check_entries specialists seen (e ∷ es) = do
  check_entry specialists seen e
  check_entries specialists (e.disagreement_id ∷ seen) es

-- validate_disagreements: the ids that are recorded.
unfoldable pub validate_disagreements :
    (List ℕ → Option (List Disagreement)) → List ℕ → List String → Result (List String)
validate_disagreements parse content specialists = do
  entries ← load parse content
  guard (leb (length entries) 32) execution_error
  check_entries specialists [] entries

abbrev not_empty : List String → Bool
not_empty [] = false
not_empty (x ∷ xs) = true

-- judge_requires_debate
unfoldable pub judge_requires_debate :
    (List ℕ → Option (List Disagreement))
    → (List ℕ → Option Judgment)
    → List ℕ
    → List ℕ
    → List String
    → Result Bool
judge_requires_debate parse_detector parse_judge content detector_content specialists = do
  recorded ← validate_disagreements parse_detector detector_content specialists
  j ← load parse_judge content
  guard (all_distinct j.disagreement_refs && all (λ r. str_mem r recorded) j.disagreement_refs)
      execution_error
  guard (bool_eq (not_empty j.disagreement_refs) j.material) execution_error
  check_summary j.judge_summary
  ok j.material

-- What an accepted entry cites: two to five specialists, all different.
abbrev pub cites_specialists : List String → Disagreement → Bool
cites_specialists specialists e =
    (leb 2 (length e.stage_refs) && leb (length e.stage_refs) 5)
    && (all_distinct e.stage_refs && all (λ r. str_mem r specialists) e.stage_refs)

check_entry-cites :
    (specialists seen : List String) (e : Disagreement)
    → check_entry specialists seen e ≡ ok tt
    → cites_specialists specialists e ≡ true
unfolding check_entry
check_entry-cites specialists seen e h = ground arith

-- A recorded id that was not there before is that of an accepted entry.
recorded_entry :
    (specialists seen : List String) (es : List Disagreement) (out : List String) (id : String)
    → check_entries specialists seen es ≡ ok out
    → str_mem id out ≡ true
    → str_mem id seen ≡ false
    → (e : Disagreement) × (find (λ d. str_eq id d.disagreement_id) es ≡ some e)
      × (cites_specialists specialists e ≡ true)
recorded_entry specialists seen [] out id h m n = absurd (unfold check_entries in ground arith)
recorded_entry specialists seen (e ∷ es) out id h m n =
    elim (Result-cases (check_entry specialists seen e)) [
      | inr (x, refused) ↦ absurd (unfold check_entries in ground arith)
      | inl (done, accepted) ↦
          let rest : check_entries specialists (e.disagreement_id ∷ seen) es ≡ ok out =
            (unfold check_entries in ground arith) in
          elim (Bool-cases (str_eq id e.disagreement_id)) [
            | inl same ↦ (e, rw same refl, check_entry-cites specialists seen e accepted)
            | inr other ↦
                let (d, found, cites) =
                  recorded_entry specialists (e.disagreement_id ∷ seen) es out id rest m
                    (ground arith) in
                (d, rw other found, cites)
          ]
    ]

first_ref :
    (refs recorded : List String)
    → bool_eq (not_empty refs) true ≡ true
    → all (λ r. str_mem r recorded) refs ≡ true
    → (id : String) × (any (str_eq id) refs ≡ true) × (str_mem id recorded ≡ true)
first_ref [] recorded h k = absurd (ground arith)
first_ref (r ∷ refs) recorded h k = (r, ground (arith, eq_refl r), ground arith)

validate_disagreements-parts :
    (parse : List ℕ → Option (List Disagreement)) (content : List ℕ)
    (specialists recorded : List String)
    → validate_disagreements parse content specialists ≡ ok recorded
    → (entries : List Disagreement) × (parse content ≡ some entries)
      × (check_entries specialists [] entries ≡ ok recorded)
unfolding validate_disagreements load
validate_disagreements-parts parse content specialists recorded h =
    elim (Option-cases (parse content)) [
      | inl nothing ↦ absurd (ground arith)
      | inr (entries, parsed) ↦ (entries, parsed, ground arith)
    ]

judge-parts :
    (parse_detector : List ℕ → Option (List Disagreement)) (parse_judge : List ℕ → Option Judgment)
    (content detector_content : List ℕ) (specialists : List String) (debate : Bool)
    → judge_requires_debate parse_detector parse_judge content detector_content specialists
      ≡ ok debate
    → (recorded : List String) × (j : Judgment) × (validate_disagreements parse_detector
          detector_content specialists
        ≡ ok recorded)
      × (parse_judge content ≡ some j)
      × (all (λ r. str_mem r recorded) j.disagreement_refs ≡ true)
      × (bool_eq (not_empty j.disagreement_refs) j.material ≡ true)
      × (j.material ≡ debate)
unfolding judge_requires_debate load
judge-parts parse_detector parse_judge content detector_content specialists debate h =
    elim (Result-cases (validate_disagreements parse_detector detector_content specialists)) [
      | inr (e, refused) ↦ absurd (ground arith)
      | inl (recorded, accepted) ↦ elim (Option-cases (parse_judge content)) [
        | inl nothing ↦ absurd (ground arith)
        | inr (j, parsed) ↦
            (recorded, j, accepted, parsed, ground arith, ground arith, ground arith)
      ]
    ]

-- A debate is never required without recorded evidence: the judge then cites the id of an entry that
-- the detector's artifact has, and the first entry of that id cites two to five different stages, all
-- of them among the specialists.
pub judge_requires_debate-cites :
    (parse_detector : List ℕ → Option (List Disagreement)) (parse_judge : List ℕ → Option Judgment)
    (content detector_content : List ℕ) (specialists : List String)
    → judge_requires_debate parse_detector parse_judge content detector_content specialists
      ≡ ok true
    → (entries : List Disagreement) × (j : Judgment) × (id : String) × (e : Disagreement)
      × (parse_detector detector_content ≡ some entries)
      × (parse_judge content ≡ some j)
      × (any (str_eq id) j.disagreement_refs ≡ true)
      × (find (λ d. str_eq id d.disagreement_id) entries ≡ some e)
      × (cites_specialists specialists e ≡ true)
judge_requires_debate-cites parse_detector parse_judge content detector_content specialists h =
    let (recorded, j, accepted, judged, among, evidence, decided) =
      judge-parts parse_detector parse_judge content detector_content specialists true h in
    let (entries, parsed, checked) =
      validate_disagreements-parts parse_detector detector_content specialists recorded accepted in
    let (id, cited, known) =
      first_ref j.disagreement_refs recorded (rw decided at evidence) among in
    let (e, found, cites) = recorded_entry specialists [] entries recorded id checked known refl in
    (entries, j, id, e, parsed, judged, cited, found, cites)
