-- ===== src/Runner/Pieces.antt =====
-- LocalRunner.run, `persist`: a fragment of a provider is appended to the journal in pieces.
use kova_gpt_models.Common.{
  ℕ, zero, suc, ◌≤◌, ◌≡◌, refl, ap, ◌∙◌, arith, Bool, true, ◌&&◌, List, [], ◌∷◌, ◌++◌, all, take,
  drop, length, leb, ltb,
}

-- MAX_FRAGMENT_CHARS
abbrev pub max_fragment_chars : ℕ
max_fragment_chars = 8192

-- `fragment[offset:offset + size] for offset in range(0, len(fragment), size)`, in as many steps as
-- there is fuel.
unfoldable pub pieces_of : ℕ → ℕ → List ℕ → List (List ℕ)
pieces_of size zero t = []
pieces_of size (suc fuel) [] = []
pieces_of size (suc fuel) (c ∷ t) = take size (c ∷ t) ∷ pieces_of size fuel (drop size (c ∷ t))

-- The pieces that `persist` appends; a step for each character is enough.
abbrev pub pieces : List ℕ → List (List ℕ)
pieces t = pieces_of max_fragment_chars (length t) t

abbrev pub concat : List (List ℕ) → List ℕ
concat [] = []
concat (p ∷ ps) = p ++ concat ps

-- The length that append_public_delta accepts.
abbrev pub fits_row : List ℕ → Bool
fits_row p = ltb 0 (length p) && leb (length p) max_fragment_chars

take-drop : (n : ℕ) (t : List ℕ) → take n t ++ drop n t ≡ t
take-drop zero t = refl
take-drop (suc n) [] = refl
take-drop (suc n) (c ∷ t) = ap (λ l. c ∷ l) (take-drop n t)

length-drop_le : (n : ℕ) (t : List ℕ) → length (drop n t) ≤ length t
length-drop_le zero t = omega arith
length-drop_le (suc n) [] = omega arith
length-drop_le (suc n) (c ∷ t) = omega (arith, length-drop_le n t)

length-take_le : (n : ℕ) (t : List ℕ) → length (take n t) ≤ n
length-take_le zero t = omega arith
length-take_le (suc n) [] = omega arith
length-take_le (suc n) (c ∷ t) = omega (arith, length-take_le n t)

concat-pieces_of :
    (n fuel : ℕ) (t : List ℕ) → length t ≤ fuel → concat (pieces_of (suc n) fuel t) ≡ t
unfolding pieces_of
concat-pieces_of n zero [] h = refl
concat-pieces_of n zero (c ∷ t) h = absurd (omega arith)
concat-pieces_of n (suc fuel) [] h = refl
concat-pieces_of n (suc fuel) (c ∷ t) h =
    ap (λ l. c ∷ (take n t ++ l))
      (concat-pieces_of n fuel (drop n t) (omega (arith, length-drop_le n t)))
    ∙ ap (λ l. c ∷ l) (take-drop n t)

pieces_of-sized :
    (n fuel : ℕ) (t : List ℕ)
    → all (λ p. ltb 0 (length p) && leb (length p) (suc n)) (pieces_of (suc n) fuel t) ≡ true
unfolding pieces_of
pieces_of-sized n zero t = refl
pieces_of-sized n (suc fuel) [] = refl
pieces_of-sized n (suc fuel) (c ∷ t) =
    ground (arith, length-take_le n t, pieces_of-sized n fuel (drop n t))

-- The pieces of a fragment are the fragment again when they are joined, and each is of a length that
-- the journal accepts for a row: none is empty, and none has more than 8192 characters.
pub concat-pieces : (t : List ℕ) → (concat (pieces t) ≡ t) × (all fits_row (pieces t) ≡ true)
concat-pieces t =
    (concat-pieces_of 8191 (length t) t (omega arith), pieces_of-sized 8191 (length t) t)
