-- ===== src/Common/Words.antt =====
-- Parts of texts as lists of code points: `str.split`, `str.replace` of one character, `str.title` on
-- ASCII letters, and searches. A letter outside ASCII stays as it is; no name in the tables has one.
use Prim.Native.Nat.{ℕ, zero, suc, ◌+◌, ◌-◌}
use Prim.Native.String.{String}
use mathlib.Core.Bool.{Bool, true, false, ◌&&◌, ◌||◌}
use mathlib.Core.Option.{Option}
use mathlib.Core.List.{List, [], ◌∷◌, ◌++◌}
use kova_gpt_models.Common.Tests.{leb, ◌==◌, if◌then◌else◌}
use kova_gpt_models.Common.Lists.{find, length, drop}
use kova_gpt_models.Common.Text.{codes}

-- Equality of two lists of code points.
abbrev pub codes_eq : List ℕ → List ℕ → Bool
codes_eq [] [] = true
codes_eq (c ∷ s) (d ∷ t) = c == d && codes_eq s t
codes_eq _ _ = false

abbrev pub is_prefix : List ℕ → List ℕ → Bool
is_prefix [] t = true
is_prefix (c ∷ cs) [] = false
is_prefix (c ∷ cs) (d ∷ t) = c == d && is_prefix cs t

-- `m in t`
abbrev pub occurs : List ℕ → List ℕ → Bool
occurs m [] = is_prefix m []
occurs m (c ∷ t) = is_prefix m (c ∷ t) || occurs m t

abbrev onto : ℕ → List (List ℕ) → List (List ℕ)
onto c [] = (c ∷ []) ∷ []
onto c (w ∷ ws) = (c ∷ w) ∷ ws

-- `t.split(sep)`
unfoldable pub split_on : ℕ → List ℕ → List (List ℕ)
split_on sep [] = [] ∷ []
split_on sep (c ∷ t) = let rest = split_on sep t in if c == sep then [] ∷ rest else onto c rest

abbrev pub replace_code : ℕ → ℕ → List ℕ → List ℕ
replace_code a b [] = []
replace_code a b (c ∷ t) = (if c == a then b else c) ∷ replace_code a b t

abbrev upper : ℕ → ℕ
upper c = if leb b'a' c && leb c b'z' then c - 32 else c

abbrev lower : ℕ → ℕ
lower c = if leb b'A' c && leb c b'Z' then c + 32 else c

abbrev is_letter : ℕ → Bool
is_letter c = (leb b'a' c && leb c b'z') || (leb b'A' c && leb c b'Z')

-- `t.title()`, after a letter or not.
unfoldable pub title : Bool → List ℕ → List ℕ
title inside [] = []
title inside (c ∷ t) = (if inside then lower c else upper c) ∷ title (is_letter c) t

-- The name of a table that these code points spell.
abbrev pub named : List String → List ℕ → Option String
named names t = find (λ n. codes_eq (codes n) t) names

-- `t.count(m)` for an `m` that is not empty; what has been matched is not searched again.
abbrev pub count_from : ℕ → List ℕ → List ℕ → ℕ
count_from skip m [] = 0
count_from (suc skip) m (c ∷ t) = count_from skip m t
count_from zero m (c ∷ t) =
    let found = suc (count_from (length m - 1) m t) in
    let missed = count_from zero m t in if is_prefix m (c ∷ t) then found else missed

abbrev pub occurrences : List ℕ → List ℕ → ℕ
occurrences [] t = suc (length t)
occurrences (d ∷ m) t = count_from zero (d ∷ m) t

-- `t.replace(m, s, 1)`
unfoldable pub replace_first : List ℕ → List ℕ → List ℕ → List ℕ
replace_first [] s t = s ++ t
replace_first (d ∷ m) s [] = []
replace_first (d ∷ m) s (c ∷ t) =
    let rest = replace_first (d ∷ m) s t in
    if is_prefix (d ∷ m) (c ∷ t) then s ++ drop (length m) t else c ∷ rest
