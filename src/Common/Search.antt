-- ===== src/Common/Search.antt =====
-- Searches for a text in another whose beginning lacks the first code point searched for.
use Prim.Native.Nat.{ℕ}
use Prim.Native.String.{String}
use mathlib.Core.Path.{◌≡◌, refl, ap, ◌∙◌}
use mathlib.Core.Bool.{Bool, true, false, not}
use mathlib.Core.List.{List, [], ◌∷◌, ◌++◌, append-nil}
use native.Mathlib.Omega.{arith}
use kova_gpt_models.Common.Tests.{◌==◌, if◌then◌else◌}
use kova_gpt_models.Common.Lists.{length, drop, all}
use kova_gpt_models.Common.Text.{codes, identifier_char, is_identifier}
use kova_gpt_models.Common.Words.{
  codes_eq, is_prefix, occurs, occurrences, count_from, replace_first,
}

-- No code point of the text is this one.
abbrev pub lacks : ℕ → List ℕ → Bool
lacks d = all (λ c. not (d == c))

pub lacks-append :
    (d : ℕ) (s t : List ℕ) → lacks d s ≡ true → lacks d t ≡ true → lacks d (s ++ t) ≡ true
lacks-append d [] t h k = k
lacks-append d (c ∷ s) t h k = ground (arith, lacks-append d s t)

pub codes_eq_refl : (t : List ℕ) → codes_eq t t ≡ true
codes_eq_refl [] = refl
codes_eq_refl (c ∷ t) = ground (arith, codes_eq_refl t)

is_prefix_refl : (m : List ℕ) → is_prefix m m ≡ true
is_prefix_refl [] = refl
is_prefix_refl (c ∷ m) = ground (arith, is_prefix_refl m)

chars-lacks : (t : List ℕ) → all identifier_char t ≡ true → lacks b'{' t ≡ true
chars-lacks [] h = refl
chars-lacks (c ∷ t) h = ground (arith, chars-lacks t)

-- An identifier has no brace.
pub identifier-lacks : (s : String) → is_identifier s ≡ true → lacks b'{' (codes s) ≡ true
unfolding is_identifier
identifier-lacks s h = chars-lacks (codes s) (ground arith)

if_true {ℓ} : {A : Type ℓ} (b : Bool) {x : A} (y : A) → b ≡ true → (if b then x else y) ≡ x
if_true b y h = rw h refl

if_false {ℓ} : {A : Type ℓ} (b : Bool) (x : A) {y : A} → b ≡ false → (if b then x else y) ≡ y
if_false b x h = rw h refl

drop-length : (t : List ℕ) → drop (length t) t ≡ []
drop-length [] = refl
drop-length (c ∷ t) = drop-length t

count_from-length : (m t : List ℕ) → count_from (length t) m t ≡ 0
count_from-length m [] = refl
count_from-length m (c ∷ t) = count_from-length m t

pub occurs-append :
    (d : ℕ) (m before t : List ℕ)
    → lacks d before ≡ true
    → occurs (d ∷ m) (before ++ t) ≡ occurs (d ∷ m) t
occurs-append d m [] t h = refl
occurs-append d m (c ∷ before) t h = ground (arith, occurs-append d m before t)

pub occurrences_once :
    (d : ℕ) (m before : List ℕ) → lacks d before ≡ true → occurrences (d ∷ m) (before ++ d ∷ m) ≡ 1
occurrences_once d m [] h = ground (arith, is_prefix_refl m, count_from-length (d ∷ m) m)
occurrences_once d m (c ∷ before) h = ground (arith, occurrences_once d m before)

pub replace_first_once :
    (d : ℕ) (m before text : List ℕ)
    → lacks d before ≡ true
    → replace_first (d ∷ m) text (before ++ d ∷ m) ≡ before ++ text
unfolding replace_first
replace_first_once d m [] text h =
    if_true (is_prefix (d ∷ m) (d ∷ m)) _ (is_prefix_refl (d ∷ m))
    ∙ ap (λ t. text ++ t) (drop-length m)
    ∙ append-nil text
replace_first_once d m (c ∷ before) text h =
    if_false (is_prefix (d ∷ m) (c ∷ before ++ d ∷ m)) (text ++ drop (length m) (before ++ d ∷ m))
      (ground arith)
    ∙ ap (λ t. c ∷ t) (replace_first_once d m before text (ground arith))
