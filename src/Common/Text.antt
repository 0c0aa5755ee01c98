-- ===== src/Common/Text.antt =====
-- Texts: equality, the identifier and digest formats that the services share.
use Prim.Native.Nat.{ℕ}
use Prim.Native.Char.{code}
use Prim.Native.String.{String}
use mathlib.Core.Bool.{Bool, ◌&&◌, ◌||◌}
use mathlib.Core.List.{List, [], ◌∷◌}
use kova_gpt_models.Common.Tests.{leb, ◌==◌}
use kova_gpt_models.Common.Lists.{length, all, any}

-- The code points of a text. `String` has its own `[]` and `∷`.
abbrev pub codes : String → List ℕ
codes String.[] = []
codes (String.◌∷◌ c s) = code c ∷ codes s

abbrev between : ℕ → ℕ → ℕ → Bool
between lo hi c = leb lo c && leb c hi

-- [A-Za-z0-9_.:@-]
abbrev pub identifier_char : ℕ → Bool
identifier_char c =
    between b'A' b'Z' c
    || (between b'a' b'z' c
        || (between b'0' b'9' c
            || (c == b'_' || (c == b'.' || (c == b':' || (c == b'@' || c == b'-'))))))

-- execution.contracts.identifier: a text of 1 to 128 characters of the class above.
unfoldable pub is_identifier : String → Bool
is_identifier s =
    let cs = codes s in leb 1 (length cs) && (leb (length cs) 128 && all identifier_char cs)

abbrev hex_char : ℕ → Bool
hex_char c = between b'0' b'9' c || between b'a' b'f' c

-- A text of so many lower-case hexadecimal digits.
unfoldable pub is_hex : ℕ → String → Bool
is_hex n s = let cs = codes s in length cs == n && all hex_char cs

-- The code points that `str.strip` removes.
abbrev pub is_space : ℕ → Bool
is_space c =
    any (λ n. c == n) (32 ∷ 133 ∷ 160 ∷ 5760 ∷ 8232 ∷ 8233 ∷ 8239 ∷ 8287 ∷ 12288 ∷ [])
    || ((leb 9 c && leb c 13) || ((leb 28 c && leb c 31) || (leb 8192 c && leb c 8202)))

-- A code point that `str.encode` refuses.
abbrev pub is_surrogate : ℕ → Bool
is_surrogate c = leb 55296 c && leb c 57343
