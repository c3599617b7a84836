-- ===== src/Prelude/Text.antt =====
-- Texts: whole texts are compared as native strings, and walked as lists of code points.
use Prim.Native.Nat.{ℕ, ◌+◌, Ordering}
use Prim.Native.Char.{Char, code}
use Prim.Native.String.{String, compare}
use mathlib.Core.Bool.{Bool, true, false, not, ◌&&◌, ◌||◌}
use mathlib.Core.List.{List, [], ◌∷◌, map}
use text.Mathlib.Text.{◌==◌ as str_eq}
use kil.Prelude.Tests.{leb, ltb, ◌==◌, if◌then◌else◌}
use kil.Prelude.Lists.{any, all, length}

-- The code points of a text. `String` has its own `[]` and `∷`.
abbrev pub codes : String → List ℕ
codes String.[] = []
codes (String.◌∷◌ c s) = code c ∷ codes s

abbrev pub between : ℕ → ℕ → ℕ → Bool
between lo hi c = leb lo c && leb c hi

-- The code points that Python's `str.strip` removes.
pub is_space : ℕ → Bool
is_space c =
    between 9 13 c
    || between 28 32 c
    || c == 133
    || c == 160
    || c == 5760
    || between 8192 8202 c
    || between 8232 8233 c
    || c == 8239
    || c == 8287
    || c == 12288

-- `bool(value.strip())`: some code point is no white space.
unfoldable pub is_nonblank : String → Bool
unfolding is_space
is_nonblank s = any (λ c. not (is_space c)) (codes s)

unfoldable pub is_digit : ℕ → Bool
is_digit c = between b'0' b'9' c

unfoldable pub is_letter : ℕ → Bool
is_letter c = between b'a' b'z' c || between b'A' b'Z' c

-- `[A-Za-z0-9._:-]`
unfoldable pub is_identifier_code : ℕ → Bool
unfolding is_digit is_letter
is_identifier_code c = is_letter c || is_digit c || c == b'.' || c == b'_' || c == b':' || c == b'-'

-- `[a-f0-9]`
unfoldable pub is_hex_code : ℕ → Bool
unfolding is_digit
is_hex_code c = is_digit c || between b'a' b'f' c

-- `re.fullmatch` of `[A-Za-z0-9._:-]{1,128}`.
unfoldable pub is_identifier : String → Bool
unfolding is_identifier_code
is_identifier s = let cs = codes s in between 1 128 (length cs) && all is_identifier_code cs

-- `re.fullmatch` of `[a-f0-9]{64}`.
unfoldable pub is_digest : String → Bool
unfolding is_hex_code
is_digest s = let cs = codes s in (length cs == 64) && all is_hex_code cs

-- `str.lower` of a code point, as far as the result can be compared with an ASCII name: the letters
-- A to Z, and the Kelvin sign. No other code point becomes an ASCII letter by itself.
unfoldable pub to_lower : ℕ → ℕ
to_lower c = if between b'A' b'Z' c then c + 32 else if c == 8490 then b'k' else c

unfoldable pub lower : String → List ℕ
unfolding to_lower
lower s = map to_lower (codes s)

-- `str.startswith` on code points.
unfoldable pub is_prefix : List ℕ → List ℕ → Bool
is_prefix [] ys = true
is_prefix (x ∷ xs) [] = false
is_prefix (x ∷ xs) (y ∷ ys) = (x == y) && is_prefix xs ys

-- Equality of texts as lists of code points.
unfoldable pub eq_codes : List ℕ → List ℕ → Bool
eq_codes [] [] = true
eq_codes [] (y ∷ ys) = false
eq_codes (x ∷ xs) [] = false
eq_codes (x ∷ xs) (y ∷ ys) = (x == y) && eq_codes xs ys

-- The number of bytes of a code point in UTF-8.
unfoldable pub utf8_size : ℕ → ℕ
utf8_size c = if ltb c 128 then 1 else if ltb c 2048 then 2 else if ltb c 65536 then 3 else 4

unfoldable pub utf8_length : List ℕ → ℕ
unfolding utf8_size
utf8_length [] = 0
utf8_length (c ∷ cs) = utf8_size c + utf8_length cs

-- The letters that `str.lower` changes into ASCII ones, and what it changes them into.
abbrev upper_case : String
upper_case = "ABCDEFGHIJKLMNOPQRSTUVWXYZK"

abbrev lower_case : String
lower_case = "abcdefghijklmnopqrstuvwxyzk"

-- The character that stands in the second text where `c` stands in the first.
translate : String → String → Char → Char
translate (String.◌∷◌ from froms) (String.◌∷◌ into intos) c =
    let rest = translate froms intos c in if code c == code from then into else rest
translate _ _ c = c

-- `str.lower` of an ASCII text.
unfoldable pub lower_text : String → String
unfolding translate
lower_text String.[] = String.[]
lower_text (String.◌∷◌ c s) = String.◌∷◌ (translate upper_case lower_case c) (lower_text s)

-- Python's `<` on texts.
abbrev pub lt_text : String → String → Bool
lt_text s t = elim (compare s t) [ Ordering.lt ↦ true | _ ↦ false ]

-- `s in names`
unfoldable pub contains_text : String → List String → Bool
contains_text s names = any (λ n. str_eq n s) names

-- No text stands twice.
unfoldable pub is_distinct : List String → Bool
unfolding contains_text
is_distinct [] = true
is_distinct (x ∷ xs) = not (contains_text x xs) && is_distinct xs
