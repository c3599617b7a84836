-- ===== src/Yaml/Patterns.antt =====
-- The regular expressions of src/kil/v3b2_closed_yaml.py as functions on code points. In each, what may
-- follow a repetition is no character of it, so the longest repetition is the only one to try.
use kil.Prelude.{
  ℕ, Bool, true, false, not, ◌&&◌, ◌||◌, List, [], ◌∷◌, any, all, is_empty, ◌==◌, String, codes,
  is_digit, is_letter, between, if◌then◌else◌,
}

unfoldable pub one_of : String → ℕ → Bool
one_of s c = any (λ d. c == d) (codes s)

-- What follows the longest run of characters that pass a test.
skip : (ℕ → Bool) → List ℕ → List ℕ
skip p [] = []
skip p (c ∷ cs) = let rest = skip p cs in if p c then rest else c ∷ cs

-- `[+-]?`
after_sign : List ℕ → List ℕ
after_sign [] = []
after_sign (c ∷ cs) = if c == b'+' || c == b'-' then cs else c ∷ cs

is_digit_or_underscore : ℕ → Bool
is_digit_or_underscore c = is_digit c || c == b'_'

-- `[A-Za-z_][A-Za-z0-9_.\-/]*`
unfoldable pub matches_key : List ℕ → Bool
unfolding one_of
matches_key [] = false
matches_key (c ∷ cs) =
    (is_letter c || c == b'_') && all (λ d. is_letter d || is_digit d || one_of "_.-/" d) cs

positive : List ℕ → Bool
positive [] = false
positive (c ∷ cs) = between b'1' b'9' c && all is_digit cs

-- `0|-[1-9][0-9]*|[1-9][0-9]*`
unfoldable pub matches_integer : List ℕ → Bool
unfolding positive
matches_integer [] = false
matches_integer (c ∷ cs) =
    (c == b'0' && is_empty cs) || (if c == b'-' then positive cs else positive (c ∷ cs))

-- A nonempty text of digits and underscores.
digits_to_end : List ℕ → Bool
unfolding is_digit_or_underscore
digits_to_end cs = not (is_empty cs) && all is_digit_or_underscore cs

-- `(?:[eE][+-]?[0-9_]+)?`, to the end.
exponent_to_end : List ℕ → Bool
unfolding digits_to_end after_sign
exponent_to_end [] = true
exponent_to_end (c ∷ cs) = (c == b'e' || c == b'E') && digits_to_end (after_sign cs)

-- `(?:\.[0-9_]*)?`
after_fraction : List ℕ → List ℕ
unfolding skip is_digit_or_underscore
after_fraction [] = []
after_fraction (c ∷ cs) = if c == b'.' then skip is_digit_or_underscore cs else c ∷ cs

number_to_end : List ℕ → Bool
unfolding exponent_to_end after_fraction skip
number_to_end [] = false
number_to_end (c ∷ cs) =
    is_digit c && exponent_to_end (after_fraction (skip is_digit_or_underscore cs))

-- `_NUMBERISH`
unfoldable pub matches_numberish : List ℕ → Bool
unfolding number_to_end after_sign
matches_numberish cs = number_to_end (after_sign cs)

dot_number : List ℕ → Bool
unfolding exponent_to_end skip
dot_number (d ∷ c ∷ cs) =
    d == b'.' && is_digit c && exponent_to_end (skip is_digit_or_underscore cs)
dot_number _ = false

-- `_LEADING_DOT_FLOAT`
unfoldable pub matches_leading_dot_float : List ℕ → Bool
unfolding dot_number after_sign
matches_leading_dot_float cs = dot_number (after_sign cs)

radix_number : List ℕ → Bool
unfolding one_of
radix_number (z ∷ x ∷ d ∷ ds) =
    z == b'0'
    && one_of "xXoObB" x
    && all (λ c. is_digit c || between b'A' b'F' c || between b'a' b'f' c || c == b'_') (d ∷ ds)
radix_number _ = false

-- `_RADIX`
unfoldable pub matches_radix : List ℕ → Bool
unfolding radix_number after_sign
matches_radix cs = radix_number (after_sign cs)

-- `(?::[0-9][0-9_]*(?:\.[0-9_]*)?)+` to the end. `parts` says that a part has begun, `fraction` that its
-- point was read, and `start` that a digit must come next.
sexagesimal_parts : Bool → Bool → Bool → List ℕ → Bool
unfolding is_digit_or_underscore
sexagesimal_parts parts fraction start [] = parts && not start
sexagesimal_parts parts fraction start (c ∷ cs) =
    let number = sexagesimal_parts parts fraction false cs in
    let next_part = sexagesimal_parts true false true cs in
    let after_point = sexagesimal_parts parts true false cs in
    if start
    then is_digit c && number
    else if is_digit_or_underscore c
    then number
    else if c == b':'
    then next_part
    else c == b'.' && parts && not fraction && after_point

sexagesimal : List ℕ → Bool
unfolding sexagesimal_parts
sexagesimal [] = false
sexagesimal (c ∷ cs) = is_digit c && sexagesimal_parts false false false cs

-- `_SEXAGESIMAL`
unfoldable pub matches_sexagesimal : List ℕ → Bool
unfolding sexagesimal after_sign
matches_sexagesimal cs = sexagesimal (after_sign cs)

starts_time : List ℕ → Bool
starts_time [] = true
starts_time (c ∷ cs) = (c == b'T' || c == b't' || c == b' ')

-- `_DATE`, on a text of one line.
unfoldable pub matches_date : List ℕ → Bool
unfolding starts_time
matches_date (a ∷ b ∷ c ∷ d ∷ h ∷ e ∷ f ∷ i ∷ g ∷ j ∷ rest) =
    all is_digit (a ∷ b ∷ c ∷ d ∷ e ∷ f ∷ g ∷ j ∷ []) && h == b'-' && i == b'-' && starts_time rest
matches_date _ = false

is_plain_code : ℕ → Bool
unfolding one_of
is_plain_code c = is_letter c || is_digit c || one_of "_./:@%+=,$~()?&*![]-" c

-- Words of the plain characters, one space between two of them; `inside` says that a word has begun.
plain_words : Bool → List ℕ → Bool
unfolding is_plain_code
plain_words inside [] = inside
plain_words inside (c ∷ cs) =
    let word = plain_words true cs in
    let space = plain_words false cs in
    if is_plain_code c then word else (c == b' ' && inside && space)

-- `_PLAIN`
unfoldable pub matches_plain : List ℕ → Bool
unfolding plain_words
matches_plain cs = plain_words false cs
