-- ===== src/Yaml/Scalars.antt =====
-- `_pair`, `_quoted_single` and `_scalar` of src/kil/v3b2_closed_yaml.py. `json.loads` of a double-quoted
-- text is a parameter: the string that it gives, if it gives one.
use Prim.Native.Char.{code}
use kil.Prelude.{
  contains_text, ℕ, ◌+◌, Bool, true, false, not, ◌&&◌, ◌||◌, List, [], ◌∷◌, Option, none, some, any,
  length, is_empty, leb, ltb, ◌==◌, between, String, str_eq, codes, is_prefix, utf8_size,
  utf8_length, lower_text, ℤ, pos, sub_ℕ, Result, ok, raise, require, value_error, if◌then◌else◌,
  ◌>>=◌, ◌>>◌,
}
use kil.Json.{Json, no_items, no_fields}
use kil.QState.{digits_value}
use kil.Yaml.Patterns.{
  one_of, matches_key, matches_integer, matches_numberish, matches_radix, matches_leading_dot_float,
  matches_sexagesimal, matches_date, matches_plain,
}

abbrev pub max_scalar : ℕ
max_scalar = 262144

abbrev pub max_integer_digits : ℕ
max_integer_digits = 5000

-- The text before the first colon, and the text after it if there is one.
split_colon : String → String × Option String
split_colon String.[] = (String.[], none)
split_colon (String.◌∷◌ c s) =
    let rest = split_colon s in
    if code c == b':' then (String.[], some s) else (String.◌∷◌ c rest.0, rest.1)

-- What stands after the colon of an entry: nothing, or a space and a text.
after_colon : Option String → Result (Option String)
after_colon none = raise value_error
after_colon (some String.[]) = ok none
after_colon (some (String.◌∷◌ c s)) = do
  require (code c == b' ')
  require (not (is_empty (codes s)))
  ok (some s)

abbrev reserved_keys : List String
reserved_keys = "y" ∷ "n" ∷ "yes" ∷ "no" ∷ "on" ∷ "off" ∷ "true" ∷ "false" ∷ "null" ∷ []

-- `_pair`
unfoldable pub pair : String → Result (String × Option String)
unfolding split_colon after_colon
pair body = do
  let (key, rest) = split_colon body
  raw ← after_colon rest
  require (matches_key (codes key) && not (str_eq key "<<"))
  require (not (contains_text (lower_text key) reserved_keys))
  require (leb (utf8_length (codes key)) max_scalar)
  ok (key, raw)

-- `_safe_decoded_text`
unfoldable pub is_safe : String → Bool
is_safe s = not (any (λ c. ltb c 32 || between 127 159 c || c == 65279) (codes s))

-- The text without its last character, which must be a quote.
unfoldable pub before_quote : String → Result String
before_quote String.[] = raise value_error
before_quote (String.◌∷◌ c String.[]) = require (code c == b'\'') >> ok String.[]
before_quote (String.◌∷◌ c (String.◌∷◌ d s)) = do
  rest ← before_quote (String.◌∷◌ d s)
  ok (String.◌∷◌ c rest)

-- The loop of `_quoted_single`, after `decoded` bytes: a quote stands twice, and the bytes are bounded.
unfoldable pub unquote : ℕ → String → Result String
unquote decoded String.[] = ok String.[]
unquote decoded (String.◌∷◌ c String.[]) = do
  require (not (code c == b'\''))
  require (leb (decoded + utf8_size (code c)) max_scalar)
  ok (String.◌∷◌ c String.[])
unquote decoded (String.◌∷◌ c (String.◌∷◌ d s)) =
    let width = decoded + utf8_size (code c) in
    let quote = unquote width s in
    let plain = unquote width (String.◌∷◌ d s) in
    do
      require (not (code c == b'\'') || (code d == b'\''))
      require (leb width max_scalar)
      rest ← if code c == b'\'' then quote else plain
      ok (String.◌∷◌ c rest)

-- `_quoted_single`, of the text after the first quote.
unfoldable pub quoted_single : String → Result String
unfolding before_quote unquote is_safe
quoted_single rest = do
  inner ← before_quote rest
  value ← unquote 0 inner
  require (leb (utf8_length (codes value)) max_scalar)
  require (is_safe value)
  ok value

unfoldable pub double_quoted : Option String → Result String
unfolding is_safe
double_quoted none = raise value_error
double_quoted (some value) = do
  require (leb (utf8_length (codes value)) max_scalar)
  require (is_safe value)
  ok value

unfoldable pub integer_value : List ℕ → ℤ
integer_value [] = pos 0
integer_value (c ∷ cs) =
    if c == b'-' then sub_ℕ 0 (digits_value 0 cs) else pos (digits_value 0 (c ∷ cs))

unfoldable pub digit_total : List ℕ → ℕ
digit_total [] = 0
digit_total (c ∷ cs) = length cs + (if c == b'-' then 0 else 1)

ends_with_one_of : String → List ℕ → Bool
unfolding one_of
ends_with_one_of s [] = false
ends_with_one_of s (c ∷ []) = one_of s c
ends_with_one_of s (c ∷ d ∷ cs) = ends_with_one_of s (d ∷ cs)

-- Some place of the text begins with the first text.
occurs : List ℕ → List ℕ → Bool
occurs part [] = false
occurs part (c ∷ cs) = is_prefix part (c ∷ cs) || occurs part cs

-- `(?:^| )[!&*]` is found; `start` says that a word begins.
has_tag : Bool → List ℕ → Bool
unfolding one_of
has_tag start [] = false
has_tag start (c ∷ cs) = (start && one_of "!&*" c) || has_tag (c == b' ') cs

starts_with_one_of : String → List ℕ → Bool
unfolding one_of
starts_with_one_of s [] = false
starts_with_one_of s (c ∷ cs) = one_of s c

-- Typed, graph, block or flow syntax.
is_forbidden : String → Bool
unfolding one_of starts_with_one_of ends_with_one_of occurs has_tag contains_text
is_forbidden raw =
    let cs = codes raw in
    any (one_of "\"'{}#") cs
    || starts_with_one_of "[]{},!&*|>@`%" cs
    || contains_text raw ("-" ∷ "?" ∷ ":" ∷ [])
    || is_prefix (codes "- ") cs
    || is_prefix (codes "? ") cs
    || ends_with_one_of "]:" cs
    || occurs (codes ": ") cs
    || has_tag true cs

abbrev ambiguous_words : List String
ambiguous_words =
    "y" ∷ "n" ∷ "yes" ∷ "no" ∷ "on" ∷ "off" ∷ "true" ∷ "false" ∷ "null" ∷ "~" ∷ ".inf" ∷ "+.inf"
    ∷ "-.inf" ∷ ".nan" ∷ []

-- Words and numbers of YAML that must be quoted.
is_ambiguous : String → Bool
is_ambiguous raw =
    let cs = codes raw in
    contains_text (lower_text raw) ambiguous_words
    || matches_numberish cs
    || matches_radix cs
    || matches_leading_dot_float cs
    || matches_sexagesimal cs
    || matches_date cs

-- The end of `_scalar`: what a plain text must be.
unfoldable pub check_plain : String → Result (Unit {0})
unfolding is_forbidden is_ambiguous
check_plain raw = do
  require (leb (utf8_length (codes raw)) max_scalar)
  require (not (is_forbidden raw))
  require (not (is_ambiguous raw))
  require (not (str_eq raw "---") && not (str_eq raw "...") && matches_plain (codes raw))

unfoldable pub after_first : String → String
after_first String.[] = String.[]
after_first (String.◌∷◌ c s) = s

unfoldable pub as_scalar : Result String → Result Json
as_scalar r = do s ← r; ok (Json.text s)

unfoldable pub integer_scalar : List ℕ → Result Json
unfolding digit_total integer_value
integer_scalar cs =
    require (leb (digit_total cs) max_integer_digits) >> ok (Json.integer (integer_value cs))

module _ (json_string : String → Option String) where
  unfoldable pub quoted_or_plain : String → Result Json
  unfolding double_quoted quoted_single check_plain after_first as_scalar
  quoted_or_plain raw =
      if is_prefix (b'"' ∷ []) (codes raw)
      then as_scalar (double_quoted (json_string raw))
      else if is_prefix (b'\'' ∷ []) (codes raw)
      then as_scalar (quoted_single (after_first raw))
      else check_plain raw >> ok (Json.text raw)

  -- `_scalar`
  unfoldable pub scalar : String → Result Json
  unfolding quoted_or_plain integer_scalar
  scalar raw =
      if str_eq raw "{}"
      then ok (Json.object no_fields)
      else if str_eq raw "[]"
      then ok (Json.array no_items)
      else if str_eq raw "null"
      then ok Json.null
      else if str_eq raw "true"
      then ok (Json.boolean true)
      else if str_eq raw "false"
      then ok (Json.boolean false)
      else if matches_integer (codes raw)
      then integer_scalar (codes raw)
      else quoted_or_plain raw
