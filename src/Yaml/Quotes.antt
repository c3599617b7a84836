-- ===== src/Yaml/Quotes.antt =====
-- Single-quoted texts of src/kil/v3b2_closed_yaml.py: a text whose quotes are doubled is read back.
use Prim.Native.Char.{Char, code}
use kil.Prelude.{
  ◌≡◌, refl, ap, ℕ, ◌+◌, ◌≤◌, Bool, true, false, inl, inr, arith, String, codes, ◌==◌, leb, le→leb,
  utf8_size, utf8_length, Bool-cases, ok, ok-inj, if◌then◌else◌,
}
use kil.Yaml.Scalars.{before_quote, unquote, quoted_single, is_safe, max_scalar}

is_quote : Char → Bool
is_quote c = code c == b'\''

-- YAML's single-quoted style after the first quote: each quote of the text is doubled, and one ends it.
doubled : String → String
unfolding is_quote
doubled String.[] = String.[]
doubled (String.◌∷◌ c s) =
    let rest = doubled s in
    if is_quote c then String.◌∷◌ c (String.◌∷◌ c rest) else String.◌∷◌ c rest

closed_by_quote : String → String
closed_by_quote String.[] = "'"
closed_by_quote (String.◌∷◌ c s) = String.◌∷◌ c (closed_by_quote s)

unfoldable pub single_quoted : String → String
unfolding doubled closed_by_quote
single_quoted s = closed_by_quote (doubled s)

before_quote-closed : (t : String) → before_quote (closed_by_quote t) ≡ ok t
unfolding before_quote closed_by_quote
before_quote-closed String.[] = refl
before_quote-closed (String.◌∷◌ c String.[]) = refl
before_quote-closed (String.◌∷◌ c (String.◌∷◌ d s)) = rw (before_quote-closed (String.◌∷◌ d s)) refl

-- A character that is no quote stands for itself.
unquote-plain :
    (decoded : ℕ) (c : Char) (t s : String)
    → is_quote c ≡ false
    → leb (decoded + utf8_size (code c)) max_scalar ≡ true
    → unquote (decoded + utf8_size (code c)) t ≡ ok s
    → unquote decoded (String.◌∷◌ c t) ≡ ok (String.◌∷◌ c s)
unfolding unquote is_quote
unquote-plain decoded c String.[] s plain few h =
    rw (plain, few) (ap (λ r. ok (String.◌∷◌ c r)) (ok-inj h))
unquote-plain decoded c (String.◌∷◌ d t) s plain few h = rw (plain, few, h) refl

-- A quote that stands twice is one quote.
unquote-quote :
    (decoded : ℕ) (c : Char) (t s : String)
    → is_quote c ≡ true
    → leb (decoded + utf8_size (code c)) max_scalar ≡ true
    → unquote (decoded + utf8_size (code c)) t ≡ ok s
    → unquote decoded (String.◌∷◌ c (String.◌∷◌ c t)) ≡ ok (String.◌∷◌ c s)
unfolding unquote is_quote
unquote-quote decoded c t s quote few h = rw (quote, few, h) refl

unquote-doubled :
    (decoded : ℕ) (s : String)
    → decoded + utf8_length (codes s) ≤ max_scalar
    → unquote decoded (doubled s) ≡ ok s
unfolding doubled utf8_length
unquote-doubled decoded String.[] few = unfold unquote in refl
unquote-doubled decoded (String.◌∷◌ c s) few =
    let width = decoded + utf8_size (code c) in
    let fits = le→leb width max_scalar (omega (arith, few)) in
    let rest = unquote-doubled width s (omega (arith, few)) in
    elim (Bool-cases (is_quote c)) [
      | inl e ↦ rw e (unquote-quote decoded c (doubled s) s e fits rest)
      | inr e ↦ rw e (unquote-plain decoded c (doubled s) s e fits rest)
    ]

-- Every text without control characters and byte order marks, of at most 262,144 bytes, is read back from
-- its single-quoted form, in which each quote is doubled and one more ends the text.
pub quoted_single-single_quoted :
    (s : String)
    → is_safe s ≡ true
    → utf8_length (codes s) ≤ max_scalar
    → quoted_single (single_quoted s) ≡ ok s
unfolding quoted_single single_quoted
quoted_single-single_quoted s safe few =
    rw
      (
        before_quote-closed (doubled s),
        unquote-doubled 0 s (omega (arith, few)),
        le→leb (utf8_length (codes s)) max_scalar few,
        safe,
      )
      refl
