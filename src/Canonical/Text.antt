-- ===== src/Canonical/Text.antt =====
-- `canonical_json` and `canonical_digest` of src/kil/canonical.py: `json.dumps` with sorted keys and compact
-- separators, and the bound on the result. SHA-256 is a parameter.
use Prim.Native.Nat.{◌/◌, ◌%◌}
use kil.Prelude.{
  ℕ, suc, ◌+◌, ◌-◌, true, false, List, [], ◌∷◌, ◌++◌, map, ltb, leb, ◌==◌, ℤ, pos, negsuc, String,
  codes, utf8_length, Result, ok, require, if◌then◌else◌, ◌>>=◌, ◌>>◌,
}
use kil.Json.{Json, Items, Fields, no_items, item, no_fields, field}
use kil.Canonical.Values.{Value, lt_codes}
use kil.Canonical.Normal.{max_depth, max_output_bytes, digits_of, normalize}

-- A hexadecimal digit, in lower case.
hex_digit : ℕ → ℕ
hex_digit n = if ltb n 10 then b'0' + n else b'a' + (n - 10)

-- The escapes of a code point; with `ensure_ascii=False` all others stand for themselves.
escape : ℕ → List ℕ
unfolding hex_digit
escape c =
    if c == b'"'
    then codes "\\\""
    else if c == b'\\'
    then codes "\\\\"
    else if c == 8
    then codes "\\b"
    else if c == 9
    then codes "\\t"
    else if c == 10
    then codes "\\n"
    else if c == 12
    then codes "\\f"
    else if c == 13
    then codes "\\r"
    else if ltb c 32
    then codes "\\u00" ++ hex_digit (c / 16) ∷ hex_digit (c % 16) ∷ []
    else c ∷ []

escape_all : List ℕ → List ℕ
unfolding escape
escape_all [] = []
escape_all (c ∷ cs) = escape c ++ escape_all cs

unfoldable quoted : String → List ℕ
unfolding escape_all
quoted s = b'"' ∷ (escape_all (codes s) ++ b'"' ∷ [])

integer_text : ℤ → List ℕ
integer_text (pos n) = codes (digits_of n)
integer_text (negsuc n) = b'-' ∷ codes (digits_of (suc n))

-- A printed member takes its place by its key.
insert_printed : String × List ℕ → List (String × List ℕ) → List (String × List ℕ)
unfolding lt_codes
insert_printed m [] = m ∷ []
insert_printed m (n ∷ rest) =
    let later = n ∷ insert_printed m rest in
    if lt_codes (codes m.0) (codes n.0) then m ∷ n ∷ rest else later

joined : List (List ℕ) → List ℕ
joined [] = []
joined (x ∷ []) = x
joined (x ∷ y ∷ rest) = x ++ b',' ∷ joined (y ∷ rest)

printed_member : String × List ℕ → List ℕ
unfolding quoted
printed_member (k, t) = quoted k ++ b':' ∷ t

-- `json.dumps`. A normalized value holds no float.
mutual
  unfolding quoted integer_text insert_printed joined printed_member

  dumps : Json → List ℕ
  dumps Json.null = codes "null"
  dumps Json.number = []
  dumps (Json.boolean true) = codes "true"
  dumps (Json.boolean false) = codes "false"
  dumps (Json.integer n) = integer_text n
  dumps (Json.text s) = quoted s
  dumps (Json.array xs) = b'[' ∷ (joined (dumps_items xs) ++ b']' ∷ [])
  dumps (Json.object fs) = b'{' ∷ (joined (map printed_member (dumps_fields fs)) ++ b'}' ∷ [])

  dumps_items : Items → List (List ℕ)
  dumps_items no_items = []
  dumps_items (item j rest) = dumps j ∷ dumps_items rest

  dumps_fields : Fields → List (String × List ℕ)
  dumps_fields no_fields = []
  dumps_fields (field k j rest) = insert_printed (k, dumps j) (dumps_fields rest)

-- `canonical_json`, as the code points of the text.
unfoldable pub canonical_json : Value → Result (List ℕ)
unfolding dumps
canonical_json v = do
  (j, items) ← normalize (suc max_depth) v 0
  let text = dumps j
  require (leb (utf8_length text) max_output_bytes)
  ok text

-- `canonical_digest`, of the SHA-256 of a text as UTF-8.
unfoldable pub canonical_digest : (List ℕ → String) → Value → Result String
canonical_digest sha256_hex v = do text ← canonical_json v; ok (sha256_hex text)
