-- ===== src/Tests/Yaml.antt =====
-- Texts of src/kil/v3b2_closed_yaml.py, and the theorems about its decoder at them.
use kil.Prelude.{
  false, leb→le, utf8_length, codes, ◌≡◌, refl, ◌+◌, ◌≤◌, ◌<◌, true, some, [], ◌∷◌, List, false,
  String, Option, pos, ok, length, suc, arith,
}
use kil.Json.{
  Fields, integer, text, array, object, boolean, no_items, item, no_fields, field, is_closed,
}
use kil.Yaml.Quotes.{single_quoted, quoted_single-single_quoted}
use kil.Yaml.{
  matches_numberish, matches_sexagesimal, matches_date, matches_leading_dot_float, matches_radix,
  matches_integer, matches_plain, is_safe, max_scalar, quoted_single, Line, max_nodes,
  decode_closed_yaml, prepare, Loops, parse, refusing,
}
use kil.Yaml.Counting.{size}
use kil.Yaml.Rounds.{decode_closed_yaml-bounded}
use kil.Yaml.Termination.{parse-fuel}

-- The text between the quotes, as if it had no escapes.
abbrev json_string : String → Option String
json_string raw = some "q"

abbrev example_text : String
example_text = "kind: Pod\nspec:\n- name: a-1\n  port: 8080\n- 'it''s'\nok: true\n"

abbrev example_value : Fields
example_value = field "kind" (text "Pod") (
    field "spec"
      (array (
        item (object (field "name" (text "a-1") (field "port" (integer (pos 8080)) no_fields)))
          (item (text "it's") no_items)))
      (field "ok" (boolean true) no_fields))

decoded : decode_closed_yaml json_string example_text ≡ ok example_value
unfolding decode_closed_yaml prepare kil.Prelude.utf8_length kil.Yaml.split_lines
    kil.Yaml.prepare_lines kil.Prelude.is_prefix kil.Yaml.loops_on kil.Yaml.pair
    kil.Yaml.matches_key kil.Prelude.is_letter kil.Prelude.contains_text kil.Prelude.lower_text
    kil.Yaml.scalar kil.Yaml.matches_integer kil.Yaml.matches_numberish kil.Prelude.is_digit
    kil.Yaml.matches_radix kil.Yaml.matches_leading_dot_float kil.Yaml.matches_sexagesimal
    kil.Yaml.matches_date kil.Yaml.matches_plain kil.QState.digits_value
decoded = refl

decode_closed_yaml-bounded_example :
    (size (object example_value) ≤ max_nodes) × (is_closed (object example_value) ≡ true)
decode_closed_yaml-bounded_example =
    decode_closed_yaml-bounded json_string example_text example_value decoded

-- Other loops below the fuel.
abbrev stopping : Loops
stopping = record {
  mapping = λ indent depth seen r. ok (no_fields, r);
  sequence = λ indent depth r. ok (no_items, r);
}

abbrev example_lines : List Line
example_lines =
    record { indent = 0; sequence = false; body = "a:" }
    ∷ record { indent = 2; sequence = false; body = "b: 1" }
    ∷ []

parse-fuel_example :
    parse json_string (refusing json_string) 3 example_lines
    ≡ parse json_string stopping 7 example_lines
parse-fuel_example =
    parse-fuel json_string (refusing json_string) stopping example_lines 3 7 (omega arith)
      (omega arith)

a_safe : is_safe "it's" ≡ true
unfolding is_safe
a_safe = refl

a_short : utf8_length (codes "it's") ≤ max_scalar
unfolding utf8_length
a_short = leb→le (utf8_length (codes "it's")) max_scalar refl

quoted_single-single_quoted_example : quoted_single (single_quoted "it's") ≡ ok "it's"
quoted_single-single_quoted_example = quoted_single-single_quoted "it's" a_safe a_short

numbers :
    (matches_numberish (codes "+1_0.5e-3") ≡ true)
    × (matches_numberish (codes "1.2.3") ≡ false)
    × (matches_sexagesimal (codes "1:30:2.5") ≡ true)
    × (matches_sexagesimal (codes "1:a") ≡ false)
    × (matches_date (codes "2026-01-02T") ≡ true)
    × (matches_leading_dot_float (codes "-.5") ≡ true)
    × (matches_radix (codes "0x1F") ≡ true)
    × (matches_integer (codes "-0") ≡ false)
    × (matches_plain (codes "a  b") ≡ false)
    × (matches_plain (codes "a b") ≡ true)
unfolding matches_numberish kil.Prelude.is_digit matches_sexagesimal matches_date
    matches_leading_dot_float matches_radix matches_integer matches_plain kil.Prelude.is_letter
numbers = (refl, refl, refl, refl, refl, refl, refl, refl, refl, refl)
