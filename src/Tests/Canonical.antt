-- ===== src/Tests/Canonical.antt =====
-- Canonical texts of src/kil/canonical.py at small values.
use kil.Prelude.{◌≡◌, refl, [], ◌∷◌, inl, true, pos, negsuc, codes, ok}
use kil.Canonical.{before, Value, member, no_members, no_values, value, canonical_json}
use kil.Canonical.Order.{Same, SameMembers, SameValues}
use kil.Canonical.Stable.{canonical_json-Same}
use kil.Decimal.{finite}

abbrev amount : Value
amount = Value.decimal (finite true 1500 (negsuc 0))

abbrev ordered : Value
ordered = Value.dict (member "a" amount (member "b" (Value.text "q\"z") no_members))

abbrev reversed : Value
reversed = Value.dict (member "b" (Value.text "q\"z") (member "a" amount no_members))

printed :
    canonical_json reversed ≡ ok (codes "{\"a\":{\"$kil.decimal\":[\"-15\",1]},\"b\":\"q\\\"z\"}")
unfolding canonical_json kil.Canonical.normalize kil.Prelude.utf8_length kil.Canonical.sort_members
    kil.Canonical.digits_of kil.QState.strip_zeros
printed = refl

a_first : before "a" "b" ≡ true
unfolding kil.Canonical.lt_codes
a_first = refl

canonical_json-Same_example :
    canonical_json (Value.sequence (value ordered no_values))
    ≡ canonical_json (Value.sequence (value reversed no_values))
canonical_json-Same_example =
    canonical_json-Same (Value.sequence (value ordered no_values))
      (Value.sequence (value reversed no_values))
      (Same.in_sequence (
        SameValues.and_then
          (Same.in_dict
            (SameMembers.swap_first "a" "b" amount (Value.text "q\"z") no_members (inl a_first)))
          SameValues.no_more))
