-- ===== src/Canonical/Stable.antt =====
-- The canonical texts of src/kil/canonical.py for dicts that were filled in different orders.
use kil.Prelude.{
  ◌≡◌, refl, ap, ◌∙◌, ℕ, zero, suc, Bool, true, false, ltb, Result, ok, raise, ◌>>=◌, ◌>>◌, require,
  value_error, if◌then◌else◌,
}
use kil.Json.{item, field, Json, Fields, Items}
use kil.Canonical.Values.{Value, Members, Values, sort_members}
use kil.Canonical.Normal.{
  Traversal, normalize, normalize_within, normalize_members, normalize_values, normalize_object,
  check_keys, is_key, max_items, max_depth,
}
use kil.Canonical.Text.{canonical_json}
use kil.Canonical.Order.{Same, SameInOrder, SameValues, SameMembers, sort_members-SameInOrder}

require-swap :
    (a b : Bool) (rest : Result (Unit {0}))
    → (require a >> (require b >> rest)) ≡ (require b >> (require a >> rest))
require-swap true b rest = refl
require-swap false true rest = refl
require-swap false false rest = refl

check_keys-SameMembers : {ms ms' : Members} → SameMembers ms ms' → check_keys ms ≡ check_keys ms'
unfolding check_keys
check_keys-SameMembers SameMembers.nothing = refl
check_keys-SameMembers (SameMembers.keep_first k s rest) =
    ap (λ r. require (is_key k) >> r) (check_keys-SameMembers rest)
check_keys-SameMembers (SameMembers.swap_first k l v w ms differ) =
    require-swap (is_key k) (is_key l) (check_keys ms)
check_keys-SameMembers (SameMembers.in_turn r r') =
    check_keys-SameMembers r ∙ check_keys-SameMembers r'

-- What a first value and the rest give together.
one_more {ℓ κ} :
    {A : Type ℓ} {B : Type κ} → (Json → A → B) → Traversal Json → Traversal A → Traversal B
one_more build first rest items = do
  (j, counted) ← first items
  (js, total) ← rest counted
  ok (build j js, total)

one_object : Traversal Fields → Traversal Json
one_object t items = do (js, total) ← t items; ok (Json.object js, total)

checked_object : Result (Unit {0}) → Traversal Fields → Traversal Json
unfolding one_object
checked_object keys t items = keys >> one_object t items

one_array : Traversal Items → Traversal Json
one_array t items = do (js, total) ← t items; ok (Json.array js, total)

module _ (f : Value → Traversal Json) (respects : (v w : Value) → Same v w → f v ≡ f w) where
  normalize_members-Same :
      (ms ms' : Members) → SameInOrder ms ms' → normalize_members f ms ≡ normalize_members f ms'
  unfolding normalize_members one_more
  normalize_members-Same ms ms' SameInOrder.end = refl
  normalize_members-Same ms ms' (SameInOrder.next k {v = v} {w = w} {ms = ns} {ms' = ns'} s rest) =
      λ i. one_more (field k) (respects v w s i) (normalize_members-Same ns ns' rest i)
  normalize_members-Same ms ms' (SameInOrder.through {b = b} r r') =
      normalize_members-Same ms b r ∙ normalize_members-Same b ms' r'

  normalize_values-Same :
      (vs ws : Values) → SameValues vs ws → normalize_values f vs ≡ normalize_values f ws
  unfolding normalize_values one_more
  normalize_values-Same vs ws SameValues.no_more = refl
  normalize_values-Same vs ws (SameValues.and_then {v = v} {w = w} {vs = vs'} {ws = ws'} s rest) =
      λ i. one_more item (respects v w s i) (normalize_values-Same vs' ws' rest i)

  normalize_within-Same : (v w : Value) → Same v w → normalize_within f v ≡ normalize_within f w
  unfolding normalize_within normalize_object one_object checked_object one_array
  normalize_within-Same v w (Same.same u) = refl
  normalize_within-Same v w (Same.in_enumeration {v = v'} {w = w'} s) = respects v' w' s
  normalize_within-Same v w (Same.in_dataclass {ms = ms} {ms' = ms'} r) =
      λ i. one_object (normalize_members-Same ms ms' r i)
  normalize_within-Same v w (Same.in_dict {ms = ms} {ms' = ms'} r) = λ i.
      checked_object (check_keys-SameMembers r i)
        (normalize_members-Same (sort_members ms) (sort_members ms') (sort_members-SameInOrder r) i)
  normalize_within-Same v w (Same.in_sequence {vs = vs} {ws = ws} r) =
      λ i. one_array (normalize_values-Same vs ws r i)

normalize-Same : (levels : ℕ) (v w : Value) → Same v w → normalize levels v ≡ normalize levels w
unfolding normalize
normalize-Same zero v w s = refl
normalize-Same (suc levels) v w s = λ i items.
    if ltb max_items (suc items)
    then raise value_error
    else normalize_within-Same (normalize levels) (normalize-Same levels) v w s i (suc items)

-- Values that differ in the order of the items of their dicts only, at any depth, have the same canonical
-- text, or are refused with the same exception.
pub canonical_json-Same : (v w : Value) → Same v w → canonical_json v ≡ canonical_json w
unfolding canonical_json
canonical_json-Same v w s = rw (normalize-Same (suc max_depth) v w s) refl
