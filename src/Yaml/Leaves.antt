-- ===== src/Yaml/Leaves.antt =====
-- A scalar of src/kil/v3b2_closed_yaml.py is one node.
use kil.Prelude.{
  is_distinct, ◌≡◌, refl, ◌⊎◌, inl, inr, Bool, true, false, Option, [], ◌∷◌, leb, String, str_eq,
  codes, is_prefix, Result, ok, raise, ok-inj, require, if◌then◌else◌, checked-eq-ok,
}
use mathlib.Core.Path.{subst}
use kil.Json.{Json, no_fields, no_items, is_closed, keys_of}
use kil.Yaml.Counting.{size}
use kil.Yaml.Patterns.{matches_integer}
use kil.Yaml.Scalars.{
  scalar, quoted_or_plain, check_plain, as_scalar, integer_scalar, digit_total, integer_value,
  max_integer_digits, double_quoted, quoted_single, after_first,
}

-- One node, and no key twice in it.
abbrev pub IsLeaf : Json → Type 0
IsLeaf v = (size v ≡ 1) × (is_closed v ≡ true)

-- One of two branches was taken.
pub if-eq-ok {ℓ} :
    {A : Type ℓ} (b : Bool) (x y : Result A) {v : A}
    → (if b then x else y) ≡ ok v
    → (x ≡ ok v) ⊎ (y ≡ ok v)
if-eq-ok true x y h = inl h
if-eq-ok false x y h = inr h

returned-IsLeaf : (v w : Json) → IsLeaf v → Path (Result Json) (ok v) (ok w) → IsLeaf w
returned-IsLeaf v w leaf h = subst IsLeaf (ok-inj h) leaf

as_scalar-IsLeaf : (r : Result String) (v : Json) → as_scalar r ≡ ok v → IsLeaf v
unfolding as_scalar size is_closed
as_scalar-IsLeaf (ok s) v h = returned-IsLeaf (Json.text s) v (refl, refl) h
as_scalar-IsLeaf (raise e) v h = cc h

module _ (json_string : String → Option String) where
  quoted_or_plain-IsLeaf :
      (raw : String) (v : Json) → quoted_or_plain json_string raw ≡ ok v → IsLeaf v
  unfolding quoted_or_plain size is_closed
  quoted_or_plain-IsLeaf raw v h =
      elim (if-eq-ok (is_prefix (b'"' ∷ []) (codes raw))
        (as_scalar (double_quoted (json_string raw))) _ h) [
          | inl e ↦ as_scalar-IsLeaf (double_quoted (json_string raw)) v e
          | inr e ↦
              elim (if-eq-ok (is_prefix (b'\'' ∷ []) (codes raw))
                (as_scalar (quoted_single (after_first raw))) _ e) [
                  | inl f ↦ as_scalar-IsLeaf (quoted_single (after_first raw)) v f
                  | inr f ↦
                      let (checked, same) = checked-eq-ok (check_plain raw) (Json.text raw) f in
                      subst IsLeaf same (refl, refl)
                ]
        ]

  pub scalar-IsLeaf : (raw : String) (v : Json) → scalar json_string raw ≡ ok v → IsLeaf v
  unfolding scalar size is_closed is_distinct keys_of integer_scalar
  scalar-IsLeaf raw v h = elim (if-eq-ok (str_eq raw "{}") (ok (Json.object no_fields)) _ h) [
    | inl e ↦ returned-IsLeaf (Json.object no_fields) v (refl, refl) e
    | inr h₁ ↦ elim (if-eq-ok (str_eq raw "[]") (ok (Json.array no_items)) _ h₁) [
      | inl e ↦ returned-IsLeaf (Json.array no_items) v (refl, refl) e
      | inr h₂ ↦ elim (if-eq-ok (str_eq raw "null") (ok Json.null) _ h₂) [
        | inl e ↦ returned-IsLeaf Json.null v (refl, refl) e
        | inr h₃ ↦ elim (if-eq-ok (str_eq raw "true") (ok (Json.boolean true)) _ h₃) [
          | inl e ↦ returned-IsLeaf (Json.boolean true) v (refl, refl) e
          | inr h₄ ↦ elim (if-eq-ok (str_eq raw "false") (ok (Json.boolean false)) _ h₄) [
            | inl e ↦ returned-IsLeaf (Json.boolean false) v (refl, refl) e
            | inr h₅ ↦
                elim (if-eq-ok (matches_integer (codes raw)) (integer_scalar (codes raw)) _ h₅) [
                  | inl e ↦
                      let (checked, same) =
                        checked-eq-ok (require (leb (digit_total (codes raw)) max_integer_digits))
                          (Json.integer (integer_value (codes raw))) e in
                      subst IsLeaf same (refl, refl)
                  | inr e ↦ quoted_or_plain-IsLeaf raw v e
                ]
          ]
        ]
      ]
    ]
  ]
