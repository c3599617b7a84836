-- ===== src/QState/Distinct.antt =====
-- Lists of texts without repetitions, and texts that stand in no given list.
use kil.Prelude.{
  contains_text, is_distinct, ◌≡◌, refl, inl, inr, Bool, true, false, not, ◌||◌, List, [], ◌∷◌,
  ◌++◌, any-append, String, str_eq, str_eq_iff, Bool-cases, arith, refuted, both, All,
}

str_eq-false : (x y : String) → str_eq y x ≡ false → str_eq x y ≡ false
str_eq-false x y f = elim (Bool-cases (str_eq x y)) [
  | inl e ↦ absurd (ground (arith, str_eq_iff x y, str_eq_iff y x))
  | inr e ↦ e
]

either_false : (a b : Bool) → a || b ≡ false → (a ≡ false) × (b ≡ false)
either_false false b h = (refl, h)
either_false true b h = cc h

contains_text-append :
    (y x : String) (xs : List String)
    → contains_text y xs ≡ false
    → str_eq x y ≡ false
    → contains_text y (xs ++ x ∷ []) ≡ false
unfolding contains_text
contains_text-append y x xs f g = rw (any-append (λ n. str_eq n y) xs (x ∷ []), f, g) refl

pub is_distinct-append :
    (xs : List String) (x : String)
    → is_distinct xs ≡ true
    → contains_text x xs ≡ false
    → is_distinct (xs ++ x ∷ []) ≡ true
unfolding is_distinct
is_distinct-append [] x h f = unfold contains_text in refl
is_distinct-append (y ∷ xs) x h f =
    let (apart, rest) = both (not (contains_text y xs)) (is_distinct xs) h in
    let (other, absent) =
      either_false (str_eq y x) (contains_text x xs) (unfold contains_text in f) in
    rw
      (
        contains_text-append y x xs (refuted _ apart) (str_eq-false x y other),
        is_distinct-append xs x rest absent,
      )
      refl

-- No text of the second list stands in the first.
abbrev pub Apart : List String → List String → Type 0
Apart known ids = All (λ i. contains_text i known ≡ false) ids

pub Apart-cons :
    (x : String) (known ids : List String)
    → Apart (x ∷ known) ids
    → (contains_text x ids ≡ false) × Apart known ids
unfolding contains_text
Apart-cons x known [] h = (refl, tt)
Apart-cons x known (i ∷ ids) (h, hs) =
    let (differs, fresh) = either_false (str_eq x i) (contains_text i known) h in
    let (absent, rest) = Apart-cons x known ids hs in
    (rw (str_eq-false i x differs, absent) refl, (fresh, rest))

-- A fresh text in front of texts that are apart from it too.
pub is_distinct-cons :
    (x : String) (known ids : List String)
    → contains_text x known ≡ false
    → Apart (x ∷ known) ids × (is_distinct ids ≡ true)
    → Apart known (x ∷ ids) × (is_distinct (x ∷ ids) ≡ true)
unfolding is_distinct
is_distinct-cons x known ids fresh (apart, distinct) =
    let (absent, rest) = Apart-cons x known ids apart in ((fresh, rest), rw (absent, distinct) refl)
