-- ===== src/Decimal/Order.antt =====
-- Decimals and their exact comparison. A finite decimal is sign, coefficient and exponent; its
-- value is a fraction whose denominator is a power of ten.
use native.Mathlib.Nat.{one-le-pow, mul-le-mul_right}
use kil.Prelude.{
  ℕ, ◌+◌, ◌*◌, ◌^◌, ◌≤◌, ◌<◌, ◌≡◌, ◌⊎◌, inl, inr, Bool, true, false, arith, ltb, leb, if◌then◌else◌,
  ℤ, pos, pos_part, neg_part, Bool-cases,
}

pub data Decimal : Type 0 where
  finite : Bool → ℕ → ℤ → Decimal
  infinity : Bool → Decimal
  nan : Decimal

abbrev pub is_finite : Decimal → Bool
is_finite (finite s c e) = true
is_finite (infinity s) = false
is_finite nan = false

-- The value of a finite decimal is `(plus d - minus d) / den d`. The source compares finite
-- decimals only, so the value of the others is never read.
pub plus : Decimal → ℕ
plus (finite false c e) = c * 10 ^ pos_part e
plus _ = 0

pub minus : Decimal → ℕ
minus (finite true c e) = c * 10 ^ pos_part e
minus _ = 0

pub den : Decimal → ℕ
den (finite s c e) = 10 ^ neg_part e
den _ = 1

abbrev left : Decimal → Decimal → ℕ
left a b = plus a * den b + minus b * den a

unfoldable pub Le : Decimal → Decimal → Type 0
unfolding plus minus den
Le a b = left a b ≤ left b a

-- `a <= b` and `a < b`.
unfoldable pub le_dec : Decimal → Decimal → Bool
unfolding plus minus den
le_dec a b = leb (left a b) (left b a)

unfoldable pub lt_dec : Decimal → Decimal → Bool
unfolding plus minus den
lt_dec a b = ltb (left a b) (left b a)

-- Python's `min(a, b)` and `max(a, b)` keep the first argument where the two are equal.
unfoldable pub min_dec : Decimal → Decimal → Decimal
unfolding lt_dec
min_dec a b = if lt_dec b a then b else a

unfoldable pub max_dec : Decimal → Decimal → Decimal
unfolding lt_dec
max_dec a b = if lt_dec a b then b else a

-- `Decimal("0")`, `Decimal("1")`, and `Decimal(n)` of an integer.
abbrev pub zero_dec : Decimal
zero_dec = finite false 0 (pos 0)

abbrev pub one_dec : Decimal
one_dec = finite false 1 (pos 0)

abbrev pub of_ℕ : ℕ → Decimal
of_ℕ n = finite false n (pos 0)

pow-pos : (n : ℕ) → 0 < 10 ^ n
pow-pos n = one-le-pow n 10 (omega arith)

den-pos : (a : Decimal) → 0 < den a
unfolding den
den-pos (finite s c e) = pow-pos (neg_part e)
den-pos (infinity s) = omega arith
den-pos nan = omega arith

pub Le-refl : (a : Decimal) → Le a a
unfolding Le
Le-refl a = omega arith

cancel : (a b c : ℕ) → 0 < c → a * c ≤ b * c → a ≤ b
cancel a b c h k = grind arith

Le_scaled :
    (pa ma da pb mb db pc mc dc : ℕ)
    → pa * db + mb * da ≤ pb * da + ma * db
    → pb * dc + mc * db ≤ pc * db + mb * dc
    → (pa * dc + mc * da) * db ≤ (pc * da + ma * dc) * db
Le_scaled pa ma da pb mb db pc mc dc h k =
    let first = mul-le-mul_right dc h in let second = mul-le-mul_right da k in omega arith

pub Le-trans : (a b c : Decimal) → Le a b → Le b c → Le a c
unfolding Le
Le-trans a b c h k =
    cancel (left a c) (left c a) (den b) (den-pos b) (
      Le_scaled (plus a) (minus a) (den a) (plus b) (minus b) (den b) (plus c) (minus c) (den c) h
        k)

pub Le-total : (a b : Decimal) → Le a b ⊎ Le b a
unfolding Le
Le-total a b = omega arith

pub le_dec→Le : (a b : Decimal) → le_dec a b ≡ true → Le a b
unfolding Le le_dec
le_dec→Le a b h = ground arith

pub Le→le_dec : (a b : Decimal) → Le a b → le_dec a b ≡ true
unfolding Le le_dec
Le→le_dec a b h = ground arith

pub lt_dec→Le : (a b : Decimal) → lt_dec a b ≡ true → Le a b
unfolding Le lt_dec
lt_dec→Le a b h = ground arith

pub not_lt_dec→Le : (a b : Decimal) → lt_dec a b ≡ false → Le b a
unfolding Le lt_dec
not_lt_dec→Le a b h = ground arith

pub Le→not_lt_dec : (a b : Decimal) → Le b a → lt_dec a b ≡ false
unfolding Le lt_dec
Le→not_lt_dec a b h = ground arith

pub not_Le→not_le_dec : (a b : Decimal) → ¬ Le a b → le_dec a b ≡ false
unfolding Le le_dec
not_Le→not_le_dec a b h = ground arith

pub not_Le→Ge : (a b : Decimal) → ¬ Le a b → Le b a
unfolding Le
not_Le→Ge a b h = omega arith

-- `min` and `max` as bounds. The code's clamps are compositions of these.
module _ (a b : Decimal) where
  pub min_dec-le_left : Le (min_dec a b) a
  unfolding min_dec
  min_dec-le_left = elim (Bool-cases (lt_dec b a)) [
    | inl e ↦ rw e (lt_dec→Le b a e)
    | inr e ↦ rw e (Le-refl a)
  ]

  pub min_dec-le_right : Le (min_dec a b) b
  unfolding min_dec
  min_dec-le_right = elim (Bool-cases (lt_dec b a)) [
    | inl e ↦ rw e (Le-refl b)
    | inr e ↦ rw e (not_lt_dec→Le b a e)
  ]

  pub le-max_dec_left : Le a (max_dec a b)
  unfolding max_dec
  le-max_dec_left = elim (Bool-cases (lt_dec a b)) [
    | inl e ↦ rw e (lt_dec→Le a b e)
    | inr e ↦ rw e (Le-refl a)
  ]

  -- A property of both arguments is one of the result.
  pub min_dec-elim {ℓ} : (P : Decimal → Type ℓ) → P a → P b → P (min_dec a b)
  unfolding min_dec
  min_dec-elim P p q = elim (Bool-cases (lt_dec b a)) [ inl e ↦ rw e q | inr e ↦ rw e p ]

  pub max_dec-elim {ℓ} : (P : Decimal → Type ℓ) → P a → P b → P (max_dec a b)
  unfolding max_dec
  max_dec-elim P p q = elim (Bool-cases (lt_dec a b)) [ inl e ↦ rw e q | inr e ↦ rw e p ]
