-- ===== src/Prelude/Results.antt =====
-- Python's exceptions as values. Messages are left out: only the class decides what a handler does.
use mathlib.Core.Path.{◌≡◌, refl}
use mathlib.Core.Logic.{◌⊎◌, inl, inr}
use mathlib.Core.Bool.{Bool, true, false}

pub data Exception : Type 0 where
  value_error q_state_verification_error journal_error duplicate_target_record : Exception
  os_error type_error recursion_error : Exception
  division_by_zero invalid_operation overflow : Exception

pub data Result {ℓ} (A : Type ℓ) : Type ℓ where
  ok : A → Result A
  raise : Exception → Result A

-- `if not test: raise failure`
abbrev pub guard : Bool → Exception → Result (Unit {0})
guard false failure = raise failure
guard true failure = ok tt

-- `if not test: raise ValueError(...)`
abbrev pub require : Bool → Result (Unit {0})
require b = guard b value_error

infixl 5 ◌>>=◌ ◌>>◌
-- A statement that may raise, and what follows it. It computes by itself, as every model uses it.
abbrev pub ◌>>=◌ {ℓ κ} :
    {Before : Type ℓ} {After : Type κ} → Result Before → (Before → Result After) → Result After
raise failure >>= next = raise failure
ok value >>= next = next value

abbrev pub ◌>>◌ {κ} : {After : Type κ} → Result (Unit {0}) → Result After → Result After
statement >> next = statement >>= λ done. next

-- The signals that the decimal context traps.
abbrev pub is_arithmetic : Exception → Bool
is_arithmetic division_by_zero = true
is_arithmetic invalid_operation = true
is_arithmetic overflow = true
is_arithmetic _ = false

-- `except ValueError` catches the subclasses too.
abbrev pub is_value_error : Exception → Bool
is_value_error value_error = true
is_value_error q_state_verification_error = true
is_value_error journal_error = true
is_value_error duplicate_target_record = true
is_value_error _ = false

abbrev pub IsOk {ℓ} : {A : Type ℓ} → Result A → Type 0
IsOk (ok a) = Unit
IsOk (raise e) = ⊥

-- What follows a statement is reached only past it.
pub >>=-eq-ok {ℓ κ} :
    {Before : Type ℓ} {After : Type κ} (statement : Result Before) (next : Before → Result After)
    {final : After}
    → (statement >>= next) ≡ ok final
    → (value : Before) × (statement ≡ ok value) × (next value ≡ ok final)
>>=-eq-ok (raise failure) next reached = cc reached
>>=-eq-ok (ok value) next reached = (value, refl, reached)

pub IsOk-eq {ℓ} : {A : Type ℓ} (m : Result A) → IsOk m → (a : A) × (m ≡ ok a)
IsOk-eq (ok a) h = (a, refl)
IsOk-eq (raise e) h = absurd h

pub ok-inj {ℓ} : {A : Type ℓ} {a b : A} → Path (Result A) (ok a) (ok b) → a ≡ b
ok-inj same = cc same

pub guard-eq-ok : (b : Bool) (e : Exception) {u : Unit {0}} → guard b e ≡ ok u → b ≡ true
guard-eq-ok true e h = refl
guard-eq-ok false e h = cc h

-- A statement that only checks, before a value is returned.
pub checked-eq-ok {ℓ} :
    {A : Type ℓ} (check : Result (Unit {0})) (a : A) {b : A}
    → (check >> ok a) ≡ ok b
    → (check ≡ ok tt) × (a ≡ b)
checked-eq-ok (ok u) a h = (refl, ok-inj h)
checked-eq-ok (raise e) a h = cc h

pub Result-cases {ℓ} :
    {A : Type ℓ} (r : Result A) → ((a : A) × (r ≡ ok a)) ⊎ ((e : Exception) × (r ≡ raise e))
Result-cases (ok a) = inl (a, refl)
Result-cases (raise e) = inr (e, refl)
