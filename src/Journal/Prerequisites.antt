-- ===== src/Journal/Prerequisites.antt =====
-- What an intent passed that the loop of `_validate_history` (src/kil/v3b2_journal.py) accepts.
use kil.Prelude.{ok-inj, ◌≡◌, refl, sym, ℕ, Bool, true, false, not, ◌||◌, none, some, ok, >>=-eq-ok}
use kil.QState.{Object}
use kil.Journal.Events.{is_one_of}
use kil.Journal.State.{
  StateKey, History, Lifecycle, is_teardown_only, teardown_families, refuse_unless, find_state,
}
use kil.Journal.Steps.{family_guard}
use kil.Journal.Loop.{admission_guard, before_guard, open_intent, step_intent}

pub refuse_unless-eq-ok : (b : Bool) {u : Unit {0}} → refuse_unless b ≡ ok u → b ≡ true
refuse_unless-eq-ok true h = refl
refuse_unless-eq-ok false h = cc

-- What an accepted intent passed, and the state that it leaves.
pub record Opened (c : Lifecycle) (n : ℕ) (k : StateKey) (o : Object) (h h' : History)
    : Type 0 where
  pub admitted : admission_guard c n k h ≡ ok tt
  pub allowed : family_guard c n (is_teardown_only c n h) k.0 o (before_guard c n k.0 o h) ≡ ok tt
  pub opened : h' ≡ open_intent k o (before_guard c n k.0 o h)

pub step_intent-Opened :
    (c : Lifecycle) (n : ℕ) (k : StateKey) (o : Object) (h h' : History)
    → step_intent c n k o h ≡ ok h'
    → Opened c n k o h h'
unfolding step_intent
step_intent-Opened c n k o h h' e =
    let (_, admitted, e₁) = >>=-eq-ok (admission_guard c n k h) _ e in
    let (_, allowed, e₂) =
      >>=-eq-ok (family_guard c n (is_teardown_only c n h) k.0 o (before_guard c n k.0 o h)) _ e₁ in
    record { admitted = admitted; allowed = allowed; opened = sym (ok-inj e₂) }

implied : (a b : Bool) → not a || b ≡ true → a ≡ true → b ≡ true
implied true b e t = e
implied false b e t = cc t

pub admission_guard-teardown :
    (c : Lifecycle) (n : ℕ) (k : StateKey) (h : History)
    → admission_guard c n k h ≡ ok tt
    → is_teardown_only c n h ≡ true
    → is_one_of k.0 teardown_families ≡ true
unfolding admission_guard
admission_guard-teardown c n k h e t =
    let (_, _, e₁) =
      >>=-eq-ok (refuse_unless (elim (find_state k h.states) [ none ↦ true | some s ↦ false ])) _
        e in
    let (_, _, e₂) =
      >>=-eq-ok (refuse_unless (elim h.active [ none ↦ true | some a ↦ false ])) _ e₁ in
    let (_, only, _) =
      >>=-eq-ok (refuse_unless (not (is_teardown_only c n h) || is_one_of k.0 teardown_families)) _
        e₂ in
    implied _ _ (refuse_unless-eq-ok _ only) t
