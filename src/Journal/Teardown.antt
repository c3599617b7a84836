-- ===== src/Journal/Teardown.antt =====
-- What every round of the loop of `_validate_history` (src/kil/v3b2_journal.py) leaves as it is.
use kil.Prelude.{
  ok-inj, ◌≡◌, refl, sym, ◌∙◌, if◌then◌else◌, ℕ, ◌+◌, Bool, true, false, not, ◌&&◌, List, [], ◌∷◌,
  Option, none, some, is_empty, ◌==◌, ok, >>=-eq-ok,
}
use mathlib.Core.Path.{subst}
use kil.QState.{Value, Object}
use kil.Journal.Events.{
  Family, request, readiness, driver_start, driver_cancel, Stage, intent, complete, failed,
  abandoned, is_one_of,
}
use kil.Journal.Details.{Key, validate_event_details}
use kil.Journal.State.{
  StateKey, DriverId, History, Lifecycle, Event, is_teardown_only, teardown_families, refuse_unless,
  done, is_started,
}
use kil.Journal.Steps.{driver_of, adopt_driver}
use kil.Journal.Loop.{
  before_guard, open_intent, step_intent, order_guard, settle_stage, completion_effect,
  abandonment_effect, close_intent, abandonment_guard, end_intent, step_terminal, step_checked,
  step, run_events, pending_intent, matches_intent,
}
use kil.Journal.Prerequisites.{step_intent-Opened, admission_guard-teardown}

-- Some intent has failed or was abandoned.
unfoldable pub is_torn : History → Bool
is_torn h = not (is_empty h.failed_families && is_empty h.abandoned_families)

-- No request is claimed from the one state to the other, and a failure is not forgotten.
pub record Kept (h h' : History) : Type 0 where
  pub same_claims : h'.request_claims ≡ h.request_claims
  pub still_torn : is_torn h ≡ true → is_torn h' ≡ true

Kept-trans : {a b c : History} → Kept a b → Kept b c → Kept a c
Kept-trans p q = record {
  same_claims = q.same_claims ∙ p.same_claims;
  still_torn = λ t. q.still_torn (p.still_torn t);
}

if-Kept : (b : Bool) {h h' : History} → Kept h h' → Kept h (if b then h' else h)
if-Kept true k = k
if-Kept false k = record { same_claims = refl; still_torn = λ u. u }

adopt_driver-Kept : (t : Bool) (d : DriverId) (h : History) → Kept h (adopt_driver t d h)
unfolding adopt_driver is_torn
adopt_driver-Kept t d h =
    if-Kept (not (is_started d.namespace h.driver_starts) && (t && done readiness h.completed))
      (record { same_claims = refl; still_torn = λ u. u })

pub before_guard-Kept :
    (c : Lifecycle) (n : ℕ) (f : Family) (o : Object) (h : History)
    → Kept h (before_guard c n f o h)
unfolding before_guard is_torn
before_guard-Kept c n driver_cancel o h = adopt_driver-Kept (is_teardown_only c n h) (driver_of o) h
before_guard-Kept c n f o h = record { same_claims = refl; still_torn = λ t. t }

open_intent-Kept :
    (k : StateKey) (o : Object) (h : History)
    → is_one_of k.0 teardown_families ≡ true
    → Kept h (open_intent k o h)
unfolding open_intent is_one_of is_torn
open_intent-Kept (request, j) o h t = cc t
open_intent-Kept (f, j) o h t = record { same_claims = refl; still_torn = λ u. u }

close_intent-Kept : (k : StateKey) (o : Object) (h : History) → Kept h (close_intent k o h)
unfolding close_intent is_torn
close_intent-Kept (request, j) o h = record { same_claims = refl; still_torn = λ u. u }
close_intent-Kept (f, j) o h = record { same_claims = refl; still_torn = λ u. u }

completion_effect-Kept : (f : Family) (o : Object) (h : History) → Kept h (completion_effect f o h)
unfolding completion_effect is_torn
completion_effect-Kept driver_start o h = record { same_claims = refl; still_torn = λ u. u }
completion_effect-Kept f o h = record { same_claims = refl; still_torn = λ u. u }

abandonment_effect-Kept :
    (f : Family) (o : Object) (h : History) → Kept h (abandonment_effect f o h)
unfolding abandonment_effect is_torn
abandonment_effect-Kept driver_cancel o h = record { same_claims = refl; still_torn = λ u. u }
abandonment_effect-Kept f o h = record { same_claims = refl; still_torn = λ u. u }

torn_by_failure :
    (h : History) (f : Family) → Kept h (record h { failed_families = f ∷ h.failed_families })
unfolding is_torn
torn_by_failure h f = record { same_claims = refl; still_torn = λ u. refl }

torn_by_abandonment :
    (h : History) (f : Family) → Kept h (record h { abandoned_families = f ∷ h.abandoned_families })
unfolding is_torn
torn_by_abandonment h f = record {
  same_claims = refl;
  still_torn = λ u. elim (is_empty h.failed_families) as (λ b. not (b && false) ≡ true) [
    | true ↦ refl
    | false ↦ refl
  ];
}

settle_stage-Kept :
    (stage : Stage) (k : StateKey) (o : Object) (h h' : History)
    → settle_stage stage k o h ≡ ok h'
    → Kept h h'
unfolding settle_stage is_torn
settle_stage-Kept complete k o h h' e =
    let p = close_intent-Kept k o (record h { completed = k ∷ h.completed }) in
    subst (Kept h) (ok-inj e) (
      Kept-trans (record { same_claims = p.same_claims; still_torn = p.still_torn })
        (completion_effect-Kept k.0 o _))
settle_stage-Kept failed k o h h' e =
    subst (Kept h) (ok-inj e) (Kept-trans (torn_by_failure h k.0) (close_intent-Kept k o _))
settle_stage-Kept abandoned k o h h' e =
    let (_, _, e₁) = >>=-eq-ok (abandonment_guard k.0 (record h { states = h.states })) _ e in
    subst (Kept h) (ok-inj e₁) (
      Kept-trans (torn_by_abandonment h k.0)
        (Kept-trans (close_intent-Kept k o _) (abandonment_effect-Kept k.0 o _)))
settle_stage-Kept intent k o h h' e = cc e

end_intent-Kept :
    (c : Lifecycle) (n : ℕ) (stage : Stage) (k : StateKey) (o : Object) (h h' : History)
    → (begun : Option Object) → end_intent c n stage k o h begun ≡ ok h'
    → Kept h h'
unfolding end_intent is_torn
end_intent-Kept c n stage k o h h' none e = cc e
end_intent-Kept c n stage k o h h' (some begun) e =
    let (_, _, e₁) = >>=-eq-ok (order_guard c n k h) _ e in
    let (_, _, e₂) = >>=-eq-ok (refuse_unless (matches_intent k.0 stage o begun)) _ e₁ in
    let p = settle_stage-Kept stage k o _ h' e₂ in
    record { same_claims = p.same_claims; still_torn = p.still_torn }

pub step_terminal-Kept :
    (c : Lifecycle) (n : ℕ) (stage : Stage) (k : StateKey) (o : Object) (h h' : History)
    → step_terminal c n stage k o h ≡ ok h'
    → Kept h h'
unfolding step_terminal
step_terminal-Kept c n stage k o h h' e = end_intent-Kept c n stage k o h h' (pending_intent k h) e

torn_teardown_only :
    (c : Lifecycle) (n : ℕ) (h : History) → is_torn h ≡ true → is_teardown_only c n h ≡ true
unfolding is_torn is_teardown_only
torn_teardown_only c n h t = rw t refl

step_intent-Kept :
    (c : Lifecycle) (n : ℕ) (k : StateKey) (o : Object) (h h' : History)
    → is_torn h ≡ true
    → step_intent c n k o h ≡ ok h'
    → Kept h h'
step_intent-Kept c n k o h h' t e =
    let p = step_intent-Opened c n k o h h' e in
    let only = admission_guard-teardown c n k h p.admitted (torn_teardown_only c n h t) in
    subst (Kept h) (sym p.opened)
      (Kept-trans (before_guard-Kept c n k.0 o h) (open_intent-Kept k o _ only))

step_checked-Kept :
    (c : Lifecycle) (n : ℕ) (o : Object) (checked : Family × Stage × Key) (h h' : History)
    → is_torn h ≡ true
    → step_checked c n o checked h ≡ ok h'
    → Kept h h'
unfolding step_checked
step_checked-Kept c n o (f, intent, j) h h' t e = step_intent-Kept c n (f, j) o h h' t e
step_checked-Kept c n o (f, stage, j) h h' t e = step_terminal-Kept c n stage (f, j) o h h' e

step-Kept :
    (binding_valid : Value → Bool) (c : Lifecycle) (n : ℕ) (e : Event) (h h' : History)
    → is_torn h ≡ true
    → step binding_valid c n e h ≡ ok h'
    → Kept h h'
unfolding step
step-Kept binding_valid c n e h h' t p =
    let (_, _, p₁) = >>=-eq-ok (refuse_unless (e.sequence == n)) _ p in
    let (checked, _, p₂) = >>=-eq-ok (validate_event_details binding_valid e.name e.details) _ p₁ in
    step_checked-Kept c n e.details checked h h' t p₂

run_events-Kept :
    (binding_valid : Value → Bool) (c : Lifecycle) (n : ℕ) (es : List Event) (h h' : History)
    → is_torn h ≡ true
    → run_events binding_valid c n es h ≡ ok h'
    → Kept h h'
unfolding run_events
run_events-Kept binding_valid c n [] h h' t p =
    subst (Kept h) (ok-inj p) (record { same_claims = refl; still_torn = λ u. u })
run_events-Kept binding_valid c n (e ∷ es) h h' t p =
    let (m, p₁, p₂) = >>=-eq-ok (step binding_valid c n e h) _ p in
    let k = step-Kept binding_valid c n e h m t p₁ in
    Kept-trans k (run_events-Kept binding_valid c (n + 1) es m h' (k.still_torn t) p₂)

-- Once an intent has failed or was abandoned, an accepted continuation of the journal claims no
-- further request, and the lifecycle stays so.
pub run_events-torn :
    (binding_valid : Value → Bool) (c : Lifecycle) (n : ℕ) (es : List Event) (h h' : History)
    → is_torn h ≡ true
    → run_events binding_valid c n es h ≡ ok h'
    → (h'.request_claims ≡ h.request_claims) × (is_torn h' ≡ true)
run_events-torn binding_valid c n es h h' t p =
    let k = run_events-Kept binding_valid c n es h h' t p in (k.same_claims, k.still_torn t)
