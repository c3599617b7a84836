-- ===== src/Journal/Requests.antt =====
-- The order of the requests in a history that `_validate_history` (src/kil/v3b2_journal.py) accepts.
use kil.Prelude.{
  ok-inj, ◌≡◌, refl, sym, ◌∙◌, ap, ℕ, ◌+◌, Bool, true, not, ◌&&◌, List, [], ◌∷◌, ◌++◌, length, ◌==◌,
  String, str_eq_iff, leb, ok, >>=-eq-ok,
}
use mathlib.Core.Path.{subst}
use kil.QState.{Value, Object}
use kil.Journal.Events.{Family, request, readiness, driver_cancel, evidence_freeze, Stage, intent}
use kil.Journal.Fields.{tracks}
use kil.Journal.Details.{Key, validate_event_details}
use kil.Journal.State.{
  StateKey, History, empty_history, Lifecycle, Event, is_teardown_only, refuse_unless, done,
  is_nominal,
}
use kil.Journal.Steps.{track_of, is_at, family_guard, request_guard}
use kil.Journal.Loop.{before_guard, open_intent, validate_history, step_checked, step, run_events}
use kil.Journal.Prerequisites.{refuse_unless-eq-ok, step_intent-Opened}
use kil.Journal.Teardown.{step_terminal-Kept, before_guard-Kept}

-- The claimed requests are those of the first tracks, in the order of the tracks.
abbrev InOrder : List String → Type 0
InOrder claims = (rest : List String) × (claims ++ rest ≡ tracks)

next_in_order :
    (claims rest : List String) (t : String)
    → is_at (claims ++ rest) (length claims) t ≡ true
    → (rest' : List String) × ((claims ++ t ∷ []) ++ rest' ≡ claims ++ rest)
unfolding is_at
next_in_order [] [] t e = cc e
next_in_order [] (x ∷ xs) t e = (xs, ap (λ y. y ∷ xs) (sym ((str_eq_iff x t).0 e)))
next_in_order (c ∷ claims) rest t e =
    let (rest', p) = next_in_order claims rest t e in (rest', ap (λ ys. c ∷ ys) p)

request-is_at :
    (c : Lifecycle) (t : String) (h : History)
    → request_guard c.mode t h ≡ ok tt
    → is_at tracks (length h.request_claims) t ≡ true
unfolding request_guard
request-is_at c t h e =
    let (_, _, e₁) = >>=-eq-ok (refuse_unless (is_nominal c.mode)) _ e in
    let (_, _, e₂) =
      >>=-eq-ok
        (refuse_unless (done readiness h.completed && not (done evidence_freeze h.completed))) _
        e₁ in
    let (_, placed, _) =
      >>=-eq-ok (refuse_unless (is_at tracks (length h.request_claims) t)) _ e₂ in
    refuse_unless-eq-ok _ placed

InOrder-next :
    (claims : List String) (t : String)
    → InOrder claims
    → is_at tracks (length claims) t ≡ true
    → InOrder (claims ++ t ∷ [])
InOrder-next claims t (rest, p) e =
    let (rest', q) =
      next_in_order claims rest t (subst (λ ts. is_at ts (length claims) t ≡ true) (sym p) e) in
    (rest', q ∙ p)

open_intent-InOrder :
    (c : Lifecycle) (n : ℕ) (k : StateKey) (o : Object) (h : History)
    → family_guard c n (is_teardown_only c n h) k.0 o (before_guard c n k.0 o h) ≡ ok tt
    → InOrder h.request_claims
    → InOrder (open_intent k o (before_guard c n k.0 o h)).request_claims
unfolding family_guard open_intent before_guard
open_intent-InOrder c n (request, j) o h e i =
    InOrder-next h.request_claims (track_of o) i (request-is_at c (track_of o) h e)
open_intent-InOrder c n (driver_cancel, j) o h e i =
    subst InOrder (sym (before_guard-Kept c n driver_cancel o h).same_claims) i
open_intent-InOrder c n (f, j) o h e i = i

step_checked-InOrder :
    (c : Lifecycle) (n : ℕ) (o : Object) (checked : Family × Stage × Key) (h h' : History)
    → step_checked c n o checked h ≡ ok h'
    → InOrder h.request_claims
    → InOrder h'.request_claims
unfolding step_checked
step_checked-InOrder c n o (f, intent, j) h h' e i =
    let p = step_intent-Opened c n (f, j) o h h' e in
    subst (λ (m : History). InOrder m.request_claims) (sym p.opened)
      (open_intent-InOrder c n (f, j) o h p.allowed i)
step_checked-InOrder c n o (f, stage, j) h h' e i =
    subst InOrder (sym (step_terminal-Kept c n stage (f, j) o h h' e).same_claims) i

run_events-InOrder :
    (binding_valid : Value → Bool) (c : Lifecycle) (n : ℕ) (es : List Event) (h h' : History)
    → run_events binding_valid c n es h ≡ ok h'
    → InOrder h.request_claims
    → InOrder h'.request_claims
unfolding run_events step
run_events-InOrder binding_valid c n [] h h' p i =
    subst (λ (m : History). InOrder m.request_claims) (ok-inj p) i
run_events-InOrder binding_valid c n (e ∷ es) h h' p i =
    let (m, p₁, p₂) = >>=-eq-ok (step binding_valid c n e h) _ p in
    let (_, _, p₃) = >>=-eq-ok (refuse_unless (e.sequence == n)) _ p₁ in
    let (checked, _, p₄) = >>=-eq-ok (validate_event_details binding_valid e.name e.details) _ p₃ in
    run_events-InOrder binding_valid c (n + 1) es m h' p₂
      (step_checked-InOrder c n e.details checked h m p₄ i)

-- In every history that is accepted, the claimed requests are a prefix of the tracks: they come in
-- the order of the tracks, none is left out and none is claimed twice.
pub validate_history-claims :
    (binding_valid : Value → Bool) (c : Lifecycle) (events : List Event) (h : History)
    → validate_history binding_valid c events ≡ ok h
    → (rest : List String) × (h.request_claims ++ rest ≡ tracks)
unfolding validate_history
validate_history-claims binding_valid c events h e =
    let (_, _, e₁) = >>=-eq-ok (refuse_unless (leb (length events) 10000)) _ e in
    run_events-InOrder binding_valid c 1 events empty_history h e₁ (tracks, refl)
