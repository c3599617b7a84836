-- ===== src/Replay/Conservative.antt =====
-- The events that succeed in the two modes of a replay (src/kil/replay.py), through the whole chain of
-- dependencies.
use kil.Prelude.{
  contains_text, both, ◌≡◌, ◌∙◌, refl, sym, All, All-append, List, [], ◌∷◌, ◌⊎◌, inl, inr, Bool,
  true, false, String, str_eq, Result, ok, >>=-eq-ok, Bool-cases, some,
}
use mathlib.Core.Path.{subst}
use kil.Decimal.{Context, ContextLaws}
use kil.Domain.{ReductionProfile, DecisionRecord, DecisionOutcome, is_permit, FailureDisposition}
use kil.Domain.Validity.{IsValidRequest, IsValidState, IsValidEvidence, IsValidProfile}
use kil.Engine.Escalation.{local-permit-signed}
use kil.Replay.Defs.{
  ScenarioEvent, Scenario, PairedDecision, ReplayReport, Progress, no_progress, paired_decision,
  advance, all_in, add_if, decide_signed, decide_local, replay_event, replay_events, replay,
  signed_succeeds, local_succeeds,
}
use kil.Replay.Order.{replay_event-Round, replay-inv}

-- Every member of the first list is one of the second.
Within : List String → List String → Type 0
Within xs ys = (x : String) → contains_text x xs ≡ true → contains_text x ys ≡ true

all_in-Within : (xs ys ps : List String) → Within xs ys → all_in xs ps ≡ true → all_in ys ps ≡ true
unfolding all_in Within
all_in-Within xs ys [] w h = refl
all_in-Within xs ys (p ∷ ps) w h =
    let (here, later) = both (contains_text p xs) (all_in xs ps) h in
    rw (w p here, all_in-Within xs ys ps w later) refl

contains_text-add :
    (y x : String) (xs : List String)
    → contains_text y (x ∷ xs) ≡ true
    → (str_eq x y ≡ true) ⊎ (contains_text y xs ≡ true)
unfolding contains_text
contains_text-add y x xs m = elim (Bool-cases (str_eq x y)) [
  | inl e ↦ inl e
  | inr e ↦ inr (rw e at m)
]

contains_text-there :
    (b : Bool) (y x : String) (xs : List String)
    → contains_text y xs ≡ true
    → contains_text y (add_if b x xs) ≡ true
unfolding contains_text add_if
contains_text-there true y x xs m = elim (Bool-cases (str_eq x y)) [
  | inl e ↦ rw e refl
  | inr e ↦ rw e m
]
contains_text-there false y x xs m = m

contains_text-here :
    (y x : String) (xs : List String) → str_eq x y ≡ true → contains_text y (x ∷ xs) ≡ true
unfolding contains_text
contains_text-here y x xs e = rw e refl

add_if-Within :
    (b b' : Bool) (x : String) (xs ys : List String)
    → Within xs ys
    → (b ≡ true → b' ≡ true)
    → Within (add_if b x xs) (add_if b' x ys)
unfolding Within
add_if-Within true b' x xs ys w h y m = elim (contains_text-add y x xs (unfold add_if in m)) [
  | inl e ↦ rw (h refl) (unfold add_if in contains_text-here y x ys e)
  | inr e ↦ contains_text-there b' y x ys (w y e)
]
add_if-Within false b' x xs ys w h y m = contains_text-there b' y x ys (w y (unfold add_if in m))

-- The assumptions of an event meet the checks of their types.
pub record IsValidEvent (e : ScenarioEvent) : Type 0 where
  pub valid_request : IsValidRequest e.request
  pub valid_state : IsValidState e.state_assumption.value
  pub valid_evidence : IsValidEvidence e.local_evidence_assumption.value

permit-eq : (o : DecisionOutcome) → is_permit o ≡ true → o ≡ DecisionOutcome.permit
permit-eq DecisionOutcome.permit h = refl
permit-eq o h = cc h

module _ (c : Context) (laws : ContextLaws c) (profile : ReductionProfile)
    (vp : IsValidProfile profile) where
  decide_local-permit :
      (e : ScenarioEvent) (signed reduced : DecisionRecord)
      → IsValidEvent e
      → decide_signed c e ≡ ok signed
      → decide_local c profile e ≡ ok reduced
      → is_permit reduced.outcome ≡ true
      → is_permit signed.outcome ≡ true
  unfolding decide_signed decide_local
  decide_local-permit e signed reduced v hs hl permits =
      let (d, decided, permitted) =
        local-permit-signed c laws e.request e.state_assumption.value
          (some e.local_evidence_assumption.value) (some profile) FailureDisposition.closed reduced
          v.valid_request v.valid_state v.valid_evidence vp hl (permit-eq _ permits) in
      let both_ok : Path (Result DecisionRecord) (ok signed) (ok d) = sym hs ∙ decided in
      let same : signed ≡ d = cc both_ok in rw (same, permitted) refl

  -- The successes with local evidence are among those without it.
  Safe : PairedDecision → Type 0
  Safe d = (local_succeeds d ≡ false) ⊎ (signed_succeeds d ≡ true)

  paired_decision-succeeds :
      (e : ScenarioEvent) (p : Progress) (signed reduced : DecisionRecord)
      → IsValidEvent e
      → decide_signed c e ≡ ok signed
      → decide_local c profile e ≡ ok reduced
      → Within p.local_success p.signed_success
      → local_succeeds (paired_decision e p signed reduced) ≡ true
      → signed_succeeds (paired_decision e p signed reduced) ≡ true
  unfolding local_succeeds signed_succeeds paired_decision
  paired_decision-succeeds e p signed reduced v hs hl w h =
      let (reached, permits) = both _ (is_permit reduced.outcome) h in
      rw
        (
          all_in-Within p.local_success p.signed_success e.depends_on w reached,
          decide_local-permit e signed reduced v hs hl permits,
        )
        refl

  Kept : Progress → Type 0
  Kept p = Within p.local_success p.signed_success × All Safe p.decisions

  Safe-of : (d : PairedDecision) → (local_succeeds d ≡ true → signed_succeeds d ≡ true) → Safe d
  unfolding Safe
  Safe-of d h = elim (Bool-cases (local_succeeds d)) [ inl e ↦ inr (h e) | inr e ↦ inl e ]

  replay_event-Kept :
      (e : ScenarioEvent) (p p' : Progress)
      → IsValidEvent e
      → replay_event c profile e p ≡ ok p'
      → Kept p
      → Kept p'
  unfolding Kept advance
  replay_event-Kept e p p' v h (w, safe) =
      let r = replay_event-Round c profile e p p' h in
      let d = paired_decision e p r.signed r.reduced in
      let succeeds =
        paired_decision-succeeds e p r.signed r.reduced v r.decided_signed r.decided_local w in
      subst (λ (q : Progress). Within q.local_success q.signed_success × All Safe q.decisions)
        r.advanced
        (
          add_if-Within (local_succeeds d) (signed_succeeds d) d.event_id p.local_success
              p.signed_success w succeeds,
          All-append Safe p.decisions (d ∷ []) safe (Safe-of d succeeds, tt),
        )

  replay_events-Kept :
      (es : List ScenarioEvent) (p p' : Progress)
      → All IsValidEvent es
      → replay_events c profile es p ≡ ok p'
      → Kept p
      → Kept p'
  unfolding replay_events
  replay_events-Kept [] p p' v h k = let same : p ≡ p' = cc h in subst Kept same k
  replay_events-Kept (e ∷ es) p p' (v, vs) h k =
      let (m, h₁, h₂) = >>=-eq-ok (replay_event c profile e p) _ h in
      replay_events-Kept es m p' vs h₂ (replay_event-Kept e p m v h₁ k)

  -- In an accepted replay of valid events, every event that is reached and permitted with local
  -- evidence is also reached and permitted with signed state alone: what local evidence stops
  -- upstream is never regained downstream.
  pub replay-Safe :
      (s : Scenario) (report : ReplayReport)
      → All IsValidEvent s.events
      → replay c s profile ≡ ok report
      → All (λ d. (local_succeeds d ≡ false) ⊎ (signed_succeeds d ≡ true)) report.decisions
  unfolding Kept Safe Within
  replay-Safe s report v h =
      let (p, run, same) = replay-inv c s profile report h in
      rw same (replay_events-Kept s.events no_progress p v run ((λ x m. m), tt)).1
