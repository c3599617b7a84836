-- ===== src/Replay/Totality.antt =====
-- How a replay (src/kil/replay.py) of a well-formed scenario ends.
use kil.Prelude.{
  contains_text, ◌≡◌, refl, sym, ap, All, List, [], ◌∷◌, some, none, true, false, is_empty, String,
  is_nonblank, ok,
}
use mathlib.Core.Path.{subst}
use kil.Decimal.{Context, ContextLaws}
use kil.Domain.{ReductionProfile, DecisionRecord, EnforcementMode, FailureDisposition}
use kil.Domain.Validity.{IsValidProfile}
use kil.Engine.{record_of}
use kil.Engine.Reasons.{decide-inv}
use kil.Engine.Escalation.{decide-total}
use kil.Replay.Defs.{
  ScenarioEvent, Scenario, PairedDecision, ReplayReport, Progress, no_progress,
  validate_event_evidence, check_event, paired_decision, check_paired_decision, check_replay_report,
  advance, all_in, decide_signed, decide_local, replay_event, replay_events, replay_report, replay,
}
use kil.Replay.Order.{decision_ids, event_ids, replay_events-ids}
use kil.Replay.Conservative.{IsValidEvent}

-- An event's labels are right, its identifier is new and names the request, and its dependencies are
-- among the events before it.
pub record IsPlaced (seen : List String) (e : ScenarioEvent) : Type 0 where
  pub labelled : validate_event_evidence e ≡ ok tt
  pub named : is_nonblank e.event_id ≡ true
  pub fresh : contains_text e.event_id seen ≡ false
  pub ordered : all_in seen e.depends_on ≡ true

abbrev pub ArePlaced : List String → List ScenarioEvent → Type 0
ArePlaced seen [] = Unit
ArePlaced seen (e ∷ es) = IsPlaced seen e × ArePlaced (e.event_id ∷ seen) es

decide-mode :
    (c : Context) (e : ScenarioEvent) (profile : ReductionProfile) (d d' : DecisionRecord)
    → decide_signed c e ≡ ok d
    → decide_local c profile e ≡ ok d'
    → (d.mode ≡ EnforcementMode.signed_state_only)
      × (d'.mode ≡ EnforcementMode.signed_plus_local_reduce)
unfolding decide_signed decide_local record_of
decide-mode c e profile d d' h h' =
    let (_, _, same, _) =
      decide-inv c e.request e.state_assumption.value EnforcementMode.signed_state_only none none
        FailureDisposition.closed d h in
    let (_, _, same', _) =
      decide-inv c e.request e.state_assumption.value EnforcementMode.signed_plus_local_reduce
        (some e.local_evidence_assumption.value) (some profile) FailureDisposition.closed d' h' in
    (
      sym (ap (λ (x : DecisionRecord). x.mode) same),
      sym (ap (λ (x : DecisionRecord). x.mode) same'),
    )

check_event-placed :
    (e : ScenarioEvent) (p : Progress) → IsPlaced p.seen e → check_event e p ≡ ok tt
unfolding check_event
check_event-placed e p v = rw (v.labelled, v.fresh, v.ordered) refl

check_paired_decision-ok :
    (e : ScenarioEvent) (p : Progress) (d d' : DecisionRecord)
    → is_nonblank e.event_id ≡ true
    → d.mode ≡ EnforcementMode.signed_state_only
    → d'.mode ≡ EnforcementMode.signed_plus_local_reduce
    → check_paired_decision (paired_decision e p d d') ≡ ok tt
unfolding check_paired_decision paired_decision
check_paired_decision-ok e p d d' n h h' = rw (n, h, h') refl

decided :
    (es : List ScenarioEvent) (ds : List PairedDecision)
    → is_empty es ≡ false
    → decision_ids ds ≡ event_ids es
    → is_empty ds ≡ false
unfolding decision_ids event_ids
decided [] ds h same = cc h
decided (e ∷ es) [] h same = cc same
decided (e ∷ es) (d ∷ ds) h same = refl

check_replay_report-ok :
    (s : Scenario) (p : Progress)
    → is_nonblank s.scenario_id ≡ true
    → is_empty p.decisions ≡ false
    → check_replay_report (replay_report s p) ≡ ok tt
unfolding check_replay_report replay_report
check_replay_report-ok s p n d = rw (n, d) refl

module _ (c : Context) (laws : ContextLaws c) (profile : ReductionProfile)
    (vp : IsValidProfile profile) where
  replay_event-total :
      (e : ScenarioEvent) (p : Progress)
      → IsValidEvent e
      → IsPlaced p.seen e
      → (p' : Progress) × (replay_event c profile e p ≡ ok p') × (p'.seen ≡ e.event_id ∷ p.seen)
  unfolding replay_event decide_signed decide_local advance paired_decision
  replay_event-total e p v placed =
      let (d, hs, _, _, _, _) =
        decide-total c laws e.request e.state_assumption.value EnforcementMode.signed_state_only
          none none FailureDisposition.closed v.valid_request v.valid_state tt tt in
      let (d', hl, _, _, _, _) =
        decide-total c laws e.request e.state_assumption.value
          EnforcementMode.signed_plus_local_reduce (some e.local_evidence_assumption.value)
          (some profile) FailureDisposition.closed v.valid_request v.valid_state v.valid_evidence
          vp in
      let (ms, ml) = decide-mode c e profile d d' hs hl in
      (
        advance (paired_decision e p d d') p,
        rw
            (
              check_event-placed e p placed,
              hs,
              hl,
              check_paired_decision-ok e p d d' placed.named ms ml,
            )
            refl,
        refl,
      )

  replay_events-total :
      (es : List ScenarioEvent) (p : Progress)
      → All IsValidEvent es
      → ArePlaced p.seen es
      → (p' : Progress) × (replay_events c profile es p ≡ ok p')
  unfolding replay_events
  replay_events-total [] p v placed = (p, refl)
  replay_events-total (e ∷ es) p (v, vs) (here, later) =
      let (m, h, same) = replay_event-total e p v here in
      let (p', h') =
        replay_events-total es m vs (subst (λ seen. ArePlaced seen es) (sym same) later) in
      (p', rw h h')

  -- A scenario with an identifier and with events, whose assumptions are valid, whose labels are
  -- right, and whose events have new identifiers and depend on earlier ones only, is always
  -- replayed to a report: no signal of the arithmetic ends the replay.
  pub replay-total :
      (s : Scenario)
      → is_nonblank s.scenario_id ≡ true
      → is_empty s.events ≡ false
      → All IsValidEvent s.events
      → ArePlaced [] s.events
      → (report : ReplayReport) × (replay c s profile ≡ ok report)
  unfolding replay event_ids decision_ids
  replay-total s n some_events v placed =
      let (p, run) = replay_events-total s.events no_progress v placed in
      let ids = replay_events-ids c profile s.events no_progress p run in
      (
        replay_report s p,
        rw
            (
              some_events,
              run,
              check_replay_report-ok s p n (decided s.events p.decisions some_events ids),
            )
            refl,
      )
