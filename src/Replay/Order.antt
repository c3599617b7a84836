-- ===== src/Replay/Order.antt =====
-- The order of the decisions of a replay (src/kil/replay.py).
use kil.Prelude.{
  ok-inj, ◌≡◌, refl, sym, ap, ◌∙◌, List, [], ◌∷◌, ◌++◌, map, String, Result, ok, >>=-eq-ok, require,
  not, is_empty,
}
use mathlib.Core.Path.{subst}
use mathlib.Core.List.{append_assoc, append-nil}
use kil.Decimal.{Context}
use kil.Domain.{ReductionProfile, DecisionRecord}
use kil.Replay.Defs.{
  ScenarioEvent, Scenario, PairedDecision, ReplayReport, Progress, no_progress, paired_decision,
  check_paired_decision, advance, decide_signed, decide_local, check_event, replay_event,
  replay_events, replay_report, replay, check_replay_report,
}

-- What a round of the loop does: the two decisions that it records, and the state after it.
pub record Round (c : Context) (profile : ReductionProfile) (e : ScenarioEvent) (p p' : Progress)
    : Type 0 where
  pub signed : DecisionRecord
  pub reduced : DecisionRecord
  pub decided_signed : decide_signed c e ≡ ok signed
  pub decided_local : decide_local c profile e ≡ ok reduced
  pub advanced : advance (paired_decision e p signed reduced) p ≡ p'

pub replay_event-Round :
    (c : Context) (profile : ReductionProfile) (e : ScenarioEvent) (p p' : Progress)
    → replay_event c profile e p ≡ ok p'
    → Round c profile e p p'
unfolding replay_event
replay_event-Round c profile e p p' h =
    let (_, _, h₁) = >>=-eq-ok (check_event e p) _ h in
    let (signed, hs, h₂) = >>=-eq-ok (decide_signed c e) _ h₁ in
    let (reduced, hl, h₃) = >>=-eq-ok (decide_local c profile e) _ h₂ in
    let (_, _, h₄) = >>=-eq-ok (check_paired_decision (paired_decision e p signed reduced)) _ h₃ in
    record {
      signed = signed;
      reduced = reduced;
      decided_signed = hs;
      decided_local = hl;
      advanced = ok-inj h₄;
    }

-- The identifiers of the decisions, and of the events.
unfoldable pub decision_ids : List PairedDecision → List String
decision_ids ds = map (λ (d : PairedDecision). d.event_id) ds

unfoldable pub event_ids : List ScenarioEvent → List String
event_ids es = map (λ (e : ScenarioEvent). e.event_id) es

decision_ids-append :
    (ds : List PairedDecision) (d : PairedDecision)
    → decision_ids (ds ++ d ∷ []) ≡ decision_ids ds ++ d.event_id ∷ []
unfolding decision_ids
decision_ids-append [] d = refl
decision_ids-append (x ∷ ds) d = ap (λ ys. x.event_id ∷ ys) (decision_ids-append ds d)

replay_event-ids :
    (c : Context) (profile : ReductionProfile) (e : ScenarioEvent) (p p' : Progress)
    → replay_event c profile e p ≡ ok p'
    → decision_ids p'.decisions ≡ decision_ids p.decisions ++ e.event_id ∷ []
unfolding advance paired_decision
replay_event-ids c profile e p p' h =
    let r = replay_event-Round c profile e p p' h in
    subst (λ (q : Progress). decision_ids q.decisions ≡ decision_ids p.decisions ++ e.event_id ∷ [])
      r.advanced (decision_ids-append p.decisions _)

pub replay_events-ids :
    (c : Context) (profile : ReductionProfile) (es : List ScenarioEvent) (p p' : Progress)
    → replay_events c profile es p ≡ ok p'
    → decision_ids p'.decisions ≡ decision_ids p.decisions ++ event_ids es
unfolding replay_events event_ids
replay_events-ids c profile [] p p' h =
    subst (λ (q : Progress). decision_ids q.decisions ≡ decision_ids p.decisions ++ []) (ok-inj h)
      (sym (append-nil _))
replay_events-ids c profile (e ∷ es) p p' h =
    let (m, h₁, h₂) = >>=-eq-ok (replay_event c profile e p) _ h in
    replay_events-ids c profile es m p' h₂
    ∙ (ap (λ ids. ids ++ event_ids es) (replay_event-ids c profile e p m h₁)
        ∙ append_assoc (decision_ids p.decisions) _ _)

same_decisions :
    (r r' : ReplayReport) → Path (Result ReplayReport) (ok r) (ok r') → r'.decisions ≡ r.decisions
same_decisions r r' e = cc e

pub replay-inv :
    (c : Context) (s : Scenario) (profile : ReductionProfile) (report : ReplayReport)
    → replay c s profile ≡ ok report
    → (p : Progress) × (replay_events c profile s.events no_progress ≡ ok p)
      × (report.decisions ≡ p.decisions)
unfolding replay replay_report
replay-inv c s profile report h =
    let (_, _, h₁) = >>=-eq-ok (require (not (is_empty s.events))) _ h in
    let (p, run, h₂) = >>=-eq-ok (replay_events c profile s.events no_progress) _ h₁ in
    let (_, _, h₃) = >>=-eq-ok (check_replay_report (replay_report s p)) _ h₂ in
    (p, run, same_decisions _ _ h₃)

-- An accepted replay reports one decision for each event of the scenario, in the same order.
pub replay-ids :
    (c : Context) (s : Scenario) (profile : ReductionProfile) (report : ReplayReport)
    → replay c s profile ≡ ok report
    → decision_ids report.decisions ≡ event_ids s.events
unfolding decision_ids
replay-ids c s profile report h =
    let (p, run, same) = replay-inv c s profile report h in
    ap decision_ids same ∙ replay_events-ids c profile s.events no_progress p run
