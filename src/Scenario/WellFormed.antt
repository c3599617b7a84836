-- ===== src/Scenario/WellFormed.antt =====
-- What src/kil/scenario.py checks of a scenario that it loads, and src/kil/replay.py relies on.
use kil.Prelude.{
  contains_text, is_distinct, ◌≡◌, refl, All, List, [], ◌∷◌, Bool, true, false, not, is_empty,
  String, str_eq, str_eq_refl, is_nonblank, ok, ok-inj, guard-eq-ok, checked-eq-ok, refuted, all,
  require, >>=-eq-ok,
}
use mathlib.Core.Path.{subst}
use kil.Decimal.{Context, ContextLaws}
use kil.Domain.{
  CompositeState, LocalEvidence, ReductionProfile, check_action_request, check_composite_state,
  check_local_evidence,
}
use kil.Domain.Validity.{
  IsValidState, IsValidEvidence, IsValidProfile, check_action_request_iff,
  check_composite_state_iff, check_local_evidence_iff,
}
use kil.Json.{as_text, as_array, Json, Items, Fields, no_items, item, array}
use kil.Replay.{ScenarioEvent, Scenario, ReplayReport, replay, validate_event_evidence, all_in}
use kil.Replay.Conservative.{IsValidEvent}
use kil.Replay.Totality.{IsPlaced, ArePlaced, replay-total}
use kil.Scenario.Readers.{
  string_field, dependencies, mapping, required, expect_keys, uri_field, nonblank_texts,
  decimal_field, boolean_field,
}
use kil.Scenario.Parts.{
  EventHead, event_fields, state_fields, modeled_fields, scenario_fields, load_event_id, load_head,
  load_state, load_evidence, read_state, scenario_schema_version,
}
use kil.Scenario.Load.{
  event_of, check_event_parts, load_event, load_events, load_scenario, nonempty_array,
}

string_field-nonblank :
    (fs : Fields) (key s : String) → string_field fs key ≡ ok s → is_nonblank s ≡ true
unfolding string_field
string_field-nonblank fs key s h =
    let (v, _, h₁) = >>=-eq-ok (required fs key) _ h in
    let (t, _, h₂) = >>=-eq-ok (as_text v) _ h₁ in
    let (checked, same) = checked-eq-ok (require (is_nonblank t)) t h₂ in
    subst (λ x. is_nonblank x ≡ true) same (guard-eq-ok _ _ checked)

load_event_id-fresh :
    (fs : Fields) (seen : List String) (id : String)
    → load_event_id fs seen ≡ ok id
    → (is_nonblank id ≡ true) × (contains_text id seen ≡ false)
unfolding load_event_id
load_event_id-fresh fs seen id h =
    let (s, found, h₁) = >>=-eq-ok (string_field fs "event_id") _ h in
    let (checked, same) = checked-eq-ok (require (not (contains_text s seen))) s h₁ in
    subst (λ x. (is_nonblank x ≡ true) × (contains_text x seen ≡ false)) same
      (string_field-nonblank fs "event_id" s found, refuted _ (guard-eq-ok _ _ checked))

dependencies-ordered :
    (fs : Fields) (seen parents : List String)
    → dependencies fs seen ≡ ok parents
    → all_in seen parents ≡ true
unfolding dependencies all_in
dependencies-ordered fs seen parents h =
    let (v, _, h₁) = >>=-eq-ok (required fs "depends_on") _ h in
    let (items, _, h₂) = >>=-eq-ok (as_array v) _ h₁ in
    let (ps, _, h₃) = >>=-eq-ok (nonblank_texts items) _ h₂ in
    let (_, _, h₄) = >>=-eq-ok (require (is_distinct ps)) _ h₃ in
    let (checked, same) = checked-eq-ok (require (all (λ p. contains_text p seen) ps)) ps h₄ in
    subst (λ x. all (λ p. contains_text p seen) x ≡ true) same (guard-eq-ok _ _ checked)

load_state-IsValid :
    (h : EventHead) (fs : Fields) (s : CompositeState) → load_state h fs ≡ ok s → IsValidState s
unfolding load_state
load_state-IsValid h fs s e =
    let (t, _, e₁) = >>=-eq-ok (read_state h fs) _ e in
    let (checked, same) = checked-eq-ok (check_composite_state t) t e₁ in
    subst IsValidState same ((check_composite_state_iff t).0 checked)

load_evidence-IsValid :
    (fs : Fields) (x : LocalEvidence) → load_evidence fs ≡ ok x → IsValidEvidence x
unfolding load_evidence
load_evidence-IsValid fs x e =
    let (divergence, _, e₁) = >>=-eq-ok (decimal_field fs "divergence") _ e in
    let (coupled_loss, _, e₂) = >>=-eq-ok (decimal_field fs "coupled_loss") _ e₁ in
    let (fresh, _, e₃) = >>=-eq-ok (boolean_field fs "fresh") _ e₂ in
    let read : LocalEvidence = record {
      divergence = divergence;
      coupled_loss = coupled_loss;
      fresh = fresh;
    } in
    let (checked, same) = checked-eq-ok (check_local_evidence read) read e₃ in
    subst IsValidEvidence same ((check_local_evidence_iff read).0 checked)

-- What an event that was loaded is to the events before it.
record Loaded (seen : List String) (e : ScenarioEvent) : Type 0 where
  valid : IsValidEvent e
  placed : IsPlaced seen e

event_of-Loaded :
    (source id rationale : String) (h : EventHead) (parents seen : List String) (s : CompositeState)
    (x : LocalEvidence)
    → check_event_parts (event_of source id h parents s x rationale) ≡ ok tt
    → is_nonblank id ≡ true
    → contains_text id seen ≡ false
    → all_in seen parents ≡ true
    → IsValidState s
    → IsValidEvidence x
    → Loaded seen (event_of source id h parents s x rationale)
unfolding event_of check_event_parts validate_event_evidence
event_of-Loaded source id rationale h parents seen s x checked named fresh ordered vs vx =
    let e = event_of source id h parents s x rationale in
    let (_, request_checked, _) = >>=-eq-ok (check_action_request e.request) _ checked in
    record {
      valid = record {
        valid_request = (check_action_request_iff e.request).0 request_checked;
        valid_state = vs;
        valid_evidence = vx;
      };
      placed = record {
        labelled = rw (str_eq_refl id) refl;
        named = named;
        fresh = fresh;
        ordered = ordered;
      };
    }

load_event-Loaded :
    (source : String) (seen : List String) (raw : Json) (e : ScenarioEvent)
    → load_event source seen raw ≡ ok e
    → Loaded seen e
unfolding load_event
load_event-Loaded source seen raw e h =
    let (fs, _, h₁) = >>=-eq-ok (mapping raw) _ h in
    let (_, _, h₂) = >>=-eq-ok (expect_keys fs event_fields) _ h₁ in
    let (id, found, h₃) = >>=-eq-ok (load_event_id fs seen) _ h₂ in
    let (head, _, h₄) = >>=-eq-ok (load_head fs) _ h₃ in
    let (parents, ordered, h₅) = >>=-eq-ok (dependencies fs seen) _ h₄ in
    let (state_value, _, h₆) = >>=-eq-ok (required fs "state") _ h₅ in
    let (state_raw, _, h₇) = >>=-eq-ok (mapping state_value) _ h₆ in
    let (modeled_value, _, h₈) = >>=-eq-ok (required fs "modeled_context") _ h₇ in
    let (modeled_raw, _, h₉) = >>=-eq-ok (mapping modeled_value) _ h₈ in
    let (_, _, k₁) = >>=-eq-ok (expect_keys state_raw state_fields) _ h₉ in
    let (_, _, k₂) = >>=-eq-ok (expect_keys modeled_raw modeled_fields) _ k₁ in
    let (rationale, _, k₃) = >>=-eq-ok (string_field modeled_raw "rationale") _ k₂ in
    let (state, state_loaded, k₄) = >>=-eq-ok (load_state head state_raw) _ k₃ in
    let (evidence, evidence_loaded, k₅) = >>=-eq-ok (load_evidence modeled_raw) _ k₄ in
    let built = event_of source id head parents state evidence rationale in
    let (checked, same) = checked-eq-ok (check_event_parts built) built k₅ in
    let (named, fresh) = load_event_id-fresh fs seen id found in
    subst (Loaded seen) same (
      event_of-Loaded source id rationale head parents seen state evidence checked named fresh
        (dependencies-ordered fs seen parents ordered)
        (load_state-IsValid head state_raw state state_loaded)
        (load_evidence-IsValid modeled_raw evidence evidence_loaded))

load_events-Loaded :
    (source : String) (seen : List String) (items : Items) (es : List ScenarioEvent)
    → load_events source seen items ≡ ok es
    → All IsValidEvent es × ArePlaced seen es
unfolding load_events
load_events-Loaded source seen no_items es h =
    subst (λ xs. All IsValidEvent xs × ArePlaced seen xs) (ok-inj h) (tt, tt)
load_events-Loaded source seen (item raw rest) es h =
    let (e, loaded, h₁) = >>=-eq-ok (load_event source seen raw) _ h in
    let (tail, rest_loaded, h₂) = >>=-eq-ok (load_events source (e.event_id ∷ seen) rest) _ h₁ in
    let one = load_event-Loaded source seen raw e loaded in
    let (vs, ps) = load_events-Loaded source (e.event_id ∷ seen) rest tail rest_loaded in
    subst (λ xs. All IsValidEvent xs × ArePlaced seen xs) (ok-inj h₂)
      ((one.valid, vs), (one.placed, ps))

nonempty_array-ne-no_items : (v : Json) → nonempty_array v ≡ ok no_items → ⊥
unfolding nonempty_array
nonempty_array-ne-no_items (array (item v rest)) h = cc h
nonempty_array-ne-no_items (array no_items) h = cc h
nonempty_array-ne-no_items _ h = cc h

load_events-nonempty :
    (source : String) (v : Json) (items : Items) (es : List ScenarioEvent)
    → nonempty_array v ≡ ok items
    → load_events source [] items ≡ ok es
    → is_empty es ≡ false
unfolding load_events nonempty_array
load_events-nonempty source v no_items es shape h = absurd (nonempty_array-ne-no_items v shape)
load_events-nonempty source v (item raw rest) es shape h =
    let (e, _, h₁) = >>=-eq-ok (load_event source [] raw) _ h in
    let (tail, _, h₂) = >>=-eq-ok (load_events source (e.event_id ∷ []) rest) _ h₁ in
    subst (λ xs. is_empty xs ≡ false) (ok-inj h₂) refl

-- What the loader guarantees of a scenario.
pub record IsWellFormed (s : Scenario) : Type 0 where
  pub named : is_nonblank s.scenario_id ≡ true
  pub populated : is_empty s.events ≡ false
  pub valid : All IsValidEvent s.events
  pub placed : ArePlaced [] s.events

-- A scenario that is loaded has an identifier and events; the requests, states and evidence of the
-- events are valid; their labels are right; and each has a new identifier and depends on earlier
-- events only.
pub load_scenario-IsWellFormed :
    (is_http_uri : String → Bool) (value : Json) (s : Scenario)
    → load_scenario is_http_uri value ≡ ok s
    → IsWellFormed s
unfolding load_scenario
load_scenario-IsWellFormed is_http_uri value s h =
    let (raw, _, h₁) = >>=-eq-ok (mapping value) _ h in
    let (_, _, h₂) = >>=-eq-ok (expect_keys raw scenario_fields) _ h₁ in
    let (version, _, h₃) = >>=-eq-ok (string_field raw "schema_version") _ h₂ in
    let (_, _, h₄) = >>=-eq-ok (require (str_eq version scenario_schema_version)) _ h₃ in
    let (id, id_read, h₅) = >>=-eq-ok (string_field raw "scenario_id") _ h₄ in
    let (source, _, h₆) = >>=-eq-ok (uri_field is_http_uri raw "primary_source") _ h₅ in
    let (v, _, h₇) = >>=-eq-ok (required raw "events") _ h₆ in
    let (items, shape, h₈) = >>=-eq-ok (nonempty_array v) _ h₇ in
    let (events, loaded, h₉) = >>=-eq-ok (load_events source [] items) _ h₈ in
    let (valid, placed) = load_events-Loaded source [] items events loaded in
    subst IsWellFormed (ok-inj h₉) (record {
      named = string_field-nonblank raw "scenario_id" id id_read;
      populated = load_events-nonempty source v items events shape loaded;
      valid = valid;
      placed = placed;
    })

-- Every scenario that is loaded can be replayed under every valid profile: the replay returns a report,
-- whatever signals the arithmetic raises.
pub load_scenario-replays :
    (c : Context) (laws : ContextLaws c) (profile : ReductionProfile) (vp : IsValidProfile profile)
    (is_http_uri : String → Bool) (value : Json) (s : Scenario)
    → load_scenario is_http_uri value ≡ ok s
    → (report : ReplayReport) × (replay c s profile ≡ ok report)
load_scenario-replays c laws profile vp is_http_uri value s h =
    let w = load_scenario-IsWellFormed is_http_uri value s h in
    replay-total c laws profile vp s w.named w.populated w.valid w.placed
