-- ===== src/Gateway/Defs.antt =====
-- `TargetMarker` and `ReferenceGateway` (src/kil/reference_gateway.py). The marker's list of records
-- is the state; a call returns the new state beside its result.
use kil.Prelude.{
  ℕ, Bool, not, ◌&&◌, ◌||◌, List, [], ◌∷◌, ◌++◌, keep, length, ◌==◌, String, str_eq, Result, ok,
  raise, if◌then◌else◌,
}
use kil.Domain.{is_permit}
use kil.LiveAuthz.{
  LiveTrack, same_track, LiveFixture, LiveDecision, Platform, AuthorizationAdapter, evaluate,
}

pub record TargetRecord : Type 0 where
  pub request_id : String
  pub track : LiveTrack
  pub action_class : String

-- `TargetMarker._records`
abbrev pub Marker : Type 0
Marker = List TargetRecord

unfoldable pub marker_record : LiveFixture → LiveTrack → TargetRecord
marker_record x track = record {
  request_id = x.request.request_id;
  track = track;
  action_class = x.action_class;
}

-- `TargetMarker.invoke`
unfoldable pub invoke : LiveFixture → LiveTrack → Marker → Marker
unfolding marker_record
invoke x track records = records ++ marker_record x track ∷ []

-- A record of the same request on the same track.
unfoldable pub is_match : String → LiveTrack → TargetRecord → Bool
is_match request_id track r = str_eq r.request_id request_id && same_track r.track track

pub record GatewayResult : Type 0 where
  pub decision : LiveDecision
  pub forwarded : Bool
  pub marker_count : ℕ
  pub proof_valid : Bool
  pub target_records : List TargetRecord

unfoldable pub is_proof_valid : Bool → Bool → ℕ → Bool
is_proof_valid permitted forwarded marker_count =
    (permitted && forwarded && (marker_count == 1))
    || (not permitted && not forwarded && (marker_count == 0))

-- The target after the decision: a permit forwards the request, anything else withholds it.
unfoldable pub forward : LiveFixture → LiveDecision → Marker → Marker
unfolding invoke
forward x d records = if is_permit d.outcome then invoke x d.track records else records

-- The result of `handle`, once the decision is known.
unfoldable pub gate : LiveFixture → LiveDecision → Marker → GatewayResult × Marker
unfolding forward is_match is_proof_valid
gate x d records =
    let after = forward x d records in
    let matching = keep (is_match x.request.request_id d.track) after in
    let permitted = is_permit d.outcome in
    (
      record {
        decision = d;
        forwarded = permitted;
        marker_count = length matching;
        proof_valid = is_proof_valid permitted permitted (length matching);
        target_records = matching;
      },
      after,
    )

-- `ReferenceGateway.handle`: an exception of `evaluate` leaves the target as it was.
unfoldable pub handle :
    (p : Platform) → AuthorizationAdapter p → LiveFixture → Marker → Result GatewayResult × Marker
unfolding gate
handle p a x records = elim (evaluate p a x) [
  | ok d ↦ (ok (gate x d records).0, (gate x d records).1)
  | raise e ↦ (raise e, records)
]

-- A sequence of requests through one gateway; a request that raises is answered by its caller.
unfoldable pub handle_all :
    (p : Platform) → AuthorizationAdapter p → List LiveFixture → Marker → Marker
unfolding handle
handle_all p a [] records = records
handle_all p a (x ∷ xs) records = handle_all p a xs (handle p a x records).1
