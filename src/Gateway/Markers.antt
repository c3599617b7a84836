-- ===== src/Gateway/Markers.antt =====
-- The markers that a run of requests leaves at the target (src/kil/reference_gateway.py).
use kil.Prelude.{
  ℕ, ◌≡◌, refl, ◌↔◌, true, List, [], ◌∷◌, ◌++◌, keep, keep-append, length, length-append, ◌+◌,
  arith, str_eq_refl, Result, ok, raise, if◌then◌else◌,
}
use mathlib.Core.List.{append_assoc, append-nil}
use kil.Domain.{is_permit}
use kil.LiveAuthz.{
  LiveTrack, same_track, LiveFixture, LiveDecision, Platform, AuthorizationAdapter, evaluate,
}
use kil.Gateway.Defs.{
  TargetRecord, Marker, marker_record, invoke, is_match, forward, gate, handle, handle_all,
}

same_track_refl : (t : LiveTrack) → same_track t t ≡ true
same_track_refl LiveTrack.credential_policy_baseline = refl
same_track_refl LiveTrack.signed_state_only = refl
same_track_refl LiveTrack.signed_plus_local_reduce = refl

-- The number of markers of a request on a track.
abbrev pub markers : LiveFixture → LiveDecision → Marker → ℕ
markers x d records = length (keep (is_match x.request.request_id d.track) records)

own_marker :
    (x : LiveFixture) (t : LiveTrack) → is_match x.request.request_id t (marker_record x t) ≡ true
unfolding is_match marker_record
own_marker x t = rw (str_eq_refl x.request.request_id, same_track_refl t)

markers-invoke :
    (x : LiveFixture) (d : LiveDecision) (records : Marker)
    → markers x d (invoke x d.track records) ≡ markers x d records + 1
unfolding invoke
markers-invoke x d records =
    rw (keep-append (is_match x.request.request_id d.track) records (marker_record x d.track ∷ []))
      (rw (length-append, own_marker x d.track) refl)

-- The proof of a call is valid exactly when the request had left no marker before: the decision and
-- the marker then agree, and a permit that is repeated does not pass for a single one.
pub gate-proof_iff :
    (x : LiveFixture) (d : LiveDecision) (records : Marker)
    → ((gate x d records).0.proof_valid ≡ true) ↔ (markers x d records ≡ 0)
unfolding gate forward
gate-proof_iff x d records = ground (arith, markers-invoke x d records)

-- The markers that a run should leave: those of the permitted requests, in order.
mark_of : LiveFixture → Result LiveDecision → List TargetRecord
mark_of x (ok d) = if is_permit d.outcome then marker_record x d.track ∷ [] else []
mark_of x (raise e) = []

pub expected_markers :
    (p : Platform) → AuthorizationAdapter p → List LiveFixture → List TargetRecord
expected_markers p a [] = []
expected_markers p a (x ∷ xs) = mark_of x (evaluate p a x) ++ expected_markers p a xs

module _ (p : Platform) (a : AuthorizationAdapter p) where
  handled : LiveFixture → Result LiveDecision → Marker → Marker
  handled x r records = records ++ mark_of x r

  handle-marks :
      (x : LiveFixture) (records : Marker)
      → (handle p a x records).1 ≡ handled x (evaluate p a x) records
  unfolding handle handled mark_of gate forward invoke
  handle-marks x records = ground (arith, append-nil records)

  -- A run of requests appends to the target exactly the markers of the permitted ones, in order: no
  -- other request reaches it, and none that is permitted is lost.
  pub handle_all-marks :
      (xs : List LiveFixture) (records : Marker)
      → handle_all p a xs records ≡ records ++ expected_markers p a xs
  unfolding handle_all expected_markers handled
  handle_all-marks [] records = rw append-nil
  handle_all-marks (x ∷ xs) records =
      rw (handle-marks x records, handle_all-marks xs (records ++ mark_of x (evaluate p a x)))
        (append_assoc records _ _)
