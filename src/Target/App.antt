-- ===== src/Target/App.antt =====
-- `TargetHttpApp.handle` of src/kil/target_http.py: the checks on a request, and the answer.
use kil.Prelude.{
  ℕ, Bool, not, ◌&&◌, ◌||◌, List, [], ◌∷◌, Option, none, some, is_empty, String, str_eq,
  is_identifier, is_digest, Result, ok, raise, duplicate_target_record, if◌then◌else◌,
}
use kil.Http.{HttpRequest, header_values, is_bodiless, is_health_check}
use kil.LiveAuthz.{LiveTrack, track_value}
use kil.Target.Store.{LedgerRecord, Answers, Ledger, Marking, append_marker}

-- The fixed configuration of an app.
pub record TargetHttpApp : Type 0 where
  pub run_id : String
  pub track : LiveTrack

-- The one value of a header that must stand exactly once.
single : List String → Option String
single (v ∷ []) = some v
single _ = none

-- `_join_values`: the request identifier and the digest of the decision.
unfoldable pub join_values : TargetHttpApp → HttpRequest → Option (String × String)
unfolding header_values single is_bodiless track_value
join_values app request = elim (single (header_values "x-request-id" request.headers)) [
  | none ↦ none
  | some request_id ↦ elim (single (header_values "x-kil-track" request.headers)) [
    | none ↦ none
    | some track ↦ elim (single (header_values "x-kil-decision-digest" request.headers)) [
      | none ↦ none
      | some digest ↦
          if is_bodiless request.headers
            && is_identifier request_id
            && str_eq track (track_value app.track)
            && is_digest digest
          then some (request_id, digest)
          else none
    ]
  ]
]

unfoldable pub is_route : HttpRequest → Bool
is_route request =
    (str_eq request.method "GET" && str_eq request.path "/benign/read")
    || (str_eq request.method "POST" && str_eq request.path "/consequential/admin")

-- The responses that the app gives, by the body that each has.
pub data HttpResponse : Type 0 where
  healthy recorded_ok bad_request not_found conflict unavailable : HttpResponse

-- The status code of a response.
unfoldable pub status : HttpResponse → ℕ
status healthy = 200
status recorded_ok = 200
status bad_request = 400
status not_found = 404
status conflict = 409
status unavailable = 503

-- The answer to an append.
unfoldable pub response_of : Result LedgerRecord → HttpResponse
response_of (ok r) = recorded_ok
response_of (raise duplicate_target_record) = conflict
response_of (raise e) = unavailable

unfoldable pub marking_of : TargetHttpApp → HttpRequest → String × String → Marking
marking_of app request join = record {
  run_id = app.run_id;
  request_id = join.0;
  track = app.track;
  path = request.path;
  decision_digest = join.1;
}

-- The answer to a request for a marker, once its join is read.
unfoldable pub mark :
    TargetHttpApp
    → HttpRequest
    → Answers
    → Ledger
    → Option (String × String)
    → HttpResponse × Ledger
unfolding append_marker response_of marking_of
mark app request a l none = (bad_request, l)
mark app request a l (some join) =
    let appended = append_marker (marking_of app request join) a l in
    (response_of appended.0, appended.1)

-- `handle`
unfoldable pub handle_http : TargetHttpApp → HttpRequest → Answers → Ledger → HttpResponse × Ledger
unfolding is_health_check is_bodiless is_route join_values mark
handle_http app request a l =
    if is_health_check request
    then (
      if not (is_empty request.body) || not (is_bodiless request.headers)
          then bad_request
          else healthy,
      l,
    )
    else if not (is_route request)
    then (not_found, l)
    else if not (is_empty request.body)
    then (bad_request, l)
    else mark app request a l (join_values app request)

-- The requests that one target process answers, in turn, with the system's answers to each.
unfoldable pub run_http : TargetHttpApp → List (HttpRequest × Answers) → Ledger → Ledger
unfolding handle_http
run_http app [] l = l
run_http app ((request, a) ∷ rest) l = run_http app rest (handle_http app request a l).1
