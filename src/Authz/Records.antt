-- ===== src/Authz/Records.antt =====
-- The records and the responses of the authorization service of src/kil/ext_authz_http.py.
use kil.Prelude.{
  ℕ, List, [], ◌∷◌, ◌++◌, map, Option, none, some, is_empty, ℤ, pos, String, codes, Result, ok,
  raise, os_error, require, if◌then◌else◌, ◌>>◌,
}
use kil.Domain.{is_permit, DecisionRecord}
use kil.Http.{HttpRequest, HttpResponse, check_http_response}
use kil.Canonical.{Value, enum_text, members_of, texts_value, optional_text}
use kil.LiveAuthz.{LiveTrack, track_value, LiveDecision, Platform, outcome_value, reason_value}
use kil.QState.{Bytes}
use kil.Authz.Fixtures.{check_header_groups, untrusted_names, safe_request_id}
use kil.Authz.Decision.{Surroundings, AuthorizationHttpApp}

pub record AuthorizationHttpRecord : Type 0 where
  pub schema_version : String
  pub request_id : Option String
  pub track : LiveTrack
  pub method : String
  pub path : String
  pub outcome : String
  pub http_status : ℕ
  pub decision_digest : Option String
  pub adapter_reasons : List String
  pub engine_reasons : List String
  pub untrusted_header_names : List String
  pub monotonic_ns : ℤ

abbrev pub authz_record_schema_version : String
authz_record_schema_version = "kil.v3b-authz-record.v1"

-- `AuthorizationHttpRecord`, as a dataclass is serialized.
unfoldable pub record_value : AuthorizationHttpRecord → Value
unfolding members_of texts_value optional_text track_value
record_value r = Value.dataclass (
    members_of (
      ("schema_version", Value.text r.schema_version)
      ∷ ("request_id", optional_text r.request_id)
      ∷ ("track", enum_text (track_value r.track))
      ∷ ("method", Value.text r.method)
      ∷ ("path", Value.text r.path)
      ∷ ("outcome", Value.text r.outcome)
      ∷ ("http_status", Value.integer (pos r.http_status))
      ∷ ("decision_digest", optional_text r.decision_digest)
      ∷ ("adapter_reasons", texts_value r.adapter_reasons)
      ∷ ("engine_reasons", texts_value r.engine_reasons)
      ∷ ("untrusted_header_names", texts_value r.untrusted_header_names)
      ∷ ("monotonic_ns", Value.integer r.monotonic_ns)
      ∷ []))

engine_reasons_of : Option DecisionRecord → List String
unfolding reason_value
engine_reasons_of none = []
engine_reasons_of (some d) = map reason_value d.reasons

-- `grouped` when an error is recorded: nothing where the headers were not reached or were refused.
unfoldable pub grouped_headers : HttpRequest → List (String × String)
grouped_headers request =
    elim (require (is_empty request.body) >> check_header_groups request.headers) [
      | ok done ↦ request.headers
      | raise e ↦ []
    ]

abbrev pub unavailable_body : Bytes
unavailable_body = codes "unavailable\n"

-- The health check looks at nothing but the body and the headers, and is not recorded.
unfoldable pub health_response : HttpRequest → HttpResponse
health_response request =
    elim (require (is_empty request.body) >> check_header_groups request.headers) [
      | ok done ↦ record { status = 200; headers = []; body = codes "ok\n" }
      | raise e ↦ record { status = 503; headers = []; body = unavailable_body }
    ]

-- `status_code`
unfoldable pub status_of : LiveDecision → ℕ
status_of d = if is_permit d.outcome then 200 else 403

unfoldable pub decision_record : Surroundings → HttpRequest → LiveDecision → AuthorizationHttpRecord
unfolding outcome_value engine_reasons_of status_of
decision_record s request d = record {
  schema_version = authz_record_schema_version;
  request_id = safe_request_id request.headers;
  track = d.track;
  method = request.method;
  path = request.path;
  outcome = outcome_value d.outcome;
  http_status = status_of d;
  decision_digest = some d.decision_digest;
  adapter_reasons = d.adapter_reasons;
  engine_reasons = engine_reasons_of d.engine_record;
  untrusted_header_names = untrusted_names request.headers;
  monotonic_ns = s.record_ns;
}

-- `HttpResponse(...)`
unfoldable pub respond : HttpResponse → Result HttpResponse
respond response = check_http_response response >> ok response

unfoldable pub digest_headers : Option String → List (String × String)
digest_headers none = []
digest_headers (some digest) = ("x-kil-decision-digest", digest) ∷ []

unfoldable pub respond_error : Option String → Result HttpResponse
unfolding respond digest_headers
respond_error digest =
    respond (record { status = 503; headers = digest_headers digest; body = unavailable_body })

-- What a call gives, and the app's records in memory after it.
abbrev pub Outcome : Type 0
Outcome = Result HttpResponse × List AuthorizationHttpRecord

-- `_commit_error_best_effort`, and the response: an OSError of the recorder is dropped, any other
-- exception leaves the handler.
unfoldable pub end_error :
    AuthorizationHttpRecord
    → Option String
    → List AuthorizationHttpRecord
    → Result (Unit {0})
    → Outcome
unfolding respond_error
end_error r digest records (ok done) = (respond_error digest, records ++ r ∷ [])
end_error r digest records (raise os_error) = (respond_error digest, records ++ r ∷ [])
end_error r digest records (raise e) = (raise e, records)

unfoldable pub decision_response : LiveDecision → HttpResponse
unfolding status_of digest_headers
decision_response d = record {
  status = status_of d;
  headers = digest_headers (some d.decision_digest);
  body = if is_permit d.outcome then [] else codes "denied\n";
}

unfoldable pub error_record :
    (p : Platform)
    → AuthorizationHttpApp p
    → Surroundings
    → HttpRequest
    → Option String
    → AuthorizationHttpRecord
unfolding grouped_headers
error_record p app s request digest = record {
  schema_version = authz_record_schema_version;
  request_id = safe_request_id (grouped_headers request);
  track = app.adapter.track;
  method = request.method;
  path = request.path;
  outcome = "error";
  http_status = 503;
  decision_digest = digest;
  adapter_reasons = [];
  engine_reasons = [];
  untrusted_header_names = untrusted_names (grouped_headers request);
  monotonic_ns = s.error_ns;
}
