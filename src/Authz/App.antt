-- ===== src/Authz/App.antt =====
-- `AuthorizationHttpApp.handle` of src/kil/ext_authz_http.py: the record of a request, and the answer.
-- The lock makes one append at a time.
use kil.Prelude.{
  ◌+◌, List, [], ◌∷◌, ◌++◌, Option, none, some, utf8_length, String, Result, ok, raise,
  if◌then◌else◌, ◌>>=◌,
}
use kil.Canonical.{canonical_json}
use kil.Files.{FileAnswers, append_file}
use kil.Http.{HttpRequest, HttpResponse}
use kil.LiveAuthz.{LiveDecision, Platform}
use kil.Http.{is_health_check}
use kil.Authz.Decision.{Surroundings, AuthorizationHttpApp, decide_request}
use kil.Authz.Records.{
  AuthorizationHttpRecord, record_value, health_response, decision_record, respond, Outcome,
  end_error, decision_response, error_record,
}

module _ (p : Platform) where
  -- `JsonlDecisionRecorder.append`, where the app has a recorder.
  unfoldable pub append_record :
      AuthorizationHttpApp p → FileAnswers → AuthorizationHttpRecord → Result (Unit {0})
  unfolding append_file canonical_json record_value utf8_length
  append_record app a r =
      let written =
        canonical_json (record_value r) >>= λ text. append_file (utf8_length text + 1) a in
      if app.has_recorder then written else ok tt

  -- `_error_response`
  unfoldable pub error_response :
      AuthorizationHttpApp p
      → Surroundings
      → HttpRequest
      → Option String
      → List AuthorizationHttpRecord
      → Outcome
  unfolding error_record append_record end_error
  error_response app s request digest records =
      let r = error_record p app s request digest in
      end_error r digest records (append_record app s.error_file r)

  unfoldable pub end_response :
      AuthorizationHttpApp p
      → Surroundings
      → HttpRequest
      → LiveDecision
      → List AuthorizationHttpRecord
      → Result HttpResponse
      → Outcome
  unfolding error_response
  end_response app s request d records (ok response) = (ok response, records)
  end_response app s request d records (raise e) =
      error_response app s request (some d.decision_digest) records

  -- The end of the `try` block: the record is committed before the answer is made.
  unfoldable pub end_decision :
      AuthorizationHttpApp p
      → Surroundings
      → HttpRequest
      → LiveDecision
      → List AuthorizationHttpRecord
      → Result (Unit {0})
      → Outcome
  unfolding error_response decision_record respond decision_response end_response
  end_decision app s request d records (ok done) =
      end_response app s request d (records ++ decision_record s request d ∷ [])
        (respond (decision_response d))
  end_decision app s request d records (raise e) =
      error_response app s request (some d.decision_digest) records

  unfoldable pub answer_decision :
      AuthorizationHttpApp p
      → Surroundings
      → HttpRequest
      → List AuthorizationHttpRecord
      → Result LiveDecision
      → Outcome
  unfolding append_record decision_record end_decision error_response
  answer_decision app s request records (ok d) =
      end_decision app s request d records
        (append_record app s.record_file (decision_record s request d))
  answer_decision app s request records (raise e) = error_response app s request none records

  -- `handle`
  unfoldable pub handle_authz :
      (String → String)
      → AuthorizationHttpApp p
      → Surroundings
      → HttpRequest
      → List AuthorizationHttpRecord
      → Outcome
  unfolding health_response answer_decision decide_request
  handle_authz sha256_hex app s request records =
      if is_health_check request
      then (ok (health_response request), records)
      else answer_decision app s request records (decide_request p sha256_hex app s request)
