-- ===== src/Authz/Answering.antt =====
-- How the answers of the authorization service (src/kil/ext_authz_http.py) go with its records.
use kil.Prelude.{
  ◌≡◌, ◌⊎◌, Exception, ℕ, true, List, [], ◌∷◌, ◌++◌, Option, Result, ok, raise, String,
}
use kil.Canonical.{canonical_json}
use kil.Domain.{DecisionOutcome}
use kil.Http.{HttpRequest, HttpResponse, is_one_line}
use kil.LiveAuthz.{LiveDecision, Platform}
use kil.Authz.Decision.{AuthorizationHttpApp, Surroundings}
use kil.Authz.Records.{
  AuthorizationHttpRecord, Outcome, record_value, error_record, decision_record,
}
use kil.Authz.App.{append_record}

-- A call answers, and leaves one more record in memory, which has the status of the answer. An answer of
-- 200 comes only with a permit, once the permit's record is appended.
pub record Recorded (p : Platform) (app : AuthorizationHttpApp p) (s : Surroundings)
    (request : HttpRequest) (decided : Result LiveDecision) (records : List AuthorizationHttpRecord)
    (x : Outcome) : Type 0 where
  pub response : HttpResponse
  pub entry : AuthorizationHttpRecord
  pub answered : x.0 ≡ ok response
  pub added : x.1 ≡ records ++ entry ∷ []
  pub agrees : response.status ≡ entry.http_status
  pub allowed :
      response.status ≡ 200
      → (d : LiveDecision) × (decided ≡ ok d)
        × (d.outcome ≡ DecisionOutcome.permit)
        × (entry ≡ decision_record s request d)
        × (append_record p app s.record_file entry ≡ ok tt)

-- A call raises what the canonical text of its error record raises, and leaves no record in memory.
pub record Unprinted (p : Platform) (app : AuthorizationHttpApp p) (s : Surroundings)
    (request : HttpRequest) (records : List AuthorizationHttpRecord) (x : Outcome) : Type 0 where
  pub digest : Option String
  pub exception : Exception
  pub recorder : app.has_recorder ≡ true
  pub unprinted :
      canonical_json (record_value (error_record p app s request digest)) ≡ raise exception
  pub left : x ≡ (raise exception, records)

module _ (p : Platform) (plain : (text : List ℕ) → is_one_line (p.sha256_hex text) ≡ true) where
  module _ (app : AuthorizationHttpApp p) (s : Surroundings) (request : HttpRequest) where
    abbrev pub Ends : Result LiveDecision → List AuthorizationHttpRecord → Outcome → Type 0
    Ends decided records x =
        Recorded p app s request decided records x ⊎ Unprinted p app s request records x
