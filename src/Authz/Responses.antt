-- ===== src/Authz/Responses.antt =====
-- The responses of the authorization service (src/kil/ext_authz_http.py) are valid where the digest is of
-- one line.
use kil.Prelude.{
  ◌≡◌, refl, ◌⊎◌, Exception, os_error, ℕ, inl, inr, Bool, true, false, List, [], ◌∷◌, ◌++◌, Option,
  none, some, Result, ok, raise, String, arith, if◌then◌else◌, between,
}
use kil.Domain.{DecisionOutcome, is_permit}
use kil.Files.{OnlyOsError}
use kil.Http.{HttpResponse, is_one_line, check_http_response, check_http_response-digest}
use kil.LiveAuthz.{LiveDecision}
use kil.Authz.Decision.{}
use kil.Authz.Records.{
  AuthorizationHttpRecord, decision_response, respond, respond_error, end_error, status_of,
  digest_headers, unavailable_body,
}
use kil.Authz.App.{}

respond_error-ok :
    (digest : String)
    → is_one_line digest ≡ true
    → (r : HttpResponse) × (respond_error (some digest) ≡ ok r) × (r.status ≡ 503)
unfolding respond_error respond digest_headers
respond_error-ok digest h =
    rw (check_http_response-digest 503 digest unavailable_body refl h) (_, refl, refl)

is_status : (b : Bool) → between 100 599 (if b then 200 else 403) ≡ true
is_status true = refl
is_status false = refl

pub decision_response-ok :
    (d : LiveDecision)
    → is_one_line d.decision_digest ≡ true
    → respond (decision_response d) ≡ ok (decision_response d)
unfolding decision_response respond digest_headers status_of
decision_response-ok d h =
    rw (check_http_response-digest _ d.decision_digest _ (is_status (is_permit d.outcome)) h) refl

abbrev pub IsPlain : Option String → Type 0
IsPlain none = Unit
IsPlain (some digest) = is_one_line digest ≡ true

pub status-permit :
    (o : DecisionOutcome)
    → Path ℕ (if is_permit o then 200 else 403) 200
    → o ≡ DecisionOutcome.permit
status-permit DecisionOutcome.permit h = refl
status-permit DecisionOutcome.constrain h = absurd (ground arith)
status-permit DecisionOutcome.deny h = absurd (ground arith)
status-permit DecisionOutcome.indeterminate h = absurd (ground arith)

pub respond_error-answers :
    (digest : Option String)
    → IsPlain digest
    → (r : HttpResponse) × (respond_error digest ≡ ok r) × (r.status ≡ 503)
respond_error-answers none h =
    unfold check_http_response respond_error respond digest_headers in (_, refl, refl)
respond_error-answers (some digest) h = respond_error-ok digest h

pub end_error-eq :
    (r : AuthorizationHttpRecord) (digest : Option String) (records : List AuthorizationHttpRecord)
    (w : Result (Unit {0}))
    → OnlyOsError w
    → end_error r digest records w ≡ (respond_error digest, records ++ r ∷ [])
unfolding end_error
end_error-eq r digest records w (inl e) = rw e refl
end_error-eq r digest records w (inr e) = rw e refl

pub end_error-raise :
    (r : AuthorizationHttpRecord) (digest : Option String) (records : List AuthorizationHttpRecord)
    (e : Exception)
    → (end_error r digest records (raise e) ≡ (respond_error digest, records ++ r ∷ []))
      ⊎ (end_error r digest records (raise e) ≡ (raise e, records))
unfolding end_error
end_error-raise r digest records os_error = inl refl
end_error-raise r digest records e = inr refl
