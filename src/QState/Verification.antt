-- ===== src/QState/Verification.antt =====
-- What `verify_q_state` (src/kil/q_state.py) establishes of an accepted token.
use kil.Prelude.{
  contains_text, [], ◌&&◌, both, ok-inj, Bool-cases, inl, inr, ◌≡◌, refl, sym, ap, ◌↔◌, ◌++◌, List,
  ◌∷◌, Option, none, some, Bool, true, false, not, arith, ◌≤ℤ◌, String, str_eq, str_eq_iff, Result,
  ok, raise, >>=-eq-ok, codes,
}
use mathlib.Core.Path.{subst}
use kil.Domain.{CompositeState, check_composite_state}
use kil.Domain.Validity.{IsValidState, check_composite_state_iff}
use kil.QState.Claims.{QStateClaims, composite_state_of, to_composite_state}
use kil.QState.Payload.{from_payload, Value, text, integer, boolean, Object, get, has_exactly}
use kil.QState.Carried.{CarriedBy, from_payload-CarriedBy}
use kil.QState.Token.{
  Bytes, TokenLibrary, demand, demanded, Parts, compact_parts, split_dots, Expectation,
  check_bindings, VerifiedQState, get_key, verified_claims, verify_q_state, b64decode,
  header_key_id, accepted_claims, Loaded, undecodable, not_object, failed, loaded_object,
  json_object, is_text, nonempty_text, check_expectation,
}

-- The claims are not revoked, their window holds the time, and they are bound to what is expected.
pub record Bound (x : Expectation) (q : QStateClaims) : Type 0 where
  pub unrevoked : contains_text q.state_id x.revoked_state_ids ≡ false
  pub begun : q.not_before_s ≤ℤ x.now_s
  pub running : ¬ (q.expires_at_s ≤ℤ x.now_s)
  pub same_subject : q.subject ≡ x.subject
  pub same_audience : q.audience ≡ x.audience
  pub same_authority_class : q.authority_class ≡ x.authority_class
  pub same_action_class : q.action_class ≡ x.action_class

-- The binding checks accept exactly the bound claims.
pub check_bindings_iff :
    (x : Expectation) (q : QStateClaims) → (check_bindings x q ≡ ok tt) ↔ Bound x q
unfolding check_bindings
check_bindings_iff x q = ground (
  arith,
  str_eq_iff q.subject x.subject,
  str_eq_iff q.audience x.audience,
  str_eq_iff q.authority_class x.authority_class,
  str_eq_iff q.action_class x.action_class,
)

demand-eq-ok : (b : Bool) {u : Unit {0}} → demand b ≡ ok u → b ≡ true
demand-eq-ok true h = refl
demand-eq-ok false h = cc

demanded-eq-ok {ℓ} : {A : Type ℓ} (o : Option A) {a : A} → demanded o ≡ ok a → o ≡ some a
demanded-eq-ok none h = cc
demanded-eq-ok (some b) h = cc

to_composite_state-eq-ok :
    (q : QStateClaims) (s : CompositeState)
    → to_composite_state q ≡ ok s
    → (s ≡ composite_state_of q) × IsValidState s
unfolding to_composite_state
to_composite_state-eq-ok q s h =
    let (_, checked, same) = >>=-eq-ok (check_composite_state (composite_state_of q)) _ h in
    let same_state : composite_state_of q ≡ s = cc same in
    (sym same_state, subst IsValidState same_state ((check_composite_state_iff _).0 checked))

json_object-eq-ok : (l : Loaded) (o : Object) → json_object l ≡ ok o → l ≡ loaded_object o
unfolding json_object
json_object-eq-ok (loaded_object p) o h = ap loaded_object (ok-inj h)
json_object-eq-ok undecodable o h = cc h
json_object-eq-ok not_object o h = cc h
json_object-eq-ok (failed e) o h = cc h

accepted_claims-eq-ok :
    (r : Result QStateClaims) (q : QStateClaims) → accepted_claims r ≡ ok q → r ≡ ok q
unfolding accepted_claims
accepted_claims-eq-ok (ok claims) q h = h
accepted_claims-eq-ok (raise e) q h = cc h

-- The members of a protected header.
pub record Headed (header : Object) (kid : String) : Type 0 where
  pub algorithm : get "alg" header ≡ some (text "EdDSA")
  pub type : get "typ" header ≡ some (text "KIL-Q+JWT")
  pub named : get "kid" header ≡ some (text kid)

is_text-eq : (s : String) (o : Option Value) → is_text s o ≡ true → o ≡ some (text s)
unfolding is_text
is_text-eq s (some (text t)) h = ap (λ x. some (text x)) ((str_eq_iff t s).0 h)
is_text-eq s (some (integer n)) h = cc h
is_text-eq s (some (boolean b)) h = cc h
is_text-eq s (some (Value.other j)) h = cc h
is_text-eq s none h = cc h

nonempty_text-eq : (o : Option Value) (s : String) → nonempty_text o ≡ some s → o ≡ some (text s)
unfolding nonempty_text
nonempty_text-eq (some (text t)) s h = elim (Bool-cases (str_eq t "")) [
  | inl e ↦ cc (rw e at h)
  | inr e ↦ cc (rw e at h)
]
nonempty_text-eq (some (integer n)) s h = cc h
nonempty_text-eq (some (boolean b)) s h = cc h
nonempty_text-eq (some (Value.other j)) s h = cc h
nonempty_text-eq none s h = cc h

header_key_id-Headed :
    (header : Object) (kid : String) → header_key_id header ≡ ok kid → Headed header kid
unfolding header_key_id
header_key_id-Headed header kid h =
    let (_, _, h₁) = >>=-eq-ok (demand (has_exactly header ("alg" ∷ "kid" ∷ "typ" ∷ []))) _ h in
    let (_, fixed, h₂) =
      >>=-eq-ok
        (demand (is_text "EdDSA" (get "alg" header) && is_text "KIL-Q+JWT" (get "typ" header))) _
        h₁ in
    let (algorithm, type) = both _ _ (demand-eq-ok _ fixed) in
    record {
      algorithm = is_text-eq _ _ algorithm;
      type = is_text-eq _ _ type;
      named = nonempty_text-eq _ kid (demanded-eq-ok _ h₂);
    }

abbrev verified_state : String × QStateClaims → CompositeState → VerifiedQState
verified_state checked state = record {
  claims = checked.1;
  composite_state = state;
  key_id = checked.0;
}

made :
    (checked : String × QStateClaims) (state : CompositeState) (v : VerifiedQState)
    → ok (verified_state checked state) ≡ ok v
    → verified_state checked state ≡ v
made checked state v h = cc

module _ (lib : TokenLibrary) where
  open lib use {Key, decode64, encode64, json_loads, verifies}

  -- The token has three parts. The first is a header that names the algorithm, the type and the key; the
  -- second is a payload that the claims are read from; and the third is a signature of the first two by the
  -- trusted key of that name.
  pub record Signed (token : String) (keys : List (String × Key)) (kid : String) (q : QStateClaims)
      : Type 0 where
    pub parts : Parts
    pub header_bytes : Bytes
    pub header : Object
    pub payload_bytes : Bytes
    pub payload : Object
    pub key : Key
    pub signature : Bytes
    pub compact : compact_parts (split_dots (codes token)) ≡ some parts
    pub header_decoded : b64decode lib parts.header_part ≡ ok header_bytes
    pub header_read : json_loads header_bytes ≡ loaded_object header
    pub headed : Headed header kid
    pub trusted : get_key lib kid keys ≡ some key
    pub signature_decoded : b64decode lib parts.signature_part ≡ ok signature
    pub verified : verifies key signature (parts.header_part ++ (b'.' ∷ parts.payload_part)) ≡ true
    pub payload_decoded : b64decode lib parts.payload_part ≡ ok payload_bytes
    pub payload_read : json_loads payload_bytes ≡ loaded_object payload
    pub claims_read : from_payload payload ≡ ok q
    pub carried : CarriedBy payload q

  verified_claims-Signed :
      (token : String) (parts : Parts) (keys : List (String × Key)) (y : String × QStateClaims)
      → compact_parts (split_dots (codes token)) ≡ some parts
      → verified_claims lib parts keys ≡ ok y
      → Signed token keys y.0 y.1
  unfolding verified_claims
  verified_claims-Signed token parts keys y shape h =
      let (header_bytes, header_decoded, h₁) = >>=-eq-ok (b64decode lib parts.header_part) _ h in
      let (payload_bytes, payload_decoded, h₂) =
        >>=-eq-ok (b64decode lib parts.payload_part) _ h₁ in
      let (signature, decoded, h₃) = >>=-eq-ok (b64decode lib parts.signature_part) _ h₂ in
      let (header, header_read, h₄) = >>=-eq-ok (json_object (json_loads header_bytes)) _ h₃ in
      let (kid, named, h₅) = >>=-eq-ok (header_key_id header) _ h₄ in
      let (key, found, h₆) = >>=-eq-ok (demanded (get_key lib kid keys)) _ h₅ in
      let signed = verifies key signature (parts.header_part ++ (b'.' ∷ parts.payload_part)) in
      let (_, verified, h₇) = >>=-eq-ok (demand signed) _ h₆ in
      let (payload, payload_read, h₈) = >>=-eq-ok (json_object (json_loads payload_bytes)) _ h₇ in
      let (claims, accepted, h₉) = >>=-eq-ok (accepted_claims (from_payload payload)) _ h₈ in
      let claims_read = accepted_claims-eq-ok (from_payload payload) claims accepted in
      subst (λ (z : String × QStateClaims). Signed token keys z.0 z.1) (ok-inj h₉)
        (record {
          parts = parts;
          header_bytes = header_bytes;
          header = header;
          payload_bytes = payload_bytes;
          payload = payload;
          key = key;
          signature = signature;
          compact = shape;
          header_decoded = header_decoded;
          header_read = json_object-eq-ok _ header header_read;
          headed = header_key_id-Headed header kid named;
          trusted = demanded-eq-ok _ found;
          signature_decoded = decoded;
          verified = demand-eq-ok signed verified;
          payload_decoded = payload_decoded;
          payload_read = json_object-eq-ok _ payload payload_read;
          claims_read = claims_read;
          carried = from_payload-CarriedBy payload claims claims_read;
        })

  pub record Accepted (token : String) (keys : List (String × Key)) (x : Expectation)
      (v : VerifiedQState) : Type 0 where
    pub signed : Signed token keys v.key_id v.claims
    pub bound : Bound x v.claims
    pub of_claims : v.composite_state ≡ composite_state_of v.claims
    pub valid : IsValidState v.composite_state

  -- An accepted token has three parts: a header that names a trusted key, a payload that the accepted
  -- claims are read from, member by member, and a signature of both by that key. The claims are not
  -- revoked, in their window and bound to what the caller expects; and the composite state is theirs and
  -- meets every check of a state.
  pub verify_q_state-Accepted :
      (token : String) (keys : List (String × Key)) (x : Expectation) (v : VerifiedQState)
      → verify_q_state lib token keys x ≡ ok v
      → Accepted token keys x v
  unfolding verify_q_state
  verify_q_state-Accepted token keys x v h =
      let (_, _, h₁) = >>=-eq-ok (demand (not (str_eq token ""))) _ h in
      let (_, _, h₂) = >>=-eq-ok (check_expectation x) _ h₁ in
      let (parts, shape, h₃) =
        >>=-eq-ok (demanded (compact_parts (split_dots (codes token)))) _ h₂ in
      let (checked, opened, h₄) = >>=-eq-ok (verified_claims lib parts keys) _ h₃ in
      let (_, bound, h₅) = >>=-eq-ok (check_bindings x checked.1) _ h₄ in
      let (state, built, h₆) = >>=-eq-ok (to_composite_state checked.1) _ h₅ in
      let (of_claims, valid) = to_composite_state-eq-ok checked.1 state built in
      subst (Accepted token keys x) (made checked state v h₆) (record {
        signed = verified_claims-Signed token parts keys checked (demanded-eq-ok _ shape) opened;
        bound = (check_bindings_iff x checked.1).0 bound;
        of_claims = of_claims;
        valid = valid;
      })
