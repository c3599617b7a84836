-- ===== src/QState/Token.antt =====
-- `verify_q_state` of src/kil/q_state.py. Base64, JSON and Ed25519 are library code: they are the
-- fields of `TokenLibrary`.
use kil.Prelude.{
  contains_text, ℕ, Bool, false, not, ◌&&◌, List, [], ◌∷◌, ◌++◌, Option, none, some, all, is_empty,
  ◌==◌, ℤ, ltb_ℤ, leb_ℤ, String, str_eq, codes, eq_codes, is_nonblank, Result, ok, raise, Exception,
  guard, require, q_state_verification_error, is_value_error, ◌>>=◌, ◌>>◌, if◌then◌else◌,
}
use kil.Domain.{CompositeState}
use kil.QState.Claims.{QStateClaims, to_composite_state}
use kil.QState.Payload.{Value, text, Object, get, has_exactly, from_payload}

abbrev pub Bytes : Type 0
Bytes = List ℕ

-- What `json.loads(raw.decode("utf-8"))` does: it ends in a UnicodeDecodeError or a JSONDecodeError, or in
-- another exception, or it gives an object or a value of another type.
pub data Loaded : Type 0 where
  undecodable not_object : Loaded
  failed : Exception → Loaded
  loaded_object : Object → Loaded

-- `_json_object`
unfoldable pub json_object : Loaded → Result Object
json_object undecodable = raise q_state_verification_error
json_object not_object = raise q_state_verification_error
json_object (failed e) = raise e
json_object (loaded_object o) = ok o

-- What the code calls of `base64`, `json` and `cryptography`. `decode64` pads and validates, and
-- `verifies key signature input` says that the signature is the key's.
pub record TokenLibrary : Type 1 where
  pub Key : Type 0
  pub decode64 : Bytes → Option Bytes
  pub encode64 : Bytes → Bytes
  pub json_loads : Bytes → Loaded
  pub verifies : Key → Bytes → Bytes → Bool

-- `raise QStateVerificationError` unless the test holds.
abbrev pub demand : Bool → Result (Unit {0})
demand b = guard b q_state_verification_error

abbrev pub demanded {ℓ} : {A : Type ℓ} → Option A → Result A
demanded none = raise q_state_verification_error
demanded (some a) = ok a

extend_first : ℕ → List Bytes → List Bytes
extend_first y [] = (y ∷ []) ∷ []
extend_first y (part ∷ parts) = (y ∷ part) ∷ parts

-- `token.split(".")`
unfoldable pub split_dots : Bytes → List Bytes
unfolding extend_first
split_dots [] = [] ∷ []
split_dots (x ∷ xs) =
    let rest = split_dots xs in if x == b'.' then [] ∷ rest else extend_first x rest

pub record Parts : Type 0 where
  pub header_part : Bytes
  pub payload_part : Bytes
  pub signature_part : Bytes

-- Three parts, none of them empty.
unfoldable pub compact_parts : List Bytes → Option Parts
compact_parts (h ∷ p ∷ s ∷ []) =
    if is_empty h
    then none
    else if is_empty p
    then none
    else if is_empty s
    then none
    else some (record { header_part = h; payload_part = p; signature_part = s })
compact_parts _ = none

unfoldable pub is_text : String → Option Value → Bool
is_text s (some (text v)) = str_eq v s
is_text s _ = false

unfoldable pub nonempty_text : Option Value → Option String
nonempty_text (some (text v)) = if str_eq v "" then none else some v
nonempty_text _ = none

-- The claims were accepted: `QStateClaims.from_payload` under `except ValueError`.
unfoldable pub accepted_claims : Result QStateClaims → Result QStateClaims
accepted_claims (ok claims) = ok claims
accepted_claims (raise e) = raise (if is_value_error e then q_state_verification_error else e)

-- What the caller expects the state to be bound to.
pub record Expectation : Type 0 where
  pub now_s : ℤ
  pub subject : String
  pub audience : String
  pub authority_class : String
  pub action_class : String
  pub revoked_state_ids : List String

-- The checks on the arguments, which raise a plain ValueError.
unfoldable pub check_expectation : Expectation → Result (Unit {0})
check_expectation x = do
  require (is_nonblank x.subject)
  require (is_nonblank x.audience)
  require (is_nonblank x.authority_class)
  require (is_nonblank x.action_class)
  require (all (λ i. not (str_eq i "")) x.revoked_state_ids)

-- Revocation, window and bindings of verified claims.
unfoldable pub check_bindings : Expectation → QStateClaims → Result (Unit {0})
check_bindings x q = do
  demand (not (contains_text q.state_id x.revoked_state_ids))
  demand (not (ltb_ℤ x.now_s q.not_before_s))
  demand (not (leb_ℤ q.expires_at_s x.now_s))
  demand (str_eq q.subject x.subject)
  demand (str_eq q.audience x.audience)
  demand (str_eq q.authority_class x.authority_class)
  demand (str_eq q.action_class x.action_class)

pub record VerifiedQState : Type 0 where
  pub claims : QStateClaims
  pub composite_state : CompositeState
  pub key_id : String

-- The key identifier of a well-formed protected header.
unfoldable pub header_key_id : Object → Result String
unfolding is_text nonempty_text
header_key_id header = do
  demand (has_exactly header ("alg" ∷ "kid" ∷ "typ" ∷ []))
  demand (is_text "EdDSA" (get "alg" header) && is_text "KIL-Q+JWT" (get "typ" header))
  demanded (nonempty_text (get "kid" header))

module _ (lib : TokenLibrary) where
  open lib use {Key, decode64, encode64, json_loads, verifies}

  -- `_b64decode`: the one canonical encoding is accepted.
  unfoldable pub b64decode : Bytes → Result Bytes
  unfolding eq_codes
  b64decode value = do
    demand (not (is_empty value))
    decoded ← demanded (decode64 value)
    demand (eq_codes (encode64 decoded) value)
    ok decoded

  unfoldable pub get_key : String → List (String × Key) → Option Key
  get_key kid [] = none
  get_key kid ((k, key) ∷ rest) =
      let later = get_key kid rest in if str_eq k kid then some key else later

  -- The signature is checked before the payload is read.
  unfoldable pub verified_claims : Parts → List (String × Key) → Result (String × QStateClaims)
  unfolding b64decode get_key header_key_id accepted_claims json_object
  verified_claims parts keys = do
    header_bytes ← b64decode parts.header_part
    payload_bytes ← b64decode parts.payload_part
    signature ← b64decode parts.signature_part
    header ← json_object (json_loads header_bytes)
    kid ← header_key_id header
    public_key ← demanded (get_key kid keys)
    demand (verifies public_key signature (parts.header_part ++ (b'.' ∷ parts.payload_part)))
    payload ← json_object (json_loads payload_bytes)
    claims ← accepted_claims (from_payload payload)
    ok (kid, claims)

  unfoldable pub verify_q_state : String → List (String × Key) → Expectation → Result VerifiedQState
  unfolding split_dots compact_parts verified_claims check_expectation check_bindings
  verify_q_state token keys x = do
    demand (not (str_eq token ""))
    check_expectation x
    parts ← demanded (compact_parts (split_dots (codes token)))
    checked ← verified_claims parts keys
    check_bindings x checked.1
    state ← to_composite_state checked.1
    ok (record { claims = checked.1; composite_state = state; key_id = checked.0 })
