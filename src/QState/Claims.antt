-- ===== src/QState/Claims.antt =====
-- `QStateClaims` of src/kil/q_state.py: the record, its `__post_init__`, and the composite state that
-- it stands for.
use kil.Prelude.{
  Bool, true, false, not, ◌&&◌, all, length, ◌==◌, ℤ, pos, ◌-ℤ◌, ltb_ℤ, leb_ℤ, String, str_eq,
  is_nonblank, is_hex_code, codes, leb, Result, ok, require, ◌>>◌, drop, is_prefix,
}
use kil.Decimal.{Decimal, finite, is_finite, lt_dec, zero_dec}
use kil.Domain.{CompositeState, check_composite_state}
use kil.QState.Wire.{decimal_wire_length, max_decimal_wire_length}

abbrev pub q_state_schema_version : String
q_state_schema_version = "kil.q-state.v0"

abbrev pub max_validity_seconds : ℤ
max_validity_seconds = pos 10

pub record QStateClaims : Type 0 where
  pub schema_version : String
  pub state_id : String
  pub issuer : String
  pub subject : String
  pub audience : String
  pub authority_class : String
  pub action_class : String
  pub issued_at_s : ℤ
  pub not_before_s : ℤ
  pub expires_at_s : ℤ
  pub evidence_horizon_s : ℤ
  pub trust_proof_id : String
  pub trust_proof_digest : String
  pub envelope_result_id : String
  pub envelope_result_digest : String
  pub deployment_profile : String
  pub charge : Decimal
  pub threshold : Decimal
  pub history_count : ℤ
  pub minimum_history : ℤ
  pub veto_clear : Bool
  pub envelope_allows : Bool
  pub decay_rate : Decimal
  pub maximum_charge : Decimal
  pub model_version : String
  pub parameter_version : String

-- `value.is_zero() and value.is_signed()`
is_negative_zero : Decimal → Bool
is_negative_zero (finite true c e) = c == 0
is_negative_zero _ = false

-- `_require_decimal`
unfoldable pub require_wire_decimal : Decimal → Result (Unit {0})
unfolding is_negative_zero
require_wire_decimal value = do
  require (is_finite value)
  require (not (is_negative_zero value))
  require (not (lt_dec value zero_dec))
  require (leb (decimal_wire_length value) max_decimal_wire_length)

-- `_DIGEST_PATTERN.fullmatch`: `sha256:` and 64 hexadecimal digits.
unfoldable pub is_sha256_reference : String → Bool
unfolding is_hex_code is_prefix
is_sha256_reference value =
    let cs = codes value in
    is_prefix (codes "sha256:") cs && (length cs == 71) && all is_hex_code (drop 7 cs)

-- The checks of `__post_init__` on single fields.
unfoldable pub check_claim_names : QStateClaims → Result (Unit {0})
check_claim_names q = do
  require (str_eq q.schema_version q_state_schema_version)
  require (is_nonblank q.state_id)
  require (is_nonblank q.issuer)
  require (is_nonblank q.subject)
  require (is_nonblank q.audience)
  require (is_nonblank q.authority_class)
  require (is_nonblank q.action_class)
  require (is_nonblank q.trust_proof_id)
  require (is_nonblank q.envelope_result_id)
  require (is_nonblank q.deployment_profile)
  require (is_nonblank q.model_version)
  require (is_nonblank q.parameter_version)

unfoldable pub check_claim_values : QStateClaims → Result (Unit {0})
unfolding require_wire_decimal is_sha256_reference
check_claim_values q = do
  require_wire_decimal q.charge
  require_wire_decimal q.threshold
  require_wire_decimal q.decay_rate
  require_wire_decimal q.maximum_charge
  require (is_sha256_reference q.trust_proof_digest)
  require (is_sha256_reference q.envelope_result_digest)

-- The checks that relate fields.
unfoldable pub check_claim_bounds : QStateClaims → Result (Unit {0})
check_claim_bounds q = do
  require (leb_ℤ q.issued_at_s q.not_before_s && ltb_ℤ q.not_before_s q.expires_at_s)
  require (leb_ℤ (q.expires_at_s -ℤ q.issued_at_s) max_validity_seconds)
  require (leb_ℤ q.evidence_horizon_s q.issued_at_s)
  require (not (ltb_ℤ q.history_count (pos 0)) && not (ltb_ℤ q.minimum_history (pos 0)))
  require (not (lt_dec q.maximum_charge q.charge))
  require (not (lt_dec q.maximum_charge q.threshold))

unfoldable pub check_claims : QStateClaims → Result (Unit {0})
unfolding check_claim_names check_claim_values check_claim_bounds
check_claims q = do check_claim_names q; check_claim_values q; check_claim_bounds q

-- The fields of `to_composite_state`.
unfoldable pub composite_state_of : QStateClaims → CompositeState
composite_state_of q = record {
  state_id = q.state_id;
  identity = q.subject;
  authority_class = q.authority_class;
  issued_at_s = q.issued_at_s;
  not_before_s = q.not_before_s;
  expires_at_s = q.expires_at_s;
  charge = q.charge;
  threshold = q.threshold;
  history_count = q.history_count;
  minimum_history = q.minimum_history;
  authentic = true;
  veto_clear = q.veto_clear;
  envelope_allows = q.envelope_allows;
  decay_rate = q.decay_rate;
  maximum_charge = q.maximum_charge;
}

-- `to_composite_state`: the state's own checks run.
unfoldable pub to_composite_state : QStateClaims → Result CompositeState
unfolding composite_state_of
to_composite_state q = let s = composite_state_of q in check_composite_state s >> ok s
