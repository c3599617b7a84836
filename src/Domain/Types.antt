-- ===== src/Domain/Types.antt =====
-- The enumerations and records of src/kil/domain.py.
use kil.Prelude.{Bool, true, false, ℤ, String, List}
use kil.Decimal.{Decimal}

pub data EnforcementMode : Type 0 where
  signed_state_only signed_plus_local_reduce : EnforcementMode

pub data DecisionOutcome : Type 0 where
  permit constrain deny indeterminate : DecisionOutcome

pub data FailureDisposition : Type 0 where
  closed constrained : FailureDisposition

pub data ReasonCode : Type 0 where
  permitted identity_mismatch class_mismatch veto outside_envelope : ReasonCode
  state_unauthentic state_not_yet_valid state_expired arithmetic_failure : ReasonCode
  local_evidence_stale insufficient_charge insufficient_history : ReasonCode

abbrev pub is_permit : DecisionOutcome → Bool
is_permit DecisionOutcome.permit = true
is_permit _ = false

abbrev pub is_deny : DecisionOutcome → Bool
is_deny DecisionOutcome.deny = true
is_deny _ = false

abbrev pub is_permitted : ReasonCode → Bool
is_permitted ReasonCode.permitted = true
is_permitted _ = false

abbrev pub is_stale : ReasonCode → Bool
is_stale ReasonCode.local_evidence_stale = true
is_stale _ = false

pub record ActionRequest : Type 0 where
  pub request_id : String
  pub identity : String
  pub authority_class : String
  pub timestamp_s : ℤ

pub record CompositeState : Type 0 where
  pub state_id : String
  pub identity : String
  pub authority_class : String
  pub issued_at_s : ℤ
  pub not_before_s : ℤ
  pub expires_at_s : ℤ
  pub charge : Decimal
  pub threshold : Decimal
  pub history_count : ℤ
  pub minimum_history : ℤ
  pub authentic : Bool
  pub veto_clear : Bool
  pub envelope_allows : Bool
  pub decay_rate : Decimal
  pub maximum_charge : Decimal

pub record LocalEvidence : Type 0 where
  pub divergence : Decimal
  pub coupled_loss : Decimal
  pub fresh : Bool

pub record ReductionProfile : Type 0 where
  pub divergence_threshold : Decimal
  pub loss_rate : Decimal
  pub exponent : ℤ

pub record DecisionRecord : Type 0 where
  pub request_id : String
  pub state_id : String
  pub mode : EnforcementMode
  pub outcome : DecisionOutcome
  pub reasons : List ReasonCode
  pub signed_charge : Decimal
  pub decayed_charge : Decimal
  pub effective_charge : Decimal
