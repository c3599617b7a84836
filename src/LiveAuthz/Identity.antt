-- ===== src/LiveAuthz/Identity.antt =====
-- The value that `AuthorizationAdapter._result` takes the digest of (src/kil/live_authz.py), with the
-- values of the enumerations of src/kil/domain.py.
use kil.Prelude.{List, [], ◌∷◌, map, Option, none, some, String}
use kil.Canonical.{Value, enum_text, values_of, members_of, texts_value}
use kil.Domain.{DecisionOutcome, DecisionRecord, EnforcementMode, ReasonCode}

pub data LiveTrack : Type 0 where
  credential_policy_baseline signed_state_only signed_plus_local_reduce : LiveTrack

-- `LiveTrack.value`
unfoldable pub track_value : LiveTrack → String
track_value LiveTrack.credential_policy_baseline = "credential_policy_baseline"
track_value LiveTrack.signed_state_only = "signed_state_only"
track_value LiveTrack.signed_plus_local_reduce = "signed_plus_local_reduce"

-- `DecisionOutcome.value`
unfoldable pub outcome_value : DecisionOutcome → String
outcome_value DecisionOutcome.permit = "permit"
outcome_value DecisionOutcome.constrain = "constrain"
outcome_value DecisionOutcome.deny = "deny"
outcome_value DecisionOutcome.indeterminate = "indeterminate"

-- `ReasonCode.value`
unfoldable pub reason_value : ReasonCode → String
reason_value ReasonCode.permitted = "permitted"
reason_value ReasonCode.identity_mismatch = "identity_mismatch"
reason_value ReasonCode.class_mismatch = "class_mismatch"
reason_value ReasonCode.veto = "immutable_veto"
reason_value ReasonCode.outside_envelope = "outside_environmental_envelope"
reason_value ReasonCode.state_unauthentic = "state_unauthentic"
reason_value ReasonCode.state_not_yet_valid = "state_not_yet_valid"
reason_value ReasonCode.state_expired = "state_expired"
reason_value ReasonCode.arithmetic_failure = "arithmetic_failure"
reason_value ReasonCode.local_evidence_stale = "local_evidence_stale"
reason_value ReasonCode.insufficient_charge = "insufficient_charge"
reason_value ReasonCode.insufficient_history = "insufficient_history"

-- `EnforcementMode.value`
mode_value : EnforcementMode → String
mode_value EnforcementMode.signed_state_only = "signed_state_only"
mode_value EnforcementMode.signed_plus_local_reduce = "signed_plus_local_reduce"

-- `DecisionRecord`, as a dataclass is serialized.
unfoldable pub decision_record_value : DecisionRecord → Value
unfolding values_of members_of outcome_value reason_value mode_value
decision_record_value d = Value.dataclass (
    members_of (
      ("request_id", Value.text d.request_id)
      ∷ ("state_id", Value.text d.state_id)
      ∷ ("mode", enum_text (mode_value d.mode))
      ∷ ("outcome", enum_text (outcome_value d.outcome))
      ∷ ("reasons", Value.sequence (values_of (map (λ r. enum_text (reason_value r)) d.reasons)))
      ∷ ("signed_charge", Value.decimal d.signed_charge)
      ∷ ("decayed_charge", Value.decimal d.decayed_charge)
      ∷ ("effective_charge", Value.decimal d.effective_charge)
      ∷ []))

engine_value : Option DecisionRecord → Value
unfolding decision_record_value
engine_value none = Value.null
engine_value (some d) = decision_record_value d

-- The arguments of `_result`.
pub record DecisionIdentity : Type 0 where
  pub request_id : String
  pub track : LiveTrack
  pub outcome : DecisionOutcome
  pub adapter_reasons : List String
  pub engine_record : Option DecisionRecord

-- `identity`
unfoldable pub identity_value : DecisionIdentity → Value
unfolding members_of track_value outcome_value texts_value engine_value
identity_value i = Value.dict (
    members_of (
      ("request_id", Value.text i.request_id)
      ∷ ("track", enum_text (track_value i.track))
      ∷ ("outcome", enum_text (outcome_value i.outcome))
      ∷ ("adapter_reasons", texts_value i.adapter_reasons)
      ∷ ("engine_record", engine_value i.engine_record)
      ∷ []))
