-- ===== src/LiveAuthz/Headers.antt =====
-- The decisions of src/kil/live_authz.py on requests that differ in their untrusted headers.
use kil.Prelude.{◌≡◌, List, String, Result, ok, raise, ◌⊎◌, Exception, Bool, ◌||◌, is_empty}
use kil.Canonical.{canonical_digest}
use kil.LiveAuthz.Identity.{DecisionIdentity, identity_value}
use kil.LiveAuthz.Defs.{LiveFixture, LiveDecision, Platform, is_only_ignored, reasons_of}

abbrev pub with_headers : LiveFixture → List (String × String) → LiveFixture
with_headers x hs = record x { untrusted_headers = hs }

abbrev pub with_reasons : DecisionIdentity → List String → DecisionIdentity
with_reasons i reasons = record i { adapter_reasons = reasons }

-- The baseline's permits do not turn on the mode header.
baseline_test : Bool → Bool → Bool → Bool
baseline_test ignored credential policy =
    is_empty (reasons_of ignored credential policy)
    || is_only_ignored (reasons_of ignored credential policy)

module _ (p : Platform) where
  -- The facts of a decision, with some list of the adapter's reasons, have no digest: the exception is the
  -- one that their canonical text raises.
  abbrev pub Undigested : DecisionIdentity → Exception → Type 0
  Undigested i e =
      (reasons : List String) × (canonical_digest p.sha256_hex
          (identity_value (with_reasons i reasons))
        ≡ raise e)

  -- Two evaluations end alike: both with the same request, track, outcome and engine record, or both with
  -- the same exception; but the adapter's reasons may be too long for a digest on one side, or on both.
  abbrev pub SameDecision : Result LiveDecision → Result LiveDecision → Type 0
  SameDecision (ok d) (ok d') =
      (reasons : List String) × (d'.identity ≡ with_reasons d.identity reasons)
  SameDecision (ok d) (raise e) = Undigested d.identity e
  SameDecision (raise e) (ok d) = Undigested d.identity e
  SameDecision (raise e) (raise e') =
      (e ≡ e') ⊎ ((i : DecisionIdentity) × Undigested i e × Undigested i e')
