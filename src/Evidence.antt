-- ===== src/Evidence.antt =====
-- `EvidenceClass` and `LabeledValue` of src/kil/evidence.py.
use kil.Prelude.{Bool, true, false, Option, none, some, String, is_nonblank, Result, require}

pub data EvidenceClass : Type 0 where
  observed modeled validated : EvidenceClass

pub record LabeledValue {ℓ} (A : Type ℓ) : Type ℓ where
  pub value : A
  pub evidence_class : EvidenceClass
  pub source_ref : Option String
  pub rationale : Option String
  pub run_id : Option String

abbrev pub is_modeled : EvidenceClass → Bool
is_modeled EvidenceClass.modeled = true
is_modeled _ = false

abbrev pub is_observed : EvidenceClass → Bool
is_observed EvidenceClass.observed = true
is_observed _ = false

-- `_is_nonblank_string`, where the field may be None.
unfoldable pub is_nonblank_string : Option String → Bool
is_nonblank_string none = false
is_nonblank_string (some s) = is_nonblank s

-- The provenance that a class requires.
unfoldable pub provenance {ℓ} : {A : Type ℓ} → EvidenceClass → LabeledValue A → Option String
provenance EvidenceClass.observed v = v.source_ref
provenance EvidenceClass.modeled v = v.rationale
provenance EvidenceClass.validated v = v.run_id

-- `LabeledValue.__post_init__`
unfoldable pub check_labeled_value {ℓ} : {A : Type ℓ} → LabeledValue A → Result (Unit {0})
unfolding is_nonblank_string provenance
check_labeled_value v = require (is_nonblank_string (provenance v.evidence_class v))
