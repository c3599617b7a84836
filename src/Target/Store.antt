-- ===== src/Target/Store.antt =====
-- `TargetRecord` and `TargetLedger.append_marker` of src/kil/target_http.py. The answers of
-- the clock and of the operating system are an argument of each append; the lock makes one append at
-- a time, so an append is one step of the ledger.
use kil.Prelude.{
  contains_text, ℕ, ◌+◌, Bool, true, false, not, ◌||◌, List, [], ◌∷◌, ◌++◌, length, leb, ℤ, pos,
  ltb_ℤ, String, str_eq, is_identifier, is_digest, Result, ok, raise, require, os_error,
  duplicate_target_record, ◌>>◌, ◌>>=◌, utf8_length, if◌then◌else◌,
}
use kil.Canonical.{Value, enum_text, members_of, canonical_json}
use kil.Files.{FileAnswers, append_file}
use kil.LiveAuthz.{LiveTrack, track_value}

abbrev pub max_records : ℕ
max_records = 100000

abbrev pub record_schema_version : String
record_schema_version = "kil.v3b-target-record.v1"

pub record LedgerRecord : Type 0 where
  pub schema_version : String
  pub run_id : String
  pub request_id : String
  pub track : LiveTrack
  pub path : String
  pub decision_digest : String
  pub received_monotonic_ns : ℤ
  pub response_monotonic_ns : ℤ

-- `TargetRecord.__post_init__`
unfoldable pub check_ledger_record : LedgerRecord → Result (Unit {0})
check_ledger_record r = do
  require (str_eq r.schema_version record_schema_version)
  require (is_identifier r.run_id)
  require (is_identifier r.request_id)
  require (str_eq r.path "/benign/read" || str_eq r.path "/consequential/admin")
  require (is_digest r.decision_digest)
  require (not (ltb_ℤ r.received_monotonic_ns (pos 0)))
  require (not (ltb_ℤ r.response_monotonic_ns r.received_monotonic_ns))

-- `TargetRecord`, as a dataclass is serialized.
unfoldable pub ledger_value : LedgerRecord → Value
unfolding members_of track_value
ledger_value r = Value.dataclass (
    members_of (
      ("schema_version", Value.text r.schema_version)
      ∷ ("run_id", Value.text r.run_id)
      ∷ ("request_id", Value.text r.request_id)
      ∷ ("track", enum_text (track_value r.track))
      ∷ ("path", Value.text r.path)
      ∷ ("decision_digest", Value.text r.decision_digest)
      ∷ ("received_monotonic_ns", Value.integer r.received_monotonic_ns)
      ∷ ("response_monotonic_ns", Value.integer r.response_monotonic_ns)
      ∷ []))

-- What the clock and the file system answer to one append.
pub record Answers : Type 0 where
  pub received_ns : ℤ
  pub response_ns : ℤ
  pub file : FileAnswers

-- The fields of `TargetLedger` that an append reads or changes.
pub record Ledger : Type 0 where
  pub records : List LedgerRecord
  pub request_ids : List String
  pub invalid : Bool

abbrev pub empty_ledger : Ledger
empty_ledger = record { records = []; request_ids = []; invalid = false }

-- What a caller asks to be recorded.
pub record Marking : Type 0 where
  pub run_id : String
  pub request_id : String
  pub track : LiveTrack
  pub path : String
  pub decision_digest : String

unfoldable pub ledger_record : Marking → Answers → LedgerRecord
ledger_record m a = record {
  schema_version = record_schema_version;
  run_id = m.run_id;
  request_id = m.request_id;
  track = m.track;
  path = m.path;
  decision_digest = m.decision_digest;
  received_monotonic_ns = a.received_ns;
  response_monotonic_ns = a.response_ns;
}

-- The `try` block: the record is built, and its line is written and synced.
unfoldable pub write_record : Marking → Answers → Result LedgerRecord
unfolding check_ledger_record append_file ledger_record ledger_value canonical_json utf8_length
write_record m a = do
  let r = ledger_record m a
  check_ledger_record r
  text ← canonical_json (ledger_value r)
  append_file (utf8_length text + 1) a.file
  ok r

-- The ledger after a failure, and after a record.
unfoldable pub invalidate : Ledger → Ledger
invalidate l = record l { invalid = true }

unfoldable pub add_record : LedgerRecord → Ledger → Ledger
add_record r l = record l {
  records = l.records ++ r ∷ [];
  request_ids = l.request_ids ++ r.request_id ∷ [];
}

unfoldable pub recorded : Ledger → Result LedgerRecord → Result LedgerRecord × Ledger
unfolding invalidate add_record
recorded l (ok r) = (ok r, add_record r l)
recorded l (raise e) = (raise e, invalidate l)

-- `append_marker`
unfoldable pub append_marker : Marking → Answers → Ledger → Result LedgerRecord × Ledger
unfolding write_record recorded invalidate contains_text
append_marker m a l =
    if contains_text m.request_id l.request_ids
    then (raise duplicate_target_record, invalidate l)
    else if leb max_records (length l.records)
    then (raise os_error, invalidate l)
    else recorded l (write_record m a)
