-- ===== src/Journal/Segments.antt =====
-- The check of a record's log segments: `validate_logs` of rust/worker/src/journal/logs.rs.
use distributed_execution.Base.{
  ℕ, ◌+◌, Bool, true, not, ◌&&◌, ◌==◌, leb, if◌then◌else◌, Option, none, some, List, [], ◌∷◌,
  is_empty, length, Bytes, bytes_eq, ascii, Result, ok, ◌>>=◌, ◌>>◌, guard, ok_or, pos, ℤ_eq,
  equals, option_eq, list_eq,
}
use distributed_execution.Control.{
  AttemptAuthority, authority_equality, canonical_uuid, gap_equality, RegisterLogSegmentRequest,
  FinalizeUploadRequest, FinalizeUploadResponse,
}
use distributed_execution.Log.Slots.{Slot, slot_stdout, slot_stderr, Two, both, get, put, index}
use distributed_execution.Upload.{
  validate_create, validate_finalization, validate_artifact, scoped_key,
}
use distributed_execution.Registration.{log_stream_try_from, validate_request}
use distributed_execution.Journal.Records.{JournalError, invalid, LogUpload, Record, is_none}
use distributed_execution.Journal.Uploads.{as_invalid, fresh_in, finalizes}

-- The variables of the loop.
pub record Seen : Type 0 where
  pub ids : List Bytes
  pub uploads : List Bytes
  pub artifacts : List Bytes
  pub last : Two ℕ
  pub previous_registered : Two Bool

abbrev pub nothing_seen : Seen
nothing_seen = record {
  ids = [];
  uploads = [];
  artifacts = [];
  last = both 0;
  previous_registered = both true;
}

-- `LogStream::try_from` to the index of the stream's variables.
abbrev pub slot_of : ℕ → Option Slot
slot_of code = elim (log_stream_try_from code) [ none ↦ none | some stream ↦ index stream ]

abbrev pub stream_name : Slot → Bytes
stream_name slot_stdout = ascii "stdout"
stream_name slot_stderr = ascii "stderr"

-- The range as a registration under the declaration's own identity.
abbrev pub probe : LogUpload → RegisterLogSegmentRequest
probe log = record {
  authority = log.declaration.authority;
  request_id = log.declaration.request_id;
  artifact_id = log.declaration.request_id;
  stream = log.stream;
  first_sequence = log.first_sequence;
  last_sequence = log.last_sequence;
  gaps = log.gaps;
}

-- The registration is that of the segment and of its artifact.
unfoldable pub registers : LogUpload → FinalizeUploadResponse → RegisterLogSegmentRequest → Bool
registers log answer register =
    equals register.authority log.declaration.authority
    && bytes_eq register.artifact_id answer.artifact_id
    && register.stream == log.stream
    && register.first_sequence == log.first_sequence
    && register.last_sequence == log.last_sequence
    && equals ⦃e = list_eq⦄ register.gaps log.gaps

unfoldable pub check_registration :
    Seen → LogUpload → FinalizeUploadResponse → Result JournalError Seen
unfolding registers
check_registration seen log answer = elim log.registration [
  | none ↦ do guard (not log.registered) invalid; ok seen
  | some register ↦ do
    as_invalid (validate_request register)
    guard (registers log answer register) invalid
    fresh_in register.request_id seen.ids
    ok (record seen { ids = register.request_id ∷ seen.ids })
]

unfoldable pub check_response : Seen → LogUpload → FinalizeUploadRequest → Result JournalError Seen
unfolding check_registration
check_response seen log finalize = elim log.response [
  | none ↦ do guard (is_none log.registration && not log.registered) invalid; ok seen
  | some answer ↦ do
    as_invalid (validate_artifact finalize answer)
    fresh_in answer.artifact_id seen.artifacts
    check_registration (record seen { artifacts = answer.artifact_id ∷ seen.artifacts }) log answer
]

unfoldable pub check_finalization : Seen → LogUpload → Result JournalError Seen
unfolding check_response
check_finalization seen log = elim log.finalization [
  | none ↦ do
    guard (is_none log.response && is_none log.registration && not log.registered) invalid
    ok seen
  | some finalize ↦ do
    as_invalid (validate_finalization finalize)
    object ← ok_or finalize.object invalid
    guard (finalizes log.declaration log.upload_id log.object_key finalize object) invalid
    fresh_in finalize.request_id seen.ids
    check_response (record seen { ids = finalize.request_id ∷ seen.ids }) log finalize
]

unfoldable pub check_grant : Seen → LogUpload → Result JournalError Seen
unfolding check_finalization
check_grant seen log =
    let granted = (do
      a ← ok_or log.declaration.authority invalid
      guard (canonical_uuid log.upload_id && scoped_key log.object_key a log.upload_id) invalid
      fresh_in log.upload_id seen.uploads
      check_finalization (record seen { uploads = log.upload_id ∷ seen.uploads }) log) in
    if is_empty log.upload_id
    then guard
        (is_empty log.object_key
          && is_none log.finalization
          && is_none log.response
          && is_none log.registration
          && not log.registered)
        invalid
      >> ok seen
    else granted

-- A segment continues its stream, whose segment before is registered.
unfoldable pub continues : Option AttemptAuthority → Seen → Slot → LogUpload → Bool
continues authority seen slot log =
    equals log.declaration.authority authority
    && ℤ_eq log.declaration.kind (pos 2)
    && bytes_eq log.declaration.name (stream_name slot)
    && not (log.declaration.size_bytes == 0)
    && leb log.declaration.size_bytes 1_048_576
    && log.first_sequence == get seen.last slot + 1
    && get seen.previous_registered slot

-- What the pass leaves of the stream's variables.
abbrev pub advanced : Seen → Slot → LogUpload → Seen
advanced seen slot log = record seen {
  ids = log.declaration.request_id ∷ seen.ids;
  last = put seen.last slot log.last_sequence;
  previous_registered = put seen.previous_registered slot log.registered;
}

-- One pass of the loop.
unfoldable pub check_log : Option AttemptAuthority → Seen → LogUpload → Result JournalError Seen
unfolding continues check_grant
check_log authority seen log = do
  as_invalid (validate_create log.declaration)
  slot ← ok_or (slot_of log.stream) invalid
  fresh_in log.declaration.request_id seen.ids
  guard (continues authority seen slot log) invalid
  as_invalid (validate_request (probe log))
  check_grant (advanced seen slot log) log

unfoldable pub check_logs :
    Option AttemptAuthority → Seen → List LogUpload → Result JournalError Seen
unfolding check_log
check_logs authority seen [] = ok seen
check_logs authority seen (log ∷ logs) = do
  seen' ← check_log authority seen log
  check_logs authority seen' logs

unfoldable pub validate_logs : Record → Result JournalError (Unit {0})
unfolding check_logs
validate_logs r = do
  guard (leb (length r.logs) 1024 && not (not (is_empty r.logs) && is_empty r.phase_reports))
      invalid
  seen ← check_logs r.assignment.authority nothing_seen r.logs
  ok tt
