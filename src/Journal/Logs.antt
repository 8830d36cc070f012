-- ===== src/Journal/Logs.antt =====
-- The operations of rust/worker/src/journal/logs.rs on the segments of an attempt's log. `fill` are
-- the random bytes that an operation draws.
use distributed_execution.Base.{
  ℕ, Bool, true, false, not, ◌&&◌, ◌||◌, ◌==◌, ltb, leb, if◌then◌else◌, Option, none, some, List,
  [], ◌∷◌, ◌++◌, find, find_last, set_found, is_empty, length, Bytes, bytes_eq, ascii, Result, ok,
  err, ◌>>=◌, ◌>>◌, guard, ok_or, ℤ, pos, ℤ_eq, equals, option_eq, list_eq, checked_add, nat_eq,
}
use distributed_execution.Control.{
  LogStream, log_stream_unspecified, stdout, stderr, stream_code, LogGap, gap_equality, Decision,
  decision_unspecified, accepted, fenced, stop_requested, already_terminal,
  RegisterLogSegmentRequest, registration_equality, ObjectVersion, object_equality,
  CreateUploadRequest, declaration_equality, CreateUploadResponse, FinalizeUploadRequest,
  finalization_equality, FinalizeUploadResponse, artifact_equality,
}
use distributed_execution.Phase.{AttemptState, starting, running, finalizing}
use distributed_execution.Phase.Progress.{number}
use distributed_execution.Upload.{
  validate_create, validate_grant, validate_artifact, validate_finalization,
}
use distributed_execution.Registration.{validate_request, validate_response}
use distributed_execution.Journal.Records.{
  JournalError, invalid, conflict, LogUpload, Record, Texts, is_none, last_phase,
}
use distributed_execution.Journal.Uploads.{as_invalid}
use distributed_execution.Journal.Segments.{probe}
use distributed_execution.Journal.Ids.{new_uuid}
use distributed_execution.Journal.Store.{
  Change, keep, replace_by, Directory, Wire, Journal, update_record,
}
use distributed_execution.Journal.Attempts.{done, same_or_conflict, if_ok}
use distributed_execution.Journal.Outputs.{kept_if}

-- The record with the segment assigned that `test` finds.
abbrev pub with_log : (LogUpload → Bool) → LogUpload → Record → Record
with_log test l r = record r { logs = set_found test l r.logs }

-- What `prepare_log` is given of a segment.
pub record LogSegment : Type 0 where
  pub stream : LogStream
  pub first : ℕ
  pub last : ℕ
  pub gaps : List LogGap
  pub size : ℕ
  pub sha256 : Bytes

abbrev pub of_stream : LogStream → LogUpload → Bool
of_stream stream l = l.stream == stream_code stream

abbrev pub starts_at : LogSegment → LogUpload → Bool
starts_at s l = of_stream s.stream l && l.first_sequence == s.first

unfoldable pub same_segment : LogSegment → LogUpload → Bool
same_segment s l =
    l.last_sequence == s.last
    && equals ⦃e = list_eq⦄ l.gaps s.gaps
    && l.declaration.size_bytes == s.size
    && bytes_eq l.declaration.sha256 s.sha256

abbrev pub collects : Option ℤ → Bool
collects none = false
collects (some phase) =
    ℤ_eq phase (pos (number starting))
    || ℤ_eq phase (pos (number running))
    || ℤ_eq phase (pos (number finalizing))

abbrev pub follows : Option LogUpload → ℕ → Bool
follows none first = first == 1
follows (some previous) first =
    previous.registered
    && equals ⦃e = option_eq ⦃e = nat_eq⦄⦄ (checked_add previous.last_sequence 1) (some first)

-- The refusals before a segment is declared.
unfoldable pub may_declare : LogSegment → Record → Bool
may_declare s r =
    is_none r.completion
    && ltb (length r.logs) 1024
    && collects (last_phase r.phase_reports)
    && follows (find_last (of_stream s.stream) r.logs) s.first
    && not (s.size == 0)
    && leb s.size 1_048_576

abbrev pub file_name : LogStream → Result JournalError Bytes
file_name stdout = ok (ascii "stdout")
file_name stderr = ok (ascii "stderr")
file_name log_stream_unspecified = err invalid

abbrev pub segment_declaration :
    Record → LogSegment → (request_id name : Bytes) → CreateUploadRequest
segment_declaration r s request_id name = record {
  authority = r.assignment.authority;
  request_id = request_id;
  name = name;
  kind = pos 2;
  size_bytes = s.size;
  sha256 = s.sha256;
  part_count = 1;
  part_size_bytes = 0;
}

abbrev pub new_log : LogSegment → CreateUploadRequest → LogUpload
new_log s request = record {
  declaration = request;
  stream = stream_code s.stream;
  first_sequence = s.first;
  last_sequence = s.last;
  gaps = s.gaps;
  upload_id = [];
  object_key = [];
  finalization = none;
  response = none;
  registration = none;
  registered = false;
}

unfoldable pub prepare_log_change :
    LogSegment → Option Bytes → Record → Result JournalError (Change CreateUploadRequest)
unfolding same_segment may_declare
prepare_log_change s fill r = elim (find (starts_at s) r.logs) [
  | some saved ↦ kept_if (same_segment s saved) saved.declaration
  | none ↦ do
    guard (may_declare s r) invalid
    request_id ← new_uuid fill
    name ← file_name s.stream
    let request = segment_declaration r s request_id name
    as_invalid (validate_create request)
    as_invalid (validate_request (probe (new_log s request)))
    ok (replace_by request (record r { logs = r.logs ++ (new_log s request ∷ []) }))
]

abbrev pub declared_log : CreateUploadRequest → LogUpload → Bool
declared_log request l = equals l.declaration request

abbrev pub granted_log : LogUpload → CreateUploadResponse → LogUpload
granted_log l grant = record l { upload_id = grant.upload_id; object_key = grant.object_key }

unfoldable pub log_grant_change :
    CreateUploadRequest → CreateUploadResponse → Record → Result JournalError (Change (Unit {0}))
log_grant_change request grant r = do
  saved ← ok_or (find (declared_log request) r.logs) conflict
  let granted = (do
    guard (is_none r.completion) conflict
    ok (replace_by done (with_log (declared_log request) (granted_log saved grant) r)))
  if is_empty saved.upload_id
      then granted
      else same_or_conflict
          (bytes_eq saved.upload_id grant.upload_id && bytes_eq saved.object_key grant.object_key)

abbrev pub requested_log : Bytes → LogUpload → Bool
requested_log request_id l = bytes_eq l.declaration.request_id request_id

-- The object is the one that was declared and granted.
unfoldable pub grants_object : LogUpload → ObjectVersion → Bool
grants_object l object =
    not (is_empty l.upload_id)
    && bytes_eq object.key l.object_key
    && object.size_bytes == l.declaration.size_bytes
    && bytes_eq object.sha256 l.declaration.sha256

abbrev pub log_finalization : LogUpload → Bytes → ObjectVersion → FinalizeUploadRequest
log_finalization l request_id object = record {
  authority = l.declaration.authority;
  request_id = request_id;
  upload_id = l.upload_id;
  object = some object;
  parts = [];
}

abbrev pub log_finalized_by : LogUpload → FinalizeUploadRequest → LogUpload
log_finalized_by l request = record l { finalization = some request }

unfoldable pub log_finalization_change :
    (request_id : Bytes)
    → ObjectVersion
    → Option Bytes
    → Record
    → Result JournalError (Change FinalizeUploadRequest)
unfolding grants_object
log_finalization_change request_id object fill r = do
  saved ← ok_or (find (requested_log request_id) r.logs) invalid
  elim saved.finalization [
    | some request ↦ kept_if (equals request.object (some object)) request
    | none ↦ do
      guard (is_none r.completion && grants_object saved object) conflict
      fresh ← new_uuid fill
      let request = log_finalization saved fresh object
      as_invalid (validate_finalization request)
      ok (
          replace_by request
            (with_log (requested_log request_id) (log_finalized_by saved request) r))
  ]

abbrev pub finalized_log : FinalizeUploadRequest → LogUpload → Bool
finalized_log request l = equals l.finalization (some request)

abbrev pub answered_log : LogUpload → FinalizeUploadResponse → LogUpload
answered_log l answer = record l { response = some answer }

unfoldable pub log_response_change :
    FinalizeUploadRequest
    → FinalizeUploadResponse
    → Record
    → Result JournalError (Change (Unit {0}))
log_response_change request answer r = do
  saved ← ok_or (find (finalized_log request) r.logs) conflict
  elim saved.response [
    | some old ↦ same_or_conflict (equals old answer)
    | none ↦ ok (replace_by done (with_log (finalized_log request) (answered_log saved answer) r))
  ]

abbrev pub log_registration :
    LogUpload → (request_id artifact_id : Bytes) → RegisterLogSegmentRequest
log_registration l request_id artifact_id = record {
  authority = l.declaration.authority;
  request_id = request_id;
  artifact_id = artifact_id;
  stream = l.stream;
  first_sequence = l.first_sequence;
  last_sequence = l.last_sequence;
  gaps = l.gaps;
}

abbrev pub log_registering : LogUpload → RegisterLogSegmentRequest → LogUpload
log_registering l request = record l { registration = some request }

unfoldable pub log_registration_change :
    (request_id : Bytes)
    → Option Bytes
    → Record
    → Result JournalError (Change RegisterLogSegmentRequest)
log_registration_change request_id fill r = do
  saved ← ok_or (find (requested_log request_id) r.logs) invalid
  elim saved.registration [
    | some request ↦ ok (keep request)
    | none ↦ do
      guard (is_none r.completion) conflict
      answer ← ok_or saved.response conflict
      fresh ← new_uuid fill
      let request = log_registration saved fresh answer.artifact_id
      as_invalid (validate_request request)
      ok (
          replace_by request
            (with_log (requested_log request_id) (log_registering saved request) r))
  ]

abbrev pub registering_log : RegisterLogSegmentRequest → LogUpload → Bool
registering_log request l = equals l.registration (some request)

abbrev pub log_registered : LogUpload → LogUpload
log_registered l = record l { registered = true }

unfoldable pub log_registered_change :
    RegisterLogSegmentRequest → Record → Result JournalError (Change (Unit {0}))
log_registered_change request r = do
  saved ← ok_or (find (registering_log request) r.logs) conflict
  if saved.registered
      then ok (keep done)
      else ok (replace_by done (with_log (registering_log request) (log_registered saved) r))

-- `decision as i32`
abbrev pub decision_number : Decision → ℕ
decision_number decision_unspecified = 0
decision_number accepted = 1
decision_number fenced = 2
decision_number stop_requested = 3
decision_number already_terminal = 4

abbrev pub is_accepted : Decision → Bool
is_accepted accepted = true
is_accepted _ = false

module _ (t : Texts) (w : Wire) (d : Directory w.Encoded) where
  unfoldable pub prepare_log :
      Journal t w d
      → Bytes
      → LogSegment
      → Option Bytes
      → Result JournalError CreateUploadRequest × Journal t w d
  unfolding prepare_log_change
  prepare_log j id segment fill = update_record t w d j id (prepare_log_change segment fill)

  unfoldable pub record_log_grant :
      Journal t w d
      → CreateUploadRequest
      → CreateUploadResponse
      → Result JournalError (Unit {0}) × Journal t w d
  unfolding log_grant_change
  record_log_grant j request grant =
      if_ok t w d j (as_invalid (validate_grant request grant)) (λ valid.
        if_ok t w d j (ok_or request.authority invalid)
          (λ a. update_record t w d j a.attempt_id (log_grant_change request grant)))

  unfoldable pub prepare_log_finalization :
      Journal t w d
      → (id request_id : Bytes) → ObjectVersion
      → Option Bytes
      → Result JournalError FinalizeUploadRequest × Journal t w d
  unfolding log_finalization_change
  prepare_log_finalization j id request_id object fill =
      update_record t w d j id (log_finalization_change request_id object fill)

  unfoldable pub record_log_response :
      Journal t w d
      → FinalizeUploadRequest
      → FinalizeUploadResponse
      → Result JournalError (Unit {0}) × Journal t w d
  unfolding log_response_change
  record_log_response j request answer =
      if_ok t w d j (as_invalid (validate_artifact request answer)) (λ valid.
        if_ok t w d j (ok_or request.authority invalid)
          (λ a. update_record t w d j a.attempt_id (log_response_change request answer)))

  unfoldable pub prepare_log_registration :
      Journal t w d
      → (id request_id : Bytes) → Option Bytes
      → Result JournalError RegisterLogSegmentRequest × Journal t w d
  unfolding log_registration_change
  prepare_log_registration j id request_id fill =
      update_record t w d j id (log_registration_change request_id fill)

  unfoldable pub record_log_registration :
      Journal t w d
      → RegisterLogSegmentRequest
      → Decision
      → AttemptState
      → Result JournalError (Unit {0}) × Journal t w d
  unfolding log_registered_change
  record_log_registration j request decision state =
      if_ok t w d j
        (as_invalid (
          validate_response request
            (record { decision = pos (decision_number decision); state = pos (number state) })))
        (λ valid. if_ok t w d j (guard (is_accepted decision) conflict) (λ kept.
          if_ok t w d j (ok_or request.authority invalid)
            (λ a. update_record t w d j a.attempt_id (log_registered_change request))))
