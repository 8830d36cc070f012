-- ===== src/Journal/Outputs.antt =====
-- The operations of rust/worker/src/journal/uploads.rs and journal/uploads/multipart.rs on the
-- uploads of an attempt's outputs. `fill` are the random bytes that an operation draws.
use distributed_execution.Base.{
  ℕ, ◌+◌, ◌-◌, ◌/◌, Bool, ◌&&◌, ◌==◌, ltb, leb, if◌then◌else◌, Option, none, some, List, [], ◌∷◌,
  ◌++◌, find, set_found, is_empty, length, Bytes, bytes_eq, Result, ok, ◌>>=◌, ◌>>◌, guard, ok_or,
  pos, equals, option_eq,
}
use distributed_execution.Control.{
  authority_equality, ObjectVersion, object_equality, CreateUploadRequest, declaration_equality,
  CreateUploadResponse, CompletedPart, GrantUploadPartRequest, FinalizeUploadRequest,
  finalization_equality, FinalizeUploadResponse, artifact_equality,
}
use distributed_execution.Upload.{
  validate_grant, validate_artifact, validate_finalization, validate_part_request, valid_etag,
}
use distributed_execution.Journal.Records.{
  JournalError, invalid, conflict, OutputUpload, Record, Texts, is_none,
}
use distributed_execution.Journal.Uploads.{as_invalid}
use distributed_execution.Journal.Ids.{new_uuid}
use distributed_execution.Journal.Store.{
  Change, keep, replace_by, Directory, Wire, Journal, update_record,
}
use distributed_execution.Journal.Attempts.{done, same_or_conflict, if_ok}

-- An item that is saved already answers with its request if it is the very same.
abbrev pub kept_if : {A : Type 0} → Bool → A → Result JournalError (Change A)
kept_if same a = do guard same conflict; ok (keep a)

-- The record with the upload assigned that `test` finds.
abbrev pub with_output : (OutputUpload → Bool) → OutputUpload → Record → Record
with_output test u r = record r { outputs = set_found test u r.outputs }

abbrev pub named : Bytes → OutputUpload → Bool
named name u = bytes_eq u.declaration.name name

abbrev pub requested_output : Bytes → OutputUpload → Bool
requested_output request_id u = bytes_eq u.declaration.request_id request_id

abbrev pub declared : CreateUploadRequest → OutputUpload → Bool
declared request u = equals u.declaration request

abbrev pub finalized : FinalizeUploadRequest → OutputUpload → Bool
finalized request u = equals u.finalization (some request)

-- `1 + size.saturating_sub(1) / part_size`
unfoldable pub planned_parts : (size part_size : ℕ) → ℕ
planned_parts size part_size = if part_size == 0 then 1 else 1 + (size - 1) / part_size

abbrev pub output_declaration :
    Record → (request_id name sha256 : Bytes) → (size count part_size : ℕ) → CreateUploadRequest
output_declaration r request_id name sha256 size count part_size = record {
  authority = r.assignment.authority;
  request_id = request_id;
  name = name;
  kind = pos 1;
  size_bytes = size;
  sha256 = sha256;
  part_count = count;
  part_size_bytes = part_size;
}

abbrev pub new_output : CreateUploadRequest → OutputUpload
new_output request = record {
  declaration = request;
  upload_id = [];
  object_key = [];
  finalization = none;
  response = none;
  parts = [];
}

unfoldable pub prepare_output_change :
    (name sha256 : Bytes)
    → (size count part_size : ℕ) → Option Bytes
    → Record
    → Result JournalError (Change CreateUploadRequest)
prepare_output_change name sha256 size count part_size fill r = elim (find (named name) r.outputs) [
  | some saved ↦
      kept_if
        (saved.declaration.size_bytes == size
          && bytes_eq saved.declaration.sha256 sha256
          && saved.declaration.part_size_bytes == part_size
          && saved.declaration.part_count == count)
        saved.declaration
  | none ↦ do
    guard (is_none r.completion) conflict
    request_id ← new_uuid fill
    let request = output_declaration r request_id name sha256 size count part_size
    ok (replace_by request (record r { outputs = r.outputs ++ (new_output request ∷ []) }))
]

abbrev pub granted_output : OutputUpload → CreateUploadResponse → OutputUpload
granted_output u grant = record u { upload_id = grant.upload_id; object_key = grant.object_key }

unfoldable pub output_grant_change :
    CreateUploadRequest → CreateUploadResponse → Record → Result JournalError (Change (Unit {0}))
output_grant_change request grant r = do
  saved ← ok_or (find (declared request) r.outputs) conflict
  let granted = (do
    guard (is_none r.completion) conflict
    ok (replace_by done (with_output (declared request) (granted_output saved grant) r)))
  if is_empty saved.upload_id
      then granted
      else same_or_conflict
          (bytes_eq saved.upload_id grant.upload_id && bytes_eq saved.object_key grant.object_key)

abbrev pub output_finalization : OutputUpload → Bytes → ObjectVersion → FinalizeUploadRequest
output_finalization u request_id object = record {
  authority = u.declaration.authority;
  request_id = request_id;
  upload_id = u.upload_id;
  object = some object;
  parts = [];
}

abbrev pub finalized_by : OutputUpload → FinalizeUploadRequest → OutputUpload
finalized_by u request = record u { finalization = some request }

unfoldable pub output_finalization_change :
    (request_id : Bytes)
    → ObjectVersion
    → Option Bytes
    → Record
    → Result JournalError (Change FinalizeUploadRequest)
output_finalization_change request_id object fill r = do
  saved ← ok_or (find (requested_output request_id) r.outputs) invalid
  elim saved.finalization [
    | some request ↦ kept_if (equals request.object (some object)) request
    | none ↦ do
      guard (is_none r.completion) conflict
      fresh ← new_uuid fill
      let request = output_finalization saved fresh object
      ok (
          replace_by request
            (with_output (requested_output request_id) (finalized_by saved request) r))
  ]

abbrev pub answered_output : OutputUpload → FinalizeUploadResponse → OutputUpload
answered_output u answer = record u { response = some answer }

unfoldable pub output_response_change :
    FinalizeUploadRequest
    → FinalizeUploadResponse
    → Record
    → Result JournalError (Change (Unit {0}))
output_response_change request answer r = do
  saved ← ok_or (find (finalized request) r.outputs) conflict
  as_invalid (validate_artifact request answer)
  elim saved.response [
    | some old ↦ same_or_conflict (equals old answer)
    | none ↦ ok (replace_by done (with_output (finalized request) (answered_output saved answer) r))
  ]

abbrev pub is_numbered : ℕ → CompletedPart → Bool
is_numbered number part = part.number == number

-- `insert` at the index of a binary search, in parts that ascend by their numbers.
unfoldable pub insert_part : CompletedPart → List CompletedPart → List CompletedPart
insert_part part [] = part ∷ []
insert_part part (p ∷ ps) =
    let rest = insert_part part ps in if ltb part.number p.number then part ∷ p ∷ ps else p ∷ rest

abbrev pub part_request : OutputUpload → ℕ → Bytes → GrantUploadPartRequest
part_request u number sha256 = record {
  authority = u.declaration.authority;
  upload_id = u.upload_id;
  number = number;
  sha256 = sha256;
}

abbrev pub with_part : OutputUpload → ℕ → Bytes → OutputUpload
with_part u number sha256 = record u {
  parts = insert_part (record { number = number; etag = []; sha256 = sha256 }) u.parts;
}

unfoldable pub output_part_change :
    (request_id : Bytes)
    → ℕ
    → (sha256 : Bytes) → Record
    → Result JournalError (Change GrantUploadPartRequest)
unfolding insert_part
output_part_change request_id number sha256 r = do
  saved ← ok_or (find (requested_output request_id) r.outputs) invalid
  let request = part_request saved number sha256
  as_invalid (validate_part_request request)
  guard (leb 2 saved.declaration.part_count && leb number saved.declaration.part_count) invalid
  elim (find (is_numbered number) saved.parts) [
    | some part ↦ kept_if (bytes_eq part.sha256 sha256) request
    | none ↦ do
      guard (is_none r.completion && is_none saved.finalization) conflict
      ok (
          replace_by request
            (with_output (requested_output request_id) (with_part saved number sha256) r))
  ]

abbrev pub of_upload : GrantUploadPartRequest → OutputUpload → Bool
of_upload request u =
    bytes_eq u.upload_id request.upload_id && equals u.declaration.authority request.authority

abbrev pub is_part : GrantUploadPartRequest → CompletedPart → Bool
is_part request part = part.number == request.number && bytes_eq part.sha256 request.sha256

abbrev pub with_etag : GrantUploadPartRequest → OutputUpload → CompletedPart → Bytes → OutputUpload
with_etag request u part etag = record u {
  parts = set_found (is_part request) (record part { etag = etag }) u.parts;
}

unfoldable pub recorded_part_change :
    GrantUploadPartRequest → (etag : Bytes) → Record → Result JournalError (Change (Unit {0}))
recorded_part_change request etag r = do
  saved ← ok_or (find (of_upload request) r.outputs) conflict
  part ← ok_or (find (is_part request) saved.parts) conflict
  let recorded = (do
    guard (is_none r.completion && is_none saved.finalization) conflict
    ok (replace_by done (with_output (of_upload request) (with_etag request saved part etag) r)))
  if is_empty part.etag then recorded else same_or_conflict (bytes_eq part.etag etag)

abbrev pub multipart_finalization : OutputUpload → Bytes → FinalizeUploadRequest
multipart_finalization u request_id = record {
  authority = u.declaration.authority;
  request_id = request_id;
  upload_id = u.upload_id;
  object = some (record {
    key = u.object_key;
    version_id = [];
    size_bytes = u.declaration.size_bytes;
    sha256 = u.declaration.sha256;
  });
  parts = u.parts;
}

unfoldable pub multipart_finalization_change :
    (request_id : Bytes)
    → Option Bytes
    → Record
    → Result JournalError (Change FinalizeUploadRequest)
multipart_finalization_change request_id fill r = do
  saved ← ok_or (find (requested_output request_id) r.outputs) invalid
  guard (leb 2 saved.declaration.part_count) invalid
  elim saved.finalization [
    | some request ↦ ok (keep request)
    | none ↦ do
      guard (is_none r.completion && length saved.parts == saved.declaration.part_count) conflict
      fresh ← new_uuid fill
      let request = multipart_finalization saved fresh
      as_invalid (validate_finalization request)
      ok (
          replace_by request
            (with_output (requested_output request_id) (finalized_by saved request) r))
  ]

module _ (t : Texts) (w : Wire) (d : Directory w.Encoded) where
  unfoldable pub prepare_output_plan :
      Journal t w d
      → (id name sha256 : Bytes) → (size part_size : ℕ) → Option Bytes
      → Result JournalError CreateUploadRequest × Journal t w d
  unfolding prepare_output_change planned_parts
  prepare_output_plan j id name sha256 size part_size fill =
      if_ok t w d j (guard (leb (planned_parts size part_size) 4_294_967_295) invalid) (λ counted.
        update_record t w d j id
          (prepare_output_change name sha256 size (planned_parts size part_size) part_size fill))

  unfoldable pub prepare_output :
      Journal t w d
      → (id name sha256 : Bytes) → (size : ℕ) → Option Bytes
      → Result JournalError CreateUploadRequest × Journal t w d
  unfolding prepare_output_plan
  prepare_output j id name sha256 size fill = prepare_output_plan j id name sha256 size 0 fill

  unfoldable pub record_output_grant :
      Journal t w d
      → CreateUploadRequest
      → CreateUploadResponse
      → Result JournalError (Unit {0}) × Journal t w d
  unfolding output_grant_change
  record_output_grant j request grant =
      if_ok t w d j (as_invalid (validate_grant request grant)) (λ valid.
        if_ok t w d j (ok_or request.authority invalid)
          (λ a. update_record t w d j a.attempt_id (output_grant_change request grant)))

  unfoldable pub prepare_output_finalization :
      Journal t w d
      → (id request_id : Bytes) → ObjectVersion
      → Option Bytes
      → Result JournalError FinalizeUploadRequest × Journal t w d
  unfolding output_finalization_change
  prepare_output_finalization j id request_id object fill =
      update_record t w d j id (output_finalization_change request_id object fill)

  unfoldable pub record_output_response :
      Journal t w d
      → FinalizeUploadRequest
      → FinalizeUploadResponse
      → Result JournalError (Unit {0}) × Journal t w d
  unfolding output_response_change
  record_output_response j request answer =
      if_ok t w d j (ok_or request.authority invalid)
        (λ a. update_record t w d j a.attempt_id (output_response_change request answer))

  unfoldable pub prepare_output_part :
      Journal t w d
      → (id request_id : Bytes) → ℕ
      → (sha256 : Bytes) → Result JournalError GrantUploadPartRequest × Journal t w d
  unfolding output_part_change
  prepare_output_part j id request_id number sha256 =
      update_record t w d j id (output_part_change request_id number sha256)

  unfoldable pub record_output_part :
      Journal t w d
      → GrantUploadPartRequest
      → (etag : Bytes) → Result JournalError (Unit {0}) × Journal t w d
  unfolding recorded_part_change
  record_output_part j request etag =
      if_ok t w d j (as_invalid (validate_part_request request)) (λ valid.
        if_ok t w d j (guard (valid_etag etag) invalid) (λ tagged.
          if_ok t w d j (ok_or request.authority invalid)
            (λ a. update_record t w d j a.attempt_id (recorded_part_change request etag))))

  unfoldable pub prepare_multipart_finalization :
      Journal t w d
      → (id request_id : Bytes) → Option Bytes
      → Result JournalError FinalizeUploadRequest × Journal t w d
  unfolding multipart_finalization_change
  prepare_multipart_finalization j id request_id fill =
      update_record t w d j id (multipart_finalization_change request_id fill)
