-- ===== src/Journal/Uploads.antt =====
-- The check of a record's outputs: `validate_outputs` of rust/worker/src/journal/uploads.rs and
-- `validate_parts` of rust/worker/src/journal/uploads/multipart.rs.
use distributed_execution.Base.{
  ℕ, Bool, true, not, ◌&&◌, ◌||◌, ◌==◌, ltb, leb, if◌then◌else◌, Option, none, some, List, [], ◌∷◌,
  is_empty, length, Bytes, bytes_eq, Result, ok, ◌>>=◌, ◌>>◌, guard, ok_or, map_err, pos, ℤ_eq,
  equals, option_eq, list_eq, integer_eq, is_in,
}
use distributed_execution.Control.{
  AttemptAuthority, authority_equality, canonical_uuid, lower_hash, ObjectVersion,
  CreateUploadRequest, CompletedPart, part_equality, FinalizeUploadRequest, FinalizeUploadResponse,
}
use distributed_execution.Upload.{
  validate_create, validate_finalization, validate_artifact, scoped_key, valid_etag,
}
use distributed_execution.Execution.{Output, Documents, from_assignment}
use distributed_execution.Journal.Records.{
  JournalError, invalid, OutputUpload, Record, last_phase, is_none,
}

-- An error of the client's checks makes the record invalid.
abbrev pub as_invalid : {E A : Type 0} → Result E A → Result JournalError A
as_invalid outcome = map_err (λ why. invalid) outcome

abbrev part_fits : CreateUploadRequest → (previous : ℕ) → CompletedPart → Bool
part_fits r previous part =
    ltb previous part.number
    && leb part.number r.part_count
    && lower_hash part.sha256
    && (is_empty part.etag || valid_etag part.etag)

unfoldable pub parts_ascend : CreateUploadRequest → (previous : ℕ) → List CompletedPart → Bool
parts_ascend r previous [] = true
parts_ascend r previous (part ∷ parts) =
    part_fits r previous part && parts_ascend r part.number parts

unfoldable pub validate_parts : OutputUpload → Result JournalError (Unit {0})
unfolding parts_ascend
validate_parts u = do
  guard
      (leb (length u.parts) u.declaration.part_count
        && not (u.declaration.part_count == 1 && not (is_empty u.parts)))
      invalid
  guard (parts_ascend u.declaration 0 u.parts) invalid

abbrev pub find_output : Bytes → List Output → Option Output
find_output name [] = none
find_output name (output ∷ outputs) =
    let later = find_output name outputs in if bytes_eq output.name name then some output else later

-- The sets of the loop: what was met before.
pub record Met : Type 0 where
  pub names : List Bytes
  pub requests : List Bytes
  pub uploads : List Bytes
  pub artifacts : List Bytes

abbrev pub nothing_met : Met
nothing_met = record { names = []; requests = []; uploads = []; artifacts = [] }

-- `!set.insert(key)` fails the check.
abbrev pub fresh_in : Bytes → List Bytes → Result JournalError (Unit {0})
fresh_in key met = guard (not (is_in key met)) invalid

-- The finalization belongs to the upload that was granted.
unfoldable pub finalizes :
    CreateUploadRequest
    → (upload_id object_key : Bytes) → FinalizeUploadRequest
    → ObjectVersion
    → Bool
finalizes r upload_id object_key finalize object =
    equals finalize.authority r.authority
    && bytes_eq finalize.upload_id upload_id
    && bytes_eq object.key object_key
    && object.size_bytes == r.size_bytes
    && bytes_eq object.sha256 r.sha256

-- The end of a pass: the answer to the finalization.
unfoldable pub check_artifact :
    Met → FinalizeUploadRequest → Option FinalizeUploadResponse → Result JournalError Met
check_artifact met finalize none = ok met
check_artifact met finalize (some answer) = do
  as_invalid (validate_artifact finalize answer)
  fresh_in answer.artifact_id met.artifacts
  ok (record met { artifacts = answer.artifact_id ∷ met.artifacts })

-- The parts of a finalization: none for one part, all that were recorded for several.
abbrev parts_finalized : OutputUpload → FinalizeUploadRequest → Bool
parts_finalized u finalize =
    not (u.declaration.part_count == 1 && not (is_empty finalize.parts))
    && (leb u.declaration.part_count 1
        || equals ⦃e = list_eq⦄ finalize.parts u.parts
          && length finalize.parts == u.declaration.part_count)

unfoldable pub check_output_finalization : Met → OutputUpload → Result JournalError Met
unfolding finalizes check_artifact
check_output_finalization met u = elim u.finalization [
  | none ↦ do guard (is_none u.response) invalid; ok met
  | some finalize ↦ do
    as_invalid (validate_finalization finalize)
    object ← ok_or finalize.object invalid
    guard
        (finalizes u.declaration u.upload_id u.object_key finalize object
          && parts_finalized u finalize)
        invalid
    fresh_in finalize.request_id met.requests
    check_artifact (record met { requests = finalize.request_id ∷ met.requests }) finalize
        u.response
]

-- The middle of a pass: the grant.
unfoldable pub check_output_grant : Met → OutputUpload → Result JournalError Met
unfolding check_output_finalization
check_output_grant met u =
    let granted = (do
      a ← ok_or u.declaration.authority invalid
      guard (canonical_uuid u.upload_id && scoped_key u.object_key a u.upload_id) invalid
      fresh_in u.upload_id met.uploads
      check_output_finalization (record met { uploads = u.upload_id ∷ met.uploads }) u) in
    if is_empty u.upload_id
    then guard
        (is_empty u.object_key && is_empty u.parts && is_none u.finalization && is_none u.response)
        invalid
      >> ok met
    else granted

-- One pass of the loop over the outputs.
unfoldable pub check_output :
    Option AttemptAuthority → List Output → Met → OutputUpload → Result JournalError Met
unfolding validate_parts check_output_grant
check_output authority declared met u = do
  as_invalid (validate_create u.declaration)
  validate_parts u
  output ← ok_or (find_output u.declaration.name declared) invalid
  guard
      (equals u.declaration.authority authority
        && ℤ_eq u.declaration.kind (pos 1)
        && leb u.declaration.size_bytes output.max_bytes)
      invalid
  fresh_in u.declaration.name met.names
  fresh_in u.declaration.request_id met.requests
  check_output_grant
      (record met {
        names = u.declaration.name ∷ met.names;
        requests = u.declaration.request_id ∷ met.requests;
      })
      u

unfoldable pub check_outputs :
    Option AttemptAuthority → List Output → Met → List OutputUpload → Result JournalError Met
unfolding check_output
check_outputs authority declared met [] = ok met
check_outputs authority declared met (u ∷ rest) = do
  met' ← check_output authority declared met u
  check_outputs authority declared met' rest

unfoldable pub validate_outputs : Documents → Record → Result JournalError (Unit {0})
unfolding check_outputs
validate_outputs d r =
    let checked = (do
      guard (leb (length r.outputs) 64 && equals (last_phase r.phase_reports) (some (pos 4)))
          invalid
      execution ← as_invalid (from_assignment d r.assignment)
      met ← check_outputs r.assignment.authority execution.job.spec.outputs nothing_met r.outputs
      ok tt) in
    if is_empty r.outputs then ok tt else checked
