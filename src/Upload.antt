-- ===== src/Upload.antt =====
-- rust/worker/src/control/uploads.rs: the checks of the uploads' requests and of their answers.
-- The transport's reply is an argument.
pub mod Plan
pub mod Scope
use distributed_execution.Base.{
  ℕ, zero, suc, ◌+◌, ◌-◌, ◌/◌, Bool, true, false, not, ◌&&◌, ◌||◌, ◌==◌, ltb, leb, if◌then◌else◌,
  [], ◌∷◌, List, Option, none, some, all, is_empty, length, Bytes, bytes_eq, ascii, Result, ok, err,
  ◌>>=◌, ◌>>◌, guard, ok_or, i64_max, ℤ, pos, negsuc, ℤ_eq, equals, option_eq,
}
use distributed_execution.Control.{
  AttemptAuthority, ClientError, configuration, response, canonical_uuid, lower_hash,
  is_alphanumeric, ArtifactKind, artifact_kind_unspecified, output, log, manifest,
  artifact_kind_code, artifact_kind_try_from, ObjectVersion, CreateUploadRequest,
  CreateUploadResponse, GrantUploadPartRequest, UploadPart, CompletedPart, FinalizeUploadRequest,
  FinalizeUploadResponse, object_equality,
}

unfoldable pub valid_authority : AttemptAuthority → Bool
valid_authority a =
    canonical_uuid a.job_id
    && canonical_uuid a.attempt_id
    && canonical_uuid a.worker_id
    && canonical_uuid a.session_id
    && ltb 0 a.generation
    && leb a.generation i64_max

-- `a.as_ref().is_some_and(valid_authority)`
abbrev pub has_authority : Option AttemptAuthority → Bool
has_authority none = false
has_authority (some a) = valid_authority a

abbrev is_printable : ℕ → Bool
is_printable b = leb 33 b && leb b 126

unfoldable pub valid_etag : Bytes → Bool
valid_etag value = not (is_empty value) && leb (length value) 1024 && all is_printable value

unfoldable pub valid_version : Bytes → Bool
valid_version version = not (bytes_eq version (ascii "null")) && valid_etag version

-- `key.split('/')`: the piece before the first slash is put in front of the others.
abbrev pub with_byte : ℕ → List Bytes → List Bytes
with_byte b [] = (b ∷ []) ∷ []
with_byte b (piece ∷ pieces) = (b ∷ piece) ∷ pieces

unfoldable pub split_slash : Bytes → List Bytes
split_slash [] = [] ∷ []
split_slash (b ∷ bs) =
    let pieces = split_slash bs in if b == b'/' then [] ∷ pieces else with_byte b pieces

abbrev key_pieces : List Bytes → AttemptAuthority → Bytes → Bool
key_pieces (p0 ∷ p1 ∷ p2 ∷ p3 ∷ p4 ∷ p5 ∷ p6 ∷ p7 ∷ []) a upload =
    bytes_eq p0 (ascii "projects")
    && canonical_uuid p1
    && bytes_eq p2 (ascii "jobs")
    && bytes_eq p3 a.job_id
    && bytes_eq p4 (ascii "attempts")
    && bytes_eq p5 a.attempt_id
    && bytes_eq p6 (ascii "uploads")
    && bytes_eq p7 upload
key_pieces _ a upload = false

unfoldable pub scoped_key : Bytes → AttemptAuthority → Bytes → Bool
unfolding split_slash
scoped_key key a upload = key_pieces (split_slash key) a upload

-- `5 << 20` and `64 << 20`
abbrev pub least_part : ℕ
least_part = 5_242_880

abbrev pub most_bytes : ℕ
most_bytes = 67_108_864

unfoldable pub valid_part_plan : CreateUploadRequest → Bool
valid_part_plan r =
    if r.part_count == 1
    then r.part_size_bytes == 0
    else ℤ_eq r.kind (pos (artifact_kind_code output))
      && (leb 2 r.part_count && leb r.part_count 10_000)
      && ltb 0 r.size_bytes
      && (leb least_part r.part_size_bytes && leb r.part_size_bytes most_bytes)
      && r.part_count == 1 + (r.size_bytes - 1) / r.part_size_bytes

-- `b._-` of a name's bytes.
abbrev is_name_byte : ℕ → Bool
is_name_byte b = is_alphanumeric b || b == b'.' || b == b'_' || b == b'-'

abbrev starts_with_alphanumeric : Bytes → Bool
starts_with_alphanumeric [] = false
starts_with_alphanumeric (b ∷ bs) = is_alphanumeric b

unfoldable pub valid_name : Bytes → Bool
valid_name name = leb (length name) 128 && starts_with_alphanumeric name && all is_name_byte name

abbrev is_artifact_kind : Option ArtifactKind → Bool
is_artifact_kind (some output) = true
is_artifact_kind (some log) = true
is_artifact_kind (some manifest) = true
is_artifact_kind _ = false

unfoldable pub validate_create : CreateUploadRequest → Result ClientError (Unit {0})
validate_create r =
    guard
      (has_authority r.authority
        && canonical_uuid r.request_id
        && is_artifact_kind (artifact_kind_try_from r.kind)
        && valid_part_plan r
        && leb r.size_bytes most_bytes
        && lower_hash r.sha256
        && valid_name r.name)
      configuration

abbrev headers_length : List (Bytes × Bytes) → ℕ
headers_length [] = 0
headers_length ((k, v) ∷ headers) = length k + length v + headers_length headers

abbrev is_positive : ℤ → Bool
is_positive (pos n) = ltb 0 n
is_positive (negsuc n) = false

-- A signed URL with its headers: `16 << 10` and `64 << 10` bytes.
unfoldable pub bounded_capability : Bytes → List (Bytes × Bytes) → ℤ → Bool
bounded_capability url headers expires =
    not (is_empty url)
    && leb (length url) 16_384
    && leb (length headers) 64
    && is_positive expires
    && leb (headers_length headers) 65_536

-- A grant of several parts has no capability of its own and repeats the plan; any other grant is
-- one capability.
unfoldable pub grants_plan : CreateUploadRequest → CreateUploadResponse → Bool
grants_plan r g =
    if ltb 1 r.part_count
    then is_empty g.upload_url
      && is_empty g.required_headers
      && ℤ_eq g.expires_unix_ms (pos 0)
      && g.part_count == r.part_count
      && g.part_size_bytes == r.part_size_bytes
    else g.part_count == 0
      && g.part_size_bytes == 0
      && bounded_capability g.upload_url g.required_headers g.expires_unix_ms

unfoldable pub validate_grant :
    CreateUploadRequest → CreateUploadResponse → Result ClientError (Unit {0})
validate_grant r g = do
  a ← ok_or r.authority configuration
  guard (canonical_uuid g.upload_id && scoped_key g.object_key a g.upload_id && is_empty g.parts)
      response
  guard (grants_plan r g) response

-- Part `n`, counted from zero, and those after it.
unfoldable pub numbered_parts : ℕ → List CompletedPart → Bool
numbered_parts n [] = true
numbered_parts n (p ∷ ps) =
    p.number == n + 1 && valid_etag p.etag && lower_hash p.sha256 && numbered_parts (n + 1) ps

unfoldable pub valid_completion_parts : FinalizeUploadRequest → Bool
unfolding numbered_parts
valid_completion_parts r =
    is_empty r.parts
    || leb 2 (length r.parts) && leb (length r.parts) 10_000 && numbered_parts 0 r.parts

-- `a.as_ref().filter(valid_authority)`
abbrev checked_authority : Option AttemptAuthority → Option AttemptAuthority
checked_authority none = none
checked_authority (some a) = if valid_authority a then some a else none

unfoldable pub validate_finalization : FinalizeUploadRequest → Result ClientError (Unit {0})
validate_finalization r = do
  a ← ok_or (checked_authority r.authority) configuration
  o ← ok_or r.object configuration
  guard
      (canonical_uuid r.request_id
        && canonical_uuid r.upload_id
        && valid_completion_parts r
        && scoped_key o.key a r.upload_id
        && leb o.size_bytes most_bytes
        && lower_hash o.sha256
        && (if is_empty r.parts then valid_version o.version_id else is_empty o.version_id))
      configuration

-- The object that a multipart upload was completed to: its version is the server's.
abbrev same_object : Option ObjectVersion → Option ObjectVersion → Bool
same_object (some actual) (some expected) =
    bytes_eq actual.key expected.key
    && actual.size_bytes == expected.size_bytes
    && bytes_eq actual.sha256 expected.sha256
    && valid_version actual.version_id
same_object _ _ = false

unfoldable pub artifact_matches : FinalizeUploadRequest → FinalizeUploadResponse → Bool
artifact_matches r answer =
    if is_empty r.parts then equals answer.object r.object else same_object answer.object r.object

unfoldable pub validate_artifact :
    FinalizeUploadRequest → FinalizeUploadResponse → Result ClientError (Unit {0})
unfolding artifact_matches
validate_artifact r answer =
    guard (canonical_uuid answer.artifact_id && artifact_matches r answer) response

unfoldable pub validate_part_request : GrantUploadPartRequest → Result ClientError (Unit {0})
validate_part_request r =
    guard
      (has_authority r.authority
        && canonical_uuid r.upload_id
        && (leb 1 r.number && leb r.number 10_000)
        && lower_hash r.sha256)
      configuration

unfoldable pub validate_part_grant :
    GrantUploadPartRequest → UploadPart → Result ClientError (Unit {0})
validate_part_grant r g =
    guard (g.number == r.number && bounded_capability g.url g.required_headers g.expires_unix_ms)
      response

-- `reply` is what the call gives, an error of the transport or of its timeout included.
unfoldable pub create_upload :
    CreateUploadRequest
    → Result ClientError CreateUploadResponse
    → Result ClientError CreateUploadResponse
unfolding validate_create validate_grant
create_upload r reply = do validate_create r; g ← reply; validate_grant r g; ok g

unfoldable pub finalize_upload :
    FinalizeUploadRequest
    → Result ClientError FinalizeUploadResponse
    → Result ClientError FinalizeUploadResponse
unfolding validate_finalization validate_artifact
finalize_upload r reply = do validate_finalization r; g ← reply; validate_artifact r g; ok g

unfoldable pub grant_upload_part :
    GrantUploadPartRequest → Result ClientError UploadPart → Result ClientError UploadPart
unfolding validate_part_request validate_part_grant
grant_upload_part r reply = do validate_part_request r; g ← reply; validate_part_grant r g; ok g
