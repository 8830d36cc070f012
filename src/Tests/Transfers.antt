-- ===== src/Tests/Transfers.antt =====
-- An output in two parts, a log segment with a gap, a completion and its manifest.
use distributed_execution.Base.{
  Eq, by_fields, ◌⊗◌, bytes_equality, nat_eq, option_eq, list_eq, flag_eq, integer_eq, equals, Bool,
  ◌≡◌, ◌≤◌, refl, ℕ, true, false, Option, none, some, [], ◌∷◌, ◌++◌, Bytes, bytes_eq, ascii, ok,
  pos, i64_max, All, arith,
}
use distributed_execution.Control.{
  authority_equality, reference_equality, canonical_uuid, CreateUploadRequest,
  RegisterLogSegmentRequest, CompleteAttemptRequest, CompleteAttemptResponse, authority_eq,
  accepted, OutputReference,
}
use distributed_execution.Phase.{succeeded}
use distributed_execution.Upload.{
  validate_create, valid_authority, valid_part_plan, valid_name, least_part, most_bytes, scoped_key,
}
use distributed_execution.Upload.Plan.{validate_create-Covers, Covers}
use distributed_execution.Upload.Scope.{scoped_key-one_upload, joined, key_of}
use distributed_execution.Registration as Registration
use distributed_execution.Registration.Captured.{validate_request-Ascends, Ascends, Outside}
use distributed_execution.Evidence.{Encoding, Gap, Payload}
use distributed_execution.Completion.{complete_attempt, Manifest, CompletionStatus}
use distributed_execution.Completion.Acknowledged.{complete_attempt-Acknowledges, Acknowledges}
use distributed_execution.Tests.Samples.{uuid, identity}

abbrev hash : Bytes
hash = ascii "0123456789abcdef0123456789abcdef0123456789abcdef0123456789abcdef"

abbrev declaration : CreateUploadRequest
declaration = record {
  authority = some identity;
  request_id = uuid;
  name = ascii "result";
  kind = pos 1;
  size_bytes = 5_242_883;
  sha256 = hash;
  part_count = 2;
  part_size_bytes = 5_242_880;
}

validate_create-Covers_example :
    (pos 1 ≡ pos 1)
    × (2 ≤ 2)
    × (2 ≤ 13)
    × (least_part ≤ 5_242_880)
    × (5_242_880 ≤ most_bytes)
    × (5_242_883 ≤ most_bytes)
    × Covers 2 5_242_880 5_242_883
unfolding validate_create canonical_uuid valid_authority valid_part_plan valid_name
validate_create-Covers_example = validate_create-Covers declaration refl (omega arith)

abbrev pub key : Bytes
key =
    ascii "projects/00000000-0000-0000-0000-000000000007/jobs/"
    ++ (uuid ++ (ascii "/attempts/" ++ (uuid ++ (ascii "/uploads/" ++ uuid))))

scoped_key-one_upload_example :
    ((project : Bytes) × (canonical_uuid project ≡ true)
      × (key ≡ joined (key_of project uuid uuid uuid)))
    × (uuid ≡ uuid)
    × (uuid ≡ uuid)
    × (uuid ≡ uuid)
unfolding scoped_key canonical_uuid bytes_eq
scoped_key-one_upload_example = scoped_key-one_upload key identity identity uuid uuid refl refl

abbrev segment : RegisterLogSegmentRequest
segment = record {
  authority = some identity;
  request_id = uuid;
  artifact_id = uuid;
  stream = 1;
  first_sequence = 4;
  last_sequence = 9;
  gaps = record { stream = 1; first_sequence = 4; last_sequence = 6 } ∷ [];
}

validate_request-Ascends_example :
    (1 ≤ 4)
    × (9 ≤ i64_max)
    × (1 ≤ 1024)
    × Ascends 1 3 9 segment.gaps
    × ((sequence : ℕ) × (4 ≤ sequence) × (sequence ≤ 9) × All (Outside sequence) segment.gaps)
unfolding Registration.validate_request canonical_uuid valid_authority
validate_request-Ascends_example = validate_request-Ascends segment refl

abbrev pub encoding : Encoding
encoding = record {
  Metrics = ℕ;
  no_metrics = 0;
  parse_metrics = λ text. none;
  to_json = λ message. some [];
  sha256 = λ text.
      1 ∷ 2 ∷ 3 ∷ 4 ∷ 5 ∷ 6 ∷ 7 ∷ 8 ∷ 9 ∷ 10 ∷ 11 ∷ 12 ∷ 13 ∷ 14 ∷ 15 ∷ 16 ∷ 1 ∷ 2 ∷ 3 ∷ 4 ∷ 5 ∷ 6
      ∷ 7 ∷ 8 ∷ 9 ∷ 10 ∷ 11 ∷ 12 ∷ 13 ∷ 14 ∷ 15 ∷ 16 ∷ [];
}

abbrev digest : Bytes
digest = ascii "0102030405060708090a0b0c0d0e0f100102030405060708090a0b0c0d0e0f10"

abbrev result_output : OutputReference
result_output = record { name = ascii "result"; artifact_id = uuid }

abbrev pub completion : CompleteAttemptRequest
completion = record {
  authority = some identity;
  completion_id = uuid;
  payload_sha256 = digest;
  exit_code = some (pos 0);
  reason = pos 0;
  stopped = true;
  outputs = result_output ∷ [];
  logs_complete = true;
  gaps = [];
  metrics_json = [];
}

abbrev other_id : Bytes
other_id = ascii "00000000-0000-0000-0000-000000000002"

-- An encoding that writes one message, and no other.
instance abbrev gap_of_message_equality : Eq Gap
gap_of_message_equality =
    by_fields (bytes_equality ⊗ nat_eq ⊗ nat_eq) (λ g. (g.stream, (g.first, g.last)))
      (λ (s, (f, l)). record { stream = s; first = f; last = l }) (λ g. refl)

instance abbrev message_equality : Eq (Payload ℕ)
message_equality =
    by_fields
      (authority_equality ⊗ option_eq ⊗ bytes_equality ⊗ flag_eq ⊗ list_eq ⊗ flag_eq ⊗ list_eq
        ⊗ nat_eq ⊗ bytes_equality)
      (λ m. (
        m.authority,
        (
          m.exit_code,
          (
            m.reason,
            (
              m.stopped,
              (m.outputs, (m.logs_complete, (m.gaps, (m.metrics, m.metrics_source_sha256)))),
            ),
          ),
        ),
      ))
      (λ (a, (x, (r, (s, (o, (l, (g, (m, h)))))))). record {
        authority = a;
        exit_code = x;
        reason = r;
        stopped = s;
        outputs = o;
        logs_complete = l;
        gaps = g;
        metrics = m;
        metrics_source_sha256 = h;
      })
      (λ m. refl)

abbrev message : Payload ℕ
message = record {
  authority = identity;
  exit_code = some (pos 0);
  reason = [];
  stopped = true;
  outputs = result_output ∷ [];
  logs_complete = true;
  gaps = [];
  metrics = 0;
  metrics_source_sha256 = [];
}

abbrev text_if : Bool → Option Bytes
text_if true = some (ascii "{}")
text_if false = none

abbrev one_text : Encoding
one_text = record {
  Metrics = ℕ;
  no_metrics = 0;
  parse_metrics = λ text. none;
  to_json = λ m. text_if (equals m message);
  sha256 = encoding.sha256;
}

abbrev accepted_manifest : Manifest
accepted_manifest = record {
  version = 1;
  authority = identity;
  state = ascii "SUCCEEDED";
  exit_code = some (pos 0);
  reason = [];
  cleanup_pending = false;
  outputs = result_output ∷ [];
}

abbrev pub parse : Bytes → Option Manifest
parse raw = some accepted_manifest

abbrev answer : CompleteAttemptResponse
answer = record { decision = pos 1; state = pos 5; accepted_manifest_json = ascii "{}" }

abbrev status : CompletionStatus
status = record { decision = accepted; state = succeeded; accepted_manifest_json = ascii "{}" }

complete_attempt-Acknowledges_example : Acknowledges parse completion status
unfolding complete_attempt canonical_uuid bytes_eq authority_eq
complete_attempt-Acknowledges_example =
    complete_attempt-Acknowledges encoding parse completion (ok answer) status refl
