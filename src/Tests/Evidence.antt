-- ===== src/Tests/Evidence.antt =====
-- A journal's attempt that succeeded, with a registered segment of its log and one that is not yet.
use distributed_execution.Base.{
  ◌≡◌, refl, ℕ, true, false, none, some, [], ◌∷◌, Bytes, ascii, ok, pos, arith, bytes_eq, ◌≤◌, ap,
  List, Option, Result, i64_max,
}
use distributed_execution.Control.{
  canonical_uuid, authority_eq, lower_hash, CreateUploadRequest, ObjectVersion,
}
use distributed_execution.Phase.{starting, running, finalizing, ReportPhaseRequest}
use distributed_execution.Phase as Phase
use distributed_execution.Upload.{
  valid_authority, valid_part_plan, valid_name, scoped_key, split_slash, validate_create,
  validate_finalization, validate_artifact, valid_etag, valid_version, valid_completion_parts,
}
use distributed_execution.Journal.Uploads.{finalizes}
use distributed_execution.Registration as Registration
use distributed_execution.Execution.{from_assignment, path_in, overlaps}
use distributed_execution.Shape.{has_shape}
use distributed_execution.Evidence.{completion_digest}
use distributed_execution.Completion.{validate_request}
use distributed_execution.Journal.Records.{Record, Texts, last_phase, LogUpload}
use distributed_execution.Journal.Validity.{validate}
use distributed_execution.Journal.Segments.{validate_logs}
use distributed_execution.Journal.Ids.{new_uuid}
use distributed_execution.Journal.Fresh.{new_uuid-canonical_uuid}
use distributed_execution.Journal.Success.{validate-success}
use distributed_execution.Journal.Summary.{ranges_of, summarize}
use distributed_execution.Journal.Claimed.{Answers, summarize-Answers}
use distributed_execution.Log.Slots.{Slot, slot_stdout, slot_stderr, Two, get}
use distributed_execution.Log.Summary.{Range, LogSummary, SummaryError}
use distributed_execution.Log.Summary.Claim.{registered_to}
use mathlib.Core.Path.{subst}
use distributed_execution.Journal.Replay.{prepare_phase-replay}
use distributed_execution.Journal.Store.{Journal, attempt_name}
use distributed_execution.Journal.Attempts.{prepare_phase, phase_report}
use distributed_execution.Tests.Samples.{uuid, identity}
use distributed_execution.Tests.Journal.{
  assigned, started, documents, hash, sixteen, texts, wire, memory, journal,
}
use distributed_execution.Tests.Transfers.{encoding, completion, parse, key}

new_uuid-canonical_uuid_example :
    (id : Bytes) × (new_uuid (some sixteen) ≡ ok id) × (canonical_uuid id ≡ true)
new_uuid-canonical_uuid_example = new_uuid-canonical_uuid sixteen refl (omega arith)

abbrev evidence_texts : Texts
evidence_texts = record { encoding = encoding; parse_manifest = parse; documents = documents }

abbrev report_of : (number : ℕ) → (event_id container_id : Bytes) → ReportPhaseRequest
report_of number event_id container_id = record {
  authority = some identity;
  event_id = event_id;
  phase = pos number;
  container_id = container_id;
  exit_code = none;
}

abbrev id2 : Bytes
id2 = ascii "00000000-0000-0000-0000-000000000002"

abbrev id3 : Bytes
id3 = ascii "00000000-0000-0000-0000-000000000003"

abbrev succeeded_record : Record
succeeded_record = record assigned {
  container_id = hash;
  exit = some (record { exit_code = pos 0; oom_killed = false });
  phase_reports =
      report_of 2 uuid []
      ∷ report_of 3 id2 hash
      ∷ record (report_of 4 id3 hash) { exit_code = some (pos 0) }
      ∷ [];
  completion = some completion;
}

validate-success_example :
    (last_phase succeeded_record.phase_reports ≡ some (pos 4))
    × (lower_hash hash ≡ true)
    × (succeeded_record.exit ≡ some (record { exit_code = pos 0; oom_killed = false }))
    × (completion.exit_code ≡ some (pos 0))
    × (completion.stopped ≡ true)
unfolding validate canonical_uuid bytes_eq authority_eq from_assignment has_shape path_in
    split_slash overlaps completion_digest Phase.validate_request validate_request
validate-success_example =
    validate-success evidence_texts succeeded_record uuid uuid completion refl refl refl

abbrev log_declaration : (request_id : Bytes) → CreateUploadRequest
log_declaration request_id = record {
  authority = some identity;
  request_id = request_id;
  name = ascii "stdout";
  kind = pos 2;
  size_bytes = 100;
  sha256 = hash;
  part_count = 1;
  part_size_bytes = 0;
}

abbrev object : ObjectVersion
object = record { key = key; version_id = ascii "v1"; size_bytes = 100; sha256 = hash }

abbrev registered_log : LogUpload
registered_log = record {
  declaration = log_declaration uuid;
  stream = 1;
  first_sequence = 1;
  last_sequence = 5;
  gaps = [];
  upload_id = uuid;
  object_key = key;
  finalization = some (record {
    authority = some identity;
    request_id = id2;
    upload_id = uuid;
    object = some object;
    parts = [];
  });
  response = some (record { artifact_id = uuid; object = some object });
  registration = some (record {
    authority = some identity;
    request_id = id3;
    artifact_id = uuid;
    stream = 1;
    first_sequence = 1;
    last_sequence = 5;
    gaps = [];
  });
  registered = true;
}

abbrev next_log : LogUpload
next_log = record {
  declaration = log_declaration (ascii "00000000-0000-0000-0000-000000000004");
  stream = 1;
  first_sequence = 6;
  last_sequence = 9;
  gaps = [];
  upload_id = [];
  object_key = [];
  finalization = none;
  response = none;
  registration = none;
  registered = false;
}

abbrev logged : Record
logged = record started { logs = registered_log ∷ next_log ∷ [] }

abbrev known_ranges : Option (List Range) → List Range
known_ranges none = []
known_ranges (some ranges) = ranges

-- Nine sequences of the first stream and none of the other.
abbrev captured : Two ℕ
captured = record { of_stdout = 9; of_stderr = 0 }

known_captured :
    (slot : Slot)
    → (registered_to slot 0 (known_ranges (ranges_of logged.logs)) ≤ get captured slot)
      × (get captured slot ≤ i64_max)
known_captured slot_stdout = (omega arith, omega arith)
known_captured slot_stderr = (omega arith, omega arith)

all_captured :
    (ranges : List Range)
    → ranges_of logged.logs ≡ some ranges
    → (slot : Slot)
    → (registered_to slot 0 ranges ≤ get captured slot) × (get captured slot ≤ i64_max)
all_captured ranges listed slot =
    subst (λ rs. (registered_to slot 0 rs ≤ get captured slot) × (get captured slot ≤ i64_max))
      (ap known_ranges listed) (known_captured slot)

summarize-Answers_example :
    (outcome : Result SummaryError LogSummary) × (summarize logged.logs captured true
      ≡ some outcome)
    × Answers outcome
unfolding validate_logs canonical_uuid bytes_eq authority_eq validate_create valid_authority
    valid_part_plan valid_name Registration.validate_request scoped_key validate_finalization
    valid_completion_parts valid_version valid_etag finalizes validate_artifact
summarize-Answers_example = summarize-Answers logged captured true refl all_captured

abbrev after_start : Journal texts wire memory
after_start = record journal { directory = (attempt_name uuid, started) ∷ journal.directory }

abbrev first_report : ReportPhaseRequest
first_report = phase_report starting (ascii "01020304-0506-4708-890a-0b0c0d0e0f10") assigned

prepare_phase-replay_example :
    prepare_phase texts wire memory after_start uuid starting none ≡ (ok first_report, after_start)
unfolding prepare_phase canonical_uuid bytes_eq authority_eq validate from_assignment has_shape
    path_in split_slash overlaps Phase.validate_request
prepare_phase-replay_example =
    prepare_phase-replay texts wire memory journal after_start uuid starting (some sixteen) none
      first_report refl
