-- ===== src/Tests/Journal.antt =====
-- An attempt of the journal: assigned, started, bound to its container and exited.
use distributed_execution.Base.{
  ◌≡◌, refl, ap, ℕ, hex, All, ◌++◌, bytes_eq_iff, true, false, Option, none, some, List, [], ◌∷◌,
  Bytes, bytes_eq, ascii, Result, ok, err, pos, ◌⊎◌,
}
use distributed_execution.Control.{Assignment, canonical_uuid, authority_eq}
use distributed_execution.Phase.{starting, running, finalizing}
use distributed_execution.Journal.Records.{Record, Texts, JournalError, record_equality}
use distributed_execution.Journal.Store.{Directory, Wire, Journal, required}
use distributed_execution.Evidence.{Encoding}
use distributed_execution.Execution.{Documents, Job, from_assignment}
use distributed_execution.Base.{Pairs}
use distributed_execution.Execution.Apart.{Inside, Apart, from_assignment-Pairs}
use distributed_execution.Execution.{path_in, overlaps}
use distributed_execution.Upload.{split_slash}
use distributed_execution.Journal.Store.{attempt_name}
use distributed_execution.Journal.Validity.{validate}
use distributed_execution.Phase as Phase
use distributed_execution.Journal.Attempts.{bind_container, prepare_phase, new_record, phase_report}
use distributed_execution.Upload
use distributed_execution.Registration
use distributed_execution.Control.{stdout, CreateUploadRequest}
use distributed_execution.Journal.Logs.{LogSegment, segment_declaration, new_log, prepare_log}
use distributed_execution.Journal.UploadCalls.{to_prepare_log}
use distributed_execution.Journal.Calls.{
  Call, to_prepare_phase, to_bind_container, on_logs, run_all, run_all-Advances,
}
use distributed_execution.Journal.Advances.{Advances}
use distributed_execution.Shape.{has_shape, Value, object, no_members, members}
use distributed_execution.Tests.Samples.{uuid, identity}

-- A directory in memory that never fails.
abbrev pub find_file : {A : Type 0} → Bytes → List (Bytes × A) → Option A
find_file name [] = none
find_file name ((key, completion_payload) ∷ files) =
    let later = find_file name files in
    elim (bytes_eq name key) [ true ↦ some completion_payload | false ↦ later ]

abbrev pub Files : Type 0 → Type 0
Files A = List (Bytes × A)

abbrev pub written : {A : Type 0} → Files A → Bytes → A → Result JournalError (Unit {0}) × Files A
written files name completion_payload = (ok tt, (name, completion_payload) ∷ files)

pub found_written :
    {A : Type 0} (files files' : Files A) (name : Bytes) (completion_payload : A)
    → written files name completion_payload ≡ (ok tt, files')
    → ◌≡◌ {A = Result JournalError (Option A)}
        (ok (find_file name files'))
        (ok (some completion_payload))
found_written files files' name completion_payload h =
    rw⁻¹ (ap (λ end. end.1) h) (rw (find_file, (bytes_eq_iff name name).1 refl) refl)

pub found_other :
    {A : Type 0} (files files' : Files A) (name other : Bytes) (completion_payload : A)
    → written files name completion_payload ≡ (ok tt, files')
    → bytes_eq other name ≡ false
    → ◌≡◌ {A = Result JournalError (Option A)}
        (ok (find_file other files'))
        (ok (find_file other files))
found_other files files' name other completion_payload h k =
    rw⁻¹ (ap (λ end. end.1) h) (rw (find_file, k) refl)

pub never_refused :
    {A : Type 0} (files files' : Files A) (name : Bytes) (completion_payload : A)
    (why : JournalError)
    → written files name completion_payload ≡ (err why, files')
    → (files' ≡ files) ⊎ ⊥
never_refused files files' name completion_payload why h = absurd (clash why (ap (λ end. end.0) h))
  where
    clash : (e : JournalError) → ◌≡◌ {A = Result JournalError (Unit {0})} (ok tt) (err e) → ⊥
    clash e h' = cc

abbrev pub memory : {A : Type 0} → Directory A
memory {A} = record {
  State = Files A;
  read = λ files name. ok (find_file name files);
  write = written;
  Failed = λ files. ⊥;
  read-written = found_written;
  read-other = found_other;
  write-failed = never_refused;
  read-failed = λ files name failed. absurd failed;
}

abbrev pub wire : Wire
wire = record {
  Encoded = Record;
  encoded_length = λ r. 100;
  encoded_eq = record_equality;
  encode = λ r. r;
  decode = λ r. some r;
  decode-encode = λ r. refl;
}

abbrev nothing : Value
nothing = object no_members

abbrev shape : Value
shape = object (
    members (ascii "metadata") nothing (
      members (ascii "spec")
        (object (
          members (ascii "resources") nothing (
            members (ascii "placement") nothing
              (members (ascii "timeouts") nothing (members (ascii "retry") nothing no_members)))))
        no_members))

abbrev pub hash : Bytes
hash = ascii "0123456789abcdef0123456789abcdef0123456789abcdef0123456789abcdef"

abbrev image : Bytes
image = ascii "worker@sha256:" ++ hash

abbrev job : Job
job = record {
  api_version = ascii "dispatch.dev/v1alpha1";
  kind = ascii "Job";
  metadata = record { name = ascii "job"; project = ascii "project"; labels = [] };
  spec = record {
    priority = 0;
    image = image;
    command = ascii "run" ∷ [];
    args = [];
    env = [];
    resources = record { cpu_millis = 1000; memory_mib = 1; scratch_mib = 1 };
    placement = [];
    inputs = [];
    outputs =
        record { name = ascii "result"; path = ascii "/outputs/a"; required = true; max_bytes = 10 }
        ∷ record { name = ascii "log"; path = ascii "/outputs/b"; required = true; max_bytes = 10 }
        ∷ [];
    timeouts = record { startup_seconds = 1; execution_seconds = 1; finalization_seconds = 1 };
    retry = record {
      max_attempts = 1;
      on = [];
      initial_backoff_seconds = 1;
      max_backoff_seconds = 1;
    };
    termination_grace_seconds = 0;
    network = ascii "disabled";
  };
}

abbrev pub documents : Documents
documents = record {
  sha256 = λ text. [];
  parse_value = λ text. some shape;
  parse_job = λ text. some job;
}

abbrev assignment : Assignment
assignment = record {
  authority = some identity;
  image_digest = image;
  argv = ascii "run" ∷ [];
  resources =
      some (record { cpu_millis = 1000; memory_bytes = 1_048_576; scratch_bytes = 1_048_576 });
  canonical_job_spec_json = ascii "{}";
  spec_sha256 = [];
  lease_duration_ms = 30_000;
  server_time_unix_ms = pos 5;
  phase_remaining_ms = 60_000;
  inputs = [];
}

from_assignment-Pairs_example :
    (hex [] ≡ [])
    × (some job ≡ some job)
    × All Inside job.spec.outputs
    × Pairs Apart job.spec.outputs
unfolding from_assignment canonical_uuid bytes_eq has_shape path_in split_slash overlaps
from_assignment-Pairs_example =
    from_assignment-Pairs documents assignment (record { job = job; sha256 = [] }) refl

abbrev encoding : Encoding
encoding = record {
  Metrics = ℕ;
  no_metrics = 0;
  parse_metrics = λ text. none;
  to_json = λ message. some [];
  sha256 = λ text. [];
}

abbrev pub texts : Texts
texts = record { encoding = encoding; parse_manifest = λ text. none; documents = documents }

abbrev pub assigned : Record
assigned = new_record assignment

abbrev pub journal : Journal texts wire memory
journal = record {
  directory = (attempt_name uuid, assigned) ∷ [];
  worker_id = uuid;
  incarnation = none;
}

abbrev pub sixteen : Bytes
sixteen = 1 ∷ 2 ∷ 3 ∷ 4 ∷ 5 ∷ 6 ∷ 7 ∷ 8 ∷ 9 ∷ 10 ∷ 11 ∷ 12 ∷ 13 ∷ 14 ∷ 15 ∷ 16 ∷ []

abbrev pub started : Record
started = record assigned {
  phase_reports =
      phase_report starting (ascii "01020304-0506-4708-890a-0b0c0d0e0f10") assigned ∷ [];
}

abbrev bound : Record
bound = record started { container_id = hash }

abbrev seventeen : Bytes
seventeen = 17 ∷ 18 ∷ 19 ∷ 20 ∷ 21 ∷ 22 ∷ 23 ∷ 24 ∷ 25 ∷ 26 ∷ 27 ∷ 28 ∷ 29 ∷ 30 ∷ 31 ∷ 32 ∷ []

abbrev segment : LogSegment
segment = record { stream = stdout; first = 1; last = 2; gaps = []; size = 10; sha256 = hash }

abbrev declaration : CreateUploadRequest
declaration =
    segment_declaration bound segment (ascii "11121314-1516-4718-991a-1b1c1d1e1f20")
      (ascii "stdout")

abbrev logged : Record
logged = record bound { logs = new_log segment declaration ∷ [] }

-- The phase is reported before the container is bound, and a segment is declared then.
abbrev calls : List Call
calls =
    to_prepare_phase uuid starting (some sixteen)
    ∷ to_bind_container uuid hash
    ∷ on_logs (to_prepare_log uuid segment (some seventeen))
    ∷ []

run_all-Advances_example : Advances assigned logged
unfolding run_all bytes_eq canonical_uuid required validate from_assignment has_shape path_in
    split_slash overlaps authority_eq bind_container prepare_phase Phase.validate_request
    prepare_log Upload.validate_create Upload.valid_authority Upload.valid_part_plan
    Upload.valid_name Registration.validate_request
run_all-Advances_example =
    run_all-Advances texts wire memory journal calls uuid assigned logged refl refl
