-- ===== src/Journal/Records.antt =====
-- The records of rust/worker/src/journal.rs, with those of journal/uploads.rs and journal/logs.rs.
use distributed_execution.Base.{
  ℕ, Bool, true, false, Option, none, some, List, [], ◌∷◌, Bytes, ℤ, refl, Eq, by_fields, ◌⊗◌,
  integer_eq, flag_eq, bytes_equality, option_eq, list_eq, nat_eq,
}
use distributed_execution.Control.{
  Assignment, CompleteAttemptRequest, CompleteAttemptResponse, CreateUploadRequest,
  FinalizeUploadRequest, FinalizeUploadResponse, CompletedPart, RegisterLogSegmentRequest, LogGap,
  declaration_equality, finalization_equality, artifact_equality, part_equality, gap_equality,
  registration_equality, assignment_equality, completion_equality, completion_answer_equality,
  authority_equality,
}
use distributed_execution.Phase.{ReportPhaseRequest}
use distributed_execution.Completion.{Manifest}
use distributed_execution.Evidence.{Encoding}
use distributed_execution.Execution.{Documents}

-- An error of the file system comes with its kind.
pub data JournalError : Type 0 where
  invalid identity conflict corrupt unsafe_path busy limit poisoned random : JournalError
  io : (kind : ℕ) → JournalError

pub record JournalLimits : Type 0 where
  pub max_attempts : ℕ
  pub max_bytes : ℕ

pub record ExitEvidence : Type 0 where
  pub exit_code : ℤ
  pub oom_killed : Bool

instance abbrev pub exit_equality : Eq ExitEvidence
exit_equality =
    by_fields (integer_eq ⊗ flag_eq) (λ e. (e.exit_code, e.oom_killed))
      (λ (c, k). record { exit_code = c; oom_killed = k }) (λ e. refl)

pub record OutputUpload : Type 0 where
  pub declaration : CreateUploadRequest
  pub upload_id : Bytes
  pub object_key : Bytes
  pub finalization : Option FinalizeUploadRequest
  pub response : Option FinalizeUploadResponse
  pub parts : List CompletedPart

pub record LogUpload : Type 0 where
  pub declaration : CreateUploadRequest
  pub stream : ℕ
  pub first_sequence : ℕ
  pub last_sequence : ℕ
  pub gaps : List LogGap
  pub upload_id : Bytes
  pub object_key : Bytes
  pub finalization : Option FinalizeUploadRequest
  pub response : Option FinalizeUploadResponse
  pub registration : Option RegisterLogSegmentRequest
  pub registered : Bool

pub record Record : Type 0 where
  pub assignment : Assignment
  pub container_id : Bytes
  pub exit : Option ExitEvidence
  pub phase_reports : List ReportPhaseRequest
  pub completion : Option CompleteAttemptRequest
  pub completion_response : Option CompleteAttemptResponse
  pub outputs : List OutputUpload
  pub rejected_completion : Option CompleteAttemptRequest
  pub rejected_response : Option CompleteAttemptResponse
  pub logs : List LogUpload

-- `self.exit.as_ref().map(|exit| exit.exit_code)`
abbrev pub exit_of : Option ExitEvidence → Option ℤ
exit_of none = none
exit_of (some evidence) = some evidence.exit_code

-- The phase of the last report.
abbrev pub last_phase : List ReportPhaseRequest → Option ℤ
last_phase [] = none
last_phase (r ∷ []) = some r.phase
last_phase (r ∷ s ∷ rest) = last_phase (s ∷ rest)

-- The texts that the checks of a record read: serde's and ring's.
pub record Texts : Type 1 where
  pub encoding : Encoding
  pub parse_manifest : Bytes → Option Manifest
  pub documents : Documents

-- `is_some` and `is_none`
abbrev pub is_some : {A : Type 0} → Option A → Bool
is_some none = false
is_some (some a) = true

abbrev pub is_none : {A : Type 0} → Option A → Bool
is_none none = true
is_none (some a) = false

instance abbrev pub report_equality : Eq ReportPhaseRequest
report_equality =
    by_fields (option_eq ⊗ bytes_equality ⊗ integer_eq ⊗ bytes_equality ⊗ option_eq)
      (λ r. (r.authority, (r.event_id, (r.phase, (r.container_id, r.exit_code)))))
      (λ (a, (i, (p, (c, x)))). record {
        authority = a;
        event_id = i;
        phase = p;
        container_id = c;
        exit_code = x;
      })
      (λ r. refl)

instance abbrev pub output_upload_equality : Eq OutputUpload
output_upload_equality =
    by_fields
      (declaration_equality ⊗ bytes_equality ⊗ bytes_equality ⊗ option_eq ⊗ option_eq ⊗ list_eq)
      (λ u. (u.declaration, (u.upload_id, (u.object_key, (u.finalization, (u.response, u.parts))))))
      (λ (d, (i, (k, (f, (r, p))))). record {
        declaration = d;
        upload_id = i;
        object_key = k;
        finalization = f;
        response = r;
        parts = p;
      })
      (λ u. refl)

instance abbrev pub log_upload_equality : Eq LogUpload
log_upload_equality =
    by_fields
      (declaration_equality ⊗ nat_eq ⊗ nat_eq ⊗ nat_eq ⊗ list_eq ⊗ bytes_equality ⊗ bytes_equality
        ⊗ option_eq ⊗ option_eq ⊗ option_eq ⊗ flag_eq)
      (λ u. (
        u.declaration,
        (
          u.stream,
          (
            u.first_sequence,
            (
              u.last_sequence,
              (
                u.gaps,
                (
                  u.upload_id,
                  (u.object_key, (u.finalization, (u.response, (u.registration, u.registered)))),
                ),
              ),
            ),
          ),
        ),
      ))
      (λ (d, (s, (f, (l, (g, (i, (k, (z, (r, (n, e)))))))))). record {
        declaration = d;
        stream = s;
        first_sequence = f;
        last_sequence = l;
        gaps = g;
        upload_id = i;
        object_key = k;
        finalization = z;
        response = r;
        registration = n;
        registered = e;
      })
      (λ u. refl)

instance abbrev pub record_equality : Eq Record
record_equality =
    by_fields
      (assignment_equality ⊗ bytes_equality ⊗ option_eq ⊗ list_eq ⊗ option_eq ⊗ option_eq ⊗ list_eq
        ⊗ option_eq ⊗ option_eq ⊗ list_eq)
      (λ r. (
        r.assignment,
        (
          r.container_id,
          (
            r.exit,
            (
              r.phase_reports,
              (
                r.completion,
                (
                  r.completion_response,
                  (r.outputs, (r.rejected_completion, (r.rejected_response, r.logs))),
                ),
              ),
            ),
          ),
        ),
      ))
      (λ (a, (c, (x, (p, (q, (s, (o, (j, (k, l))))))))). record {
        assignment = a;
        container_id = c;
        exit = x;
        phase_reports = p;
        completion = q;
        completion_response = s;
        outputs = o;
        rejected_completion = j;
        rejected_response = k;
        logs = l;
      })
      (λ r. refl)
