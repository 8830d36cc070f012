-- ===== src/Journal/Validity.antt =====
-- The checks of a record of rust/worker/src/journal.rs: `validate` and `validate_completion`.
use distributed_execution.Base.{
  ℕ, Bool, true, false, not, ◌&&◌, ◌||◌, ◌==◌, ltb, leb, Option, none, some, List, [], ◌∷◌,
  is_empty, length, Bytes, bytes_eq, Result, ok, ◌>>=◌, ◌>>◌, guard, ok_or, i64_max, ℤ, pos, negsuc,
  ℤ_eq, equals, option_eq, integer_eq, is_in,
}
use distributed_execution.Control.{
  AttemptAuthority, authority_equality, canonical_uuid, lower_hash, Assignment,
  CompleteAttemptRequest, CompleteAttemptResponse,
}
use distributed_execution.Phase.{ReportPhaseRequest}
use distributed_execution.Phase as Phase
use distributed_execution.Completion.{validate_request, validate_response}
use distributed_execution.Evidence.{is_exit_status}
use distributed_execution.Execution.{from_assignment}
use distributed_execution.Journal.Records.{
  JournalError, invalid, ExitEvidence, Record, Texts, exit_of, last_phase, is_none,
}
use distributed_execution.Journal.Uploads.{as_invalid, validate_outputs}
use distributed_execution.Journal.Segments.{validate_logs}

-- The assignment is one of the worker's, for the attempt, and stripped of the transport's times.
unfoldable pub identified : Assignment → AttemptAuthority → (worker id : Bytes) → Bool
identified assignment a worker id =
    bytes_eq a.worker_id worker
    && bytes_eq a.attempt_id id
    && canonical_uuid id
    && canonical_uuid a.job_id
    && canonical_uuid a.session_id
    && not (a.generation == 0)
    && leb a.generation i64_max
    && assignment.lease_duration_ms == 0
    && assignment.phase_remaining_ms == 0
    && ℤ_eq assignment.server_time_unix_ms (pos 0)

abbrev pub exit_observed : Bytes → Option ExitEvidence → Bool
exit_observed container_id none = true
exit_observed container_id (some exit) =
    not (is_empty container_id) && is_exit_status exit.exit_code

-- The container follows the first report, and the exit the container.
unfoldable pub observed : Record → Bool
observed r =
    leb (length r.phase_reports) 3
    && (is_empty r.container_id || lower_hash r.container_id && not (is_empty r.phase_reports))
    && exit_observed r.container_id r.exit

-- `a > b` on the wire's signed numbers, for a `b` that is not negative.
abbrev pub beyond : ℤ → ℕ → Bool
beyond (pos n) previous = ltb previous n
beyond (negsuc n) previous = false

-- `previous = r.phase`, of a phase that is beyond the one before.
abbrev pub phase_number : ℤ → ℕ
phase_number (pos n) = n
phase_number (negsuc n) = 0

-- A report repeats what the record knows.
unfoldable pub report_fits :
    Record
    → AttemptAuthority
    → (is_first : Bool) → (previous : ℕ) → List Bytes
    → ReportPhaseRequest
    → Bool
report_fits r a is_first previous ids report =
    equals report.authority (some a)
    && beyond report.phase previous
    && (not is_first || ℤ_eq report.phase (pos 2))
    && not (is_in report.event_id ids)
    && (ℤ_eq report.phase (pos 2) || bytes_eq report.container_id r.container_id)
    && (not (ℤ_eq report.phase (pos 4)) || equals report.exit_code (exit_of r.exit))

-- The loop over the reports.
unfoldable pub check_reports :
    Record
    → AttemptAuthority
    → (is_first : Bool) → (previous : ℕ) → List Bytes
    → List ReportPhaseRequest
    → Result JournalError (Unit {0})
unfolding report_fits
check_reports r a is_first previous ids [] = ok tt
check_reports r a is_first previous ids (report ∷ reports) = do
  as_invalid (Phase.validate_request report)
  guard (report_fits r a is_first previous ids report) invalid
  check_reports r a false (phase_number report.phase) (report.event_id ∷ ids) reports

-- A completion that replaces a rejected one.
abbrev replaces : Record → CompleteAttemptRequest → Option CompleteAttemptRequest → Bool
replaces r previous none = false
replaces r previous (some current) =
    equals current.authority previous.authority
    && not (bytes_eq current.completion_id previous.completion_id)
    && ℤ_eq current.reason (pos 9)
    && current.stopped
    && is_empty current.outputs
    && not current.logs_complete
    && equals current.exit_code (exit_of r.exit)

-- What a rejected completion and its answer have to be.
unfoldable pub rejection_fits : Record → CompleteAttemptRequest → CompleteAttemptResponse → Bool
rejection_fits r previous answer =
    equals previous.authority r.assignment.authority
    && equals previous.exit_code (exit_of r.exit)
    && not (ℤ_eq previous.reason (pos 9))
    && ℤ_eq answer.decision (pos 3)
    && replaces r previous r.completion

-- A success snapshots the last phase and a clean exit.
abbrev pub clean_exit : Option ExitEvidence → Bool
clean_exit none = false
clean_exit (some exit) = ℤ_eq exit.exit_code (pos 0) && not exit.oom_killed

abbrev exit_kept : Option ℤ → Option ExitEvidence → Bool
exit_kept none exit = true
exit_kept (some code) exit = equals (exit_of exit) (some code)

unfoldable pub completion_fits : Record → CompleteAttemptRequest → Bool
completion_fits r request =
    equals request.authority r.assignment.authority && exit_kept request.exit_code r.exit

unfoldable pub success_fits : Record → CompleteAttemptRequest → Bool
success_fits r request =
    not (ℤ_eq request.reason (pos 0))
    || equals (last_phase r.phase_reports) (some (pos 4)) && clean_exit r.exit

module _ (t : Texts) where
  unfoldable pub check_rejected : Record → Result JournalError (Unit {0})
  unfolding rejection_fits
  check_rejected r = elim r.rejected_completion [
    | none ↦ guard (is_none r.rejected_response) invalid
    | some previous ↦ do
      answer ← ok_or r.rejected_response invalid
      as_invalid (validate_request t.encoding previous)
      status ← as_invalid (validate_response t.parse_manifest previous answer)
      guard (rejection_fits r previous answer) invalid
  ]

  abbrev check_answer :
      CompleteAttemptRequest → Option CompleteAttemptResponse → Result JournalError (Unit {0})
  check_answer request none = ok tt
  check_answer request (some answer) = do
    status ← as_invalid (validate_response t.parse_manifest request answer)
    ok tt

  unfoldable pub check_completion : Record → Result JournalError (Unit {0})
  unfolding completion_fits success_fits
  check_completion r = elim r.completion [
    | none ↦ guard (is_none r.completion_response) invalid
    | some request ↦ do
      as_invalid (validate_request t.encoding request)
      guard (completion_fits r request) invalid
      guard (success_fits r request) invalid
      check_answer request r.completion_response
  ]

  unfoldable pub validate_completion : Record → Result JournalError (Unit {0})
  unfolding check_rejected check_completion
  validate_completion r = do check_rejected r; check_completion r

  unfoldable pub validate : Record → (worker id : Bytes) → Result JournalError (Unit {0})
  unfolding identified observed check_reports validate_completion validate_outputs validate_logs
  validate r worker id = do
    a ← ok_or r.assignment.authority invalid
    guard (identified r.assignment a worker id) invalid
    execution ← as_invalid (from_assignment t.documents r.assignment)
    guard (observed r) invalid
    check_reports r a true 0 [] r.phase_reports
    validate_completion r
    validate_outputs t.documents r
    validate_logs r
