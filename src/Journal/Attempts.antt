-- ===== src/Journal/Attempts.antt =====
-- The operations of rust/worker/src/journal.rs on an attempt's record. `fill` are the random bytes
-- that an operation draws.
use distributed_execution.Base.{
  Bool, true, false, not, ◌&&◌, if◌then◌else◌, Option, none, some, List, [], ◌∷◌, ◌++◌, is_empty,
  Bytes, bytes_eq, Result, ok, err, ◌>>=◌, ◌>>◌, guard, ok_or, ℤ, pos, ℤ_eq, equals, option_eq,
  integer_eq, map_err,
}
use distributed_execution.Control.{
  AttemptAuthority, authority_equality, lower_hash, Assignment, assignment_equality, Decision,
  decision_try_from, fenced, already_terminal, CompleteAttemptRequest, completion_equality,
  CompleteAttemptResponse, completion_answer_equality,
}
use distributed_execution.Phase.{AttemptState, starting, running, finalizing, ReportPhaseRequest}
use distributed_execution.Phase.Progress.{number}
use distributed_execution.Completion.{validate_request, validate_response}
use distributed_execution.Evidence.{is_exit_status}
use distributed_execution.Journal.Records.{
  JournalError, invalid, identity, conflict, ExitEvidence, exit_equality, Record, Texts, exit_of,
  is_none, is_some,
}
use distributed_execution.Journal.Uploads.{as_invalid}
use distributed_execution.Journal.Validity.{validate, validate_completion}
use distributed_execution.Journal.Ids.{new_uuid}
use distributed_execution.Journal.Store.{
  Change, keep, replace_by, Directory, Wire, Journal, load_attempt, save, update_record,
}

abbrev pub done : Unit {0}
done = tt

-- An item that is saved already has to be the very same.
abbrev pub same_or_conflict : Bool → Result JournalError (Change (Unit {0}))
same_or_conflict same = do guard same conflict; ok (keep done)

unfoldable pub bind_container_change : Bytes → Record → Result JournalError (Change (Unit {0}))
bind_container_change container_id r = do
  guard (not (is_empty r.phase_reports)) conflict
  let bound = (do
    guard (is_none r.completion) conflict
    ok (replace_by done (record r { container_id = container_id })))
  if is_empty r.container_id then bound else same_or_conflict (bytes_eq r.container_id container_id)

unfoldable pub record_exit_change : ExitEvidence → Record → Result JournalError (Change (Unit {0}))
record_exit_change evidence r = do
  guard (not (is_empty r.container_id)) conflict
  elim r.exit [
    | none ↦ ok (replace_by done (record r { exit = some evidence }))
    | some old ↦ same_or_conflict (equals old evidence)
  ]

-- `phase_reports.iter().find(|r| r.phase == phase as i32)`
unfoldable pub find_report : ℤ → List ReportPhaseRequest → Option ReportPhaseRequest
find_report phase [] = none
find_report phase (r ∷ rs) =
    let later = find_report phase rs in if ℤ_eq r.phase phase then some r else later

-- Which phase may be reported next.
unfoldable pub phase_allowed : AttemptState → Record → Result JournalError Bool
phase_allowed starting r = ok (is_empty r.phase_reports)
phase_allowed running r =
    ok (not (is_empty r.phase_reports) && not (is_empty r.container_id) && is_none r.exit)
phase_allowed finalizing r = ok (is_some r.exit)
phase_allowed _ r = err invalid

abbrev pub report_container : AttemptState → Record → Bytes
report_container starting r = []
report_container _ r = r.container_id

abbrev pub report_exit : AttemptState → Record → Option ℤ
report_exit finalizing r = exit_of r.exit
report_exit _ r = none

-- The report of a phase that was not reported before.
abbrev pub phase_report : AttemptState → Bytes → Record → ReportPhaseRequest
phase_report phase event_id r = record {
  authority = r.assignment.authority;
  event_id = event_id;
  phase = pos (number phase);
  container_id = report_container phase r;
  exit_code = report_exit phase r;
}

-- The report of a phase that has none.
abbrev pub fresh_phase :
    AttemptState → Option Bytes → Record → Result JournalError (Change ReportPhaseRequest)
fresh_phase phase fill r = do
  guard (is_none r.completion) conflict
  allowed ← phase_allowed phase r
  guard allowed conflict
  event_id ← new_uuid fill
  ok (
      replace_by (phase_report phase event_id r)
        (record r { phase_reports = r.phase_reports ++ (phase_report phase event_id r ∷ []) }))

unfoldable pub prepare_phase_change :
    AttemptState → Option Bytes → Record → Result JournalError (Change ReportPhaseRequest)
unfolding find_report phase_allowed new_uuid
prepare_phase_change phase fill r = elim (find_report (pos (number phase)) r.phase_reports) [
  | some saved ↦ ok (keep saved)
  | none ↦ fresh_phase phase fill r
]

-- The evidence of a stopped cancellation.
unfoldable pub cancels : CompleteAttemptRequest → AttemptAuthority → Record → Bool
cancels request authority r =
    equals r.assignment.authority (some authority)
    && ℤ_eq request.reason (pos 9)
    && request.stopped
    && is_empty request.outputs
    && not request.logs_complete
    && equals request.exit_code (exit_of r.exit)
    && is_none r.rejected_completion

-- The saved completion and its answer make place only for a cancellation after a stop request.
unfoldable pub may_supersede :
    CompleteAttemptRequest → CompleteAttemptRequest → CompleteAttemptResponse → Bool
may_supersede request previous answer =
    ℤ_eq answer.decision (pos 3)
    && not (ℤ_eq previous.reason (pos 9))
    && not (bytes_eq previous.completion_id request.completion_id)
    && not (equals previous request)

abbrev pub is_final_answer : Option Decision → Bool
is_final_answer (some fenced) = true
is_final_answer (some already_terminal) = true
is_final_answer _ = false

-- Whether an answer may replace the one that is saved.
abbrev pub answer_replaces : CompleteAttemptResponse → CompleteAttemptResponse → Bool
answer_replaces saved answer =
    ℤ_eq saved.decision (pos 3) && is_final_answer (decision_try_from answer.decision)

module _ (t : Texts) where
  unfoldable pub persist_completion_change :
      CompleteAttemptRequest → AttemptAuthority → Record → Result JournalError (Change (Unit {0}))
  persist_completion_change request authority r = do
    guard (equals r.assignment.authority (some authority)) identity
    elim r.completion [
      | some saved ↦ same_or_conflict (equals saved request)
      | none ↦ do
        guard (equals request.exit_code (exit_of r.exit)) conflict
        map_err (λ why. conflict) (validate_completion t (record r { completion = some request }))
        ok (replace_by done (record r { completion = some request }))
    ]

  unfoldable pub supersede_change :
      CompleteAttemptRequest → AttemptAuthority → Record → Result JournalError (Change (Unit {0}))
  unfolding cancels may_supersede
  supersede_change request authority r = do
    guard (cancels request authority r) conflict
    previous ← ok_or r.completion conflict
    answer ← ok_or r.completion_response conflict
    guard (may_supersede request previous answer) conflict
    ok (
        replace_by done (record r {
          completion = some request;
          completion_response = none;
          rejected_completion = some previous;
          rejected_response = some answer;
        }))

  unfoldable pub completion_response_change :
      CompleteAttemptRequest
      → CompleteAttemptResponse
      → Record
      → Result JournalError (Change (Unit {0}))
  completion_response_change request answer r = do
    guard (equals r.completion (some request)) conflict
    status ← as_invalid (validate_response t.parse_manifest request answer)
    let replaced : Change (Unit {0}) =
        replace_by done (record r { completion_response = some answer })
    elim r.completion_response [
      | none ↦ ok replaced
      | some saved ↦
          let checked = (do guard (answer_replaces saved answer) conflict; ok replaced) in
          if equals saved answer then ok (keep done) else checked
    ]

-- The stored assignment has no times of the transport.
abbrev pub normalized : Assignment → Assignment
normalized a = record a {
  lease_duration_ms = 0;
  phase_remaining_ms = 0;
  server_time_unix_ms = pos 0;
}

abbrev pub new_record : Assignment → Record
new_record a = record {
  assignment = normalized a;
  container_id = [];
  exit = none;
  phase_reports = [];
  completion = none;
  completion_response = none;
  outputs = [];
  rejected_completion = none;
  rejected_response = none;
  logs = [];
}

module _ (t : Texts) (w : Wire) (d : Directory w.Encoded) where
  -- A refusal before the record is loaded.
  abbrev pub if_ok :
      {A E : Type 0}
      → Journal t w d
      → Result JournalError E
      → (E → Result JournalError A × Journal t w d)
      → Result JournalError A × Journal t w d
  if_ok j (err why) next = (err why, j)
  if_ok j (ok found) next = next found

  abbrev pub save_new :
      Journal t w d
      → Bytes
      → Record
      → Option Record
      → Result JournalError (Unit {0}) × Journal t w d
  save_new j id r none = save t w d j id r
  save_new j id r (some saved) = (guard (equals saved.assignment r.assignment) conflict, j)

  unfoldable pub persist_assignment :
      Journal t w d → Assignment → Result JournalError (Unit {0}) × Journal t w d
  unfolding load_attempt
  persist_assignment j assignment = if_ok j (ok_or assignment.authority invalid) (λ a.
      if_ok j (guard (bytes_eq a.worker_id j.worker_id) identity) (λ ours.
        if_ok j (validate t (new_record assignment) j.worker_id a.attempt_id) (λ valid.
          if_ok j (load_attempt t w d j a.attempt_id)
            (save_new j a.attempt_id (new_record assignment)))))

  unfoldable pub bind_container :
      Journal t w d → Bytes → Bytes → Result JournalError (Unit {0}) × Journal t w d
  unfolding update_record bind_container_change
  bind_container j id container_id =
      if_ok j (guard (lower_hash container_id) invalid)
        (λ hashed. update_record t w d j id (bind_container_change container_id))

  unfoldable pub record_exit :
      Journal t w d → Bytes → ExitEvidence → Result JournalError (Unit {0}) × Journal t w d
  unfolding update_record record_exit_change
  record_exit j id evidence =
      if_ok j (guard (is_exit_status evidence.exit_code) invalid)
        (λ status. update_record t w d j id (record_exit_change evidence))

  unfoldable pub prepare_phase :
      Journal t w d
      → Bytes
      → AttemptState
      → Option Bytes
      → Result JournalError ReportPhaseRequest × Journal t w d
  unfolding update_record prepare_phase_change
  prepare_phase j id phase fill = update_record t w d j id (prepare_phase_change phase fill)

  unfoldable pub persist_completion :
      Journal t w d → CompleteAttemptRequest → Result JournalError (Unit {0}) × Journal t w d
  unfolding update_record persist_completion_change
  persist_completion j request =
      if_ok j (as_invalid (validate_request t.encoding request)) (λ valid.
        if_ok j (ok_or request.authority invalid)
          (λ a. update_record t w d j a.attempt_id (persist_completion_change t request a)))

  unfoldable pub supersede_rejected_completion :
      Journal t w d → CompleteAttemptRequest → Result JournalError (Unit {0}) × Journal t w d
  unfolding update_record supersede_change
  supersede_rejected_completion j request =
      if_ok j (as_invalid (validate_request t.encoding request)) (λ valid.
        if_ok j (ok_or request.authority invalid)
          (λ a. update_record t w d j a.attempt_id (supersede_change t request a)))

  unfoldable pub record_completion_response :
      Journal t w d
      → CompleteAttemptRequest
      → CompleteAttemptResponse
      → Result JournalError (Unit {0}) × Journal t w d
  unfolding update_record completion_response_change
  record_completion_response j request answer =
      if_ok j (ok_or request.authority invalid)
        (λ a. update_record t w d j a.attempt_id (completion_response_change t request answer))
