-- ===== src/Tests/Phase.antt =====
-- A report that the attempt runs, answered after it went on to finalize; a session's answers.
use distributed_execution.Base.{
  ◌≡◌, ◌≤◌, refl, none, some, [], ◌∷◌, ok, ascii, pos, Bytes, ℕ, Result, false,
}
use distributed_execution.Control.{canonical_uuid, accepted, ClientError}
use distributed_execution.Phase.{ReportPhaseRequest, report_phase, finalizing}
use distributed_execution.Phase.Progress.{Reports, report_phase-Reports}
use distributed_execution.Session.{RegisterWorkerRequest, RegisterWorkerResponse, HeartbeatResponse}
use distributed_execution.Tests.Samples.{uuid, identity, session}

abbrev container : Bytes
container = ascii "0123456789abcdef0123456789abcdef0123456789abcdef0123456789abcdef"

abbrev report : ReportPhaseRequest
report = record {
  authority = some identity;
  event_id = uuid;
  phase = pos 3;
  container_id = container;
  exit_code = none;
}

report_phase-Reports_example :
    (phase : ℕ) × (pos 3 ≡ pos phase) × (2 ≤ phase) × (phase ≤ 4) × Reports phase accepted 4
unfolding report_phase canonical_uuid
report_phase-Reports_example =
    report_phase-Reports report (ok (record { decision = pos 1; state = pos 4 }))
      (record { decision = accepted; state = finalizing }) refl

abbrev registration : RegisterWorkerRequest
registration = record { worker_id = uuid; requested_session_id = uuid }

abbrev registered : RegisterWorkerResponse
registered = record { session = some session; session_generation = 4; protocol_version = 1 }

abbrev registered_reply : Result ClientError RegisterWorkerResponse
registered_reply = ok registered

abbrev beat : HeartbeatResponse
beat = record { drain = false; reconcile = false; stop = identity ∷ [] }
