-- ===== src/Tests/Samples.antt =====
-- The data of the tests.
use distributed_execution.Base.{false, some, [], ◌∷◌, Bytes, ascii, pos}
use distributed_execution.Control.{AttemptAuthority, WorkerSession, RenewLeasesRequest, LeaseResult}
use distributed_execution.Lease.{AuthorityWindow, from_secs}
use distributed_execution.Supervisor.{Channel, live_window}

abbrev pub uuid : Bytes
uuid = ascii "00000000-0000-0000-0000-000000000001"

abbrev pub session : WorkerSession
session = record { worker_id = uuid; session_id = uuid }

abbrev pub identity : AttemptAuthority
identity = record {
  job_id = uuid;
  attempt_id = uuid;
  generation = 3;
  worker_id = uuid;
  session_id = uuid;
}

abbrev pub request : RenewLeasesRequest
request = record { session = some session; request_id = uuid; attempts = identity ∷ [] }

abbrev pub result : LeaseResult
result = record {
  authority = some identity;
  decision = pos 1;
  remaining_ms = 15_000;
  phase_remaining_ms = 60_000;
}

-- From two seconds to twelve.
abbrev pub granted : AuthorityWindow
granted = record { sent = from_secs 2; deadline = from_secs 12 }

abbrev pub channel : Channel
channel = record {
  identity = identity;
  state = live_window granted;
  closed = false;
  abandoned = false;
  requested = 1;
  acknowledged = 0;
}
