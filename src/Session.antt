-- ===== src/Session.antt =====
-- rust/worker/src/control.rs: registration of a worker's session, and its heartbeat.
-- The transport's reply is an argument.
pub mod Answers
use distributed_execution.Base.{
  ℕ, Bool, true, false, not, ◌&&◌, ◌||◌, ◌==◌, ltb, any, is_empty, length, Option, none, some, List,
  Bytes, bytes_eq, Result, ok, err, ◌>>=◌, ◌>>◌, guard, ok_or, i64_max,
}
use distributed_execution.Control.{
  AttemptAuthority, WorkerSession, ClientError, configuration, response,
}

-- rust/protocol/src/lib.rs
abbrev pub version : ℕ
version = 1

-- The fields of the requests that the client compares.
pub record RegisterWorkerRequest : Type 0 where
  pub worker_id : Bytes
  pub requested_session_id : Bytes

pub record RegisterWorkerResponse : Type 0 where
  pub session : Option WorkerSession
  pub session_generation : ℕ
  pub protocol_version : ℕ

pub record HeartbeatRequest : Type 0 where
  pub session : Option WorkerSession

pub record HeartbeatResponse : Type 0 where
  pub drain : Bool
  pub reconcile : Bool
  pub stop : List AttemptAuthority

unfoldable pub validate_registration :
    RegisterWorkerRequest → RegisterWorkerResponse → Result ClientError (Unit {0})
validate_registration request answer = do
  session ← ok_or answer.session response
  guard
      (not (
        not (bytes_eq session.worker_id request.worker_id)
        || not (bytes_eq session.session_id request.requested_session_id)
        || is_empty session.worker_id
        || is_empty session.session_id
        || answer.session_generation == 0
        || ltb i64_max answer.session_generation
        || not (answer.protocol_version == version)))
      response

unfoldable pub register :
    RegisterWorkerRequest
    → Result ClientError RegisterWorkerResponse
    → Result ClientError RegisterWorkerResponse
unfolding validate_registration
register request reply = do answer ← reply; validate_registration request answer; ok answer

-- An attempt that the worker cannot be told to stop.
unfoldable pub stop_refused : Bytes → AttemptAuthority → Bool
stop_refused worker_id authority =
    not (bytes_eq authority.worker_id worker_id)
    || authority.generation == 0
    || ltb i64_max authority.generation
    || is_empty authority.job_id
    || is_empty authority.attempt_id
    || is_empty authority.session_id

unfoldable pub validate_heartbeat :
    HeartbeatRequest → HeartbeatResponse → Result ClientError (Unit {0})
unfolding stop_refused
validate_heartbeat request answer = do
  session ← ok_or request.session configuration
  guard (not (ltb 2048 (length answer.stop) || any (stop_refused session.worker_id) answer.stop))
      response

unfoldable pub heartbeat :
    HeartbeatRequest → Result ClientError HeartbeatResponse → Result ClientError HeartbeatResponse
unfolding validate_heartbeat
heartbeat request reply = do answer ← reply; validate_heartbeat request answer; ok answer
