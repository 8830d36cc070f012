-- ===== src/Control/Messages.antt =====
-- Messages of the worker protocol, and the client's errors (rust/worker/src/control.rs).
use distributed_execution.Base.{
  ℕ, Bool, true, false, ◌&&◌, ◌≡◌, ◌↔◌, Option, none, some, List, Bytes, bytes_eq, bytes_eq_iff,
  ◌==◌, arith, ℤ, pos, negsuc, zero, suc,
}

pub record WorkerSession : Type 0 where
  pub worker_id : Bytes
  pub session_id : Bytes

pub record AttemptAuthority : Type 0 where
  pub job_id : Bytes
  pub attempt_id : Bytes
  pub generation : ℕ
  pub worker_id : Bytes
  pub session_id : Bytes

-- The derived equality of the message.
unfoldable pub authority_eq : AttemptAuthority → AttemptAuthority → Bool
authority_eq a b =
    bytes_eq a.job_id b.job_id
    && bytes_eq a.attempt_id b.attempt_id
    && a.generation == b.generation
    && bytes_eq a.worker_id b.worker_id
    && bytes_eq a.session_id b.session_id

pub authority_eq_iff : (a b : AttemptAuthority) → (authority_eq a b ≡ true) ↔ (a ≡ b)
unfolding authority_eq
authority_eq_iff a b = (
  λ h. ground (
    arith,
    bytes_eq_iff a.job_id b.job_id,
    bytes_eq_iff a.attempt_id b.attempt_id,
    bytes_eq_iff a.worker_id b.worker_id,
    bytes_eq_iff a.session_id b.session_id,
  ),
  λ h. ground (
    arith,
    bytes_eq_iff a.job_id b.job_id,
    bytes_eq_iff a.attempt_id b.attempt_id,
    bytes_eq_iff a.worker_id b.worker_id,
    bytes_eq_iff a.session_id b.session_id,
  ),
)

pub data Decision : Type 0 where
  decision_unspecified accepted fenced stop_requested already_terminal : Decision

-- `Decision::try_from` of the wire's open enumeration.
abbrev pub decision_code : ℕ → Option Decision
decision_code zero = some decision_unspecified
decision_code (suc zero) = some accepted
decision_code (suc (suc zero)) = some fenced
decision_code (suc (suc (suc zero))) = some stop_requested
decision_code (suc (suc (suc (suc zero)))) = some already_terminal
decision_code _ = none

abbrev pub decision_try_from : ℤ → Option Decision
decision_try_from (pos n) = decision_code n
decision_try_from (negsuc n) = none

-- The decisions that end an attempt.
abbrev pub ends_attempt : Decision → Bool
ends_attempt fenced = true
ends_attempt stop_requested = true
ends_attempt already_terminal = true
ends_attempt _ = false

pub data LogStream : Type 0 where
  log_stream_unspecified stdout stderr : LogStream

-- `stream as i32`
abbrev pub stream_code : LogStream → ℕ
stream_code log_stream_unspecified = 0
stream_code stdout = 1
stream_code stderr = 2

pub record LogGap : Type 0 where
  pub stream : ℕ
  pub first_sequence : ℕ
  pub last_sequence : ℕ

pub record RenewLeasesRequest : Type 0 where
  pub session : Option WorkerSession
  pub request_id : Bytes
  pub attempts : List AttemptAuthority

pub record LeaseResult : Type 0 where
  pub authority : Option AttemptAuthority
  pub decision : ℤ
  pub remaining_ms : ℕ
  pub phase_remaining_ms : ℕ

pub data Code : Type 0 where
  unavailable deadline_exceeded other_code : Code

pub record Status : Type 0 where
  pub code : Code
  pub message : Bytes

pub data ClientError : Type 0 where
  configuration connection deadline response clock_failed random : ClientError
  rpc : Status → ClientError

abbrev retryable_code : Code → Bool
retryable_code unavailable = true
retryable_code deadline_exceeded = true
retryable_code other_code = false

abbrev pub retryable : ClientError → Bool
retryable connection = true
retryable deadline = true
retryable (rpc status) = retryable_code status.code
retryable _ = false
