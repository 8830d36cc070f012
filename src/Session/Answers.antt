-- ===== src/Session/Answers.antt =====
-- The answers that `register` and `heartbeat` of rust/worker/src/control.rs take.
use distributed_execution.Base.{
  ◌≤◌, ◌≡◌, ◌≢◌, ◌↔◌, inl, inr, false, any, some, List, [], ◌∷◌, length, All, Bytes, bytes_eq_iff,
  Result, ok, err, arith, i64_max, Bool-cases, Option-cases, ||_false, >>=-ok,
}
use mathlib.Core.Path.{subst}
use distributed_execution.Control.{AttemptAuthority, WorkerSession, ClientError}
use distributed_execution.Session.{
  RegisterWorkerRequest, RegisterWorkerResponse, version, validate_registration, register,
  HeartbeatRequest, HeartbeatResponse, stop_refused, validate_heartbeat, heartbeat,
}

-- The session of the answer is the one that was asked for, at this version of the protocol.
pub record IsRegistered (request : RegisterWorkerRequest) (answer : RegisterWorkerResponse)
    : Type 0 where
  pub session :
      answer.session
      ≡ some (record { worker_id = request.worker_id; session_id = request.requested_session_id })
  pub worker : request.worker_id ≢ []
  pub session_id : request.requested_session_id ≢ []
  pub generation_low : 1 ≤ answer.session_generation
  pub generation_high : answer.session_generation ≤ i64_max
  pub protocol : answer.protocol_version ≡ version

validate_registration-IsRegistered :
    (request : RegisterWorkerRequest) (answer : RegisterWorkerResponse)
    → validate_registration request answer ≡ ok tt
    → IsRegistered request answer
unfolding validate_registration
validate_registration-IsRegistered request answer e = elim (Option-cases answer.session) [
  | inl n ↦ absurd (ground arith)
  | inr (s, n) ↦ ground (
    arith,
    bytes_eq_iff s.worker_id request.worker_id,
    bytes_eq_iff s.session_id request.requested_session_id,
  )
]

IsRegistered-register :
    (request : RegisterWorkerRequest) (answer : RegisterWorkerResponse)
    → IsRegistered request answer
    → register request (ok answer) ≡ ok answer
unfolding register
IsRegistered-register request answer h =
    let e = h.session in
    ground (
      arith,
      bytes_eq_iff request.worker_id request.worker_id,
      bytes_eq_iff request.requested_session_id request.requested_session_id,
    )

register-IsRegistered :
    (request : RegisterWorkerRequest) (reply : Result ClientError RegisterWorkerResponse)
    (answer : RegisterWorkerResponse)
    → register request reply ≡ ok answer
    → (reply ≡ ok answer) × IsRegistered request answer
unfolding register
register-IsRegistered request (err x) answer e = absurd (ground arith)
register-IsRegistered request (ok a) answer e =
    let (_, valid, rest) = >>=-ok (validate_registration request a) _ e in
    let same : a ≡ answer = ground arith in
    (
      ground arith,
      subst (IsRegistered request) same (validate_registration-IsRegistered request a valid),
    )

-- A registration succeeds exactly if the server answers with the session that was asked for, named
-- by both its parts, with a generation in range and the same version of the protocol.
pub register_iff :
    (request : RegisterWorkerRequest) (reply : Result ClientError RegisterWorkerResponse)
    (answer : RegisterWorkerResponse)
    → (register request reply ≡ ok answer) ↔ ((reply ≡ ok answer) × IsRegistered request answer)
register_iff request reply answer = (
  register-IsRegistered request reply answer,
  λ (e, h). rw e (IsRegistered-register request answer h),
)

-- An attempt of the worker itself, of whichever session.
pub record IsStop (worker_id : Bytes) (a : AttemptAuthority) : Type 0 where
  pub worker : a.worker_id ≡ worker_id
  pub generation_low : 1 ≤ a.generation
  pub generation_high : a.generation ≤ i64_max

none_refused :
    (worker_id : Bytes) (stops : List AttemptAuthority)
    → any (stop_refused worker_id) stops ≡ false
    → All (IsStop worker_id) stops
unfolding stop_refused
none_refused worker_id [] e = tt
none_refused worker_id (a ∷ stops) e =
    let (one, more) = ||_false (stop_refused worker_id a) (any (stop_refused worker_id) stops) e in
    (ground (arith, bytes_eq_iff a.worker_id worker_id), none_refused worker_id stops more)

heartbeat_checked :
    (request : HeartbeatRequest) (a answer : HeartbeatResponse) (session : WorkerSession)
    → request.session ≡ some session
    → heartbeat request (ok a) ≡ ok answer
    → (a ≡ answer) × (length a.stop ≤ 2048) × (any (stop_refused session.worker_id) a.stop ≡ false)
unfolding heartbeat validate_heartbeat
heartbeat_checked request a answer session s e =
    elim (Bool-cases (any (stop_refused session.worker_id) a.stop)) [
      | inl refused ↦ absurd (ground arith)
      | inr clear ↦ (ground arith, ground arith, clear)
    ]

-- A heartbeat's answer stops 2048 attempts at most, all of them of the worker that sent it, with
-- generations in range.
pub heartbeat-All :
    (request : HeartbeatRequest) (reply : Result ClientError HeartbeatResponse)
    (session : WorkerSession) (answer : HeartbeatResponse)
    → request.session ≡ some session
    → heartbeat request reply ≡ ok answer
    → (length answer.stop ≤ 2048) × All (IsStop session.worker_id) answer.stop
unfolding heartbeat
heartbeat-All request (err x) session answer s e = absurd (ground arith)
heartbeat-All request (ok a) session answer s e =
    let (same, few, clear) = heartbeat_checked request a answer session s e in
    subst
      (λ (h : HeartbeatResponse). (length h.stop ≤ 2048) × All (IsStop session.worker_id) h.stop)
      same (few, none_refused session.worker_id a.stop clear)
