-- ===== src/Renewal/Requests.antt =====
-- The batches that rust/worker/src/control/renew.rs sends.
use distributed_execution.Base.{
  ◌≤◌, ◌≡◌, ◌≢◌, ◌↔◌, refl, inl, inr, true, false, some, List, [], ◌∷◌, length, Bytes, bytes_eq,
  bytes_eq_iff, ok, arith, Option-cases, any, i64_max,
}
use distributed_execution.Control.{
  AttemptAuthority, WorkerSession, RenewLeasesRequest, canonical_uuid, valid_session,
}
use distributed_execution.Renewal.{attempt_refused, validate_attempts, validate_request}

-- An attempt that may be renewed in a session.
pub record IsRenewable (session : WorkerSession) (a : AttemptAuthority) : Type 0 where
  pub worker : a.worker_id ≡ session.worker_id
  pub session_of : a.session_id ≡ session.session_id
  pub job : canonical_uuid a.job_id ≡ true
  pub attempt : canonical_uuid a.attempt_id ≡ true
  pub generation_low : 1 ≤ a.generation
  pub generation_high : a.generation ≤ i64_max

abbrev pub Absent : Bytes → List Bytes → Type 0
Absent x [] = Unit {0}
Absent x (y ∷ ys) = (x ≢ y) × Absent x ys

-- Each attempt is renewable, and its id is neither in `seen` nor that of an attempt before it.
abbrev pub AllRenewable : WorkerSession → List Bytes → List AttemptAuthority → Type 0
AllRenewable session seen [] = Unit {0}
AllRenewable session seen (a ∷ as') =
    IsRenewable session a
    × Absent a.attempt_id seen
    × AllRenewable session (a.attempt_id ∷ seen) as'

any-Absent : (x : Bytes) (ys : List Bytes) → any (bytes_eq x) ys ≡ false → Absent x ys
any-Absent x [] h = tt
any-Absent x (y ∷ ys) h = (λ e. ground (arith, bytes_eq_iff x y), any-Absent x ys (ground arith))

Absent-any : (x : Bytes) (ys : List Bytes) → Absent x ys → any (bytes_eq x) ys ≡ false
Absent-any x [] h = refl
Absent-any x (y ∷ ys) h = ground (arith, bytes_eq_iff x y, Absent-any x ys h.1)

attempt_refused_iff :
    (session : WorkerSession) (a : AttemptAuthority)
    → (attempt_refused session a ≡ false) ↔ IsRenewable session a
unfolding attempt_refused
attempt_refused_iff session a = (
  λ h. ground (
    arith,
    bytes_eq_iff a.worker_id session.worker_id,
    bytes_eq_iff a.session_id session.session_id,
  ),
  λ h. ground (
    arith,
    bytes_eq_iff a.worker_id session.worker_id,
    bytes_eq_iff a.session_id session.session_id,
  ),
)

validate_attempts-AllRenewable :
    (session : WorkerSession) (seen : List Bytes) (attempts : List AttemptAuthority)
    → validate_attempts session seen attempts ≡ ok tt
    → AllRenewable session seen attempts
unfolding validate_attempts
validate_attempts-AllRenewable session seen [] h = tt
validate_attempts-AllRenewable session seen (a ∷ as') h =
    let refused = attempt_refused_iff session a in
    ground (
      arith,
      any-Absent a.attempt_id seen,
      validate_attempts-AllRenewable session (a.attempt_id ∷ seen) as',
    )

AllRenewable-validate_attempts :
    (session : WorkerSession) (seen : List Bytes) (attempts : List AttemptAuthority)
    → AllRenewable session seen attempts
    → validate_attempts session seen attempts ≡ ok tt
unfolding validate_attempts
AllRenewable-validate_attempts session seen [] h = refl
AllRenewable-validate_attempts session seen (a ∷ as') h =
    let refused = (attempt_refused_iff session a).1 h.0 in
    let fresh = Absent-any a.attempt_id seen h.1 in
    ground (arith, AllRenewable-validate_attempts session (a.attempt_id ∷ seen) as' h.2)

-- A batch for the session `s`.
pub record IsBatch (s : WorkerSession) (request : RenewLeasesRequest) : Type 0 where
  pub of_session : request.session ≡ some s
  pub worker : canonical_uuid s.worker_id ≡ true
  pub session_id : canonical_uuid s.session_id ≡ true
  pub request_id : canonical_uuid request.request_id ≡ true
  pub some_attempt : 1 ≤ length request.attempts
  pub few_attempts : length request.attempts ≤ 64
  pub attempts : AllRenewable s [] request.attempts

validate_request-IsBatch :
    (request : RenewLeasesRequest)
    → validate_request request ≡ ok tt
    → (s : WorkerSession) × IsBatch s request
unfolding validate_request valid_session
validate_request-IsBatch request h = elim (Option-cases request.session) [
  | inl e ↦ absurd (ground arith)
  | inr (s, e) ↦ (s, ground (arith, validate_attempts-AllRenewable s [] request.attempts))
]

IsBatch-validate_request :
    (request : RenewLeasesRequest) (s : WorkerSession)
    → IsBatch s request
    → validate_request request ≡ ok tt
unfolding validate_request valid_session
IsBatch-validate_request request s h =
    let e = h.of_session in
    ground (arith, AllRenewable-validate_attempts s [] request.attempts h.attempts)

-- A request is sent exactly if it has a canonical id and a session, and one to 64 attempts of that
-- session with canonical ids and generations in range, no attempt twice.
pub validate_request_iff :
    (request : RenewLeasesRequest)
    → (validate_request request ≡ ok tt) ↔ ((s : WorkerSession) × IsBatch s request)
validate_request_iff request =
    (validate_request-IsBatch request, λ (s, h). IsBatch-validate_request request s h)
