-- ===== src/Phase/Progress.antt =====
-- The answers that `report_phase` of rust/worker/src/control/phase.rs takes.
use distributed_execution.Base.{
  ℕ, ◌≤◌, ◌≡◌, refl, inl, inr, true, Option, none, some, Bytes, Result, ok, err, arith, ℤ, pos,
  negsuc, ok_or, guard, >>=-ok, ok_or-some, guard-true, Bool-cases,
}
use mathlib.Core.Path.{subst}
use distributed_execution.Control.{
  response, ClientError, Decision, accepted, fenced, stop_requested, already_terminal,
  decision_unspecified, decision_try_from,
}
use distributed_execution.Phase.{
  AttemptState, attempt_state_unspecified, assigned, starting, running, finalizing, succeeded,
  failed, lost, cancelled, ReportPhaseRequest, MutationResponse, PhaseStatus, report_phase,
  validate_request, validate_response, shows_phase, attempt_state_try_from, fits_decision,
}

-- The wire's number of a state.
abbrev pub number : AttemptState → ℕ
number attempt_state_unspecified = 0
number assigned = 1
number starting = 2
number running = 3
number finalizing = 4
number succeeded = 5
number failed = 6
number lost = 7
number cancelled = 8

-- What an answer to a report of phase number `phase` may say.
abbrev pub Reports : ℕ → Decision → ℕ → Type 0
Reports phase accepted state = (phase ≤ state) × (state ≤ 4)
Reports phase fenced state = state ≤ 4
Reports phase stop_requested state = (1 ≤ state) × (state ≤ 4)
Reports phase already_terminal state = (5 ≤ state) × (state ≤ 8)
Reports phase decision_unspecified state = ⊥

numbered : (n : ℤ) (s : AttemptState) → attempt_state_try_from n ≡ some s → n ≡ pos (number s)
numbered (pos n) s e = ground arith
numbered (negsuc n) s e = absurd (ground arith)

shown_state :
    (state : Option AttemptState) (container_id : Bytes) (exit_code : Option ℤ)
    → shows_phase state container_id exit_code ≡ true
    → (s : AttemptState) × (state ≡ some s) × (2 ≤ number s) × (number s ≤ 4)
shown_state (some starting) c x e = (starting, refl, omega arith, omega arith)
shown_state (some running) c x e = (running, refl, omega arith, omega arith)
shown_state (some finalizing) c x e = (finalizing, refl, omega arith, omega arith)
shown_state (some attempt_state_unspecified) c x e = absurd (ground arith)
shown_state (some assigned) c x e = absurd (ground arith)
shown_state (some succeeded) c x e = absurd (ground arith)
shown_state (some failed) c x e = absurd (ground arith)
shown_state (some lost) c x e = absurd (ground arith)
shown_state (some cancelled) c x e = absurd (ground arith)
shown_state none c x e = absurd (ground arith)

valid_shows :
    (r : ReportPhaseRequest)
    → validate_request r ≡ ok tt
    → shows_phase (attempt_state_try_from r.phase) r.container_id r.exit_code ≡ true
unfolding validate_request
valid_shows r e =
    elim (Bool-cases (shows_phase (attempt_state_try_from r.phase) r.container_id r.exit_code)) [
      | inl shows ↦ shows
      | inr hides ↦ absurd (ground arith)
    ]

fits-Reports :
    (phase : ℕ) (d : Decision) (s : AttemptState)
    → 2 ≤ phase
    → fits_decision d s (pos (number s)) (pos phase) ≡ true
    → Reports phase d (number s)
fits-Reports phase accepted s h e = ground arith
fits-Reports phase fenced s h e = ground arith
fits-Reports phase stop_requested s h e = ground arith
fits-Reports phase already_terminal s h e = ground arith
fits-Reports phase decision_unspecified s h e = absurd (ground arith)

abbrev succeeds : PhaseStatus → Result ClientError PhaseStatus
succeeds = ok

same_status :
    (d : Decision) (s : AttemptState) (status : PhaseStatus)
    → succeeds (record { decision = d; state = s }) ≡ succeeds status
    → (d ≡ status.decision) × (s ≡ status.state)
same_status d s status e = ground arith

response_fits :
    (r : ReportPhaseRequest) (answer : MutationResponse) (status : PhaseStatus)
    → validate_response r answer ≡ ok status
    → (attempt_state_try_from answer.state ≡ some status.state)
      × (fits_decision status.decision status.state answer.state r.phase ≡ true)
unfolding validate_response
response_fits r answer status e =
    let (d, p, k) = >>=-ok (ok_or (decision_try_from answer.decision) response) _ e in
    let (s, q, l) = >>=-ok (ok_or (attempt_state_try_from answer.state) response) _ k in
    let (u, f, m) = >>=-ok (guard (fits_decision d s answer.state r.phase) response) _ l in
    let (i, j) = same_status d s status m in
    (
      subst (λ x. attempt_state_try_from answer.state ≡ some x) j (ok_or-some _ response q),
      subst (λ x. fits_decision x status.state answer.state r.phase ≡ true) i
          (subst (λ x. fits_decision d x answer.state r.phase ≡ true) j (guard-true _ response f)),
    )

-- A report that is answered named a phase from starting to finalizing; an accepted one finds the
-- attempt in that phase or a later one that is not terminal, a fenced one or one to be stopped not
-- terminal, and one that is told it is terminal in a terminal state.
pub report_phase-Reports :
    (r : ReportPhaseRequest) (reply : Result ClientError MutationResponse) (status : PhaseStatus)
    → report_phase r reply ≡ ok status
    → (phase : ℕ) × (r.phase ≡ pos phase)
      × (2 ≤ phase)
      × (phase ≤ 4)
      × Reports phase status.decision (number status.state)
unfolding report_phase
report_phase-Reports r (err x) status e = absurd (ground arith)
report_phase-Reports r (ok answer) status e =
    let (_, valid, rest) = >>=-ok (validate_request r) _ e in
    let (s, known, low, high) = shown_state _ _ _ (valid_shows r valid) in
    let (state, fits) = response_fits r answer status rest in
    let phase = numbered r.phase s known in
    (
      number s,
      phase,
      low,
      high,
      fits-Reports (number s) status.decision status.state low (
          subst (λ (n : ℤ). fits_decision status.decision status.state n (pos (number s)) ≡ true)
            (numbered answer.state status.state state)
            (subst (λ (n : ℤ). fits_decision status.decision status.state answer.state n ≡ true)
              phase fits)),
    )
