-- ===== src/Phase.antt =====
-- rust/worker/src/control/phase.rs: the report that an attempt has reached a phase.
-- The transport's reply is an argument. An enumeration on the wire is the number it carries.
pub mod Progress
use distributed_execution.Base.{
  ℕ, zero, suc, Bool, true, false, not, ◌&&◌, ◌||◌, ◌==◌, ltb, leb, all, is_empty, length, Option,
  none, some, Bytes, Result, ok, err, ◌>>=◌, ◌>>◌, guard, ok_or, i64_max, ℤ, pos, negsuc,
}
use distributed_execution.Control.{
  AttemptAuthority, ClientError, configuration, response, Decision, decision_try_from,
  decision_unspecified, accepted, fenced, stop_requested, already_terminal, canonical_uuid,
  lower_hash,
}

pub data AttemptState : Type 0 where
  attempt_state_unspecified assigned starting running finalizing : AttemptState
  succeeded failed lost cancelled : AttemptState

-- `AttemptState::try_from`
abbrev attempt_state_code : ℕ → Option AttemptState
attempt_state_code zero = some attempt_state_unspecified
attempt_state_code (suc zero) = some assigned
attempt_state_code (suc (suc zero)) = some starting
attempt_state_code (suc (suc (suc zero))) = some running
attempt_state_code (suc (suc (suc (suc zero)))) = some finalizing
attempt_state_code (suc (suc (suc (suc (suc zero))))) = some succeeded
attempt_state_code (suc (suc (suc (suc (suc (suc zero)))))) = some failed
attempt_state_code (suc (suc (suc (suc (suc (suc (suc zero))))))) = some lost
attempt_state_code (suc (suc (suc (suc (suc (suc (suc (suc zero)))))))) = some cancelled
attempt_state_code _ = none

abbrev pub attempt_state_try_from : ℤ → Option AttemptState
attempt_state_try_from (pos n) = attempt_state_code n
attempt_state_try_from (negsuc n) = none

pub record ReportPhaseRequest : Type 0 where
  pub authority : Option AttemptAuthority
  pub event_id : Bytes
  pub phase : ℤ
  pub container_id : Bytes
  pub exit_code : Option ℤ

pub record MutationResponse : Type 0 where
  pub decision : ℤ
  pub state : ℤ

pub record PhaseStatus : Type 0 where
  pub decision : Decision
  pub state : AttemptState

abbrev has_no_exit : Option ℤ → Bool
has_no_exit none = true
has_no_exit (some code) = false

abbrev has_exit_code : Option ℤ → Bool
has_exit_code (some (pos n)) = leb n 255
has_exit_code _ = false

-- What a phase's report must show.
abbrev shows_phase : Option AttemptState → Bytes → Option ℤ → Bool
shows_phase (some starting) container_id exit_code = is_empty container_id && has_no_exit exit_code
shows_phase (some running) container_id exit_code = lower_hash container_id && has_no_exit exit_code
shows_phase (some finalizing) container_id exit_code =
    lower_hash container_id && has_exit_code exit_code
shows_phase _ container_id exit_code = false

unfoldable pub validate_request : ReportPhaseRequest → Result ClientError (Unit {0})
validate_request r = do
  a ← ok_or r.authority configuration
  guard
      (canonical_uuid r.event_id
        && canonical_uuid a.worker_id
        && canonical_uuid a.session_id
        && canonical_uuid a.job_id
        && canonical_uuid a.attempt_id
        && not (a.generation == 0)
        && not (ltb i64_max a.generation))
      configuration
  guard (shows_phase (attempt_state_try_from r.phase) r.container_id r.exit_code) configuration

abbrev pub is_active : AttemptState → Bool
is_active assigned = true
is_active starting = true
is_active running = true
is_active finalizing = true
is_active _ = false

abbrev pub is_terminal : AttemptState → Bool
is_terminal succeeded = true
is_terminal failed = true
is_terminal lost = true
is_terminal cancelled = true
is_terminal _ = false

abbrev pub is_assigned : AttemptState → Bool
is_assigned assigned = true
is_assigned _ = false

abbrev pub is_unspecified : AttemptState → Bool
is_unspecified attempt_state_unspecified = true
is_unspecified _ = false

-- `a >= b` on the wire's signed numbers.
abbrev at_least : ℤ → ℤ → Bool
at_least (pos a) (pos b) = leb b a
at_least (pos a) (negsuc b) = true
at_least (negsuc a) (pos b) = false
at_least (negsuc a) (negsuc b) = leb a b

-- The state that goes with a decision. `reached` is the state's number, `asked` the phase's.
abbrev fits_decision : Decision → AttemptState → (reached asked : ℤ) → Bool
fits_decision accepted state reached asked =
    is_active state && not (is_assigned state) && at_least reached asked
fits_decision fenced state reached asked = is_active state || is_unspecified state
fits_decision stop_requested state reached asked = is_active state
fits_decision already_terminal state reached asked = is_terminal state
fits_decision decision_unspecified state reached asked = false

unfoldable pub validate_response :
    ReportPhaseRequest → MutationResponse → Result ClientError PhaseStatus
validate_response r answer = do
  decision ← ok_or (decision_try_from answer.decision) response
  state ← ok_or (attempt_state_try_from answer.state) response
  guard (fits_decision decision state answer.state r.phase) response
  ok (record { decision = decision; state = state })

-- `reply` is what the call gives, an error of the transport or of its timeout included.
unfoldable pub report_phase :
    ReportPhaseRequest → Result ClientError MutationResponse → Result ClientError PhaseStatus
unfolding validate_request validate_response
report_phase r reply = do validate_request r; answer ← reply; validate_response r answer
