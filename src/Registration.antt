-- ===== src/Registration.antt =====
-- rust/worker/src/control/logs.rs: the registration of a log segment. The transport's reply is an
-- argument.
pub mod Captured
use distributed_execution.Base.{
  ℕ, zero, suc, ◌+◌, ◌-◌, Bool, true, false, not, ◌&&◌, ◌||◌, ◌==◌, ltb, leb, Option, none, some,
  List, [], ◌∷◌, length, Result, ok, err, ◌>>=◌, ◌>>◌, guard, ok_or, i64_max,
}
use distributed_execution.Control.{
  ClientError, configuration, response, canonical_uuid, LogStream, log_stream_unspecified, stdout,
  stderr, LogGap, RegisterLogSegmentRequest, Decision, decision_try_from, decision_unspecified,
  accepted, fenced, stop_requested, already_terminal,
}
use distributed_execution.Phase.{
  AttemptState, attempt_state_try_from, is_active, is_terminal, is_assigned, is_unspecified,
  MutationResponse,
}
use distributed_execution.Upload.{has_authority}

pub record LogStatus : Type 0 where
  pub decision : Decision
  pub state : AttemptState

-- `LogStream::try_from`
abbrev pub log_stream_try_from : ℕ → Option LogStream
log_stream_try_from zero = some log_stream_unspecified
log_stream_try_from (suc zero) = some stdout
log_stream_try_from (suc (suc zero)) = some stderr
log_stream_try_from _ = none

abbrev is_output_stream : Option LogStream → Bool
is_output_stream (some stdout) = true
is_output_stream (some stderr) = true
is_output_stream _ = false

-- One pass of the loop over the gaps, after a gap that ended at `previous`.
unfoldable pub gap_fits : RegisterLogSegmentRequest → (previous : ℕ) → LogGap → Bool
gap_fits r previous gap =
    gap.stream == r.stream
    && ltb previous gap.first_sequence
    && leb r.first_sequence gap.first_sequence
    && leb gap.first_sequence gap.last_sequence
    && leb gap.last_sequence r.last_sequence

-- The loop: how many sequences the gaps drop.
unfoldable pub count_dropped :
    RegisterLogSegmentRequest → (previous dropped : ℕ) → List LogGap → Result ClientError ℕ
unfolding gap_fits
count_dropped r previous dropped [] = ok dropped
count_dropped r previous dropped (gap ∷ gaps) = do
  guard (gap_fits r previous gap) configuration
  count_dropped r gap.last_sequence (dropped + (gap.last_sequence - gap.first_sequence + 1)) gaps

-- The tests before the loop.
unfoldable pub names_range : RegisterLogSegmentRequest → Bool
names_range r =
    has_authority r.authority
    && canonical_uuid r.request_id
    && canonical_uuid r.artifact_id
    && is_output_stream (log_stream_try_from r.stream)
    && not (r.first_sequence == 0)
    && leb r.first_sequence r.last_sequence
    && leb r.last_sequence i64_max
    && leb (length r.gaps) 1024

unfoldable pub validate_request : RegisterLogSegmentRequest → Result ClientError (Unit {0})
unfolding names_range count_dropped
validate_request r = do
  guard (names_range r) configuration
  dropped ← count_dropped r (r.first_sequence - 1) 0 r.gaps
  guard (leb dropped (r.last_sequence - r.first_sequence)) configuration

-- The state that goes with a decision. An exact replay is accepted after the attempt ended, too.
unfoldable pub fits_state : Decision → AttemptState → Bool
fits_state accepted state = is_active state && not (is_assigned state) || is_terminal state
fits_state fenced state = is_active state || is_unspecified state
fits_state stop_requested state = is_active state
fits_state already_terminal state = is_terminal state
fits_state decision_unspecified state = false

unfoldable pub validate_response :
    RegisterLogSegmentRequest → MutationResponse → Result ClientError LogStatus
unfolding fits_state
validate_response r answer = do
  decision ← ok_or (decision_try_from answer.decision) response
  state ← ok_or (attempt_state_try_from answer.state) response
  guard (fits_state decision state) response
  ok (record { decision = decision; state = state })

-- `reply` is what the call gives, an error of the transport or of its timeout included.
unfoldable pub register_log_segment :
    RegisterLogSegmentRequest → Result ClientError MutationResponse → Result ClientError LogStatus
unfolding validate_request validate_response
register_log_segment r reply = do validate_request r; answer ← reply; validate_response r answer
