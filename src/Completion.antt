-- ===== src/Completion.antt =====
-- rust/worker/src/control/completion.rs: the delivery of a completion and its acknowledgement. The
-- transport's reply and serde's reading of a manifest are arguments.
pub mod Acknowledged
use distributed_execution.Base.{
  ℕ, zero, suc, Bool, true, false, not, ◌&&◌, ◌||◌, ◌==◌, ltb, leb, if◌then◌else◌, Option, none,
  some, List, [], ◌∷◌, map, is_empty, length, Bytes, bytes_eq, ascii, Result, ok, err, ◌>>=◌, ◌>>◌,
  guard, ok_or, ℤ, pos, negsuc, equals, list_eq, sort_by, bytes_le,
}
use distributed_execution.Control.{
  AttemptAuthority, authority_eq, ClientError, configuration, response, lower_hash, OutputReference,
  reference_equality, CompleteAttemptRequest, CompleteAttemptResponse, FailureReason,
  failure_reason_unspecified, user_cancelled, failure_reason_try_from, Decision, decision_try_from,
  decision_unspecified, accepted, fenced, stop_requested, already_terminal,
}
use distributed_execution.Phase.{
  AttemptState, attempt_state_try_from, succeeded, failed, cancelled, is_active, is_terminal,
  is_unspecified,
}
use distributed_execution.Evidence.{Encoding, completion_digest}

pub record CompletionStatus : Type 0 where
  pub decision : Decision
  pub state : AttemptState
  pub accepted_manifest_json : Bytes

-- The manifest's fields that are compared; its outputs are named as the request's.
pub record Manifest : Type 0 where
  pub version : ℕ
  pub authority : AttemptAuthority
  pub state : Bytes
  pub exit_code : Option ℤ
  pub reason : Bytes
  pub cleanup_pending : Bool
  pub outputs : List OutputReference

-- The derived order of `Output`.
abbrev pub output_le : OutputReference → OutputReference → Bool
output_le a b =
    not (bytes_le b.name a.name) || bytes_eq a.name b.name && bytes_le a.artifact_id b.artifact_id

-- `is_ascii_whitespace`
abbrev is_whitespace : ℕ → Bool
is_whitespace b = b == 32 || b == 9 || b == 10 || b == 12 || b == 13

-- `raw.iter().find(|byte| !byte.is_ascii_whitespace()) == Some(&b'{')`
unfoldable pub opens_object : Bytes → Bool
opens_object [] = false
opens_object (b ∷ bs) = let rest = opens_object bs in if is_whitespace b then rest else b == b'{'

abbrev exits_zero : Option ℤ → Bool
exits_zero (some (pos zero)) = true
exits_zero _ = false

unfoldable pub binds : Manifest → AttemptAuthority → CompleteAttemptRequest → Bool
binds m a r =
    m.version == 1
    && bytes_eq m.state (ascii "SUCCEEDED")
    && exits_zero m.exit_code
    && is_empty m.reason
    && not m.cleanup_pending
    && authority_eq m.authority a
    && length m.outputs == length r.outputs

unfoldable pub same_outputs : List OutputReference → List OutputReference → Bool
same_outputs actual expected =
    equals ⦃e = list_eq⦄ (sort_by output_le actual) (sort_by output_le expected)

-- The state that an accepted completion leads to.
abbrev expected_for : FailureReason → AttemptState
expected_for failure_reason_unspecified = succeeded
expected_for user_cancelled = cancelled
expected_for _ = failed

abbrev same_state : AttemptState → AttemptState → Bool
same_state succeeded succeeded = true
same_state failed failed = true
same_state cancelled cancelled = true
same_state _ _ = false

unfoldable pub decision_fits : Decision → (state expected : AttemptState) → Bool
decision_fits accepted state expected = same_state state expected
decision_fits already_terminal state expected = is_terminal state
decision_fits fenced state expected = is_active state || is_unspecified state
decision_fits stop_requested state expected = is_active state
decision_fits decision_unspecified state expected = false

-- `decision == Accepted && state == Succeeded`
abbrev pub accepts_success : Decision → AttemptState → Bool
accepts_success accepted succeeded = true
accepts_success _ _ = false

module _ (parse : Bytes → Option Manifest) where
  unfoldable pub validate_manifest : CompleteAttemptRequest → Bytes → Result ClientError (Unit {0})
  unfolding opens_object binds same_outputs
  validate_manifest r raw = do
    guard (not (is_empty raw) && leb (length raw) 2_097_152) response
    guard (opens_object raw) response
    m ← ok_or (parse raw) response
    a ← ok_or r.authority response
    guard (binds m a r) response
    guard (same_outputs m.outputs r.outputs) response

  unfoldable pub validate_answer_manifest :
      CompleteAttemptRequest → Decision → AttemptState → Bytes → Result ClientError (Unit {0})
  unfolding validate_manifest
  validate_answer_manifest r decision state raw =
      let checked = validate_manifest r raw in
      if accepts_success decision state then checked else guard (is_empty raw) response

  unfoldable pub validate_response :
      CompleteAttemptRequest → CompleteAttemptResponse → Result ClientError CompletionStatus
  unfolding decision_fits validate_answer_manifest
  validate_response r answer = do
    decision ← ok_or (decision_try_from answer.decision) response
    state ← ok_or (attempt_state_try_from answer.state) response
    reason ← ok_or (failure_reason_try_from r.reason) response
    guard (decision_fits decision state (expected_for reason)) response
    validate_answer_manifest r decision state answer.accepted_manifest_json
    ok (record {
      decision = decision;
      state = state;
      accepted_manifest_json = answer.accepted_manifest_json;
    })

module _ (e : Encoding) where
  unfoldable pub validate_request : CompleteAttemptRequest → Result ClientError (Unit {0})
  unfolding completion_digest
  validate_request r = do
    guard (lower_hash r.payload_sha256) configuration
    digest ← completion_digest e r
    guard (bytes_eq digest r.payload_sha256) configuration

  -- `reply` is what the call gives, an error of the transport or of its timeout included.
  unfoldable pub complete_attempt :
      (Bytes → Option Manifest)
      → CompleteAttemptRequest
      → Result ClientError CompleteAttemptResponse
      → Result ClientError CompletionStatus
  unfolding validate_request validate_response
  complete_attempt parse r reply = do
    validate_request r
    answer ← reply
    validate_response parse r answer
