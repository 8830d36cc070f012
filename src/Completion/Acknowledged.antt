-- ===== src/Completion/Acknowledged.antt =====
-- What the answer to a completion acknowledges (rust/worker/src/control/completion.rs).
use mathlib.Core.List.{Perm}
use mathlib.Core.List.Perm
use mathlib.Core.Path.{subst}
use distributed_execution.Base.{
  ◌≡◌, refl, sym, ◌∙◌, ap, ok, true, false, Bytes, inl, inr, arith, not, ◌&&◌, Result, some, [],
  List, pos, ℤ, >>=-ok, guard-true, guarded, required_ok, sort_by, sort_by-Perm, equals_iff,
  list_eq, Option, is_empty, length, leb, ◌∷◌, Bool-cases, same_ok,
}
use distributed_execution.Control.{
  AttemptAuthority, authority_eq_iff, CompleteAttemptRequest, CompleteAttemptResponse, response,
  ClientError, reference_equality, OutputReference, Decision, accepted, failure_reason_try_from,
  FailureReason, failure_reason_unspecified, decision_try_from,
}
use distributed_execution.Phase.{AttemptState, succeeded, attempt_state_try_from}
use distributed_execution.Evidence.{Encoding}
use distributed_execution.Completion.{
  complete_attempt, validate_request, validate_response, validate_answer_manifest,
  validate_manifest, binds, same_outputs, opens_object, output_le, Manifest, CompletionStatus,
  accepts_success, decision_fits, expected_for, same_state,
}

-- The manifest is of the same attempt and has the same outputs, in any order.
abbrev pub Binds : (Bytes → Option Manifest) → CompleteAttemptRequest → Bytes → Type 0
Binds parse r raw =
    (m : Manifest) × (parse raw ≡ some m)
    × (r.authority ≡ some m.authority)
    × Perm m.outputs r.outputs

same_outputs-Perm :
    (actual expected : List OutputReference)
    → same_outputs actual expected ≡ true
    → Perm actual expected
unfolding same_outputs
same_outputs-Perm actual expected h =
    let sorted : sort_by output_le actual ≡ sort_by output_le expected =
      (equals_iff ⦃e = list_eq⦄ _ _).0 h in
    Perm.trans (Perm.symm (sort_by-Perm output_le actual))
      (subst (λ l. Perm l expected) (sym sorted) (sort_by-Perm output_le expected))

binds_authority :
    (m : Manifest) (a : AttemptAuthority) (r : CompleteAttemptRequest)
    → binds m a r ≡ true
    → m.authority ≡ a
unfolding binds
binds_authority m a r h = ground (arith, authority_eq_iff m.authority a)

manifest-Binds :
    (parse : Bytes → Option Manifest) (r : CompleteAttemptRequest) (raw : Bytes)
    → validate_manifest parse r raw ≡ ok tt
    → Binds parse r raw
unfolding validate_manifest
manifest-Binds parse r raw h =
    let (_, h1) = guarded (not (is_empty raw) && leb (length raw) 2_097_152) response _ h in
    let (_, h2) = guarded (opens_object raw) response _ h1 in
    let (m, parsed, h3) = required_ok (parse raw) response _ h2 in
    let (a, named, h4) = required_ok r.authority response _ h3 in
    let (bound, h5) = guarded (binds m a r) response _ h4 in
    let outputs = guard-true (same_outputs m.outputs r.outputs) response h5 in
    (
      m,
      parsed,
      named ∙ ap some (sym (binds_authority m a r bound)),
      same_outputs-Perm m.outputs r.outputs outputs,
    )

-- What an answer's manifest has to be.
abbrev pub Acknowledges :
    (Bytes → Option Manifest) → CompleteAttemptRequest → CompletionStatus → Type 0
Acknowledges parse r status =
    (accepts_success status.decision status.state ≡ true
      → (r.reason ≡ pos 0) × Binds parse r status.accepted_manifest_json)
    × (accepts_success status.decision status.state ≡ false → status.accepted_manifest_json ≡ [])

answer_manifest :
    (parse : Bytes → Option Manifest) (r : CompleteAttemptRequest) (d : Decision) (s : AttemptState)
    (raw : Bytes)
    → validate_answer_manifest parse r d s raw ≡ ok tt
    → (accepts_success d s ≡ true → Binds parse r raw) × (accepts_success d s ≡ false → raw ≡ [])
unfolding validate_answer_manifest
answer_manifest parse r d s raw h = elim (Bool-cases (accepts_success d s)) [
  | inl success ↦ (λ e. manifest-Binds parse r raw (rw success at h), λ e. absurd (ground arith))
  | inr other ↦ (
    λ e. absurd (ground arith),
    λ e. empty raw (guard-true (is_empty raw) response (rw other at h)),
  )
]
  where
    empty : (bytes : Bytes) → is_empty bytes ≡ true → bytes ≡ []
    empty [] e = refl
    empty (b ∷ bs) e = absurd (ground arith)

success_claimed :
    (d : Decision) (s : AttemptState) (reason : ℤ) (f : FailureReason)
    → failure_reason_try_from reason ≡ some f
    → decision_fits d s (expected_for f) ≡ true
    → accepts_success d s ≡ true
    → reason ≡ pos 0
unfolding decision_fits
success_claimed d s reason f h k e =
    let agreed : d ≡ accepted = ground arith in
    let done : s ≡ succeeded = ground arith in
    let fits : same_state succeeded (expected_for f) ≡ true =
      subst (λ t. same_state t (expected_for f) ≡ true) done
        (subst (λ b. decision_fits b s (expected_for f) ≡ true) agreed k) in
    let unspecified : f ≡ failure_reason_unspecified = ground arith in ground arith

response-Acknowledges :
    (parse : Bytes → Option Manifest) (r : CompleteAttemptRequest)
    (answer : CompleteAttemptResponse) (status : CompletionStatus)
    → validate_response parse r answer ≡ ok status
    → Acknowledges parse r status
unfolding validate_response
response-Acknowledges parse r answer status h =
    let (d, _, h1) = required_ok (decision_try_from answer.decision) response _ h in
    let (s, _, h2) = required_ok (attempt_state_try_from answer.state) response _ h1 in
    let (f, reason, h3) = required_ok (failure_reason_try_from r.reason) response _ h2 in
    let (fits, h4) = guarded (decision_fits d s (expected_for f)) response _ h3 in
    let raw = answer.accepted_manifest_json in
    let (_, checked, h5) = >>=-ok (validate_answer_manifest parse r d s raw) _ h4 in
    let (bound, empty) = answer_manifest parse r d s raw checked in
    subst (Acknowledges parse r) (same_ok h5)
      ((λ e. (success_claimed d s r.reason f reason fits e, bound e)), empty)

-- An answer that is taken for a completion acknowledges a success only of a completion that claims
-- one, and then by a manifest of the very same attempt with exactly the completion's outputs, in
-- any order; every other answer comes without a manifest.
pub complete_attempt-Acknowledges :
    (e : Encoding) (parse : Bytes → Option Manifest) (r : CompleteAttemptRequest)
    (reply : Result ClientError CompleteAttemptResponse) (status : CompletionStatus)
    → complete_attempt e parse r reply ≡ ok status
    → Acknowledges parse r status
unfolding complete_attempt
complete_attempt-Acknowledges e parse r reply status h =
    let (_, _, h1) = >>=-ok (validate_request e r) _ h in
    let (answer, _, h2) = >>=-ok reply _ h1 in response-Acknowledges parse r answer status h2
