-- ===== src/Journal/Steps.antt =====
-- The operations of rust/worker/src/journal.rs keep what was recorded.
use mathlib.Core.Path.{subst}
use distributed_execution.Base.{
  ℤ, zero, suc, negsuc, ◌⊎◌, ◌≡◌, refl, sym, ap, ◌∙◌, inl, inr, arith, true, not, Option, none,
  some, [], ◌∷◌, is_empty, Bytes, map_err, Bool-cases, Option-cases, guarded, required_ok, >>=-ok,
  pos, ℤ_eq_iff, equals, option_eq, integer_eq,
}
use distributed_execution.Control.{
  decision_try_from, CompleteAttemptRequest, CompleteAttemptResponse, AttemptAuthority,
  authority_equality, completion_equality, completion_answer_equality,
}
use distributed_execution.Phase.{AttemptState}
use distributed_execution.Phase.Progress.{number}
use distributed_execution.Completion.{validate_response}
use distributed_execution.Journal.Records.{
  conflict, identity, ExitEvidence, exit_equality, Record, Texts, exit_of, is_none,
}
use distributed_execution.Journal.Uploads.{as_invalid}
use distributed_execution.Journal.Validity.{validate_completion}
use distributed_execution.Journal.Ids.{new_uuid}
use distributed_execution.Journal.Attempts.{
  done, bind_container_change, record_exit_change, prepare_phase_change, phase_allowed, find_report,
  phase_report, persist_completion_change, supersede_change, cancels, may_supersede,
  completion_response_change, answer_replaces, is_final_answer,
}
use distributed_execution.Journal.Advances.{
  Advances, Keeps, Ends, replaced, not_kept, same_not_replaced, container-Advances, exits,
  reports_phase, completes, answers, supersedes, some_same,
}

pub bind_container-Keeps : (container_id : Bytes) → Keeps (bind_container_change container_id)
unfolding bind_container_change
bind_container-Keeps container_id r r' u h =
    let (_, h1) = guarded (not (is_empty r.phase_reports)) conflict _ h in
    elim (Bool-cases (is_empty r.container_id)) [
      | inl unbound ↦
          let (_, h2) = guarded (is_none r.completion) conflict _ (rw unbound at h1) in
          subst (Advances r) (replaced done u _ r' h2)
            (container-Advances r container_id (empty r.container_id unbound))
      | inr bound ↦ absurd (same_not_replaced _ u r' (rw bound at h1))
    ]
  where
    empty : (bytes : Bytes) → is_empty bytes ≡ true → bytes ≡ []
    empty [] e = refl
    empty (b ∷ bs) e = absurd (ground arith)

pub record_exit-Keeps : (evidence : ExitEvidence) → Keeps (record_exit_change evidence)
unfolding record_exit_change
record_exit-Keeps evidence r r' u h =
    let (_, h1) = guarded (not (is_empty r.container_id)) conflict _ h in
    elim (Option-cases r.exit) [
      | inl running ↦
          subst (Advances r) (replaced done u _ r' (rw running at h1)) (exits r evidence running)
      | inr (old, exited) ↦ absurd (same_not_replaced _ u r' (rw exited at h1))
    ]

pub prepare_phase-Keeps :
    (phase : AttemptState) (fill : Option Bytes) → Keeps (prepare_phase_change phase fill)
unfolding prepare_phase_change
prepare_phase-Keeps phase fill r r' report h =
    elim (Option-cases (find_report (pos (number phase)) r.phase_reports)) [
      | inl first ↦
          let (_, h1) =
            guarded (is_none r.completion) conflict _ (rw (first, prepare_phase_change) at h) in
          let (allowed, _, h2) = >>=-ok (phase_allowed phase r) _ h1 in
          let (_, h3) = guarded allowed conflict _ h2 in
          let (event_id, _, h4) = >>=-ok (new_uuid fill) _ h3 in
          subst (Advances r) (replaced _ report _ r' h4)
            (reports_phase r (phase_report phase event_id r))
      | inr (saved, found) ↦
          absurd (not_kept saved report r' (rw (found, prepare_phase_change) at h))
    ]

pub persist_completion-Keeps :
    (t : Texts) (request : CompleteAttemptRequest) (a : AttemptAuthority)
    → Keeps (persist_completion_change t request a)
unfolding persist_completion_change
persist_completion-Keeps t request a r r' u h =
    let (_, h1) = guarded (equals r.assignment.authority (some a)) identity _ h in
    elim (Option-cases r.completion) [
      | inl pending ↦
          let (_, h2) =
            guarded (equals request.exit_code (exit_of r.exit)) conflict _ (rw pending at h1) in
          let (_, _, h3) =
            >>=-ok
              (map_err (λ why. conflict)
                (validate_completion t (record r { completion = some request })))
              _ h2 in
          subst (Advances r) (replaced done u _ r' h3) (completes r request pending)
      | inr (saved, sealed) ↦ absurd (same_not_replaced _ u r' (rw sealed at h1))
    ]

cancels_first :
    (request : CompleteAttemptRequest) (a : AttemptAuthority) (r : Record)
    → cancels request a r ≡ true
    → r.rejected_completion ≡ none
unfolding cancels
cancels_first request a r h = nothing r.rejected_completion (ground arith)
  where
    nothing : (o : Option CompleteAttemptRequest) → is_none o ≡ true → o ≡ none
    nothing none e = refl
    nothing (some c) e = absurd (ground arith)

rejected_stopping :
    (request previous : CompleteAttemptRequest) (answer : CompleteAttemptResponse)
    → may_supersede request previous answer ≡ true
    → answer.decision ≡ pos 3
unfolding may_supersede
rejected_stopping request previous answer h = ground (arith, ℤ_eq_iff answer.decision (pos 3))

pub supersede-Keeps :
    (t : Texts) (request : CompleteAttemptRequest) (a : AttemptAuthority)
    → Keeps (supersede_change t request a)
unfolding supersede_change
supersede-Keeps t request a r r' u h =
    let (cancelled, h1) = guarded (cancels request a r) conflict _ h in
    let (previous, pending, h2) = required_ok r.completion conflict _ h1 in
    let (answer, answered, h3) = required_ok r.completion_response conflict _ h2 in
    let (stopping, h4) = guarded (may_supersede request previous answer) conflict _ h3 in
    subst (Advances r) (replaced done u _ r' h4) (
      supersedes r request previous answer pending answered (cancels_first request a r cancelled)
        (rejected_stopping request previous answer stopping))

stop_replaced :
    (saved answer : CompleteAttemptResponse)
    → answer_replaces saved answer ≡ true
    → saved.decision ≡ pos 3
stop_replaced saved answer h = ground (arith, ℤ_eq_iff saved.decision (pos 3))

final_ends :
    (decision : ℤ)
    → is_final_answer (decision_try_from decision) ≡ true
    → (decision ≡ pos 2) ⊎ (decision ≡ pos 4)
final_ends (pos zero) h = absurd (ground arith)
final_ends (pos (suc zero)) h = absurd (ground arith)
final_ends (pos (suc (suc zero))) h = inl refl
final_ends (pos (suc (suc (suc zero)))) h = absurd (ground arith)
final_ends (pos (suc (suc (suc (suc zero))))) h = inr refl
final_ends (pos (suc (suc (suc (suc (suc n)))))) h = absurd (ground arith)
final_ends (negsuc n) h = absurd (ground arith)

ending_replaces :
    (saved answer : CompleteAttemptResponse) → answer_replaces saved answer ≡ true → Ends answer
ending_replaces saved answer h = final_ends answer.decision (ground arith)

pub completion_response-Keeps :
    (t : Texts) (request : CompleteAttemptRequest) (answer : CompleteAttemptResponse)
    → Keeps (completion_response_change t request answer)
unfolding completion_response_change
completion_response-Keeps t request answer r r' u h =
    let (_, h1) = guarded (equals r.completion (some request)) conflict _ h in
    let (_, _, h2) = >>=-ok (as_invalid (validate_response t.parse_manifest request answer)) _ h1 in
    elim (Option-cases r.completion_response) [
      | inl first ↦
          subst (Advances r) (replaced done u _ r' (rw first at h2))
            (answers r answer (λ saved e. absurd (ground arith)))
      | inr (saved, answered) ↦ elim (Bool-cases (equals saved answer)) [
        | inl same ↦ absurd (not_kept done u r' (rw same at (rw answered at h2)))
        | inr other ↦
            let (further, h3) =
              guarded (answer_replaces saved answer) conflict _ (rw other at (rw answered at h2)) in
            subst (Advances r) (replaced done u _ r' h3) (
              answers r answer (λ before e. (
                ap (λ (x : CompleteAttemptResponse). x.decision)
                      (some_same before saved (sym e ∙ answered))
                    ∙ stop_replaced saved answer further,
                ending_replaces saved answer further,
              )))
      ]
    ]
