-- ===== src/Journal/Calls.antt =====
-- Sequences of calls of the journal of rust/worker/src/journal.rs, on any attempts.
use mathlib.Core.Path.{subst}
use distributed_execution.Base.{
  ◌≡◌, sym, ◌∙◌, inl, inr, Option, none, some, List, [], ◌∷◌, Bytes, bytes_eq, Result, ok, guard,
  ok_or, same_ok,
}
use distributed_execution.Control.{
  Assignment, CompleteAttemptRequest, CompleteAttemptResponse, lower_hash,
}
use distributed_execution.Phase.{AttemptState}
use distributed_execution.Completion.{validate_request}
use distributed_execution.Evidence.{is_exit_status}
use distributed_execution.Journal.Records.{
  JournalError, invalid, identity, ExitEvidence, Record, Texts,
}
use distributed_execution.Journal.Uploads.{as_invalid}
use distributed_execution.Journal.Validity.{validate}
use distributed_execution.Journal.Store.{Directory, Wire, Journal, load_attempt, required}
use distributed_execution.Journal.Attempts.{
  persist_assignment, bind_container, record_exit, prepare_phase, persist_completion,
  supersede_rejected_completion, record_completion_response, save_new, new_record,
}
use distributed_execution.Journal.Advances.{Advances, stays}
use distributed_execution.Journal.Steps.{
  bind_container-Keeps, record_exit-Keeps, prepare_phase-Keeps, persist_completion-Keeps,
  supersede-Keeps, completion_response-Keeps,
}
use distributed_execution.Journal.Holds.{
  Holds, save-Holds, update_record-Holds, if_ok-Holds, not_failed, required_loaded,
}
use distributed_execution.Journal.UploadCalls.{
  OutputCall, run_output, run_output-Holds, LogCall, run_log, run_log-Holds,
}

-- A call with its arguments; the random bytes are those that it draws.
pub data Call : Type 0 where
  to_persist_assignment : Assignment → Call
  to_bind_container : (id container_id : Bytes) → Call
  to_record_exit : (id : Bytes) → ExitEvidence → Call
  to_prepare_phase : (id : Bytes) → AttemptState → (fill : Option Bytes) → Call
  to_persist_completion : CompleteAttemptRequest → Call
  to_supersede : CompleteAttemptRequest → Call
  to_record_response : CompleteAttemptRequest → CompleteAttemptResponse → Call
  on_outputs : OutputCall → Call
  on_logs : LogCall → Call

module _ (t : Texts) (w : Wire) (d : Directory w.Encoded) where
  -- The journal after a call, whether it succeeded or failed.
  unfoldable pub run : Journal t w d → Call → Journal t w d
  unfolding run_output run_log
  run j (to_persist_assignment a) = (persist_assignment t w d j a).1
  run j (to_bind_container id container_id) = (bind_container t w d j id container_id).1
  run j (to_record_exit id evidence) = (record_exit t w d j id evidence).1
  run j (to_prepare_phase id phase fill) = (prepare_phase t w d j id phase fill).1
  run j (to_persist_completion request) = (persist_completion t w d j request).1
  run j (to_supersede request) = (supersede_rejected_completion t w d j request).1
  run j (to_record_response request answer) = (record_completion_response t w d j request answer).1
  run j (on_outputs call) = run_output t w d j call
  run j (on_logs call) = run_log t w d j call

  unfoldable pub run_all : Journal t w d → List Call → Journal t w d
  unfolding run
  run_all j [] = j
  run_all j (call ∷ calls) = run_all (run j call) calls

  save_new-Holds :
      (j : Journal t w d) (id target : Bytes) (r fresh : Record)
      → Holds t w d j target r
      → (found : Option Record) → load_attempt t w d j id ≡ ok found
      → Holds t w d (save_new t w d j id fresh found).1 target r
  save_new-Holds j id target r fresh holds none loaded =
      save-Holds t w d j id target r fresh none loaded
        (λ s saved. absurd (clash s (sym loaded ∙ required_loaded t w d j id s saved))) holds
    where
      clash :
          (s : Record) → ◌≡◌ {A = Result JournalError (Option Record)} (ok none) (ok (some s)) → ⊥
      clash s e = cc
  save_new-Holds j id target r fresh holds (some saved) loaded = holds

  run-Holds :
      (j : Journal t w d) (call : Call) (target : Bytes) (r : Record)
      → Holds t w d j target r
      → Holds t w d (run j call) target r
  unfolding run persist_assignment bind_container record_exit prepare_phase persist_completion
      supersede_rejected_completion record_completion_response
  run-Holds j (to_persist_assignment assignment) target r holds =
      if_ok-Holds t w d j target r (ok_or assignment.authority invalid) _ holds (λ a _.
        if_ok-Holds t w d j target r (guard (bytes_eq a.worker_id j.worker_id) identity) _ holds
          (λ ours _.
            if_ok-Holds t w d j target r
              (validate t (new_record assignment) j.worker_id a.attempt_id) _ holds
              (λ valid _.
                if_ok-Holds t w d j target r (load_attempt t w d j a.attempt_id) _ holds
                  (save_new-Holds j a.attempt_id target r (new_record assignment) holds))))
  run-Holds j (to_bind_container id container_id) target r holds =
      if_ok-Holds t w d j target r (guard (lower_hash container_id) invalid) _ holds (λ hashed _.
        update_record-Holds t w d j id target r _ (bind_container-Keeps container_id) holds)
  run-Holds j (to_record_exit id evidence) target r holds =
      if_ok-Holds t w d j target r (guard (is_exit_status evidence.exit_code) invalid) _ holds
        (λ status _. update_record-Holds t w d j id target r _ (record_exit-Keeps evidence) holds)
  run-Holds j (to_prepare_phase id phase fill) target r holds =
      update_record-Holds t w d j id target r _ (prepare_phase-Keeps phase fill) holds
  run-Holds j (to_persist_completion request) target r holds =
      if_ok-Holds t w d j target r (as_invalid (validate_request t.encoding request)) _ holds
        (λ valid _. if_ok-Holds t w d j target r (ok_or request.authority invalid) _ holds (λ a _.
          update_record-Holds t w d j a.attempt_id target r _ (persist_completion-Keeps t request a)
            holds))
  run-Holds j (to_supersede request) target r holds =
      if_ok-Holds t w d j target r (as_invalid (validate_request t.encoding request)) _ holds
        (λ valid _. if_ok-Holds t w d j target r (ok_or request.authority invalid) _ holds (λ a _.
          update_record-Holds t w d j a.attempt_id target r _ (supersede-Keeps t request a) holds))
  run-Holds j (to_record_response request answer) target r holds =
      if_ok-Holds t w d j target r (ok_or request.authority invalid) _ holds (λ a _.
        update_record-Holds t w d j a.attempt_id target r _
          (completion_response-Keeps t request answer) holds)
  run-Holds j (on_outputs call) target r holds = run_output-Holds t w d j call target r holds
  run-Holds j (on_logs call) target r holds = run_log-Holds t w d j call target r holds

  run_all-Holds :
      (j : Journal t w d) (calls : List Call) (target : Bytes) (r : Record)
      → Holds t w d j target r
      → Holds t w d (run_all j calls) target r
  unfolding run_all
  run_all-Holds j [] target r holds = holds
  run_all-Holds j (call ∷ calls) target r holds =
      run_all-Holds (run j call) calls target r (run-Holds j call target r holds)

  -- Whatever calls are made after an attempt was loaded, on this attempt or on others, failed ones
  -- included: if it can be loaded again, nothing that was recorded of it is lost or changed. The
  -- assignment is the same, the container and the exit stay once they are known, the reports are
  -- continued at their end, a completion stays the pending or becomes the rejected one, and an answer
  -- that is not a request to stop is final. A completion that was asked to stop is either still pending
  -- with that answer, or it is the rejected one with that answer, or it is pending with an answer that
  -- fences or ends the attempt; a rejected completion keeps its answer. The uploads of outputs and of log segments are continued
  -- at their end: each keeps its declaration, its object once it is granted, its finalization, its
  -- answer and its registration once there are any, and each part keeps its content and, once it is
  -- known, its tag.
  pub run_all-Advances :
      (j : Journal t w d) (calls : List Call) (id : Bytes) (r r' : Record)
      → required t w d j id ≡ ok r
      → required t w d (run_all j calls) id ≡ ok r'
      → Advances r r'
  run_all-Advances j calls id r r' before after =
      elim (run_all-Holds j calls id r (inr (r, before, stays r))) [
        | inl failed ↦ absurd (
            not_failed t w d (run_all j calls) id (some r')
              (required_loaded t w d (run_all j calls) id r' after) failed)
        | inr (s, again, advanced) ↦
            subst (λ x. Advances r x) (same_ok (sym again ∙ after)) advanced
      ]
