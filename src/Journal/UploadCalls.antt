-- ===== src/Journal/UploadCalls.antt =====
-- Calls of rust/worker/src/journal/uploads.rs, journal/uploads/multipart.rs and journal/logs.rs.
use distributed_execution.Base.{ℕ, pos, Option, Bytes, guard, ok_or, leb}
use distributed_execution.Control.{
  ObjectVersion, CreateUploadRequest, CreateUploadResponse, GrantUploadPartRequest,
  FinalizeUploadRequest, FinalizeUploadResponse, RegisterLogSegmentRequest, Decision,
}
use distributed_execution.Phase.{AttemptState}
use distributed_execution.Phase.Progress.{number}
use distributed_execution.Upload.{
  validate_grant, validate_artifact, validate_part_request, valid_etag,
}
use distributed_execution.Registration.{validate_response}
use distributed_execution.Journal.Records.{invalid, conflict, Record, Texts}
use distributed_execution.Journal.Uploads.{as_invalid}
use distributed_execution.Journal.Store.{Directory, Wire, Journal}
use distributed_execution.Journal.Outputs.{
  planned_parts, prepare_output_plan, prepare_output, record_output_grant,
  prepare_output_finalization, record_output_response, prepare_output_part, record_output_part,
  prepare_multipart_finalization,
}
use distributed_execution.Journal.Logs.{
  LogSegment, prepare_log, record_log_grant, prepare_log_finalization, record_log_response,
  prepare_log_registration, record_log_registration, decision_number, is_accepted,
}
use distributed_execution.Journal.OutputSteps.{
  prepare_output-Keeps, output_grant-Keeps, output_finalization-Keeps, output_response-Keeps,
}
use distributed_execution.Journal.PartSteps.{
  output_part-Keeps, recorded_part-Keeps, multipart_finalization-Keeps,
}
use distributed_execution.Journal.LogSteps.{
  prepare_log-Keeps, log_grant-Keeps, log_finalization-Keeps, log_response-Keeps,
  log_registration-Keeps, log_registered-Keeps,
}
use distributed_execution.Journal.Holds.{Holds, update_record-Holds, if_ok-Holds}

-- A call with its arguments; the random bytes are those that it draws.
pub data OutputCall : Type 0 where
  to_plan_output :
      (id name sha256 : Bytes) → (size part_size : ℕ) → (fill : Option Bytes) → OutputCall
  to_prepare_output : (id name sha256 : Bytes) → (size : ℕ) → (fill : Option Bytes) → OutputCall
  to_record_output_grant : CreateUploadRequest → CreateUploadResponse → OutputCall
  to_finalize_output : (id request_id : Bytes) → ObjectVersion → (fill : Option Bytes) → OutputCall
  to_record_output_response : FinalizeUploadRequest → FinalizeUploadResponse → OutputCall
  to_prepare_part : (id request_id : Bytes) → ℕ → (sha256 : Bytes) → OutputCall
  to_record_part : GrantUploadPartRequest → (etag : Bytes) → OutputCall
  to_finalize_parts : (id request_id : Bytes) → (fill : Option Bytes) → OutputCall

pub data LogCall : Type 0 where
  to_prepare_log : (id : Bytes) → LogSegment → (fill : Option Bytes) → LogCall
  to_record_log_grant : CreateUploadRequest → CreateUploadResponse → LogCall
  to_finalize_log : (id request_id : Bytes) → ObjectVersion → (fill : Option Bytes) → LogCall
  to_record_log_response : FinalizeUploadRequest → FinalizeUploadResponse → LogCall
  to_prepare_registration : (id request_id : Bytes) → (fill : Option Bytes) → LogCall
  to_record_registration : RegisterLogSegmentRequest → Decision → AttemptState → LogCall

module _ (t : Texts) (w : Wire) (d : Directory w.Encoded) where
  -- The journal after a call, whether it succeeded or failed.
  unfoldable pub run_output : Journal t w d → OutputCall → Journal t w d
  run_output j (to_plan_output id name sha256 size part_size fill) =
      (prepare_output_plan t w d j id name sha256 size part_size fill).1
  run_output j (to_prepare_output id name sha256 size fill) =
      (prepare_output t w d j id name sha256 size fill).1
  run_output j (to_record_output_grant request grant) =
      (record_output_grant t w d j request grant).1
  run_output j (to_finalize_output id request_id object fill) =
      (prepare_output_finalization t w d j id request_id object fill).1
  run_output j (to_record_output_response request answer) =
      (record_output_response t w d j request answer).1
  run_output j (to_prepare_part id request_id part sha256) =
      (prepare_output_part t w d j id request_id part sha256).1
  run_output j (to_record_part request etag) = (record_output_part t w d j request etag).1
  run_output j (to_finalize_parts id request_id fill) =
      (prepare_multipart_finalization t w d j id request_id fill).1

  unfoldable pub run_log : Journal t w d → LogCall → Journal t w d
  run_log j (to_prepare_log id segment fill) = (prepare_log t w d j id segment fill).1
  run_log j (to_record_log_grant request grant) = (record_log_grant t w d j request grant).1
  run_log j (to_finalize_log id request_id object fill) =
      (prepare_log_finalization t w d j id request_id object fill).1
  run_log j (to_record_log_response request answer) = (record_log_response t w d j request answer).1
  run_log j (to_prepare_registration id request_id fill) =
      (prepare_log_registration t w d j id request_id fill).1
  run_log j (to_record_registration request decision state) =
      (record_log_registration t w d j request decision state).1

  prepare_output_plan-Holds :
      (j : Journal t w d) (id name sha256 : Bytes) (size part_size : ℕ) (fill : Option Bytes)
      (target : Bytes) (r : Record)
      → Holds t w d j target r
      → Holds t w d (prepare_output_plan t w d j id name sha256 size part_size fill).1 target r
  unfolding prepare_output_plan
  prepare_output_plan-Holds j id name sha256 size part_size fill target r holds =
      if_ok-Holds t w d j target r
        (guard (leb (planned_parts size part_size) 4_294_967_295) invalid) _ holds
        (λ counted _.
          update_record-Holds t w d j id target r _
            (prepare_output-Keeps name sha256 size (planned_parts size part_size) part_size fill)
            holds)

  pub run_output-Holds :
      (j : Journal t w d) (call : OutputCall) (target : Bytes) (r : Record)
      → Holds t w d j target r
      → Holds t w d (run_output j call) target r
  unfolding run_output prepare_output record_output_grant prepare_output_finalization
      record_output_response prepare_output_part record_output_part prepare_multipart_finalization
  run_output-Holds j (to_plan_output id name sha256 size part_size fill) target r holds =
      prepare_output_plan-Holds j id name sha256 size part_size fill target r holds
  run_output-Holds j (to_prepare_output id name sha256 size fill) target r holds =
      prepare_output_plan-Holds j id name sha256 size 0 fill target r holds
  run_output-Holds j (to_record_output_grant request grant) target r holds =
      if_ok-Holds t w d j target r (as_invalid (validate_grant request grant)) _ holds (λ valid _.
        if_ok-Holds t w d j target r (ok_or request.authority invalid) _ holds (λ a _.
          update_record-Holds t w d j a.attempt_id target r _ (output_grant-Keeps request grant)
            holds))
  run_output-Holds j (to_finalize_output id request_id object fill) target r holds =
      update_record-Holds t w d j id target r _ (output_finalization-Keeps request_id object fill)
        holds
  run_output-Holds j (to_record_output_response request answer) target r holds =
      if_ok-Holds t w d j target r (ok_or request.authority invalid) _ holds (λ a _.
        update_record-Holds t w d j a.attempt_id target r _ (output_response-Keeps request answer)
          holds)
  run_output-Holds j (to_prepare_part id request_id part sha256) target r holds =
      update_record-Holds t w d j id target r _ (output_part-Keeps request_id part sha256) holds
  run_output-Holds j (to_record_part request etag) target r holds =
      if_ok-Holds t w d j target r (as_invalid (validate_part_request request)) _ holds (λ valid _.
        if_ok-Holds t w d j target r (guard (valid_etag etag) invalid) _ holds (λ tagged _.
          if_ok-Holds t w d j target r (ok_or request.authority invalid) _ holds (λ a _.
            update_record-Holds t w d j a.attempt_id target r _ (recorded_part-Keeps request etag)
              holds)))
  run_output-Holds j (to_finalize_parts id request_id fill) target r holds =
      update_record-Holds t w d j id target r _ (multipart_finalization-Keeps request_id fill) holds

  pub run_log-Holds :
      (j : Journal t w d) (call : LogCall) (target : Bytes) (r : Record)
      → Holds t w d j target r
      → Holds t w d (run_log j call) target r
  unfolding run_log prepare_log record_log_grant prepare_log_finalization record_log_response
      prepare_log_registration record_log_registration
  run_log-Holds j (to_prepare_log id segment fill) target r holds =
      update_record-Holds t w d j id target r _ (prepare_log-Keeps segment fill) holds
  run_log-Holds j (to_record_log_grant request grant) target r holds =
      if_ok-Holds t w d j target r (as_invalid (validate_grant request grant)) _ holds (λ valid _.
        if_ok-Holds t w d j target r (ok_or request.authority invalid) _ holds (λ a _.
          update_record-Holds t w d j a.attempt_id target r _ (log_grant-Keeps request grant)
            holds))
  run_log-Holds j (to_finalize_log id request_id object fill) target r holds =
      update_record-Holds t w d j id target r _ (log_finalization-Keeps request_id object fill)
        holds
  run_log-Holds j (to_record_log_response request answer) target r holds =
      if_ok-Holds t w d j target r (as_invalid (validate_artifact request answer)) _ holds
        (λ valid _. if_ok-Holds t w d j target r (ok_or request.authority invalid) _ holds (λ a _.
          update_record-Holds t w d j a.attempt_id target r _ (log_response-Keeps request answer)
            holds))
  run_log-Holds j (to_prepare_registration id request_id fill) target r holds =
      update_record-Holds t w d j id target r _ (log_registration-Keeps request_id fill) holds
  run_log-Holds j (to_record_registration request decision state) target r holds =
      if_ok-Holds t w d j target r
        (as_invalid (
          validate_response request
            (record { decision = pos (decision_number decision); state = pos (number state) })))
        _ holds
        (λ valid _.
          if_ok-Holds t w d j target r (guard (is_accepted decision) conflict) _ holds (λ kept _.
            if_ok-Holds t w d j target r (ok_or request.authority invalid) _ holds (λ a _.
              update_record-Holds t w d j a.attempt_id target r _ (log_registered-Keeps request)
                holds)))
