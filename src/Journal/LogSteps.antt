-- ===== src/Journal/LogSteps.antt =====
-- The operations of rust/worker/src/journal/logs.rs keep what was recorded.
use mathlib.Core.Path.{subst}
use distributed_execution.Base.{
  ◌≡◌, refl, inl, inr, arith, Bool, true, ◌&&◌, Option, none, some, [], ◌∷◌, find, set_found,
  is_empty, Bytes, Bool-cases, Option-cases, guarded, required_ok, >>=-ok, Extends-append,
  Extends-set_found,
}
use distributed_execution.Control.{
  ObjectVersion, object_equality, CreateUploadRequest, CreateUploadResponse, FinalizeUploadRequest,
  FinalizeUploadResponse, artifact_equality, RegisterLogSegmentRequest,
}
use distributed_execution.Upload.{validate_create, validate_finalization}
use distributed_execution.Registration.{validate_request}
use distributed_execution.Journal.Records.{invalid, conflict, LogUpload, Record, is_none}
use distributed_execution.Journal.Uploads.{as_invalid}
use distributed_execution.Journal.Segments.{probe}
use distributed_execution.Journal.Ids.{new_uuid}
use distributed_execution.Journal.Kept.{LogAdvances, log_stays, log_further}
use distributed_execution.Journal.Attempts.{done}
use distributed_execution.Journal.Advances.{
  Advances, Keeps, logs-Advances, replaced, not_kept, same_not_replaced,
}
use distributed_execution.Journal.OutputSteps.{empty, kept_not_replaced}
use distributed_execution.Journal.Logs.{
  with_log, LogSegment, starts_at, may_declare, file_name, segment_declaration, new_log,
  prepare_log_change, declared_log, granted_log, log_grant_change, requested_log, grants_object,
  log_finalization, log_finalized_by, log_finalization_change, finalized_log, answered_log,
  log_response_change, log_registration, log_registering, log_registration_change, registering_log,
  log_registered, log_registered_change,
}

-- An assignment to a segment that was found keeps the others.
with_log-Advances :
    (r : Record) (test : LogUpload → Bool) (found l : LogUpload)
    → find test r.logs ≡ some found
    → LogAdvances found l
    → Advances r (with_log test l r)
with_log-Advances r test found l h further =
    logs-Advances r (set_found test l r.logs)
      (Extends-set_found LogAdvances log_stays test r.logs found l h further)

pub prepare_log-Keeps : (s : LogSegment) (fill : Option Bytes) → Keeps (prepare_log_change s fill)
unfolding prepare_log_change
prepare_log-Keeps s fill r r' request h = elim (Option-cases (find (starts_at s) r.logs)) [
  | inl first ↦
      let (_, h1) = guarded (may_declare s r) invalid _ (rw (first, prepare_log_change) at h) in
      let (request_id, _, h2) = >>=-ok (new_uuid fill) _ h1 in
      let (name, _, h3) = >>=-ok (file_name s.stream) _ h2 in
      let (_, _, h4) =
        >>=-ok (as_invalid (validate_create (segment_declaration r s request_id name))) _ h3 in
      let (_, _, h5) =
        >>=-ok
          (as_invalid
            (validate_request (probe (new_log s (segment_declaration r s request_id name)))))
          _ h4 in
      subst (Advances r) (replaced _ request _ r' h5) (
        logs-Advances r _ (
          Extends-append LogAdvances log_stays r.logs
            (new_log s (segment_declaration r s request_id name) ∷ [])))
  | inr (saved, found) ↦
      absurd (kept_not_replaced _ _ request r' (rw (found, prepare_log_change) at h))
]

granted_log-Advances :
    (l : LogUpload) (grant : CreateUploadResponse)
    → l.upload_id ≡ []
    → LogAdvances l (granted_log l grant)
granted_log-Advances l grant unbound =
    log_further l grant.upload_id grant.object_key l.finalization l.response l.registration
      l.registered (inl unbound) (λ x h. h) (λ x h. h) (λ x h. h) (λ h. h)

pub log_grant-Keeps :
    (request : CreateUploadRequest) (grant : CreateUploadResponse)
    → Keeps (log_grant_change request grant)
unfolding log_grant_change
log_grant-Keeps request grant r r' u h =
    let (saved, found, h1) = required_ok (find (declared_log request) r.logs) conflict _ h in
    elim (Bool-cases (is_empty saved.upload_id)) [
      | inl unbound ↦
          let (_, h2) = guarded (is_none r.completion) conflict _ (rw unbound at h1) in
          subst (Advances r) (replaced done u _ r' h2) (
            with_log-Advances r (declared_log request) saved _ found
              (granted_log-Advances saved grant (empty saved.upload_id unbound)))
      | inr bound ↦ absurd (same_not_replaced _ u r' (rw bound at h1))
    ]

log_finalized_by-Advances :
    (l : LogUpload) (request : FinalizeUploadRequest)
    → l.finalization ≡ none
    → LogAdvances l (log_finalized_by l request)
log_finalized_by-Advances l request unset =
    log_further l l.upload_id l.object_key (some request) l.response l.registration l.registered
      (inr (refl, refl)) (λ x h. absurd (ground arith)) (λ x h. h) (λ x h. h) (λ h. h)

pub log_finalization-Keeps :
    (request_id : Bytes) (object : ObjectVersion) (fill : Option Bytes)
    → Keeps (log_finalization_change request_id object fill)
unfolding log_finalization_change
log_finalization-Keeps request_id object fill r r' request h =
    let (saved, found, h1) = required_ok (find (requested_log request_id) r.logs) invalid _ h in
    elim (Option-cases saved.finalization) [
      | inl unset ↦
          let (_, h2) =
            guarded (is_none r.completion && grants_object saved object) conflict _
              (rw unset at h1) in
          let (fresh, _, h3) = >>=-ok (new_uuid fill) _ h2 in
          let (_, _, h4) =
            >>=-ok (as_invalid (validate_finalization (log_finalization saved fresh object))) _
              h3 in
          subst (Advances r) (replaced _ request _ r' h4) (
            with_log-Advances r (requested_log request_id) saved _ found
              (log_finalized_by-Advances saved (log_finalization saved fresh object) unset))
      | inr (old, sealed) ↦ absurd (kept_not_replaced _ _ request r' (rw sealed at h1))
    ]

answered_log-Advances :
    (l : LogUpload) (answer : FinalizeUploadResponse)
    → l.response ≡ none
    → LogAdvances l (answered_log l answer)
answered_log-Advances l answer unset =
    log_further l l.upload_id l.object_key l.finalization (some answer) l.registration l.registered
      (inr (refl, refl)) (λ x h. h) (λ x h. absurd (ground arith)) (λ x h. h) (λ h. h)

pub log_response-Keeps :
    (request : FinalizeUploadRequest) (answer : FinalizeUploadResponse)
    → Keeps (log_response_change request answer)
unfolding log_response_change
log_response-Keeps request answer r r' u h =
    let (saved, found, h1) = required_ok (find (finalized_log request) r.logs) conflict _ h in
    elim (Option-cases saved.response) [
      | inl unset ↦ subst (Advances r) (replaced done u _ r' (rw unset at h1)) (
          with_log-Advances r (finalized_log request) saved _ found
            (answered_log-Advances saved answer unset))
      | inr (old, answered) ↦ absurd (same_not_replaced _ u r' (rw answered at h1))
    ]

log_registering-Advances :
    (l : LogUpload) (request : RegisterLogSegmentRequest)
    → l.registration ≡ none
    → LogAdvances l (log_registering l request)
log_registering-Advances l request unset =
    log_further l l.upload_id l.object_key l.finalization l.response (some request) l.registered
      (inr (refl, refl)) (λ x h. h) (λ x h. h) (λ x h. absurd (ground arith)) (λ h. h)

pub log_registration-Keeps :
    (request_id : Bytes) (fill : Option Bytes) → Keeps (log_registration_change request_id fill)
unfolding log_registration_change
log_registration-Keeps request_id fill r r' request h =
    let (saved, found, h1) = required_ok (find (requested_log request_id) r.logs) invalid _ h in
    elim (Option-cases saved.registration) [
      | inl unset ↦
          let (_, h2) = guarded (is_none r.completion) conflict _ (rw unset at h1) in
          let (answer, _, h3) = required_ok saved.response conflict _ h2 in
          let (fresh, _, h4) = >>=-ok (new_uuid fill) _ h3 in
          let (_, _, h5) =
            >>=-ok (as_invalid (validate_request (log_registration saved fresh answer.artifact_id)))
              _ h4 in
          subst (Advances r) (replaced _ request _ r' h5) (
            with_log-Advances r (requested_log request_id) saved _ found (
              log_registering-Advances saved (log_registration saved fresh answer.artifact_id)
                unset))
      | inr (old, sealed) ↦ absurd (not_kept old request r' (rw sealed at h1))
    ]

log_registered-Advances : (l : LogUpload) → LogAdvances l (log_registered l)
log_registered-Advances l =
    log_further l l.upload_id l.object_key l.finalization l.response l.registration true
      (inr (refl, refl)) (λ x h. h) (λ x h. h) (λ x h. h) (λ h. refl)

pub log_registered-Keeps :
    (request : RegisterLogSegmentRequest) → Keeps (log_registered_change request)
unfolding log_registered_change
log_registered-Keeps request r r' u h =
    let (saved, found, h1) = required_ok (find (registering_log request) r.logs) conflict _ h in
    elim (Bool-cases saved.registered) [
      | inl known ↦ absurd (not_kept done u r' (rw known at h1))
      | inr unknown ↦ subst (Advances r) (replaced done u _ r' (rw unknown at h1)) (
          with_log-Advances r (registering_log request) saved _ found
            (log_registered-Advances saved))
    ]
