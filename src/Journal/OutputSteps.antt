-- ===== src/Journal/OutputSteps.antt =====
-- The operations of rust/worker/src/journal/uploads.rs and journal/uploads/multipart.rs keep what was
-- recorded.
use mathlib.Core.Path.{subst}
use distributed_execution.Base.{
  ℕ, ◌≡◌, refl, inl, inr, arith, Bool, true, false, Option, none, some, [], ◌∷◌, find, set_found,
  is_empty, Bytes, ok, Bool-cases, Option-cases, guarded, required_ok, >>=-ok, Extends-append,
  Extends-set_found,
}
use distributed_execution.Control.{
  ObjectVersion, object_equality, CreateUploadRequest, CreateUploadResponse, FinalizeUploadRequest,
  FinalizeUploadResponse, artifact_equality,
}
use distributed_execution.Upload.{validate_artifact}
use distributed_execution.Journal.Records.{invalid, conflict, OutputUpload, Record, is_none}
use distributed_execution.Journal.Uploads.{as_invalid}
use distributed_execution.Journal.Ids.{new_uuid}
use distributed_execution.Journal.Kept.{parts_stay, OutputAdvances, output_stays}
use distributed_execution.Journal.Store.{replace_by}
use distributed_execution.Journal.Attempts.{done}
use distributed_execution.Journal.Advances.{
  Advances, Keeps, outputs-Advances, replaced, not_kept, same_not_replaced,
}
use distributed_execution.Journal.Outputs.{
  kept_if, with_output, named, requested_output, declared, finalized, output_declaration,
  new_output, prepare_output_change, granted_output, output_grant_change, output_finalization,
  finalized_by, output_finalization_change, answered_output, output_response_change,
}

pub empty : (bytes : Bytes) → is_empty bytes ≡ true → bytes ≡ []
empty [] e = refl
empty (b ∷ bs) e = absurd (ground arith)

pub kept_not_replaced :
    {A : Type 0} (same : Bool) (a b : A) (s : Record) → kept_if same a ≡ ok (replace_by b s) → ⊥
kept_not_replaced true a b s h = not_kept a b s h
kept_not_replaced false a b s h = cc

-- An assignment to an upload that was found keeps the others.
pub with_output-Advances :
    (r : Record) (test : OutputUpload → Bool) (found u : OutputUpload)
    → find test r.outputs ≡ some found
    → OutputAdvances found u
    → Advances r (with_output test u r)
with_output-Advances r test found u h further =
    outputs-Advances r (set_found test u r.outputs)
      (Extends-set_found OutputAdvances output_stays test r.outputs found u h further)

pub prepare_output-Keeps :
    (name sha256 : Bytes) (size count part_size : ℕ) (fill : Option Bytes)
    → Keeps (prepare_output_change name sha256 size count part_size fill)
unfolding prepare_output_change
prepare_output-Keeps name sha256 size count part_size fill r r' request h =
    elim (Option-cases (find (named name) r.outputs)) [
      | inl first ↦
          let (_, h1) =
            guarded (is_none r.completion) conflict _ (rw (first, prepare_output_change) at h) in
          let (request_id, _, h2) = >>=-ok (new_uuid fill) _ h1 in
          subst (Advances r) (replaced _ request _ r' h2) (
            outputs-Advances r _ (
              Extends-append OutputAdvances output_stays r.outputs (
                new_output (output_declaration r request_id name sha256 size count part_size)
                ∷ [])))
      | inr (saved, found) ↦
          absurd (kept_not_replaced _ _ request r' (rw (found, prepare_output_change) at h))
    ]

granted_output-Advances :
    (u : OutputUpload) (grant : CreateUploadResponse)
    → u.upload_id ≡ []
    → OutputAdvances u (granted_output u grant)
granted_output-Advances u grant unbound = record {
  declaration = refl;
  scope = inl unbound;
  finalization = λ f h. h;
  response = λ f h. h;
  parts = parts_stay u.parts;
}

pub output_grant-Keeps :
    (request : CreateUploadRequest) (grant : CreateUploadResponse)
    → Keeps (output_grant_change request grant)
unfolding output_grant_change
output_grant-Keeps request grant r r' u h =
    let (saved, found, h1) = required_ok (find (declared request) r.outputs) conflict _ h in
    elim (Bool-cases (is_empty saved.upload_id)) [
      | inl unbound ↦
          let (_, h2) = guarded (is_none r.completion) conflict _ (rw unbound at h1) in
          subst (Advances r) (replaced done u _ r' h2) (
            with_output-Advances r (declared request) saved _ found
              (granted_output-Advances saved grant (empty saved.upload_id unbound)))
      | inr bound ↦ absurd (same_not_replaced _ u r' (rw bound at h1))
    ]

pub finalized_by-Advances :
    (u : OutputUpload) (request : FinalizeUploadRequest)
    → u.finalization ≡ none
    → OutputAdvances u (finalized_by u request)
finalized_by-Advances u request unset = record {
  declaration = refl;
  scope = inr (refl, refl);
  finalization = λ f h. absurd (ground arith);
  response = λ f h. h;
  parts = parts_stay u.parts;
}

pub output_finalization-Keeps :
    (request_id : Bytes) (object : ObjectVersion) (fill : Option Bytes)
    → Keeps (output_finalization_change request_id object fill)
unfolding output_finalization_change
output_finalization-Keeps request_id object fill r r' request h =
    let (saved, found, h1) =
      required_ok (find (requested_output request_id) r.outputs) invalid _ h in
    elim (Option-cases saved.finalization) [
      | inl unset ↦
          let (_, h2) = guarded (is_none r.completion) conflict _ (rw unset at h1) in
          let (fresh, _, h3) = >>=-ok (new_uuid fill) _ h2 in
          subst (Advances r) (replaced _ request _ r' h3) (
            with_output-Advances r (requested_output request_id) saved _ found
              (finalized_by-Advances saved (output_finalization saved fresh object) unset))
      | inr (old, sealed) ↦ absurd (kept_not_replaced _ _ request r' (rw sealed at h1))
    ]

answered_output-Advances :
    (u : OutputUpload) (answer : FinalizeUploadResponse)
    → u.response ≡ none
    → OutputAdvances u (answered_output u answer)
answered_output-Advances u answer unset = record {
  declaration = refl;
  scope = inr (refl, refl);
  finalization = λ f h. h;
  response = λ f h. absurd (ground arith);
  parts = parts_stay u.parts;
}

pub output_response-Keeps :
    (request : FinalizeUploadRequest) (answer : FinalizeUploadResponse)
    → Keeps (output_response_change request answer)
unfolding output_response_change
output_response-Keeps request answer r r' u h =
    let (saved, found, h1) = required_ok (find (finalized request) r.outputs) conflict _ h in
    let (_, _, h2) = >>=-ok (as_invalid (validate_artifact request answer)) _ h1 in
    elim (Option-cases saved.response) [
      | inl unset ↦ subst (Advances r) (replaced done u _ r' (rw unset at h2)) (
          with_output-Advances r (finalized request) saved _ found
            (answered_output-Advances saved answer unset))
      | inr (old, answered) ↦ absurd (same_not_replaced _ u r' (rw answered at h2))
    ]
