-- ===== src/Journal/PartSteps.antt =====
-- The operations of rust/worker/src/journal/uploads/multipart.rs keep what was recorded.
use mathlib.Core.Path.{subst}
use distributed_execution.Base.{
  ℕ, ◌≡◌, refl, inl, if◌then◌else◌, inr, Bool, true, false, ◌&&◌, ◌==◌, leb, ltb, Option, some,
  List, [], ◌∷◌, find, set_found, is_empty, Bytes, Bool-cases, Option-cases, guarded, required_ok,
  >>=-ok, Extends-set_found, Extends-Within, Within, Within-later, length,
}
use distributed_execution.Control.{
  object_equality, CompletedPart, GrantUploadPartRequest, artifact_equality,
}
use distributed_execution.Upload.{validate_finalization, validate_part_request}
use distributed_execution.Journal.Records.{invalid, conflict, OutputUpload, is_none}
use distributed_execution.Journal.Uploads.{as_invalid}
use distributed_execution.Journal.Ids.{new_uuid}
use distributed_execution.Journal.Kept.{PartAdvances, part_stays, parts_stay, OutputAdvances}
use distributed_execution.Journal.Attempts.{done}
use distributed_execution.Journal.Advances.{Advances, Keeps, replaced, not_kept, same_not_replaced}
use distributed_execution.Journal.Outputs.{
  requested_output, is_numbered, insert_part, part_request, output_part_change, of_upload, is_part,
  with_etag, recorded_part_change, multipart_finalization, multipart_finalization_change,
}
use distributed_execution.Journal.OutputSteps.{
  empty, kept_not_replaced, with_output-Advances, finalized_by-Advances,
}

placed-Within :
    (before : Bool) (part p : CompletedPart) (ps rest : List CompletedPart)
    → Within PartAdvances ps rest
    → Within PartAdvances (p ∷ ps) (if before then part ∷ p ∷ ps else p ∷ rest)
placed-Within true part p ps rest kept = (
  inr (inl (part_stays p)),
  Within-later PartAdvances ps (p ∷ ps) part (Within-later PartAdvances ps ps p (parts_stay ps)),
)
placed-Within false part p ps rest kept =
    (inl (part_stays p), Within-later PartAdvances ps rest p kept)

insert_part-Within :
    (part : CompletedPart) (ps : List CompletedPart) → Within PartAdvances ps (insert_part part ps)
unfolding insert_part
insert_part-Within part [] = tt
insert_part-Within part (p ∷ ps) =
    placed-Within (ltb part.number p.number) part p ps (insert_part part ps)
      (insert_part-Within part ps)

-- A new list of parts keeps the parts.
parts-Advances :
    (u : OutputUpload) (parts : List CompletedPart)
    → Within PartAdvances u.parts parts
    → OutputAdvances u (record u { parts = parts })
parts-Advances u parts further = record {
  declaration = refl;
  scope = inr (refl, refl);
  finalization = λ f h. h;
  response = λ f h. h;
  parts = further;
}

pub output_part-Keeps :
    (request_id : Bytes) (number : ℕ) (sha256 : Bytes)
    → Keeps (output_part_change request_id number sha256)
unfolding output_part_change
output_part-Keeps request_id number sha256 r r' request h =
    let (saved, found, h1) =
      required_ok (find (requested_output request_id) r.outputs) invalid _ h in
    let (_, _, h2) =
      >>=-ok (as_invalid (validate_part_request (part_request saved number sha256))) _ h1 in
    let (_, h3) =
      guarded (leb 2 saved.declaration.part_count && leb number saved.declaration.part_count)
        invalid _ h2 in
    elim (Option-cases (find (is_numbered number) saved.parts)) [
      | inl first ↦
          let (_, h4) =
            guarded (is_none r.completion && is_none saved.finalization) conflict _
              (rw (first, output_part_change) at h3) in
          subst (Advances r) (replaced _ request _ r' h4) (
            with_output-Advances r (requested_output request_id) saved _ found (
              parts-Advances saved _ (
                insert_part-Within (record { number = number; etag = []; sha256 = sha256 })
                  saved.parts)))
      | inr (part, known) ↦
          absurd (kept_not_replaced _ _ request r' (rw (known, output_part_change) at h3))
    ]

with_etag-Advances :
    (request : GrantUploadPartRequest) (u : OutputUpload) (part : CompletedPart) (etag : Bytes)
    → find (is_part request) u.parts ≡ some part
    → part.etag ≡ []
    → OutputAdvances u (with_etag request u part etag)
with_etag-Advances request u part etag found unknown =
    parts-Advances u (set_found (is_part request) tagged u.parts) (
      Extends-Within PartAdvances u.parts (set_found (is_part request) tagged u.parts) (
        Extends-set_found PartAdvances part_stays (is_part request) u.parts part tagged found
          (record { number = refl; sha256 = refl; etag = inl unknown })))
  where
    tagged : CompletedPart
    tagged = record part { etag = etag }

pub recorded_part-Keeps :
    (request : GrantUploadPartRequest) (etag : Bytes) → Keeps (recorded_part_change request etag)
unfolding recorded_part_change
recorded_part-Keeps request etag r r' u h =
    let (saved, found, h1) = required_ok (find (of_upload request) r.outputs) conflict _ h in
    let (part, known, h2) = required_ok (find (is_part request) saved.parts) conflict _ h1 in
    elim (Bool-cases (is_empty part.etag)) [
      | inl unknown ↦
          let (_, h3) =
            guarded (is_none r.completion && is_none saved.finalization) conflict _
              (rw unknown at h2) in
          subst (Advances r) (replaced done u _ r' h3) (
            with_output-Advances r (of_upload request) saved _ found
              (with_etag-Advances request saved part etag known (empty part.etag unknown)))
      | inr tagged ↦ absurd (same_not_replaced _ u r' (rw tagged at h2))
    ]

pub multipart_finalization-Keeps :
    (request_id : Bytes) (fill : Option Bytes)
    → Keeps (multipart_finalization_change request_id fill)
unfolding multipart_finalization_change
multipart_finalization-Keeps request_id fill r r' request h =
    let (saved, found, h1) =
      required_ok (find (requested_output request_id) r.outputs) invalid _ h in
    let (_, h2) = guarded (leb 2 saved.declaration.part_count) invalid _ h1 in
    elim (Option-cases saved.finalization) [
      | inl unset ↦
          let (_, h3) =
            guarded (is_none r.completion && length saved.parts == saved.declaration.part_count)
              conflict _ (rw unset at h2) in
          let (fresh, _, h4) = >>=-ok (new_uuid fill) _ h3 in
          let (_, _, h5) =
            >>=-ok (as_invalid (validate_finalization (multipart_finalization saved fresh))) _ h4 in
          subst (Advances r) (replaced _ request _ r' h5) (
            with_output-Advances r (requested_output request_id) saved _ found
              (finalized_by-Advances saved (multipart_finalization saved fresh) unset))
      | inr (old, sealed) ↦ absurd (not_kept old request r' (rw sealed at h2))
    ]
