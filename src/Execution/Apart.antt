-- ===== src/Execution/Apart.antt =====
-- The paths of a job (rust/worker/src/execution.rs).
use distributed_execution.Base.{
  Pairs, ◌≡◌, ◌≢◌, refl, sym, ap₂, ◌∙◌, inl, inr, ◌==◌, ==_iff, ◌++◌, ascii, Bytes, Option, none,
  Option-cases, Bool-cases, strip_prefix, starts_with, ok, arith, true, false, not, ◌&&◌, all, ℕ,
  List, [], ◌∷◌, All, any, bytes_eq, bytes_eq_iff, ap, guarded, required_ok, >>=-ok, is_empty, leb,
  length, hex, some, same_ok,
}
use mathlib.Core.Path.{subst}
use distributed_execution.Control.{Assignment}
use distributed_execution.Shape.{has_shape}
use distributed_execution.Upload.{split_slash, with_byte}
use distributed_execution.Upload.Scope.{joined, joined-split_slash}
use distributed_execution.Execution.{
  Output, outputs_clash, outputs_fit, overlaps, under, path_in, is_plain_part, without_first,
  output_path, validate, within_limits, reasons_fit, from_assignment, Documents, document, checksum,
  wire_mismatch, ExecutionSpec, Job, same_inputs, matches_wire,
}

-- Neither path is the other or a path below it, and the names differ.
abbrev pub Apart : Output → Output → Type 0
Apart a b =
    (a.name ≢ b.name)
    × (a.path ≢ b.path)
    × ((below : Bytes) → a.path ≢ b.path ++ b'/' ∷ below)
    × ((below : Bytes) → b.path ≢ a.path ++ b'/' ∷ below)

strip_prefix-append : (start rest : Bytes) → strip_prefix start (start ++ rest) ≡ some rest
strip_prefix-append [] rest = refl
strip_prefix-append (p ∷ ps) rest =
    rw (strip_prefix, (==_iff p p).1 refl) (strip_prefix-append ps rest)

under-below : (a b below : Bytes) → a ≡ b ++ b'/' ∷ below → under a b ≡ true
unfolding under
under-below a b below h =
    subst (λ (x : Bytes). under x b ≡ true) (sym h)
      (rw (under, strip_prefix-append b (b'/' ∷ below)) refl)

unequal : (a b : Bytes) → bytes_eq a b ≡ false → a ≢ b
unequal a b h e = ground (arith, (bytes_eq_iff a b).1 e)

not_under : (a b : Bytes) → under a b ≡ false → (below : Bytes) → a ≢ b ++ b'/' ∷ below
not_under a b h below e = ground (arith, under-below a b below e)

overlaps-parts :
    (a b : Bytes)
    → overlaps a b ≡ false
    → (bytes_eq a b ≡ false) × (under a b ≡ false) × (under b a ≡ false)
unfolding overlaps
overlaps-parts a b h = ground arith

clash-Apart :
    (a b : Output) → overlaps a.path b.path ≡ false → bytes_eq a.name b.name ≡ false → Apart a b
clash-Apart a b h k =
    let (same, ab, ba) = overlaps-parts a.path b.path h in
    (
      unequal a.name b.name k,
      unequal a.path b.path same,
      not_under a.path b.path ab,
      not_under b.path a.path ba,
    )

Apart-from :
    (output : Output) (earlier : List Output)
    → any (outputs_clash output) earlier ≡ false
    → All (λ previous. Apart previous output) earlier
Apart-from output [] h = tt
Apart-from output (previous ∷ earlier) h = (
  clash-Apart previous output (ground arith) (ground arith),
  Apart-from output earlier (ground arith),
)

nothing_after : (earlier : List Output) → All (λ previous. All (Apart previous) []) earlier
nothing_after [] = tt
nothing_after (previous ∷ earlier) = (tt, nothing_after earlier)

one_after :
    (output : Output) (rest earlier : List Output)
    → All (λ previous. Apart previous output) earlier
    → All (λ previous. All (Apart previous) rest) earlier
    → All (λ previous. All (Apart previous) (output ∷ rest)) earlier
one_after output rest [] here after = tt
one_after output rest (previous ∷ earlier) (h, here) (k, after) =
    ((h, k), one_after output rest earlier here after)

outputs-Apart :
    (earlier outputs : List Output)
    → outputs_fit earlier outputs ≡ true
    → All (λ previous. All (Apart previous) outputs) earlier × Pairs Apart outputs
unfolding outputs_fit
outputs-Apart earlier [] h = (nothing_after earlier, tt)
outputs-Apart earlier (output ∷ rest) h =
    let ((here, before), pairs) = outputs-Apart (output ∷ earlier) rest (ground arith) in
    (one_after output rest earlier (Apart-from output earlier (ground arith)) before, (here, pairs))

-- A name of a directory or a file, without a slash, which leads down.
abbrev pub LeadsDown : Bytes → Type 0
LeadsDown part = (part ≢ []) × (part ≢ ascii ".") × (part ≢ ascii "..") × All (λ b. b ≢ b'/') part

-- A path in the directory of outputs that goes down by plain names only.
abbrev pub Inside : Output → Type 0
Inside output =
    ((rest : Bytes) × (output.path ≡ ascii "/outputs/" ++ rest))
    × ((parts : List Bytes) × (output.path ≡ b'/' ∷ joined parts) × All LeadsDown parts)

strip_prefix-rest :
    (start value rest : Bytes) → strip_prefix start value ≡ some rest → value ≡ start ++ rest
strip_prefix-rest [] value rest h = ap (or_empty) h
  where
    or_empty : Option Bytes → Bytes
    or_empty none = []
    or_empty (some x) = x
strip_prefix-rest (p ∷ ps) [] rest h = absurd (ground arith)
strip_prefix-rest (p ∷ ps) (b ∷ bs) rest h = elim (Bool-cases (p == b)) [
  | inl same ↦
      ap₂ ◌∷◌ (sym ((==_iff p b).0 same))
        (strip_prefix-rest ps bs rest (rw (strip_prefix, same) at h))
  | inr other ↦ absurd (nothing (rw (strip_prefix, other) at h))
]
  where
    nothing : ◌≡◌ {A = Option Bytes} none (some rest) → ⊥
    nothing e = cc

starts_with-rest :
    (start value : Bytes)
    → starts_with start value ≡ true
    → (rest : Bytes) × (value ≡ start ++ rest)
starts_with-rest start value h = elim (Option-cases (strip_prefix start value)) [
  | inl without ↦ absurd (ground arith)
  | inr (rest, found) ↦ (rest, strip_prefix-rest start value rest found)
]

-- The pieces have no slash.
abbrev Whole : Bytes → Type 0
Whole piece = All (λ b. b ≢ b'/') piece

with_byte-Whole :
    (b : ℕ) (pieces : List Bytes) → b ≢ b'/' → All Whole pieces → All Whole (with_byte b pieces)
with_byte-Whole b [] h k = ((h, tt), tt)
with_byte-Whole b (piece ∷ pieces) h (k, rest) = ((h, k), rest)

split_slash-Whole : (bs : Bytes) → All Whole (split_slash bs)
unfolding split_slash
split_slash-Whole [] = (tt, tt)
split_slash-Whole (b ∷ bs) = elim (Bool-cases (b == b'/')) [
  | inl slash ↦ rw slash (tt, split_slash-Whole bs)
  | inr other ↦ rw other (
      with_byte-Whole b (split_slash bs) (λ e. ground (arith, (==_iff b b'/').1 e))
        (split_slash-Whole bs))
]

plain-LeadsDown : (part : Bytes) → is_plain_part part ≡ true → Whole part → LeadsDown part
plain-LeadsDown part h whole = (
  λ e. cc,
  λ e. ground (arith, (bytes_eq_iff part (ascii ".")).1 e),
  λ e. ground (arith, (bytes_eq_iff part (ascii "..")).1 e),
  whole,
)

all-LeadsDown :
    (parts : List Bytes) → all is_plain_part parts ≡ true → All Whole parts → All LeadsDown parts
all-LeadsDown [] h whole = tt
all-LeadsDown (part ∷ parts) h (whole, rest) =
    (plain-LeadsDown part (ground arith) whole, all-LeadsDown parts (ground arith) rest)

path_in-parts :
    (directory value : Bytes)
    → path_in directory value ≡ true
    → (starts_with directory value ≡ true)
      × (all is_plain_part (split_slash (without_first value)) ≡ true)
unfolding path_in
path_in-parts directory value h = ground arith

path-Inside : (output : Output) → output_path output.path ≡ true → Inside output
path-Inside output h =
    let (starts, plain) = path_in-parts (ascii "/outputs/") output.path h in
    let (rest, starting) = starts_with-rest (ascii "/outputs/") output.path starts in
    let first : output.path ≡ b'/' ∷ without_first output.path =
      starting ∙ ap (◌∷◌ b'/') (ap without_first (sym starting)) in
    (
      (rest, starting),
      (
        split_slash (without_first output.path),
        first ∙ ap (◌∷◌ b'/') (sym (joined-split_slash (without_first output.path))),
        all-LeadsDown (split_slash (without_first output.path)) plain
            (split_slash-Whole (without_first output.path)),
      ),
    )

outputs-Inside :
    (earlier outputs : List Output) → outputs_fit earlier outputs ≡ true → All Inside outputs
unfolding outputs_fit
outputs-Inside earlier [] h = tt
outputs-Inside earlier (output ∷ rest) h =
    (path-Inside output (ground arith), outputs-Inside (output ∷ earlier) rest (ground arith))

valid_outputs : (job : Job) → validate job ≡ ok tt → outputs_fit [] job.spec.outputs ≡ true
unfolding validate
valid_outputs job h =
    let (_, h1) = guarded (within_limits job) document _ h in
    let (_, h2) = guarded (reasons_fit [] job.spec.retry.on) document _ h1 in
    let (fit, _) = guarded (outputs_fit [] job.spec.outputs) document _ h2 in fit

-- The settings that an assignment is executed by are those of the very document that its checksum
-- names; every declared output is a path below "/outputs/" by names that are not empty, "." or "..",
-- and no two of them have one name, one path, or a path below the other.
pub from_assignment-Pairs :
    (d : Documents) (a : Assignment) (spec : ExecutionSpec)
    → from_assignment d a ≡ ok spec
    → (hex (d.sha256 a.canonical_job_spec_json) ≡ a.spec_sha256)
      × (d.parse_job a.canonical_job_spec_json ≡ some spec.job)
      × All Inside spec.job.spec.outputs
      × Pairs Apart spec.job.spec.outputs
unfolding from_assignment
from_assignment-Pairs d a spec h =
    let raw = a.canonical_job_spec_json in
    let (_, h1) = guarded (not (is_empty raw) && leb (length raw) 2_097_152) document _ h in
    let (sum, h2) = guarded (bytes_eq (hex (d.sha256 raw)) a.spec_sha256) checksum _ h1 in
    let (value, _, h3) = required_ok (d.parse_value raw) document _ h2 in
    let (_, h4) = guarded (has_shape value) document _ h3 in
    let (job, parsed, h5) = required_ok (d.parse_job raw) document _ h4 in
    let (_, valid, h6) = >>=-ok (validate job) _ h5 in
    let (_, h7) = guarded (same_inputs job.spec.inputs a.inputs) wire_mismatch _ h6 in
    let (resources, _, h8) = required_ok a.resources wire_mismatch _ h7 in
    let (_, h9) = guarded (matches_wire job.spec a resources) wire_mismatch _ h8 in
    let fit = valid_outputs job valid in
    let same : job ≡ spec.job = ap (λ (s : ExecutionSpec). s.job) (same_ok h9) in
    (
      (bytes_eq_iff _ _).0 sum,
      subst (λ j. d.parse_job raw ≡ some j) same parsed,
      subst (λ (j : Job). All Inside j.spec.outputs) same (outputs-Inside [] job.spec.outputs fit),
      subst (λ (j : Job). Pairs Apart j.spec.outputs) same
          (outputs-Apart [] job.spec.outputs fit).1,
    )
