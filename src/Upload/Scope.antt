-- ===== src/Upload/Scope.antt =====
-- The keys that an attempt's uploads are stored under (rust/worker/src/control/uploads.rs).
use distributed_execution.Base.{
  ℕ, ◌==◌, ==_iff, ◌≡◌, ◌++◌, refl, sym, ◌∙◌, ap, arith, inl, inr, Bool-cases, get_elem?, none,
  some, true, bytes_eq_iff, [], ◌∷◌, List, Bytes, ascii,
}
use distributed_execution.Control.{AttemptAuthority, canonical_uuid}
use distributed_execution.Upload.{scoped_key, split_slash, with_byte, key_pieces}

abbrev pub after_slash : List Bytes → Bytes
after_slash [] = []
after_slash (piece ∷ pieces) = b'/' ∷ piece ++ after_slash pieces

-- The pieces with slashes between them.
abbrev pub joined : List Bytes → Bytes
joined [] = []
joined (piece ∷ pieces) = piece ++ after_slash pieces

-- A list of pieces that is not empty.
abbrev Some : List Bytes → Type 0
Some [] = ⊥
Some (piece ∷ pieces) = Unit {0}

split_slash-Some : (bs : Bytes) → Some (split_slash bs)
unfolding split_slash
split_slash-Some [] = tt
split_slash-Some (b ∷ bs) = elim (Bool-cases (b == b'/')) [
  | inl slash ↦ rw slash tt
  | inr other ↦ rw other (with_byte-Some b (split_slash bs))
]
  where
    with_byte-Some : (c : ℕ) (pieces : List Bytes) → Some (with_byte c pieces)
    with_byte-Some c [] = tt
    with_byte-Some c (piece ∷ pieces) = tt

joined-with_byte : (b : ℕ) (pieces : List Bytes) → joined (with_byte b pieces) ≡ b ∷ joined pieces
joined-with_byte b [] = refl
joined-with_byte b (piece ∷ pieces) = refl

after_slash-joined :
    (b : ℕ) (pieces : List Bytes) → Some pieces → b ≡ b'/' → after_slash pieces ≡ b ∷ joined pieces
after_slash-joined b [] s e = absurd s
after_slash-joined b (piece ∷ pieces) s e = rw e refl

pub joined-split_slash : (bs : Bytes) → joined (split_slash bs) ≡ bs
unfolding split_slash
joined-split_slash [] = refl
joined-split_slash (b ∷ bs) = elim (Bool-cases (b == b'/')) [
  | inl slash ↦ rw slash (
      after_slash-joined b (split_slash bs) (split_slash-Some bs) ((==_iff b b'/').0 slash)
      ∙ ap (◌∷◌ b) (joined-split_slash bs))
  | inr other ↦ rw other (joined-with_byte b (split_slash bs) ∙ ap (◌∷◌ b) (joined-split_slash bs))
]

-- The eight pieces of a key for an upload of an attempt of the job.
abbrev pub key_of : (project job attempt upload : Bytes) → List Bytes
key_of project job attempt upload =
    ascii "projects"
    ∷ project
    ∷ ascii "jobs"
    ∷ job
    ∷ ascii "attempts"
    ∷ attempt
    ∷ ascii "uploads"
    ∷ upload
    ∷ []

eight_known :
    (p0 p1 p2 p3 p4 p5 p6 p7 : Bytes) (a : AttemptAuthority) (upload : Bytes)
    → key_pieces (p0 ∷ p1 ∷ p2 ∷ p3 ∷ p4 ∷ p5 ∷ p6 ∷ p7 ∷ []) a upload ≡ true
    → (canonical_uuid p1 ≡ true)
      × (p0 ≡ ascii "projects")
      × (p2 ≡ ascii "jobs")
      × (p3 ≡ a.job_id)
      × (p4 ≡ ascii "attempts")
      × (p5 ≡ a.attempt_id)
      × (p6 ≡ ascii "uploads")
      × (p7 ≡ upload)
eight_known p0 p1 p2 p3 p4 p5 p6 p7 a upload h = ground (
  arith,
  bytes_eq_iff p0 (ascii "projects"),
  bytes_eq_iff p2 (ascii "jobs"),
  bytes_eq_iff p3 a.job_id,
  bytes_eq_iff p4 (ascii "attempts"),
  bytes_eq_iff p5 a.attempt_id,
  bytes_eq_iff p6 (ascii "uploads"),
  bytes_eq_iff p7 upload,
)

pieces_known :
    (pieces : List Bytes) (a : AttemptAuthority) (upload : Bytes)
    → key_pieces pieces a upload ≡ true
    → (project : Bytes) × (canonical_uuid project ≡ true)
      × (pieces ≡ key_of project a.job_id a.attempt_id upload)
pieces_known [] a upload h = absurd (ground arith)
pieces_known (p0 ∷ []) a upload h = absurd (ground arith)
pieces_known (p0 ∷ p1 ∷ []) a upload h = absurd (ground arith)
pieces_known (p0 ∷ p1 ∷ p2 ∷ []) a upload h = absurd (ground arith)
pieces_known (p0 ∷ p1 ∷ p2 ∷ p3 ∷ []) a upload h = absurd (ground arith)
pieces_known (p0 ∷ p1 ∷ p2 ∷ p3 ∷ p4 ∷ []) a upload h = absurd (ground arith)
pieces_known (p0 ∷ p1 ∷ p2 ∷ p3 ∷ p4 ∷ p5 ∷ []) a upload h = absurd (ground arith)
pieces_known (p0 ∷ p1 ∷ p2 ∷ p3 ∷ p4 ∷ p5 ∷ p6 ∷ []) a upload h = absurd (ground arith)
pieces_known (p0 ∷ p1 ∷ p2 ∷ p3 ∷ p4 ∷ p5 ∷ p6 ∷ p7 ∷ p8 ∷ more) a upload h = absurd (ground arith)
pieces_known (p0 ∷ p1 ∷ p2 ∷ p3 ∷ p4 ∷ p5 ∷ p6 ∷ p7 ∷ []) a upload h =
    let (known, project, jobs, job, attempts, attempt, uploads, named) =
      eight_known p0 p1 p2 p3 p4 p5 p6 p7 a upload h in
    (p1, known, cc)

scoped_pieces :
    (key : Bytes) (a : AttemptAuthority) (upload : Bytes)
    → scoped_key key a upload ≡ true
    → (project : Bytes) × (canonical_uuid project ≡ true)
      × (split_slash key ≡ key_of project a.job_id a.attempt_id upload)
unfolding scoped_key
scoped_pieces key a upload h = pieces_known (split_slash key) a upload h

-- A key in the scope of an upload is spelled out by a project, the attempt's job, the attempt and
-- the upload, and it is in the scope of no other upload, attempt or job.
pub scoped_key-one_upload :
    (key : Bytes) (a b : AttemptAuthority) (upload other : Bytes)
    → scoped_key key a upload ≡ true
    → scoped_key key b other ≡ true
    → ((project : Bytes) × (canonical_uuid project ≡ true)
        × (key ≡ joined (key_of project a.job_id a.attempt_id upload)))
      × (a.job_id ≡ b.job_id)
      × (a.attempt_id ≡ b.attempt_id)
      × (upload ≡ other)
scoped_key-one_upload key a b upload other h k =
    let (project, canonical, pieces) = scoped_pieces key a upload h in
    let (project', canonical', pieces') = scoped_pieces key b other k in
    let same = sym pieces ∙ pieces' in
    (
      (project, canonical, sym (joined-split_slash key) ∙ ap joined pieces),
      ap (piece 3) same,
      ap (piece 5) same,
      ap (piece 7) same,
    )
  where
    piece : ℕ → List Bytes → Bytes
    piece n pieces = elim (get_elem? pieces n) [ none ↦ [] | some p ↦ p ]
