-- ===== src/Journal/Entries.antt =====
-- The entries of the directory of rust/worker/src/journal/files.rs: what stays and what changes.
use mathlib.Core.Path.{subst}
use distributed_execution.Base.{
  ◌≡◌, refl, inl, inr, true, false, none, some, [], ◌∷◌, Bytes, bytes_eq, bytes_eq_iff, Bool-cases,
}
use distributed_execution.Journal.Files.{
  StoredFile, Files, lookup, remove, put_file, sync_file, rename_file,
}

pub lookup-put_file :
    (name : Bytes) (file : StoredFile) (files : Files)
    → lookup name (put_file name file files) ≡ some file
lookup-put_file name file files = rw (lookup, (bytes_eq_iff name name).1 refl) refl

pub lookup-remove_same : (name : Bytes) (files : Files) → lookup name (remove name files) ≡ none
lookup-remove_same name [] = refl
lookup-remove_same name (entry ∷ files) = elim (Bool-cases (bytes_eq name entry.0)) [
  | inl here ↦ rw (remove, here) (lookup-remove_same name files)
  | inr other ↦ rw (remove, other) (rw (lookup, other) (lookup-remove_same name files))
]

-- A removal leaves the other entries.
pub lookup-remove_other :
    (name other : Bytes) (files : Files)
    → bytes_eq other name ≡ false
    → lookup other (remove name files) ≡ lookup other files
lookup-remove_other name other [] h = refl
lookup-remove_other name other (entry ∷ files) h = elim (Bool-cases (bytes_eq name entry.0)) [
  | inl here ↦
      let different : bytes_eq other entry.0 ≡ false =
        subst (λ x. bytes_eq other x ≡ false) ((bytes_eq_iff name entry.0).0 here) h in
      rw (remove, here) (rw (lookup, different) (lookup-remove_other name other files h))
  | inr there ↦
      rw (remove, there)
        (elim (Bool-cases (bytes_eq other entry.0)) [
          | inl found ↦ rw (lookup, found) refl
          | inr missed ↦ rw (lookup, missed) (lookup-remove_other name other files h)
        ])
]

-- A file that is put leaves the other entries.
pub lookup-put_other :
    (name other : Bytes) (file : StoredFile) (files : Files)
    → bytes_eq other name ≡ false
    → lookup other (put_file name file files) ≡ lookup other files
lookup-put_other name other file files h = rw (lookup, h) (lookup-remove_other name other files h)

pub sync_file-found :
    (name : Bytes) (file : StoredFile) (files : Files)
    → lookup name files ≡ some file
    → sync_file name files ≡ put_file name (record file { synced = true }) files
sync_file-found name file files h = rw (sync_file, h) refl

pub rename_file-found :
    (old new : Bytes) (file : StoredFile) (files : Files)
    → lookup old files ≡ some file
    → rename_file old new files ≡ put_file new file (remove old files)
rename_file-found old new file files h = rw (rename_file, h) refl
