-- ===== src/Journal/Refusal.antt =====
-- What a failed write of rust/worker/src/journal/files.rs leaves until the directory is opened again.
use distributed_execution.Base.{
  ◌≡◌, refl, sym, ap, ◌⊎◌, inl, inr, true, Option, none, some, Bytes, Result, ok, err, Result-cases,
}
use distributed_execution.Journal.Records.{JournalError, poisoned}
use distributed_execution.Journal.Files.{
  Fault, no_create, no_bytes, no_sync, no_rename, no_commit, FileStore, read_file, admitted,
  replace, next_fault, settle, write_file,
}

-- Nothing is read or written.
abbrev pub Refuses : (Bytes → Bytes) → FileStore → Type 0
Refuses sha256 s =
    (name payload : Bytes)
    → (read_file sha256 s name ≡ err poisoned)
      × (write_file sha256 s name payload ≡ (err poisoned, s))

module _ (sha256 : Bytes → Bytes) where
  poisoned-Refuses : (s : FileStore) → s.is_poisoned ≡ true → Refuses sha256 s
  unfolding read_file write_file admitted
  poisoned-Refuses s bad name payload = (rw bad refl, rw bad refl)

  replace-failed :
      (s s' : FileStore) (name payload : Bytes) (why : JournalError) (fault : Option Fault)
      → settle sha256 s (replace sha256 s.files name payload fault) ≡ (err why, s')
      → s'.is_poisoned ≡ true
  replace-failed s s' name payload why none h = absurd (clash (ap (λ end. end.0) h))
    where
      clash : ◌≡◌ {A = Result JournalError (Unit {0})} (ok tt) (err why) → ⊥
      clash e = cc
  replace-failed s s' name payload why (some (no_create kind)) h =
      ap (λ end. end.1.is_poisoned) (sym h)
  replace-failed s s' name payload why (some (no_bytes kind partial)) h =
      ap (λ end. end.1.is_poisoned) (sym h)
  replace-failed s s' name payload why (some (no_sync kind)) h =
      ap (λ end. end.1.is_poisoned) (sym h)
  replace-failed s s' name payload why (some (no_rename kind)) h =
      ap (λ end. end.1.is_poisoned) (sym h)
  replace-failed s s' name payload why (some (no_commit kind)) h =
      ap (λ end. end.1.is_poisoned) (sym h)

  -- After a failed write the directory is as before, or it refuses every read and every write.
  pub write_file-Refuses :
      (s s' : FileStore) (name payload : Bytes) (why : JournalError)
      → write_file sha256 s name payload ≡ (err why, s')
      → (s' ≡ s) ⊎ Refuses sha256 s'
  unfolding write_file
  write_file-Refuses s s' name payload why h =
      elim (Result-cases (admitted sha256 s name payload)) [
        | inl (_, fits) ↦ inr (
            poisoned-Refuses s'
              (replace-failed s s' name payload why (next_fault sha256 s.faults) (rw fits at h)))
        | inr (_, refused) ↦ inl (sym (ap (λ end. end.1) (rw refused at h)))
      ]
