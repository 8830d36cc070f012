-- ===== src/Journal/Durable.antt =====
-- What the directory of rust/worker/src/journal/files.rs promises of a write.
use mathlib.Core.Path.{subst}
use distributed_execution.Base.{
  ℕ, ◌+◌, ◌≤◌, ◌≡◌, refl, sym, ap, ◌∙◌, inl, inr, arith, true, false, ◌&&◌, leb, Option, none, some,
  List, [], ◌∷◌, length, Bytes, bytes_eq, bytes_eq_iff, Result, ok, err, ok_or, checked_add,
  Bool-cases, Option-cases, Result-cases, >>=-ok, guarded,
}
use distributed_execution.Journal.Records.{JournalError, limit, JournalLimits}
use distributed_execution.Journal.Store.{max_payload}
use distributed_execution.Journal.Framing.{frame, unframe-frame}
use distributed_execution.Journal.Files.{
  StoredFile, Fault, no_create, no_bytes, no_sync, no_rename, no_commit, Files, FileStore, pending,
  new_file, put_file, write_pending, sync_pending, lookup, remove, healthy, listed, scan, inventory,
  read_file, admitted, rename_pending, replace, next_fault, later_faults, settle, write_file,
}
use distributed_execution.Journal.Entries.{
  lookup-put_file, lookup-remove_same, lookup-remove_other, lookup-put_other, sync_file-found,
  rename_file-found,
}

pub failed : {why : JournalError} → ◌≡◌ {A = Result JournalError (Unit {0})} (err why) (ok tt) → ⊥
failed h = cc

pending_refused :
    (file : StoredFile) (found : Option (Bytes × ℕ)) → listed pending file ≡ ok found → ⊥
unfolding listed bytes_eq
pending_refused file found h = cc

-- A directory that can be listed has no temporary.
scan-pending :
    (limits : JournalLimits) (count bytes : ℕ) (files : Files) (records : List (Bytes × ℕ))
    → scan limits count bytes files ≡ ok records
    → lookup pending files ≡ none
unfolding scan
scan-pending limits count bytes [] records h = refl
scan-pending limits count bytes (entry ∷ files) records h =
    let (found, fits, h1) = >>=-ok (listed entry.0 entry.1) _ h in
    elim (Bool-cases (bytes_eq pending entry.0)) [
      | inl here ↦ absurd (
          pending_refused entry.1 found (
            subst (λ x. listed x entry.1 ≡ ok found) (sym ((bytes_eq_iff pending entry.0).0 here))
              fits))
      | inr other ↦
          rw (lookup, other)
            (elim (Option-cases found) [
              | inl nothing ↦ scan-pending limits count bytes files records (rw nothing at h1)
              | inr (item, one) ↦
                  let (total, _, h2) =
                    >>=-ok (ok_or (checked_add bytes item.1) limit) _ (rw one at h1) in
                  let (_, h3) =
                    guarded (leb (count + 1) limits.max_attempts && leb total limits.max_bytes)
                      limit _ h2 in
                  let (rest, scanned, _) = >>=-ok (scan limits (count + 1) total files) _ h3 in
                  scan-pending limits (count + 1) total files rest scanned
            ])
    ]

module _ (sha256 : Bytes → Bytes) (digest_length : (p : Bytes) → length (sha256 p) ≡ 32) where
  -- What an admitted write has seen.
  pub admitted-seen :
      (s : FileStore) (name payload : Bytes)
      → admitted sha256 s name payload ≡ ok tt
      → (healthy s ≡ ok tt) × (length payload ≤ max_payload) × (lookup pending s.files ≡ none)
  unfolding admitted inventory
  admitted-seen s name payload h =
      let (_, well, h1) = >>=-ok (healthy s) _ h in
      let (small, h2) = guarded (leb (length payload) max_payload) limit _ h1 in
      let (records, listing, _) = >>=-ok (inventory s) _ h2 in
      let (_, _, l0) = >>=-ok (healthy s) _ listing in
      let (_, _, l1) = >>=-ok s.listing _ l0 in
      let (scanned, l2, _) = >>=-ok (scan s.limits 0 0 s.files) _ l1 in
      (well, ground arith, scan-pending s.limits 0 0 s.files scanned l2)

  -- A file that was renamed into place is read as its payload.
  pub read-rename_pending :
      (t : FileStore) (name payload : Bytes)
      → healthy t ≡ ok tt
      → length payload ≤ max_payload
      → lookup name t.files ≡ some (new_file (frame sha256 payload) true)
      → read_file sha256 t name ≡ ok (some payload)
  unfolding read_file
  read-rename_pending t name payload well small found =
      rw (well, found) (rw (unframe-frame sha256 payload (digest_length payload) small) refl)

module _ (sha256 : Bytes → Bytes) where
  -- What is read depends on the entry alone.
  pub read-entry :
      (s t : FileStore) (name : Bytes)
      → healthy t ≡ healthy s
      → lookup name t.files ≡ lookup name s.files
      → read_file sha256 t name ≡ read_file sha256 s name
  unfolding read_file
  read-entry s t name well found = rw (well, found) refl

  -- The temporary is synced before the rename.
  sync_pending-put_file :
      (files : Files) (payload : Bytes)
      → sync_pending sha256 files payload
        ≡ put_file pending
            (new_file (frame sha256 payload) true)
            (write_pending sha256 files (frame sha256 payload))
  sync_pending-put_file files payload =
      sync_file-found pending (new_file (frame sha256 payload) false)
        (write_pending sha256 files (frame sha256 payload))
        (lookup-put_file pending (new_file (frame sha256 payload) false) files)

  pub lookup-complete_other :
      (files : Files) (other payload : Bytes)
      → bytes_eq other pending ≡ false
      → lookup other (sync_pending sha256 files payload) ≡ lookup other files
  lookup-complete_other files other payload free =
      ap (lookup other) (sync_pending-put_file files payload)
      ∙ lookup-put_other pending other (new_file (frame sha256 payload) true)
          (write_pending sha256 files (frame sha256 payload)) free
      ∙ lookup-put_other pending other (new_file (frame sha256 payload) false) files free

  rename_pending-put_file :
      (files : Files) (name payload : Bytes)
      → rename_pending sha256 files name payload
        ≡ put_file name
            (new_file (frame sha256 payload) true)
            (remove pending (sync_pending sha256 files payload))
  rename_pending-put_file files name payload =
      rename_file-found pending name (new_file (frame sha256 payload) true)
        (sync_pending sha256 files payload)
        (ap (lookup pending) (sync_pending-put_file files payload)
          ∙ lookup-put_file pending (new_file (frame sha256 payload) true)
              (write_pending sha256 files (frame sha256 payload)))

  pub lookup-rename_pending_same :
      (files : Files) (name payload : Bytes)
      → lookup name (rename_pending sha256 files name payload)
        ≡ some (new_file (frame sha256 payload) true)
  lookup-rename_pending_same files name payload =
      ap (lookup name) (rename_pending-put_file files name payload)
      ∙ lookup-put_file name (new_file (frame sha256 payload) true)
          (remove pending (sync_pending sha256 files payload))

  pub lookup-rename_pending_other :
      (files : Files) (name other payload : Bytes)
      → lookup pending files ≡ none
      → bytes_eq other name ≡ false
      → lookup other (rename_pending sha256 files name payload) ≡ lookup other files
  lookup-rename_pending_other files name other payload clean different =
      ap (lookup other) (rename_pending-put_file files name payload)
      ∙ lookup-put_other name other (new_file (frame sha256 payload) true)
          (remove pending (sync_pending sha256 files payload)) different
      ∙ elim (Bool-cases (bytes_eq other pending)) [
        | inl same ↦
            subst
              (λ x. lookup x (remove pending (sync_pending sha256 files payload)) ≡ lookup x files)
              (sym ((bytes_eq_iff other pending).0 same))
              (lookup-remove_same pending (sync_pending sha256 files payload) ∙ sym clean)
        | inr free ↦
            lookup-remove_other pending other (sync_pending sha256 files payload) free
            ∙ lookup-complete_other files other payload free
      ]

module _ (sha256 : Bytes → Bytes) (digest_length : (p : Bytes) → length (sha256 p) ≡ 32) where
  -- The outcome of a replacement that succeeded.
  pub replace-ok :
      (s s' : FileStore) (name payload : Bytes) (fault : Option Fault)
      → settle sha256 s (replace sha256 s.files name payload fault) ≡ (ok tt, s')
      → s' ≡ record s {
        files = rename_pending sha256 s.files name payload;
        durable = rename_pending sha256 s.files name payload;
        faults = later_faults sha256 s.faults;
      }
  replace-ok s s' name payload none h = sym (ap (λ end. end.1) h)
  replace-ok s s' name payload (some (no_create kind)) h = absurd (failed (ap (λ end. end.0) h))
  replace-ok s s' name payload (some (no_bytes kind partial)) h =
      absurd (failed (ap (λ end. end.0) h))
  replace-ok s s' name payload (some (no_sync kind)) h = absurd (failed (ap (λ end. end.0) h))
  replace-ok s s' name payload (some (no_rename kind)) h = absurd (failed (ap (λ end. end.0) h))
  replace-ok s s' name payload (some (no_commit kind)) h = absurd (failed (ap (λ end. end.0) h))

  -- With a digest of 32 bytes, a write that succeeded is read back, and every other file reads as
  -- before.
  pub write_file-Commits :
      (s s' : FileStore) (name payload : Bytes)
      → write_file sha256 s name payload ≡ (ok tt, s')
      → (read_file sha256 s' name ≡ ok (some payload))
        × ((other : Bytes)
            → bytes_eq other name ≡ false
            → read_file sha256 s' other ≡ read_file sha256 s other)
  unfolding write_file
  write_file-Commits s s' name payload h = elim (Result-cases (admitted sha256 s name payload)) [
    | inl (_, fits) ↦
        let (well, small, clean) = admitted-seen sha256 digest_length s name payload fits in
        let now = replace-ok s s' name payload (next_fault sha256 s.faults) (rw fits at h) in
        rw now (
          read-rename_pending sha256 digest_length _ name payload well small
              (lookup-rename_pending_same sha256 s.files name payload),
          λ other different.
              read-entry sha256 s _ other refl
                (lookup-rename_pending_other sha256 s.files name other payload clean different),
        )
    | inr (why, refused) ↦ absurd (failed (ap (λ end. end.0) (rw refused at h)))
  ]
