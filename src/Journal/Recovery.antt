-- ===== src/Journal/Recovery.antt =====
-- What is found when the directory of rust/worker/src/journal/files.rs is opened again after a write and a
-- crash of the machine.
use distributed_execution.Base.{
  ◌≡◌, refl, sym, ap, ◌∙◌, ◌⊎◌, inl, inr, true, false, Bool, ◌≤◌, Option, none, some, length, Bytes,
  bytes_eq, bytes_eq_iff, Result, ok, err, Bool-cases, Result-cases, >>=-ok, same_ok,
}
use distributed_execution.Journal.Records.{JournalError}
use distributed_execution.Journal.Store.{max_payload}
use distributed_execution.Journal.Crash.{crash, lookup-crash_synced, IsSynced, IsSettled}
use mathlib.Core.Path.{subst}
use distributed_execution.Journal.Framing.{frame}
use distributed_execution.Journal.Files.{
  StoredFile, Fault, no_create, no_bytes, no_sync, no_rename, no_commit, Files, FileStore, pending,
  new_file, later_faults, lookup, healthy, inventory, read_file, admitted, rename_pending, replace,
  next_fault, settle, write_file, discarded, open_store,
}
use distributed_execution.Journal.Entries.{lookup-remove_other, lookup-put_other}
use distributed_execution.Journal.Durable.{
  admitted-seen, read-rename_pending, read-entry, lookup-rename_pending_other,
  lookup-rename_pending_same, lookup-complete_other, replace-ok, failed,
}

healthy-root : (s : FileStore) → s.is_poisoned ≡ false → healthy s ≡ s.root
healthy-root s well = rw well refl

settle-root :
    (sha256 : Bytes → Bytes) (s : FileStore) (end : Result JournalError (Unit {0}) × Files)
    → (settle sha256 s end).1.root ≡ s.root
settle-root sha256 s (ok done, files) = refl
settle-root sha256 s (err why, files) = refl

-- The discarded temporary leaves the other files.
lookup-discarded :
    (files files' : Files) (removal : Result JournalError (Unit {0})) (found : Option StoredFile)
    (name : Bytes)
    → discarded files removal found ≡ ok files'
    → bytes_eq name pending ≡ false
    → lookup name files' ≡ lookup name files
lookup-discarded files files' removal none name h free = ap (lookup name) (sym (same_ok h))
lookup-discarded files files' removal (some file) name h free =
    let (_, _, h1) = >>=-ok file.metadata _ h in
    let (_, _, h2) = >>=-ok removal _ h1 in
    ap (lookup name) (sym (same_ok h2)) ∙ lookup-remove_other pending name files free

-- A directory that was opened again has the files of before, without the temporary, is not poisoned,
-- and its entries are synced.
opened :
    (removal : Result JournalError (Unit {0})) (s t : FileStore)
    → open_store removal s ≡ ok t
    → (healthy t ≡ s.root)
      × (t.durable ≡ t.files)
      × ((name : Bytes) → bytes_eq name pending ≡ false → lookup name t.files ≡ lookup name s.files)
unfolding open_store
opened removal s t h =
    let (_, rooted, h1) = >>=-ok s.root _ h in
    let (files, discards, h2) = >>=-ok (discarded s.files removal (lookup pending s.files)) _ h1 in
    let (_, _, h3) =
      >>=-ok (inventory (record s { files = files; durable = files; is_poisoned = false })) _ h2 in
    rw⁻¹ (same_ok h3) (
      refl,
      refl,
      λ name free.
          lookup-discarded s.files files removal (lookup pending s.files) name discards free,
    )

module _ (sha256 : Bytes → Bytes) where
  -- The entry of before the write, or the written file with synced bytes.
  abbrev OldOrNew : FileStore → (name payload other : Bytes) → Option StoredFile → Type 0
  OldOrNew s name payload other entry =
      (entry ≡ lookup other s.files)
      ⊎ ((other ≡ name) × (entry ≡ some (new_file (frame sha256 payload) true)))

  renamed_entry :
      (s : FileStore) (name payload other : Bytes)
      → lookup pending s.files ≡ none
      → OldOrNew s name payload other (lookup other (rename_pending sha256 s.files name payload))
  renamed_entry s name payload other clean = elim (Bool-cases (bytes_eq other name)) [
    | inl same ↦
        let here : other ≡ name = (bytes_eq_iff other name).0 same in
        inr (
          here,
          ap (λ x. lookup x (rename_pending sha256 s.files name payload)) here
              ∙ lookup-rename_pending_same sha256 s.files name payload,
        )
    | inr different ↦
        inl (lookup-rename_pending_other sha256 s.files name other payload clean different)
  ]

  -- The entry that the calls show after a replacement, whatever call of it failed.
  replaced_files :
      (s : FileStore) (name payload other : Bytes) (fault : Option Fault)
      → lookup pending s.files ≡ none
      → bytes_eq other pending ≡ false
      → OldOrNew s name payload other
          (lookup other (settle sha256 s (replace sha256 s.files name payload fault)).1.files)
  replaced_files s name payload other none clean free = renamed_entry s name payload other clean
  replaced_files s name payload other (some (no_create kind)) clean free = inl refl
  replaced_files s name payload other (some (no_bytes kind partial)) clean free =
      inl (lookup-put_other pending other (new_file partial false) s.files free)
  replaced_files s name payload other (some (no_sync kind)) clean free =
      inl (lookup-put_other pending other (new_file (frame sha256 payload) false) s.files free)
  replaced_files s name payload other (some (no_rename kind)) clean free =
      inl (lookup-complete_other sha256 s.files other payload free)
  replaced_files s name payload other (some (no_commit kind)) clean free =
      renamed_entry s name payload other clean

  -- The entry as of the last sync of the directory.
  replaced_durable :
      (s : FileStore) (name payload other : Bytes) (fault : Option Fault)
      → lookup pending s.files ≡ none
      → lookup other s.durable ≡ lookup other s.files
      → OldOrNew s name payload other
          (lookup other (settle sha256 s (replace sha256 s.files name payload fault)).1.durable)
  replaced_durable s name payload other none clean same = renamed_entry s name payload other clean
  replaced_durable s name payload other (some (no_create kind)) clean same = inl same
  replaced_durable s name payload other (some (no_bytes kind partial)) clean same = inl same
  replaced_durable s name payload other (some (no_sync kind)) clean same = inl same
  replaced_durable s name payload other (some (no_rename kind)) clean same = inl same
  replaced_durable s name payload other (some (no_commit kind)) clean same = inl same

  OldOrNew-IsSynced :
      (s : FileStore) (name payload other : Bytes) (entry : Option StoredFile)
      → IsSynced (lookup other s.files)
      → OldOrNew s name payload other entry
      → IsSynced entry
  OldOrNew-IsSynced s name payload other entry h (inl old) = subst IsSynced (sym old) h
  OldOrNew-IsSynced s name payload other entry h (inr (_, new)) = subst IsSynced (sym new) refl

  -- The entry after a write, whatever became of it, and after a crash.
  crashed_entry :
      (s s' : FileStore) (name payload other : Bytes) (keep : Bytes → Bool)
      (garbage : Bytes → Bytes)
      → IsSynced (lookup other s.files)
      → OldOrNew s name payload other (lookup other s'.files)
      → OldOrNew s name payload other (lookup other s'.durable)
      → OldOrNew s name payload other (lookup other (crash keep garbage s').files)
  crashed_entry s s' name payload other keep garbage synced shown old =
      elim (lookup-crash_synced keep garbage s' other
        (OldOrNew-IsSynced s name payload other (lookup other s'.files) synced shown)
        (OldOrNew-IsSynced s name payload other (lookup other s'.durable) synced old)) [
          | inl e ↦ subst (OldOrNew s name payload other) (sym e) shown
          | inr e ↦ subst (OldOrNew s name payload other) (sym e) old
        ]

  -- The root's answer and the two entries after a write.
  abbrev Written : FileStore → FileStore → (name payload other : Bytes) → Type 0
  Written s s' name payload other =
      (s'.root ≡ s.root)
      × OldOrNew s name payload other (lookup other s'.files)
      × OldOrNew s name payload other (lookup other s'.durable)

  admitted-Written :
      (s s' : FileStore) (name payload other : Bytes) (outcome : Result JournalError (Unit {0}))
      → lookup pending s.files ≡ none
      → lookup other s.durable ≡ lookup other s.files
      → bytes_eq other pending ≡ false
      → settle sha256 s (replace sha256 s.files name payload (next_fault sha256 s.faults))
        ≡ (outcome, s')
      → Written s s' name payload other
  admitted-Written s s' name payload other outcome clean same free h = rw⁻¹ (ap (λ end. end.1) h) (
    settle-root sha256 s (replace sha256 s.files name payload (next_fault sha256 s.faults)),
    replaced_files s name payload other (next_fault sha256 s.faults) clean free,
    replaced_durable s name payload other (next_fault sha256 s.faults) clean same,
  )

module _ (sha256 : Bytes → Bytes) (digest_length : (p : Bytes) → length (sha256 p) ≡ 32) where
  -- The entry of a write that was refused.
  unwritten_entry :
      (s s' : FileStore) (other : Bytes) (keep : Bytes → Bool) (garbage : Bytes → Bytes)
      → IsSettled s
      → s' ≡ s
      → bytes_eq other pending ≡ false
      → lookup other (crash keep garbage s').files ≡ lookup other s.files
  unwritten_entry s s' other keep garbage settled same free =
      let (old, synced) = settled other free in
      ap (λ x. lookup other (crash keep garbage x).files) same
      ∙ elim (lookup-crash_synced keep garbage s other synced (subst IsSynced (sym old) synced)) [
        | inl e ↦ e
        | inr e ↦ e ∙ old
      ]

  -- The entry when the directory was opened again.
  reopened_entry :
      (s s' t : FileStore) (name payload other : Bytes) (outcome : Result JournalError (Unit {0}))
      (keep : Bytes → Bool) (garbage : Bytes → Bytes)
      → IsSettled s
      → write_file sha256 s name payload ≡ (outcome, s')
      → bytes_eq other pending ≡ false
      → lookup other t.files ≡ lookup other (crash keep garbage s').files
      → OldOrNew sha256 s name payload other (lookup other t.files)
  unfolding write_file
  reopened_entry s s' t name payload other outcome keep garbage settled h free entry =
      elim (Result-cases (admitted sha256 s name payload)) [
        | inr (why, refused) ↦
            let same : s' ≡ s = sym (ap (λ end. end.1) (rw refused at h)) in
            inl (entry ∙ unwritten_entry s s' other keep garbage settled same free)
        | inl (_, fits) ↦
            let (_, _, clean) = admitted-seen sha256 digest_length s name payload fits in
            let (old, synced) = settled other free in
            let (_, shown, durable) =
              admitted-Written sha256 s s' name payload other outcome clean old free
                (rw fits at h) in
            subst (OldOrNew sha256 s name payload other) (sym entry)
              (crashed_entry sha256 s s' name payload other keep garbage synced shown durable)
      ]

  -- What is read when the directory was opened again.
  reopened_read :
      (s t : FileStore) (name payload other : Bytes)
      → healthy t ≡ ok tt
      → healthy t ≡ healthy s
      → length payload ≤ max_payload
      → OldOrNew sha256 s name payload other (lookup other t.files)
      → (read_file sha256 t other ≡ read_file sha256 s other)
        ⊎ ((other ≡ name) × (read_file sha256 t other ≡ ok (some payload)))
  reopened_read s t name payload other sound again small (inl old) =
      inl (read-entry sha256 s t other again old)
  reopened_read s t name payload other sound again small (inr (same, new)) =
      inr (same, read-rename_pending sha256 digest_length t other payload sound small new)

  -- A write that succeeded is on disk.
  committed_read :
      (s s' t : FileStore) (name payload : Bytes) (keep : Bytes → Bool) (garbage : Bytes → Bytes)
      → s' ≡ record s {
        files = rename_pending sha256 s.files name payload;
        durable = rename_pending sha256 s.files name payload;
        faults = later_faults sha256 s.faults;
      }
      → healthy t ≡ ok tt
      → length payload ≤ max_payload
      → lookup name t.files ≡ lookup name (crash keep garbage s').files
      → read_file sha256 t name ≡ ok (some payload)
  committed_read s s' t name payload keep garbage now sound small entry =
      read-rename_pending sha256 digest_length t name payload sound small (
        entry
        ∙ elim (lookup-crash_synced keep garbage s' name (subst IsSynced (sym shown) refl)
            (subst IsSynced (sym old) refl)) [ inl e ↦ e ∙ shown | inr e ↦ e ∙ old ])
    where
      shown : lookup name s'.files ≡ some (new_file (frame sha256 payload) true)
      shown =
          ap (λ x. lookup name x.files) now ∙ lookup-rename_pending_same sha256 s.files name payload

      old : lookup name s'.durable ≡ some (new_file (frame sha256 payload) true)
      old =
          ap (λ x. lookup name x.durable) now
          ∙ lookup-rename_pending_same sha256 s.files name payload

  -- Whatever became of a write to a settled directory by a writer that was not poisoned, with a digest
  -- of 32 bytes, and whatever a crash of the machine then left of files and entries that were not
  -- synced: when the directory is opened again, it is settled, and each file but the temporary reads as
  -- before the write, or it is the written one and reads as the whole payload. If the write had
  -- succeeded, the written file reads as the payload.
  pub open_store-write_file :
      (s s' t : FileStore) (name payload : Bytes) (outcome removal : Result JournalError (Unit {0}))
      (keep : Bytes → Bool) (garbage : Bytes → Bytes)
      → s.is_poisoned ≡ false
      → IsSettled s
      → write_file sha256 s name payload ≡ (outcome, s')
      → open_store removal (crash keep garbage s') ≡ ok t
      → bytes_eq name pending ≡ false
      → IsSettled t
        × ((outcome ≡ ok tt → read_file sha256 t name ≡ ok (some payload))
            × ((other : Bytes)
                → bytes_eq other pending ≡ false
                → (read_file sha256 t other ≡ read_file sha256 s other)
                  ⊎ ((other ≡ name) × (read_file sha256 t other ≡ ok (some payload)))))
  unfolding write_file
  open_store-write_file s s' t name payload outcome removal keep garbage well settled h reopened
        free_name =
      let (rooted, durable, entries) = opened removal (crash keep garbage s') t reopened in
      (
        λ other free. (
          ap (lookup other) durable,
          OldOrNew-IsSynced sha256 s name payload other (lookup other t.files)
              (settled other free).1
              (reopened_entry s s' t name payload other outcome keep garbage settled h free
                (entries other free)),
        ),
        elim (Result-cases (admitted sha256 s name payload)) [
          | inr (why, refused) ↦
              let ended = rw refused at h in
              let same : s' ≡ s = sym (ap (λ end. end.1) ended) in
              (
                λ succeeded. absurd (failed (ap (λ end. end.0) ended ∙ succeeded)),
                λ other free. inl (
                    read-entry sha256 s t other
                      (rooted ∙ ap (λ x. x.root) same ∙ sym (healthy-root s well))
                      (entries other free
                        ∙ unwritten_entry s s' other keep garbage settled same free)),
              )
          | inl (_, fits) ↦
              let (sound, small, clean) = admitted-seen sha256 digest_length s name payload fits in
              let ended = rw fits at h in
              let again : healthy t ≡ healthy s =
                rooted
                ∙ ap (λ end. end.1.root) (sym ended)
                ∙ settle-root sha256 s
                    (replace sha256 s.files name payload (next_fault sha256 s.faults))
                ∙ sym (healthy-root s well) in
              (
                λ succeeded.
                    committed_read s s' t name payload keep garbage
                      (replace-ok sha256 digest_length s s' name payload
                        (next_fault sha256 s.faults) (ended ∙ ap (λ o. (o, s')) succeeded))
                      (again ∙ sound) small (entries name free_name),
                λ other free. reopened_read s t name payload other (again ∙ sound) again small (
                    reopened_entry s s' t name payload other outcome keep garbage settled h free
                      (entries other free)),
              )
        ],
      )
