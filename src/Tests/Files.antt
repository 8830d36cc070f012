-- ===== src/Tests/Files.antt =====
-- The theorems on the directory of the journal at concrete inputs.
use distributed_execution.Base.{
  Bool, Result, none, ◌≡◌, refl, ◌⊎◌, true, false, some, [], ◌∷◌, Bytes, bytes_eq, ok, err,
}
use distributed_execution.Journal.Records.{JournalError, io}
use distributed_execution.Journal.Store.{attempt_name}
use distributed_execution.Journal.Framing.{frame}
use distributed_execution.Journal.Files.{
  StoredFile, new_file, Files, no_rename, FileStore, pending, read_file, write_file, open_store,
}
use distributed_execution.Journal.Crash.{IsSynced, IsSettled}
use distributed_execution.Journal.Durable.{write_file-Commits}
use distributed_execution.Journal.Recovery.{open_store-write_file}
use distributed_execution.Control.{canonical_uuid}
use distributed_execution.Log.Format.{to_be_bytes}
use distributed_execution.Tests.Samples.{uuid}

-- A digest of the right length.
abbrev digest : Bytes → Bytes
digest payload =
    0 ∷ 1 ∷ 2 ∷ 3 ∷ 4 ∷ 5 ∷ 6 ∷ 7 ∷ 8 ∷ 9 ∷ 10 ∷ 11 ∷ 12 ∷ 13 ∷ 14 ∷ 15 ∷ 16 ∷ 17 ∷ 18 ∷ 19 ∷ 20
    ∷ 21 ∷ 22 ∷ 23 ∷ 24 ∷ 25 ∷ 26 ∷ 27 ∷ 28 ∷ 29 ∷ 30 ∷ 31 ∷ []

abbrev stored : Bytes → StoredFile
stored payload = new_file (frame digest payload) true

abbrev one_file : Bytes → Files
one_file payload = (attempt_name uuid, stored payload) ∷ []

abbrev before : FileStore
before = record {
  files = one_file (1 ∷ []);
  durable = one_file (1 ∷ []);
  limits = record { max_attempts = 2; max_bytes = 1000 };
  is_poisoned = false;
  root = ok tt;
  listing = ok tt;
  faults = [];
}

abbrev after : FileStore
after = record before { files = one_file (2 ∷ 3 ∷ []); durable = one_file (2 ∷ 3 ∷ []) }

write_file-Commits_example :
    (read_file digest after (attempt_name uuid) ≡ ok (some (2 ∷ 3 ∷ [])))
    × ((other : Bytes)
        → bytes_eq other (attempt_name uuid) ≡ false
        → read_file digest after other ≡ read_file digest before other)
unfolding write_file bytes_eq canonical_uuid to_be_bytes
write_file-Commits_example =
    write_file-Commits digest (λ p. refl) before after (attempt_name uuid) (2 ∷ 3 ∷ []) refl

abbrev doomed : FileStore
doomed = record before { faults = some (no_rename 5) ∷ [] }

-- The rename failed after the temporary was synced.
abbrev broken : FileStore
broken = record before {
  files = (pending, stored (2 ∷ 3 ∷ [])) ∷ one_file (1 ∷ []);
  is_poisoned = true;
}

IsSynced-if :
    (found : Bool) → IsSynced (elim found [ true ↦ some (stored (1 ∷ [])) | false ↦ none ])
IsSynced-if true = refl
IsSynced-if false = tt

doomed-IsSettled : IsSettled doomed
doomed-IsSettled name free = (refl, IsSynced-if (bytes_eq name (attempt_name uuid)))

open_store-write_file_example :
    IsSettled before
    × ((◌≡◌ {A = Result JournalError (Unit {0})} (err (io 5)) (ok tt)
          → read_file digest before (attempt_name uuid) ≡ ok (some (2 ∷ 3 ∷ [])))
        × ((other : Bytes)
            → bytes_eq other pending ≡ false
            → (read_file digest before other ≡ read_file digest doomed other)
              ⊎ ((other ≡ attempt_name uuid)
                  × (read_file digest before other ≡ ok (some (2 ∷ 3 ∷ []))))))
unfolding write_file bytes_eq open_store canonical_uuid to_be_bytes
open_store-write_file_example =
    open_store-write_file digest (λ p. refl) doomed broken before (attempt_name uuid) (2 ∷ 3 ∷ [])
      (err (io 5)) (ok tt) (λ name. true) (λ name. 9 ∷ []) refl doomed-IsSettled refl refl refl
