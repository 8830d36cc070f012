-- ===== src/Journal/Disk.antt =====
-- The directory of rust/worker/src/journal/files.rs as the one that the journal works on.
use distributed_execution.Base.{◌≡◌, [], length, Bytes}
use distributed_execution.Journal.Records.{poisoned}
use distributed_execution.Journal.Store.{Directory}
use distributed_execution.Journal.Files.{FileStore, read_file, write_file}
use distributed_execution.Journal.Durable.{write_file-Commits}
use distributed_execution.Journal.Refusal.{Refuses, write_file-Refuses}

module _ (sha256 : Bytes → Bytes) (digest_length : (p : Bytes) → length (sha256 p) ≡ 32) where
  abbrev pub disk : Directory Bytes
  disk = record {
    State = FileStore;
    read = read_file sha256;
    write = write_file sha256;
    Failed = Refuses sha256;
    read-written =
        λ s s' name payload h. (write_file-Commits sha256 digest_length s s' name payload h).0;
    read-other = λ s s' name other payload h different.
        (write_file-Commits sha256 digest_length s s' name payload h).1 other different;
    write-failed = write_file-Refuses sha256;
    read-failed = λ s name failed. (poisoned, (failed name []).0);
  }
