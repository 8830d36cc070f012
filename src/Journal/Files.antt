-- ===== src/Journal/Files.antt =====
-- rust/worker/src/journal/files.rs: the directory of the journal. What the file system answers is part
-- of the state: for each entry what its metadata and its reading give, what the checks and the listing
-- of the root give, and which call of a replacement fails. These answers stay until the state says
-- otherwise, and a new file of the writer can be read. A name that is not UTF-8 is one that is no
-- attempt's. What a crash of the machine leaves is told apart from what the calls show: a file whose
-- bytes are not yet synced, and the entries as of the last sync of the directory.
use distributed_execution.Base.{
  ℕ, ◌+◌, ◌-◌, Bool, true, false, not, ◌&&◌, ◌||◌, ◌==◌, leb, Option, none, some, List, [], ◌∷◌,
  length, Bytes, bytes_eq, bytes_le, sort_by, ascii, Result, ok, err, ◌>>=◌, ◌>>◌, guard, ok_or,
  checked_add,
}
use distributed_execution.Control.{canonical_uuid}
use distributed_execution.Journal.Records.{
  JournalError, corrupt, limit, poisoned, io, JournalLimits, is_none,
}
use distributed_execution.Journal.Store.{max_payload}
use distributed_execution.Journal.Framing.{file_header, frame, unframe}

-- `metadata` is what `symlink_metadata` and `metadata_safe` give, `content` what opening the file, the
-- checks of the opened file and reading it do.
pub record StoredFile : Type 0 where
  pub metadata : Result JournalError (Unit {0})
  pub content : Result JournalError (Unit {0})
  pub bytes : Bytes
  pub synced : Bool

abbrev pub new_file : Bytes → Bool → StoredFile
new_file bytes synced = record { metadata = ok tt; content = ok tt; bytes = bytes; synced = synced }

-- The call of a replacement that fails, with the kind of its error; a failed write has written some
-- of its bytes.
pub data Fault : Type 0 where
  no_create no_sync no_rename no_commit : (kind : ℕ) → Fault
  no_bytes : (kind : ℕ) → (partial : Bytes) → Fault

abbrev pub Files : Type 0
Files = List (Bytes × StoredFile)

-- `durable` are the entries as of the last sync of the directory; `root` is what the checks of the root
-- give; `listing` is what reading the directory does, of which an error is met before any entry is
-- tested; `faults` is what happens in the replacements to come.
pub record FileStore : Type 0 where
  pub files : Files
  pub durable : Files
  pub limits : JournalLimits
  pub is_poisoned : Bool
  pub root : Result JournalError (Unit {0})
  pub listing : Result JournalError (Unit {0})
  pub faults : List (Option Fault)

abbrev pub pending : Bytes
pending = ascii ".pending"

abbrev pub lookup : Bytes → Files → Option StoredFile
lookup name [] = none
lookup name (entry ∷ files) =
    let later = lookup name files in
    elim (bytes_eq name entry.0) [ true ↦ some entry.1 | false ↦ later ]

abbrev pub remove : Bytes → Files → Files
remove name [] = []
remove name (entry ∷ files) =
    let later = remove name files in
    elim (bytes_eq name entry.0) [ true ↦ later | false ↦ entry ∷ later ]

abbrev pub put_file : Bytes → StoredFile → Files → Files
put_file name file files = (name, file) ∷ remove name files

-- `sync_all` of a file
abbrev pub sync_file : Bytes → Files → Files
sync_file name files = elim (lookup name files) [
  | none ↦ files
  | some file ↦ put_file name (record file { synced = true }) files
]

-- `rename`
abbrev pub rename_file : (old new : Bytes) → Files → Files
rename_file old new files = elim (lookup old files) [
  | none ↦ files
  | some file ↦ put_file new file (remove old files)
]

abbrev pub healthy : FileStore → Result JournalError (Unit {0})
healthy s = do guard (not s.is_poisoned) poisoned; s.root

abbrev pub strip_suffix : Bytes → Bytes → Option Bytes
strip_suffix suffix [] = none
strip_suffix suffix (b ∷ bs) =
    let rest = strip_suffix suffix bs in
    elim (bytes_eq (b ∷ bs) suffix) [
      | true ↦ some []
      | false ↦ elim rest [ none ↦ none | some kept ↦ some (b ∷ kept) ]
    ]

abbrev identity_of : Bytes → Option Bytes
identity_of name = elim (strip_suffix (ascii ".attempt") name) [
  | none ↦ none
  | some id ↦ elim (canonical_uuid id) [ true ↦ some id | false ↦ none ]
]

-- The size of an entry that passes the test.
abbrev sized : StoredFile → (ℕ → Bool) → Result JournalError ℕ
sized file fits = do file.metadata; guard (fits (length file.bytes)) corrupt; ok (length file.bytes)

-- One entry of the directory: nothing, or the attempt and its size.
unfoldable pub listed : Bytes → StoredFile → Result JournalError (Option (Bytes × ℕ))
listed name file = elim (bytes_eq name (ascii ".lock") || bytes_eq name (ascii ".identity")) [
  | true ↦ ok none
  | false ↦ elim (bytes_eq name (ascii ".project-ids")) [
    | true ↦ do size ← sized file (λ n. n == 8 + file_header); ok none
    | false ↦ elim (bytes_eq name (ascii ".session")) [
      | true ↦ do size ← sized file (λ n. leb n (65_536 + file_header)); ok none
      | false ↦ do
        id ← ok_or (identity_of name) corrupt
        size ← sized file (λ n. leb n (max_payload + file_header))
        ok (some (id, size))
    ]
  ]
]

-- The loop of `inventory` after `count` records of `bytes` bytes.
unfoldable pub scan : JournalLimits → ℕ → ℕ → Files → Result JournalError (List (Bytes × ℕ))
unfolding listed
scan limits count bytes [] = ok []
scan limits count bytes (entry ∷ files) = do
  found ← listed entry.0 entry.1
  elim found [
    | none ↦ scan limits count bytes files
    | some item ↦ do
      total ← ok_or (checked_add bytes item.1) limit
      guard (leb (count + 1) limits.max_attempts && leb total limits.max_bytes) limit
      rest ← scan limits (count + 1) total files
      ok (item ∷ rest)
  ]

unfoldable pub inventory : FileStore → Result JournalError (List (Bytes × ℕ))
unfolding scan
inventory s = do
  healthy s
  s.listing
  records ← scan s.limits 0 0 s.files
  ok (sort_by (λ a b. bytes_le a.0 b.0) records)

abbrev pub size_of : Bytes → List (Bytes × ℕ) → Option ℕ
size_of id [] = none
size_of id (item ∷ items) =
    let later = size_of id items in elim (bytes_eq item.0 id) [ true ↦ some item.1 | false ↦ later ]

abbrev pub total_of : List (Bytes × ℕ) → ℕ
total_of [] = 0
total_of (item ∷ items) = item.1 + total_of items

abbrev or_zero : Option ℕ → ℕ
or_zero none = 0
or_zero (some n) = n

-- Whether a record of an attempt fits into the limits.
unfoldable pub fits_limits : JournalLimits → List (Bytes × ℕ) → Bytes → (size : ℕ) → Bool
fits_limits limits records id size =
    not (is_none (size_of id records) && leb limits.max_attempts (length records))
    && leb (total_of records - or_zero (size_of id records) + (size + file_header)) limits.max_bytes

module _ (sha256 : Bytes → Bytes) where
  unfoldable pub read_file : FileStore → Bytes → Result JournalError (Option Bytes)
  unfolding unframe
  read_file s name = do
    healthy s
    elim (lookup name s.files) [
      | none ↦ ok none
      | some file ↦ do file.metadata; file.content; body ← unframe sha256 file.bytes; ok (some body)
    ]

  -- `write` up to the replacement.
  unfoldable pub admitted : FileStore → Bytes → Bytes → Result JournalError (Unit {0})
  unfolding inventory fits_limits
  admitted s name payload = do
    healthy s
    guard (leb (length payload) max_payload) limit
    records ← inventory s
    elim (strip_suffix (ascii ".attempt") name) [
      | none ↦ ok tt
      | some id ↦ guard (fits_limits s.limits records id (length payload)) limit
    ]

  -- The temporary with bytes that are written and not yet synced.
  abbrev pub write_pending : Files → Bytes → Files
  write_pending files bytes = put_file pending (new_file bytes false) files

  -- The files before the rename and after it.
  abbrev pub sync_pending : Files → Bytes → Files
  sync_pending files payload = sync_file pending (write_pending files (frame sha256 payload))

  abbrev pub rename_pending : Files → Bytes → Bytes → Files
  rename_pending files name payload = rename_file pending name (sync_pending files payload)

  -- `replace`, with the call that fails.
  abbrev pub replace : Files → Bytes → Bytes → Option Fault → Result JournalError (Unit {0}) × Files
  replace files name payload none = (ok tt, rename_pending files name payload)
  replace files name payload (some (no_create kind)) = (err (io kind), files)
  replace files name payload (some (no_bytes kind partial)) =
      (err (io kind), write_pending files partial)
  replace files name payload (some (no_sync kind)) =
      (err (io kind), write_pending files (frame sha256 payload))
  replace files name payload (some (no_rename kind)) = (err (io kind), sync_pending files payload)
  replace files name payload (some (no_commit kind)) =
      (err (io kind), rename_pending files name payload)

  abbrev pub next_fault : List (Option Fault) → Option Fault
  next_fault [] = none
  next_fault (fault ∷ faults) = fault

  abbrev pub later_faults : List (Option Fault) → List (Option Fault)
  later_faults [] = []
  later_faults (fault ∷ faults) = faults

  -- The last call of a replacement syncs the directory. An error poisons the writer.
  abbrev pub settle :
      FileStore
      → Result JournalError (Unit {0}) × Files
      → Result JournalError (Unit {0}) × FileStore
  settle s (ok done, files) =
      (ok done, record s { files = files; durable = files; faults = later_faults s.faults })
  settle s (err why, files) =
      (err why, record s { files = files; is_poisoned = true; faults = later_faults s.faults })

  abbrev pub write_admitted :
      FileStore
      → Bytes
      → Bytes
      → Result JournalError (Unit {0})
      → Result JournalError (Unit {0}) × FileStore
  write_admitted s name payload (err why) = (err why, s)
  write_admitted s name payload (ok fits) =
      settle s (replace s.files name payload (next_fault s.faults))

  unfoldable pub write_file : FileStore → Bytes → Bytes → Result JournalError (Unit {0}) × FileStore
  unfolding admitted frame
  write_file s name payload = write_admitted s name payload (admitted s name payload)

-- The temporary is discarded when the directory is opened; `removal` is what its removal gives.
abbrev pub discarded :
    Files → Result JournalError (Unit {0}) → Option StoredFile → Result JournalError Files
discarded files removal none = ok files
discarded files removal (some file) = do file.metadata; removal; ok (remove pending files)

-- `open` when the lock is held.
unfoldable pub open_store :
    Result JournalError (Unit {0}) → FileStore → Result JournalError FileStore
unfolding inventory
open_store removal s = do
  s.root
  files ← discarded s.files removal (lookup pending s.files)
  records ← inventory (record s { files = files; durable = files; is_poisoned = false })
  ok (record s { files = files; durable = files; is_poisoned = false })
