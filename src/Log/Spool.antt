-- ===== src/Log/Spool.antt =====
-- rust/worker/src/log_spool.rs: the bounded disk queue of sealed segments.
-- What the file system answers is an argument: the outcome of the calls that publish or remove an
-- object, and the metadata of an opened file. An `io::Error` is its kind, a number.
pub mod Accounting
pub mod Calls
use distributed_execution.Base.{
  ℕ, zero, suc, ◌+◌, ◌-◌, ◌/◌, ◌%◌, ◌^◌, ◌<◌, Bool, true, false, not, ◌&&◌, ◌||◌, ◌==◌, ltb, leb,
  if◌then◌else◌, Option, none, some, List, [], ◌∷◌, ◌++◌, length, Bytes, bytes_eq, ascii, Result,
  ok, err, ◌>>=◌, ◌>>◌, guard, ok_or, map_err,
}
use distributed_execution.Control.{
  LogStream, stdout, stderr, log_stream_unspecified, stream_code, canonical_uuid,
}
use distributed_execution.Log.Format.{LogSegment, max_segment_bytes}

abbrev pub max_spool_bytes : ℕ
max_spool_bytes = 0x1000_0000

abbrev pub max_spool_segments : ℕ
max_spool_segments = 1024

pub data SpoolError : Type 0 where
  invalid spool_identity unsafe_path conflict poisoned_error : SpoolError
  io : ℕ → SpoolError

pub record StoredSegment : Type 0 where
  pub path : Bytes
  pub name : Bytes
  pub size : ℕ

pub data SpoolOutcome : Type 0 where
  stored : StoredSegment → SpoolOutcome
  saturated : SpoolOutcome

pub record LogSpool : Type 0 where
  pub root : Bytes
  pub attempt_id : Bytes
  pub cap : ℕ
  pub used : ℕ
  pub entries : List (Bytes × ℕ)
  pub poisoned : Bool

pub record Metadata : Type 0 where
  pub is_file : Bool
  pub uid : ℕ
  pub mode : ℕ
  pub nlink : ℕ
  pub len : ℕ

-- `0o1000` is 512: the mode's low nine bits.
unfoldable pub safe_file : Metadata → ℕ → ℕ → Result SpoolError (Unit {0})
safe_file meta owner size =
    if not meta.is_file
      || not (meta.uid == owner)
      || not (meta.mode % 0o1000 == 0o600)
      || not (meta.nlink == 1)
      || not (meta.len == size)
    then err unsafe_path
    else ok tt

-- `create` up to the file system, which answers whether the directory could be made, as a private
-- directory of this user, and made durable.
unfoldable pub create :
    Option Bytes → Bytes → ℕ → Result SpoolError (Unit {0}) → Result SpoolError LogSpool
create file_name root cap made = do
  attempt_id ← ok_or file_name unsafe_path
  guard (not (not (canonical_uuid attempt_id) || cap == 0 || ltb max_spool_bytes cap)) invalid
  made
  ok (record {
    root = root;
    attempt_id = attempt_id;
    cap = cap;
    used = 0;
    entries = [];
    poisoned = false;
  })

-- The last `k` decimal digits.
digits : ℕ → ℕ → Bytes
digits zero n = []
digits (suc k) n = digits k (n / 10) ++ (b'0' + n % 10) ∷ []

-- `{:019}`; a u64 has 20 digits at most.
abbrev padded : ℕ → Bytes
padded n = if ltb n (10 ^ 19) then digits 19 n else digits 20 n

abbrev prefix : LogStream → Result SpoolError Bytes
prefix stdout = ok (ascii "stdout")
prefix stderr = ok (ascii "stderr")
prefix log_stream_unspecified = err invalid

segment_name : Bytes → ℕ → ℕ → Bytes
unfolding digits
segment_name prefix first last =
    prefix ++ (b'-' ∷ (padded first ++ (b'-' ∷ (padded last ++ ascii ".seg"))))

unfoldable pub join : Bytes → Bytes → Bytes
join root name = root ++ b'/' ∷ name

abbrev pub find_entry : Bytes → List (Bytes × ℕ) → Option ℕ
find_entry name [] = none
find_entry name ((key, size) ∷ entries) =
    if bytes_eq key name then some size else find_entry name entries

abbrev pub remove_entry : Bytes → List (Bytes × ℕ) → List (Bytes × ℕ)
remove_entry name [] = []
remove_entry name ((key, size) ∷ entries) =
    if bytes_eq key name then entries else (key, size) ∷ remove_entry name entries

abbrev pub has_entry : Bytes → List (Bytes × ℕ) → Bool
has_entry name entries = elim (find_entry name entries) [ none ↦ false | some size ↦ true ]

-- After the tests: `published` is the outcome of writing, linking and syncing the object.
publish : LogSpool → Bytes → ℕ → Result ℕ (Unit {0}) → Result SpoolError SpoolOutcome × LogSpool
publish s name size (err kind) = (err (io kind), record s { poisoned = true })
publish s name size (ok done) = (
  ok (stored (record { path = join s.root name; name = name; size = size })),
  record s { used = s.used + size; entries = (name, size) ∷ s.entries },
)

store_named : LogSpool → Bytes → ℕ → Result ℕ (Unit {0}) → Result SpoolError SpoolOutcome × LogSpool
unfolding publish
store_named s name size published =
    if has_entry name s.entries
    then (err conflict, s)
    else if leb max_spool_segments (length s.entries)
    then (ok saturated, s)
    else if ltb (s.cap - s.used) size
    then (ok saturated, s)
    else publish s name size published

store_in :
    LogSpool
    → Result SpoolError Bytes
    → LogSegment
    → Result ℕ (Unit {0})
    → Result SpoolError SpoolOutcome × LogSpool
unfolding store_named segment_name
store_in s (err e) segment published = (err e, s)
store_in s (ok prefix) segment published =
    if length segment.bytes == 0 || ltb max_segment_bytes (length segment.bytes)
    then (err invalid, s)
    else store_named s (segment_name prefix segment.first_sequence segment.last_sequence)
        (length segment.bytes) published

unfoldable pub store :
    LogSpool
    → LogStream
    → LogSegment
    → Result ℕ (Unit {0})
    → Result SpoolError SpoolOutcome × LogSpool
unfolding store_in
store s stream segment published =
    if s.poisoned
    then (err poisoned_error, s)
    else if not (bytes_eq segment.attempt_id s.attempt_id)
        || not (stream_code segment.stream == stream_code stream)
    then (err spool_identity, s)
    else store_in s (prefix stream) segment published

abbrev is_size : Option ℕ → ℕ → Bool
is_size none size = false
is_size (some n) size = n == size

-- `opened` is the metadata of the file at the entry's path.
unfoldable pub read :
    LogSpool → StoredSegment → Result ℕ Metadata → ℕ → Result SpoolError (Unit {0})
unfolding safe_file
read s entry opened owner = do
  guard (not s.poisoned) poisoned_error
  guard
      (is_size (find_entry entry.name s.entries) entry.size
        && bytes_eq entry.path (join s.root entry.name))
      spool_identity
  meta ← map_err io opened
  safe_file meta owner entry.size

-- `removed` is the outcome of unlinking the file and syncing the directory.
remove_read :
    LogSpool
    → StoredSegment
    → Result SpoolError (Unit {0})
    → Result ℕ (Unit {0})
    → Result SpoolError (Unit {0}) × LogSpool
remove_read s entry (err e) removed = (err e, s)
remove_read s entry (ok done) (err kind) = (err (io kind), record s { poisoned = true })
remove_read s entry (ok done) (ok gone) =
    (ok tt, record s { used = s.used - entry.size; entries = remove_entry entry.name s.entries })

unfoldable pub remove :
    LogSpool
    → StoredSegment
    → Result ℕ Metadata
    → ℕ
    → Result ℕ (Unit {0})
    → Result SpoolError (Unit {0}) × LogSpool
unfolding read remove_read
remove s entry opened owner removed = remove_read s entry (read s entry opened owner) removed
