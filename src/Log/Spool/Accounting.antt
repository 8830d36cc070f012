-- ===== src/Log/Spool/Accounting.antt =====
-- The books of the spool of rust/worker/src/log_spool.rs: its bytes used and its entries.
use distributed_execution.Base.{
  ℕ, ◌+◌, ◌≤◌, ◌≡◌, refl, inl, inr, true, false, some, none, List, [], ◌∷◌, length, Bytes,
  bytes_eq_iff, Result, ok, err, arith, Option-cases,
}
use distributed_execution.Control.{LogStream}
use distributed_execution.Log.Format.{LogSegment}
use distributed_execution.Log.Spool.{
  LogSpool, StoredSegment, SpoolError, stored, Metadata, max_spool_segments, find_entry,
  remove_entry, store_named, store_in, store, read, remove_read, remove, prefix, segment_name,
  max_spool_bytes, join,
}

abbrev pub total : List (Bytes × ℕ) → ℕ
total [] = 0
total ((name, size) ∷ entries) = size + total entries

abbrev pub AllNamed : List (Bytes × ℕ) → Type 0
AllNamed [] = Unit {0}
AllNamed ((name, size) ∷ entries) = (find_entry name entries ≡ none) × AllNamed entries

-- The books of a spool.
pub record IsBalanced (s : LogSpool) : Type 0 where
  pub counted : s.used ≡ total s.entries
  pub within_cap : s.used ≤ s.cap
  pub cap_high : s.cap ≤ max_spool_bytes
  pub few_entries : length s.entries ≤ max_spool_segments
  pub distinct : AllNamed s.entries

store_named-IsBalanced :
    (s : LogSpool) (name : Bytes) (size : ℕ) (published : Result ℕ (Unit {0}))
    → IsBalanced s
    → IsBalanced (store_named s name size published).1
unfolding store_named
store_named-IsBalanced s name size published h = ground arith

store_in-IsBalanced :
    (s : LogSpool) (p : Result SpoolError Bytes) (segment : LogSegment)
    (published : Result ℕ (Unit {0}))
    → IsBalanced s
    → IsBalanced (store_in s p segment published).1
unfolding store_in
store_in-IsBalanced s (err e) segment published h = h
store_in-IsBalanced s (ok p) segment published h = ground (
  arith,
  store_named-IsBalanced s (segment_name p segment.first_sequence segment.last_sequence)
      (length segment.bytes) published h,
)

-- Whatever the file system answers, a store keeps the books: the bytes used are those of the
-- entries and within the cap, there are 1024 entries at most, and no name twice.
pub store-IsBalanced :
    (s : LogSpool) (stream : LogStream) (segment : LogSegment) (published : Result ℕ (Unit {0}))
    → IsBalanced s
    → IsBalanced (store s stream segment published).1
unfolding store
store-IsBalanced s stream segment published h =
    ground (arith, store_in-IsBalanced s (prefix stream) segment published h)

find_entry-remove_entry :
    (x name : Bytes) (entries : List (Bytes × ℕ))
    → find_entry x entries ≡ none
    → find_entry x (remove_entry name entries) ≡ none
find_entry-remove_entry x name [] h = refl
find_entry-remove_entry x name ((key, size) ∷ entries) h =
    ground (arith, find_entry-remove_entry x name entries)

remove_entry-AllNamed :
    (name : Bytes) (entries : List (Bytes × ℕ))
    → AllNamed entries
    → AllNamed (remove_entry name entries)
remove_entry-AllNamed name [] h = tt
remove_entry-AllNamed name ((key, size) ∷ entries) h =
    ground (arith, find_entry-remove_entry key name entries, remove_entry-AllNamed name entries h.1)

total-remove_entry :
    (name : Bytes) (size : ℕ) (entries : List (Bytes × ℕ))
    → find_entry name entries ≡ some size
    → (total entries ≡ size + total (remove_entry name entries))
      × (length entries ≡ length (remove_entry name entries) + 1)
total-remove_entry name size [] h = absurd (ground arith)
total-remove_entry name size ((key, n) ∷ entries) h =
    ground (arith, total-remove_entry name size entries)

remove_entry_gone :
    (name : Bytes) (entries : List (Bytes × ℕ))
    → AllNamed entries
    → find_entry name (remove_entry name entries) ≡ none
remove_entry_gone name [] h = refl
remove_entry_gone name ((key, size) ∷ entries) h =
    ground (arith, bytes_eq_iff key name, remove_entry_gone name entries h.1)

read_entry :
    (s : LogSpool) (entry : StoredSegment) (opened : Result ℕ Metadata) (owner : ℕ)
    → read s entry opened owner ≡ ok tt
    → (s.poisoned ≡ false) × (find_entry entry.name s.entries ≡ some entry.size)
unfolding read
read_entry s entry opened owner h = ground arith

-- Removing an entry that can be read, from a spool whose books are right, with its file gone: its
-- size is free again and its name with it, there is one entry less, and the books are kept.
pub remove_frees :
    (s : LogSpool) (entry : StoredSegment) (opened : Result ℕ Metadata) (owner : ℕ)
    → IsBalanced s
    → read s entry opened owner ≡ ok tt
    → let s' = (remove s entry opened owner (ok tt)).1 in
      IsBalanced s'
      × (s'.used + entry.size ≡ s.used)
      × (find_entry entry.name s'.entries ≡ none)
      × (length s'.entries + 1 ≡ length s.entries)
unfolding remove
remove_frees s entry opened owner h r =
    let (live, found) = read_entry s entry opened owner r in
    let (sum, count) = total-remove_entry entry.name entry.size s.entries found in
    let names = remove_entry-AllNamed entry.name s.entries h.distinct in
    let gone = remove_entry_gone entry.name s.entries h.distinct in
    rw (r, remove_read)
      (
        record {
          counted = omega arith;
          within_cap = omega arith;
          cap_high = h.cap_high;
          few_entries = omega arith;
          distinct = names;
        },
        omega arith,
        gone,
        omega arith,
      )

-- Once the file system has failed, nothing is stored, read or removed any more.
pub poisoned_refuses :
    (s : LogSpool) (stream : LogStream) (segment : LogSegment)
    (published removed : Result ℕ (Unit {0})) (entry : StoredSegment) (opened : Result ℕ Metadata)
    (owner : ℕ)
    → s.poisoned ≡ true
    → (store s stream segment published ≡ (err SpoolError.poisoned_error, s))
      × (read s entry opened owner ≡ err SpoolError.poisoned_error)
      × (remove s entry opened owner removed ≡ (err SpoolError.poisoned_error, s))
unfolding store read remove
poisoned_refuses s stream segment published removed entry opened owner h = ground arith

-- The entry is new, is listed with its size at its path, and its size is counted.
abbrev pub IsStored : LogSpool → ℕ → StoredSegment → LogSpool → Type 0
IsStored s size entry s' =
    (s'.used ≡ s.used + size)
    × (entry.size ≡ size)
    × (find_entry entry.name s.entries ≡ none)
    × (find_entry entry.name s'.entries ≡ some size)
    × (entry.path ≡ join s.root entry.name)

store_named-IsStored :
    (s : LogSpool) (name : Bytes) (size : ℕ) (published : Result ℕ (Unit {0}))
    (entry : StoredSegment)
    → (store_named s name size published).0 ≡ ok (stored entry)
    → IsStored s size entry (store_named s name size published).1
unfolding store_named
store_named-IsStored s name size (err kind) entry e = absurd (ground arith)
store_named-IsStored s name size (ok done) entry e =
    elim (Option-cases (find_entry name s.entries)) [
      | inl fresh ↦ ground (arith, bytes_eq_iff name name)
      | inr (n, old) ↦ absurd (ground arith)
    ]

store_in-IsStored :
    (s : LogSpool) (p : Result SpoolError Bytes) (segment : LogSegment)
    (published : Result ℕ (Unit {0})) (entry : StoredSegment)
    → (store_in s p segment published).0 ≡ ok (stored entry)
    → IsStored s (length segment.bytes) entry (store_in s p segment published).1
unfolding store_in
store_in-IsStored s (err x) segment published entry e = absurd (ground arith)
store_in-IsStored s (ok p) segment published entry e = ground (
  arith,
  store_named-IsStored s (segment_name p segment.first_sequence segment.last_sequence)
      (length segment.bytes) published entry,
)

-- A segment that is stored gets a name that was free, is found under it with the size of its
-- bytes, and exactly that size is counted.
pub store-IsStored :
    (s : LogSpool) (stream : LogStream) (segment : LogSegment) (published : Result ℕ (Unit {0}))
    (entry : StoredSegment)
    → (store s stream segment published).0 ≡ ok (stored entry)
    → IsStored s (length segment.bytes) entry (store s stream segment published).1
unfolding store
store-IsStored s stream segment published entry e =
    ground (arith, store_in-IsStored s (prefix stream) segment published entry)
