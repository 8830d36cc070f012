-- ===== src/Log/Assembler.antt =====
-- rust/worker/src/log_assembler.rs: chunks become sealed segments that wait in order for upload.
-- `hash` is SHA-256 of the `ring` crate, as the bytes of the digest. The readings of the clock and
-- the file system's answers are arguments. A call that fails leaves what it did before the error.
pub mod Chain
pub mod Ingest
pub mod Calls
use distributed_execution.Base.{
  ℕ, ◌+◌, ◌-◌, ◌/◌, ◌%◌, Bool, true, false, not, ◌&&◌, ◌||◌, ◌==◌, ltb, leb, if◌then◌else◌, Option,
  none, some, List, [], ◌∷◌, ◌++◌, map, length, is_empty, Bytes, Result, ok, err, ok_or, ◌>>=◌, hex,
}
use distributed_execution.Control.{LogStream, stdout, stderr, LogGap, stream_code}
use distributed_execution.Log.Slots.{Slot, slot_stdout, slot_stderr, Two, both, get, put, index}
use distributed_execution.Log.Format.{
  LogSegmentWriter, LogSegment, SequenceGap, LogFormatError, sequence_error, full, gap_limit,
  new_writer, append, finish,
}
use distributed_execution.Log.Spool.{
  LogSpool, StoredSegment, SpoolError, SpoolOutcome, stored, saturated, Metadata, store, read,
  remove,
}
use distributed_execution.Log.Capture.{CapturedChunk}

-- Two seconds, in nanoseconds.
abbrev pub flush_interval : ℕ
flush_interval = 2_000_000_000

pub data AssembleError : Type 0 where
  invalid : AssembleError
  format : LogFormatError → AssembleError
  spool_failed : SpoolError → AssembleError

pub record PendingSegment : Type 0 where
  pub entry : StoredSegment
  pub stream : LogStream
  pub first_sequence : ℕ
  pub last_sequence : ℕ
  pub gaps : List LogGap
  pub sha256 : Bytes

pub record OpenSegment : Type 0 where
  pub writer : LogSegmentWriter
  pub opened : ℕ

pub record LogAssembler : Type 0 where
  pub attempt_id : Bytes
  pub spool : LogSpool
  pub opens : Two (Option OpenSegment)
  pub last_seen : Two ℕ
  pub last_stored : Two ℕ
  pub pending : List PendingSegment

-- The outcome of a call on `&mut self`.
abbrev pub Outcome : Type 0
Outcome = Result AssembleError (Unit {0}) × LogAssembler

pub new_assembler : Bytes → LogSpool → LogAssembler
new_assembler attempt_id spool = record {
  attempt_id = attempt_id;
  spool = spool;
  opens = both none;
  last_seen = both 0;
  last_stored = both 0;
  pending = [];
}

abbrev log_gaps : LogStream → List SequenceGap → List LogGap
log_gaps stream =
    map (λ g. record {
      stream = stream_code stream;
      first_sequence = g.first;
      last_sequence = g.last;
    })

abbrev sealed : (Bytes → Bytes) → LogStream → LogSegment → StoredSegment → PendingSegment
sealed hash stream segment entry = record {
  entry = entry;
  stream = stream;
  first_sequence = segment.first_sequence;
  last_sequence = segment.last_sequence;
  gaps = log_gaps stream segment.gaps;
  sha256 = hex (hash segment.bytes);
}

-- What `flush_stream` does with the outcome of the store.
after_store :
    (Bytes → Bytes)
    → LogAssembler
    → Slot
    → LogStream
    → LogSegment
    → Result SpoolError SpoolOutcome
    → Outcome
after_store hash a slot stream segment (err e) = (err (spool_failed e), a)
after_store hash a slot stream segment (ok saturated) = (ok tt, a)
after_store hash a slot stream segment (ok (stored entry)) = (
  ok tt,
  record a {
    last_stored = put a.last_stored slot segment.last_sequence;
    pending = a.pending ++ sealed hash stream segment entry ∷ [];
  },
)

flush_segment :
    (Bytes → Bytes)
    → LogAssembler
    → Slot
    → LogStream
    → Result LogFormatError LogSegment
    → Result ℕ (Unit {0})
    → Outcome
unfolding after_store
flush_segment hash a slot stream (err e) published = (err (format e), a)
flush_segment hash a slot stream (ok segment) published =
    let (outcome, spool) = store a.spool stream segment published in
    after_store hash (record a { spool = spool }) slot stream segment outcome

flush_open :
    (Bytes → Bytes)
    → LogAssembler
    → Slot
    → LogStream
    → Option OpenSegment
    → Result ℕ (Unit {0})
    → Outcome
unfolding flush_segment
flush_open hash a slot stream none published = (ok tt, a)
flush_open hash a slot stream (some open_segment) published =
    flush_segment hash (record a { opens = put a.opens slot none }) slot stream
      (finish open_segment.writer) published

unfoldable pub flush_slot :
    (Bytes → Bytes) → LogAssembler → Slot → LogStream → Result ℕ (Unit {0}) → Outcome
unfolding flush_open
flush_slot hash a slot stream published = flush_open hash a slot stream (get a.opens slot) published

unfoldable pub flush_stream :
    (Bytes → Bytes) → LogAssembler → LogStream → Result ℕ (Unit {0}) → Outcome
unfolding flush_slot
flush_stream hash a stream published = elim (index stream) [
  | none ↦ (err invalid, a)
  | some slot ↦ flush_slot hash a slot stream published
]

-- `fresh`, and putting its segment in place.
abbrev open_with : LogAssembler → Slot → ℕ → Result LogFormatError LogSegmentWriter → Outcome
open_with a slot now (err e) = (err (format e), a)
open_with a slot now (ok writer) =
    (ok tt, record a { opens = put a.opens slot (some (record { writer = writer; opened = now })) })

unfoldable pub fresh : LogAssembler → LogStream → Slot → ℕ → Outcome
fresh a stream slot now =
    open_with a slot now (new_writer a.attempt_id stream (get a.last_stored slot + 1))

unfoldable pub ensure_open : LogAssembler → LogStream → Slot → ℕ → Outcome
unfolding fresh
ensure_open a stream slot now = elim (get a.opens slot) [
  | some open_segment ↦ (ok tt, a)
  | none ↦ fresh a stream slot now
]

abbrev append_chunk : LogSegmentWriter → CapturedChunk → Result LogFormatError LogSegmentWriter
append_chunk w c = append w c.sequence c.capture_unix_nanos c.payload

-- The writer after an `append` that succeeded, and the sequence that was seen.
seen : LogAssembler → Slot → CapturedChunk → OpenSegment → LogSegmentWriter → LogAssembler
seen a slot c o writer = record a {
  opens = put a.opens slot (some (record o { writer = writer }));
  last_seen = put a.last_seen slot c.sequence;
}

-- The append behind a flush: any error is returned. The segment was just opened, so the place is
-- not empty, where `unwrap` would panic; so in `append_first`.
retry_with : LogAssembler → Slot → CapturedChunk → Option OpenSegment → Outcome
unfolding seen
retry_with a slot c none = (err invalid, a)
retry_with a slot c (some o) = elim (append_chunk o.writer c) [
  | ok writer ↦ (ok tt, seen a slot c o writer)
  | err e ↦ (err (format e), a)
]

-- `self.flush_stream(…)?`, the new segment, and the append to it.
flush_and_retry :
    (Bytes → Bytes) → LogAssembler → Slot → CapturedChunk → ℕ → Result ℕ (Unit {0}) → Outcome
unfolding flush_slot fresh retry_with
flush_and_retry hash a slot c now published =
    let (flushed, a') = flush_slot hash a slot c.stream published in
    elim flushed [
      | err e ↦ (err e, a')
      | ok done ↦
          let (opened, a'') = fresh a' c.stream slot now in
          elim opened [
            | err e ↦ (err e, a'')
            | ok done' ↦ retry_with a'' slot c (get a''.opens slot)
          ]
    ]

-- By the outcome of the first append: a full segment is flushed and the append made again.
after_append :
    (Bytes → Bytes)
    → LogAssembler
    → Slot
    → CapturedChunk
    → OpenSegment
    → Result LogFormatError LogSegmentWriter
    → ℕ
    → Result ℕ (Unit {0})
    → Outcome
unfolding seen flush_and_retry
after_append hash a slot c o (ok writer) now published = (ok tt, seen a slot c o writer)
after_append hash a slot c o (err full) now published = flush_and_retry hash a slot c now published
after_append hash a slot c o (err gap_limit) now published =
    flush_and_retry hash a slot c now published
after_append hash a slot c o (err e) now published = (err (format e), a)

append_first :
    (Bytes → Bytes)
    → LogAssembler
    → Slot
    → CapturedChunk
    → Option OpenSegment
    → ℕ
    → Result ℕ (Unit {0})
    → Outcome
unfolding after_append
append_first hash a slot c none now published = (err invalid, a)
append_first hash a slot c (some o) now published =
    after_append hash a slot c o (append_chunk o.writer c) now published

ingest_slot :
    (Bytes → Bytes) → LogAssembler → Slot → CapturedChunk → ℕ → ℕ → Result ℕ (Unit {0}) → Outcome
unfolding ensure_open append_first
ingest_slot hash a slot c now later published =
    if leb c.sequence (get a.last_seen slot) || is_empty c.payload
    then (err invalid, a)
    else let (ready, a') = ensure_open a c.stream slot now in
      elim ready [
        | err e ↦ (err e, a')
        | ok done ↦ append_first hash a' slot c (get a'.opens slot) later published
      ]

-- `now` and `later` are the clock's readings for the segments that the call opens.
unfoldable pub ingest :
    (Bytes → Bytes) → LogAssembler → CapturedChunk → ℕ → ℕ → Result ℕ (Unit {0}) → Outcome
unfolding ingest_slot
ingest hash a c now later published = elim (index c.stream) [
  | none ↦ (err invalid, a)
  | some slot ↦ ingest_slot hash a slot c now later published
]

abbrev is_due : Option OpenSegment → ℕ → Bool
is_due none now = false
is_due (some o) now = leb flush_interval (now - o.opened)

flush_if_due : (Bytes → Bytes) → LogAssembler → Slot → LogStream → ℕ → Result ℕ (Unit {0}) → Outcome
flush_if_due hash a slot stream now published =
    if is_due (get a.opens slot) now then flush_slot hash a slot stream published else (ok tt, a)

-- The loop over the two streams: the second is reached if the first did not fail.
abbrev pub then_second : Outcome → (LogAssembler → Outcome) → Outcome
then_second (err e, a) next = (err e, a)
then_second (ok done, a) next = next a

unfoldable pub flush_due :
    (Bytes → Bytes) → LogAssembler → ℕ → Result ℕ (Unit {0}) → Result ℕ (Unit {0}) → Outcome
unfolding flush_if_due
flush_due hash a now published published' =
    then_second (flush_if_due hash a slot_stdout stdout now published)
      (λ a'. flush_if_due hash a' slot_stderr stderr now published')

unfoldable pub flush_all :
    (Bytes → Bytes) → LogAssembler → Result ℕ (Unit {0}) → Result ℕ (Unit {0}) → Outcome
unfolding flush_slot
flush_all hash a published published' =
    then_second (flush_slot hash a slot_stdout stdout published)
      (λ a'. flush_slot hash a' slot_stderr stderr published')

-- The front of the queue, as the file system lets it be read.
unfoldable pub read_front :
    LogAssembler → Result ℕ Metadata → ℕ → Result AssembleError (Option PendingSegment)
unfolding read
read_front a opened owner = elim a.pending [
  | [] ↦ ok none
  | p ∷ ps ↦ elim (read a.spool p.entry opened owner) [
    | ok done ↦ ok (some p)
    | err e ↦ err (spool_failed e)
  ]
]

after_remove : LogAssembler → List PendingSegment → Result SpoolError (Unit {0}) → Outcome
after_remove a ps (err e) = (err (spool_failed e), a)
after_remove a ps (ok done) = (ok tt, record a { pending = ps })

unfoldable pub acknowledge_front :
    LogAssembler → Result ℕ Metadata → ℕ → Result ℕ (Unit {0}) → Outcome
unfolding after_remove
acknowledge_front a opened owner removed = elim a.pending [
  | [] ↦ (err invalid, a)
  | p ∷ ps ↦
      let (gone, spool) = remove a.spool p.entry opened owner removed in
      after_remove (record a { spool = spool }) ps gone
]
