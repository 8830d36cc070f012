-- ===== src/Log/Format.antt =====
-- rust/worker/src/log_format.rs: the bytes of a log segment, and the gaps in its sequences.
pub mod Size
pub mod Gaps
pub mod Encoding
use distributed_execution.Base.{
  ℕ, zero, suc, ◌+◌, ◌-◌, ◌/◌, ◌%◌, ◌^◌, Bool, true, false, not, ◌&&◌, ◌||◌, ◌==◌, ltb, leb,
  if◌then◌else◌, Option, none, some, List, [], ◌∷◌, ◌++◌, length, is_empty, Bytes, ascii, Result,
  ok, err, ◌>>=◌, ◌>>◌, guard, ok_or, ℤ, pos, negsuc, i64_max,
}
use distributed_execution.Control.{
  LogStream, stdout, stderr, log_stream_unspecified, canonical_uuid,
}

abbrev pub max_segment_bytes : ℕ
max_segment_bytes = 0x10_0000

abbrev pub header_bytes : ℕ
header_bytes = 48

abbrev pub record_header_bytes : ℕ
record_header_bytes = 20

abbrev pub max_gaps : ℕ
max_gaps = 1024

pub data LogFormatError : Type 0 where
  invalid sequence_error full gap_limit : LogFormatError

pub record SequenceGap : Type 0 where
  pub first : ℕ
  pub last : ℕ

pub record LogSegment : Type 0 where
  pub bytes : Bytes
  pub attempt_id : Bytes
  pub stream : LogStream
  pub first_sequence : ℕ
  pub last_sequence : ℕ
  pub gaps : List SequenceGap

pub record LogSegmentWriter : Type 0 where
  pub bytes : Bytes
  pub attempt_id : Bytes
  pub stream : LogStream
  pub first_sequence : ℕ
  pub last_sequence : Option ℕ
  pub gaps : List SequenceGap

-- `to_be_bytes` of a value with `k` bytes.
unfoldable pub to_be_bytes : ℕ → ℕ → Bytes
to_be_bytes zero n = []
to_be_bytes (suc k) n = to_be_bytes k (n / 256) ++ n % 256 ∷ []

abbrev pub stream_byte : LogStream → Result LogFormatError ℕ
stream_byte stdout = ok 1
stream_byte stderr = ok 2
stream_byte log_stream_unspecified = err invalid

abbrev pub header : Bytes → ℕ → Bytes
header attempt_id byte = ascii "DSPLOG01" ++ (attempt_id ++ byte ∷ 0 ∷ 0 ∷ 0 ∷ [])

unfoldable pub new_writer : Bytes → LogStream → ℕ → Result LogFormatError LogSegmentWriter
new_writer attempt_id stream first_sequence = do
  byte ← stream_byte stream
  guard (canonical_uuid attempt_id && not (first_sequence == 0) && not (ltb i64_max first_sequence))
      invalid
  ok (record {
    bytes = header attempt_id byte;
    attempt_id = attempt_id;
    stream = stream;
    first_sequence = first_sequence;
    last_sequence = none;
    gaps = [];
  })

-- The next sequence that leaves no gap.
abbrev pub expected_of : ℕ → Option ℕ → ℕ
expected_of first_sequence none = first_sequence
expected_of first_sequence (some last) = last + 1

abbrev pub expected : LogSegmentWriter → ℕ
expected w = expected_of w.first_sequence w.last_sequence

-- `payload.len() as u32` keeps the low 32 bits.
abbrev pub framed : ℕ → ℕ → Bytes → Bytes
framed sequence nanos payload =
    to_be_bytes 8 sequence
    ++ (to_be_bytes 8 nanos ++ (to_be_bytes 4 (length payload % 2 ^ 32) ++ payload))

abbrev with_gap : LogSegmentWriter → ℕ → List SequenceGap
with_gap w sequence =
    if ltb (expected w) sequence
    then w.gaps ++ record { first = expected w; last = sequence - 1 } ∷ []
    else w.gaps

-- `append` once the time is known not to be negative.
append_nonneg : LogSegmentWriter → ℕ → ℕ → Bytes → Result LogFormatError LogSegmentWriter
append_nonneg w sequence nanos payload = do
  guard (not (sequence == 0 || ltb i64_max sequence || is_empty payload)) invalid
  guard (not (ltb sequence (expected w))) sequence_error
  guard (not (ltb (expected w) sequence && length w.gaps == max_gaps)) gap_limit
  let available = max_segment_bytes - length w.bytes
  guard
      (not (
        ltb available record_header_bytes
        || ltb (available - record_header_bytes) (length payload)))
      full
  ok (record w {
    bytes = w.bytes ++ framed sequence nanos payload;
    last_sequence = some sequence;
    gaps = with_gap w sequence;
  })

unfoldable pub append : LogSegmentWriter → ℕ → ℤ → Bytes → Result LogFormatError LogSegmentWriter
unfolding append_nonneg
append w sequence (pos nanos) payload = append_nonneg w sequence nanos payload
append w sequence (negsuc n) payload = err invalid

unfoldable pub finish : LogSegmentWriter → Result LogFormatError LogSegment
finish w = do
  last_sequence ← ok_or w.last_sequence invalid
  ok (record {
    bytes = w.bytes;
    attempt_id = w.attempt_id;
    stream = w.stream;
    first_sequence = w.first_sequence;
    last_sequence = last_sequence;
    gaps = w.gaps;
  })

-- A chunk as `append` takes it, and a run of `append`s that all succeed.
pub record Chunk : Type 0 where
  pub sequence : ℕ
  pub nanos : ℕ
  pub payload : Bytes

unfoldable pub append_all : LogSegmentWriter → List Chunk → Result LogFormatError LogSegmentWriter
append_all w [] = ok w
append_all w (c ∷ cs) = do w' ← append w c.sequence (pos c.nanos) c.payload; append_all w' cs
