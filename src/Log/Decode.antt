-- ===== src/Log/Decode.antt =====
-- internal/logformat/logformat.go: the server's reader of log segments, as the description that
-- the worker's writer is held to. An `int64` below zero shows as a value from 2^63 up.
pub mod Roundtrip
use distributed_execution.Base.{
  ℕ, zero, suc, ◌+◌, ◌-◌, ◌^◌, ◌<◌, Bool, true, false, not, ◌&&◌, ◌||◌, ◌==◌, ltb, leb,
  if◌then◌else◌, Option, none, some, List, [], ◌∷◌, length, take, drop, is_empty, Bytes, ascii,
  bytes_eq, Result, ok, err, ◌>>=◌, ◌>>◌, guard, i64_max,
}
use distributed_execution.Log.Format.{Chunk, max_segment_bytes, header_bytes, record_header_bytes}
use distributed_execution.Log.Format.Encoding.{from_be}

-- `ErrInvalid`, and the fuel that ran out, which does not happen.
pub data DecodeError : Type 0 where
  err_invalid exhausted : DecodeError

pub record Segment : Type 0 where
  pub attempt_id : Bytes
  pub stream : ℕ
  pub records : List Chunk

-- The test of one record's fields, where `body` is what follows its header.
check_record : ℕ → ℕ → ℕ → ℕ → Bytes → Result DecodeError (Chunk × Bytes)
check_record previous sequence capture size body =
    if sequence == 0
      || ltb i64_max sequence
      || leb sequence previous
      || ltb i64_max capture
      || size == 0
      || ltb (length body) size
    then err err_invalid
    else ok
        (record { sequence = sequence; nanos = capture; payload = take size body }, drop size body)

-- One record at the front: it, and what follows.
decode_record : ℕ → Bytes → Result DecodeError (Chunk × Bytes)
unfolding check_record
decode_record previous rest =
    if ltb (length rest) record_header_bytes
    then err err_invalid
    else check_record previous (from_be 0 (take 8 rest)) (from_be 0 (take 8 (drop 8 rest)))
        (from_be 0 (take 4 (drop 16 rest))) (drop 20 rest)

-- The loop over the records; `rest` is `body[offset:]`.
decode_records : ℕ → ℕ → Bytes → Result DecodeError (List Chunk)
unfolding decode_record
decode_records fuel previous [] = ok []
decode_records zero previous (b ∷ rest) = err exhausted
decode_records (suc fuel) previous (b ∷ rest) = elim (decode_record previous (b ∷ rest)) [
  | err e ↦ err e
  | ok (c, after) ↦ do cs ← decode_records fuel c.sequence after; ok (c ∷ cs)
]

-- The test of the header's fields.
decode_parts :
    Bool
    → ℕ
    → Bytes
    → Bytes
    → Bytes
    → ℕ
    → Result DecodeError (List Chunk)
    → Result DecodeError Segment
decode_parts round_trips size magic zeros id stream records =
    if ltb size (header_bytes + record_header_bytes + 1)
      || ltb max_segment_bytes size
      || not (bytes_eq magic (ascii "DSPLOG01"))
      || not (bytes_eq zeros (0 ∷ 0 ∷ 0 ∷ []))
      || not round_trips
      || not (stream == 1 || stream == 2)
    then err err_invalid
    else do cs ← records; ok (record { attempt_id = id; stream = stream; records = cs })

-- `uuid_round_trips id` says that `uuid.Parse(id)` succeeds and prints as `id` again.
unfoldable pub decode : (Bytes → Bool) → Bytes → Result DecodeError Segment
unfolding decode_parts decode_records bytes_eq from_be
decode uuid_round_trips body =
    decode_parts (uuid_round_trips (take 36 (drop 8 body))) (length body) (take 8 body)
      (take 3 (drop 45 body)) (take 36 (drop 8 body)) (from_be 0 (take 1 (drop 44 body)))
      (decode_records (length body) 0 (drop 48 body))
