-- ===== src/Log/Format/Size.antt =====
-- The size of a segment of rust/worker/src/log_format.rs and the number of its gaps.
use distributed_execution.Base.{
  ℕ, zero, suc, ◌+◌, ◌≤◌, ◌≡◌, refl, ◌^◌, ◌%◌, ◌/◌, ◌-◌, List, [], ◌∷◌, ◌++◌, length, length-append,
  Bytes, ℤ, pos, negsuc, ok, arith, >>=-ok, i64_max,
}
use distributed_execution.Control.{
  LogStream, stdout, stderr, log_stream_unspecified, canonical_uuid-length,
}
use distributed_execution.Log.Format.{
  LogSegmentWriter, Chunk, new_writer, append, append_all, expected, framed, to_be_bytes,
  header_bytes, max_segment_bytes, max_gaps, record_header_bytes,
}

pub length-to_be_bytes : (k n : ℕ) → length (to_be_bytes k n) ≡ k
unfolding to_be_bytes
length-to_be_bytes zero n = refl
length-to_be_bytes (suc k) n =
    omega (
      arith,
      length-append (to_be_bytes k (n / 256)) (n % 256 ∷ []),
      length-to_be_bytes k (n / 256),
    )

pub length-framed : (s n : ℕ) (p : Bytes) → length (framed s n p) ≡ record_header_bytes + length p
length-framed s n p = omega (
  arith,
  length-append (to_be_bytes 8 s) (to_be_bytes 8 n ++ (to_be_bytes 4 (length p % 2 ^ 32) ++ p)),
  length-append (to_be_bytes 8 n) (to_be_bytes 4 (length p % 2 ^ 32) ++ p),
  length-append (to_be_bytes 4 (length p % 2 ^ 32)) p,
  length-to_be_bytes 8 s,
  length-to_be_bytes 8 n,
  length-to_be_bytes 4 (length p % 2 ^ 32),
)

-- What a writer keeps between two calls.
pub record IsBounded (w : LogSegmentWriter) : Type 0 where
  pub at_least : header_bytes ≤ length w.bytes
  pub at_most : length w.bytes ≤ max_segment_bytes
  pub few_gaps : length w.gaps ≤ max_gaps
  pub starts : 1 ≤ w.first_sequence
  pub grows : w.first_sequence ≤ expected w
  pub in_range : expected w ≤ i64_max + 1

append-IsBounded :
    (w w' : LogSegmentWriter) (sequence : ℕ) (time : ℤ) (payload : Bytes)
    → IsBounded w
    → append w sequence time payload ≡ ok w'
    → IsBounded w'
unfolding append
append-IsBounded w w' sequence (pos nanos) payload h e = ground (
  arith,
  length-append w.bytes (framed sequence nanos payload),
  length-framed sequence nanos payload,
  length-append w.gaps (record { first = expected w; last = sequence - 1 } ∷ []),
)
append-IsBounded w w' sequence (negsuc n) payload h e = absurd (ground arith)

new_writer-IsBounded :
    (attempt_id : Bytes) (stream : LogStream) (first : ℕ) (w : LogSegmentWriter)
    → new_writer attempt_id stream first ≡ ok w
    → IsBounded w
unfolding new_writer
new_writer-IsBounded id stdout first w e =
    ground (arith, canonical_uuid-length id, length-append id (1 ∷ 0 ∷ 0 ∷ 0 ∷ []))
new_writer-IsBounded id stderr first w e =
    ground (arith, canonical_uuid-length id, length-append id (2 ∷ 0 ∷ 0 ∷ 0 ∷ []))
new_writer-IsBounded id log_stream_unspecified first w e = absurd (ground arith)

append_all-IsBounded :
    (cs : List Chunk) (w w' : LogSegmentWriter)
    → IsBounded w
    → append_all w cs ≡ ok w'
    → IsBounded w'
unfolding append_all
append_all-IsBounded [] w w' h e = ground arith
append_all-IsBounded (c ∷ cs) w w' h e =
    let (v, p, q) = >>=-ok (append w c.sequence (pos c.nanos) c.payload) _ e in
    append_all-IsBounded cs v w' (append-IsBounded w v c.sequence (pos c.nanos) c.payload h p) q

-- Whatever is appended to a new segment, its bytes lie between the 48 of the header and one MiB,
-- it lists 1024 gaps at most, and the next sequence lies within 2^63.
pub written-IsBounded :
    (attempt_id : Bytes) (stream : LogStream) (first : ℕ) (cs : List Chunk)
    (w w' : LogSegmentWriter)
    → new_writer attempt_id stream first ≡ ok w
    → append_all w cs ≡ ok w'
    → IsBounded w'
written-IsBounded id stream first cs w w' e =
    append_all-IsBounded cs w w' (new_writer-IsBounded id stream first w e)
