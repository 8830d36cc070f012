-- ===== src/Log/Decode/Roundtrip.antt =====
-- The writer of rust/worker/src/log_format.rs against the reader of internal/logformat/logformat.go.
use distributed_execution.Base.{
  ℕ, zero, suc, ◌+◌, ◌%◌, ◌^◌, ◌≤◌, ◌<◌, ◌≡◌, refl, sym, ap, ◌∙◌, Bool, true, List, [], ◌∷◌, ◌++◌,
  length, take, drop, take-append, drop-append, length-append, Bytes, ok, arith, All, ascii,
  bytes_eq, i64_max,
}
use mathlib.Core.List.{append_assoc}
use distributed_execution.Control.{
  LogStream, stdout, stderr, log_stream_unspecified, stream_code, canonical_uuid,
  canonical_uuid-length,
}
use distributed_execution.Log.Format.{
  LogSegmentWriter, new_writer, append_all, Chunk, header, framed, to_be_bytes, max_segment_bytes,
  expected,
}
use distributed_execution.Log.Format.Encoding.{
  from_be, from_be-to_be_bytes, encode, Ascends, append_all-bytes, append_all-Ascends,
}
use distributed_execution.Log.Format.Size.{length-to_be_bytes, length-framed, written-IsBounded}
use distributed_execution.Log.Decode.{
  check_record, decode_record, decode_records, decode_parts, decode,
}

-- Slices of a concatenation.
slice :
    (k : ℕ) (xs ys : Bytes) → length xs ≡ k → (take k (xs ++ ys) ≡ xs) × (drop k (xs ++ ys) ≡ ys)
slice k xs ys e = rw (← e) (take-append xs ys, drop-append xs ys)

module _ (a b c p more : Bytes) (la : length a ≡ 8) (lb : length b ≡ 8) (lc : length c ≡ 4) where
  abbrev whole : Bytes
  whole = a ++ (b ++ (c ++ (p ++ more)))

  drop_two : drop 16 whole ≡ c ++ (p ++ more)
  drop_two =
      rw (← append_assoc a b (c ++ (p ++ more)))
        (slice 16 (a ++ b) (c ++ (p ++ more)) (omega (arith, length-append a b))).1

  drop_three : drop 20 whole ≡ p ++ more
  drop_three =
      rw (← append_assoc a b (c ++ (p ++ more)), ← append_assoc (a ++ b) c (p ++ more))
        (slice 20 ((a ++ b) ++ c) (p ++ more)
          (omega (arith, length-append a b, length-append (a ++ b) c))).1

  length-whole : length whole ≡ 20 + (length p + length more)
  length-whole = omega (
    arith,
    length-append a (b ++ (c ++ (p ++ more))),
    length-append b (c ++ (p ++ more)),
    length-append c (p ++ more),
    length-append p more,
  )

  fields :
      (take 8 whole ≡ a)
      × (take 8 (drop 8 whole) ≡ b)
      × (take 4 (drop 16 whole) ≡ c)
      × (drop 20 whole ≡ p ++ more)
      × (length whole ≡ 20 + (length p + length more))
  fields = (
    (slice 8 a (b ++ (c ++ (p ++ more))) la).0,
    rw ((slice 8 a (b ++ (c ++ (p ++ more))) la).1) (slice 8 b (c ++ (p ++ more)) lb).0,
    rw drop_two (slice 4 c (p ++ more) lc).0,
    drop_three,
    length-whole,
  )

framed_regroup :
    (s n : ℕ) (p more : Bytes)
    → framed s n p ++ more
      ≡ to_be_bytes 8 s ++ (to_be_bytes 8 n ++ (to_be_bytes 4 (length p % 2 ^ 32) ++ (p ++ more)))
framed_regroup s n p more = simp append_assoc

decode_record-fields :
    (previous : ℕ) (rest : Bytes) {s n z : ℕ} {body : Bytes}
    → 20 ≤ length rest
    → from_be 0 (take 8 rest) ≡ s
    → from_be 0 (take 8 (drop 8 rest)) ≡ n
    → from_be 0 (take 4 (drop 16 rest)) ≡ z
    → drop 20 rest ≡ body
    → decode_record previous rest ≡ check_record previous s n z body
unfolding decode_record
decode_record-fields previous rest l hs hn hz hb = ground arith

check_record-ok :
    (previous s n : ℕ) (p more : Bytes)
    → previous < s
    → s ≤ i64_max
    → n ≤ i64_max
    → 0 < length p
    → check_record previous s n (length p) (p ++ more)
      ≡ ok (record { sequence = s; nanos = n; payload = p }, more)
unfolding check_record
check_record-ok previous s n p more h1 h2 h3 h4 =
    let (t, d) = slice (length p) p more refl in ground (arith, length-append p more)

decode_record-framed :
    (previous : ℕ) (c : Chunk) (more : Bytes)
    → previous < c.sequence
    → c.sequence ≤ i64_max
    → c.nanos ≤ i64_max
    → 0 < length c.payload
    → length c.payload ≤ max_segment_bytes
    → decode_record previous (framed c.sequence c.nanos c.payload ++ more) ≡ ok (c, more)
decode_record-framed previous c more h1 h2 h3 h4 h5 =
    let sb = to_be_bytes 8 c.sequence in
    let nb = to_be_bytes 8 c.nanos in
    let zb = to_be_bytes 4 (length c.payload % 2 ^ 32) in
    let (fs, fn, fz, fb, fl) =
      fields sb nb zb c.payload more (length-to_be_bytes 8 c.sequence)
        (length-to_be_bytes 8 c.nanos) (length-to_be_bytes 4 (length c.payload % 2 ^ 32)) in
    rw (framed_regroup c.sequence c.nanos c.payload more) (
      decode_record-fields previous (sb ++ (nb ++ (zb ++ (c.payload ++ more)))) (omega arith)
        (ap (from_be 0) fs ∙ from_be-to_be_bytes 8 c.sequence (omega arith))
        (ap (from_be 0) fn ∙ from_be-to_be_bytes 8 c.nanos (omega arith))
        (ap (from_be 0) fz
          ∙ from_be-to_be_bytes 4 (length c.payload % 2 ^ 32) (omega arith)
          ∙ omega arith)
        fb
      ∙ check_record-ok previous c.sequence c.nanos c.payload more h1 h2 h3 h4)

abbrev pub TimesFit : List Chunk → Type 0
TimesFit = All (λ (c : Chunk). c.nanos ≤ i64_max)

decode_records-step :
    (fuel previous : ℕ) (rest after : Bytes) (c : Chunk) {cs : List Chunk}
    → 0 < length rest
    → decode_record previous rest ≡ ok (c, after)
    → decode_records fuel c.sequence after ≡ ok cs
    → decode_records (suc fuel) previous rest ≡ ok (c ∷ cs)
unfolding decode_records
decode_records-step fuel previous [] after c h e k = absurd (omega arith)
decode_records-step fuel previous (b ∷ rest) after c h e k = rw (e, decode_records) (rw k)

decode_records-encode :
    (cs : List Chunk) (fuel previous : ℕ)
    → length (encode cs) ≤ fuel
    → Ascends previous cs
    → TimesFit cs
    → decode_records fuel previous (encode cs) ≡ ok cs
unfolding decode_records
decode_records-encode [] fuel previous l a t = refl
decode_records-encode (c ∷ cs) zero previous l a t = absurd (
    omega (
      arith,
      length-append (framed c.sequence c.nanos c.payload) (encode cs),
      length-framed c.sequence c.nanos c.payload,
    ))
decode_records-encode (c ∷ cs) (suc fuel) previous l (lo, hi, some_bytes, few_bytes, a) (t, ts) =
    let size = length-append (framed c.sequence c.nanos c.payload) (encode cs) in
    let frame = length-framed c.sequence c.nanos c.payload in
    decode_records-step fuel previous (framed c.sequence c.nanos c.payload ++ encode cs) (encode cs)
      c (omega (arith, size, frame))
      (decode_record-framed previous c (encode cs) lo hi t some_bytes few_bytes)
      (decode_records-encode cs fuel c.sequence (omega (arith, size, frame)) a ts)

module _ (id e : Bytes) (b : ℕ) (l : length id ≡ 36) where
  abbrev tail : Bytes
  tail = b ∷ 0 ∷ 0 ∷ 0 ∷ []

  at_stream : (id ++ tail) ++ e ≡ id ++ (tail ++ e)
  at_stream = append_assoc id tail e

  at_zeros : (id ++ tail) ++ e ≡ (id ++ b ∷ []) ++ (0 ∷ 0 ∷ 0 ∷ e)
  at_zeros = at_stream ∙ sym (append_assoc id (b ∷ []) (0 ∷ 0 ∷ 0 ∷ e))

  header_fields :
      let body = header id b ++ e in
      (take 8 body ≡ ascii "DSPLOG01")
      × (take 36 (drop 8 body) ≡ id)
      × (from_be 0 (take 1 (drop 44 body)) ≡ b)
      × (take 3 (drop 45 body) ≡ 0 ∷ 0 ∷ 0 ∷ [])
      × (drop 48 body ≡ e)
      × (length body ≡ 48 + length e)
  unfolding from_be
  header_fields = (
    refl,
    ap (take 36) at_stream ∙ (slice 36 id (tail ++ e) l).0,
    ap (λ (xs : Bytes). from_be 0 (take 1 (drop 36 xs))) at_stream
        ∙ ap (λ (xs : Bytes). from_be 0 (take 1 xs)) (slice 36 id (tail ++ e) l).1
        ∙ omega arith,
    ap (λ (xs : Bytes). take 3 (drop 37 xs)) at_zeros
        ∙ ap (take 3)
            (slice 37 (id ++ b ∷ []) (0 ∷ 0 ∷ 0 ∷ e) (omega (arith, length-append id (b ∷ [])))).1,
    (slice 40 (id ++ tail) e (omega (arith, length-append id tail))).1,
    omega (arith, length-append (id ++ tail) e, length-append id tail),
  )

new_writer_facts :
    (id : Bytes) (stream : LogStream) (first : ℕ) (w : LogSegmentWriter)
    → new_writer id stream first ≡ ok w
    → (w.bytes ≡ header id (stream_code stream))
      × (canonical_uuid id ≡ true)
      × (0 < stream_code stream)
      × (stream_code stream ≤ 2)
      × (0 < expected w)
unfolding new_writer
new_writer_facts id stdout first w e = ground arith
new_writer_facts id stderr first w e = ground arith
new_writer_facts id log_stream_unspecified first w e = absurd (ground arith)

decode_parts-ok :
    (id : Bytes) (size stream : ℕ) (cs : List Chunk)
    → 69 ≤ size
    → size ≤ max_segment_bytes
    → 0 < stream
    → stream ≤ 2
    → decode_parts true size (ascii "DSPLOG01") (0 ∷ 0 ∷ 0 ∷ []) id stream (ok cs)
      ≡ ok (record { attempt_id = id; stream = stream; records = cs })
unfolding decode_parts bytes_eq
decode_parts-ok id size stream cs h1 h2 h3 h4 = ground arith

decode-fields :
    (uuid_round_trips : Bytes → Bool) (body id e : Bytes) (stream : ℕ) (cs : List Chunk)
    → take 8 body ≡ ascii "DSPLOG01"
    → take 36 (drop 8 body) ≡ id
    → from_be 0 (take 1 (drop 44 body)) ≡ stream
    → take 3 (drop 45 body) ≡ 0 ∷ 0 ∷ 0 ∷ []
    → drop 48 body ≡ e
    → uuid_round_trips id ≡ true
    → decode_records (length body) 0 e ≡ ok cs
    → decode uuid_round_trips body
      ≡ decode_parts true (length body) (ascii "DSPLOG01") (0 ∷ 0 ∷ 0 ∷ []) id stream (ok cs)
unfolding decode
decode-fields u body id e stream cs hm hi hs hz he hu hr = rw (hm, hi, hs, hz, he, hu, hr)

module _ (uuid_round_trips : Bytes → Bool)
    (canonical_round_trips : (id : Bytes)
      → canonical_uuid id ≡ true
      → uuid_round_trips id ≡ true) where
  -- A segment that was written with at least one chunk, with times that fit an i64, is read back
  -- by the server as its attempt, its stream and exactly its chunks, in their order and with their
  -- bytes, provided that the server's parser leaves a canonical identifier as it is.
  pub decode-written :
      (attempt_id : Bytes) (stream : LogStream) (first : ℕ) (c : Chunk) (cs : List Chunk)
      (w w' : LogSegmentWriter)
      → new_writer attempt_id stream first ≡ ok w
      → append_all w (c ∷ cs) ≡ ok w'
      → TimesFit (c ∷ cs)
      → decode uuid_round_trips w'.bytes
        ≡ ok (record { attempt_id = attempt_id; stream = stream_code stream; records = c ∷ cs })
  decode-written id stream first c cs w w' e h t =
      let (hb, hc, lo, hi, hs) = new_writer_facts id stream first w e in
      let bounded = written-IsBounded id stream first (c ∷ cs) w w' e h in
      let bytes : w'.bytes ≡ header id (stream_code stream) ++ encode (c ∷ cs) =
        append_all-bytes (c ∷ cs) w w' h ∙ ap (λ (xs : Bytes). xs ++ encode (c ∷ cs)) hb in
      let (magic, ids, streams, zeros, records, size) =
        header_fields id (encode (c ∷ cs)) (stream_code stream) (canonical_uuid-length id hc) in
      let long = length-append (framed c.sequence c.nanos c.payload) (encode cs) in
      let frame = length-framed c.sequence c.nanos c.payload in
      let ascends = append_all-Ascends (c ∷ cs) 0 w w' h hs in
      let total : length w'.bytes ≡ 48 + length (encode (c ∷ cs)) = ap length bytes ∙ size in
      decode-fields uuid_round_trips w'.bytes id (encode (c ∷ cs)) (stream_code stream) (c ∷ cs)
        (rw bytes magic) (rw bytes ids) (rw bytes streams) (rw bytes zeros) (rw bytes records)
        (canonical_round_trips id hc)
        (decode_records-encode (c ∷ cs) (length w'.bytes) 0 (omega arith) ascends t)
      ∙ decode_parts-ok id (length w'.bytes) (stream_code stream) (c ∷ cs)
          (omega (arith, ascends.2)) (omega (arith, bounded.at_most)) lo hi
