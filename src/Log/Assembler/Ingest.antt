-- ===== src/Log/Assembler/Ingest.antt =====
-- The row of segments while rust/worker/src/log_assembler.rs takes a chunk.
use distributed_execution.Base.{
  ℕ, ◌+◌, ◌≤◌, ◌≡◌, refl, ◌∙◌, inl, inr, Option, none, some, Bytes, Result, ok, err, arith,
  Bool-cases, Option-cases, Result-cases, ◌||◌, leb, is_empty,
}
use distributed_execution.Control.{LogStream}
use distributed_execution.Log.Slots.{Slot, slot_stdout, slot_stderr, Two, get, put, index}
use distributed_execution.Log.Format.{
  LogSegmentWriter, LogSegment, LogFormatError, append, finish, new_writer, expected, expected_of,
  full, gap_limit, sequence_error,
}
use distributed_execution.Log.Format
use distributed_execution.Log.Format.Gaps.{append_advances}
use distributed_execution.Log.Capture.{CapturedChunk}
use distributed_execution.Log.Assembler.{
  LogAssembler, OpenSegment, flush_slot, fresh, ensure_open, append_chunk, seen, retry_with,
  flush_and_retry, after_append, append_first, ingest_slot, ingest,
}
use distributed_execution.Log.Assembler.Chain.{AllChained, OpenOk, LastOk, flush_slot-AllChained}

put_open :
    (opens : Two (Option OpenSegment)) (t : Two ℕ) (own slot : Slot) (o : OpenSegment)
    → OpenOk (some o) (get t own)
    → OpenOk (get opens slot) (get t slot)
    → OpenOk (get (put opens own (some o)) slot) (get t slot)
put_open opens t slot_stdout slot_stdout o f h = f
put_open opens t slot_stdout slot_stderr o f h = h
put_open opens t slot_stderr slot_stdout o f h = h
put_open opens t slot_stderr slot_stderr o f h = f

new_writer-starts :
    (id : Bytes) (stream : LogStream) (first : ℕ) (w : LogSegmentWriter)
    → new_writer id stream first ≡ ok w
    → (w.first_sequence ≡ first) × (w.last_sequence ≡ none)
unfolding new_writer
new_writer-starts id stream first w e = ground arith

LastOk-expected : (first : ℕ) (last : Option ℕ) → LastOk first last → first ≤ expected_of first last
LastOk-expected first none h = omega arith
LastOk-expected first (some last) h = omega arith

-- The open segment after an append that succeeded still starts behind what is stored.
append-OpenOk :
    (o : OpenSegment) (c : CapturedChunk) (w : LogSegmentWriter) (n : ℕ)
    → append_chunk o.writer c ≡ ok w
    → OpenOk (some o) n
    → OpenOk (some (record o { writer = w })) n
append-OpenOk o c w n e (f, l) =
    let (same, last, beyond) =
      append_advances o.writer w c.sequence c.capture_unix_nanos c.payload e in
    (
      same ∙ f,
      rw last (omega (arith, LastOk-expected o.writer.first_sequence o.writer.last_sequence l)),
    )

with_open-AllChained :
    (a : LogAssembler) (own : Slot) (o : OpenSegment) (last_seen : Two ℕ) (ks : Two ℕ)
    → OpenOk (some o) (get a.last_stored own)
    → AllChained ks a
    → AllChained ks (record a { opens = put a.opens own (some o); last_seen = last_seen })
unfolding AllChained
with_open-AllChained a own o last_seen ks f h slot = record {
  joined = (h slot).joined;
  opened = put_open a.opens a.last_stored own slot o f (h slot).opened;
}

fresh-AllChained :
    (a : LogAssembler) (stream : LogStream) (own : Slot) (now : ℕ) (ks : Two ℕ)
    → AllChained ks a
    → AllChained ks (fresh a stream own now).1
unfolding fresh
fresh-AllChained a stream own now ks h =
    elim (Result-cases (new_writer a.attempt_id stream (get a.last_stored own + 1))) [
      | inr (e, q) ↦ rw q h
      | inl (w, q) ↦
          let (f, l) = new_writer-starts a.attempt_id stream (get a.last_stored own + 1) w q in
          rw q (
            with_open-AllChained a own (record { writer = w; opened = now }) a.last_seen ks
              (f, rw l tt) h)
    ]

seen-AllChained :
    (a : LogAssembler) (own : Slot) (c : CapturedChunk) (o : OpenSegment) (w : LogSegmentWriter)
    (ks : Two ℕ)
    → append_chunk o.writer c ≡ ok w
    → OpenOk (some o) (get a.last_stored own)
    → AllChained ks a
    → AllChained ks (seen a own c o w)
unfolding seen
seen-AllChained a own c o w ks e f h =
    with_open-AllChained a own (record o { writer = w }) _ ks (append-OpenOk o c w _ e f) h

retry_with-AllChained :
    (a : LogAssembler) (own : Slot) (c : CapturedChunk) (ks : Two ℕ) (o : Option OpenSegment)
    → OpenOk o (get a.last_stored own)
    → AllChained ks a
    → AllChained ks (retry_with a own c o).1
unfolding retry_with
retry_with-AllChained a own c ks none f h = h
retry_with-AllChained a own c ks (some o) f h = elim (Result-cases (append_chunk o.writer c)) [
  | inr (e, q) ↦ rw (retry_with, q) h
  | inl (w, q) ↦ rw (retry_with, q) (seen-AllChained a own c o w ks q f h)
]

opened_at :
    (a : LogAssembler) (own : Slot) (ks : Two ℕ)
    → AllChained ks a
    → OpenOk (get a.opens own) (get a.last_stored own)
unfolding AllChained
opened_at a own ks h = (h own).opened

module _ (hash : Bytes → Bytes) where
  flush_and_retry-AllChained :
      (a : LogAssembler) (own : Slot) (c : CapturedChunk) (now : ℕ)
      (published : Result ℕ (Unit {0})) (ks : Two ℕ)
      → index c.stream ≡ some own
      → AllChained ks a
      → AllChained ks (flush_and_retry hash a own c now published).1
  unfolding flush_and_retry
  flush_and_retry-AllChained a own c now published ks m h =
      let a' = (flush_slot hash a own c.stream published).1 in
      let h' = flush_slot-AllChained hash a own c.stream published ks m h in
      let a'' = (fresh a' c.stream own now).1 in
      let h'' = fresh-AllChained a' c.stream own now ks h' in
      elim (Result-cases (flush_slot hash a own c.stream published).0) [
        | inr (e, q) ↦ rw (flush_and_retry, q) h'
        | inl (_, q) ↦ elim (Result-cases (fresh a' c.stream own now).0) [
          | inr (e, q') ↦ rw (flush_and_retry, q, q') h''
          | inl (_, q') ↦
              rw (flush_and_retry, q, q')
                (retry_with-AllChained a'' own c ks (get a''.opens own) (opened_at a'' own ks h'')
                  h'')
        ]
      ]

  after_append-AllChained :
      (a : LogAssembler) (own : Slot) (c : CapturedChunk) (o : OpenSegment)
      (appended : Result LogFormatError LogSegmentWriter) (now : ℕ)
      (published : Result ℕ (Unit {0})) (ks : Two ℕ)
      → append_chunk o.writer c ≡ appended
      → OpenOk (some o) (get a.last_stored own)
      → index c.stream ≡ some own
      → AllChained ks a
      → AllChained ks (after_append hash a own c o appended now published).1
  unfolding after_append
  after_append-AllChained a own c o (ok w) now published ks e f m h =
      seen-AllChained a own c o w ks e f h
  after_append-AllChained a own c o (err full) now published ks e f m h =
      flush_and_retry-AllChained a own c now published ks m h
  after_append-AllChained a own c o (err gap_limit) now published ks e f m h =
      flush_and_retry-AllChained a own c now published ks m h
  after_append-AllChained a own c o (err distributed_execution.Log.Format.invalid) now published ks
        e f m h =
      h
  after_append-AllChained a own c o (err sequence_error) now published ks e f m h = h

  append_first-AllChained :
      (a : LogAssembler) (own : Slot) (c : CapturedChunk) (o : Option OpenSegment) (now : ℕ)
      (published : Result ℕ (Unit {0})) (ks : Two ℕ)
      → OpenOk o (get a.last_stored own)
      → index c.stream ≡ some own
      → AllChained ks a
      → AllChained ks (append_first hash a own c o now published).1
  unfolding append_first
  append_first-AllChained a own c none now published ks f m h = h
  append_first-AllChained a own c (some o) now published ks f m h =
      after_append-AllChained a own c o (append_chunk o.writer c) now published ks refl f m h

  ensure_open-AllChained :
      (a : LogAssembler) (stream : LogStream) (own : Slot) (now : ℕ) (ks : Two ℕ)
      → AllChained ks a
      → AllChained ks (ensure_open a stream own now).1
  unfolding ensure_open
  ensure_open-AllChained a stream own now ks h = elim (Option-cases (get a.opens own)) [
    | inl e ↦ rw (ensure_open, e) (fresh-AllChained a stream own now ks h)
    | inr (o, e) ↦ rw (ensure_open, e) h
  ]

  ingest_slot-AllChained :
      (a : LogAssembler) (own : Slot) (c : CapturedChunk) (now later : ℕ)
      (published : Result ℕ (Unit {0})) (ks : Two ℕ)
      → index c.stream ≡ some own
      → AllChained ks a
      → AllChained ks (ingest_slot hash a own c now later published).1
  unfolding ingest_slot
  ingest_slot-AllChained a own c now later published ks m h =
      let a' = (ensure_open a c.stream own now).1 in
      let h' = ensure_open-AllChained a c.stream own now ks h in
      elim (Bool-cases (leb c.sequence (get a.last_seen own) || is_empty c.payload)) [
        | inl e ↦ rw (ingest_slot, e) h
        | inr e ↦ elim (Result-cases (ensure_open a c.stream own now).0) [
          | inr (_, q) ↦ rw (ingest_slot, e, q) h'
          | inl (_, q) ↦
              rw (ingest_slot, e, q)
                (append_first-AllChained a' own c (get a'.opens own) later published ks
                  (opened_at a' own ks h') m h')
        ]
      ]

  pub ingest-AllChained :
      (a : LogAssembler) (c : CapturedChunk) (now later : ℕ) (published : Result ℕ (Unit {0}))
      (ks : Two ℕ)
      → AllChained ks a
      → AllChained ks (ingest hash a c now later published).1
  unfolding ingest
  ingest-AllChained a c now later published ks h = elim (Option-cases (index c.stream)) [
    | inl e ↦ rw (ingest, e) h
    | inr (own, e) ↦ rw (ingest, e) (ingest_slot-AllChained a own c now later published ks e h)
  ]
