-- ===== src/Log/Capture/Delivery.antt =====
-- What the receiving end of the capture queue of rust/worker/src/log_capture.rs sees.
use distributed_execution.Base.{
  ℕ, zero, suc, ◌+◌, ◌≤◌, ◌<◌, ◌≡◌, refl, inl, inr, true, Option, some, List, [], ◌∷◌, ◌++◌, length,
  take, drop, All, Bytes, arith, Bool-cases, i64_max, leb, pos, List-cases, if◌then◌else◌,
  Option-cases, Result-cases,
}
use distributed_execution.Control.{LogStream, stdout, stderr, log_stream_unspecified}
use distributed_execution.Log.Slots.{Slot, slot_stdout, slot_stderr, Two, get, put, index, is_slot}
use distributed_execution.Log.Capture.{
  LogQueue, CapturedChunk, chunks, max_chunk_bytes, send_next, push_chunk, push_chunks, push_frame,
  recv, capture_time,
}

-- The last sequence of the slot's stream, when `c` follows `k`.
abbrev pub next_from : Slot → ℕ → CapturedChunk → ℕ
next_from slot k c = if is_slot (index c.stream) slot then c.sequence else k

-- The chunks of the slot's stream ascend from above `k` up to `top`, and no payload is empty.
abbrev pub Ascends : Slot → ℕ → List CapturedChunk → ℕ → Type 0
Ascends slot k [] top = k ≤ top
Ascends slot k (c ∷ cs) top =
    (0 < length c.payload)
    × (is_slot (index c.stream) slot ≡ true → k < c.sequence)
    × Ascends slot (next_from slot k c) cs top

Ascends-snoc :
    (slot : Slot) (k top top' : ℕ) (cs : List CapturedChunk) (c : CapturedChunk)
    → Ascends slot k cs top
    → 0 < length c.payload
    → top ≤ top'
    → (is_slot (index c.stream) slot ≡ true → (top < c.sequence) × (c.sequence ≤ top'))
    → Ascends slot k (cs ++ c ∷ []) top'
Ascends-snoc slot k top top' [] c h p l n = elim (Bool-cases (is_slot (index c.stream) slot)) [
  | inl e ↦ let (lo, hi) = n e in (p, (λ _. omega arith), ground arith)
  | inr e ↦ (p, (λ y. absurd (ground arith)), ground arith)
]
Ascends-snoc slot k top top' (x ∷ xs) c h p l n =
    (h.0, h.1, Ascends-snoc slot (next_from slot k x) top top' xs c h.2 p l n)

pub Ascends-mono :
    (slot : Slot) (k top top' : ℕ) (cs : List CapturedChunk)
    → Ascends slot k cs top
    → top ≤ top'
    → Ascends slot k cs top'
Ascends-mono slot k top top' [] h l = omega arith
Ascends-mono slot k top top' (x ∷ xs) h l =
    (h.0, h.1, Ascends-mono slot (next_from slot k x) top top' xs h.2 l)

take_pos : (size b : ℕ) (bytes : Bytes) → 0 < size → 0 < length (take size (b ∷ bytes))
take_pos zero b bytes h = absurd (omega arith)
take_pos (suc size) b bytes h = omega arith

-- No piece of a frame is empty.
chunks-All :
    (fuel size : ℕ) (bytes : Bytes)
    → 0 < size
    → All (λ (p : Bytes). 0 < length p) (chunks fuel size bytes)
unfolding chunks
chunks-All zero size bytes h = tt
chunks-All (suc fuel) size [] h = tt
chunks-All (suc fuel) size (b ∷ bytes) h =
    (take_pos size b bytes h, chunks-All fuel size (drop size (b ∷ bytes)) h)

-- What is in the channel can be delivered to a reader that has seen the slot's stream up to `k`.
abbrev pub IsDeliverable : Slot → ℕ → LogQueue → Type 0
IsDeliverable slot k q = Ascends slot k q.queued (get q.counts slot)

count_grows :
    (q : LogQueue) (own slot : Slot)
    → get q.counts slot ≤ get (put q.counts own (get q.counts own + 1)) slot
count_grows q slot_stdout slot_stdout = omega arith
count_grows q slot_stdout slot_stderr = omega arith
count_grows q slot_stderr slot_stdout = omega arith
count_grows q slot_stderr slot_stderr = omega arith

own_slot :
    (stream : LogStream) (own slot : Slot)
    → index stream ≡ some own
    → is_slot (index stream) slot ≡ true
    → own ≡ slot
own_slot stdout own slot_stdout e h = ground arith
own_slot stderr own slot_stderr e h = ground arith
own_slot stdout own slot_stderr e h = absurd (ground arith)
own_slot stderr own slot_stdout e h = absurd (ground arith)
own_slot log_stream_unspecified own slot e h = absurd (ground arith)

own_count :
    (q : LogQueue) (stream : LogStream) (own slot : Slot)
    → index stream ≡ some own
    → is_slot (index stream) slot ≡ true
    → get (put q.counts own (get q.counts own + 1)) slot ≡ get q.counts own + 1
own_count q stdout slot_stdout slot_stdout e h = refl
own_count q stream slot_stdout slot_stderr e h = absurd (ground arith)
own_count q stream slot_stderr slot_stdout e h = absurd (ground arith)
own_count q stream slot_stderr slot_stderr e h = refl
own_count q stream slot_stdout slot_stdout e h = refl

-- The chunk that the next send offers.
abbrev offered : LogQueue → LogStream → Slot → Bytes → ℕ → CapturedChunk
offered q stream own payload nanos = record {
  stream = stream;
  sequence = get q.counts own + 1;
  capture_unix_nanos = pos nanos;
  payload = payload;
}

module _ (q : LogQueue) (stream : LogStream) (own slot : Slot) (k nanos : ℕ) (payload : Bytes)
    (mine : index stream ≡ some own) (some_bytes : 0 < length payload)
    (deliverable : IsDeliverable slot k q) where
  abbrev counted : Two ℕ
  counted = put q.counts own (get q.counts own + 1)

  dropped : Ascends slot k q.queued (get counted slot)
  dropped = Ascends-mono slot k (get q.counts slot) _ q.queued deliverable (count_grows q own slot)

  sent : Ascends slot k (q.queued ++ offered q stream own payload nanos ∷ []) (get counted slot)
  sent =
      Ascends-snoc slot k (get q.counts slot) _ q.queued (offered q stream own payload nanos)
        deliverable some_bytes (count_grows q own slot)
        (λ h.
          let n = own_count q stream own slot mine h in
          let s = own_slot stream own slot mine h in (rw s (omega arith), omega arith))

  send_next-IsDeliverable : IsDeliverable slot k (send_next q stream own payload nanos).1
  unfolding send_next
  send_next-IsDeliverable = elim (Bool-cases (leb i64_max (get q.counts own))) [
    | inl e ↦ rw e deliverable
    | inr e ↦ elim (Bool-cases q.closed) [
      | inl shut ↦ rw (e, shut) dropped
      | inr usable ↦ elim (Bool-cases (leb q.capacity (length q.queued))) [
        | inl full ↦ rw (e, usable, full) dropped
        | inr room ↦ rw (e, usable, room) sent
      ]
    ]
  ]

push_chunk-IsDeliverable :
    (q : LogQueue) (stream : LogStream) (own slot : Slot) (k : ℕ) (payload : Bytes) (now : Option ℕ)
    → index stream ≡ some own
    → 0 < length payload
    → IsDeliverable slot k q
    → IsDeliverable slot k (push_chunk q stream own payload now).1
unfolding push_chunk
push_chunk-IsDeliverable q stream own slot k payload now m b d =
    elim (Result-cases (capture_time now)) [
      | inl (nanos, e) ↦
          rw (e, push_chunk) (send_next-IsDeliverable q stream own slot k nanos payload m b d)
      | inr (x, e) ↦ rw (e, push_chunk) d
    ]

push_chunks-IsDeliverable :
    (ps : List Bytes) (q : LogQueue) (stream : LogStream) (own slot : Slot) (k : ℕ)
    (now : ℕ → Option ℕ)
    → index stream ≡ some own
    → All (λ (p : Bytes). 0 < length p) ps
    → IsDeliverable slot k q
    → IsDeliverable slot k (push_chunks q stream own ps now).1
unfolding push_chunks
push_chunks-IsDeliverable [] q stream own slot k now m b d = d
push_chunks-IsDeliverable (p ∷ ps) q stream own slot k now m b d =
    let one = push_chunk-IsDeliverable q stream own slot k p (now (length ps)) m b.0 d in
    elim (Result-cases (push_chunk q stream own p (now (length ps))).0) [
      | inl (done, e) ↦
          rw (e, push_chunks)
            (push_chunks-IsDeliverable ps (push_chunk q stream own p (now (length ps))).1 stream own
              slot k now m b.1 one)
      | inr (x, e) ↦ rw (e, push_chunks) one
    ]

-- A frame of output keeps the queue deliverable, whether its pieces are queued, dropped by a full
-- queue or refused: for either stream the queued sequences ascend from above what the reader has
-- seen up to the count of the sequences given out, and no queued payload is empty.
pub push_frame-IsDeliverable :
    (q : LogQueue) (stream : LogStream) (slot : Slot) (k : ℕ) (bytes : Bytes) (now : ℕ → Option ℕ)
    → IsDeliverable slot k q
    → IsDeliverable slot k (push_frame q stream bytes now).1
unfolding push_frame
push_frame-IsDeliverable q stream slot k bytes now d = elim (Option-cases (index stream)) [
  | inl e ↦ rw (e, push_frame) d
  | inr (own, e) ↦
      rw (e, push_frame)
        (push_chunks-IsDeliverable (chunks (length bytes) max_chunk_bytes bytes) q stream own slot k
          now e (chunks-All (length bytes) max_chunk_bytes bytes (omega arith)) d)
]

-- A delivered chunk passes the tests of the reader that has seen the stream up to `k`, and leaves
-- the queue deliverable to a reader that has seen it too.
pub recv-IsDeliverable :
    (q : LogQueue) (slot : Slot) (k : ℕ) (c : CapturedChunk)
    → IsDeliverable slot k q
    → (recv q).0 ≡ some c
    → (0 < length c.payload)
      × (is_slot (index c.stream) slot ≡ true → k < c.sequence)
      × IsDeliverable slot (next_from slot k c) (recv q).1
recv-IsDeliverable q slot k c d e = elim (List-cases q.queued) [
  | inl empty ↦ absurd (ground arith)
  | inr (x, rest, more) ↦
      let same : x ≡ c = ground arith in
      let parts : Ascends slot k (x ∷ rest) (get q.counts slot) = rw more at d in
      rw (more, ← same) parts
]
