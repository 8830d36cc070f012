-- ===== src/Log/Capture.antt =====
-- rust/worker/src/log_capture.rs: the bounded hand-over from a container's output to the segments.
-- The channel is the list of chunks in it, the oldest first; `None` for a clock before the epoch.
pub mod Delivery
pub mod Calls
use distributed_execution.Base.{
  ℕ, zero, suc, ◌+◌, Bool, true, false, not, ◌||◌, ◌==◌, ltb, leb, if◌then◌else◌, Option, none,
  some, List, [], ◌∷◌, ◌++◌, length, take, drop, is_empty, Bytes, Result, ok, err, i64_max, u64_max,
  ℤ, pos,
}
use distributed_execution.Control.{LogStream}
use distributed_execution.Log.Slots.{Slot, Two, both, get, put, index}

abbrev pub max_chunk_bytes : ℕ
max_chunk_bytes = 0x1_0000

abbrev pub queue_chunks : ℕ
queue_chunks = 256

pub data CaptureError : Type 0 where
  invalid clock closed_error sequence_error : CaptureError

pub record CapturedChunk : Type 0 where
  pub stream : LogStream
  pub sequence : ℕ
  pub capture_unix_nanos : ℤ
  pub payload : Bytes

-- `LogQueue` with the counts that it shares and the channel behind its sender.
pub record LogQueue : Type 0 where
  pub capacity : ℕ
  pub closed : Bool
  pub queued : List CapturedChunk
  pub counts : Two ℕ

unfoldable pub bounded : ℕ → Result CaptureError LogQueue
bounded capacity =
    if capacity == 0 || ltb queue_chunks capacity
    then err invalid
    else ok (record { capacity = capacity; closed = false; queued = []; counts = both 0 })

-- `slice::chunks`: pieces of `size` bytes, the last one shorter. The fuel is the number of bytes.
unfoldable pub chunks : ℕ → ℕ → Bytes → List Bytes
chunks zero size bytes = []
chunks (suc fuel) size [] = []
chunks (suc fuel) size (b ∷ bytes) =
    take size (b ∷ bytes) ∷ chunks fuel size (drop size (b ∷ bytes))

abbrev pub capture_time : Option ℕ → Result CaptureError ℕ
capture_time none = err clock
capture_time (some nanos) = if ltb i64_max nanos then err clock else ok nanos

-- `try_send`: a full channel drops the chunk.
abbrev pub try_send : LogQueue → CapturedChunk → Result CaptureError (Unit {0}) × LogQueue
try_send q item =
    if q.closed
    then (err closed_error, q)
    else if leb q.capacity (length q.queued)
    then (ok tt, q)
    else (ok tt, record q { queued = q.queued ++ item ∷ [] })

-- `fetch_update`, then the send.
send_next : LogQueue → LogStream → Slot → Bytes → ℕ → Result CaptureError (Unit {0}) × LogQueue
send_next q stream slot payload nanos =
    if leb i64_max (get q.counts slot)
    then (err sequence_error, q)
    else try_send (record q { counts = put q.counts slot (get q.counts slot + 1) })
        (record {
          stream = stream;
          sequence = get q.counts slot + 1;
          capture_unix_nanos = pos nanos;
          payload = payload;
        })

-- One pass of the loop of `push_frame`.
unfoldable pub push_chunk :
    LogQueue → LogStream → Slot → Bytes → Option ℕ → Result CaptureError (Unit {0}) × LogQueue
unfolding send_next
push_chunk q stream slot payload now = elim (capture_time now) [
  | err e ↦ (err e, q)
  | ok nanos ↦ send_next q stream slot payload nanos
]

-- `now n` is the clock when `n` pieces are left after this one.
unfoldable pub push_chunks :
    LogQueue
    → LogStream
    → Slot
    → List Bytes
    → (ℕ → Option ℕ)
    → Result CaptureError (Unit {0}) × LogQueue
unfolding push_chunk
push_chunks q stream slot [] now = (ok tt, q)
push_chunks q stream slot (p ∷ ps) now =
    let (sent, q') = push_chunk q stream slot p (now (length ps)) in
    elim sent [ ok done ↦ push_chunks q' stream slot ps now | err e ↦ (err e, q') ]

unfoldable pub push_frame :
    LogQueue → LogStream → Bytes → (ℕ → Option ℕ) → Result CaptureError (Unit {0}) × LogQueue
unfolding push_chunks
push_frame q stream bytes now = elim (index stream) [
  | none ↦ (err invalid, q)
  | some slot ↦ push_chunks q stream slot (chunks (length bytes) max_chunk_bytes bytes) now
]

-- `receiver.recv` when a chunk is there.
abbrev pub recv : LogQueue → Option CapturedChunk × LogQueue
recv q = elim q.queued [ [] ↦ (none, q) | item ∷ rest ↦ (some item, record q { queued = rest }) ]
