-- ===== src/Log/Capture/Calls.antt =====
-- The two ends of the capture queue in any interleaving (rust/worker/src/log_capture.rs).
use distributed_execution.Base.{
  Bool-cases, ℕ, ◌≤◌, ◌≡◌, inl, inr, true, Option, none, some, List, [], ◌∷◌, ◌++◌, Bytes, ok,
  arith, List-cases,
}
use mathlib.Core.List.{append-nil}
use distributed_execution.Control.{LogStream}
use distributed_execution.Log.Slots.{Slot, slot_stdout, slot_stderr, get, index, is_slot}
use distributed_execution.Log.Capture.{CapturedChunk, LogQueue, bounded, push_frame, recv}
use distributed_execution.Log.Capture.Delivery.{
  Ascends, next_from, IsDeliverable, Ascends-mono, push_frame-IsDeliverable,
}

-- `disconnects`: the receiver is dropped, with the chunks that are still queued.
pub data CaptureCall : Type 0 where
  pushes : LogStream → Bytes → (ℕ → Option ℕ) → CaptureCall
  receives disconnects : CaptureCall

-- A queue with all that was received from it, in order.
pub record Stage : Type 0 where
  pub received : List CapturedChunk
  pub queue : LogQueue

abbrev taken : Option CapturedChunk → List CapturedChunk
taken none = []
taken (some c) = c ∷ []

unfoldable pub play : List CaptureCall → Stage → Stage
play [] s = s
play (pushes stream bytes now ∷ cs) s =
    play cs (record s { queue = (push_frame s.queue stream bytes now).1 })
play (receives ∷ cs) s =
    play cs (record { received = s.received ++ taken (recv s.queue).0; queue = (recv s.queue).1 })
play (disconnects ∷ cs) s =
    play cs (record s { queue = record s.queue { closed = true; queued = [] } })

-- The last sequence of the slot's stream in the list, or `k`.
abbrev last_of : Slot → ℕ → List CapturedChunk → ℕ
last_of slot k [] = k
last_of slot k (c ∷ cs) = last_of slot (next_from slot k c) cs

record IsStaged (slot : Slot) (s : Stage) : Type 0 where
  before : Ascends slot 0 s.received (last_of slot 0 s.received)
  waiting : IsDeliverable slot (last_of slot 0 s.received) s.queue

-- What is received last is beyond what was received before.
Ascends-receive :
    (slot : Slot) (k top : ℕ) (cs rest : List CapturedChunk) (c : CapturedChunk)
    → Ascends slot k cs (last_of slot k cs)
    → Ascends slot (last_of slot k cs) (c ∷ rest) top
    → Ascends slot k (cs ++ c ∷ []) (last_of slot k (cs ++ c ∷ []))
      × Ascends slot (last_of slot k (cs ++ c ∷ [])) rest top
Ascends-receive slot k top [] rest c h (p, n, g) = ((p, n, omega arith), g)
Ascends-receive slot k top (x ∷ xs) rest c (p, n, h) g =
    let (a, b) = Ascends-receive slot (next_from slot k x) top xs rest c h g in ((p, n, a), b)

Ascends-reaches :
    (slot : Slot) (k top : ℕ) (cs : List CapturedChunk) → Ascends slot k cs top → k ≤ top
Ascends-reaches slot k top [] h = h
Ascends-reaches slot k top (c ∷ cs) (p, n, h) =
    let le = Ascends-reaches slot (next_from slot k c) top cs h in
    elim (Bool-cases (is_slot (index c.stream) slot)) [
      | inl e ↦ ground (arith, n e)
      | inr e ↦ ground arith
    ]

receive-IsStaged :
    (slot : Slot) (s : Stage)
    → IsStaged slot s
    → IsStaged slot
        (record { received = s.received ++ taken (recv s.queue).0; queue = (recv s.queue).1 })
receive-IsStaged slot s h = elim (List-cases s.queue.queued) [
  | inl e ↦
      rw (e, append-nil s.received)
        (record { before = h.before; waiting = Ascends-reaches slot _ _ s.queue.queued h.waiting })
  | inr (c, rest, e) ↦
      let (a, b) =
        Ascends-receive slot 0 (get s.queue.counts slot) s.received rest c h.before
          (rw e at h.waiting) in
      rw e (record { before = a; waiting = b })
]

play-IsStaged :
    (cs : List CaptureCall) (slot : Slot) (s : Stage) → IsStaged slot s → IsStaged slot (play cs s)
unfolding play
play-IsStaged [] slot s h = h
play-IsStaged (pushes stream bytes now ∷ cs) slot s h = play-IsStaged cs slot _ (record {
  before = h.before;
  waiting =
      push_frame-IsDeliverable s.queue stream slot (last_of slot 0 s.received) bytes now h.waiting;
})
play-IsStaged (receives ∷ cs) slot s h = play-IsStaged cs slot _ (receive-IsStaged slot s h)
play-IsStaged (disconnects ∷ cs) slot s h =
    play-IsStaged cs slot _
      (record { before = h.before; waiting = Ascends-reaches slot _ _ s.queue.queued h.waiting })

bounded-IsStaged :
    (capacity : ℕ) (q : LogQueue) (slot : Slot)
    → bounded capacity ≡ ok q
    → IsStaged slot (record { received = []; queue = q })
unfolding bounded
bounded-IsStaged capacity q slot_stdout e = record { before = omega arith; waiting = ground arith }
bounded-IsStaged capacity q slot_stderr e = record { before = omega arith; waiting = ground arith }

-- However the frames of both streams, the reads and the loss of the reader are interleaved, on a
-- new queue: the chunks received of a stream have ascending sequences from one on, none beyond the
-- count of the sequences given out, and no empty payload.
pub received-Ascends :
    (capacity : ℕ) (q : LogQueue) (cs : List CaptureCall) (slot : Slot)
    → bounded capacity ≡ ok q
    → let s = play cs (record { received = []; queue = q }) in
      Ascends slot 0 s.received (get s.queue.counts slot)
received-Ascends capacity q cs slot e =
    let s = play cs (record { received = []; queue = q }) in
    let h = play-IsStaged cs slot _ (bounded-IsStaged capacity q slot e) in
    Ascends-mono slot 0 _ _ s.received h.before (Ascends-reaches slot _ _ s.queue.queued h.waiting)
