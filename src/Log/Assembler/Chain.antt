-- ===== src/Log/Assembler/Chain.antt =====
-- The row of segments that wait in the assembler of rust/worker/src/log_assembler.rs, and flushes.
use distributed_execution.Base.{
  ℕ, ◌+◌, ◌≤◌, ◌≡◌, refl, ap, inl, inr, true, Option, none, some, List, [], ◌∷◌, ◌++◌, Bytes,
  Result, ok, err, arith, Option-cases, if◌then◌else◌,
}
use mathlib.Core.Path.{subst}
use distributed_execution.Control.{LogStream}
use distributed_execution.Log.Slots.{Slot, slot_stdout, slot_stderr, Two, get, put, index, is_slot}
use distributed_execution.Log.Format.{LogSegment, finish}
use distributed_execution.Log.Spool.{LogSpool, SpoolError, SpoolOutcome, stored, saturated}
use distributed_execution.Log.Assembler.{
  LogAssembler, OpenSegment, PendingSegment, after_store, flush_segment, flush_open, flush_slot,
  sealed,
}

-- The last sequence of the slot's stream behind `p`, when it is `k` before.
abbrev pub next_stored : Slot → ℕ → PendingSegment → ℕ
next_stored slot k p = if is_slot (index p.stream) slot then p.last_sequence else k

-- From `k` up to `top` each segment of the slot's stream starts where the one before it ends.
abbrev pub Chain : Slot → ℕ → List PendingSegment → ℕ → Type 0
Chain slot k [] top = k ≡ top
Chain slot k (p ∷ ps) top =
    (is_slot (index p.stream) slot ≡ true
      → (p.first_sequence ≡ k + 1) × (p.first_sequence ≤ p.last_sequence))
    × Chain slot (next_stored slot k p) ps top

Chain-snoc :
    (slot : Slot) (k top : ℕ) (ps : List PendingSegment) (p : PendingSegment)
    → Chain slot k ps top
    → (is_slot (index p.stream) slot ≡ true
        → (p.first_sequence ≡ top + 1) × (p.first_sequence ≤ p.last_sequence))
    → Chain slot k (ps ++ p ∷ []) (next_stored slot top p)
Chain-snoc slot k top [] p h n =
    ((λ y. let (a, b) = n y in (omega arith, b)), ap (λ (m : ℕ). next_stored slot m p) h)
Chain-snoc slot k top (x ∷ xs) p h n = (h.0, Chain-snoc slot (next_stored slot k x) top xs p h.1 n)

abbrev pub LastOk : ℕ → Option ℕ → Type 0
LastOk first none = Unit {0}
LastOk first (some last) = first ≤ last

-- An open segment starts behind what is stored.
abbrev pub OpenOk : Option OpenSegment → ℕ → Type 0
OpenOk none stored_to = Unit {0}
OpenOk (some o) stored_to =
    (o.writer.first_sequence ≡ stored_to + 1)
    × LastOk o.writer.first_sequence o.writer.last_sequence

-- For one stream, of which `k` was the last sequence acknowledged.
pub record IsChained (slot : Slot) (k : ℕ) (a : LogAssembler) : Type 0 where
  pub joined : Chain slot k a.pending (get a.last_stored slot)
  pub opened : OpenOk (get a.opens slot) (get a.last_stored slot)

-- `p` is of the stream of slot `own`, and joins on to what is stored of it.
joins_on :
    (t : Two ℕ) (own slot : Slot) (p : PendingSegment)
    → index p.stream ≡ some own
    → p.first_sequence ≡ get t own + 1
    → p.first_sequence ≤ p.last_sequence
    → is_slot (index p.stream) slot ≡ true
    → (p.first_sequence ≡ get t slot + 1) × (p.first_sequence ≤ p.last_sequence)
joins_on t slot_stdout slot_stdout p m f l y = (f, l)
joins_on t slot_stdout slot_stderr p m f l y = ground arith
joins_on t slot_stderr slot_stdout p m f l y = ground arith
joins_on t slot_stderr slot_stderr p m f l y = (f, l)

next_stored-put :
    (t : Two ℕ) (own slot : Slot) (p : PendingSegment)
    → index p.stream ≡ some own
    → next_stored slot (get t slot) p ≡ get (put t own p.last_sequence) slot
next_stored-put t slot_stdout slot_stdout p m = rw m refl
next_stored-put t slot_stdout slot_stderr p m = rw m refl
next_stored-put t slot_stderr slot_stdout p m = rw m refl
next_stored-put t slot_stderr slot_stderr p m = rw m refl

-- Where the slot of `own` is empty, storing up to `n` for it leaves the open segments in order.
opens_on :
    (opens : Two (Option OpenSegment)) (t : Two ℕ) (own slot : Slot) (n : ℕ)
    → get opens own ≡ none
    → OpenOk (get opens slot) (get t slot)
    → OpenOk (get opens slot) (get (put t own n) slot)
opens_on opens t slot_stdout slot_stdout n e h = rw (e) tt
opens_on opens t slot_stdout slot_stderr n e h = h
opens_on opens t slot_stderr slot_stdout n e h = h
opens_on opens t slot_stderr slot_stderr n e h = rw (e) tt

-- For both streams.
unfoldable pub AllChained : Two ℕ → LogAssembler → Type 0
AllChained ks a = (slot : Slot) → IsChained slot (get ks slot) a

get-put-none :
    (t : Two (Option OpenSegment)) (own slot : Slot) (n : ℕ)
    → OpenOk (get t slot) n
    → OpenOk (get (put t own none) slot) n
get-put-none t slot_stdout slot_stdout n h = tt
get-put-none t slot_stdout slot_stderr n h = h
get-put-none t slot_stderr slot_stdout n h = h
get-put-none t slot_stderr slot_stderr n h = tt

get-put_own : (t : Two (Option OpenSegment)) (own : Slot) → get (put t own none) own ≡ none
get-put_own t slot_stdout = refl
get-put_own t slot_stderr = refl

-- The files of the spool do not matter, and an open segment may be dropped.
emptied-IsChained :
    (a : LogAssembler) (own slot : Slot) (k : ℕ) (spool : LogSpool)
    → IsChained slot k a
    → IsChained slot k (record a { opens = put a.opens own none; spool = spool })
emptied-IsChained a own slot k spool h = record {
  joined = h.joined;
  opened = get-put-none a.opens own slot (get a.last_stored slot) h.opened;
}

module _ (hash : Bytes → Bytes) where
  after_store-IsChained :
      (a : LogAssembler) (own slot : Slot) (stream : LogStream) (k : ℕ) (segment : LogSegment)
      (outcome : Result SpoolError SpoolOutcome)
      → index stream ≡ some own
      → get a.opens own ≡ none
      → segment.first_sequence ≡ get a.last_stored own + 1
      → segment.first_sequence ≤ segment.last_sequence
      → IsChained slot k a
      → IsChained slot k (after_store hash a own stream segment outcome).1
  unfolding after_store
  after_store-IsChained a own slot stream k segment (err _) m e f l h = h
  after_store-IsChained a own slot stream k segment (ok saturated) m e f l h = h
  after_store-IsChained a own slot stream k segment (ok (stored entry)) m e f l h = record {
    joined =
        let p = sealed hash stream segment entry in
        subst (Chain slot k (a.pending ++ p ∷ [])) (next_stored-put a.last_stored own slot p m) (
          Chain-snoc slot k (get a.last_stored slot) a.pending p h.joined
            (joins_on a.last_stored own slot p m f l));
    opened = opens_on a.opens a.last_stored own slot segment.last_sequence e h.opened;
  }

  flush_open-IsChained :
      (a : LogAssembler) (own : Slot) (stream : LogStream) (o : OpenSegment)
      (published : Result ℕ (Unit {0}))
      → index stream ≡ some own
      → OpenOk (some o) (get a.last_stored own)
      → (slot : Slot) (k : ℕ) → IsChained slot k a
      → IsChained slot k (flush_open hash a own stream (some o) published).1
  unfolding flush_open flush_segment finish
  flush_open-IsChained a own stream o published m (f, l) slot k h =
      elim (Option-cases o.writer.last_sequence) [
        | inl e ↦ rw e (emptied-IsChained a own slot k a.spool h)
        | inr (last, e) ↦ rw e (
            after_store-IsChained _ own slot stream k
              (record {
                bytes = o.writer.bytes;
                attempt_id = o.writer.attempt_id;
                stream = o.writer.stream;
                first_sequence = o.writer.first_sequence;
                last_sequence = last;
                gaps = o.writer.gaps;
              })
              _ m (get-put_own a.opens own) f (subst (LastOk o.writer.first_sequence) e l)
              (emptied-IsChained a own slot k _ h))
      ]

  -- A flush of either stream keeps both streams' segments in order.
  pub flush_slot-AllChained :
      (a : LogAssembler) (own : Slot) (stream : LogStream) (published : Result ℕ (Unit {0}))
      (ks : Two ℕ)
      → index stream ≡ some own
      → AllChained ks a
      → AllChained ks (flush_slot hash a own stream published).1
  unfolding AllChained flush_slot flush_open
  flush_slot-AllChained a own stream published ks m h slot = elim (Option-cases (get a.opens own)) [
    | inl e ↦ rw e (h slot)
    | inr (o, e) ↦ rw e (
        flush_open-IsChained a own stream o published m
          (subst (λ x. OpenOk x (get a.last_stored own)) e (h own).opened) slot (get ks slot)
          (h slot))
  ]
