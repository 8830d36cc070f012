-- ===== src/Log/Assembler/Calls/Whole.antt =====
-- The row of segments over the calls on the assembler of rust/worker/src/log_assembler.rs.
use distributed_execution.Base.{
  ℕ, ◌≡◌, refl, sym, inl, inr, none, some, List, [], ◌∷◌, ◌++◌, Bytes, Result, ok, err, Bool-cases,
  List-cases,
}
use mathlib.Core.Path.{subst}
use distributed_execution.Control.{LogStream, stdout, stderr}
use distributed_execution.Log.Slots.{Slot, slot_stdout, slot_stderr, Two, get, index, both}
use distributed_execution.Log.Spool.{LogSpool, SpoolError, Metadata, remove}
use distributed_execution.Log.Assembler.{
  LogAssembler, PendingSegment, Outcome, flush_if_due, flush_due, flush_all, then_second,
  after_remove, acknowledge_front, is_due, new_assembler,
}
use distributed_execution.Log.Assembler.Chain.{
  OpenOk, AllChained, Chain, next_stored, flush_slot-AllChained,
}
use distributed_execution.Log.Assembler.Ingest.{ingest-AllChained}
use distributed_execution.Log.Assembler.Calls.{
  AssemblerCall, take_chunk, flush_when_due, flush_both, acknowledge, History, taken, call, calls,
}

-- What is acknowledged joins on to what waits.
record IsWhole (h : History) : Type 0 where
  upto : Two ℕ
  before : (slot : Slot) → Chain slot 0 h.acknowledged (get upto slot)
  waiting : AllChained upto h.assembler

Chain-append :
    (slot : Slot) (k mid top : ℕ) (ps qs : List PendingSegment)
    → Chain slot k ps mid
    → Chain slot mid qs top
    → Chain slot k (ps ++ qs) top
Chain-append slot k mid top [] qs h g = rw h g
Chain-append slot k mid top (p ∷ ps) qs (a, h) g =
    (a, Chain-append slot (next_stored slot k p) mid top ps qs h g)

-- The last sequences once `p` is acknowledged.
moved : Two ℕ → PendingSegment → Two ℕ
moved ks p = record {
  of_stdout = next_stored slot_stdout ks.of_stdout p;
  of_stderr = next_stored slot_stderr ks.of_stderr p;
}

get-moved :
    (ks : Two ℕ) (p : PendingSegment) (slot : Slot)
    → get (moved ks p) slot ≡ next_stored slot (get ks slot) p
unfolding moved
get-moved ks p slot_stdout = refl
get-moved ks p slot_stderr = refl

module _ (hash : Bytes → Bytes) where
  flush_if_due-AllChained :
      (a : LogAssembler) (own : Slot) (stream : LogStream) (now : ℕ)
      (published : Result ℕ (Unit {0})) (ks : Two ℕ)
      → index stream ≡ some own
      → AllChained ks a
      → AllChained ks (flush_if_due hash a own stream now published).1
  unfolding flush_if_due
  flush_if_due-AllChained a own stream now published ks m h =
      elim (Bool-cases (is_due (get a.opens own) now)) [
        | inl e ↦ rw (flush_if_due, e) (flush_slot-AllChained hash a own stream published ks m h)
        | inr e ↦ rw (flush_if_due, e) h
      ]

  then_second-AllChained :
      (ks : Two ℕ) (first : Outcome) (next : LogAssembler → Outcome)
      → AllChained ks first.1
      → ((a : LogAssembler) → AllChained ks a → AllChained ks (next a).1)
      → AllChained ks (then_second first next).1
  then_second-AllChained ks (err e, a) next h step = h
  then_second-AllChained ks (ok done, a) next h step = step a h

  flush_due-AllChained :
      (a : LogAssembler) (now : ℕ) (published published' : Result ℕ (Unit {0})) (ks : Two ℕ)
      → AllChained ks a
      → AllChained ks (flush_due hash a now published published').1
  unfolding flush_due
  flush_due-AllChained a now published published' ks h =
      then_second-AllChained ks _ _
        (flush_if_due-AllChained a slot_stdout stdout now published ks refl h)
        (λ a' h'. flush_if_due-AllChained a' slot_stderr stderr now published' ks refl h')

  flush_all-AllChained :
      (a : LogAssembler) (published published' : Result ℕ (Unit {0})) (ks : Two ℕ)
      → AllChained ks a
      → AllChained ks (flush_all hash a published published').1
  unfolding flush_all
  flush_all-AllChained a published published' ks h =
      then_second-AllChained ks _ _
        (flush_slot-AllChained hash a slot_stdout stdout published ks refl h)
        (λ a' h'. flush_slot-AllChained hash a' slot_stderr stderr published' ks refl h')

  head_of :
      (ks : Two ℕ) (p : PendingSegment) (ps : List PendingSegment) (a : LogAssembler) (slot : Slot)
      → a.pending ≡ p ∷ ps
      → AllChained ks a
      → Chain slot (get ks slot) (p ∷ ps) (get a.last_stored slot)
  unfolding AllChained
  head_of ks p ps a slot e h =
      subst (λ l. Chain slot (get ks slot) l (get a.last_stored slot)) e (h slot).joined

  tail-AllChained :
      (ks : Two ℕ) (p : PendingSegment) (ps : List PendingSegment) (a : LogAssembler)
      (spool : LogSpool)
      → a.pending ≡ p ∷ ps
      → AllChained ks a
      → AllChained (moved ks p) (record a { pending = ps; spool = spool })
  unfolding AllChained
  tail-AllChained ks p ps a spool e h slot = record {
    joined =
        subst (λ k. Chain slot k ps (get a.last_stored slot)) (sym (get-moved ks p slot))
          (head_of ks p ps a slot e h).1;
    opened = (h slot).opened;
  }

  respooled :
      (ks : Two ℕ) (a : LogAssembler) (spool : LogSpool)
      → AllChained ks a
      → AllChained ks (record a { spool = spool })
  unfolding AllChained
  respooled ks a spool h slot = record { joined = (h slot).joined; opened = (h slot).opened }

  after_remove-IsWhole :
      (h : History) (p : PendingSegment) (ps : List PendingSegment) (spool : LogSpool)
      (gone : Result SpoolError (Unit {0}))
      → h.assembler.pending ≡ p ∷ ps
      → IsWhole h
      → let outcome = after_remove (record h.assembler { spool = spool }) ps gone in
        IsWhole (record {
          acknowledged = h.acknowledged ++ taken outcome (p ∷ ps);
          assembler = outcome.1;
        })
  unfolding after_remove taken
  after_remove-IsWhole h p ps spool (err _) e w = record {
    upto = w.upto;
    before = λ slot. Chain-append slot 0 _ _ h.acknowledged [] (w.before slot) refl;
    waiting = respooled w.upto h.assembler spool w.waiting;
  }
  after_remove-IsWhole h p ps spool (ok _) e w = record {
    upto = moved w.upto p;
    before = λ slot.
        Chain-append slot 0 _ _ h.acknowledged (p ∷ []) (w.before slot)
          ((head_of w.upto p ps h.assembler slot e w.waiting).0, sym (get-moved w.upto p slot));
    waiting = tail-AllChained w.upto p ps h.assembler spool e w.waiting;
  }

  unchanged-IsWhole :
      (h : History) → IsWhole h → IsWhole (record h { acknowledged = h.acknowledged ++ [] })
  unchanged-IsWhole h w = record {
    upto = w.upto;
    before = λ slot. Chain-append slot 0 _ _ h.acknowledged [] (w.before slot) refl;
    waiting = w.waiting;
  }

  acknowledge-IsWhole :
      (h : History) (opened : Result ℕ Metadata) (owner : ℕ) (removed : Result ℕ (Unit {0}))
      → IsWhole h
      → IsWhole (call hash (acknowledge opened owner removed) h)
  unfolding call acknowledge_front
  acknowledge-IsWhole h opened owner removed w = elim (List-cases h.assembler.pending) [
    | inl e ↦ rw (call, acknowledge_front, e) (unchanged-IsWhole h w)
    | inr (p, ps, e) ↦
        rw (call, acknowledge_front, e)
          (after_remove-IsWhole h p ps _ (remove h.assembler.spool p.entry opened owner removed).0 e
            w)
  ]

  -- A call that acknowledges nothing.
  kept :
      (h : History) (a : LogAssembler)
      → ((ks : Two ℕ) → AllChained ks h.assembler → AllChained ks a)
      → IsWhole h
      → IsWhole (record h { assembler = a })
  kept h a keeps w = record { upto = w.upto; before = w.before; waiting = keeps w.upto w.waiting }

  call-IsWhole : (c : AssemblerCall) (h : History) → IsWhole h → IsWhole (call hash c h)
  unfolding call
  call-IsWhole (take_chunk c now later p) h =
      kept h _ (ingest-AllChained hash h.assembler c now later p)
  call-IsWhole (flush_when_due now p p') h = kept h _ (flush_due-AllChained h.assembler now p p')
  call-IsWhole (flush_both p p') h = kept h _ (flush_all-AllChained h.assembler p p')
  call-IsWhole (acknowledge opened owner removed) h = acknowledge-IsWhole h opened owner removed

  calls-IsWhole : (cs : List AssemblerCall) (h : History) → IsWhole h → IsWhole (calls hash cs h)
  unfolding calls
  calls-IsWhole [] h w = w
  calls-IsWhole (c ∷ cs) h w = calls-IsWhole cs (call hash c h) (call-IsWhole c h w)

whole-Chain :
    (h : History) (slot : Slot)
    → IsWhole h
    → Chain slot 0 (h.acknowledged ++ h.assembler.pending) (get h.assembler.last_stored slot)
unfolding AllChained
whole-Chain h slot w =
    Chain-append slot 0 _ _ h.acknowledged h.assembler.pending (w.before slot)
      (w.waiting slot).joined

zero_of : (slot : Slot) → Chain slot 0 [] (get (both 0) slot)
zero_of slot_stdout = refl
zero_of slot_stderr = refl

again : (slot : Slot) → Chain slot (get (both 0) slot) [] (get (both 0) slot)
again slot = refl

empty_at : (slot : Slot) → OpenOk (get (both none) slot) (get (both 0) slot)
empty_at slot_stdout = tt
empty_at slot_stderr = tt

new_assembler-IsWhole :
    (attempt_id : Bytes) (spool : LogSpool)
    → IsWhole (record { acknowledged = []; assembler = new_assembler attempt_id spool })
unfolding new_assembler AllChained
new_assembler-IsWhole attempt_id spool = record {
  upto = both 0;
  before = zero_of;
  waiting = λ slot. record { joined = again slot; opened = empty_at slot };
}

-- After any calls on a new assembler, the segments of a stream that were acknowledged and then
-- those that wait are one row: the first starts at sequence one, each other right behind the one
-- before it, none ends before it starts, and the last ends at the sequence stored last.
pub stored_without_holes :
    (hash : Bytes → Bytes) (attempt_id : Bytes) (spool : LogSpool) (cs : List AssemblerCall)
    (slot : Slot)
    → let h =
        calls hash cs (record { acknowledged = []; assembler = new_assembler attempt_id spool }) in
      Chain slot 0 (h.acknowledged ++ h.assembler.pending) (get h.assembler.last_stored slot)
stored_without_holes hash attempt_id spool cs slot =
    whole-Chain _ slot (calls-IsWhole hash cs _ (new_assembler-IsWhole attempt_id spool))
