-- ===== src/Log/Assembler/Calls.antt =====
-- The calls on an assembler of rust/worker/src/log_assembler.rs, with what they acknowledge.
pub mod Whole
use distributed_execution.Base.{
  ℕ, ◌≡◌, refl, sym, inl, inr, none, some, List, [], ◌∷◌, ◌++◌, Bytes, Result, ok, err, Bool-cases,
  List-cases,
}
use mathlib.Core.Path.{subst}
use distributed_execution.Control.{LogStream, stdout, stderr}
use distributed_execution.Log.Slots.{Slot, slot_stdout, slot_stderr, Two, get, index, both}
use distributed_execution.Log.Capture.{CapturedChunk}
use distributed_execution.Log.Spool.{LogSpool, SpoolError, Metadata, remove}
use distributed_execution.Log.Assembler.{
  LogAssembler, PendingSegment, Outcome, ingest, flush_if_due, flush_due, flush_all, then_second,
  after_remove, acknowledge_front, is_due, new_assembler,
}
use distributed_execution.Log.Assembler.Chain.{
  OpenOk, AllChained, Chain, next_stored, flush_slot-AllChained,
}
use distributed_execution.Log.Assembler.Ingest.{ingest-AllChained}

-- The calls of the log publisher, each with the clock's and the file system's answers.
pub data AssemblerCall : Type 0 where
  take_chunk : CapturedChunk → (now later : ℕ) → Result ℕ (Unit {0}) → AssemblerCall
  flush_when_due : (now : ℕ) → Result ℕ (Unit {0}) → Result ℕ (Unit {0}) → AssemblerCall
  flush_both : Result ℕ (Unit {0}) → Result ℕ (Unit {0}) → AssemblerCall
  acknowledge : Result ℕ Metadata → (owner : ℕ) → Result ℕ (Unit {0}) → AssemblerCall

-- The segments acknowledged so far, in order.
pub record History : Type 0 where
  pub acknowledged : List PendingSegment
  pub assembler : LogAssembler

-- The acknowledged segment leaves the head of `pending` if the call succeeds.
unfoldable pub taken : Outcome → List PendingSegment → List PendingSegment
taken (err e, a) ps = []
taken (ok done, a) [] = []
taken (ok done, a) (p ∷ ps) = p ∷ []

unfoldable pub call : (Bytes → Bytes) → AssemblerCall → History → History
unfolding taken
call hash (take_chunk c now later published) h = record h {
  assembler = (ingest hash h.assembler c now later published).1;
}
call hash (flush_when_due now p p') h = record h {
  assembler = (flush_due hash h.assembler now p p').1;
}
call hash (flush_both p p') h = record h { assembler = (flush_all hash h.assembler p p').1 }
call hash (acknowledge opened owner removed) h =
    let outcome = acknowledge_front h.assembler opened owner removed in
    record {
      acknowledged = h.acknowledged ++ taken outcome h.assembler.pending;
      assembler = outcome.1;
    }

unfoldable pub calls : (Bytes → Bytes) → List AssemblerCall → History → History
unfolding call
calls hash [] h = h
calls hash (c ∷ cs) h = calls hash cs (call hash c h)
