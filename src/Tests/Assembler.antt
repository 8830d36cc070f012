-- ===== src/Tests/Assembler.antt =====
-- An assembler that takes a chunk, flushes and has the segment acknowledged.
use distributed_execution.Base.{true, false, List, [], ◌∷◌, ◌++◌, Bytes, ascii, ok, pos}
use distributed_execution.Control.{stdout}
use distributed_execution.Log.Slots.{slot_stdout, get}
use distributed_execution.Log.Capture.{CapturedChunk}
use distributed_execution.Log.Spool.{LogSpool}
use distributed_execution.Log.Assembler.{new_assembler}
use distributed_execution.Log.Assembler.Chain.{Chain}
use distributed_execution.Log.Assembler.Calls.{
  AssemblerCall, take_chunk, flush_both, acknowledge, calls,
}
use distributed_execution.Log.Assembler.Calls.Whole.{stored_without_holes}
use distributed_execution.Tests.Samples.{uuid}

abbrev spool : LogSpool
spool = record {
  root = ascii "/w";
  attempt_id = uuid;
  cap = 4096;
  used = 0;
  entries = [];
  poisoned = false;
}

-- In place of SHA-256.
abbrev first_byte : Bytes → Bytes
first_byte [] = []
first_byte (b ∷ bs) = b ∷ []

abbrev chunk : CapturedChunk
chunk = record { stream = stdout; sequence = 3; capture_unix_nanos = pos 9; payload = ascii "hi" }

abbrev run_calls : List AssemblerCall
run_calls =
    take_chunk chunk 0 1 (ok tt)
    ∷ flush_both (ok tt) (ok tt)
    ∷ acknowledge (ok (record { is_file = true; uid = 7; mode = 0o100600; nlink = 1; len = 70 })) 7
        (ok tt)
    ∷ take_chunk (record chunk { sequence = 5 }) 2 3 (ok tt)
    ∷ []

stored_without_holes_example :
    let h =
      calls first_byte run_calls
        (record { acknowledged = []; assembler = new_assembler uuid spool }) in
    Chain slot_stdout 0
      (h.acknowledged ++ h.assembler.pending)
      (get h.assembler.last_stored slot_stdout)
stored_without_holes_example = stored_without_holes first_byte uuid spool run_calls slot_stdout
