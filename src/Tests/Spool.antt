-- ===== src/Tests/Spool.antt =====
-- A spool of one entry, and a queue with a writer and a reader.
use distributed_execution.Base.{
  ◌+◌, ◌≡◌, refl, true, false, List, [], ◌∷◌, length, ascii, none, some, ok, err, arith, bytes_eq,
}
use distributed_execution.Control.{stdout, stderr, canonical_uuid}
use distributed_execution.Log.Slots.{slot_stdout, both, get}
use distributed_execution.Log.Format.{LogSegment}
use distributed_execution.Log.Spool.{
  create, LogSpool, StoredSegment, Metadata, store, read, remove, find_entry, join,
}
use distributed_execution.Log.Spool.Accounting.{IsBalanced, IsStored, remove_frees, store-IsStored}
use distributed_execution.Log.Spool.Calls.{SpoolCall, stores, removes, work, work-create-IsBalanced}
use distributed_execution.Log.Capture.{LogQueue, bounded}
use distributed_execution.Log.Capture.Delivery.{Ascends}
use distributed_execution.Log.Capture.Calls.{
  CaptureCall, pushes, receives, disconnects, play, received-Ascends,
}
use distributed_execution.Tests.Samples.{uuid}

abbrev entry : StoredSegment
entry = record {
  path = ascii "/w/stdout-0000000000000000001-0000000000000000002.seg";
  name = ascii "stdout-0000000000000000001-0000000000000000002.seg";
  size = 3;
}

abbrev spool : LogSpool
spool = record {
  root = ascii "/w";
  attempt_id = uuid;
  cap = 10;
  used = 3;
  entries = (entry.name, 3) ∷ [];
  poisoned = false;
}

abbrev empty_spool : LogSpool
empty_spool = record spool { used = 0; entries = [] }

abbrev file : Metadata
file = record { is_file = true; uid = 7; mode = 0o100600; nlink = 1; len = 3 }

abbrev segment : LogSegment
segment = record {
  bytes = 1 ∷ 2 ∷ 3 ∷ [];
  attempt_id = uuid;
  stream = stdout;
  first_sequence = 1;
  last_sequence = 2;
  gaps = [];
}

balanced : IsBalanced spool
balanced = record {
  counted = refl;
  within_cap = omega arith;
  cap_high = omega arith;
  few_entries = omega arith;
  distinct = (refl, tt);
}

abbrev spool_calls : List SpoolCall
spool_calls =
    stores stdout segment (ok tt)
    ∷ removes entry (ok file) 7 (ok tt)
    ∷ stores stdout (record segment { last_sequence = 3 }) (err 5)
    ∷ []

work-create-IsBalanced_example : IsBalanced (work spool_calls empty_spool)
unfolding create canonical_uuid
work-create-IsBalanced_example =
    work-create-IsBalanced (some uuid) (ascii "/w") 10 (ok tt) empty_spool spool_calls refl

remove_frees_example :
    let s' = (remove spool entry (ok file) 7 (ok tt)).1 in
    IsBalanced s'
    × (s'.used + 3 ≡ 3)
    × (find_entry entry.name s'.entries ≡ none)
    × (length s'.entries + 1 ≡ 1)
unfolding read bytes_eq join
remove_frees_example = remove_frees spool entry (ok file) 7 balanced refl

store-IsStored_example : IsStored empty_spool 3 entry (store empty_spool stdout segment (ok tt)).1
unfolding store bytes_eq join
store-IsStored_example = store-IsStored empty_spool stdout segment (ok tt) entry refl

abbrev queue : LogQueue
queue = record { capacity = 8; closed = false; queued = []; counts = both 0 }

abbrev capture_calls : List CaptureCall
capture_calls =
    pushes stdout (ascii "ho") (λ n. some 10)
    ∷ receives
    ∷ pushes stderr (ascii "hum") (λ n. some 11)
    ∷ disconnects
    ∷ []

received-Ascends_example :
    let s = play capture_calls (record { received = []; queue = queue }) in
    Ascends slot_stdout 0 s.received (get s.queue.counts slot_stdout)
unfolding bounded
received-Ascends_example = received-Ascends 8 queue capture_calls slot_stdout refl
