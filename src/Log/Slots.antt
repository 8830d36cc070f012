-- ===== src/Log/Slots.antt =====
-- The arrays of two that the log modules keep, one place for each stream, and the `index` that
-- rust/worker/src/log_capture.rs and rust/worker/src/log_assembler.rs share.
use distributed_execution.Base.{ℕ, Bool, true, false, Option, none, some}
use distributed_execution.Control.{LogStream, stdout, stderr, log_stream_unspecified}

pub data Slot : Type 0 where
  slot_stdout slot_stderr : Slot

pub record Two (A : Type 0) : Type 0 where
  pub of_stdout : A
  pub of_stderr : A

abbrev pub both : {A : Type 0} → A → Two A
both a = record { of_stdout = a; of_stderr = a }

abbrev pub get : {A : Type 0} → Two A → Slot → A
get t slot_stdout = t.of_stdout
get t slot_stderr = t.of_stderr

abbrev pub put : {A : Type 0} → Two A → Slot → A → Two A
put t slot_stdout a = record t { of_stdout = a }
put t slot_stderr a = record t { of_stderr = a }

abbrev pub index : LogStream → Option Slot
index stdout = some slot_stdout
index stderr = some slot_stderr
index log_stream_unspecified = none

-- The stream of a slot, as the wire has it.
abbrev pub slot_code : Slot → ℕ
slot_code slot_stdout = 1
slot_code slot_stderr = 2

abbrev pub is_slot : Option Slot → Slot → Bool
is_slot (some slot_stdout) slot_stdout = true
is_slot (some slot_stderr) slot_stderr = true
is_slot _ _ = false
