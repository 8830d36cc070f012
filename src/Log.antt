-- ===== src/Log.antt =====
-- The log pipeline of the worker, from a container's output to the evidence in its completion:
-- capture into a bounded queue, assembly into segments, their format, the spool, and the summary.
pub mod Slots
pub mod Format
pub mod Decode
pub mod Summary
pub mod Spool
pub mod Capture
pub mod Assembler
