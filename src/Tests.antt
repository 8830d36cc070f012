-- ===== src/Tests.antt =====
-- The theorems at concrete inputs.
mod Samples
mod Lease
mod Renewal
mod Supervisor
mod Maintain
mod Format
mod Spool
mod Assembler
mod Phase
mod Journal
mod Files
mod Transfers
mod Evidence
