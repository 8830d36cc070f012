-- ===== src/Journal.antt =====
-- rust/worker/src/journal.rs and rust/worker/src/journal: durable evidence and retry identities.
pub mod Records
pub mod Uploads
pub mod Segments
pub mod Validity
pub mod Store
pub mod Framing
pub mod Files
pub mod Entries
pub mod Crash
pub mod Durable
pub mod Refusal
pub mod Recovery
pub mod Disk
pub mod Ids
pub mod Attempts
pub mod Outputs
pub mod Logs
pub mod Kept
pub mod Saved
pub mod Advances
pub mod Steps
pub mod OutputSteps
pub mod PartSteps
pub mod LogSteps
pub mod Holds
pub mod UploadCalls
pub mod Calls
pub mod Fresh
pub mod Success
pub mod Replay
pub mod Summary
pub mod Claimed
