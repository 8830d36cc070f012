-- ===== src/Lib.antt =====
-- Models of the worker of Dispatch, which runs jobs in containers under authority that a server
-- grants for a limited time, and keeps what the containers print.
--
-- The worker renews its leases in batches. A grant opens a window of authority on the worker's own
-- clock; the renewal loop writes windows and refusals into a channel for each attempt; the task that
-- watches the container reads the channel and stops the container once authority is gone. What the
-- container prints is captured into a bounded queue, assembled into segments, spooled to disk for
-- the upload, and accounted for in the claim of the attempt's completion.
--
-- Base, Control: shared names; the protocol's messages and identities
--   (proto/dispatch/worker/v1/worker.proto, rust/worker/src/control.rs, control/work.rs).
-- Lease: rust/worker/src/lease.rs. `from_grant`, `remaining_at`, `phase_deadline_at`, `now`.
-- Renewal: rust/worker/src/control/renew.rs. `validate_request`, `decode_renewals`, `renew`.
-- Supervisor: rust/worker/src/supervisor.rs. A `Channel` is the state that both ends of
--   `authority_channel` share, with the refresh counters; each method is a function on it. `Call` in
--   Supervisor/Stop is any call by the holder of an end, and `run` a sequence of them. Watch is the
--   supervision of a container (`while_live`, `supervise_running`) and its termination.
-- Maintain: rust/worker/src/control/renew/maintain.rs. Batch is one round's parts, Loop the loop;
--   calls of other holders come between a round's request and its reply.
-- Session: rust/worker/src/control.rs. `register` and `heartbeat`.
-- Phase: rust/worker/src/control/phase.rs. `report_phase`.
-- Log: rust/worker/src/log_format.rs (Format), log_summary.rs (Summary), log_capture.rs (Capture),
--   log_spool.rs (Spool), log_assembler.rs (Assembler); Decode is the server's reader of segments,
--   internal/logformat/logformat.go.
-- Upload: rust/worker/src/control/uploads.rs. `create_upload`, `finalize_upload`,
--   `grant_upload_part` and their checks; Scope is about the keys of objects, Plan about their parts.
-- Registration: rust/worker/src/control/logs.rs. `register_log_segment`.
-- Evidence: rust/worker/src/control/completion_payload.rs. `completion_digest`; Bound and Binding say what
--   it admits and what it binds, Message reads the hashed message back.
-- Completion: rust/worker/src/control/completion.rs. `complete_attempt`.
-- Execution, Shape: rust/worker/src/execution.rs. `from_assignment`, `check_shape`.
-- Journal: rust/worker/src/journal.rs, journal/uploads.rs, journal/uploads/multipart.rs and
--   journal/logs.rs. Records has the stored messages, Store loads and saves them over the interface
--   `Directory`. Files, with Framing, is journal/files.rs, where the state holds what the file system
--   answers, what is synced, and the call at which a replacement fails; Crash is a crash of the machine,
--   Durable, Refusal and Recovery show what the directory promises, and Disk fills the interface with
--   it. Validity, Uploads and Segments check a record, and Attempts,
--   Outputs and Logs have the operations, each a change of a record between `required` and `save`.
--   Advances and Kept say what goes on from what, Steps, OutputSteps, PartSteps and LogSteps that the
--   changes do, Holds, UploadCalls and Calls that sequences of calls do. Summary is `summarize` of
--   log_summary.rs on a record's segments, and Claimed what it answers.
-- Tests: the theorems at concrete inputs.
--
-- Every clock reading, random identifier and reply of the server is an argument, so a theorem holds
-- for all of them. What the file system answers the journal is part of the directory's state: for
-- each entry whether its metadata and its reading succeed, for the root its checks and its listing,
-- of which an error is met before any entry is tested, and for each replacement the call that fails.
-- These answers stay until the state says otherwise, and a file that the writer has just put in
-- place can be read. Where a function reads the clock once for each of a list, the readings are a
-- function of how many are left. SHA-256 (crate `ring`) and the parser of the server's `uuid`
-- package are parameters; of the parser the round trip assumes only that it leaves a canonical
-- identifier as it is. A `Duration` is its number of nanoseconds and a `usize` a number; the widths
-- that the code checks or that wrap are written out. The stream of a gap is read as its code on the
-- wire, which is not negative. The fuel of the decoder and of `chunks` is the number of bytes they
-- are given; each step takes at least one.
--
-- The encodings of prost and serde are parameters, too: of prost the journal relies on decoding what
-- was encoded.
--
-- Not modelled: the journal's session and its lock, the decoding of assignments, finalization, the
-- agent, datasets, outputs and log delivery; the container runtime, transfers and start-up, which only
-- call other systems; the server in Go apart from its segment reader, and generated code.
mod Base
pub mod Control
pub mod Lease
pub mod Renewal
pub mod Supervisor
pub mod Maintain
pub mod Session
pub mod Phase
pub mod Log
pub mod Upload
pub mod Registration
pub mod Evidence
pub mod Completion
pub mod Shape
pub mod Execution
pub mod Journal
mod Tests
