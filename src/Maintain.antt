-- ===== src/Maintain.antt =====
-- rust/worker/src/control/renew/maintain.rs: the loop that renews one batch of attempts.
-- A round is one pass of the loop. What it gets from outside is an argument: the identity that
-- `new_uuid` made, the clock's readings, the calls that other holders of the channels make while
-- the request is under way, and the reply (`deadline` when the call timed out).
pub mod Batch
pub mod Loop
pub mod Barrier
