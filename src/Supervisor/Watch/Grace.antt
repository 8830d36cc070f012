-- ===== src/Supervisor/Watch/Grace.antt =====
-- The time that `terminate_requested` of rust/worker/src/supervisor.rs may take.
use distributed_execution.Base.{ℕ, ◌≤◌, ◌<◌, max, arith}
use distributed_execution.Lease.{from_secs}
use distributed_execution.Supervisor.Watch.{grace_of, timeouts}

-- The grace is what was asked for or less, five minutes at most, and with the timeouts of the stop,
-- the kill and the inspection it ends within the authority that remains; without a grace the two
-- calls take ten seconds at most.
pub timeouts_within_authority :
    (requested_grace remaining_time : ℕ)
    → (grace_of requested_grace remaining_time ≤ requested_grace)
      × (grace_of requested_grace remaining_time ≤ 300)
      × (0 < grace_of requested_grace remaining_time
          → timeouts requested_grace remaining_time ≤ remaining_time)
      × (timeouts requested_grace remaining_time ≤ max remaining_time (from_secs 10))
unfolding timeouts grace_of
timeouts_within_authority requested_grace remaining_time = ground arith
