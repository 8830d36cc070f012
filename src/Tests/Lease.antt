-- ===== src/Tests/Lease.antt =====
-- A grant of fifteen seconds, sent at two seconds and received at three.
use distributed_execution.Base.{◌+◌, ◌≤◌, ◌<◌, ◌≡◌, ◌↔◌, refl, ok}
use distributed_execution.Lease.{AuthorityWindow, from_secs, from_millis, from_grant, remaining_at}
use distributed_execution.Lease.Laws.{IsGranted, from_grant_iff, remaining_at_within_grant}

abbrev granted : AuthorityWindow
granted = record { sent = from_secs 2; deadline = from_secs 12 }

from_grant_iff_example :
    (from_grant (from_secs 2) (from_secs 3) 15_000 60_000 ≡ ok granted)
    ↔ IsGranted (from_secs 2) (from_secs 3) 15_000 60_000 granted
from_grant_iff_example = from_grant_iff (from_secs 2) (from_secs 3) 15_000 60_000 granted

remaining_at_within_grant_example :
    (from_secs 2 ≤ from_secs 4)
    × (0 < from_secs 8)
    × (from_secs 4 + from_secs 8 + from_secs 5 ≤ from_secs 2 + from_millis 15_000)
    × (from_secs 4 + from_secs 8 ≤ from_secs 2 + from_millis 60_000)
    × (from_secs 4 + from_secs 8 ≤ from_secs 2 + from_secs 25)
unfolding from_grant remaining_at
remaining_at_within_grant_example =
    remaining_at_within_grant (from_secs 2) (from_secs 3) 15_000 60_000 (from_secs 4) (from_secs 8)
      granted refl refl
