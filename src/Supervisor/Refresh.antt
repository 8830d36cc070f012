-- ===== src/Supervisor/Refresh.antt =====
-- `refresh` of rust/worker/src/supervisor.rs, from its beginning to a round of its loop.
use distributed_execution.Base.{ℕ, ◌+◌, ◌<◌, ◌≤◌, ◌≡◌, false, some, ok, arith}
use distributed_execution.Lease.{AuthorityWindow}
use distributed_execution.Supervisor.{
  Reading, Channel, Receiver, live_window, begin_refresh, poll_refresh,
}

begin_refresh_revision :
    (c : Channel) (r : Receiver) (t : Reading) (revision : ℕ)
    → (begin_refresh c r t).0 ≡ ok revision
    → revision ≡ c.requested + 1
unfolding begin_refresh
begin_refresh_revision c r t revision e = ground arith

poll_refresh_window :
    (revision : ℕ) (c : Channel) (r : Receiver) (t u v : Reading) (w : AuthorityWindow)
    → (poll_refresh revision c r t u v).0 ≡ some (ok w)
    → (revision ≤ c.acknowledged) × (c.state ≡ live_window w) × (c.abandoned ≡ false)
unfolding poll_refresh
poll_refresh_window revision c r t u v w e = ground arith

-- A refresh that was begun on a channel returns a window only where the channel has acknowledged
-- more than all that was asked for before, holds that very window and has a sender left.
pub begin_refresh-poll_refresh :
    (c c' : Channel) (r r' : Receiver) (t t' u v : Reading) (revision : ℕ) (w : AuthorityWindow)
    → (begin_refresh c r t).0 ≡ ok revision
    → (poll_refresh revision c' r' t' u v).0 ≡ some (ok w)
    → (c.requested < c'.acknowledged) × (c'.state ≡ live_window w) × (c'.abandoned ≡ false)
begin_refresh-poll_refresh c c' r r' t t' u v revision w b p =
    let rev = begin_refresh_revision c r t revision b in
    let (le, held, sender) = poll_refresh_window revision c' r' t' u v w p in
    (omega arith, held, sender)
