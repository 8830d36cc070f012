-- ===== src/Lease/Laws.antt =====
-- What a window of rust/worker/src/lease.rs grants.
use distributed_execution.Base.{ℕ, ◌+◌, ◌-◌, ◌≤◌, ◌<◌, min, ◌≡◌, ◌↔◌, ok, err, arith}
use distributed_execution.Lease.{
  MonoTime, AuthorityWindow, expired, remaining_at, from_grant, duration_max, from_millis,
  phase_deadline_at, from_secs,
}

-- The windows that a grant of `lease_ms` and `phase_ms` may open, read off the documents: the
-- lease keeps a margin of five seconds, and both terms run from the time the request was sent.
pub record IsGranted (sent received lease_ms phase_ms : ℕ) (w : AuthorityWindow) : Type 0 where
  pub ordered : sent ≤ received
  pub lease_low : 5_000 ≤ lease_ms
  pub lease_high : lease_ms ≤ 30_000
  pub phase_low : 1 ≤ phase_ms
  pub phase_high : phase_ms ≤ 604_800_000
  pub opens : w.sent ≡ sent
  pub closes : w.deadline ≡ sent + from_millis (min (lease_ms - 5_000) phase_ms)
  pub fits : w.deadline ≤ duration_max
  pub unspent : received < w.deadline

from_grant-IsGranted :
    (sent received lease_ms phase_ms : ℕ) (w : AuthorityWindow)
    → from_grant sent received lease_ms phase_ms ≡ ok w
    → IsGranted sent received lease_ms phase_ms w
unfolding from_grant
from_grant-IsGranted sent received lease_ms phase_ms w h = ground arith

IsGranted-from_grant :
    (sent received lease_ms phase_ms : ℕ) (w : AuthorityWindow)
    → IsGranted sent received lease_ms phase_ms w
    → from_grant sent received lease_ms phase_ms ≡ ok w
unfolding from_grant
IsGranted-from_grant sent received lease_ms phase_ms w h = ground arith

-- A grant opens a window exactly when its terms are in range, the reply did not come before the
-- request, the deadline is representable and lies after the reply; the window then runs from the
-- time of sending to the earlier of the lease less five seconds and the phase's end.
pub from_grant_iff :
    (sent received lease_ms phase_ms : ℕ) (w : AuthorityWindow)
    → (from_grant sent received lease_ms phase_ms ≡ ok w)
      ↔ IsGranted sent received lease_ms phase_ms w
from_grant_iff sent received lease_ms phase_ms w = (
  from_grant-IsGranted sent received lease_ms phase_ms w,
  IsGranted-from_grant sent received lease_ms phase_ms w,
)

-- However late the reply and whenever the window is read: where anything is left of it, that is
-- not before the sending, and what is left is some time that ends five seconds before the lease
-- does, no later than the phase and within 25 seconds, all counted from the sending.
pub remaining_at_within_grant :
    (sent received lease_ms phase_ms t d : ℕ) (w : AuthorityWindow)
    → from_grant sent received lease_ms phase_ms ≡ ok w
    → remaining_at w t ≡ ok d
    → (sent ≤ t)
      × (0 < d)
      × (t + d + from_secs 5 ≤ sent + from_millis lease_ms)
      × (t + d ≤ sent + from_millis phase_ms)
      × (t + d ≤ sent + from_secs 25)
unfolding remaining_at
remaining_at_within_grant sent received lease_ms phase_ms t d w h r =
    let g = from_grant-IsGranted sent received lease_ms phase_ms w h in ground arith

-- The same grant read at two times of receipt opens the same window, or none: a delayed or
-- repeated reply adds no time.
pub from_grant-receipt :
    (sent early late lease_ms phase_ms : ℕ) (v w : AuthorityWindow)
    → early ≤ late
    → from_grant sent late lease_ms phase_ms ≡ ok w
    → (sent ≤ early → from_grant sent early lease_ms phase_ms ≡ ok w)
      × (from_grant sent early lease_ms phase_ms ≡ ok v → v ≡ w)
unfolding from_grant
from_grant-receipt sent early late lease_ms phase_ms v w h k = ground arith

-- Once a window has run out it stays so, and while it is open what is left falls as time passes.
pub remaining_at_declines :
    (w : AuthorityWindow) (t u : MonoTime)
    → t ≤ u
    → (remaining_at w t ≡ err expired → remaining_at w u ≡ err expired)
      × ((d e : ℕ) → remaining_at w t ≡ ok d → remaining_at w u ≡ ok e → e + (u - t) ≡ d)
unfolding remaining_at
remaining_at_declines w t u h = (ground arith, λ d e p q. ground arith)

-- A phase's own bound is opened exactly for one second to one week, when it is representable, and
-- then runs that long from its start.
pub phase_deadline_at_iff :
    (sent seconds : ℕ) (w : AuthorityWindow)
    → (phase_deadline_at sent seconds ≡ ok w) ↔ (
        (1 ≤ seconds)
        × (seconds ≤ 604_800)
        × (sent + from_secs seconds ≤ duration_max)
        × (w.sent ≡ sent)
        × (w.deadline ≡ sent + from_secs seconds))
unfolding phase_deadline_at
phase_deadline_at_iff sent seconds w = (λ h. ground arith, λ h. ground arith)
