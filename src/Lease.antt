-- ===== src/Lease.antt =====
-- rust/worker/src/lease.rs: how long a grant of the server may be used.
-- A `Duration` is its number of nanoseconds; `MonoTime` is a `Duration`.
pub mod Laws
use distributed_execution.Base.{
  ℕ, ◌+◌, ◌-◌, ◌*◌, min, Bool, ◌&&◌, ◌||◌, not, Option, none, some, ltb, leb, ◌==◌, if◌then◌else◌,
  Result, ok, err, ◌>>=◌, ok_or, checked_sub, ℤ, pos,
}

abbrev pub MonoTime : Type 0
MonoTime = ℕ

abbrev pub from_secs : ℕ → ℕ
from_secs s = s * 1_000_000_000

abbrev pub from_millis : ℕ → ℕ
from_millis ms = ms * 1_000_000

-- `Duration::MAX`: u64::MAX seconds and 999,999,999 nanoseconds.
abbrev pub duration_max : ℕ
duration_max = 18_446_744_073_709_551_615_999_999_999

-- `Duration::checked_add`
abbrev pub add_duration : ℕ → ℕ → Option ℕ
add_duration a b = if leb (a + b) duration_max then some (a + b) else none

pub data LeaseError : Type 0 where
  invalid clock expired : LeaseError

-- What `clock_gettime` gave: whether it returned 0, and the fields of the timespec.
pub record Timespec : Type 0 where
  pub succeeded : Bool
  pub tv_sec : ℤ
  pub tv_nsec : ℤ

reading : Bool → ℤ → ℤ → Result LeaseError MonoTime
reading succeeded (pos sec) (pos nsec) =
    if not succeeded || leb 1_000_000_000 nsec then err clock else ok (from_secs sec + nsec)
reading succeeded _ _ = err clock

pub now : Timespec → Result LeaseError MonoTime
unfolding reading
now t = reading t.succeeded t.tv_sec t.tv_nsec

pub record AuthorityWindow : Type 0 where
  pub sent : MonoTime
  pub deadline : MonoTime

unfoldable pub remaining_at : AuthorityWindow → MonoTime → Result LeaseError ℕ
remaining_at w t =
    if ltb t w.sent
    then err clock
    else if leb w.deadline t
    then err expired
    else ok (w.deadline - t)

-- `remaining`, over what the clock gives at the call.
unfoldable pub remaining : AuthorityWindow → Result LeaseError MonoTime → Result LeaseError ℕ
unfolding remaining_at
remaining w clock_now = clock_now >>= remaining_at w

unfoldable pub from_grant : MonoTime → MonoTime → ℕ → ℕ → Result LeaseError AuthorityWindow
unfolding remaining_at
from_grant sent received lease_ms phase_ms =
    if ltb received sent
    then err clock
    else if lease_ms == 0 || ltb 30_000 lease_ms || phase_ms == 0 || ltb 604_800_000 phase_ms
    then err invalid
    else do
      usable_lease ← ok_or (checked_sub lease_ms 5_000) expired
      let duration = from_millis (min usable_lease phase_ms)
      deadline ← ok_or (add_duration sent duration) invalid
      let window : AuthorityWindow = record { sent = sent; deadline = deadline }
      _ ← remaining_at window received
      ok window

-- `PhaseDeadline::at`
pub phase_deadline_at : MonoTime → ℕ → Result LeaseError AuthorityWindow
phase_deadline_at sent seconds =
    if not (leb 1 seconds && leb seconds 604_800) then err invalid else do
      deadline ← ok_or (add_duration sent (from_secs seconds)) invalid
      ok (record { sent = sent; deadline = deadline })
