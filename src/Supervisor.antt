-- ===== src/Supervisor.antt =====
-- rust/worker/src/supervisor.rs: the authority that a renewal task and a running container
-- share, and the supervision of the container.
-- A channel is the state behind `watch::Sender<AuthorityState>` and the `Arc<RefreshState>`; a
-- clone of either end is the same channel. A call that reads the clock takes its readings.
pub mod Stop
pub mod Apply
pub mod Expiry
pub mod Refresh
pub mod Watch
use distributed_execution.Base.{
  ℕ, suc, ◌+◌, ◌-◌, ◌*◌, ◌/◌, min, max, Bool, true, false, not, ◌&&◌, ◌||◌, ◌==◌, ltb, leb,
  if◌then◌else◌, Option, none, some, List, [], ◌∷◌, Result, ok, err, ◌>>=◌, ◌>>◌, guard, map_err,
  is_ok, u64_max, i64_max,
}
use distributed_execution.Control.{
  ends_attempt, AttemptAuthority, authority_eq, canonical_uuid, Decision, accepted, fenced,
  stop_requested, already_terminal, decision_unspecified,
}
use distributed_execution.Lease.{MonoTime, AuthorityWindow, LeaseError, remaining}
use distributed_execution.Renewal.{RenewalOutcome, renewed, rejected, lapsed}

abbrev pub Reading : Type 0
Reading = Result LeaseError MonoTime

pub data StopReason : Type 0 where
  authority_expired : StopReason
  rejected_by : Decision → StopReason
  controller_lost renewal_failed runtime_unavailable : StopReason

pub data AuthorityState : Type 0 where
  live_window : AuthorityWindow → AuthorityState
  stopped : StopReason → AuthorityState

pub data AuthorityUpdateError : Type 0 where
  identity_mismatch invalid_decision update_expired : AuthorityUpdateError

-- `closed`: every receiver is dropped. `abandoned`: every sender is.
pub record Channel : Type 0 where
  pub identity : AttemptAuthority
  pub state : AuthorityState
  pub closed : Bool
  pub abandoned : Bool
  pub requested : ℕ
  pub acknowledged : ℕ

unfoldable pub live : AuthorityState → Reading → Result StopReason ℕ
unfolding remaining
live (stopped reason) t = err reason
live (live_window w) t = map_err (λ e. authority_expired) (remaining w t)

pub authority_channel :
    AttemptAuthority → AuthorityWindow → Reading → Result AuthorityUpdateError Channel
authority_channel identity window t = do
  guard
      (canonical_uuid identity.worker_id
        && canonical_uuid identity.session_id
        && canonical_uuid identity.job_id
        && canonical_uuid identity.attempt_id
        && not (identity.generation == 0)
        && not (ltb i64_max identity.generation))
      identity_mismatch
  _ ← map_err (λ e. update_expired) (remaining window t)
  ok (record {
    identity = identity;
    state = live_window window;
    closed = false;
    abandoned = false;
    requested = 0;
    acknowledged = 0;
  })

abbrev is_live : AuthorityState → Bool
is_live (live_window w) = true
is_live (stopped reason) = false

-- The closure of `send_if_modified`; the two readings are those of its calls of `live`.
next_state : AuthorityState → AuthorityState → Reading → Reading → AuthorityState
unfolding live
next_state (stopped reason) next t u = stopped reason
next_state (live_window w) next t u =
    if not (is_ok (live (live_window w) t)) || not (is_ok (live next u)) && is_live next
    then stopped authority_expired
    else next

unfoldable pub update :
    Channel
    → AttemptAuthority
    → AuthorityState
    → Reading
    → Reading
    → Result AuthorityUpdateError Channel
unfolding next_state
update c identity next t u = do
  guard (authority_eq identity c.identity) identity_mismatch
  ok (record c { state = next_state c.state next t u })

unfoldable pub apply :
    Channel → RenewalOutcome → Reading → Reading → Result AuthorityUpdateError Channel
unfolding update
apply c (renewed grant) t u = update c grant.identity (live_window grant.authority) t u
apply c (lapsed identity) t u = update c identity (stopped authority_expired) t u
apply c (rejected identity decision) t u =
    if ends_attempt decision
    then update c identity (stopped (rejected_by decision)) t u
    else err invalid_decision

-- A method that drops the error leaves the channel alone on it.
abbrev pub or_unchanged : Channel → Result AuthorityUpdateError Channel → Channel
or_unchanged c (ok d) = d
or_unchanged c (err e) = c

unfoldable pub stop : Channel → StopReason → Reading → Channel
unfolding update
stop c reason t = or_unchanged c (update c c.identity (stopped reason) t t)

unfoldable pub active : Channel → Reading → Bool
unfolding live
active c t = not c.closed && is_ok (live c.state t)

unfoldable pub needs_refresh : Channel → Reading → Bool
unfolding active
needs_refresh c t = active c t && ltb c.acknowledged c.requested

-- `fetch_max`
unfoldable pub acknowledge_refresh : Channel → ℕ → Channel
acknowledge_refresh c revision = record c { acknowledged = max c.acknowledged revision }

-- The receiving end: the last window that it saw.
pub record Receiver : Type 0 where
  pub last_window : AuthorityWindow

abbrev see_window : AuthorityState → Receiver → Receiver
see_window (live_window w) r = record { last_window = w }
see_window (stopped reason) r = r

abbrev checked_state : AuthorityState → Bool → Reading → Result StopReason ℕ
checked_state (stopped reason) abandoned t = err reason
checked_state (live_window w) abandoned t =
    if abandoned then err controller_lost else live (live_window w) t

unfoldable pub check : Channel → Receiver → Reading → Result StopReason ℕ × Receiver
unfolding live
check c r t = (checked_state c.state c.abandoned t, see_window c.state r)

abbrev then_window :
    AuthorityState → Result StopReason ℕ → Reading → Result StopReason AuthorityWindow
then_window state (err reason) u = err reason
then_window (stopped reason) (ok d) u = err reason
then_window (live_window w) (ok d) u = do _ ← map_err (λ e. authority_expired) (remaining w u); ok w

-- `window`, with the readings of `check` and of its own call of `remaining`.
unfoldable pub window :
    Channel → Receiver → Reading → Reading → Result StopReason AuthorityWindow × Receiver
unfolding check remaining
window c r t u = let (left, r') = check c r t in (then_window c.state left u, r')

-- `refresh` up to its loop: the revision to wait for. `fetch_update` with `checked_add`.
abbrev request_revision : Channel → Result StopReason ℕ → Result StopReason ℕ × Channel
request_revision c (err reason) = (err reason, c)
request_revision c (ok d) =
    if leb (c.requested + 1) u64_max
    then (ok (c.requested + 1), record c { requested = c.requested + 1 })
    else (err renewal_failed, c)

unfoldable pub begin_refresh :
    Channel → Receiver → Reading → Result StopReason ℕ × Channel × Receiver
unfolding check
begin_refresh c r t =
    let (left, r') = check c r t in
    let (revision, c') = request_revision c left in (revision, c', r')

abbrev refresh_ready :
    Bool
    → Channel
    → Receiver
    → Result StopReason ℕ
    → Reading
    → Reading
    → Option (Result StopReason AuthorityWindow) × Receiver
refresh_ready reached c r (err reason) t u = (some (err reason), r)
refresh_ready true c r (ok d) t u = let (w, r') = window c r t u in (some w, r')
refresh_ready false c r (ok d) t u = (none, r)

-- One round of the loop of `refresh`: `none` when it waits on.
unfoldable pub poll_refresh :
    ℕ
    → Channel
    → Receiver
    → Reading
    → Reading
    → Reading
    → Option (Result StopReason AuthorityWindow) × Receiver
unfolding check window
poll_refresh revision c r t u v =
    let (left, r') = check c r t in refresh_ready (leb revision c.acknowledged) c r' left u v

-- `remaining_for_cleanup`, where an error counts as no time.
unfoldable pub remaining_for_cleanup : Receiver → Reading → ℕ
unfolding remaining
remaining_for_cleanup r t = elim (remaining r.last_window t) [ ok d ↦ d | err e ↦ 0 ]
