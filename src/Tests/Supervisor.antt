-- ===== src/Tests/Supervisor.antt =====
-- A channel whose window runs from two seconds to twelve.
use distributed_execution.Base.{
  true, max, some, none, pos, ◌≤◌, bytes_eq, ◌≡◌, ◌<◌, refl, List, [], ◌∷◌, false, ok, arith,
}
use distributed_execution.Control.{fenced, authority_eq}
use distributed_execution.Lease.{from_secs}
use distributed_execution.Renewal.{RenewalOutcome, renewed}
use distributed_execution.Supervisor.{
  live_window, begin_refresh, poll_refresh, Receiver, Channel, active, stopped, rejected_by,
  controller_lost,
}
use distributed_execution.Supervisor.Refresh.{begin_refresh-poll_refresh}
use distributed_execution.Supervisor.Stop.{
  Call, applies, stops, acknowledges, step, run, run-stopped,
}
use distributed_execution.Supervisor.Expiry.{lapsed_never_revives, active_before_grants_end}
use distributed_execution.Supervisor.Watch.{
  ContainerStatus, exited, running_state, Pass, watch, grace_of, timeouts,
}
use distributed_execution.Supervisor.Watch.Grace.{timeouts_within_authority}
use distributed_execution.Supervisor.Watch.Watching.{AcceptedIn, ended_before_grants_end}
use distributed_execution.Tests.Samples.{identity, granted, channel}

abbrev renewal : RenewalOutcome
renewal = renewed (record {
  identity = identity;
  authority = record { sent = from_secs 8; deadline = from_secs 30 };
})

abbrev stopped_channel : Channel
stopped_channel = record channel { state = stopped (rejected_by fenced) }

abbrev late_calls : List Call
late_calls =
    applies renewal (ok (from_secs 12)) (ok (from_secs 12))
    ∷ stops controller_lost (ok (from_secs 13))
    ∷ acknowledges 1
    ∷ []

abbrev early_calls : List Call
early_calls = applies renewal (ok (from_secs 9)) (ok (from_secs 9)) ∷ acknowledges 1 ∷ []

run-stopped_example : (run stopped_channel late_calls).state ≡ stopped (rejected_by fenced)
run-stopped_example = run-stopped stopped_channel late_calls (rejected_by fenced) refl

-- The renewal comes at the very end of the window, too late.
lapsed_never_revives_example : active (run channel late_calls) (ok (from_secs 14)) ≡ false
lapsed_never_revives_example =
    lapsed_never_revives (from_secs 12) channel late_calls (ok (from_secs 14)) (omega arith)
      (omega arith, (omega arith, (tt, tt))) (omega arith)

active_before_grants_end_example : from_secs 20 < from_secs 30
unfolding run active step authority_eq bytes_eq
active_before_grants_end_example =
    active_before_grants_end (from_secs 30) (from_secs 20) channel early_calls (omega arith)
      ((λ e. omega arith), (tt, tt)) refl

timeouts_within_authority_example :
    (grace_of 10 (from_secs 20) ≤ 10)
    × (grace_of 10 (from_secs 20) ≤ 300)
    × (0 < grace_of 10 (from_secs 20) → timeouts 10 (from_secs 20) ≤ from_secs 20)
    × (timeouts 10 (from_secs 20) ≤ max (from_secs 20) (from_secs 10))
timeouts_within_authority_example = timeouts_within_authority 10 (from_secs 20)

abbrev exit_status : ContainerStatus
exit_status = record {
  running = false;
  exit_code = some (pos 0);
  oom_killed = false;
  state = exited;
}

-- The renewal arrives while the second inspection is under way.
abbrev passes : List Pass
passes =
    record {
      inspects =
          record {
            checked_at = ok (from_secs 3);
            others = [];
            finished = some (
              ok (record exit_status { running = true; state = running_state }),
              ok (from_secs 4),
            );
          }
          ∷ [];
      sleeps =
          record {
            checked_at = ok (from_secs 4);
            others = [];
            finished = some (tt, ok (from_secs 5));
          }
          ∷ [];
    }
    ∷ record {
      inspects =
          record { checked_at = ok (from_secs 6); others = early_calls; finished = none }
          ∷ record {
            checked_at = ok (from_secs 13);
            others = [];
            finished = some (ok exit_status, ok (from_secs 20));
          }
          ∷ [];
      sleeps = [];
    }
    ∷ []

abbrev receiver : Receiver
receiver = record { last_window = granted }

ended_before_grants_end_example : AcceptedIn (from_secs 30) exit_status passes
unfolding watch run step authority_eq bytes_eq
ended_before_grants_end_example =
    ended_before_grants_end (from_secs 30) identity channel receiver passes exit_status
      (run channel early_calls)
      (record { last_window = record { sent = from_secs 8; deadline = from_secs 30 } }) refl
      (omega arith) (((tt, tt), (tt, tt)), (((((λ e. omega arith), (tt, tt)), (tt, tt)), tt), tt))
      refl

-- The first refresh of the channel, and the channel once it is acknowledged.
abbrev refreshed : Channel
refreshed = record channel { requested = 2; acknowledged = 2 }

begin_refresh-poll_refresh_example :
    (1 < 2) × (refreshed.state ≡ live_window granted) × (false ≡ false)
unfolding begin_refresh poll_refresh
begin_refresh-poll_refresh_example =
    begin_refresh-poll_refresh channel refreshed receiver receiver (ok (from_secs 3))
      (ok (from_secs 4)) (ok (from_secs 4)) (ok (from_secs 4)) 2 granted refl refl
