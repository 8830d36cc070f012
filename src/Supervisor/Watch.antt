-- ===== src/Supervisor/Watch.antt =====
-- rust/worker/src/supervisor.rs: a container is watched under its authority, and stopped.
-- The runtime is a parameter of every call: what it answers is an argument.
pub mod Grace
pub mod Watching
use distributed_execution.Base.{
  ℕ, ◌+◌, ◌-◌, ◌*◌, ◌/◌, ◌==◌, ◌&&◌, ◌||◌, min, leb, ltb, not, if◌then◌else◌, Bool, true, false,
  Option, none, some, List, [], ◌∷◌, Result, ok, err, ℤ, pos, negsuc,
}
use distributed_execution.Control.{Decision, stop_requested}
use distributed_execution.Lease.{from_secs, remaining}
use distributed_execution.Supervisor.{
  Reading, Channel, Receiver, StopReason, rejected_by, runtime_unavailable, check,
  remaining_for_cleanup,
}
use distributed_execution.Supervisor.Stop.{Call, run}

pub data ContainerState : Type 0 where
  created running_state paused restarting removing stopping exited dead : ContainerState

pub record ContainerStatus : Type 0 where
  pub running : Bool
  pub exit_code : Option ℤ
  pub oom_killed : Bool
  pub state : ContainerState

-- `daemon` with the HTTP status.
pub data RuntimeError : Type 0 where
  configuration_error unsupported identity_error authority_error : RuntimeError
  deadline_error transport : RuntimeError
  daemon : ℕ → RuntimeError
  terminal inventory_limit : RuntimeError

-- One turn of the loop of `while_live`: the reading of the check, what others call before the
-- `select!` returns, and, if it returns by the operation, its result and the second check's reading.
pub record Turn (A : Type 0) : Type 0 where
  pub checked_at : Reading
  pub others : List Call
  pub finished : Option (A × Reading)

-- `none`: it still waits after these turns.
pub record Waited (A : Type 0) : Type 0 where
  pub outcome : Option (Result StopReason A)
  pub channel : Channel
  pub receiver : Receiver

-- The second check of a turn.
abbrev finish_turn : {A : Type 0} → Channel → A → Result StopReason ℕ × Receiver → Waited A
finish_turn c a (err reason, r) = record { outcome = some (err reason); channel = c; receiver = r }
finish_turn c a (ok left, r) = record { outcome = some (ok a); channel = c; receiver = r }

unfoldable while_live : {A : Type 0} → Channel → Receiver → List (Turn A) → Waited A
unfolding check
while_live c r [] = record { outcome = none; channel = c; receiver = r }
while_live c r (t ∷ ts) =
    let (left, r') = check c r t.checked_at in
    let c' = run c t.others in
    let later = while_live c' r' ts in
    elim left [
      | err reason ↦ record { outcome = some (err reason); channel = c; receiver = r' }
      | ok _ ↦ elim t.finished [ none ↦ later | some (a, u) ↦ finish_turn c' a (check c' r' u) ]
    ]

abbrev is_final : ContainerState → Bool
is_final exited = true
is_final dead = true
is_final _ = false

abbrev is_exit_code : Option ℤ → Bool
is_exit_code (some (pos n)) = leb n 255
is_exit_code _ = false

-- What an inspection means for the loop.
pub data Verdict : Type 0 where
  container_exited : ContainerStatus → Verdict
  keeps_running : Verdict
  breaks : StopReason → Verdict

abbrev pub judge : Result StopReason (Result RuntimeError ContainerStatus) → Verdict
judge (err reason) = breaks reason
judge (ok (err e)) = breaks runtime_unavailable
judge (ok (ok status)) =
    if is_final status.state && not status.running && is_exit_code status.exit_code
    then container_exited status
    else if status.running
    then keeps_running
    else breaks runtime_unavailable

-- One pass of the loop of `supervise_running`: the turns of the inspection, and of the sleep.
pub record Pass : Type 0 where
  pub inspects : List (Turn (Result RuntimeError ContainerStatus))
  pub sleeps : List (Turn (Unit {0}))

-- Where the loop is: it waits for the runtime or for the next pass, or it has been left.
pub data Watched : Type 0 where
  waiting : Channel → Receiver → Watched
  ended : ContainerStatus → Channel → Receiver → Watched
  broke : StopReason → Channel → Receiver → Watched

-- Behind the sleep: the next pass.
abbrev after_sleep : Option (Result StopReason (Unit {0})) → Channel → Receiver → Watched → Watched
after_sleep none c r next = waiting c r
after_sleep (some (err reason)) c r next = broke reason c r
after_sleep (some (ok slept)) c r next = next

-- Behind the inspection.
abbrev after_inspect : Verdict → Channel → Receiver → Watched → Watched
after_inspect (container_exited status) c r next = ended status c r
after_inspect (breaks reason) c r next = broke reason c r
after_inspect keeps_running c r next = next

abbrev when_inspected :
    Option (Result StopReason (Result RuntimeError ContainerStatus))
    → Channel
    → Receiver
    → Watched
    → Watched
when_inspected none c r next = waiting c r
when_inspected (some inspected) c r next = after_inspect (judge inspected) c r next

-- The loop of `supervise_running`.
unfoldable pub watch : Channel → Receiver → List Pass → Watched
unfolding while_live
watch c r [] = waiting c r
watch c r (p ∷ ps) =
    let w = while_live c r p.inspects in
    let v = while_live w.channel w.receiver p.sleeps in
    let next = watch v.channel v.receiver ps in
    when_inspected w.outcome w.channel w.receiver (after_sleep v.outcome v.channel v.receiver next)

-- Five seconds for each call of the runtime.
abbrev pub cleanup_budget : ℕ
cleanup_budget = from_secs 5

-- `inspected` is the answer of the inspection behind the kill, `none` if it timed out.
unfoldable pub terminate : Option (Result RuntimeError ContainerStatus) → Bool
terminate none = false
terminate (some (ok status)) = not status.running && is_final status.state
terminate (some (err (daemon code))) = code == 404
terminate (some (err e)) = false

-- The grace that is left for a stop: whole seconds, 300 at most.
unfoldable pub grace_of : ℕ → ℕ → ℕ
grace_of requested_grace remaining_time =
    let available = remaining_time - cleanup_budget * 3 in
    min requested_grace (min (available / from_secs 1) 300)

-- `stopped_by` is the answer of `stop`, `none` if it timed out.
unfoldable pub terminate_requested :
    ℕ
    → ℕ
    → Option (Result RuntimeError (Unit {0}))
    → Option (Result RuntimeError ContainerStatus)
    → Bool
unfolding grace_of terminate
terminate_requested requested_grace remaining_time stopped_by inspected =
    if ltb 0 (grace_of requested_grace remaining_time)
    then elim stopped_by [
      | some (ok done) ↦ true
      | some (err e) ↦ terminate inspected
      | none ↦ terminate inspected
    ]
    else terminate inspected

-- The timeouts of the calls of `terminate_requested` in a row: that of the stop, if there is a
-- grace, of the kill and of the inspection.
unfoldable pub timeouts : ℕ → ℕ → ℕ
unfolding grace_of
timeouts requested_grace remaining_time =
    let grace = grace_of requested_grace remaining_time in
    if ltb 0 grace then from_secs grace + cleanup_budget * 3 else cleanup_budget * 2

abbrev is_stop_requested : StopReason → Bool
is_stop_requested (rejected_by stop_requested) = true
is_stop_requested _ = false

pub data SupervisionOutcome : Type 0 where
  exited_with : ContainerStatus → SupervisionOutcome
  stopped_for : StopReason → (confirmed : Bool) → SupervisionOutcome

-- Behind the loop: `none` while it goes on. The reading is that of `remaining_for_cleanup`.
unfoldable pub supervise_running :
    Channel
    → Receiver
    → List Pass
    → Reading
    → Option (Result RuntimeError (Unit {0}))
    → Option (Result RuntimeError ContainerStatus)
    → Option SupervisionOutcome
unfolding watch terminate terminate_requested remaining_for_cleanup
supervise_running c r passes t stopped_by inspected = elim (watch c r passes) [
  | waiting c' r' ↦ none
  | ended status c' r' ↦ some (exited_with status)
  | broke reason c' r' ↦
      if is_stop_requested reason
      then some (
          stopped_for reason
            (terminate_requested 10 (remaining_for_cleanup r' t) stopped_by inspected))
      else some (stopped_for reason (terminate inspected))
]
