-- ===== src/Supervisor/Stop.antt =====
-- The calls on a channel of rust/worker/src/supervisor.rs, in any sequence.
use distributed_execution.Base.{ℕ, ◌≡◌, true, List, [], ◌∷◌, arith}
use distributed_execution.Renewal.{RenewalOutcome, renewed, rejected, lapsed}
use distributed_execution.Supervisor.{
  Reading, Channel, Receiver, StopReason, stopped, apply, or_unchanged, stop, acknowledge_refresh,
  begin_refresh,
}

-- The calls that change a channel, by whoever holds an end of it.
pub data Call : Type 0 where
  applies : RenewalOutcome → Reading → Reading → Call
  stops : StopReason → Reading → Call
  acknowledges : ℕ → Call
  refreshes : Receiver → Reading → Call
  closes abandons : Call

unfoldable pub step : Channel → Call → Channel
unfolding apply stop acknowledge_refresh begin_refresh
step c (applies outcome t u) = or_unchanged c (apply c outcome t u)
step c (stops reason t) = stop c reason t
step c (acknowledges revision) = acknowledge_refresh c revision
step c (refreshes r t) = (begin_refresh c r t).1
step c closes = record c { closed = true }
step c abandons = record c { abandoned = true }

unfoldable pub run : Channel → List Call → Channel
run c [] = c
run c (call ∷ calls) = run (step c call) calls

step-stopped :
    (c : Channel) (call : Call) (reason : StopReason)
    → c.state ≡ stopped reason
    → (step c call).state ≡ stopped reason
unfolding step
step-stopped c (applies (renewed grant) t u) reason h = ground arith
step-stopped c (applies (rejected identity decision) t u) reason h = ground arith
step-stopped c (applies (lapsed identity) t u) reason h = ground arith
step-stopped c (stops why t) reason h = ground arith
step-stopped c (acknowledges revision) reason h = h
step-stopped c (refreshes r t) reason h = ground arith
step-stopped c closes reason h = h
step-stopped c abandons reason h = h

-- The first reason to stop is final: no later renewal, rejection, stop or refresh changes it.
pub run-stopped :
    (c : Channel) (calls : List Call) (reason : StopReason)
    → c.state ≡ stopped reason
    → (run c calls).state ≡ stopped reason
unfolding run
run-stopped c [] reason h = h
run-stopped c (call ∷ calls) reason h =
    run-stopped (step c call) calls reason (step-stopped c call reason h)
