-- ===== src/Maintain/Loop.antt =====
-- The loop of rust/worker/src/control/renew/maintain.rs over its rounds, up to its end.
-- The waits between two rounds (the period, the retry delay, an early wake by a refresh) only
-- decide when the next round starts, which its readings show.
pub mod Ending
pub mod Rounds
use distributed_execution.Base.{
  ℕ, zero, suc, Bool, false, not, ◌||◌, ltb, if◌then◌else◌, Option, none, some, List, [], ◌∷◌,
  length, is_empty, Bytes, Result, ok, err, ◌>>=◌, ◌>>◌, guard,
}
use distributed_execution.Control.{ClientError, configuration}
use distributed_execution.Renewal.{RenewalOutcome, validate_request}
use distributed_execution.Supervisor.{Reading, Channel, controller_lost}
use distributed_execution.Supervisor.Stop.{Call, step}
use distributed_execution.Maintain.Batch.{
  Pending, Prepared, returns, calls, prepare, ApplyReadings, Settled, repeats, settles, fails,
  settle, stop_all, any_active, batch_request,
}

-- The calls that other holders of the channels make, each on the channel at a position.
unfoldable pub interfere_one : List Channel → ℕ → Call → List Channel
interfere_one [] i call = []
interfere_one (c ∷ cs) zero call = step c call ∷ cs
interfere_one (c ∷ cs) (suc i) call = c ∷ interfere_one cs i call

unfoldable pub interfere : List Channel → List (ℕ × Call) → List Channel
unfolding interfere_one
interfere cs [] = cs
interfere cs ((i, call) ∷ others) = interfere (interfere_one cs i call) others

pub record Round : Type 0 where
  pub uuid : Option Bytes
  pub head_at : ℕ → Reading
  pub request_at : ℕ → Reading
  pub others : List (ℕ × Call)
  pub reply : Result ClientError (List RenewalOutcome)
  pub stop_at : ℕ → Reading
  pub apply_at : ℕ → ApplyReadings
  pub tail_at : ℕ → Reading

pub data Next : Type 0 where
  goes_on : List Channel → Option Pending → Next
  returned : List Channel → Result ClientError (Unit {0}) → Next

-- The test of the batch behind the `match` on the reply.
go_on_if_active : List Channel → Option Pending → (ℕ → Reading) → Next
go_on_if_active cs pending at =
    if not (any_active cs at) then returned cs (ok tt) else goes_on cs pending

after_settle : Pending → Settled → (ℕ → Reading) → Next
unfolding go_on_if_active
after_settle p (repeats cs) at = go_on_if_active cs (some p) at
after_settle p (settles cs) at = go_on_if_active cs none at
after_settle p (fails cs e) at = returned cs (err e)

after_prepare : List Channel → Round → Prepared → Next
unfolding after_settle
after_prepare cs r (returns result) = returned cs result
after_prepare cs r (calls p) =
    after_settle p (settle (interfere cs r.others) p r.reply r.stop_at r.apply_at) r.tail_at

unfoldable pub one_round : List Channel → Option Pending → Round → Next
unfolding after_prepare
one_round cs pending r = after_prepare cs r (prepare cs pending r.uuid r.head_at r.request_at)

-- `goes_on` at the end: the future is dropped while it waits.
unfoldable pub loop : List Channel → Option Pending → List Round → Next
loop cs pending [] = goes_on cs pending
loop cs pending (r ∷ rounds) = elim (one_round cs pending r) [
  | goes_on cs' pending' ↦ loop cs' pending' rounds
  | returned cs' result ↦ returned cs' result
]

-- `Batch::drop`: the channels that are left, and what the future returned, if it did.
drop_batch : Next → (ℕ → Reading) → List Channel × Option (Result ClientError (Unit {0}))
drop_batch (goes_on cs pending) at = (stop_all cs controller_lost at, none)
drop_batch (returned cs result) at = (stop_all cs controller_lost at, some result)

start : List Channel → Option Bytes → (ℕ → Reading) → Result ClientError (Unit {0})
start cs uuid at = do
  guard (not (is_empty cs || ltb 64 (length cs))) configuration
  request ← batch_request cs false uuid at
  validate_request request

loop_if_valid : Result ClientError (Unit {0}) → List Channel → List Round → Next
unfolding loop
loop_if_valid (err e) cs rounds = returned cs (err e)
loop_if_valid (ok valid) cs rounds = loop cs none rounds

unfoldable pub maintain :
    List Channel
    → Option Bytes
    → (ℕ → Reading)
    → List Round
    → (ℕ → Reading)
    → List Channel × Option (Result ClientError (Unit {0}))
unfolding loop_if_valid drop_batch start
maintain cs uuid start_at rounds drop_at =
    drop_batch (loop_if_valid (start cs uuid start_at) cs rounds) drop_at
