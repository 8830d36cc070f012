-- ===== src/Maintain/Loop/Ending.antt =====
-- The ends of the renewal of rust/worker/src/control/renew/maintain.rs.
use distributed_execution.Base.{
  ℕ, ◌≡◌, refl, inl, inr, Option, List, [], ◌∷◌, length, Bytes, arith, All, Bool-cases, is_ok,
}
use distributed_execution.Control.{authority_eq_iff}
use distributed_execution.Supervisor.{
  Reading, Channel, StopReason, AuthorityState, live_window, stopped, stop, live, authority_expired,
}
use distributed_execution.Maintain.Batch.{stop_all}
use distributed_execution.Maintain.Loop.{
  Round, Next, goes_on, returned, maintain, loop_if_valid, start, drop_batch,
}

abbrev pub IsStopped : Channel → Type 0
IsStopped c = (reason : StopReason) × (c.state ≡ stopped reason)

stop_state :
    (s : AuthorityState) (c : Channel) (reason : StopReason) (t : Reading)
    → c.state ≡ s
    → IsStopped (stop c reason t)
unfolding stop
stop_state (stopped first) c reason t e =
    (first, ground (arith, authority_eq_iff c.identity c.identity))
stop_state (live_window w) c reason t e = elim (Bool-cases (is_ok (live (live_window w) t))) [
  | inl held ↦ (reason, ground (arith, authority_eq_iff c.identity c.identity))
  | inr over ↦ (authority_expired, ground (arith, authority_eq_iff c.identity c.identity))
]

stop_all-IsStopped :
    (cs : List Channel) (reason : StopReason) (at : ℕ → Reading)
    → All IsStopped (stop_all cs reason at)
unfolding stop_all
stop_all-IsStopped [] reason at = tt
stop_all-IsStopped (c ∷ cs) reason at =
    (stop_state c.state c reason (at (length cs)) refl, stop_all-IsStopped cs reason at)

drop_batch-IsStopped : (n : Next) (at : ℕ → Reading) → All IsStopped (drop_batch n at).0
unfolding drop_batch
drop_batch-IsStopped (goes_on cs pending) at = stop_all-IsStopped cs _ at
drop_batch-IsStopped (returned cs result) at = stop_all-IsStopped cs _ at

-- When the renewal ends, by a return, by an error or because its future is dropped, every channel
-- of the batch is stopped.
pub maintain-IsStopped :
    (cs : List Channel) (uuid : Option Bytes) (start_at : ℕ → Reading) (rounds : List Round)
    (drop_at : ℕ → Reading)
    → All IsStopped (maintain cs uuid start_at rounds drop_at).0
unfolding maintain
maintain-IsStopped cs uuid start_at rounds drop_at =
    drop_batch-IsStopped (loop_if_valid (start cs uuid start_at) cs rounds) drop_at
