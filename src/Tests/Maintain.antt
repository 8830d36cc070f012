-- ===== src/Tests/Maintain.antt =====
-- The renewal of a batch of one channel.
use distributed_execution.Base.{ℕ, ◌≡◌, none, refl, List, [], ◌∷◌, some, Result, ok, err, All}
use distributed_execution.Control.{ClientError, deadline}
use distributed_execution.Lease.{from_secs}
use distributed_execution.Supervisor.{active}
use distributed_execution.Supervisor.Stop.{Call, refreshes, step}
use distributed_execution.Renewal.{RenewalOutcome, renewed}
use distributed_execution.Maintain.Batch.{Pending, prepare, settle, revisions, any_active}
use distributed_execution.Maintain.Loop.{
  Round, goes_on, one_round, loop, maintain, interfere_one, interfere,
}
use distributed_execution.Maintain.Loop.Ending.{IsStopped, maintain-IsStopped}
use distributed_execution.Maintain.Loop.Rounds.{interfere_all}
use distributed_execution.Maintain.Barrier.{AcknowledgesUpTo, batch_of, refresh_barrier}
use distributed_execution.Tests.Samples.{uuid, identity, request, granted, channel}

abbrev pending : Pending
pending = record { request = request; refresh_revisions = 1 ∷ [] }

-- Another task asks for a refresh while the call is under way.
abbrev asked : List (ℕ × Call)
asked = (0, refreshes (record { last_window = granted }) (ok (from_secs 5))) ∷ []

abbrev round : Result ClientError (List RenewalOutcome) → Round
round reply = record {
  uuid = some uuid;
  head_at = λ n. ok (from_secs 4);
  request_at = λ n. ok (from_secs 4);
  others = asked;
  reply = reply;
  stop_at = λ n. ok (from_secs 6);
  apply_at =
      λ n. record { held = ok (from_secs 6); granted = ok (from_secs 6); after = ok (from_secs 6) };
  tail_at = λ n. ok (from_secs 7);
}

abbrev outcomes : List RenewalOutcome
outcomes =
    renewed (record {
      identity = identity;
      authority = record { sent = from_secs 4; deadline = from_secs 14 };
    })
    ∷ []

-- The loop goes on with the first call.
abbrev first_call : Pending
first_call = record { request = request; refresh_revisions = revisions (channel ∷ []) }

two_rounds :
    loop (channel ∷ []) none (round (err deadline) ∷ round (err deadline) ∷ [])
    ≡ goes_on
        (interfere_all (channel ∷ []) (round (err deadline) ∷ round (err deadline) ∷ []))
        (some first_call)
unfolding any_active active interfere interfere_one step loop one_round prepare settle
two_rounds = refl

maintain-IsStopped_example :
    All IsStopped
      (maintain
        (channel ∷ [])
        (some uuid)
        (λ n. ok (from_secs 3))
        (round (ok outcomes) ∷ [])
        (λ n. ok (from_secs 8))).0
maintain-IsStopped_example =
    maintain-IsStopped (channel ∷ []) (some uuid) (λ n. ok (from_secs 3)) (round (ok outcomes) ∷ [])
      (λ n. ok (from_secs 8))

refresh_barrier_example :
    AcknowledgesUpTo (revisions (channel ∷ [])) (interfere (channel ∷ []) asked) (
      batch_of (
        settle
          (interfere (channel ∷ []) asked)
          pending
          (ok outcomes)
          (λ n. ok (from_secs 6))
          (round (ok outcomes)).apply_at))
unfolding prepare any_active active
refresh_barrier_example =
    refresh_barrier (channel ∷ []) asked (some uuid) (λ n. ok (from_secs 4)) (λ n. ok (from_secs 4))
      pending (ok outcomes) (λ n. ok (from_secs 6)) (round (ok outcomes)).apply_at refl
