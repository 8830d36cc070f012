-- ===== src/Maintain/Loop/Rounds.antt =====
-- What the rounds of rust/worker/src/control/renew/maintain.rs do with replies that may be retried.
use distributed_execution.Base.{◌⊎◌, ◌≡◌, true, Option, some, List, [], ◌∷◌, Result, ok, err}
use distributed_execution.Control.{ClientError, retryable}
use distributed_execution.Supervisor.{Channel}
use distributed_execution.Maintain.Batch.{Pending, batch_request, revisions}
use distributed_execution.Maintain.Loop.{Round, Next, goes_on, returned, interfere}

-- The round's reply is an error that may be retried.
abbrev pub IsRetried : Round → Type 0
IsRetried r = (e : ClientError) × (r.reply ≡ err e) × (retryable e ≡ true)

-- What the other holders of the channels make of them in the rounds.
abbrev pub interfere_all : List Channel → List Round → List Channel
interfere_all cs [] = cs
interfere_all cs (r ∷ rounds) = interfere_all (interfere cs r.others) rounds

-- The loop goes on with this call, and with channels that it has left to their other holders.
abbrev pub Waits : List Channel → List Round → Pending → List Channel → Option Pending → Type 0
Waits cs rounds p cs' pending = (pending ≡ some p) × (cs' ≡ interfere_all cs rounds)

-- The call is one for the active channels as they are, with their revisions captured.
abbrev pub IsFresh : List Channel → Round → Pending → Type 0
IsFresh cs r p =
    (batch_request cs true r.uuid r.request_at ≡ ok p.request)
    × (p.refresh_revisions ≡ revisions cs)

-- The loop's end is a success, or the first call could not be made.
abbrev pub IsQuiet : List Channel → Round → Result ClientError (Unit {0}) → Type 0
IsQuiet cs r result =
    (result ≡ ok tt)
    ⊎ ((e : ClientError) × (batch_request cs true r.uuid r.request_at ≡ err e) × (result ≡ err e))

-- The loop repeats the call of its first round, or it has ended quietly.
abbrev pub Repeats : List Channel → Round → List Round → Next → Type 0
Repeats cs r rounds (goes_on cs' pending) =
    (p : Pending) × IsFresh cs r p × Waits cs (r ∷ rounds) p cs' pending
Repeats cs r rounds (returned cs' result) = IsQuiet cs r result

-- What becomes of a pending call whose replies may all be retried.
abbrev Stays : List Channel → Pending → List Round → Next → Type 0
Stays cs p rounds (goes_on cs' pending) = Waits cs rounds p cs' pending
Stays cs p rounds (returned cs' result) = result ≡ ok tt
