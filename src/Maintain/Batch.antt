-- ===== src/Maintain/Batch.antt =====
-- The parts of one round of rust/worker/src/control/renew/maintain.rs.
use distributed_execution.Base.{
  ℕ, Bool, true, false, not, ◌&&◌, ◌||◌, if◌then◌else◌, Option, none, some, List, [], ◌∷◌, map,
  length, is_empty, Bytes, Result, ok, err, ◌>>=◌, ok_or,
}
use distributed_execution.Control.{
  AttemptAuthority, authority_eq, RenewLeasesRequest, ClientError, configuration, response, random,
  retryable,
}
use distributed_execution.Renewal.{RenewalOutcome, renewed, rejected, lapsed, outcome_identity}
use distributed_execution.Supervisor.{
  Reading, Channel, StopReason, renewal_failed, AuthorityUpdateError, apply, stop, active,
  acknowledge_refresh,
}

pub record Pending : Type 0 where
  pub request : RenewLeasesRequest
  pub refresh_revisions : List ℕ

-- `Batch::stop`; each call of `stop` reads the clock, here at the number of channels left.
unfoldable pub stop_all : List Channel → StopReason → (ℕ → Reading) → List Channel
stop_all [] reason at = []
stop_all (c ∷ cs) reason at = stop c reason (at (length cs)) ∷ stop_all cs reason at

unfoldable pub any_active : List Channel → (ℕ → Reading) → Bool
any_active [] at = false
any_active (c ∷ cs) at = active c (at (length cs)) || any_active cs at

-- The identities of the members, or of the active ones.
members : Bool → List Channel → (ℕ → Reading) → List AttemptAuthority
members active_only [] at = []
members active_only (c ∷ cs) at =
    let rest = members active_only cs at in
    if not active_only || active c (at (length cs)) then c.identity ∷ rest else rest

-- `Batch::request`
unfoldable pub batch_request :
    List Channel → Bool → Option Bytes → (ℕ → Reading) → Result ClientError RenewLeasesRequest
unfolding members
batch_request [] active_only uuid at = err configuration
batch_request (c ∷ cs) active_only uuid at = do
  request_id ← ok_or uuid random
  ok (record {
    session =
        some (record { worker_id = c.identity.worker_id; session_id = c.identity.session_id });
    request_id = request_id;
    attempts = members active_only (c ∷ cs) at;
  })

abbrev pub revisions : List Channel → List ℕ
revisions = map (λ c. c.requested)

-- How far a round gets before its call: the loop returns, or the call is made.
pub data Prepared : Type 0 where
  returns : Result ClientError (Unit {0}) → Prepared
  calls : Pending → Prepared

abbrev call_unless_empty : Pending → Prepared
call_unless_empty p = if is_empty p.request.attempts then returns (ok tt) else calls p

abbrev prepare_new : List ℕ → Result ClientError RenewLeasesRequest → Prepared
prepare_new captured (err e) = returns (err e)
prepare_new captured (ok request) =
    call_unless_empty (record { request = request; refresh_revisions = captured })

abbrev prepare_pending : List Channel → Option Pending → Option Bytes → (ℕ → Reading) → Prepared
prepare_pending cs (some p) uuid at = call_unless_empty p
prepare_pending cs none uuid at = prepare_new (revisions cs) (batch_request cs true uuid at)

unfoldable pub prepare :
    List Channel → Option Pending → Option Bytes → (ℕ → Reading) → (ℕ → Reading) → Prepared
unfolding any_active batch_request
prepare cs pending uuid head_at at =
    if not (any_active cs head_at) then returns (ok tt) else prepare_pending cs pending uuid at

-- The three readings while one outcome is applied.
pub record ApplyReadings : Type 0 where
  pub held : Reading
  pub granted : Reading
  pub after : Reading

abbrev is_renewed : RenewalOutcome → Bool
is_renewed (renewed grant) = true
is_renewed (rejected identity decision) = false
is_renewed (lapsed identity) = false

-- `controller.apply(outcome)`, and the acknowledgement of the captured revision.
unfoldable pub settle_channel :
    Channel → ℕ → RenewalOutcome → ApplyReadings → Result AuthorityUpdateError Channel
unfolding apply active acknowledge_refresh
settle_channel c revision outcome r = do
  c' ← apply c outcome r.held r.granted
  ok (if is_renewed outcome && active c' r.after then acknowledge_refresh c' revision else c')

-- The first channel with the outcome's identity; `none` if there is none. There is a captured
-- revision for each channel, so the case of too few is not reached.
abbrev with_head :
    Channel
    → Option (Result AuthorityUpdateError (List Channel))
    → Option (Result AuthorityUpdateError (List Channel))
with_head c none = none
with_head c (some (err e)) = some (err e)
with_head c (some (ok cs)) = some (ok (c ∷ cs))

abbrev settled_head :
    Result AuthorityUpdateError Channel → List Channel → Result AuthorityUpdateError (List Channel)
settled_head (err e) cs = err e
settled_head (ok c) cs = ok (c ∷ cs)

unfoldable pub settle_one :
    List Channel
    → List ℕ
    → RenewalOutcome
    → ApplyReadings
    → Option (Result AuthorityUpdateError (List Channel))
settle_one [] captured outcome r = none
settle_one (c ∷ cs) [] outcome r = none
settle_one (c ∷ cs) (revision ∷ captured) outcome r =
    if authority_eq c.identity (outcome_identity outcome)
    then some (settled_head (settle_channel c revision outcome r) cs)
    else with_head c (settle_one cs captured outcome r)

-- What the reply leaves of the batch: the same call is to be repeated, the call is settled, or
-- the loop fails.
pub data Settled : Type 0 where
  repeats settles : List Channel → Settled
  fails : List Channel → ClientError → Settled

abbrev after_one :
    List Channel
    → Option (Result AuthorityUpdateError (List Channel))
    → (ℕ → Reading)
    → (List Channel → Settled)
    → Settled
after_one cs none at rest = fails cs response
after_one cs (some (err e)) at rest = fails (stop_all cs renewal_failed at) response
after_one cs (some (ok cs')) at rest = rest cs'

-- The loop over the outcomes. `at n` are the readings of a stop, `apply_at n` those of an
-- application, with `n` outcomes left.
unfoldable pub settle_outcomes :
    List Channel → List ℕ → List RenewalOutcome → (ℕ → Reading) → (ℕ → ApplyReadings) → Settled
settle_outcomes cs captured [] at apply_at = settles cs
settle_outcomes cs captured (o ∷ os) at apply_at =
    after_one cs (settle_one cs captured o (apply_at (length os))) at
      (λ cs'. settle_outcomes cs' captured os at apply_at)

abbrev pub mismatched : List RenewalOutcome → List AttemptAuthority → Bool
mismatched [] [] = false
mismatched [] (a ∷ as') = true
mismatched (o ∷ os) [] = true
mismatched (o ∷ os) (a ∷ as') = not (authority_eq (outcome_identity o) a) || mismatched os as'

unfoldable pub settle :
    List Channel
    → Pending
    → Result ClientError (List RenewalOutcome)
    → (ℕ → Reading)
    → (ℕ → ApplyReadings)
    → Settled
settle cs p (ok outcomes) at apply_at =
    if mismatched outcomes p.request.attempts
    then fails (stop_all cs renewal_failed at) response
    else settle_outcomes cs p.refresh_revisions outcomes at apply_at
settle cs p (err e) at apply_at =
    if retryable e then repeats cs else fails (stop_all cs renewal_failed at) e
