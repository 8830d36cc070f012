-- ===== src/Renewal.antt =====
-- rust/worker/src/control/renew.rs: the request for a batch of renewals, and what is made of the
-- server's reply. The clock's readings around the call are arguments.
pub mod Answers
pub mod Bounds
pub mod Requests
use distributed_execution.Base.{
  ℕ, Bool, true, false, not, ◌&&◌, ◌||◌, ◌==◌, ltb, if◌then◌else◌, Option, none, some, List, [],
  ◌∷◌, length, any, is_empty, Bytes, bytes_eq, Result, ok, err, ◌>>=◌, ◌>>◌, ok_or, map_err, guard,
  i64_max,
}
use distributed_execution.Control.{
  AttemptAuthority, authority_eq, WorkerSession, RenewLeasesRequest, LeaseResult, Decision,
  accepted, fenced, stop_requested, already_terminal, decision_try_from, ClientError, configuration,
  response, clock_failed, canonical_uuid, valid_session,
}
use distributed_execution.Lease.{
  MonoTime, AuthorityWindow, LeaseError, invalid, clock, expired, from_grant, remaining,
}

pub record RenewedLease : Type 0 where
  pub identity : AttemptAuthority
  pub authority : AuthorityWindow

pub data RenewalOutcome : Type 0 where
  renewed : RenewedLease → RenewalOutcome
  rejected : AttemptAuthority → Decision → RenewalOutcome
  lapsed : AttemptAuthority → RenewalOutcome

-- `outcome_identity` of rust/worker/src/control/renew/maintain.rs.
abbrev pub outcome_identity : RenewalOutcome → AttemptAuthority
outcome_identity (renewed grant) = grant.identity
outcome_identity (rejected identity decision) = identity
outcome_identity (lapsed identity) = identity

-- The refusals of one attempt, but for the test against the attempts seen before.
attempt_refused : WorkerSession → AttemptAuthority → Bool
attempt_refused session a =
    not (bytes_eq a.worker_id session.worker_id)
    || not (bytes_eq a.session_id session.session_id)
    || not (canonical_uuid a.job_id)
    || not (canonical_uuid a.attempt_id)
    || a.generation == 0
    || ltb i64_max a.generation

-- The loop over `request.attempts`; `seen` holds the attempt ids before.
validate_attempts :
    WorkerSession → List Bytes → List AttemptAuthority → Result ClientError (Unit {0})
unfolding attempt_refused
validate_attempts session seen [] = ok tt
validate_attempts session seen (a ∷ attempts) =
    let rest = validate_attempts session (a.attempt_id ∷ seen) attempts in
    if attempt_refused session a || any (bytes_eq a.attempt_id) seen
    then err configuration
    else rest

unfoldable pub validate_request : RenewLeasesRequest → Result ClientError (Unit {0})
unfolding validate_attempts
validate_request request = do
  session ← valid_session request.session
  guard
      (not (
        not (canonical_uuid request.request_id)
        || is_empty request.attempts
        || ltb 64 (length request.attempts)))
      configuration
  validate_attempts session [] request.attempts

-- What a lease error makes of an accepted result.
abbrev grant_outcome :
    AttemptAuthority → Result LeaseError AuthorityWindow → Result ClientError RenewalOutcome
grant_outcome identity (ok authority) =
    ok (renewed (record { identity = identity; authority = authority }))
grant_outcome identity (err expired) = ok (lapsed identity)
grant_outcome identity (err clock) = err clock_failed
grant_outcome identity (err invalid) = err response

abbrev reject : Decision → LeaseResult → AttemptAuthority → Result ClientError RenewalOutcome
reject decision g identity =
    if g.remaining_ms == 0 && g.phase_remaining_ms == 0
    then ok (rejected identity decision)
    else err response

decide :
    Option Decision
    → LeaseResult
    → AttemptAuthority
    → MonoTime
    → MonoTime
    → Result ClientError RenewalOutcome
decide (some accepted) g identity sent received =
    grant_outcome identity (from_grant sent received g.remaining_ms g.phase_remaining_ms)
decide (some fenced) g identity sent received = reject fenced g identity
decide (some stop_requested) g identity sent received = reject stop_requested g identity
decide (some already_terminal) g identity sent received = reject already_terminal g identity
decide _ g identity sent received = err response

decode_result :
    LeaseResult → AttemptAuthority → MonoTime → MonoTime → Result ClientError RenewalOutcome
unfolding decide
decode_result g expected sent received = do
  identity ← ok_or g.authority response
  guard (authority_eq identity expected) response
  decide (decision_try_from g.decision) g identity sent received

-- `results.into_iter().zip(&request.attempts).map(…).collect()`
decode_results :
    List LeaseResult
    → List AttemptAuthority
    → MonoTime
    → MonoTime
    → Result ClientError (List RenewalOutcome)
unfolding decode_result
decode_results [] expected sent received = ok []
decode_results (g ∷ gs) [] sent received = ok []
decode_results (g ∷ gs) (a ∷ expected) sent received = do
  outcome ← decode_result g a sent received
  outcomes ← decode_results gs expected sent received
  ok (outcome ∷ outcomes)

unfoldable pub decode_renewals :
    RenewLeasesRequest
    → List LeaseResult
    → MonoTime
    → MonoTime
    → Result ClientError (List RenewalOutcome)
unfolding decode_results
decode_renewals request results sent received =
    if not (length results == length request.attempts)
    then err response
    else decode_results results request.attempts sent received

-- The last loop of `renew`: processing time consumes authority too, so each grant is read once
-- more, at one reading of the clock for each outcome.
abbrev recheck_grant : RenewedLease → Result LeaseError ℕ → Result ClientError RenewalOutcome
recheck_grant grant (ok d) = ok (renewed grant)
recheck_grant grant (err expired) = ok (lapsed grant.identity)
recheck_grant grant (err clock) = err clock_failed
recheck_grant grant (err invalid) = err response

recheck : RenewalOutcome → Result LeaseError MonoTime → Result ClientError RenewalOutcome
recheck (renewed grant) clock_now = recheck_grant grant (remaining grant.authority clock_now)
recheck (rejected identity decision) clock_now = ok (rejected identity decision)
recheck (lapsed identity) clock_now = ok (lapsed identity)

recheck_all :
    List RenewalOutcome
    → (ℕ → Result LeaseError MonoTime)
    → Result ClientError (List RenewalOutcome)
unfolding recheck
recheck_all [] clock_at = ok []
recheck_all (outcome ∷ outcomes) clock_at = do
  first ← recheck outcome (clock_at (length outcomes))
  others ← recheck_all outcomes clock_at
  ok (first ∷ others)

-- `renew` after the call: `sent_at` and `received_at` are the readings before and after the
-- call, `clock_at n` the reading when `n` outcomes are still to be looked at.
unfoldable pub renew :
    RenewLeasesRequest
    → Result LeaseError MonoTime
    → Result ClientError (List LeaseResult)
    → Result LeaseError MonoTime
    → (ℕ → Result LeaseError MonoTime)
    → Result ClientError (List RenewalOutcome)
unfolding recheck_all
renew request sent_at reply received_at clock_at = do
  validate_request request
  sent ← map_err (λ e. clock_failed) sent_at
  results ← reply
  received ← map_err (λ e. clock_failed) received_at
  outcomes ← decode_renewals request results sent received
  recheck_all outcomes clock_at
