-- ===== src/Tests/Renewal.antt =====
-- A batch of one attempt, renewed.
use distributed_execution.Base.{bytes_eq, ◌≡◌, ◌↔◌, refl, map, All, List, [], ◌∷◌, ok}
use distributed_execution.Control.{WorkerSession, authority_eq, canonical_uuid, valid_session}
use distributed_execution.Supervisor.{Reading}
use distributed_execution.Lease.{MonoTime, from_secs, from_grant, remaining}
use distributed_execution.Renewal.{
  RenewalOutcome, renewed, validate_request, decode_renewals, renew, outcome_identity,
}
use distributed_execution.Renewal.Answers.{AllAnswer, decode_renewals-AllAnswer}
use distributed_execution.Renewal.Requests.{IsBatch, validate_request_iff}
use distributed_execution.Renewal.Bounds.{StartsAt, renew_bounded}
use distributed_execution.Tests.Samples.{identity, request, result, granted}

abbrev outcomes : List RenewalOutcome
outcomes = renewed (record { identity = identity; authority = granted }) ∷ []

abbrev two_seconds : Reading
two_seconds = ok (from_secs 2)

validate_request_iff_example :
    (validate_request request ≡ ok tt) ↔ ((s : WorkerSession) × IsBatch s request)
validate_request_iff_example = validate_request_iff request

decode_renewals-AllAnswer_example :
    AllAnswer (from_secs 2) (from_secs 3) (result ∷ []) request.attempts outcomes
unfolding decode_renewals authority_eq bytes_eq from_grant
decode_renewals-AllAnswer_example =
    decode_renewals-AllAnswer request (result ∷ []) (from_secs 2) (from_secs 3) outcomes refl

renew_bounded_example :
    (sent : MonoTime) × (two_seconds ≡ ok sent)
    × (map outcome_identity outcomes ≡ request.attempts)
    × All (StartsAt sent) outcomes
unfolding renew validate_request decode_renewals authority_eq bytes_eq from_grant canonical_uuid
    valid_session remaining
renew_bounded_example =
    renew_bounded request two_seconds (ok (result ∷ [])) (ok (from_secs 3)) (λ n. ok (from_secs 4))
      outcomes refl
