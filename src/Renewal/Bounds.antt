-- ===== src/Renewal/Bounds.antt =====
-- How much authority a call of `renew` in rust/worker/src/control/renew.rs can hand out.
use distributed_execution.Base.{
  ℕ, ◌≤◌, ◌+◌, ◌≡◌, refl, ◌∙◌, ap₂, List, [], ◌∷◌, map, length, Result, ok, err, arith, All, >>=-ok,
}
use distributed_execution.Control.{AttemptAuthority, RenewLeasesRequest, LeaseResult, ClientError}
use distributed_execution.Lease.{MonoTime, LeaseError, from_secs}
use distributed_execution.Lease.Laws.{from_grant_iff}
use distributed_execution.Renewal.{
  RenewalOutcome, renewed, rejected, lapsed, outcome_identity, recheck, recheck_all, renew,
  decode_renewals, validate_request,
}
use distributed_execution.Renewal.Answers.{
  Answers, AllAnswer, AllAnswer-identities, decode_renewals-AllAnswer,
}

-- A grant of this outcome runs from `sent` for 25 seconds at most.
abbrev pub StartsAt : MonoTime → RenewalOutcome → Type 0
StartsAt sent (renewed grant) =
    (grant.authority.sent ≡ sent) × (grant.authority.deadline ≤ sent + from_secs 25)
StartsAt sent _ = Unit {0}

Answers-StartsAt :
    (sent received : MonoTime) (g : LeaseResult) (a : AttemptAuthority) (o : RenewalOutcome)
    → Answers sent received g a o
    → StartsAt sent o
Answers-StartsAt sent received g a (renewed grant) h =
    let granted =
      (from_grant_iff sent received g.remaining_ms g.phase_remaining_ms grant.authority).0 (h.3) in
    (granted.opens, omega arith)
Answers-StartsAt sent received g a (rejected identity decision) h = tt
Answers-StartsAt sent received g a (lapsed identity) h = tt

AllAnswer-StartsAt :
    (sent received : MonoTime) (gs : List LeaseResult) (as' : List AttemptAuthority)
    (os : List RenewalOutcome)
    → AllAnswer sent received gs as' os
    → All (StartsAt sent) os
AllAnswer-StartsAt sent received [] [] [] h = tt
AllAnswer-StartsAt sent received (g ∷ gs) (a ∷ as') (o ∷ os) h =
    (Answers-StartsAt sent received g a o h.0, AllAnswer-StartsAt sent received gs as' os h.1)
AllAnswer-StartsAt sent received [] [] (o ∷ os) h = elim h [ ]
AllAnswer-StartsAt sent received [] (a ∷ as') os h = elim h [ ]
AllAnswer-StartsAt sent received (g ∷ gs) [] os h = elim h [ ]
AllAnswer-StartsAt sent received (g ∷ gs) (a ∷ as') [] h = elim h [ ]

-- The second reading keeps an outcome, or takes its grant away.
recheck_keeps :
    (sent : MonoTime) (o o' : RenewalOutcome) (t : Result LeaseError MonoTime)
    → recheck o t ≡ ok o'
    → StartsAt sent o
    → (outcome_identity o' ≡ outcome_identity o) × StartsAt sent o'
unfolding recheck
recheck_keeps sent (renewed grant) (renewed grant') t h s = ground arith
recheck_keeps sent (renewed grant) (rejected i d) t h s = ground arith
recheck_keeps sent (renewed grant) (lapsed i) t h s = ground arith
recheck_keeps sent (rejected identity decision) (renewed grant') t h s = absurd (ground arith)
recheck_keeps sent (rejected identity decision) (rejected i d) t h s = ground arith
recheck_keeps sent (rejected identity decision) (lapsed i) t h s = ground arith
recheck_keeps sent (lapsed identity) (renewed grant') t h s = absurd (ground arith)
recheck_keeps sent (lapsed identity) (rejected i d) t h s = ground arith
recheck_keeps sent (lapsed identity) (lapsed i) t h s = ground arith

recheck_all_keeps :
    (sent : MonoTime) (os os' : List RenewalOutcome) (clock_at : ℕ → Result LeaseError MonoTime)
    → recheck_all os clock_at ≡ ok os'
    → All (StartsAt sent) os
    → (map outcome_identity os' ≡ map outcome_identity os) × All (StartsAt sent) os'
unfolding recheck_all
recheck_all_keeps sent [] [] clock_at h s = (refl, tt)
recheck_all_keeps sent [] (o' ∷ os') clock_at h s = absurd (ground arith)
recheck_all_keeps sent (o ∷ os) [] clock_at h s = absurd (ground arith)
recheck_all_keeps sent (o ∷ os) (o' ∷ os') clock_at h s =
    let (i, p) = recheck_keeps sent o o' (clock_at (length os)) (ground arith) s.0 in
    let (is, ps) = recheck_all_keeps sent os os' clock_at (ground arith) s.1 in
    (ap₂ ◌∷◌ i is, (p, ps))

-- If `renew` succeeds, its outcomes are for the attempts of the request in their order, and every
-- grant among them runs from the clock's reading before the call, for 25 seconds at most.
pub renew_bounded :
    (request : RenewLeasesRequest) (sent_at : Result LeaseError MonoTime)
    (reply : Result ClientError (List LeaseResult)) (received_at : Result LeaseError MonoTime)
    (clock_at : ℕ → Result LeaseError MonoTime) (outcomes : List RenewalOutcome)
    → renew request sent_at reply received_at clock_at ≡ ok outcomes
    → (sent : MonoTime) × (sent_at ≡ ok sent)
      × (map outcome_identity outcomes ≡ request.attempts)
      × All (StartsAt sent) outcomes
unfolding renew
renew_bounded request (err e) reply received_at clock_at outcomes h = absurd (ground arith)
renew_bounded request (ok sent) (err e) received_at clock_at outcomes h = absurd (ground arith)
renew_bounded request (ok sent) (ok results) (err e) clock_at outcomes h = absurd (ground arith)
renew_bounded request (ok sent) (ok results) (ok received) clock_at outcomes h =
    let (_, _, k) = >>=-ok (validate_request request) _ h in
    let (os, d, r) = >>=-ok (decode_renewals request results sent received) _ k in
    let answers = decode_renewals-AllAnswer request results sent received os d in
    let (ids, starts) =
      recheck_all_keeps sent os outcomes clock_at r
        (AllAnswer-StartsAt sent received results request.attempts os answers) in
    (
      sent,
      refl,
      ids ∙ AllAnswer-identities sent received results request.attempts os answers,
      starts,
    )
