-- ===== src/Supervisor/Apply.antt =====
-- The branches of `apply` in rust/worker/src/supervisor.rs.
use distributed_execution.Base.{◌≡◌, true, ok, err, arith}
use distributed_execution.Control.{authority_eq_iff, ends_attempt}
use distributed_execution.Lease.{remaining}
use distributed_execution.Renewal.{RenewalOutcome, renewed, rejected, lapsed, outcome_identity}
use distributed_execution.Supervisor.{
  Reading, Channel, AuthorityState, live_window, stopped, authority_expired, rejected_by, apply,
  active,
}

-- What a live channel becomes by an outcome for its own identity.
abbrev pub outcome_state : RenewalOutcome → Reading → AuthorityState
outcome_state (renewed grant) u = elim (remaining grant.authority u) [
  | ok d ↦ live_window grant.authority
  | err e ↦ stopped authority_expired
]
outcome_state (rejected identity decision) u = stopped (rejected_by decision)
outcome_state (lapsed identity) u = stopped authority_expired

abbrev pub IsFinal : RenewalOutcome → Type 0
IsFinal (rejected identity decision) = ends_attempt decision ≡ true
IsFinal _ = Unit {0}

-- On a channel whose window is open, an outcome for its identity replaces the state: a grant that
-- is still open becomes the window, one that is not and a lapse stop it as expired, and a
-- rejection by one of the three final decisions stops it with that decision.
pub apply-active :
    (c : Channel) (outcome : RenewalOutcome) (t u : Reading)
    → active c t ≡ true
    → outcome_identity outcome ≡ c.identity
    → IsFinal outcome
    → apply c outcome t u ≡ ok (record c { state = outcome_state outcome u })
unfolding apply active
apply-active c (renewed grant) t u a e f =
    ground (arith, authority_eq_iff grant.identity c.identity)
apply-active c (rejected identity decision) t u a e f =
    ground (arith, authority_eq_iff identity c.identity)
apply-active c (lapsed identity) t u a e f = ground (arith, authority_eq_iff identity c.identity)
