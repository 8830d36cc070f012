-- ===== src/Supervisor/Expiry.antt =====
-- The time up to which a channel of rust/worker/src/supervisor.rs holds authority.
use distributed_execution.Base.{
  ◌≤◌, ◌<◌, ◌≡◌, refl, ◌∙◌, inl, inr, true, false, List, [], ◌∷◌, All, ok, err, arith, Bool-cases,
}
use distributed_execution.Control.{AttemptAuthority, authority_eq, authority_eq_iff, ends_attempt}
use distributed_execution.Lease.{MonoTime}
use distributed_execution.Renewal.{RenewalOutcome, renewed, rejected, lapsed}
use distributed_execution.Supervisor.{
  Reading, Channel, StopReason, AuthorityState, live_window, stopped, authority_expired, next_state,
  update, apply, or_unchanged, active, rejected_by,
}
use distributed_execution.Supervisor.Stop.{
  Call, applies, stops, acknowledges, refreshes, closes, abandons, step, run,
}

-- The clock reads `T` or later, or fails.
abbrev pub Late : MonoTime → Reading → Type 0
Late T (ok t) = T ≤ t
Late T (err e) = Unit {0}

-- The first reading of a call, at which it looks at the held window, is late.
abbrev pub LateCall : MonoTime → Call → Type 0
LateCall T (applies outcome t u) = Late T t
LateCall T (stops reason t) = Late T t
LateCall T _ = Unit {0}

-- The state grants nothing from `T` on.
abbrev pub Spent : MonoTime → AuthorityState → Type 0
Spent T (stopped reason) = Unit {0}
Spent T (live_window w) = w.deadline ≤ T

next_state-Spent :
    (T : MonoTime) (current next : AuthorityState) (t u : Reading)
    → Late T t
    → Spent T current
    → Spent T (next_state current next t u)
unfolding next_state
next_state-Spent T (stopped reason) next t u l s = tt
next_state-Spent T (live_window w) next (ok t) u l s = ground arith
next_state-Spent T (live_window w) next (err e) u l s = tt

-- What an outcome asks a channel to become.
abbrev Offers : Channel → RenewalOutcome → AuthorityState → Type 0
Offers c (renewed grant) next = (grant.identity ≡ c.identity) × (next ≡ live_window grant.authority)
Offers c _ next = (reason : StopReason) × (next ≡ stopped reason)

update_cases :
    (P : AuthorityState → Type 0) (c : Channel) (identity : AttemptAuthority)
    (next : AuthorityState) (t u : Reading)
    → P c.state
    → (identity ≡ c.identity → P (next_state c.state next t u))
    → P (or_unchanged c (update c identity next t u)).state
unfolding update
update_cases P c identity next t u kept changed =
    elim (Bool-cases (authority_eq identity c.identity)) [
      | inl e ↦ rw (e, update) (changed ((authority_eq_iff identity c.identity).0 e))
      | inr e ↦ rw (e, update) kept
    ]

apply_cases :
    (P : AuthorityState → Type 0) (c : Channel) (outcome : RenewalOutcome) (t u : Reading)
    → P c.state
    → ((next : AuthorityState) → Offers c outcome next → P (next_state c.state next t u))
    → P (or_unchanged c (apply c outcome t u)).state
unfolding apply
apply_cases P c (renewed grant) t u kept changed =
    update_cases P c grant.identity (live_window grant.authority) t u kept
      (λ e. changed (live_window grant.authority) (e, refl))
apply_cases P c (lapsed identity) t u kept changed =
    update_cases P c identity (stopped authority_expired) t u kept
      (λ e. changed (stopped authority_expired) (authority_expired, refl))
apply_cases P c (rejected identity decision) t u kept changed =
    elim (Bool-cases (ends_attempt decision)) [
      | inl e ↦ rw e (
          update_cases P c identity (stopped (rejected_by decision)) t u kept
            (λ _. changed (stopped (rejected_by decision)) (rejected_by decision, refl)))
      | inr e ↦ rw e kept
    ]

step-Spent :
    (T : MonoTime) (c : Channel) (call : Call)
    → LateCall T call
    → Spent T c.state
    → Spent T (step c call).state
unfolding step
step-Spent T c (applies outcome t u) l s =
    apply_cases (Spent T) c outcome t u s (λ next _. next_state-Spent T c.state next t u l s)
step-Spent T c (stops why t) l s =
    update_cases (Spent T) c c.identity (stopped why) t t s
      (λ _. next_state-Spent T c.state (stopped why) t t l s)
step-Spent T c (acknowledges revision) l s = s
step-Spent T c (refreshes r t) l s = ground arith
step-Spent T c closes l s = s
step-Spent T c abandons l s = s

run-Spent :
    (T : MonoTime) (c : Channel) (calls : List Call)
    → All (LateCall T) calls
    → Spent T c.state
    → Spent T (run c calls).state
unfolding run
run-Spent T c [] l s = s
run-Spent T c (call ∷ calls) l s = run-Spent T (step c call) calls l.1 (step-Spent T c call l.0 s)

not-active-Spent :
    (T : MonoTime) (c : Channel) (t : Reading) → Late T t → Spent T c.state → active c t ≡ false
unfolding active
not-active-Spent T c (ok t) l s = ground arith
not-active-Spent T c (err e) l s = ground arith

-- Authority that has lapsed by a time `T` is never live again: whatever grants, rejections, stops
-- and refreshes follow, once the clock reads no earlier than `T` the channel is not active.
pub lapsed_never_revives :
    (T : MonoTime) (c : Channel) (calls : List Call) (t : Reading)
    → Spent T c.state
    → All (LateCall T) calls
    → Late T t
    → active (run c calls) t ≡ false
lapsed_never_revives T c calls t s l k =
    not-active-Spent T (run c calls) t k (run-Spent T c calls l s)

-- Every window that a call grants to `identity` closes by `D`.
abbrev pub GrantsBy : MonoTime → AttemptAuthority → Call → Type 0
GrantsBy D identity (applies (renewed grant) t u) =
    grant.identity ≡ identity → grant.authority.deadline ≤ D
GrantsBy D identity _ = Unit {0}

next_state-Spent_by :
    (D : MonoTime) (current next : AuthorityState) (t u : Reading)
    → Spent D current
    → Spent D next
    → Spent D (next_state current next t u)
unfolding next_state
next_state-Spent_by D (stopped reason) next t u s n = tt
next_state-Spent_by D (live_window w) next t u s n = ground arith

Offers-Spent :
    (D : MonoTime) (c : Channel) (outcome : RenewalOutcome) (t u : Reading) (next : AuthorityState)
    → GrantsBy D c.identity (applies outcome t u)
    → Offers c outcome next
    → Spent D next
Offers-Spent D c (renewed grant) t u next g o = rw (o.1) (g o.0)
Offers-Spent D c (rejected identity decision) t u next g o = rw (o.1) tt
Offers-Spent D c (lapsed identity) t u next g o = rw (o.1) tt

step-Spent_by :
    (D : MonoTime) (c : Channel) (call : Call)
    → GrantsBy D c.identity call
    → Spent D c.state
    → Spent D (step c call).state
unfolding step
step-Spent_by D c (applies outcome t u) g s =
    apply_cases (Spent D) c outcome t u s
      (λ next o. next_state-Spent_by D c.state next t u s (Offers-Spent D c outcome t u next g o))
step-Spent_by D c (stops why t) g s =
    update_cases (Spent D) c c.identity (stopped why) t t s
      (λ _. next_state-Spent_by D c.state (stopped why) t t s tt)
step-Spent_by D c (acknowledges revision) g s = s
step-Spent_by D c (refreshes r t) g s = ground arith
step-Spent_by D c closes g s = s
step-Spent_by D c abandons g s = s

or_unchanged-identity :
    (c : Channel) (outcome : RenewalOutcome) (t u : Reading)
    → (or_unchanged c (apply c outcome t u)).identity ≡ c.identity
unfolding apply
or_unchanged-identity c (renewed grant) t u = ground arith
or_unchanged-identity c (rejected identity decision) t u = ground arith
or_unchanged-identity c (lapsed identity) t u = ground arith

step-identity : (c : Channel) (call : Call) → (step c call).identity ≡ c.identity
unfolding step
step-identity c (applies outcome t u) = or_unchanged-identity c outcome t u
step-identity c (stops why t) = ground arith
step-identity c (acknowledges revision) = refl
step-identity c (refreshes r t) = ground arith
step-identity c closes = refl
step-identity c abandons = refl

pub run-Spent_by :
    (D : MonoTime) (c : Channel) (identity : AttemptAuthority) (calls : List Call)
    → c.identity ≡ identity
    → All (GrantsBy D identity) calls
    → Spent D c.state
    → Spent D (run c calls).state
unfolding run
run-Spent_by D c identity [] e g s = s
run-Spent_by D c identity (call ∷ calls) e g s =
    run-Spent_by D (step c call) identity calls (step-identity c call ∙ e) g.1
      (step-Spent_by D c call (rw e (g.0)) s)

pub run-identity : (c : Channel) (calls : List Call) → (run c calls).identity ≡ c.identity
unfolding run
run-identity c [] = refl
run-identity c (call ∷ calls) = run-identity (step c call) calls ∙ step-identity c call

active-Spent : (D t : MonoTime) (c : Channel) → Spent D c.state → active c (ok t) ≡ true → t < D
unfolding active
active-Spent D t c s h = ground arith

-- Authority never outlasts what was granted to the channel's own identity: if the window that is
-- held and every window granted to that identity later close by `D`, the channel is active only
-- before `D`, whatever else is called and whatever is granted to other identities.
pub active_before_grants_end :
    (D t : MonoTime) (c : Channel) (calls : List Call)
    → Spent D c.state
    → All (GrantsBy D c.identity) calls
    → active (run c calls) (ok t) ≡ true
    → t < D
active_before_grants_end D t c calls s g =
    active-Spent D t (run c calls) (run-Spent_by D c c.identity calls refl g s)
