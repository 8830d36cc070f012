-- ===== src/Supervisor/Watch/Watching.antt =====
-- The turns and passes of the supervision in rust/worker/src/supervisor.rs, by their checks.
use distributed_execution.Base.{
  ℕ, ◌<◌, ◌≡◌, refl, ap, ◌∙◌, ◌⊎◌, inl, inr, Option, some, List, [], ◌∷◌, All, Result, ok, err,
  arith, Option-cases, Result-cases,
}
use mathlib.Core.Path.{subst}
use distributed_execution.Control.{AttemptAuthority}
use distributed_execution.Lease.{MonoTime}
use distributed_execution.Supervisor.{Reading, Channel, Receiver, StopReason, check}
use distributed_execution.Supervisor.Stop.{run}
use distributed_execution.Supervisor.Expiry.{Spent, GrantsBy, run-Spent_by, run-identity}
use distributed_execution.Supervisor.Watch.{
  Turn, Waited, while_live, finish_turn, Pass, Watched, ended, watch, ContainerStatus, RuntimeError,
  after_sleep, when_inspected,
}

-- A turn took the operation's result `a`, and its check read the clock before `D`.
abbrev pub Accepted : {A : Type 0} → MonoTime → A → List (Turn A) → Type 0
Accepted D a [] = ⊥
Accepted D a (t ∷ ts) = ((u : MonoTime) × (t.finished ≡ some (a, ok u)) × (u < D)) ⊎ Accepted D a ts

-- All that others grant to `identity` during the turns closes by `D`.
abbrev pub TurnsBy : {A : Type 0} → MonoTime → AttemptAuthority → List (Turn A) → Type 0
TurnsBy D identity = All (λ t. All (GrantsBy D identity) t.others)

abbrev pub PassesBy : MonoTime → AttemptAuthority → List Pass → Type 0
PassesBy D identity = All (λ p. TurnsBy D identity p.inspects × TurnsBy D identity p.sleeps)

abbrev pub AcceptedIn : MonoTime → ContainerStatus → List Pass → Type 0
AcceptedIn D status [] = ⊥
AcceptedIn D status (p ∷ ps) = Accepted D (ok status) p.inspects ⊎ AcceptedIn D status ps

check-before :
    (D : MonoTime) (c : Channel) (r : Receiver) (u : Reading) (left : ℕ)
    → Spent D c.state
    → (check c r u).0 ≡ ok left
    → (t : MonoTime) × (u ≡ ok t) × (t < D)
unfolding check
check-before D c r (ok t) left s e = (t, refl, ground arith)
check-before D c r (err x) left s e = absurd (ground arith)

record IsWaited {A : Type 0} (D : MonoTime) (identity : AttemptAuthority) (ts : List (Turn A))
    (w : Waited A) : Type 0 where
  same : w.channel.identity ≡ identity
  spent : Spent D w.channel.state
  accepted : (a : A) → w.outcome ≡ some (ok a) → Accepted D a ts

finish_turn-IsWaited :
    {A : Type 0} (D : MonoTime) (identity : AttemptAuthority) (c : Channel) (a : A)
    (checked : Result StopReason ℕ × Receiver) (ts : List (Turn A))
    → c.identity ≡ identity
    → Spent D c.state
    → ((left : ℕ) → checked.0 ≡ ok left → Accepted D a ts)
    → IsWaited D identity ts (finish_turn c a checked)
finish_turn-IsWaited D identity c a (err reason, r) ts i s h = record {
  same = i;
  spent = s;
  accepted = λ b e. absurd (ground arith);
}
finish_turn-IsWaited D identity c a (ok left, r) ts i s h = record {
  same = i;
  spent = s;
  accepted = λ b e. let q : a ≡ b = ground arith in subst (λ x. Accepted D x ts) q (h left refl);
}

while_live-IsWaited :
    {A : Type 0} (D : MonoTime) (identity : AttemptAuthority) (c : Channel) (r : Receiver)
    (ts : List (Turn A))
    → c.identity ≡ identity
    → Spent D c.state
    → TurnsBy D identity ts
    → IsWaited D identity ts (while_live c r ts)
unfolding while_live
while_live-IsWaited D identity c r [] i s g = record {
  same = i;
  spent = s;
  accepted = λ a e. absurd (ground arith);
}
while_live-IsWaited D identity c r (t ∷ ts) i s g =
    let i' = run-identity c t.others ∙ i in
    let s' = run-Spent_by D c identity t.others i g.0 s in
    elim (Result-cases (check c r t.checked_at).0) [
      | inr (reason, e) ↦
          rw (while_live, e)
            (record { same = i; spent = s; accepted = λ a h. absurd (ground arith) })
      | inl (left, e) ↦ elim (Option-cases t.finished) [
        | inl f ↦
            let w =
              while_live-IsWaited D identity (run c t.others) (check c r t.checked_at).1 ts i' s'
                g.1 in
            rw (while_live, e, f)
              (record { same = w.same; spent = w.spent; accepted = λ a h. inr (w.accepted a h) })
        | inr ((a, u), f) ↦
            rw (while_live, e, f)
              (finish_turn-IsWaited D identity (run c t.others) a _ _ i' s' (λ l h.
                let (t', q, b) =
                  check-before D (run c t.others) (check c r t.checked_at).1 u l s' h in
                inl (t', ap (λ (x : Reading). some (a, x)) q, b)))
      ]
    ]

when_inspected_ended :
    (outcome : Option (Result StopReason (Result RuntimeError ContainerStatus))) (c : Channel)
    (r : Receiver) (next : Watched) (status : ContainerStatus) (c' : Channel) (r' : Receiver)
    → when_inspected outcome c r next ≡ ended status c' r'
    → (outcome ≡ some (ok (ok status))) ⊎ (next ≡ ended status c' r')
when_inspected_ended outcome c r next status c' r' e = ground arith

after_sleep_ended :
    (slept : Option (Result StopReason (Unit {0}))) (c : Channel) (r : Receiver) (next : Watched)
    (status : ContainerStatus) (c' : Channel) (r' : Receiver)
    → after_sleep slept c r next ≡ ended status c' r'
    → next ≡ ended status c' r'
after_sleep_ended slept c r next status c' r' e = ground arith

-- If the supervision reports that the container ended by itself with a status, then an inspection
-- gave that status, and it was taken by a check that read the clock before the end of all
-- authority: the window held and all that was granted to the channel's identity close by `D`.
pub ended_before_grants_end :
    (D : MonoTime) (identity : AttemptAuthority) (c : Channel) (r : Receiver) (ps : List Pass)
    (status : ContainerStatus) (c' : Channel) (r' : Receiver)
    → c.identity ≡ identity
    → Spent D c.state
    → PassesBy D identity ps
    → watch c r ps ≡ ended status c' r'
    → AcceptedIn D status ps
unfolding watch
ended_before_grants_end D identity c r [] status c' r' i s g e = absurd (ground arith)
ended_before_grants_end D identity c r (p ∷ ps) status c' r' i s g e =
    let w = while_live-IsWaited D identity c r p.inspects i s g.0.0 in
    let w' = while_live c r p.inspects in
    let v' = while_live w'.channel w'.receiver p.sleeps in
    let v = while_live-IsWaited D identity w'.channel w'.receiver p.sleeps w.same w.spent g.0.1 in
    elim (when_inspected_ended w'.outcome w'.channel w'.receiver _ status c' r' e) [
      | inl seen ↦ inl (w.accepted (ok status) seen)
      | inr next ↦ inr (
          ended_before_grants_end D identity v'.channel v'.receiver ps status c' r' v.same v.spent
            g.1 (after_sleep_ended v'.outcome v'.channel v'.receiver _ status c' r' next))
    ]
