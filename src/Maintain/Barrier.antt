-- ===== src/Maintain/Barrier.antt =====
-- The acknowledgement of refreshes by rust/worker/src/control/renew/maintain.rs in the channels of
-- rust/worker/src/supervisor.rs.
use distributed_execution.Base.{
  ℕ, ◌≤◌, ◌≡◌, refl, ap, ◌∙◌, max, inl, inr, Option, none, some, List, [], ◌∷◌, length, Bytes,
  Result, ok, err, arith, Bool-cases, Result-cases, Option-cases,
}
use distributed_execution.Control.{authority_eq, ClientError, retryable}
use distributed_execution.Renewal.{RenewalOutcome, renewed, rejected, lapsed, outcome_identity}
use distributed_execution.Supervisor.{Reading, Channel, StopReason, apply, stop}
use distributed_execution.Supervisor.Stop.{Call}
use distributed_execution.Maintain.Loop.{interfere}
use distributed_execution.Maintain.Batch.{
  Pending, calls, prepare, ApplyReadings, Settled, repeats, settles, fails, settle, settle_outcomes,
  settle_one, settle_channel, stop_all, revisions, mismatched,
}

abbrev first : List ℕ → ℕ
first [] = 0
first (v ∷ vs) = v

abbrev rest : List ℕ → List ℕ
rest [] = []
rest (v ∷ vs) = vs

-- Each channel of the second list is that of the first with the same refreshes asked for, and has
-- acknowledged no more than before or than the revision captured for it.
abbrev pub AcknowledgesUpTo : List ℕ → List Channel → List Channel → Type 0
AcknowledgesUpTo vs [] [] = Unit {0}
AcknowledgesUpTo vs (c ∷ cs) (d ∷ ds) =
    (d.identity ≡ c.identity)
    × (d.requested ≡ c.requested)
    × (d.acknowledged ≤ max c.acknowledged (first vs))
    × AcknowledgesUpTo (rest vs) cs ds
AcknowledgesUpTo vs _ _ = ⊥

upto_refl : (vs : List ℕ) (cs : List Channel) → AcknowledgesUpTo vs cs cs
upto_refl vs [] = tt
upto_refl vs (c ∷ cs) = (refl, refl, omega arith, upto_refl (rest vs) cs)

upto_trans :
    (vs : List ℕ) (bs cs ds : List Channel)
    → AcknowledgesUpTo vs bs cs
    → AcknowledgesUpTo vs cs ds
    → AcknowledgesUpTo vs bs ds
upto_trans vs [] [] [] h k = tt
upto_trans vs (b ∷ bs) (c ∷ cs) (d ∷ ds) h k =
    (k.0 ∙ h.0, k.1 ∙ h.1, omega arith, upto_trans (rest vs) bs cs ds h.3 k.3)
upto_trans vs [] [] (d ∷ ds) h k = elim k [ ]
upto_trans vs [] (c ∷ cs) ds h k = elim h [ ]
upto_trans vs (b ∷ bs) [] ds h k = elim h [ ]
upto_trans vs (b ∷ bs) (c ∷ cs) [] h k = elim k [ ]

apply_fields :
    (c d : Channel) (o : RenewalOutcome) (t u : Reading)
    → apply c o t u ≡ ok d
    → (d.identity ≡ c.identity) × (d.requested ≡ c.requested) × (d.acknowledged ≡ c.acknowledged)
unfolding apply
apply_fields c d (renewed grant) t u h = ground arith
apply_fields c d (rejected identity decision) t u h = ground arith
apply_fields c d (lapsed identity) t u h = ground arith

settle_channel_fields :
    (c d : Channel) (v : ℕ) (o : RenewalOutcome) (r : ApplyReadings)
    → settle_channel c v o r ≡ ok d
    → (d.identity ≡ c.identity)
      × (d.requested ≡ c.requested)
      × (d.acknowledged ≤ max c.acknowledged v)
unfolding settle_channel
settle_channel_fields c d v o r h = elim (Result-cases (apply c o r.held r.granted)) [
  | inl (c', e) ↦ ground (arith, apply_fields c c' o r.held r.granted e)
  | inr (x, e) ↦ absurd (ground arith)
]

settle_one-upto :
    (cs ds : List Channel) (vs : List ℕ) (o : RenewalOutcome) (r : ApplyReadings)
    → settle_one cs vs o r ≡ some (ok ds)
    → AcknowledgesUpTo vs cs ds
unfolding settle_one
settle_one-upto [] ds vs o r h = absurd (ground arith)
settle_one-upto (c ∷ cs) ds [] o r h = absurd (ground arith)
settle_one-upto (c ∷ cs) [] (v ∷ vs) o r h = absurd (ground arith)
settle_one-upto (c ∷ cs) (d ∷ ds) (v ∷ vs) o r h =
    elim (Bool-cases (authority_eq c.identity (outcome_identity o))) [
      | inl mine ↦
          let p : settle_channel c v o r ≡ ok d = ground arith in
          let q : cs ≡ ds = ground arith in
          let (i, n, a) = settle_channel_fields c d v o r p in (i, n, a, rw (← q) (upto_refl vs cs))
      | inr other ↦
          let p : settle_one cs vs o r ≡ some (ok ds) = ground arith in
          let q : c ≡ d = ground arith in
          (ground arith, ground arith, ground arith, settle_one-upto cs ds vs o r p)
    ]

stop_fields :
    (c : Channel) (reason : StopReason) (t : Reading)
    → ((stop c reason t).identity ≡ c.identity)
      × ((stop c reason t).requested ≡ c.requested)
      × ((stop c reason t).acknowledged ≡ c.acknowledged)
unfolding stop
stop_fields c reason t = ground arith

stop_all-upto :
    (vs : List ℕ) (cs : List Channel) (reason : StopReason) (at : ℕ → Reading)
    → AcknowledgesUpTo vs cs (stop_all cs reason at)
unfolding stop_all
stop_all-upto vs [] reason at = tt
stop_all-upto vs (c ∷ cs) reason at =
    let (i, n, a) = stop_fields c reason (at (length cs)) in
    (i, n, omega arith, stop_all-upto (rest vs) cs reason at)

abbrev pub batch_of : Settled → List Channel
batch_of (repeats cs) = cs
batch_of (settles cs) = cs
batch_of (fails cs e) = cs

settle_outcomes-upto :
    (bs cs : List Channel) (vs : List ℕ) (os : List RenewalOutcome) (at : ℕ → Reading)
    (apply_at : ℕ → ApplyReadings)
    → AcknowledgesUpTo vs bs cs
    → AcknowledgesUpTo vs bs (batch_of (settle_outcomes cs vs os at apply_at))
unfolding settle_outcomes
settle_outcomes-upto bs cs vs [] at apply_at h = h
settle_outcomes-upto bs cs vs (o ∷ os) at apply_at h =
    elim (Option-cases (settle_one cs vs o (apply_at (length os)))) [
      | inl e ↦ rw e h
      | inr (result, e) ↦ elim (Result-cases result) [
        | inl (ds, p) ↦
            rw (e, p)
              (settle_outcomes-upto bs ds vs os at apply_at (
                upto_trans vs bs cs ds h
                  (settle_one-upto cs ds vs o (apply_at (length os)) (e ∙ ap some p))))
        | inr (x, p) ↦ rw (e, p) (upto_trans vs bs cs _ h (stop_all-upto vs cs _ at))
      ]
    ]

settle-upto :
    (cs : List Channel) (p : Pending) (reply : Result ClientError (List RenewalOutcome))
    (at : ℕ → Reading) (apply_at : ℕ → ApplyReadings)
    → AcknowledgesUpTo p.refresh_revisions cs (batch_of (settle cs p reply at apply_at))
unfolding settle
settle-upto cs p (ok os) at apply_at = elim (Bool-cases (mismatched os p.request.attempts)) [
  | inl e ↦ rw e (stop_all-upto p.refresh_revisions cs _ at)
  | inr e ↦ rw e (
      settle_outcomes-upto cs cs p.refresh_revisions os at apply_at
        (upto_refl p.refresh_revisions cs))
]
settle-upto cs p (err e) at apply_at = elim (Bool-cases (retryable e)) [
  | inl again ↦ rw again (upto_refl p.refresh_revisions cs)
  | inr fatal ↦ rw fatal (stop_all-upto p.refresh_revisions cs _ at)
]

prepare-revisions :
    (cs : List Channel) (uuid : Option Bytes) (head_at at : ℕ → Reading) (p : Pending)
    → prepare cs none uuid head_at at ≡ calls p
    → p.refresh_revisions ≡ revisions cs
unfolding prepare
prepare-revisions cs uuid head_at at p h = ground arith

-- A call that was put together from the batch `cs` acknowledges, whatever its reply, no refresh
-- beyond those that `cs` had asked for: not one that other tasks ask for while it is under way.
pub refresh_barrier :
    (cs : List Channel) (others : List (ℕ × Call)) (uuid : Option Bytes) (head_at at : ℕ → Reading)
    (p : Pending) (reply : Result ClientError (List RenewalOutcome)) (stop_at : ℕ → Reading)
    (apply_at : ℕ → ApplyReadings)
    → prepare cs none uuid head_at at ≡ calls p
    → AcknowledgesUpTo
        (revisions cs)
        (interfere cs others)
        (batch_of (settle (interfere cs others) p reply stop_at apply_at))
refresh_barrier cs others uuid head_at at p reply stop_at apply_at h =
    rw (← prepare-revisions cs uuid head_at at p h)
      (settle-upto (interfere cs others) p reply stop_at apply_at)
