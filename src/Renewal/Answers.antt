-- ===== src/Renewal/Answers.antt =====
-- What the outcomes of rust/worker/src/control/renew.rs say of the server's results.
use distributed_execution.Base.{
  ◌≡◌, refl, ap₂, inl, inr, true, ◌==◌, ==_iff, some, List, [], ◌∷◌, map, length, ok, err, arith,
  Bool-cases, Option-cases,
}
use distributed_execution.Control.{
  AttemptAuthority, authority_eq, authority_eq_iff, RenewLeasesRequest, LeaseResult,
  decision_try_from, accepted, ends_attempt,
}
use distributed_execution.Lease.{MonoTime, expired, from_grant}
use distributed_execution.Renewal.{
  RenewalOutcome, renewed, rejected, lapsed, outcome_identity, decide, decode_result,
  decode_results, decode_renewals,
}

-- The outcome is what the result for that attempt means: a grant opened by `from_grant` between the
-- two readings, a grant that lapsed in between, or one of the three final decisions with no time.
abbrev pub Answers : MonoTime → MonoTime → LeaseResult → AttemptAuthority → RenewalOutcome → Type 0
Answers sent received g a (renewed grant) =
    (g.authority ≡ some a)
    × (grant.identity ≡ a)
    × (decision_try_from g.decision ≡ some accepted)
    × (from_grant sent received g.remaining_ms g.phase_remaining_ms ≡ ok grant.authority)
Answers sent received g a (lapsed identity) =
    (g.authority ≡ some a)
    × (identity ≡ a)
    × (decision_try_from g.decision ≡ some accepted)
    × (from_grant sent received g.remaining_ms g.phase_remaining_ms ≡ err expired)
Answers sent received g a (rejected identity decision) =
    (g.authority ≡ some a)
    × (identity ≡ a)
    × (decision_try_from g.decision ≡ some decision)
    × (ends_attempt decision ≡ true)
    × (g.remaining_ms ≡ 0)
    × (g.phase_remaining_ms ≡ 0)

-- One outcome for each result and attempt, in order.
abbrev pub AllAnswer :
    MonoTime → MonoTime → List LeaseResult → List AttemptAuthority → List RenewalOutcome → Type 0
AllAnswer sent received [] [] [] = Unit {0}
AllAnswer sent received (g ∷ gs) (a ∷ as') (o ∷ os) =
    Answers sent received g a o × AllAnswer sent received gs as' os
AllAnswer _ _ _ _ _ = ⊥

decide-Answers :
    (sent received : MonoTime) (g : LeaseResult) (a : AttemptAuthority) (outcome : RenewalOutcome)
    → g.authority ≡ some a
    → decide (decision_try_from g.decision) g a sent received ≡ ok outcome
    → Answers sent received g a outcome
unfolding decide
decide-Answers sent received g a (renewed grant) e h = ground arith
decide-Answers sent received g a (lapsed identity) e h = ground arith
decide-Answers sent received g a (rejected identity decision) e h = ground arith

decode_result-Answers :
    (sent received : MonoTime) (g : LeaseResult) (a : AttemptAuthority) (outcome : RenewalOutcome)
    → decode_result g a sent received ≡ ok outcome
    → Answers sent received g a outcome
unfolding decode_result
decode_result-Answers sent received g a outcome h = elim (Option-cases g.authority) [
  | inl e ↦ absurd (ground arith)
  | inr (identity, e) ↦ elim (Bool-cases (authority_eq identity a)) [
    | inl same ↦
        let eq : identity ≡ a = (authority_eq_iff identity a).0 same in
        decide-Answers sent received g a outcome (ground arith) (ground arith)
    | inr other ↦ absurd (ground arith)
  ]
]

Answers-identity :
    (sent received : MonoTime) (g : LeaseResult) (a : AttemptAuthority) (o : RenewalOutcome)
    → Answers sent received g a o
    → outcome_identity o ≡ a
Answers-identity sent received g a (renewed grant) h = h.1
Answers-identity sent received g a (lapsed identity) h = h.1
Answers-identity sent received g a (rejected identity decision) h = h.1

decode_results-AllAnswer :
    (sent received : MonoTime) (gs : List LeaseResult) (expected : List AttemptAuthority)
    (outcomes : List RenewalOutcome)
    → length gs ≡ length expected
    → decode_results gs expected sent received ≡ ok outcomes
    → AllAnswer sent received gs expected outcomes
unfolding decode_results
decode_results-AllAnswer sent received [] [] [] l h = tt
decode_results-AllAnswer sent received [] [] (o ∷ os) l h = absurd (ground arith)
decode_results-AllAnswer sent received [] (a ∷ expected) os l h = absurd (omega arith)
decode_results-AllAnswer sent received (g ∷ gs) [] os l h = absurd (omega arith)
decode_results-AllAnswer sent received (g ∷ gs) (a ∷ expected) [] l h = absurd (ground arith)
decode_results-AllAnswer sent received (g ∷ gs) (a ∷ expected) (o ∷ os) l h = (
  decode_result-Answers sent received g a o (ground arith),
  decode_results-AllAnswer sent received gs expected os (omega arith) (ground arith),
)

-- A decoded reply has exactly one outcome for each attempt of the request, in its order, and each
-- outcome is what the server's result for that very attempt means.
pub decode_renewals-AllAnswer :
    (request : RenewLeasesRequest) (results : List LeaseResult) (sent received : MonoTime)
    (outcomes : List RenewalOutcome)
    → decode_renewals request results sent received ≡ ok outcomes
    → AllAnswer sent received results request.attempts outcomes
unfolding decode_renewals
decode_renewals-AllAnswer request results sent received outcomes h =
    elim (Bool-cases (length results == length request.attempts)) [
      | inl same ↦
          decode_results-AllAnswer sent received results request.attempts outcomes
            ((==_iff (length results) (length request.attempts)).0 same) (ground arith)
      | inr other ↦ absurd (ground arith)
    ]

pub AllAnswer-identities :
    (sent received : MonoTime) (gs : List LeaseResult) (as' : List AttemptAuthority)
    (os : List RenewalOutcome)
    → AllAnswer sent received gs as' os
    → map outcome_identity os ≡ as'
AllAnswer-identities sent received [] [] [] h = refl
AllAnswer-identities sent received (g ∷ gs) (a ∷ as') (o ∷ os) h =
    ap₂ ◌∷◌ (Answers-identity sent received g a o h.0)
      (AllAnswer-identities sent received gs as' os h.1)
AllAnswer-identities sent received [] [] (o ∷ os) h = elim h [ ]
AllAnswer-identities sent received [] (a ∷ as') os h = elim h [ ]
AllAnswer-identities sent received (g ∷ gs) [] os h = elim h [ ]
AllAnswer-identities sent received (g ∷ gs) (a ∷ as') [] h = elim h [ ]
