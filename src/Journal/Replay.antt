-- ===== src/Journal/Replay.antt =====
-- Repeated reports of a phase in rust/worker/src/journal.rs.
use mathlib.Core.Path.{subst}
use distributed_execution.Base.{
  ◌≡◌, refl, ap, ◌∙◌, Option, none, some, List, [], ◌∷◌, ◌++◌, Bytes, Result, ok, err, pos, ℤ, ℤ_eq,
  ℤ_eq_iff, guarded, >>=-ok, Result-cases, Option-cases, Bool-cases, inl, inr, same_ok,
}
use distributed_execution.Phase.{AttemptState, ReportPhaseRequest}
use distributed_execution.Phase.Progress.{number}
use distributed_execution.Journal.Records.{JournalError, conflict, Record, Texts, is_none}
use distributed_execution.Journal.Ids.{new_uuid}
use distributed_execution.Journal.Store.{
  Directory, Wire, Journal, Change, keep, replace_by, required, save, update_record, perform,
  answered,
}
use distributed_execution.Journal.Saved.{save-required}
use distributed_execution.Journal.Attempts.{
  prepare_phase, prepare_phase_change, find_report, phase_report, phase_allowed, fresh_phase,
}

found_last :
    (phase : ℤ) (reports : List ReportPhaseRequest) (report : ReportPhaseRequest)
    → report.phase ≡ phase
    → find_report phase reports ≡ none
    → find_report phase (reports ++ (report ∷ [])) ≡ some report
unfolding find_report
found_last phase [] report h k = rw ((ℤ_eq_iff report.phase phase).1 h) refl
found_last phase (r ∷ rs) report h k = elim (Bool-cases (ℤ_eq r.phase phase)) [
  | inl same ↦ absurd (something (rw same at k))
  | inr other ↦ rw other (found_last phase rs report h (rw other at k))
]
  where
    something : ◌≡◌ {A = Option ReportPhaseRequest} (some r) none → ⊥
    something e = cc

abbrev Outcome : Type 0
Outcome = Result JournalError (Change ReportPhaseRequest)

-- The answer of an outcome, and its new record.
abbrev answer_of : ReportPhaseRequest → Outcome → ReportPhaseRequest
answer_of q (ok (keep a)) = a
answer_of q (ok (replace_by a r)) = a
answer_of q (err why) = q

abbrev record_of : Record → Outcome → Record
record_of r (ok (replace_by a r')) = r'
record_of r _ = r

-- A report that is made for a phase without one is found afterwards.
fresh_found :
    (phase : AttemptState) (fill : Option Bytes) (r r' : Record) (q : ReportPhaseRequest)
    → find_report (pos (number phase)) r.phase_reports ≡ none
    → fresh_phase phase fill r ≡ ok (replace_by q r')
    → find_report (pos (number phase)) r'.phase_reports ≡ some q
fresh_found phase fill r r' q first h =
    let (_, h1) = guarded (is_none r.completion) conflict _ h in
    let (allowed, _, h2) = >>=-ok (phase_allowed phase r) _ h1 in
    let (_, h3) = guarded allowed conflict _ h2 in
    let (event_id, _, h4) = >>=-ok (new_uuid fill) _ h3 in
    subst (λ (s : Record). find_report (pos (number phase)) s.phase_reports ≡ some q)
      (ap (record_of r) h4)
      (found_last (pos (number phase)) r.phase_reports (phase_report phase event_id r) refl first
        ∙ ap some (ap (answer_of q) h4))

never_kept :
    (phase : AttemptState) (fill : Option Bytes) (r : Record) (q : ReportPhaseRequest)
    → fresh_phase phase fill r ≡ ok (keep q)
    → ⊥
never_kept phase fill r q h =
    let (_, h1) = guarded (is_none r.completion) conflict _ h in
    let (allowed, _, h2) = >>=-ok (phase_allowed phase r) _ h1 in
    let (_, h3) = guarded allowed conflict _ h2 in
    let (event_id, _, h4) = >>=-ok (new_uuid fill) _ h3 in
    clash (phase_report phase event_id r) _ h4
  where
    clash :
        (a : ReportPhaseRequest) (s : Record)
        → ◌≡◌ {A = Outcome} (ok (replace_by a s)) (ok (keep q))
        → ⊥
    clash a s e = cc

-- A saved report is kept as it is.
outcome_kept :
    (phase : AttemptState) (fill : Option Bytes) (r : Record) (q : ReportPhaseRequest)
    → prepare_phase_change phase fill r ≡ ok (keep q)
    → find_report (pos (number phase)) r.phase_reports ≡ some q
unfolding prepare_phase_change
outcome_kept phase fill r q h =
    elim (Option-cases (find_report (pos (number phase)) r.phase_reports)) [
      | inl first ↦ absurd (never_kept phase fill r q (rw (first, prepare_phase_change) at h))
      | inr (saved, found) ↦
          found ∙ ap some (ap (answer_of q) (rw (found, prepare_phase_change) at h))
    ]

outcome_replaced :
    (phase : AttemptState) (fill : Option Bytes) (r r' : Record) (q : ReportPhaseRequest)
    → prepare_phase_change phase fill r ≡ ok (replace_by q r')
    → find_report (pos (number phase)) r'.phase_reports ≡ some q
unfolding prepare_phase_change
outcome_replaced phase fill r r' q h =
    elim (Option-cases (find_report (pos (number phase)) r.phase_reports)) [
      | inl first ↦ fresh_found phase fill r r' q first (rw (first, prepare_phase_change) at h)
      | inr (saved, found) ↦ absurd (clash saved (rw (found, prepare_phase_change) at h))
    ]
  where
    clash : (a : ReportPhaseRequest) → ◌≡◌ {A = Outcome} (ok (keep a)) (ok (replace_by q r')) → ⊥
    clash a e = cc

module _ (t : Texts) (w : Wire) (d : Directory w.Encoded) where
  abbrev End : Type 0
  End = Result JournalError ReportPhaseRequest × Journal t w d

  -- A journal in which the report is found answers with it and does not change.
  found_again :
      (j : Journal t w d) (id : Bytes) (phase : AttemptState) (fill : Option Bytes) (r : Record)
      (q : ReportPhaseRequest)
      → required t w d j id ≡ ok r
      → find_report (pos (number phase)) r.phase_reports ≡ some q
      → prepare_phase t w d j id phase fill ≡ (ok q, j)
  unfolding prepare_phase
  found_again j id phase fill r q saved found = rw (saved, prepare_phase_change, found) refl

  refused :
      (why : JournalError) (q : ReportPhaseRequest)
      → ◌≡◌ {A = Result JournalError ReportPhaseRequest} (err why) (ok q)
      → ⊥
  refused why q e = cc

  answered_ok :
      (a q : ReportPhaseRequest) (j' : Journal t w d)
      (end : Result JournalError (Unit {0}) × Journal t w d)
      → answered t w d a end ≡ (ok q, j')
      → (end ≡ (ok tt, j')) × (a ≡ q)
  answered_ok a q j' (ok u, k) h =
      (ap (λ (x : End). (ok tt, x.1)) h, same_ok (ap (λ (x : End). x.0) h))
  answered_ok a q j' (err why, k) h = absurd (refused why q (ap (λ (x : End). x.0) h))

  outcome_replays :
      (j j' : Journal t w d) (id : Bytes) (phase : AttemptState) (fill : Option Bytes) (r : Record)
      (q : ReportPhaseRequest)
      → required t w d j id ≡ ok r
      → (outcome : Outcome) → prepare_phase_change phase fill r ≡ outcome
      → perform t w d j id outcome ≡ (ok q, j')
      → (s : Record) × (required t w d j' id ≡ ok s)
        × (find_report (pos (number phase)) s.phase_reports ≡ some q)
  outcome_replays j j' id phase fill r q saved (err why) e h =
      absurd (refused why q (ap (λ (end : End). end.0) h))
  outcome_replays j j' id phase fill r q saved (ok (keep a)) e h =
      let answer : a ≡ q = same_ok (ap (λ (end : End). end.0) h) in
      (
        r,
        subst (λ (k : Journal t w d). required t w d k id ≡ ok r) (ap (λ (end : End). end.1) h)
            saved,
        outcome_kept phase fill r a e ∙ ap some answer,
      )
  outcome_replays j j' id phase fill r q saved (ok (replace_by a r')) e h =
      let (written, answer) = answered_ok a q j' (save t w d j id r') h in
      (
        r',
        (save-required t w d j j' id r' written).0,
        outcome_replaced phase fill r r' a e ∙ ap some answer,
      )

  -- A phase that was reported is reported again by the very same request, whatever is drawn for it,
  -- and nothing is written.
  pub prepare_phase-replay :
      (j j' : Journal t w d) (id : Bytes) (phase : AttemptState) (fill again : Option Bytes)
      (q : ReportPhaseRequest)
      → prepare_phase t w d j id phase fill ≡ (ok q, j')
      → prepare_phase t w d j' id phase again ≡ (ok q, j')
  unfolding prepare_phase update_record
  prepare_phase-replay j j' id phase fill again q h = elim (Result-cases (required t w d j id)) [
    | inl (r, saved) ↦
        let (s, loaded, found) =
          outcome_replays j j' id phase fill r q saved (prepare_phase_change phase fill r) refl
            (rw saved at h) in
        found_again j' id phase again s q loaded found
    | inr (why, none_loaded) ↦
        absurd (refused why q (ap (λ (end : End). end.0) (rw none_loaded at h)))
  ]
