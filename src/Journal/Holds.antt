-- ===== src/Journal/Holds.antt =====
-- What a call of the journal of rust/worker/src/journal.rs leaves of a saved attempt.
use mathlib.Core.Path.{subst}
use distributed_execution.Base.{
  ◌≡◌, refl, sym, ap, ◌∙◌, ◌⊎◌, inl, inr, Option, none, some, Bytes, bytes_eq, bytes_eq_iff, Result,
  ok, err, ok_or, Result-cases, Bool-cases, same_ok,
}
use distributed_execution.Control.{canonical_uuid}
use distributed_execution.Journal.Records.{JournalError, invalid, Record, Texts}
use distributed_execution.Journal.Store.{
  Directory, Wire, Journal, Change, keep, replace_by, load_attempt, required, save, update_record,
  perform, answered, attempt_name,
}
use distributed_execution.Journal.Saved.{save-Saves}
use distributed_execution.Journal.Attempts.{if_ok}
use distributed_execution.Journal.Advances.{Advances, Advances-trans, Keeps}

module _ (t : Texts) (w : Wire) (d : Directory w.Encoded) where
  -- The attempt's record goes on from `r`, or the directory fails every read.
  abbrev pub Holds : Journal t w d → Bytes → Record → Type 0
  Holds j id r =
      d.Failed j.directory ⊎ ((r' : Record) × (required t w d j id ≡ ok r') × Advances r r')

  failed_required :
      (j : Journal t w d) (id : Bytes)
      → d.Failed j.directory
      → (why : JournalError) × (load_attempt t w d j id ≡ err why)
  unfolding load_attempt
  failed_required j id failed = elim (Bool-cases (canonical_uuid id)) [
    | inl canonical ↦
        let (why, refused) = d.read-failed j.directory (attempt_name id) failed in
        (why, rw (canonical, refused) refl)
    | inr other ↦ (invalid, rw other refl)
  ]

  pub required_loaded :
      (j : Journal t w d) (id : Bytes) (r : Record)
      → required t w d j id ≡ ok r
      → load_attempt t w d j id ≡ ok (some r)
  unfolding required
  required_loaded j id r h = elim (Result-cases (load_attempt t w d j id)) [
    | inl (found, loaded) ↦ loaded ∙ ap ok (there found (rw loaded at h))
    | inr (why, refused) ↦ absurd (nothing why (rw refused at h))
  ]
    where
      there :
          (o : Option Record)
          → ◌≡◌ {A = Result JournalError Record} (ok_or o invalid) (ok r)
          → o ≡ some r
      there none e = cc
      there (some a) e = ap some (same_ok e)

      nothing : (why : JournalError) → ◌≡◌ {A = Result JournalError Record} (err why) (ok r) → ⊥
      nothing why e = cc

  pub not_failed :
      (j : Journal t w d) (id : Bytes) (found : Option Record)
      → load_attempt t w d j id ≡ ok found
      → d.Failed j.directory
      → ⊥
  not_failed j id found loaded failed =
      clash (failed_required j id failed).0 (sym (failed_required j id failed).1 ∙ loaded)
    where
      clash :
          (why : JournalError)
          → ◌≡◌ {A = Result JournalError (Option Record)} (err why) (ok found)
          → ⊥
      clash why e = cc

  -- A save of a record that goes on from the saved one keeps every attempt.
  pub save-Holds :
      (j : Journal t w d) (id target : Bytes) (r r' : Record) (found : Option Record)
      → load_attempt t w d j id ≡ ok found
      → ((s : Record) → required t w d j id ≡ ok s → Advances s r')
      → Holds j target r
      → Holds (save t w d j id r').1 target r
  save-Holds j id target r r' found loaded further (inl failed) =
      absurd (not_failed j id found loaded failed)
  save-Holds j id target r r' found loaded further (inr (s, saved, advanced)) =
      elim (save-Saves t w d j id r').1 [
        | inl (why, _, inl same) ↦
            subst (λ (k : Journal t w d). Holds k target r) (sym same) (inr (s, saved, advanced))
        | inl (why, _, inr failed) ↦ inl failed
        | inr (_, written, others) ↦ elim (Bool-cases (bytes_eq target id)) [
          | inl same ↦
              let here : target ≡ id = (bytes_eq_iff target id).0 same in
              inr (
                r',
                subst (λ x. required t w d (save t w d j id r').1 x ≡ ok r') (sym here) written,
                Advances-trans advanced
                    (further s (subst (λ x. required t w d j x ≡ ok s) here saved)),
              )
          | inr other ↦ inr (s, others target other ∙ saved, advanced)
        ]
      ]

  answered_journal :
      {A : Type 0} (a : A) (end : Result JournalError (Unit {0}) × Journal t w d)
      → (answered t w d a end).1 ≡ end.1
  answered_journal a (ok u, j) = refl
  answered_journal a (err why, j) = refl

  perform-Holds :
      {A : Type 0} (j : Journal t w d) (id target : Bytes) (r s : Record)
      (change : Record → Result JournalError (Change A))
      → required t w d j id ≡ ok s
      → Keeps change
      → Holds j target r
      → (outcome : Result JournalError (Change A)) → change s ≡ outcome
      → Holds (perform t w d j id outcome).1 target r
  perform-Holds j id target r s change saved keeps holds (err why) e = holds
  perform-Holds j id target r s change saved keeps holds (ok (keep a)) e = holds
  perform-Holds j id target r s change saved keeps holds (ok (replace_by a r')) e =
      subst (λ (k : Journal t w d). Holds k target r)
        (sym (answered_journal a (save t w d j id r')))
        (save-Holds j id target r r' (some s) (required_loaded j id s saved)
          (λ s' again. subst (λ x. Advances x r') (same_ok (sym saved ∙ again)) (keeps s r' a e))
          holds)

  pub update_record-Holds :
      {A : Type 0} (j : Journal t w d) (id target : Bytes) (r : Record)
      (change : Record → Result JournalError (Change A))
      → Keeps change
      → Holds j target r
      → Holds (update_record t w d j id change).1 target r
  unfolding update_record
  update_record-Holds j id target r change keeps holds = elim (Result-cases (required t w d j id)) [
    | inl (s, saved) ↦
        rw saved (perform-Holds j id target r s change saved keeps holds (change s) refl)
    | inr (why, refused) ↦ rw refused holds
  ]

  pub if_ok-Holds :
      {A E : Type 0} (j : Journal t w d) (target : Bytes) (r : Record)
      (first : Result JournalError E) (next : E → Result JournalError A × Journal t w d)
      → Holds j target r
      → ((found : E) → first ≡ ok found → Holds (next found).1 target r)
      → Holds (if_ok t w d j first next).1 target r
  if_ok-Holds j target r (err why) next holds further = holds
  if_ok-Holds j target r (ok found) next holds further = further found refl
