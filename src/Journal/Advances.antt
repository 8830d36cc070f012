-- ===== src/Journal/Advances.antt =====
-- What the operations of rust/worker/src/journal.rs keep of a record.
use mathlib.Core.List.{append-nil, append_assoc}
use distributed_execution.Base.{
  ◌≡◌, ◌≢◌, refl, sym, ap, ◌∙◌, ◌⊎◌, inl, inr, arith, Bool, true, false, Option, none, some, List,
  [], ◌∷◌, ◌++◌, Bytes, Result, ok, err, pos, option_eq, integer_eq, Extends, Extends-refl,
  Extends-trans,
}
use distributed_execution.Control.{
  CompleteAttemptRequest, CompleteAttemptResponse, authority_equality, completion_equality,
  completion_answer_equality,
}
use distributed_execution.Phase.{ReportPhaseRequest}
use distributed_execution.Journal.Records.{
  JournalError, ExitEvidence, exit_equality, OutputUpload, LogUpload, Record,
}
use distributed_execution.Journal.Kept.{
  OutputAdvances, output_stays, OutputAdvances-trans, LogAdvances, log_stays, LogAdvances-trans,
}
use distributed_execution.Journal.Store.{Change, keep, replace_by}
use distributed_execution.Journal.Attempts.{done, same_or_conflict}

-- The completion is the pending one or the may_supersede one.
abbrev pub Completes : Record → CompleteAttemptRequest → Type 0
Completes r c = (r.completion ≡ some c) ⊎ (r.rejected_completion ≡ some c)

-- The decisions that may follow a request to stop: fenced, or already terminal.
abbrev pub Ends : CompleteAttemptResponse → Type 0
Ends a = (a.decision ≡ pos 2) ⊎ (a.decision ≡ pos 4)

-- A completion with its answer is still the pending one. If the answer is a request to stop, the two
-- may also be the rejected ones, or the answer has made place for one that ends the attempt.
abbrev pub Answered : Record → CompleteAttemptRequest → CompleteAttemptResponse → Type 0
Answered r c a =
    ((r.completion ≡ some c) × (r.completion_response ≡ some a))
    ⊎ ((a.decision ≡ pos 3)
        × (((r.rejected_completion ≡ some c) × (r.rejected_response ≡ some a))
            ⊎ ((r.completion ≡ some c)
                × ((b : CompleteAttemptResponse) × (r.completion_response ≡ some b) × Ends b))))

-- What was recorded stays: of the container, the exit, the reports in their order, every
-- completion, every answer that is not a request to stop, and a rejected completion's answer. What
-- becomes of a request to stop is said, too.
pub record Advances (r r' : Record) : Type 0 where
  pub assignment : r'.assignment ≡ r.assignment
  pub container : (r.container_id ≡ []) ⊎ (r'.container_id ≡ r.container_id)
  pub exit : (e : ExitEvidence) → r.exit ≡ some e → r'.exit ≡ some e
  pub reports : (later : List ReportPhaseRequest) × (r'.phase_reports ≡ r.phase_reports ++ later)
  pub completion : (c : CompleteAttemptRequest) → Completes r c → Completes r' c
  pub rejection :
      (c : CompleteAttemptRequest)
      → r.rejected_completion ≡ some c
      → r'.rejected_completion ≡ some c
  pub answer :
      (a : CompleteAttemptResponse)
      → r.completion_response ≡ some a
      → a.decision ≢ pos 3
      → r'.completion_response ≡ some a
  pub rejected_answer :
      (c : CompleteAttemptRequest) (a : CompleteAttemptResponse)
      → r.rejected_completion ≡ some c
      → r.rejected_response ≡ some a
      → r'.rejected_response ≡ some a
  pub answered :
      (c : CompleteAttemptRequest) (a : CompleteAttemptResponse)
      → r.completion ≡ some c
      → r.completion_response ≡ some a
      → Answered r' c a
  pub outputs : Extends OutputAdvances r.outputs r'.outputs
  pub logs : Extends LogAdvances r.logs r'.logs

outputs_stay : (r : Record) → Extends OutputAdvances r.outputs r.outputs
outputs_stay r = Extends-refl OutputAdvances output_stays r.outputs

logs_stay : (r : Record) → Extends LogAdvances r.logs r.logs
logs_stay r = Extends-refl LogAdvances log_stays r.logs

pub stays : (r : Record) → Advances r r
stays r = record {
  assignment = refl;
  container = inr refl;
  exit = λ e h. h;
  reports = ([], sym (append-nil r.phase_reports));
  completion = λ c h. h;
  rejection = λ c h. h;
  answer = λ a h k. h;
  rejected_answer = λ c a h k. k;
  answered = λ c a h k. inl (h, k);
  outputs = outputs_stay r;
  logs = logs_stay r;
}

not-Ends : (a : CompleteAttemptResponse) → a.decision ≡ pos 3 → Ends a → ⊥
not-Ends a h (inl fenced) = ground (arith, sym h ∙ fenced)
not-Ends a h (inr terminal) = ground (arith, sym h ∙ terminal)

Answered-trans :
    {s t : Record}
    → Advances s t
    → (c : CompleteAttemptRequest) (a : CompleteAttemptResponse) → Answered s c a
    → Answered t c a
Answered-trans further c a (inl (h, k)) = further.answered c a h k
Answered-trans further c a (inr (stop, inl (h, k))) =
    inr (stop, inl (further.rejection c h, further.rejected_answer c a h k))
Answered-trans further c a (inr (stop, inr (h, (b, k, ends)))) = elim (further.answered c b h k) [
  | inl (h', k') ↦ inr (stop, inr (h', (b, k', ends)))
  | inr (again, _) ↦ absurd (not-Ends b again ends)
]

pub Advances-trans : {r s t : Record} → Advances r s → Advances s t → Advances r t
Advances-trans {r} {s} {t} a b = record {
  assignment = b.assignment ∙ a.assignment;
  container = elim a.container [
    | inl unbound ↦ inl unbound
    | inr same ↦ elim b.container [
      | inl unbound ↦ inl (sym same ∙ unbound)
      | inr again ↦ inr (again ∙ same)
    ]
  ];
  exit = λ e h. b.exit e (a.exit e h);
  reports = (
    a.reports.0 ++ b.reports.0,
    b.reports.1
        ∙ ap (λ l. l ++ b.reports.0) a.reports.1
        ∙ append_assoc r.phase_reports a.reports.0 b.reports.0,
  );
  completion = λ c h. b.completion c (a.completion c h);
  rejection = λ c h. b.rejection c (a.rejection c h);
  answer = λ x h k. b.answer x (a.answer x h k) k;
  rejected_answer = λ c x h k. b.rejected_answer c x (a.rejection c h) (a.rejected_answer c x h k);
  answered = λ c x h k. Answered-trans b c x (a.answered c x h k);
  outputs =
      Extends-trans OutputAdvances OutputAdvances-trans r.outputs s.outputs t.outputs a.outputs
        b.outputs;
  logs = Extends-trans LogAdvances LogAdvances-trans r.logs s.logs t.logs a.logs b.logs;
}

pub some_same :
    (a b : CompleteAttemptResponse)
    → ◌≡◌ {A = Option CompleteAttemptResponse} (some a) (some b)
    → a ≡ b
some_same a b h = ap (λ o. elim o [ none ↦ a | some x ↦ x ]) h

pub outputs-Advances :
    (r : Record) (outputs : List OutputUpload)
    → Extends OutputAdvances r.outputs outputs
    → Advances r (record r { outputs = outputs })
outputs-Advances r outputs further = record {
  assignment = refl;
  container = inr refl;
  exit = λ e h. h;
  reports = ([], sym (append-nil r.phase_reports));
  completion = λ c h. h;
  rejection = λ c h. h;
  answer = λ a h k. h;
  rejected_answer = λ c a h k. k;
  answered = λ c a h k. inl (h, k);
  outputs = further;
  logs = logs_stay r;
}

pub logs-Advances :
    (r : Record) (logs : List LogUpload)
    → Extends LogAdvances r.logs logs
    → Advances r (record r { logs = logs })
logs-Advances r logs further = record {
  assignment = refl;
  container = inr refl;
  exit = λ e h. h;
  reports = ([], sym (append-nil r.phase_reports));
  completion = λ c h. h;
  rejection = λ c h. h;
  answer = λ a h k. h;
  rejected_answer = λ c a h k. k;
  answered = λ c a h k. inl (h, k);
  outputs = outputs_stay r;
  logs = further;
}

-- A change keeps what was recorded.
abbrev pub Keeps : {A : Type 0} → (Record → Result JournalError (Change A)) → Type 0
Keeps {A} change = (r r' : Record) (a : A) → change r ≡ ok (replace_by a r') → Advances r r'

pub replaced :
    {A : Type 0} (a b : A) (r s : Record)
    → ◌≡◌ {A = Result JournalError (Change A)} (ok (replace_by a r)) (ok (replace_by b s))
    → r ≡ s
replaced a b r s h =
    ap (λ outcome. elim outcome [ err why ↦ r | ok (keep kept) ↦ r | ok (replace_by kept x) ↦ x ]) h

pub not_kept :
    {A : Type 0} (a b : A) (s : Record)
    → ◌≡◌ {A = Result JournalError (Change A)} (ok (keep a)) (ok (replace_by b s))
    → ⊥
not_kept a b s h = cc

pub same_not_replaced :
    (same : Bool) (u : Unit {0}) (s : Record) → same_or_conflict same ≡ ok (replace_by u s) → ⊥
same_not_replaced true u s h = not_kept done u s h
same_not_replaced false u s h = cc

pub container-Advances :
    (r : Record) (container_id : Bytes)
    → r.container_id ≡ []
    → Advances r (record r { container_id = container_id })
container-Advances r container_id unbound = record {
  assignment = refl;
  container = inl unbound;
  exit = λ e h. h;
  reports = ([], sym (append-nil r.phase_reports));
  completion = λ c h. h;
  rejection = λ c h. h;
  answer = λ a h k. h;
  rejected_answer = λ c a h k. k;
  answered = λ c a h k. inl (h, k);
  outputs = outputs_stay r;
  logs = logs_stay r;
}

pub exits :
    (r : Record) (evidence : ExitEvidence)
    → r.exit ≡ none
    → Advances r (record r { exit = some evidence })
exits r evidence running = record {
  assignment = refl;
  container = inr refl;
  exit = λ e h. absurd (ground arith);
  reports = ([], sym (append-nil r.phase_reports));
  completion = λ c h. h;
  rejection = λ c h. h;
  answer = λ a h k. h;
  rejected_answer = λ c a h k. k;
  answered = λ c a h k. inl (h, k);
  outputs = outputs_stay r;
  logs = logs_stay r;
}

pub reports_phase :
    (r : Record) (report : ReportPhaseRequest)
    → Advances r (record r { phase_reports = r.phase_reports ++ (report ∷ []) })
reports_phase r report = record {
  assignment = refl;
  container = inr refl;
  exit = λ e h. h;
  reports = (report ∷ [], refl);
  completion = λ c h. h;
  rejection = λ c h. h;
  answer = λ a h k. h;
  rejected_answer = λ c a h k. k;
  answered = λ c a h k. inl (h, k);
  outputs = outputs_stay r;
  logs = logs_stay r;
}

pub completes :
    (r : Record) (request : CompleteAttemptRequest)
    → r.completion ≡ none
    → Advances r (record r { completion = some request })
completes r request pending = record {
  assignment = refl;
  container = inr refl;
  exit = λ e h. h;
  reports = ([], sym (append-nil r.phase_reports));
  completion = λ c h. elim h [ inl saved ↦ absurd (ground arith) | inr before ↦ inr before ];
  rejection = λ c h. h;
  answer = λ a h k. h;
  rejected_answer = λ c a h k. k;
  answered = λ c a h k. absurd (ground arith);
  outputs = outputs_stay r;
  logs = logs_stay r;
}

pub answers :
    (r : Record) (answer : CompleteAttemptResponse)
    → ((saved : CompleteAttemptResponse)
        → r.completion_response ≡ some saved
        → (saved.decision ≡ pos 3) × Ends answer)
    → Advances r (record r { completion_response = some answer })
answers r answer stopping = record {
  assignment = refl;
  container = inr refl;
  exit = λ e h. h;
  reports = ([], sym (append-nil r.phase_reports));
  completion = λ c h. h;
  rejection = λ c h. h;
  answer = λ a h k. absurd (k (stopping a h).0);
  rejected_answer = λ c a h k. k;
  answered = λ c a h k. inr ((stopping a k).0, inr (h, (answer, refl, (stopping a k).1)));
  outputs = outputs_stay r;
  logs = logs_stay r;
}

pub supersedes :
    (r : Record) (request previous : CompleteAttemptRequest) (answer : CompleteAttemptResponse)
    → r.completion ≡ some previous
    → r.completion_response ≡ some answer
    → r.rejected_completion ≡ none
    → answer.decision ≡ pos 3
    → Advances r (record r {
      completion = some request;
      completion_response = none;
      rejected_completion = some previous;
      rejected_response = some answer;
    })
supersedes r request previous answer pending answered first stopping = record {
  assignment = refl;
  container = inr refl;
  exit = λ e h. h;
  reports = ([], sym (append-nil r.phase_reports));
  completion =
      λ c h. elim h [ inl saved ↦ inr (sym pending ∙ saved) | inr before ↦ absurd (ground arith) ];
  rejection = λ c h. absurd (ground arith);
  answer =
      λ a h k. absurd (k (ap (λ (x : CompleteAttemptResponse). x.decision) (only a h) ∙ stopping));
  rejected_answer = λ c a h k. absurd (ground arith);
  answered = λ c a h k. inr (
    ap (λ (x : CompleteAttemptResponse). x.decision) (only a k) ∙ stopping,
    inl (sym pending ∙ h, sym answered ∙ k),
  );
  outputs = outputs_stay r;
  logs = logs_stay r;
}
  where
    only : (a : CompleteAttemptResponse) → r.completion_response ≡ some a → a ≡ answer
    only a h = sym (some_same answer a (sym answered ∙ h))
