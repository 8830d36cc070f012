-- ===== src/Journal/Success.antt =====
-- What a record of rust/worker/src/journal.rs that passes its check says of a success.
use distributed_execution.Base.{
  ◌≡◌, refl, ap, arith, Bool, true, false, not, ◌&&◌, ◌||◌, Option, none, some, Bytes, Result, ok,
  err, is_empty, leb, length, pos, ℤ_eq, ℤ_eq_iff, equals_iff, option_eq, integer_eq, guarded,
  required_ok, >>=-ok, same_ok, [],
}
use distributed_execution.Control.{
  CompleteAttemptRequest, authority_equality, lower_hash, configuration,
}
use distributed_execution.Completion.{validate_request}
use distributed_execution.Evidence.{completion_digest}
use distributed_execution.Evidence.Bound.{IsEvidence, completion_digest-IsEvidence}
use distributed_execution.Execution.{from_assignment}
use distributed_execution.Journal.Records.{invalid, ExitEvidence, Record, Texts, last_phase}
use distributed_execution.Journal.Uploads.{as_invalid}
use distributed_execution.Journal.Validity.{
  validate, validate_completion, check_rejected, check_completion, completion_fits, success_fits,
  identified, observed, check_reports, clean_exit, exit_observed,
}

pub as_invalid-ok :
    {E A : Type 0} (outcome : Result E A) {a : A} → as_invalid outcome ≡ ok a → outcome ≡ ok a
as_invalid-ok (ok b) h = ap ok (same_ok h)
as_invalid-ok (err why) h = cc

-- The checks that a valid record has passed.
checked :
    (t : Texts) (r : Record) (worker id : Bytes)
    → validate t r worker id ≡ ok tt
    → (observed r ≡ true) × (check_completion t r ≡ ok tt)
unfolding validate validate_completion
checked t r worker id h =
    let (a, _, h1) = required_ok r.assignment.authority invalid _ h in
    let (_, h2) = guarded (identified r.assignment a worker id) invalid _ h1 in
    let (_, _, h3) = >>=-ok (as_invalid (from_assignment t.documents r.assignment)) _ h2 in
    let (seen, h4) = guarded (observed r) invalid _ h3 in
    let (_, _, h5) = >>=-ok (check_reports r a true 0 [] r.phase_reports) _ h4 in
    let (_, completed, _) = >>=-ok (validate_completion t r) _ h5 in
    let (_, _, h6) = >>=-ok (check_rejected t r) _ completed in (seen, h6)

-- The checks that its completion has passed.
completion_checked :
    (t : Texts) (r : Record) (c : CompleteAttemptRequest)
    → check_completion t r ≡ ok tt
    → r.completion ≡ some c
    → (validate_request t.encoding c ≡ ok tt)
      × (completion_fits r c ≡ true)
      × (success_fits r c ≡ true)
unfolding check_completion
completion_checked t r c h e =
    let (_, requested, h1) =
      >>=-ok (as_invalid (validate_request t.encoding c)) _ (rw (e, check_completion) at h) in
    let (fits, h2) = guarded (completion_fits r c) invalid _ h1 in
    let (success, _) = guarded (success_fits r c) invalid _ h2 in
    (as_invalid-ok (validate_request t.encoding c) requested, fits, success)

request_evidence :
    (t : Texts) (c : CompleteAttemptRequest) → validate_request t.encoding c ≡ ok tt → IsEvidence c
unfolding validate_request
request_evidence t c h =
    let (_, h1) = guarded (lower_hash c.payload_sha256) configuration _ h in
    let (digest, made, _) = >>=-ok (completion_digest t.encoding c) _ h1 in
    (completion_digest-IsEvidence t.encoding c digest made).0

clean :
    (exit : Option ExitEvidence)
    → clean_exit exit ≡ true
    → exit ≡ some (record { exit_code = pos 0; oom_killed = false })
clean none h = absurd (ground arith)
clean (some e) h = ap some (cleaned e (ground arith) (ground arith))
  where
    cleaned :
        (x : ExitEvidence)
        → ℤ_eq x.exit_code (pos 0) ≡ true
        → x.oom_killed ≡ false
        → x ≡ record { exit_code = pos 0; oom_killed = false }
    cleaned x k l = let code : x.exit_code ≡ pos 0 = (ℤ_eq_iff x.exit_code (pos 0)).0 k in cc

bound_exit :
    (r : Record)
    → observed r ≡ true
    → (e : ExitEvidence) → r.exit ≡ some e
    → lower_hash r.container_id ≡ true
unfolding observed
bound_exit r h e k =
    hashed (leb (length r.phase_reports) 3) (is_empty r.container_id) (lower_hash r.container_id)
      (not (is_empty r.phase_reports)) (exit_observed r.container_id r.exit) h
      (λ o. exit_bound r.container_id e (rw k at o))
  where
    hashed :
        (few empty lower reported exited : Bool)
        → (few && (empty || lower && reported) && exited) ≡ true
        → (exited ≡ true → empty ≡ false)
        → lower ≡ true
    hashed few true lower reported true x y = absurd (false_true (y refl))
      where
        false_true : true ≡ false → ⊥
        false_true z = cc
    hashed few true lower reported false x y = absurd (ground arith)
    hashed few false lower reported exited x y = ground arith

    exit_bound :
        (container_id : Bytes) (exit : ExitEvidence)
        → exit_observed container_id (some exit) ≡ true
        → is_empty container_id ≡ false
    exit_bound container_id exit x = ground arith

succeeds :
    (r : Record) (c : CompleteAttemptRequest)
    → success_fits r c ≡ true
    → c.reason ≡ pos 0
    → (last_phase r.phase_reports ≡ some (pos 4)) × (clean_exit r.exit ≡ true)
unfolding success_fits
succeeds r c h k =
    ground (
      arith,
      (ℤ_eq_iff c.reason (pos 0)).1 k,
      equals_iff (last_phase r.phase_reports) (some (pos 4)),
    )

-- A valid record has a success only of an attempt whose last report is that it finalizes, which has
-- a container, and whose container was seen to exit with code zero and not to run out of memory;
-- the completion claims this exit, and that everything has stopped.
pub validate-success :
    (t : Texts) (r : Record) (worker id : Bytes) (c : CompleteAttemptRequest)
    → validate t r worker id ≡ ok tt
    → r.completion ≡ some c
    → c.reason ≡ pos 0
    → (last_phase r.phase_reports ≡ some (pos 4))
      × (lower_hash r.container_id ≡ true)
      × (r.exit ≡ some (record { exit_code = pos 0; oom_killed = false }))
      × (c.exit_code ≡ some (pos 0))
      × (c.stopped ≡ true)
validate-success t r worker id c valid completed success =
    let (seen, completion) = checked t r worker id valid in
    let (requested, _, fits) = completion_checked t r c completion completed in
    let (last, exited) = succeeds r c fits success in
    let exit = clean r.exit exited in
    let (zero_exit, stopped) = (request_evidence t c requested).success success in
    (last, bound_exit r seen _ exit, exit, zero_exit, stopped)
