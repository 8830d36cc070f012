-- ===== src/Journal/Summary.antt =====
-- `summarize` of rust/worker/src/log_summary.rs, on the segments of a record.
use distributed_execution.Base.{
  ℕ, All, ◌-◌, ◌+◌, ◌≤◌, ◌≡◌, refl, sym, ap, ◌∙◌, arith, Bool, true, false, not, ◌&&◌, ◌||◌, ◌==◌,
  ltb, leb, if◌then◌else◌, Option, none, some, List, [], ◌∷◌, ◌++◌, Result, ok, guarded,
  required_ok, >>=-ok, Option-cases, Bool-cases, inl, inr, same_ok, is_empty, i64_max, length,
}
use distributed_execution.Control.{
  AttemptAuthority, LogGap, LogStream, canonical_uuid, FinalizeUploadRequest,
  FinalizeUploadResponse,
}
use distributed_execution.Log.Slots.{Slot, slot_stdout, slot_stderr, Two, get, put, index}
use distributed_execution.Log.Summary.{
  Range, Tally, no_ranges, add_range, add_ranges, LogSummary, SummaryError, summarize_ranges,
}
use distributed_execution.Registration.{log_stream_try_from, validate_request}
use distributed_execution.Registration.Captured.{passed, ranged, counted, Ascends}
use distributed_execution.Upload.{
  validate_create, validate_finalization, validate_artifact, scoped_key,
}
use distributed_execution.Journal.Records.{JournalError, invalid, LogUpload, Record, is_none}
use distributed_execution.Journal.Uploads.{as_invalid, fresh_in, finalizes}
use distributed_execution.Journal.Success.{as_invalid-ok}
use distributed_execution.Journal.Segments.{
  Seen, nothing_seen, slot_of, probe, continues, advanced, check_log, check_logs, check_grant,
  check_finalization, check_response, check_registration, validate_logs, registers,
}

-- The range of a segment. The stream is a valid one, or `stream()` panics, which is `none`.
abbrev pub range_of : LogUpload → Option Range
range_of log = elim (log_stream_try_from log.stream) [
  | none ↦ none
  | some stream ↦ some (record {
    stream = stream;
    first = log.first_sequence;
    last = log.last_sequence;
    gaps = log.gaps;
    registered = log.registered;
  })
]

abbrev with_range : Option Range → Option (List Range) → Option (List Range)
with_range (some range) (some ranges) = some (range ∷ ranges)
with_range _ _ = none

abbrev pub ranges_of : List LogUpload → Option (List Range)
ranges_of [] = some []
ranges_of (log ∷ logs) = with_range (range_of log) (ranges_of logs)

abbrev pub summarize :
    List LogUpload
    → (captured : Two ℕ) → (capture_finished : Bool) → Option (Result SummaryError LogSummary)
summarize logs captured capture_finished = elim (ranges_of logs) [
  | none ↦ none
  | some ranges ↦ some (summarize_ranges ranges captured capture_finished)
]

-- The later checks of a segment leave the stream's variables.
abbrev Same : Seen → Seen → Type 0
Same a b = (b.last ≡ a.last) × (b.previous_registered ≡ a.previous_registered)

abbrev same_seen : (a b : Seen) → ◌≡◌ {A = Result JournalError Seen} (ok a) (ok b) → Same a b
same_seen a b h =
    let e : a ≡ b = same_ok h in
    (ap (λ (s : Seen). s.last) (sym e), ap (λ (s : Seen). s.previous_registered) (sym e))

registration_same :
    (seen seen' : Seen) (log : LogUpload) (answer : FinalizeUploadResponse)
    → check_registration seen log answer ≡ ok seen'
    → Same seen seen'
unfolding check_registration
registration_same seen seen' log answer h = elim (Option-cases log.registration) [
  | inl without ↦
      let (_, h1) =
        guarded (not log.registered) invalid _ (rw (without, check_registration) at h) in
      same_seen seen seen' h1
  | inr (register, with_one) ↦
      let (_, _, h1) =
        >>=-ok (as_invalid (validate_request register)) _
          (rw (with_one, check_registration) at h) in
      let (_, h2) = guarded (registers log answer register) invalid _ h1 in
      let (_, _, h3) = >>=-ok (fresh_in register.request_id seen.ids) _ h2 in same_seen _ seen' h3
]

response_same :
    (seen seen' : Seen) (log : LogUpload) (finalize : FinalizeUploadRequest)
    → check_response seen log finalize ≡ ok seen'
    → Same seen seen'
unfolding check_response
response_same seen seen' log finalize h = elim (Option-cases log.response) [
  | inl without ↦
      let (_, h1) =
        guarded (is_none log.registration && not log.registered) invalid _
          (rw (without, check_response) at h) in
      same_seen seen seen' h1
  | inr (answer, with_one) ↦
      let (_, _, h1) =
        >>=-ok (as_invalid (validate_artifact finalize answer)) _
          (rw (with_one, check_response) at h) in
      let (_, _, h2) = >>=-ok (fresh_in answer.artifact_id seen.artifacts) _ h1 in
      registration_same _ seen' log answer h2
]

finalization_same :
    (seen seen' : Seen) (log : LogUpload) → check_finalization seen log ≡ ok seen' → Same seen seen'
unfolding check_finalization
finalization_same seen seen' log h = elim (Option-cases log.finalization) [
  | inl without ↦
      let (_, h1) =
        guarded (is_none log.response && is_none log.registration && not log.registered) invalid _
          (rw (without, check_finalization) at h) in
      same_seen seen seen' h1
  | inr (finalize, with_one) ↦
      let (_, _, h1) =
        >>=-ok (as_invalid (validate_finalization finalize)) _
          (rw (with_one, check_finalization) at h) in
      let (object, _, h2) = required_ok finalize.object invalid _ h1 in
      let (_, h3) =
        guarded (finalizes log.declaration log.upload_id log.object_key finalize object) invalid _
          h2 in
      let (_, _, h4) = >>=-ok (fresh_in finalize.request_id seen.ids) _ h3 in
      response_same _ seen' log finalize h4
]

grant_same :
    (seen seen' : Seen) (log : LogUpload) → check_grant seen log ≡ ok seen' → Same seen seen'
unfolding check_grant
grant_same seen seen' log h = elim (Bool-cases (is_empty log.upload_id)) [
  | inl without ↦
      let (_, h1) =
        guarded
          (is_empty log.object_key
            && is_none log.finalization
            && is_none log.response
            && is_none log.registration
            && not log.registered)
          invalid _ (rw without at h) in
      same_seen seen seen' h1
  | inr granted ↦
      let (a, _, h1) = required_ok log.declaration.authority invalid _ (rw granted at h) in
      let (_, h2) =
        guarded (canonical_uuid log.upload_id && scoped_key log.object_key a log.upload_id) invalid
          _ h1 in
      let (_, _, h3) = >>=-ok (fresh_in log.upload_id seen.uploads) _ h2 in
      finalization_same _ seen' log h3
]

-- A stream whose last segment is registered: the tally has come as far, and has met no other.
abbrev Agrees : Seen → Tally → Slot → Type 0
Agrees seen t slot =
    get seen.previous_registered slot ≡ true
    → (get t.registered slot ≡ get seen.last slot) × (get t.unregistered slot ≡ false)

abbrev Matches : Seen → Tally → Type 0
Matches seen t = Agrees seen t slot_stdout × Agrees seen t slot_stderr

continued :
    (authority : Option AttemptAuthority) (seen : Seen) (slot : Slot) (log : LogUpload)
    → continues authority seen slot log ≡ true
    → (log.first_sequence ≡ get seen.last slot + 1) × (get seen.previous_registered slot ≡ true)
unfolding continues
continued authority seen slot log h = ground arith

-- A gap from a sequence on to a later one or the same.
abbrev pub IsProper : LogGap → Type 0
IsProper gap = (1 ≤ gap.first_sequence) × (gap.first_sequence ≤ gap.last_sequence)

Ascends-IsProper :
    (stream previous last : ℕ) (gaps : List LogGap)
    → Ascends stream previous last gaps
    → All IsProper gaps
Ascends-IsProper stream previous last [] h = tt
Ascends-IsProper stream previous last (gap ∷ gaps) (s, p, q, r, chain) =
    ((omega arith, q), Ascends-IsProper stream gap.last_sequence last gaps chain)

pub All-append :
    {A : Type 0} (P : A → Type 0) (xs ys : List A) → All P xs → All P ys → All P (xs ++ ys)
All-append P [] ys h k = k
All-append P (x ∷ xs) ys (h, hs) k = (h, All-append P xs ys hs k)

-- What a segment that passes the check is like.
segment :
    (authority : Option AttemptAuthority) (seen seen' : Seen) (log : LogUpload)
    → check_log authority seen log ≡ ok seen'
    → (slot : Slot) × (slot_of log.stream ≡ some slot)
      × (log.first_sequence ≡ get seen.last slot + 1)
      × (get seen.previous_registered slot ≡ true)
      × (log.first_sequence ≤ log.last_sequence)
      × (log.last_sequence ≤ i64_max)
      × All IsProper log.gaps
      × Same (advanced seen slot log) seen'
unfolding check_log
segment authority seen seen' log h =
    let (_, _, h1) = >>=-ok (as_invalid (validate_create log.declaration)) _ h in
    let (slot, known, h2) = required_ok (slot_of log.stream) invalid _ h1 in
    let (_, _, h3) = >>=-ok (fresh_in log.declaration.request_id seen.ids) _ h2 in
    let (follows, h4) = guarded (continues authority seen slot log) invalid _ h3 in
    let (_, probed, h5) = >>=-ok (as_invalid (validate_request (probe log))) _ h4 in
    let (_, tests, counts, _) =
      passed (probe log) (as_invalid-ok (validate_request (probe log)) probed) in
    let (_, order, high, _) = ranged (probe log) tests in
    let (first, registered) = continued authority seen slot log follows in
    let (chain, _) = counted (probe log) (log.first_sequence - 1) 0 log.gaps counts in
    let proper =
      Ascends-IsProper log.stream (log.first_sequence - 1) log.last_sequence log.gaps chain in
    (
      slot,
      known,
      first,
      registered,
      order,
      high,
      proper,
      grant_same (advanced seen slot log) seen' log h5,
    )

abbrev after_range : Tally → Slot → Range → Tally
after_range t slot range =
    if range.registered
    then record t { registered = put t.registered slot range.last; gaps = t.gaps ++ range.gaps }
    else record t { unregistered = put t.unregistered slot true }

in_order :
    (first last high before : ℕ) (registered unregistered : Bool)
    → 1 ≤ first
    → first ≤ last
    → last ≤ high
    → first ≡ before + 1
    → unregistered ≡ false
    → not (
        first == 0
        || ltb last first
        || ltb high last
        || registered && (unregistered || not (first == before + 1)))
      ≡ true
in_order first last high before registered unregistered p q r s u = ground arith

added :
    (t : Tally) (range : Range) (slot : Slot)
    → index range.stream ≡ some slot
    → 1 ≤ range.first
    → range.first ≤ range.last
    → range.last ≤ i64_max
    → range.first ≡ get t.registered slot + 1
    → get t.unregistered slot ≡ false
    → add_range t range ≡ ok (after_range t slot range)
unfolding add_range
added t range slot known p q r s u =
    rw
      (
        known,
        in_order range.first range.last i64_max (get t.registered slot) range.registered
            (get t.unregistered slot) p q r s u,
      )
      refl

stream_known :
    (code : ℕ) (slot : Slot)
    → slot_of code ≡ some slot
    → (stream : LogStream) × (log_stream_try_from code ≡ some stream) × (index stream ≡ some slot)
stream_known code slot h = elim (Option-cases (log_stream_try_from code)) [
  | inl unknown ↦ absurd (nothing (rw (unknown, slot_of) at h))
  | inr (stream, known) ↦ (stream, known, rw (known, slot_of) at h)
]
  where
    nothing : ◌≡◌ {A = Option Slot} none (some slot) → ⊥
    nothing e = cc

-- The tally after a segment agrees with the check after it.
still-Matches :
    (seen : Seen) (t : Tally) (slot : Slot) (log : LogUpload) (range : Range)
    → range.last ≡ log.last_sequence
    → range.registered ≡ log.registered
    → get t.unregistered slot ≡ false
    → Matches seen t
    → Matches (advanced seen slot log) (after_range t slot range)
still-Matches seen t slot_stdout log range l g u (out, errors) = elim (Bool-cases log.registered) [
  | inl is_registered ↦ rw (after_range, g, is_registered) ((λ e. (l, u)), errors)
  | inr is_not ↦ rw (after_range, g, is_not) ((λ e. absurd (ground arith)), errors)
]
still-Matches seen t slot_stderr log range l g u (out, errors) = elim (Bool-cases log.registered) [
  | inl is_registered ↦ rw (after_range, g, is_registered) (out, (λ e. (l, u)))
  | inr is_not ↦ rw (after_range, g, is_not) (out, (λ e. absurd (ground arith)))
]

Agrees-at : (seen : Seen) (t : Tally) (slot : Slot) → Matches seen t → Agrees seen t slot
Agrees-at seen t slot_stdout (out, errors) = out
Agrees-at seen t slot_stderr (out, errors) = errors

Matches-same : (a b : Seen) (t : Tally) → Same a b → Matches a t → Matches b t
Matches-same a b t (last, registered) (out, errors) = rw (last, registered) (out, errors)

range_made :
    (log : LogUpload) (stream : LogStream)
    → log_stream_try_from log.stream ≡ some stream
    → range_of log
      ≡ some (record {
        stream = stream;
        first = log.first_sequence;
        last = log.last_sequence;
        gaps = log.gaps;
        registered = log.registered;
      })
range_made log stream h = rw (range_of, h) refl

-- The ranges of the segments, and the tally of the first loop over them.
abbrev pub Tallies : Tally → List LogUpload → Type 0
Tallies t logs =
    (ranges : List Range) × (t' : Tally) × (ranges_of logs ≡ some ranges)
    × (add_ranges t ranges ≡ ok t')
    × (All IsProper t.gaps → All IsProper t'.gaps)

after_range-IsProper :
    (t : Tally) (slot : Slot) (range : Range)
    → All IsProper range.gaps
    → All IsProper t.gaps
    → All IsProper (after_range t slot range).gaps
after_range-IsProper t slot range h k = elim (Bool-cases range.registered) [
  | inl is_registered ↦ rw (after_range, is_registered) (All-append IsProper t.gaps range.gaps k h)
  | inr is_not ↦ rw (after_range, is_not) k
]

tallied :
    (authority : Option AttemptAuthority) (seen seen' : Seen) (t : Tally) (logs : List LogUpload)
    → check_logs authority seen logs ≡ ok seen'
    → Matches seen t
    → Tallies t logs
unfolding check_logs add_ranges
tallied authority seen seen' t [] h matches = ([], t, refl, refl, λ k. k)
tallied authority seen seen' t (log ∷ logs) h matches =
    let (seen1, one, rest) = >>=-ok (check_log authority seen log) _ h in
    let (slot, known, first, registered, order, high, proper, same) =
      segment authority seen seen1 log one in
    let (stream, named, placed) = stream_known log.stream slot known in
    let (reached, free) = Agrees-at seen t slot matches registered in
    let range : Range = record {
      stream = stream;
      first = log.first_sequence;
      last = log.last_sequence;
      gaps = log.gaps;
      registered = log.registered;
    } in
    let adding =
      added t range slot placed (omega arith) order high (first ∙ ap (λ n. n + 1) (sym reached))
        free in
    let (ranges, t', listed, summed, keeps) =
      tallied authority seen1 seen' (after_range t slot range) logs rest (
        Matches-same (advanced seen slot log) seen1 (after_range t slot range) same
          (still-Matches seen t slot log range refl refl free matches)) in
    (
      range ∷ ranges,
      t',
      rw (range_made log stream named, listed) refl,
      rw (adding, summed) refl,
      λ k. keeps (after_range-IsProper t slot range proper k),
    )

-- Each segment of a valid record names a stream, so that none of them panics, and the first loop of
-- the summary, over the ranges of the segments, ends without an error.
pub validate_logs-Tallies : (r : Record) → validate_logs r ≡ ok tt → Tallies no_ranges r.logs
unfolding validate_logs
validate_logs-Tallies r h =
    let (_, h1) =
      guarded (leb (length r.logs) 1024 && not (not (is_empty r.logs) && is_empty r.phase_reports))
        invalid _ h in
    let (seen, checked, _) = >>=-ok (check_logs r.assignment.authority nothing_seen r.logs) _ h1 in
    tallied r.assignment.authority nothing_seen seen no_ranges r.logs checked
      ((λ e. (refl, refl)), (λ e. (refl, refl)))
