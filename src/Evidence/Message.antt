-- ===== src/Evidence/Message.antt =====
-- The hashed message of rust/worker/src/control/completion_payload.rs, read back as the evidence.
use mathlib.Core.Path.{subst}
use mathlib.Core.List.{Perm, map}
use distributed_execution.Base.{
  ℕ, zero, suc, ◌/◌, ◌%◌, ◌-◌, ◌≡◌, refl, sym, ap, ap₂, ◌∙◌, arith, not, ◌&&◌, ◌==◌, ltb, leb,
  if◌then◌else◌, Option, none, some, List, [], ◌∷◌, is_empty, length, Bytes, bytes_eq, ascii, ok, ℤ,
  pos, negsuc, hex, hex_digit, sort_by, map-sort_by-Perm, any_neighbours, i64_max, >>=-ok, guarded,
  required_ok, same_ok,
}
use distributed_execution.Control.{
  AttemptAuthority, configuration, LogGap, OutputReference, CompleteAttemptRequest, FailureReason,
  failure_reason_unspecified, worker_lost, runtime_unavailable, transfer_failed, application_exit,
  oom, startup_timeout, execution_timeout, output_invalid, user_cancelled, finalization_timeout,
  failure_reason_try_from,
}
use distributed_execution.Evidence.Bound.{payload_outputs-Lists}
use distributed_execution.Registration.{log_stream_try_from}
use distributed_execution.Evidence.{
  Gap, Payload, Encoding, within_bounds, reason_fits, reason_name, gap_le, overlap, payload_outputs,
  stream_name, payload_gap, list_gaps, payload_gaps, payload_metrics, payload_for,
  completion_payload,
}

-- The digit's number.
abbrev digit_number : ℕ → ℕ
digit_number c = if ltb c 97 then c - 48 else c - 87

digit_number-hex_digit : (n : ℕ) → digit_number (hex_digit n) ≡ n
digit_number-hex_digit n = ground arith

hex_digit-injective : (m n : ℕ) → hex_digit m ≡ hex_digit n → m ≡ n
hex_digit-injective m n h =
    sym (digit_number-hex_digit m) ∙ ap digit_number h ∙ digit_number-hex_digit n

abbrev first_byte : Bytes → ℕ
first_byte [] = 0
first_byte (b ∷ bs) = b

abbrev after_first : Bytes → Bytes
after_first [] = []
after_first (b ∷ bs) = bs

-- Texts of hexadecimal digits that are the same are of the same bytes.
pub hex-injective : (xs ys : Bytes) → hex xs ≡ hex ys → xs ≡ ys
hex-injective [] [] h = refl
hex-injective [] (y ∷ ys) h = cc
hex-injective (x ∷ xs) [] h = cc
hex-injective (x ∷ xs) (y ∷ ys) h =
    let high = hex_digit-injective (x / 16) (y / 16) (ap first_byte h) in
    let low = hex_digit-injective (x % 16) (y % 16) (ap (λ l. first_byte (after_first l)) h) in
    ap₂ ◌∷◌ (omega arith) (hex-injective xs ys (ap (λ l. after_first (after_first l)) h))

abbrev reason_number : FailureReason → ℤ
reason_number failure_reason_unspecified = pos 0
reason_number worker_lost = pos 1
reason_number runtime_unavailable = pos 2
reason_number transfer_failed = pos 3
reason_number application_exit = pos 4
reason_number oom = pos 5
reason_number startup_timeout = pos 6
reason_number execution_timeout = pos 7
reason_number output_invalid = pos 8
reason_number user_cancelled = pos 9
reason_number finalization_timeout = pos 10

-- The number of a reason from its name: the names differ in their lengths or first letters.
abbrev number_of_name : Bytes → ℤ
number_of_name name =
    if length name == 0
    then pos 0
    else if length name == 11
    then pos 1
    else if length name == 19
    then pos 2
    else if length name == 16
    then pos 4
    else if length name == 3
    then pos 5
    else if length name == 17
    then pos 7
    else if length name == 20
    then pos 10
    else if first_byte name == b'T'
    then pos 3
    else if first_byte name == b'S'
    then pos 6
    else if first_byte name == b'O'
    then pos 8
    else pos 9

number_of_name-reason_name :
    (reason : FailureReason) → number_of_name (reason_name reason) ≡ reason_number reason
number_of_name-reason_name failure_reason_unspecified = refl
number_of_name-reason_name worker_lost = refl
number_of_name-reason_name runtime_unavailable = refl
number_of_name-reason_name transfer_failed = refl
number_of_name-reason_name application_exit = refl
number_of_name-reason_name oom = refl
number_of_name-reason_name startup_timeout = refl
number_of_name-reason_name execution_timeout = refl
number_of_name-reason_name output_invalid = refl
number_of_name-reason_name user_cancelled = refl
number_of_name-reason_name finalization_timeout = refl

abbrev number_or : ℤ → Option FailureReason → ℤ
number_or other none = other
number_or other (some reason) = reason_number reason

known_number : (code : ℤ) → number_or code (failure_reason_try_from code) ≡ code
known_number (negsuc n) = refl
known_number (pos zero) = refl
known_number (pos (suc zero)) = refl
known_number (pos (suc (suc zero))) = refl
known_number (pos (suc (suc (suc zero)))) = refl
known_number (pos (suc (suc (suc (suc zero))))) = refl
known_number (pos (suc (suc (suc (suc (suc zero)))))) = refl
known_number (pos (suc (suc (suc (suc (suc (suc zero))))))) = refl
known_number (pos (suc (suc (suc (suc (suc (suc (suc zero)))))))) = refl
known_number (pos (suc (suc (suc (suc (suc (suc (suc (suc zero))))))))) = refl
known_number (pos (suc (suc (suc (suc (suc (suc (suc (suc (suc zero)))))))))) = refl
known_number (pos (suc (suc (suc (suc (suc (suc (suc (suc (suc (suc zero))))))))))) = refl
known_number (pos (suc (suc (suc (suc (suc (suc (suc (suc (suc (suc (suc n)))))))))))) = refl

-- The name in the message tells the reason's number.
number-named :
    (code : ℤ) (reason : FailureReason)
    → failure_reason_try_from code ≡ some reason
    → number_of_name (reason_name reason) ≡ code
number-named code reason h =
    number_of_name-reason_name reason ∙ sym (ap (number_or code) h) ∙ known_number code

-- The gap that a gap of the message stands for.
abbrev ungap : Gap → LogGap
ungap gap = record {
  stream = if bytes_eq gap.stream (ascii "stdout") then 1 else 2;
  first_sequence = gap.first;
  last_sequence = gap.last;
}

abbrev stream_number : ℕ → Option Bytes → ℕ
stream_number other none = other
stream_number other (some name) = if bytes_eq name (ascii "stdout") then 1 else 2

known_stream : (code : ℕ) → stream_number code (stream_name (log_stream_try_from code)) ≡ code
unfolding bytes_eq
known_stream zero = refl
known_stream (suc zero) = refl
known_stream (suc (suc zero)) = refl
known_stream (suc (suc (suc n))) = refl

payload_gap-ungap : (gap : LogGap) (listed : Gap) → payload_gap gap ≡ ok listed → ungap listed ≡ gap
unfolding payload_gap
payload_gap-ungap gap listed h =
    let (name, named, h1) =
      required_ok (stream_name (log_stream_try_from gap.stream)) configuration _ h in
    let (_, h2) =
      guarded
        (not (gap.first_sequence == 0)
          && leb gap.first_sequence gap.last_sequence
          && leb gap.last_sequence i64_max)
        configuration _ h1 in
    let stream : (if bytes_eq name (ascii "stdout") then 1 else 2) ≡ gap.stream =
      sym (ap (stream_number gap.stream) named) ∙ known_stream gap.stream in
    ap ungap (sym (same_ok h2))
    ∙ ap
        (λ n. record {
          stream = n;
          first_sequence = gap.first_sequence;
          last_sequence = gap.last_sequence;
        })
        stream

list_gaps-ungap :
    (gaps : List LogGap) (listed : List Gap) → list_gaps gaps ≡ ok listed → map ungap listed ≡ gaps
unfolding list_gaps
list_gaps-ungap [] listed h = ap (map ungap) (sym (same_ok h))
list_gaps-ungap (gap ∷ gaps) listed h =
    let (first, one, h1) = >>=-ok (payload_gap gap) _ h in
    let (rest, others, h2) = >>=-ok (list_gaps gaps) _ h1 in
    ap (map ungap) (sym (same_ok h2))
    ∙ ap₂ ◌∷◌ (payload_gap-ungap gap first one) (list_gaps-ungap gaps rest others)

payload_gaps-ungap :
    (gaps : List LogGap) (listed : List Gap)
    → payload_gaps gaps ≡ ok listed
    → Perm (map ungap listed) gaps
unfolding payload_gaps
payload_gaps-ungap gaps listed h =
    let (named, naming, h1) = >>=-ok (list_gaps gaps) _ h in
    let (_, h2) =
      guarded (not (any_neighbours overlap (sort_by gap_le named))) configuration _ h1 in
    subst (λ l. Perm (map ungap l) gaps) (same_ok h2)
      (subst (λ l. Perm (map ungap (sort_by gap_le named)) l) (list_gaps-ungap gaps named naming)
        (map-sort_by-Perm gap_le ungap named))

module _ (e : Encoding) where
  -- What the message says of the request.
  pub record Says (r : CompleteAttemptRequest) (m : Payload e.Metrics) : Type 0 where
    pub authority : r.authority ≡ some m.authority
    pub exit_code : r.exit_code ≡ m.exit_code
    pub reason : r.reason ≡ number_of_name m.reason
    pub stopped : r.stopped ≡ m.stopped
    pub outputs : Perm m.outputs r.outputs
    pub logs_complete : r.logs_complete ≡ m.logs_complete
    pub gaps : Perm (map ungap m.gaps) r.gaps
    pub metrics : payload_metrics e r.metrics_json ≡ some m.metrics

  payload_outputs-Perm :
      (outputs listed : List OutputReference)
      → payload_outputs outputs ≡ ok listed
      → Perm listed outputs
  payload_outputs-Perm outputs listed h =
      let (_, _, perm) = payload_outputs-Lists outputs listed h in perm

  payload_for-Says :
      (a : AttemptAuthority) (r : CompleteAttemptRequest) (m : Payload e.Metrics)
      → r.authority ≡ some a
      → payload_for e a r ≡ ok m
      → Says r m
  unfolding payload_for
  payload_for-Says a r m known h =
      let (_, h1) = guarded (within_bounds a r) configuration _ h in
      let (reason, named, h2) = required_ok (failure_reason_try_from r.reason) configuration _ h1 in
      let (_, h3) = guarded (reason_fits reason r.exit_code r.stopped) configuration _ h2 in
      let (outputs, listing, h4) = >>=-ok (payload_outputs r.outputs) _ h3 in
      let (_, h5) = guarded (not (r.logs_complete && not (is_empty r.gaps))) configuration _ h4 in
      let (gaps, numbering, h6) = >>=-ok (payload_gaps r.gaps) _ h5 in
      let (metrics, measured, h7) =
        required_ok (payload_metrics e r.metrics_json) configuration _ h6 in
      subst (Says r) (same_ok h7) (record {
        authority = known;
        exit_code = refl;
        reason = sym (number-named r.reason reason named);
        stopped = refl;
        outputs = payload_outputs-Perm r.outputs outputs listing;
        logs_complete = refl;
        gaps = payload_gaps-ungap r.gaps gaps numbering;
        metrics = measured;
      })

  pub completion_payload-Says :
      (r : CompleteAttemptRequest) (m : Payload e.Metrics)
      → completion_payload e r ≡ ok m
      → Says r m
  unfolding completion_payload
  completion_payload-Says r m h =
      let (a, known, made) = required_ok r.authority configuration _ h in
      payload_for-Says a r m known made
