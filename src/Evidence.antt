-- ===== src/Evidence.antt =====
-- rust/worker/src/control/completion_payload.rs: the evidence that a completion is bound to, and its
-- digest. SHA-256 and the JSON texts of serde are parameters.
pub mod Bound
pub mod Identity
pub mod Message
pub mod Binding
use distributed_execution.Base.{
  ℕ, zero, suc, ◌+◌, Bool, true, false, not, ◌&&◌, ◌||◌, ◌==◌, ltb, leb, if◌then◌else◌, Option,
  none, some, List, [], ◌∷◌, ◌++◌, map, all, any, is_empty, length, Bytes, bytes_eq, ascii, Result,
  ok, err, ◌>>=◌, ◌>>◌, guard, ok_or, i64_max, ℤ, pos, negsuc, ℤ_eq, sort_by, bytes_le,
  any_neighbours, has_repeated, hex,
}
use distributed_execution.Control.{
  AttemptAuthority, ClientError, configuration, canonical_uuid, is_alphanumeric, LogStream, stdout,
  stderr, LogGap, OutputReference, CompleteAttemptRequest, FailureReason,
  failure_reason_unspecified, worker_lost, runtime_unavailable, transfer_failed, application_exit,
  oom, startup_timeout, execution_timeout, output_invalid, user_cancelled, finalization_timeout,
  failure_reason_try_from,
}
use distributed_execution.Registration.{log_stream_try_from}

pub record Gap : Type 0 where
  pub stream : Bytes
  pub first : ℕ
  pub last : ℕ

-- The message whose JSON text is hashed.
pub record Payload (Metrics : Type 0) : Type 0 where
  pub authority : AttemptAuthority
  pub exit_code : Option ℤ
  pub reason : Bytes
  pub stopped : Bool
  pub outputs : List OutputReference
  pub logs_complete : Bool
  pub gaps : List Gap
  pub metrics : Metrics
  pub metrics_source_sha256 : Bytes

-- The texts of serde and the hash of ring.
pub record Encoding : Type 1 where
  pub Metrics : Type 0
  pub no_metrics : Metrics
  pub parse_metrics : Bytes → Option Metrics
  pub to_json : Payload Metrics → Option Bytes
  pub sha256 : Bytes → Bytes

-- The bounds of a status, as an exit code has to keep them.
abbrev pub is_exit_status : ℤ → Bool
is_exit_status (pos n) = leb n 255
is_exit_status (negsuc n) = false

abbrev exit_within : Option ℤ → Bool
exit_within none = true
exit_within (some code) = is_exit_status code

unfoldable pub within_bounds : AttemptAuthority → CompleteAttemptRequest → Bool
within_bounds a r =
    canonical_uuid a.job_id
    && canonical_uuid a.attempt_id
    && canonical_uuid a.worker_id
    && canonical_uuid a.session_id
    && canonical_uuid r.completion_id
    && not (a.generation == 0)
    && leb a.generation i64_max
    && leb (length r.outputs) 64
    && leb (length r.gaps) 1024
    && leb (length r.metrics_json) 65_536
    && exit_within r.exit_code

abbrev exited_with_zero : Option ℤ → Bool
exited_with_zero (some (pos zero)) = true
exited_with_zero _ = false

-- `r.exit_code.is_none_or(|exit| exit == 0)`
abbrev exited_without_failure : Option ℤ → Bool
exited_without_failure none = true
exited_without_failure exit_code = exited_with_zero exit_code

-- Which reasons the evidence may give.
abbrev pub reason_fits : FailureReason → (exit_code : Option ℤ) → (stopped : Bool) → Bool
reason_fits worker_lost exit_code stopped = false
reason_fits failure_reason_unspecified exit_code stopped = exited_with_zero exit_code && stopped
reason_fits application_exit exit_code stopped = not (exited_without_failure exit_code)
reason_fits _ exit_code stopped = true

-- `as_str_name`, empty for a success
abbrev pub reason_name : FailureReason → Bytes
reason_name failure_reason_unspecified = []
reason_name worker_lost = ascii "WORKER_LOST"
reason_name runtime_unavailable = ascii "RUNTIME_UNAVAILABLE"
reason_name transfer_failed = ascii "TRANSFER_FAILED"
reason_name application_exit = ascii "APPLICATION_EXIT"
reason_name oom = ascii "OOM"
reason_name startup_timeout = ascii "STARTUP_TIMEOUT"
reason_name execution_timeout = ascii "EXECUTION_TIMEOUT"
reason_name output_invalid = ascii "OUTPUT_INVALID"
reason_name user_cancelled = ascii "USER_CANCELLED"
reason_name finalization_timeout = ascii "FINALIZATION_TIMEOUT"

abbrev is_bounded_byte : Bool → ℕ → Bool
is_bounded_byte metric b =
    is_alphanumeric b || b == b'_' || b == b'.' || b == b'-' || metric && (b == b':' || b == b'/')

abbrev begins_alphanumeric : Bytes → Bool
begins_alphanumeric [] = false
begins_alphanumeric (b ∷ bs) = is_alphanumeric b

unfoldable pub bounded_name : Bytes → (metric : Bool) → Bool
bounded_name name metric =
    leb (length name) 128 && begins_alphanumeric name && all (is_bounded_byte metric) name

unfoldable pub output_fits : OutputReference → Bool
unfolding bounded_name
output_fits o = bounded_name o.name false && canonical_uuid o.artifact_id

-- The keys of the sorts.
abbrev pub name_le : OutputReference → OutputReference → Bool
name_le a b = bytes_le a.name b.name

abbrev pub same_name : OutputReference → OutputReference → Bool
same_name a b = bytes_eq a.name b.name

abbrev pub gap_le : Gap → Gap → Bool
gap_le a b = not (bytes_le b.stream a.stream) || bytes_eq a.stream b.stream && leb a.first b.first

-- Neighbours of one stream that touch the same sequence.
abbrev pub overlap : Gap → Gap → Bool
overlap a b = bytes_eq a.stream b.stream && leb b.first a.last

-- The outputs of the completion_payload.
unfoldable pub payload_outputs : List OutputReference → Result ClientError (List OutputReference)
unfolding output_fits
payload_outputs outputs = do
  guard (all output_fits outputs && not (has_repeated (map (λ o. o.artifact_id) outputs)))
      configuration
  guard (not (any_neighbours same_name (sort_by name_le outputs))) configuration
  ok (sort_by name_le outputs)

abbrev pub stream_name : Option LogStream → Option Bytes
stream_name (some stdout) = some (ascii "stdout")
stream_name (some stderr) = some (ascii "stderr")
stream_name _ = none

-- One pass of the loop over the gaps.
unfoldable pub payload_gap : LogGap → Result ClientError Gap
payload_gap gap = do
  stream ← ok_or (stream_name (log_stream_try_from gap.stream)) configuration
  guard
      (not (gap.first_sequence == 0)
        && leb gap.first_sequence gap.last_sequence
        && leb gap.last_sequence i64_max)
      configuration
  ok (record { stream = stream; first = gap.first_sequence; last = gap.last_sequence })

unfoldable pub list_gaps : List LogGap → Result ClientError (List Gap)
unfolding payload_gap
list_gaps [] = ok []
list_gaps (gap ∷ gaps) = do first ← payload_gap gap; rest ← list_gaps gaps; ok (first ∷ rest)

-- The gaps of the completion_payload.
unfoldable pub payload_gaps : List LogGap → Result ClientError (List Gap)
unfolding list_gaps
payload_gaps gaps = do
  listed ← list_gaps gaps
  guard (not (any_neighbours overlap (sort_by gap_le listed))) configuration
  ok (sort_by gap_le listed)

module _ (e : Encoding) where
  abbrev pub payload_metrics : Bytes → Option e.Metrics
  payload_metrics source = if is_empty source then some e.no_metrics else e.parse_metrics source

  unfoldable pub valid_metrics : Bytes → Bool
  valid_metrics body =
      not (is_empty body)
      && leb (length body) 65_536
      && elim (e.parse_metrics body) [ none ↦ false | some metrics ↦ true ]

  -- The message, from the checks to the structure's fields.
  unfoldable pub payload_for :
      AttemptAuthority → CompleteAttemptRequest → Result ClientError (Payload e.Metrics)
  unfolding within_bounds payload_outputs payload_gaps
  payload_for a r = do
    guard (within_bounds a r) configuration
    reason ← ok_or (failure_reason_try_from r.reason) configuration
    guard (reason_fits reason r.exit_code r.stopped) configuration
    outputs ← payload_outputs r.outputs
    guard (not (r.logs_complete && not (is_empty r.gaps))) configuration
    gaps ← payload_gaps r.gaps
    metrics ← ok_or (payload_metrics r.metrics_json) configuration
    ok (record {
      authority = a;
      exit_code = r.exit_code;
      reason = reason_name reason;
      stopped = r.stopped;
      outputs = outputs;
      logs_complete = r.logs_complete;
      gaps = gaps;
      metrics = metrics;
      metrics_source_sha256 = if is_empty r.metrics_json then [] else hex (e.sha256 r.metrics_json);
    })

  unfoldable pub completion_payload :
      CompleteAttemptRequest → Result ClientError (Payload e.Metrics)
  unfolding payload_for
  completion_payload r = do a ← ok_or r.authority configuration; payload_for a r

  unfoldable pub completion_digest : CompleteAttemptRequest → Result ClientError Bytes
  unfolding completion_payload
  completion_digest r = do
    message ← completion_payload r
    body ← ok_or (e.to_json message) configuration
    ok (hex (e.sha256 (ascii "dispatch.worker.v1.CompleteAttempt\n" ++ body)))
