-- ===== src/Control/Completions.antt =====
-- Messages of completions and assignments (proto/dispatch/worker/v1/worker.proto) with their
-- derived equality.
use distributed_execution.Base.{
  ℕ, zero, suc, Bool, Option, none, some, List, Bytes, ℤ, pos, negsuc, refl, Eq, by_fields, ◌⊗◌,
  nat_eq, integer_eq, flag_eq, bytes_equality, option_eq, list_eq,
}
use distributed_execution.Control.Messages.{AttemptAuthority, LogGap}
use distributed_execution.Control.Transfers.{
  ObjectVersion, object_equality, authority_equality, gap_equality,
}

pub data FailureReason : Type 0 where
  failure_reason_unspecified worker_lost runtime_unavailable transfer_failed : FailureReason
  application_exit oom startup_timeout execution_timeout output_invalid : FailureReason
  user_cancelled finalization_timeout : FailureReason

-- `FailureReason::try_from`
abbrev reason_code : ℕ → Option FailureReason
reason_code zero = some failure_reason_unspecified
reason_code (suc zero) = some worker_lost
reason_code (suc (suc zero)) = some runtime_unavailable
reason_code (suc (suc (suc zero))) = some transfer_failed
reason_code (suc (suc (suc (suc zero)))) = some application_exit
reason_code (suc (suc (suc (suc (suc zero))))) = some oom
reason_code (suc (suc (suc (suc (suc (suc zero)))))) = some startup_timeout
reason_code (suc (suc (suc (suc (suc (suc (suc zero))))))) = some execution_timeout
reason_code (suc (suc (suc (suc (suc (suc (suc (suc zero)))))))) = some output_invalid
reason_code (suc (suc (suc (suc (suc (suc (suc (suc (suc zero))))))))) = some user_cancelled
reason_code (suc (suc (suc (suc (suc (suc (suc (suc (suc (suc zero)))))))))) =
    some finalization_timeout
reason_code _ = none

abbrev pub failure_reason_try_from : ℤ → Option FailureReason
failure_reason_try_from (pos n) = reason_code n
failure_reason_try_from (negsuc n) = none

pub record OutputReference : Type 0 where
  pub name : Bytes
  pub artifact_id : Bytes

instance abbrev pub reference_equality : Eq OutputReference
reference_equality =
    by_fields (bytes_equality ⊗ bytes_equality) (λ o. (o.name, o.artifact_id))
      (λ (n, i). record { name = n; artifact_id = i }) (λ o. refl)

pub record CompleteAttemptRequest : Type 0 where
  pub authority : Option AttemptAuthority
  pub completion_id : Bytes
  pub payload_sha256 : Bytes
  pub exit_code : Option ℤ
  pub reason : ℤ
  pub stopped : Bool
  pub outputs : List OutputReference
  pub logs_complete : Bool
  pub gaps : List LogGap
  pub metrics_json : Bytes

instance abbrev pub completion_equality : Eq CompleteAttemptRequest
completion_equality =
    by_fields
      (option_eq ⊗ bytes_equality ⊗ bytes_equality ⊗ option_eq ⊗ integer_eq ⊗ flag_eq ⊗ list_eq
        ⊗ flag_eq ⊗ list_eq ⊗ bytes_equality)
      (λ r. (
        r.authority,
        (
          r.completion_id,
          (
            r.payload_sha256,
            (
              r.exit_code,
              (r.reason, (r.stopped, (r.outputs, (r.logs_complete, (r.gaps, r.metrics_json))))),
            ),
          ),
        ),
      ))
      (λ (a, (i, (p, (x, (r, (s, (o, (l, (g, m))))))))). record {
        authority = a;
        completion_id = i;
        payload_sha256 = p;
        exit_code = x;
        reason = r;
        stopped = s;
        outputs = o;
        logs_complete = l;
        gaps = g;
        metrics_json = m;
      })
      (λ r. refl)

pub record CompleteAttemptResponse : Type 0 where
  pub decision : ℤ
  pub state : ℤ
  pub accepted_manifest_json : Bytes

instance abbrev pub completion_answer_equality : Eq CompleteAttemptResponse
completion_answer_equality =
    by_fields (integer_eq ⊗ integer_eq ⊗ bytes_equality)
      (λ r. (r.decision, (r.state, r.accepted_manifest_json)))
      (λ (d, (s, m)). record { decision = d; state = s; accepted_manifest_json = m }) (λ r. refl)

pub record Resources : Type 0 where
  pub cpu_millis : ℕ
  pub memory_bytes : ℕ
  pub scratch_bytes : ℕ

instance abbrev pub resources_equality : Eq Resources
resources_equality =
    by_fields (nat_eq ⊗ nat_eq ⊗ nat_eq) (λ r. (r.cpu_millis, (r.memory_bytes, r.scratch_bytes)))
      (λ (c, (m, s)). record { cpu_millis = c; memory_bytes = m; scratch_bytes = s }) (λ r. refl)

pub record InputManifest : Type 0 where
  pub dataset_id : Bytes
  pub mount_path : Bytes
  pub archive : Option ObjectVersion
  pub file_manifest_json : Bytes
  pub download_url : Bytes
  pub expires_unix_ms : ℤ
  pub dataset_name : Bytes

instance abbrev pub input_equality : Eq InputManifest
input_equality =
    by_fields
      (bytes_equality ⊗ bytes_equality ⊗ option_eq ⊗ bytes_equality ⊗ bytes_equality ⊗ integer_eq
        ⊗ bytes_equality)
      (λ i. (
        i.dataset_id,
        (
          i.mount_path,
          (
            i.archive,
            (i.file_manifest_json, (i.download_url, (i.expires_unix_ms, i.dataset_name))),
          ),
        ),
      ))
      (λ (d, (p, (a, (f, (u, (e, n)))))). record {
        dataset_id = d;
        mount_path = p;
        archive = a;
        file_manifest_json = f;
        download_url = u;
        expires_unix_ms = e;
        dataset_name = n;
      })
      (λ i. refl)

pub record Assignment : Type 0 where
  pub authority : Option AttemptAuthority
  pub image_digest : Bytes
  pub argv : List Bytes
  pub resources : Option Resources
  pub canonical_job_spec_json : Bytes
  pub spec_sha256 : Bytes
  pub lease_duration_ms : ℕ
  pub server_time_unix_ms : ℤ
  pub phase_remaining_ms : ℕ
  pub inputs : List InputManifest

instance abbrev pub assignment_equality : Eq Assignment
assignment_equality =
    by_fields
      (option_eq ⊗ bytes_equality ⊗ list_eq ⊗ option_eq ⊗ bytes_equality ⊗ bytes_equality ⊗ nat_eq
        ⊗ integer_eq ⊗ nat_eq ⊗ list_eq)
      (λ a. (
        a.authority,
        (
          a.image_digest,
          (
            a.argv,
            (
              a.resources,
              (
                a.canonical_job_spec_json,
                (
                  a.spec_sha256,
                  (a.lease_duration_ms, (a.server_time_unix_ms, (a.phase_remaining_ms, a.inputs))),
                ),
              ),
            ),
          ),
        ),
      ))
      (λ (a, (d, (v, (r, (j, (h, (l, (t, (p, i))))))))). record {
        authority = a;
        image_digest = d;
        argv = v;
        resources = r;
        canonical_job_spec_json = j;
        spec_sha256 = h;
        lease_duration_ms = l;
        server_time_unix_ms = t;
        phase_remaining_ms = p;
        inputs = i;
      })
      (λ a. refl)
