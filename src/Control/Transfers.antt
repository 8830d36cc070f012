-- ===== src/Control/Transfers.antt =====
-- Messages of uploads, log segments, completions and assignments
-- (proto/dispatch/worker/v1/worker.proto) with their derived equality. An enumeration is the
-- number it carries; a map is the list of its entries.
use distributed_execution.Base.{
  ℕ, zero, suc, Option, none, some, List, Bytes, ℤ, pos, refl, Eq, by_fields, ◌⊗◌, nat_eq,
  integer_eq, flag_eq, bytes_equality, option_eq, list_eq,
}
use distributed_execution.Control.Messages.{
  AttemptAuthority, authority_eq, authority_eq_iff, LogGap,
}

instance abbrev pub authority_equality : Eq AttemptAuthority
authority_equality = record { beq = authority_eq; beq_iff = authority_eq_iff }

instance abbrev pub gap_equality : Eq LogGap
gap_equality =
    by_fields (nat_eq ⊗ nat_eq ⊗ nat_eq) (λ g. (g.stream, (g.first_sequence, g.last_sequence)))
      (λ (s, (f, l)). record { stream = s; first_sequence = f; last_sequence = l }) (λ g. refl)

pub data ArtifactKind : Type 0 where
  artifact_kind_unspecified output log manifest : ArtifactKind

-- `kind as i32`
abbrev pub artifact_kind_code : ArtifactKind → ℕ
artifact_kind_code artifact_kind_unspecified = 0
artifact_kind_code output = 1
artifact_kind_code log = 2
artifact_kind_code manifest = 3

-- `ArtifactKind::try_from`
abbrev pub artifact_kind_try_from : ℤ → Option ArtifactKind
artifact_kind_try_from (pos zero) = some artifact_kind_unspecified
artifact_kind_try_from (pos (suc zero)) = some output
artifact_kind_try_from (pos (suc (suc zero))) = some log
artifact_kind_try_from (pos (suc (suc (suc zero)))) = some manifest
artifact_kind_try_from _ = none

pub record ObjectVersion : Type 0 where
  pub key : Bytes
  pub version_id : Bytes
  pub size_bytes : ℕ
  pub sha256 : Bytes

instance abbrev pub object_equality : Eq ObjectVersion
object_equality =
    by_fields (bytes_equality ⊗ bytes_equality ⊗ nat_eq ⊗ bytes_equality)
      (λ o. (o.key, (o.version_id, (o.size_bytes, o.sha256))))
      (λ (k, (v, (s, h))). record { key = k; version_id = v; size_bytes = s; sha256 = h })
      (λ o. refl)

pub record CreateUploadRequest : Type 0 where
  pub authority : Option AttemptAuthority
  pub request_id : Bytes
  pub name : Bytes
  pub kind : ℤ
  pub size_bytes : ℕ
  pub sha256 : Bytes
  pub part_count : ℕ
  pub part_size_bytes : ℕ

instance abbrev pub declaration_equality : Eq CreateUploadRequest
declaration_equality =
    by_fields
      (option_eq ⊗ bytes_equality ⊗ bytes_equality ⊗ integer_eq ⊗ nat_eq ⊗ bytes_equality ⊗ nat_eq
        ⊗ nat_eq)
      (λ r. (
        r.authority,
        (
          r.request_id,
          (r.name, (r.kind, (r.size_bytes, (r.sha256, (r.part_count, r.part_size_bytes))))),
        ),
      ))
      (λ (a, (i, (n, (k, (s, (h, (c, p))))))). record {
        authority = a;
        request_id = i;
        name = n;
        kind = k;
        size_bytes = s;
        sha256 = h;
        part_count = c;
        part_size_bytes = p;
      })
      (λ r. refl)

pub record GrantUploadPartRequest : Type 0 where
  pub authority : Option AttemptAuthority
  pub upload_id : Bytes
  pub number : ℕ
  pub sha256 : Bytes

pub record UploadPart : Type 0 where
  pub number : ℕ
  pub url : Bytes
  pub required_headers : List (Bytes × Bytes)
  pub expires_unix_ms : ℤ

pub record CreateUploadResponse : Type 0 where
  pub upload_id : Bytes
  pub object_key : Bytes
  pub upload_url : Bytes
  pub required_headers : List (Bytes × Bytes)
  pub expires_unix_ms : ℤ
  pub parts : List UploadPart
  pub part_size_bytes : ℕ
  pub part_count : ℕ

pub record CompletedPart : Type 0 where
  pub number : ℕ
  pub etag : Bytes
  pub sha256 : Bytes

instance abbrev pub part_equality : Eq CompletedPart
part_equality =
    by_fields (nat_eq ⊗ bytes_equality ⊗ bytes_equality) (λ p. (p.number, (p.etag, p.sha256)))
      (λ (n, (e, h)). record { number = n; etag = e; sha256 = h }) (λ p. refl)

pub record FinalizeUploadRequest : Type 0 where
  pub authority : Option AttemptAuthority
  pub request_id : Bytes
  pub upload_id : Bytes
  pub object : Option ObjectVersion
  pub parts : List CompletedPart

instance abbrev pub finalization_equality : Eq FinalizeUploadRequest
finalization_equality =
    by_fields (option_eq ⊗ bytes_equality ⊗ bytes_equality ⊗ option_eq ⊗ list_eq)
      (λ r. (r.authority, (r.request_id, (r.upload_id, (r.object, r.parts)))))
      (λ (a, (i, (u, (o, p)))). record {
        authority = a;
        request_id = i;
        upload_id = u;
        object = o;
        parts = p;
      })
      (λ r. refl)

pub record FinalizeUploadResponse : Type 0 where
  pub artifact_id : Bytes
  pub object : Option ObjectVersion

instance abbrev pub artifact_equality : Eq FinalizeUploadResponse
artifact_equality =
    by_fields (bytes_equality ⊗ option_eq) (λ r. (r.artifact_id, r.object))
      (λ (i, o). record { artifact_id = i; object = o }) (λ r. refl)

pub record RegisterLogSegmentRequest : Type 0 where
  pub authority : Option AttemptAuthority
  pub request_id : Bytes
  pub artifact_id : Bytes
  pub stream : ℕ
  pub first_sequence : ℕ
  pub last_sequence : ℕ
  pub gaps : List LogGap

instance abbrev pub registration_equality : Eq RegisterLogSegmentRequest
registration_equality =
    by_fields (option_eq ⊗ bytes_equality ⊗ bytes_equality ⊗ nat_eq ⊗ nat_eq ⊗ nat_eq ⊗ list_eq)
      (λ r. (
        r.authority,
        (r.request_id, (r.artifact_id, (r.stream, (r.first_sequence, (r.last_sequence, r.gaps))))),
      ))
      (λ (a, (i, (t, (s, (f, (l, g)))))). record {
        authority = a;
        request_id = i;
        artifact_id = t;
        stream = s;
        first_sequence = f;
        last_sequence = l;
        gaps = g;
      })
      (λ r. refl)
