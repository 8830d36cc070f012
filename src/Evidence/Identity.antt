-- ===== src/Evidence/Identity.antt =====
-- What the digest of a completion leaves out (rust/worker/src/control/completion_payload.rs).
use distributed_execution.Base.{◌≡◌, refl, true, Bytes, Option-cases, inl, inr}
use distributed_execution.Control.{AttemptAuthority, CompleteAttemptRequest, canonical_uuid}
use distributed_execution.Evidence.{
  Encoding, completion_payload, payload_for, completion_digest, within_bounds,
}

-- The request under another identity and another claimed digest.
abbrev pub renamed :
    CompleteAttemptRequest → (completion_id claimed : Bytes) → CompleteAttemptRequest
renamed r completion_id claimed = record r {
  completion_id = completion_id;
  payload_sha256 = claimed;
}

bounds_renamed :
    (a : AttemptAuthority) (r : CompleteAttemptRequest) (completion_id claimed : Bytes)
    → canonical_uuid r.completion_id ≡ true
    → canonical_uuid completion_id ≡ true
    → within_bounds a (renamed r completion_id claimed) ≡ within_bounds a r
unfolding within_bounds
bounds_renamed a r completion_id claimed h k = rw (h, k) refl

payload_for-renamed :
    (e : Encoding) (a : AttemptAuthority) (r : CompleteAttemptRequest)
    (completion_id claimed : Bytes)
    → canonical_uuid r.completion_id ≡ true
    → canonical_uuid completion_id ≡ true
    → payload_for e a (renamed r completion_id claimed) ≡ payload_for e a r
unfolding payload_for
payload_for-renamed e a r completion_id claimed h k =
    rw (bounds_renamed a r completion_id claimed h k) refl

payload_renamed :
    (e : Encoding) (r : CompleteAttemptRequest) (completion_id claimed : Bytes)
    → canonical_uuid r.completion_id ≡ true
    → canonical_uuid completion_id ≡ true
    → completion_payload e (renamed r completion_id claimed) ≡ completion_payload e r
unfolding completion_payload
payload_renamed e r completion_id claimed h k = elim (Option-cases r.authority) [
  | inl without ↦ rw without refl
  | inr (a, with_one) ↦ rw with_one (payload_for-renamed e a r completion_id claimed h k)
]

-- The digest does not read the identity of the request: under another canonical
-- identity, whatever digest it claims, the same evidence has the same digest or the same refusal.
pub completion_digest-renamed :
    (e : Encoding) (r : CompleteAttemptRequest) (completion_id claimed : Bytes)
    → canonical_uuid r.completion_id ≡ true
    → canonical_uuid completion_id ≡ true
    → completion_digest e (renamed r completion_id claimed) ≡ completion_digest e r
unfolding completion_digest
completion_digest-renamed e r completion_id claimed h k =
    rw (payload_renamed e r completion_id claimed h k) refl
