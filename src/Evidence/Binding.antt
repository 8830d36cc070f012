-- ===== src/Evidence/Binding.antt =====
-- What the digest of a completion binds (rust/worker/src/control/completion_payload.rs).
use mathlib.Core.List.{Perm}
use mathlib.Core.List.Perm
use distributed_execution.Base.{◌≡◌, ◌≢◌, Bytes, ascii}
use distributed_execution.Control.{CompleteAttemptRequest}
use distributed_execution.Evidence.{Encoding, payload_metrics}

-- Two texts with one hash.
abbrev pub Collision : Encoding → Type 0
Collision e = (x : Bytes) × (y : Bytes) × (x ≢ y) × (e.sha256 x ≡ e.sha256 y)

-- Two requests give the same evidence, their outputs and gaps in any order.
pub record SameEvidence (e : Encoding) (r r' : CompleteAttemptRequest) : Type 0 where
  pub authority : r.authority ≡ r'.authority
  pub exit_code : r.exit_code ≡ r'.exit_code
  pub reason : r.reason ≡ r'.reason
  pub stopped : r.stopped ≡ r'.stopped
  pub outputs : Perm r.outputs r'.outputs
  pub logs_complete : r.logs_complete ≡ r'.logs_complete
  pub gaps : Perm r.gaps r'.gaps
  pub metrics : payload_metrics e r.metrics_json ≡ payload_metrics e r'.metrics_json

abbrev label : Bytes
label = ascii "dispatch.worker.v1.CompleteAttempt\n"
