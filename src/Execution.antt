-- ===== src/Execution.antt =====
-- rust/worker/src/execution.rs: the validated settings of an execution. SHA-256 and serde's reading
-- of the document are parameters.
pub mod Apart
use distributed_execution.Base.{
  ℕ, zero, suc, ◌+◌, ◌*◌, Bool, true, false, not, ◌&&◌, ◌||◌, ◌==◌, ltb, leb, if◌then◌else◌, Option,
  none, some, List, [], ◌∷◌, ◌++◌, all, any, is_empty, length, Bytes, bytes_eq, ascii, Result, ok,
  err, ◌>>=◌, ◌>>◌, guard, ok_or, equals, list_eq, hex, is_in, strip_prefix, starts_with,
  rsplit_once, has_blank, bytes_equality,
}
use distributed_execution.Control.{
  Assignment, InputManifest, is_alphanumeric, is_alphabetic, is_lower_hex,
  Resources as WireResources,
}
use distributed_execution.Upload.{split_slash}
use distributed_execution.Shape.{Value, has_shape}

pub data SpecError : Type 0 where
  document checksum wire_mismatch : SpecError

pub record Metadata : Type 0 where
  pub name : Bytes
  pub project : Bytes
  pub labels : List (Bytes × Bytes)

pub record Resources : Type 0 where
  pub cpu_millis : ℕ
  pub memory_mib : ℕ
  pub scratch_mib : ℕ

pub record Input : Type 0 where
  pub dataset : Bytes
  pub mount_path : Bytes

pub record Output : Type 0 where
  pub name : Bytes
  pub path : Bytes
  pub required : Bool
  pub max_bytes : ℕ

pub record Timeouts : Type 0 where
  pub startup_seconds : ℕ
  pub execution_seconds : ℕ
  pub finalization_seconds : ℕ

pub record Retry : Type 0 where
  pub max_attempts : ℕ
  pub on : List Bytes
  pub initial_backoff_seconds : ℕ
  pub max_backoff_seconds : ℕ

pub record JobSettings : Type 0 where
  pub priority : ℕ
  pub image : Bytes
  pub command : List Bytes
  pub args : List Bytes
  pub env : List (Bytes × Bytes)
  pub resources : Resources
  pub placement : List (Bytes × Bytes)
  pub inputs : List Input
  pub outputs : List Output
  pub timeouts : Timeouts
  pub retry : Retry
  pub termination_grace_seconds : ℕ
  pub network : Bytes

pub record Job : Type 0 where
  pub api_version : Bytes
  pub kind : Bytes
  pub metadata : Metadata
  pub spec : JobSettings

pub record ExecutionSpec : Type 0 where
  pub job : Job
  pub sha256 : Bytes

abbrev is_identifier_byte : ℕ → Bool
is_identifier_byte b = is_alphanumeric b || b == b'_' || b == b'.' || b == b'-'

abbrev is_variable_byte : ℕ → Bool
is_variable_byte b = is_alphanumeric b || b == b'_'

abbrev begins_with : (ℕ → Bool) → Bytes → Bool
begins_with test [] = false
begins_with test (b ∷ bs) = test b

unfoldable pub identifier : Bytes → (environment : Bool) → Bool
identifier value environment =
    not (is_empty value)
    && leb (length value) 128
    && (if environment
        then begins_with (λ b. is_alphabetic b || b == b'_') value
          && all is_variable_byte value
          && not (starts_with (ascii "DISPATCH_") value)
        else begins_with is_alphanumeric value && all is_identifier_byte value)

abbrev contains : ℕ → Bytes → Bool
contains c value = any (λ b. b == c) value

unfoldable pub valid_map : List (Bytes × Bytes) → (environment : Bool) → Bool
unfolding identifier
valid_map entries environment =
    leb (length entries) 128
    && all
        (λ entry.
          identifier entry.0 environment && leb (length entry.1) 8192 && not (contains 0 entry.1))
        entries

abbrev pub is_plain_part : Bytes → Bool
is_plain_part part = not (is_empty part || bytes_eq part (ascii ".") || bytes_eq part (ascii ".."))

abbrev pub without_first : Bytes → Bytes
without_first [] = []
without_first (b ∷ bs) = bs

-- `output_path` and `input_path`, for the directory that the path has to be in.
unfoldable pub path_in : (directory : Bytes) → Bytes → Bool
path_in directory value =
    leb (length value) 4096
    && starts_with directory value
    && not (contains b'\\' value || contains 0 value)
    && all is_plain_part (split_slash (without_first value))

abbrev pub output_path : Bytes → Bool
output_path = path_in (ascii "/outputs/")

abbrev pub input_path : Bytes → Bool
input_path = path_in (ascii "/inputs/")

-- `a.strip_prefix(b).is_some_and(|rest| rest.starts_with('/'))`
unfoldable pub under : Bytes → Bytes → Bool
under a b = elim (strip_prefix b a) [ none ↦ false | some rest ↦ begins_with (λ c. c == b'/') rest ]

unfoldable pub overlaps : Bytes → Bytes → Bool
unfolding under
overlaps a b = bytes_eq a b || under a b || under b a

abbrev within : (low high n : ℕ) → Bool
within low high n = leb low n && leb n high

-- `image.rsplit_once("@sha256:")` with a name and a digest.
abbrev pinned : Option (Bytes × Bytes) → Bool
pinned none = false
pinned (some (name, hash)) = not (is_empty name) && length hash == 64 && all is_lower_hex hash

abbrev begins_with_text : List Bytes → Bool
begins_with_text [] = false
begins_with_text (word ∷ words) = not (is_empty word)

abbrev is_argument : Bytes → Bool
is_argument word = leb (length word) 8192 && not (contains 0 word)

abbrev valid_resources : Resources → Bool
valid_resources r =
    within 1 1_024_000 r.cpu_millis
    && within 1 16_777_216 r.memory_mib
    && within 1 1_073_741_824 r.scratch_mib

abbrev valid_timeouts : Timeouts → Bool
valid_timeouts t =
    within 1 3600 t.startup_seconds
    && within 1 604_800 t.execution_seconds
    && within 1 3600 t.finalization_seconds

abbrev valid_retry : Retry → Bool
valid_retry r =
    within 1 10 r.max_attempts
    && within 1 3600 r.initial_backoff_seconds
    && within r.initial_backoff_seconds 3600 r.max_backoff_seconds

-- The first test, before the loops.
unfoldable pub within_limits : Job → Bool
unfolding identifier valid_map
within_limits job =
    bytes_eq job.api_version (ascii "dispatch.dev/v1alpha1")
    && bytes_eq job.kind (ascii "Job")
    && identifier job.metadata.name false
    && identifier job.metadata.project false
    && valid_map job.metadata.labels false
    && valid_map job.spec.env true
    && valid_map job.spec.placement false
    && leb job.spec.priority 3
    && pinned (rsplit_once (ascii "@sha256:") job.spec.image)
    && leb (length job.spec.image) 1024
    && not (has_blank job.spec.image)
    && begins_with_text job.spec.command
    && leb (length job.spec.command + length job.spec.args) 256
    && all is_argument (job.spec.command ++ job.spec.args)
    && valid_resources job.spec.resources
    && valid_timeouts job.spec.timeouts
    && leb job.spec.termination_grace_seconds 300
    && bytes_eq job.spec.network (ascii "disabled")
    && valid_retry job.spec.retry
    && leb (length job.spec.outputs) 64
    && leb (length job.spec.inputs) 64

abbrev is_retry_reason : Bytes → Bool
is_retry_reason reason =
    bytes_eq reason (ascii "WORKER_LOST")
    || bytes_eq reason (ascii "RUNTIME_UNAVAILABLE")
    || bytes_eq reason (ascii "TRANSFER_FAILED")

-- The loops; `earlier` are the items before.
unfoldable pub reasons_fit : (earlier : List Bytes) → List Bytes → Bool
reasons_fit earlier [] = true
reasons_fit earlier (reason ∷ rest) =
    is_retry_reason reason && not (is_in reason earlier) && reasons_fit (reason ∷ earlier) rest

abbrev pub outputs_clash : Output → Output → Bool
outputs_clash output previous =
    bytes_eq previous.name output.name || overlaps previous.path output.path

unfoldable pub outputs_fit : (earlier : List Output) → List Output → Bool
outputs_fit earlier [] = true
outputs_fit earlier (output ∷ rest) =
    identifier output.name false
    && output_path output.path
    && within 1 1_099_511_627_776 output.max_bytes
    && not (any (outputs_clash output) earlier)
    && outputs_fit (output ∷ earlier) rest

unfoldable pub inputs_fit : (earlier : List Input) → List Input → Bool
inputs_fit earlier [] = true
inputs_fit earlier (input ∷ rest) =
    identifier input.dataset false
    && input_path input.mount_path
    && not (any (λ previous. overlaps previous.mount_path input.mount_path) earlier)
    && inputs_fit (input ∷ earlier) rest

unfoldable pub validate : Job → Result SpecError (Unit {0})
unfolding within_limits reasons_fit outputs_fit inputs_fit
validate job = do
  guard (within_limits job) document
  guard (reasons_fit [] job.spec.retry.on) document
  guard (outputs_fit [] job.spec.outputs) document
  guard (inputs_fit [] job.spec.inputs) document

unfoldable pub same_inputs : List Input → List InputManifest → Bool
same_inputs [] [] = true
same_inputs (declared ∷ rest) (wire ∷ wires) =
    bytes_eq declared.dataset wire.dataset_name
    && bytes_eq declared.mount_path wire.mount_path
    && same_inputs rest wires
same_inputs _ _ = false

-- `1 << 20`
abbrev pub mebibyte : ℕ
mebibyte = 1_048_576

-- The assignment repeats the settings of the document.
unfoldable pub matches_wire : JobSettings → Assignment → WireResources → Bool
matches_wire s a resources =
    bytes_eq s.image a.image_digest
    && equals ⦃e = list_eq⦄ (s.command ++ s.args) a.argv
    && s.resources.cpu_millis == resources.cpu_millis
    && s.resources.memory_mib * mebibyte == resources.memory_bytes
    && s.resources.scratch_mib * mebibyte == resources.scratch_bytes

-- The readings of serde and the hash of ring.
pub record Documents : Type 0 where
  pub sha256 : Bytes → Bytes
  pub parse_value : Bytes → Option Value
  pub parse_job : Bytes → Option Job

module _ (d : Documents) where
  unfoldable pub from_assignment : Assignment → Result SpecError ExecutionSpec
  unfolding validate same_inputs matches_wire
  from_assignment a = do
    let raw = a.canonical_job_spec_json
    guard (not (is_empty raw) && leb (length raw) 2_097_152) document
    guard (bytes_eq (hex (d.sha256 raw)) a.spec_sha256) checksum
    value ← ok_or (d.parse_value raw) document
    guard (has_shape value) document
    job ← ok_or (d.parse_job raw) document
    validate job
    guard (same_inputs job.spec.inputs a.inputs) wire_mismatch
    resources ← ok_or a.resources wire_mismatch
    guard (matches_wire job.spec a resources) wire_mismatch
    ok (record { job = job; sha256 = hex (d.sha256 raw) })
