-- ===== src/Upload/Plan.antt =====
-- The plan of a multipart upload (rust/worker/src/control/uploads.rs).
use native.Mathlib.Nat.{mul-le-mul_left}
use distributed_execution.Base.{
  ℕ, ◌+◌, ◌-◌, ◌*◌, ◌/◌, ◌≤◌, ◌<◌, ◌≡◌, ok, arith, true, guard-true, pos, ℤ_eq_iff, ◌≢◌,
}
use distributed_execution.Control.{CreateUploadRequest, configuration}
use distributed_execution.Upload.{validate_create, valid_part_plan, least_part, most_bytes}

-- `n` parts of `size` bytes, the last one possibly shorter and not empty, are `total` bytes.
abbrev pub Covers : (n size total : ℕ) → Type 0
Covers n size total = ((n - 1) * size < total) × (total ≤ n * size)

ceiling :
    (total size n : ℕ) → 1 ≤ total → 1 ≤ size → n ≡ 1 + (total - 1) / size → Covers n size total
ceiling total size n p q e = grind arith

few : (total size n : ℕ) → least_part ≤ size → total ≤ most_bytes → Covers n size total → n ≤ 13
few total size n h k c =
    let steps = mul-le-mul_left {m = least_part} {n = size} (n - 1) h in omega arith

planned :
    (r : CreateUploadRequest)
    → validate_create r ≡ ok tt
    → (valid_part_plan r ≡ true) × (r.size_bytes ≤ most_bytes)
unfolding validate_create
planned r h = let q = guard-true _ configuration h in ground arith

plan_holds :
    (r : CreateUploadRequest)
    → r.part_count ≢ 1
    → valid_part_plan r ≡ true
    → (r.kind ≡ pos 1)
      × (2 ≤ r.part_count)
      × (1 ≤ r.size_bytes)
      × (least_part ≤ r.part_size_bytes)
      × (r.part_size_bytes ≤ most_bytes)
      × (r.part_count ≡ 1 + (r.size_bytes - 1) / r.part_size_bytes)
unfolding valid_part_plan
plan_holds r several h = ground (arith, ℤ_eq_iff r.kind (pos 1))

-- An upload that is declared in several parts is an output of at most 64 MiB in two to thirteen
-- parts of five to 64 MiB, and the parts cover exactly its size: all but the last are full, and
-- the last is not empty.
pub validate_create-Covers :
    (r : CreateUploadRequest)
    → validate_create r ≡ ok tt
    → r.part_count ≢ 1
    → (r.kind ≡ pos 1)
      × (2 ≤ r.part_count)
      × (r.part_count ≤ 13)
      × (least_part ≤ r.part_size_bytes)
      × (r.part_size_bytes ≤ most_bytes)
      × (r.size_bytes ≤ most_bytes)
      × Covers r.part_count r.part_size_bytes r.size_bytes
validate_create-Covers r h several =
    let (plan, small) = planned r h in
    let (kind, low, total, part, most, count) = plan_holds r several plan in
    let covers = ceiling r.size_bytes r.part_size_bytes r.part_count total (omega arith) count in
    (kind, low, few _ _ _ part small covers, part, most, small, covers)
