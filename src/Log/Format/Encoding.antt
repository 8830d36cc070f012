-- ===== src/Log/Format/Encoding.antt =====
-- The bytes of a segment of rust/worker/src/log_format.rs as a function of its chunks.
use distributed_execution.Base.{
  ℕ, zero, suc, ◌+◌, ◌*◌, ◌/◌, ◌%◌, ◌^◌, ◌≤◌, ◌<◌, ◌≡◌, refl, List, [], ◌∷◌, ◌++◌, length, Bytes,
  pos, ok, arith, >>=-ok, i64_max,
}
use mathlib.Core.List.{append_assoc, append-nil}
use distributed_execution.Log.Format.{
  LogSegmentWriter, Chunk, append, append_all, expected, framed, to_be_bytes, max_segment_bytes,
}

-- `from_be_bytes`, with the value of the bytes before.
unfoldable pub from_be : ℕ → Bytes → ℕ
from_be acc [] = acc
from_be acc (b ∷ bs) = from_be (acc * 256 + b) bs

from_be-append : (xs : Bytes) (acc b : ℕ) → from_be acc (xs ++ b ∷ []) ≡ from_be acc xs * 256 + b
unfolding from_be
from_be-append [] acc b = refl
from_be-append (x ∷ xs) acc b = from_be-append xs (acc * 256 + x) b

pow_suc : (k : ℕ) → 256 ^ suc k ≡ 256 ^ k * 256
pow_suc k = omega arith

-- Reading back what was written, if it fits.
pub from_be-to_be_bytes : (k n : ℕ) → n < 256 ^ k → from_be 0 (to_be_bytes k n) ≡ n
unfolding to_be_bytes from_be
from_be-to_be_bytes zero n h = omega arith
from_be-to_be_bytes (suc k) n h = omega (
  arith,
  from_be-append (to_be_bytes k (n / 256)) 0 (n % 256),
  from_be-to_be_bytes k (n / 256) (omega (arith, pow_suc k)),
)

abbrev pub encode : List Chunk → Bytes
encode [] = []
encode (c ∷ cs) = framed c.sequence c.nanos c.payload ++ encode cs

-- The chunks ascend from above `previous`, and each has a payload that is small and a time and a
-- sequence that the format can hold.
abbrev pub Ascends : ℕ → List Chunk → Type 0
Ascends previous [] = Unit {0}
Ascends previous (c ∷ cs) =
    (previous < c.sequence)
    × (c.sequence ≤ i64_max)
    × (0 < length c.payload)
    × (length c.payload ≤ max_segment_bytes)
    × Ascends c.sequence cs

pub append_all-bytes :
    (cs : List Chunk) (w w' : LogSegmentWriter)
    → append_all w cs ≡ ok w'
    → w'.bytes ≡ w.bytes ++ encode cs
unfolding append_all append
append_all-bytes [] w w' e = ground (arith, append-nil w.bytes)
append_all-bytes (c ∷ cs) w w' e =
    let (v, p, q) = >>=-ok (append w c.sequence (pos c.nanos) c.payload) _ e in
    ground (
      arith,
      append_all-bytes cs v w' q,
      append_assoc w.bytes (framed c.sequence c.nanos c.payload) (encode cs),
    )

append_checks :
    (w v : LogSegmentWriter) (c : Chunk)
    → append w c.sequence (pos c.nanos) c.payload ≡ ok v
    → (expected w ≤ c.sequence)
      × (c.sequence ≤ i64_max)
      × (expected v ≡ c.sequence + 1)
      × (0 < length c.payload)
      × (length c.payload ≤ max_segment_bytes)
unfolding append
append_checks w v c e = ground arith

pub append_all-Ascends :
    (cs : List Chunk) (previous : ℕ) (w w' : LogSegmentWriter)
    → append_all w cs ≡ ok w'
    → previous < expected w
    → Ascends previous cs
unfolding append_all
append_all-Ascends [] previous w w' e h = tt
append_all-Ascends (c ∷ cs) previous w w' e h =
    let (v, p, q) = >>=-ok (append w c.sequence (pos c.nanos) c.payload) _ e in
    let (le, range, next, some_bytes, few_bytes) = append_checks w v c p in
    (
      omega arith,
      range,
      some_bytes,
      few_bytes,
      append_all-Ascends cs c.sequence v w' q (omega arith),
    )
