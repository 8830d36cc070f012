-- ===== src/Registration/Captured.antt =====
-- What the gaps of a registered segment leave (rust/worker/src/control/logs.rs).
use distributed_execution.Base.{
  ℕ, ◌+◌, ◌-◌, ◌≤◌, ◌<◌, ◌≡◌, ◌⊎◌, inl, inr, ok, arith, Bool-cases, true, ltb, List, [], ◌∷◌, All,
  guard-true, guard, >>=-ok, length, i64_max,
}
use distributed_execution.Control.{LogGap, RegisterLogSegmentRequest, configuration}
use distributed_execution.Registration.{validate_request, names_range, count_dropped, gap_fits}

-- The gaps are of the stream and follow one another, after `previous` and up to `last`.
abbrev pub Ascends : (stream previous last : ℕ) → List LogGap → Type 0
Ascends stream previous last [] = Unit
Ascends stream previous last (gap ∷ gaps) =
    (gap.stream ≡ stream)
    × (previous < gap.first_sequence)
    × (gap.first_sequence ≤ gap.last_sequence)
    × (gap.last_sequence ≤ last)
    × Ascends stream gap.last_sequence last gaps

abbrev pub Outside : ℕ → LogGap → Type 0
Outside sequence gap = (sequence < gap.first_sequence) ⊎ (gap.last_sequence < sequence)

-- The sequences that the gaps name.
abbrev dropped_by : List LogGap → ℕ
dropped_by [] = 0
dropped_by (gap ∷ gaps) = gap.last_sequence - gap.first_sequence + 1 + dropped_by gaps

later-Outside :
    (stream previous last sequence : ℕ) (gaps : List LogGap)
    → Ascends stream previous last gaps
    → sequence ≤ previous
    → All (Outside sequence) gaps
later-Outside stream previous last sequence [] chain h = tt
later-Outside stream previous last sequence (gap ∷ gaps) (s, p, q, r, chain) h = (
  inl (omega arith),
  later-Outside stream gap.last_sequence last sequence gaps chain (omega arith),
)

-- Gaps that drop fewer sequences than there are leave one.
one_left :
    (stream previous last : ℕ) (gaps : List LogGap)
    → Ascends stream previous last gaps
    → dropped_by gaps < last - previous
    → (sequence : ℕ) × (previous < sequence) × (sequence ≤ last) × All (Outside sequence) gaps
one_left stream previous last [] chain h = (last, omega arith, omega arith, tt)
one_left stream previous last (gap ∷ gaps) (s, p, q, r, chain) h =
    elim (Bool-cases (ltb (previous + 1) gap.first_sequence)) [
      | inl space ↦ (
        previous + 1,
        omega arith,
        ground arith,
        (
          inl (ground arith),
          later-Outside stream gap.last_sequence last (previous + 1) gaps chain (ground arith),
        ),
      )
      | inr tight ↦
          let (sequence, after, within, free) =
            one_left stream gap.last_sequence last gaps chain (ground arith) in
          (sequence, omega arith, within, (inr after, free))
    ]

pub counted :
    (r : RegisterLogSegmentRequest) (previous dropped : ℕ) (gaps : List LogGap) {total : ℕ}
    → count_dropped r previous dropped gaps ≡ ok total
    → Ascends r.stream previous r.last_sequence gaps × (total ≡ dropped + dropped_by gaps)
unfolding count_dropped gap_fits
counted r previous dropped [] h = (tt, ground arith)
counted r previous dropped (gap ∷ gaps) h =
    let (_, e, rest) = >>=-ok (guard (gap_fits r previous gap) configuration) _ h in
    let fits = guard-true _ configuration e in
    let (chain, total) = counted r gap.last_sequence _ gaps rest in
    ((ground arith, ground arith, ground arith, ground arith, chain), omega arith)

pub passed :
    (r : RegisterLogSegmentRequest)
    → validate_request r ≡ ok tt
    → (total : ℕ) × (names_range r ≡ true)
      × (count_dropped r (r.first_sequence - 1) 0 r.gaps ≡ ok total)
      × (total ≤ r.last_sequence - r.first_sequence)
unfolding validate_request
passed r h =
    let (_, e, rest) = >>=-ok (guard (names_range r) configuration) _ h in
    let (total, count, fewer) = >>=-ok (count_dropped r (r.first_sequence - 1) 0 r.gaps) _ rest in
    (total, guard-true (names_range r) configuration e, count, ground arith)

pub ranged :
    (r : RegisterLogSegmentRequest)
    → names_range r ≡ true
    → (1 ≤ r.first_sequence)
      × (r.first_sequence ≤ r.last_sequence)
      × (r.last_sequence ≤ i64_max)
      × (length r.gaps ≤ 1024)
unfolding names_range
ranged r h = ground arith

-- A segment that is registered ranges over positive sequences; its gaps are of its stream, at most
-- 1024, in ascending order, apart and within the range; and at least one of its sequences is
-- outside of them all, so the segment has captured something.
pub validate_request-Ascends :
    (r : RegisterLogSegmentRequest)
    → validate_request r ≡ ok tt
    → (1 ≤ r.first_sequence)
      × (r.last_sequence ≤ i64_max)
      × (length r.gaps ≤ 1024)
      × Ascends r.stream (r.first_sequence - 1) r.last_sequence r.gaps
      × ((sequence : ℕ) × (r.first_sequence ≤ sequence)
          × (sequence ≤ r.last_sequence)
          × All (Outside sequence) r.gaps)
validate_request-Ascends r h =
    let (total, tests, count, less) = passed r h in
    let (low, order, high, few) = ranged r tests in
    let (chain, sum) = counted r (r.first_sequence - 1) 0 r.gaps count in
    let (sequence, after, within, free) =
      one_left r.stream (r.first_sequence - 1) r.last_sequence r.gaps chain (omega arith) in
    (low, high, few, chain, (sequence, omega arith, within, free))
