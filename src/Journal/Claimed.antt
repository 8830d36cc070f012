-- ===== src/Journal/Claimed.antt =====
-- The claim that rust/worker/src/log_summary.rs makes for the segments of a valid record.
use distributed_execution.Base.{
  ℕ, ◌+◌, ◌≤◌, ◌≡◌, refl, ap, ◌∙◌, ◌⊎◌, inl, inr, arith, All, Bool, Bool-cases, some, List, [], ◌∷◌,
  ◌++◌, not, ◌&&◌, ltb, length, is_empty, Result, ok, err, i64_max,
}
use mathlib.Core.List.{reverse}
use distributed_execution.Control.{LogGap}
use distributed_execution.Log.Slots.{Slot, slot_stdout, slot_stderr, Two, get, slot_code}
use distributed_execution.Log.Summary.{
  Range, Tally, LogSummary, SummaryError, limit, no_ranges, add_ranges, tail_gaps, key_le,
  insert_gap, sort_gaps, joins, extend, merge_one, merge_gaps, summarize_ranges,
}
use distributed_execution.Log.Summary.Claim.{registered_to, add_ranges-parts, get-no_ranges}
use distributed_execution.Journal.Records.{Record}
use distributed_execution.Journal.Segments.{validate_logs}
use distributed_execution.Journal.Summary.{
  ranges_of, summarize, IsProper, All-append, validate_logs-Tallies,
}

insert_gap-IsProper :
    (g : LogGap) (gs : List LogGap) → IsProper g → All IsProper gs → All IsProper (insert_gap g gs)
unfolding insert_gap
insert_gap-IsProper g [] h k = (h, tt)
insert_gap-IsProper g (x ∷ xs) h (k, ks) = elim (Bool-cases (key_le g x)) [
  | inl before ↦ rw before (h, (k, ks))
  | inr after ↦ rw after (k, insert_gap-IsProper g xs h ks)
]

sort_gaps-IsProper : (gs : List LogGap) → All IsProper gs → All IsProper (sort_gaps gs)
unfolding sort_gaps
sort_gaps-IsProper [] h = tt
sort_gaps-IsProper (g ∷ gs) (h, hs) =
    insert_gap-IsProper g (sort_gaps gs) h (sort_gaps-IsProper gs hs)

-- A result, or the limit.
abbrev pub Answers : {A : Type 0} → Result SummaryError A → Type 0
Answers {A} r = ((a : A) × (r ≡ ok a)) ⊎ (r ≡ err limit)

merge_one-Answers :
    (merged : List LogGap) (gap : LogGap) → IsProper gap → Answers (merge_one merged gap)
unfolding merge_one
merge_one-Answers [] gap (p, q) = inl (gap ∷ [], ground arith)
merge_one-Answers (previous ∷ merged) gap (p, q) = elim (Bool-cases (joins previous gap)) [
  | inl touching ↦ inl (extend previous gap ∷ merged, ground arith)
  | inr apart ↦ elim (Bool-cases (ltb 1024 (length (gap ∷ previous ∷ merged)))) [
    | inl full ↦ inr (ground arith)
    | inr room ↦ inl (gap ∷ previous ∷ merged, ground arith)
  ]
]

merge_gaps-Answers :
    (merged gaps : List LogGap) → All IsProper gaps → Answers (merge_gaps merged gaps)
unfolding merge_gaps
merge_gaps-Answers merged [] h = inl (merged, refl)
merge_gaps-Answers merged (gap ∷ gaps) (h, hs) = elim (merge_one-Answers merged gap h) [
  | inl (merged', one) ↦ elim (merge_gaps-Answers merged' gaps hs) [
    | inl (end, rest) ↦ inl (end, rw one rest)
    | inr full ↦ inr (rw one full)
  ]
  | inr full ↦ inr (rw full refl)
]

tail-IsProper :
    (t : Tally) (captured : Two ℕ) (slot : Slot)
    → get t.registered slot ≤ get captured slot
    → get captured slot ≤ i64_max
    → (gaps : List LogGap) × (tail_gaps t captured slot ≡ ok gaps) × All IsProper gaps
unfolding tail_gaps
tail-IsProper t captured slot h k =
    elim (Bool-cases (ltb (get t.registered slot) (get captured slot))) [
      | inl more ↦ (
        record {
          stream = slot_code slot;
          first_sequence = get t.registered slot + 1;
          last_sequence = get captured slot;
        }
            ∷ [],
        ground arith,
        ((omega arith, ground arith), tt),
      )
      | inr none_left ↦ ([], ground arith, tt)
    ]

-- Once the ranges are tallied, the rest of the claim can only meet the limit.
claimed :
    (ranges : List Range) (t : Tally) (captured : Two ℕ) (capture_finished : Bool)
    → add_ranges no_ranges ranges ≡ ok t
    → All IsProper t.gaps
    → ((slot : Slot) → (get t.registered slot ≤ get captured slot) × (get captured slot ≤ i64_max))
    → Answers (summarize_ranges ranges captured capture_finished)
unfolding summarize_ranges
claimed ranges t captured capture_finished tallied proper within =
    let (out, out_listed, out_proper) =
      tail-IsProper t captured slot_stdout (within slot_stdout).0 (within slot_stdout).1 in
    let (errors, errors_listed, errors_proper) =
      tail-IsProper t captured slot_stderr (within slot_stderr).0 (within slot_stderr).1 in
    let all_proper =
      All-append IsProper (t.gaps ++ out) errors (All-append IsProper t.gaps out proper out_proper)
        errors_proper in
    elim (merge_gaps-Answers [] (sort_gaps ((t.gaps ++ out) ++ errors))
      (sort_gaps-IsProper ((t.gaps ++ out) ++ errors) all_proper)) [
        | inl (merged, merges) ↦ inl (
          record {
            complete =
                capture_finished
                && not t.unregistered.of_stdout
                && not t.unregistered.of_stderr
                && is_empty merged;
            gaps = reverse merged;
          },
          rw (tallied, out_listed, errors_listed, merges) refl,
        )
        | inr full ↦ inr (rw (tallied, out_listed, errors_listed, full) refl)
      ]

covered :
    (ranges : List Range) (t : Tally) (captured : Two ℕ) (slot : Slot)
    → add_ranges no_ranges ranges ≡ ok t
    → (registered_to slot 0 ranges ≤ get captured slot) × (get captured slot ≤ i64_max)
    → (get t.registered slot ≤ get captured slot) × (get captured slot ≤ i64_max)
covered ranges t captured slot tallied (low, high) =
    let (to, _, _) = add_ranges-parts ranges no_ranges t slot tallied in
    let registered : get t.registered slot ≡ registered_to slot 0 ranges =
      to ∙ ap (λ n. registered_to slot n ranges) (get-no_ranges slot) in
    (omega (arith, registered, low), high)

-- The claim for the segments of a valid record, when each stream is captured at least up to where it
-- is registered and not beyond what an `i64` holds: no segment's stream panics, and the claim is made,
-- unless more gaps are left after merging than the limit allows. It is never refused as invalid.
pub summarize-Answers :
    (r : Record) (captured : Two ℕ) (capture_finished : Bool)
    → validate_logs r ≡ ok tt
    → ((ranges : List Range)
        → ranges_of r.logs ≡ some ranges
        → (slot : Slot)
        → (registered_to slot 0 ranges ≤ get captured slot) × (get captured slot ≤ i64_max))
    → (outcome : Result SummaryError LogSummary) × (summarize r.logs captured capture_finished
        ≡ some outcome)
      × Answers outcome
summarize-Answers r captured capture_finished valid within =
    let (ranges, t, listed, tallied, keeps) = validate_logs-Tallies r valid in
    (
      summarize_ranges ranges captured capture_finished,
      rw (summarize, listed) refl,
      claimed ranges t captured capture_finished tallied (keeps tt)
          (λ slot. covered ranges t captured slot tallied (within ranges listed slot)),
    )
