-- ===== src/Log/Summary.antt =====
-- rust/worker/src/log_summary.rs: the claim about its logs that a completion makes.
pub mod Covers
pub mod Claim
use distributed_execution.Base.{
  ℕ, ◌+◌, min, max, Bool, true, false, not, ◌&&◌, ◌||◌, ◌==◌, ltb, leb, if◌then◌else◌, Option, none,
  some, List, [], ◌∷◌, ◌++◌, length, is_empty, Result, ok, err, ◌>>=◌, ◌>>◌, guard, ok_or, u64_max,
  i64_max,
}
use mathlib.Core.List.{reverse}
use distributed_execution.Control.{LogStream, LogGap}
use distributed_execution.Log.Slots.{
  Slot, slot_stdout, slot_stderr, Two, both, get, put, index, slot_code,
}

pub data SummaryError : Type 0 where
  invalid limit : SummaryError

pub record LogSummary : Type 0 where
  pub complete : Bool
  pub gaps : List LogGap

pub record Range : Type 0 where
  pub stream : LogStream
  pub first : ℕ
  pub last : ℕ
  pub gaps : List LogGap
  pub registered : Bool

-- The variables of the first loop.
pub record Tally : Type 0 where
  pub registered : Two ℕ
  pub unregistered : Two Bool
  pub gaps : List LogGap

abbrev pub no_ranges : Tally
no_ranges = record { registered = both 0; unregistered = both false; gaps = [] }

unfoldable pub add_range : Tally → Range → Result SummaryError Tally
add_range t range = do
  slot ← ok_or (index range.stream) invalid
  guard
      (not (
        range.first == 0
        || ltb range.last range.first
        || ltb i64_max range.last
        || range.registered
          && (get t.unregistered slot || not (range.first == get t.registered slot + 1))))
      invalid
  ok (
      if range.registered
      then record t { registered = put t.registered slot range.last; gaps = t.gaps ++ range.gaps }
      else record t { unregistered = put t.unregistered slot true })

unfoldable pub add_ranges : Tally → List Range → Result SummaryError Tally
unfolding add_range
add_ranges t [] = ok t
add_ranges t (range ∷ ranges) = do t' ← add_range t range; add_ranges t' ranges

-- One pass of the loop over `captured`: what it adds to the gaps.
unfoldable pub tail_gaps : Tally → Two ℕ → Slot → Result SummaryError (List LogGap)
tail_gaps t captured slot = do
  guard (not (ltb i64_max (get captured slot) || ltb (get captured slot) (get t.registered slot)))
      invalid
  ok (
      if ltb (get t.registered slot) (get captured slot)
      then record {
        stream = slot_code slot;
        first_sequence = get t.registered slot + 1;
        last_sequence = get captured slot;
      }
        ∷ []
      else [])

-- The order of the key `(gap.stream, gap.first_sequence)`.
abbrev pub key_le : LogGap → LogGap → Bool
key_le a b = ltb a.stream b.stream || a.stream == b.stream && leb a.first_sequence b.first_sequence

-- `sort_by_key`, which is stable.
unfoldable pub insert_gap : LogGap → List LogGap → List LogGap
insert_gap g [] = g ∷ []
insert_gap g (h ∷ hs) = if key_le g h then g ∷ h ∷ hs else h ∷ insert_gap g hs

unfoldable pub sort_gaps : List LogGap → List LogGap
unfolding insert_gap
sort_gaps [] = []
sort_gaps (g ∷ gs) = insert_gap g (sort_gaps gs)

abbrev pub joins : LogGap → LogGap → Bool
joins previous gap =
    previous.stream == gap.stream
    && leb gap.first_sequence (min (previous.last_sequence + 1) u64_max)

abbrev pub extend : LogGap → LogGap → LogGap
extend previous gap = record previous {
  last_sequence = max previous.last_sequence gap.last_sequence;
}

-- One pass of the last loop; `merged` has the last gap first.
unfoldable pub merge_one : List LogGap → LogGap → Result SummaryError (List LogGap)
merge_one [] gap = do
  guard (not (gap.first_sequence == 0 || ltb gap.last_sequence gap.first_sequence)) invalid
  ok (gap ∷ [])
merge_one (previous ∷ merged) gap = do
  guard (not (gap.first_sequence == 0 || ltb gap.last_sequence gap.first_sequence)) invalid
  if joins previous gap
      then ok (extend previous gap ∷ merged)
      else if ltb 1024 (length (gap ∷ previous ∷ merged))
      then err limit
      else ok (gap ∷ previous ∷ merged)

unfoldable pub merge_gaps : List LogGap → List LogGap → Result SummaryError (List LogGap)
unfolding merge_one
merge_gaps merged [] = ok merged
merge_gaps merged (gap ∷ gaps) = do merged' ← merge_one merged gap; merge_gaps merged' gaps

unfoldable pub summarize_ranges : List Range → Two ℕ → Bool → Result SummaryError LogSummary
unfolding add_ranges tail_gaps sort_gaps merge_gaps
summarize_ranges ranges captured capture_finished = do
  t ← add_ranges no_ranges ranges
  out ← tail_gaps t captured slot_stdout
  errors ← tail_gaps t captured slot_stderr
  merged ← merge_gaps [] (sort_gaps ((t.gaps ++ out) ++ errors))
  ok (record {
    complete =
        capture_finished
        && not t.unregistered.of_stdout
        && not t.unregistered.of_stderr
        && is_empty merged;
    gaps = reverse merged;
  })
