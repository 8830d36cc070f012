-- ===== src/Tests/Format.antt =====
-- A segment of one stream with a gap, and the claim about it.
use distributed_execution.Base.{
  ℕ, ◌≤◌, ◌<◌, ◌≡◌, ◌⊎◌, ◌&&◌, ◌||◌, ltb, leb, refl, true, false, not, List, [], ◌∷◌, ◌++◌, none,
  some, ok, arith, ascii,
}
use distributed_execution.Control.{stdout, LogGap, canonical_uuid, stream_code}
use distributed_execution.Log.Slots.{slot_stdout, slot_code, Two, get}
use distributed_execution.Log.Format.{
  Chunk, to_be_bytes, LogSegmentWriter, new_writer, append, append_all, expected,
}
use distributed_execution.Log.Format.Size.{IsBounded, written-IsBounded}
use distributed_execution.Log.Format.Gaps.{in_gaps, has_sequence, written_gaps}
use distributed_execution.Log.Decode.{decode}
use distributed_execution.Log.Decode.Roundtrip.{decode-written}
use distributed_execution.Log.Summary.{Range, summarize_ranges}
use distributed_execution.Log.Summary.Covers.{covers}
use distributed_execution.Log.Summary.Claim.{
  registered_gaps, registered_to, all_registered, summarize_ranges-covers, complete_claim,
}
use distributed_execution.Tests.Samples.{uuid}

abbrev hello : Chunk
hello = record { sequence = 2; nanos = 7; payload = ascii "hello" }

abbrev world : Chunk
world = record { sequence = 5; nanos = 8; payload = ascii "world" }

abbrev empty_writer : LogSegmentWriter
empty_writer = record {
  bytes = ascii "DSPLOG01" ++ (uuid ++ (1 ∷ 0 ∷ 0 ∷ 0 ∷ []));
  attempt_id = uuid;
  stream = stdout;
  first_sequence = 2;
  last_sequence = none;
  gaps = [];
}

abbrev written : LogSegmentWriter
written = record empty_writer {
  bytes =
      empty_writer.bytes
      ++ ((0
            ∷ 0
            ∷ 0
            ∷ 0
            ∷ 0
            ∷ 0
            ∷ 0
            ∷ 2
            ∷ 0
            ∷ 0
            ∷ 0
            ∷ 0
            ∷ 0
            ∷ 0
            ∷ 0
            ∷ 7
            ∷ 0
            ∷ 0
            ∷ 0
            ∷ 5
            ∷ ascii "hello")
          ++ (0
              ∷ 0
              ∷ 0
              ∷ 0
              ∷ 0
              ∷ 0
              ∷ 0
              ∷ 5
              ∷ 0
              ∷ 0
              ∷ 0
              ∷ 0
              ∷ 0
              ∷ 0
              ∷ 0
              ∷ 8
              ∷ 0
              ∷ 0
              ∷ 0
              ∷ 5
              ∷ ascii "world"));
  last_sequence = some 5;
  gaps = record { first = 3; last = 4 } ∷ [];
}

new_writer_run : new_writer uuid stdout 2 ≡ ok empty_writer
unfolding new_writer canonical_uuid
new_writer_run = refl

append_all_run : append_all empty_writer (hello ∷ world ∷ []) ≡ ok written
unfolding append_all append to_be_bytes
append_all_run = refl

written-IsBounded_example : IsBounded written
written-IsBounded_example =
    written-IsBounded uuid stdout 2 (hello ∷ world ∷ []) empty_writer written new_writer_run
      append_all_run

written_gaps_example :
    (2 ≤ 4
      → 4 < expected written
      → in_gaps 4 written.gaps ≡ not (has_sequence 4 (hello ∷ world ∷ [])))
    × ((4 < 2) ⊎ (expected written ≤ 4)
        → (in_gaps 4 written.gaps ≡ false) × (has_sequence 4 (hello ∷ world ∷ []) ≡ false))
written_gaps_example =
    written_gaps uuid stdout 2 4 (hello ∷ world ∷ []) empty_writer written new_writer_run
      append_all_run

-- The server's UUID parser accepts the canonical ones here, so its text form is unchanged.
decode-written_example :
    decode canonical_uuid written.bytes
    ≡ ok (record { attempt_id = uuid; stream = stream_code stdout; records = hello ∷ world ∷ [] })
decode-written_example =
    decode-written canonical_uuid (λ id h. h) uuid stdout 2 hello (world ∷ []) empty_writer written
      new_writer_run append_all_run (omega arith, (omega arith, tt))

abbrev lost : LogGap
lost = record { stream = 1; first_sequence = 3; last_sequence = 4 }

abbrev range : Range
range = record { stream = stdout; first = 1; last = 5; gaps = lost ∷ []; registered = true }

abbrev whole_range : Range
whole_range = record { stream = stdout; first = 1; last = 5; gaps = []; registered = true }

abbrev captured : ℕ → Two ℕ
captured n = record { of_stdout = n; of_stderr = 0 }

abbrev none_lost : List LogGap
none_lost = []

summarize_ranges-covers_example :
    covers
      (slot_code slot_stdout)
      6
      (lost ∷ record { stream = 1; first_sequence = 6; last_sequence = 7 } ∷ [])
    ≡ (covers (slot_code slot_stdout) 6 (registered_gaps (range ∷ []))
        || ltb (registered_to slot_stdout 0 (range ∷ [])) 6 && leb 6 (get (captured 7) slot_stdout))
unfolding summarize_ranges
summarize_ranges-covers_example =
    summarize_ranges-covers (range ∷ []) (captured 7) true
      (record {
        complete = false;
        gaps = lost ∷ record { stream = 1; first_sequence = 6; last_sequence = 7 } ∷ [];
      })
      slot_stdout 6 refl

complete_claim_example :
    (true ≡ true)
    × (all_registered slot_stdout (whole_range ∷ []) ≡ true)
    × (registered_to slot_stdout 0 (whole_range ∷ []) ≡ get (captured 5) slot_stdout)
    × (none_lost ≡ [])
unfolding summarize_ranges
complete_claim_example =
    complete_claim (whole_range ∷ []) (captured 5) true
      (record { complete = true; gaps = none_lost }) slot_stdout refl refl
