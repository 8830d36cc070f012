-- ===== src/Log/Format/Gaps.antt =====
-- The gaps of a segment of rust/worker/src/log_format.rs, by the sequences of its chunks.
use distributed_execution.Base.{
  ℕ, ◌+◌, ◌-◌, ◌≤◌, ◌<◌, ◌≡◌, Bool, false, not, ◌&&◌, ◌||◌, ◌==◌, leb, ltb, some, List, [], ◌∷◌,
  ◌++◌, Bytes, pos, negsuc, ℤ, ok, arith, >>=-ok, inl, inr, ◌⊎◌,
}
use distributed_execution.Control.{LogStream}
use distributed_execution.Log.Format.{
  LogSegmentWriter, SequenceGap, Chunk, new_writer, append, append_all, expected,
}

abbrev pub in_gaps : ℕ → List SequenceGap → Bool
in_gaps n [] = false
in_gaps n (g ∷ gs) = leb g.first n && leb n g.last || in_gaps n gs

abbrev pub has_sequence : ℕ → List Chunk → Bool
has_sequence n [] = false
has_sequence n (c ∷ cs) = c.sequence == n || has_sequence n cs

in_gaps-append :
    (n : ℕ) (gs : List SequenceGap) (g : SequenceGap)
    → in_gaps n (gs ++ g ∷ []) ≡ (in_gaps n gs || leb g.first n && leb n g.last)
in_gaps-append n [] g = ground arith
in_gaps-append n (h ∷ gs) g = ground (arith, in_gaps-append n gs g)

append_gaps :
    (n : ℕ) (w v : LogSegmentWriter) (c : Chunk)
    → append w c.sequence (pos c.nanos) c.payload ≡ ok v
    → (expected w ≤ c.sequence)
      × (expected v ≡ c.sequence + 1)
      × (in_gaps n v.gaps ≡ (in_gaps n w.gaps || leb (expected w) n && ltb n c.sequence))
unfolding append
append_gaps n w v c e =
    ground (arith, in_gaps-append n w.gaps (record { first = expected w; last = c.sequence - 1 }))

-- What an append leaves of the first sequence, and sets of the last.
pub append_advances :
    (w v : LogSegmentWriter) (sequence : ℕ) (nanos : ℤ) (payload : Bytes)
    → append w sequence nanos payload ≡ ok v
    → (v.first_sequence ≡ w.first_sequence)
      × (v.last_sequence ≡ some sequence)
      × (expected w ≤ sequence)
unfolding append
append_advances w v sequence (pos n) payload e = ground arith
append_advances w v sequence (negsuc n) payload e = ground arith

-- Nothing is changed below the next sequence.
below :
    (n : ℕ) (cs : List Chunk) (w w' : LogSegmentWriter)
    → append_all w cs ≡ ok w'
    → n < expected w
    → (in_gaps n w'.gaps ≡ in_gaps n w.gaps) × (has_sequence n cs ≡ false)
unfolding append_all
below n [] w w' e h = ground arith
below n (c ∷ cs) w w' e h =
    let (v, p, q) = >>=-ok (append w c.sequence (pos c.nanos) c.payload) _ e in
    let (le, next, gaps) = append_gaps n w v c p in
    let (same, absent) = below n cs v w' q (omega arith) in ground arith

between :
    (n : ℕ) (cs : List Chunk) (w w' : LogSegmentWriter)
    → append_all w cs ≡ ok w'
    → expected w ≤ n
    → in_gaps n w.gaps ≡ false
    → n < expected w'
    → in_gaps n w'.gaps ≡ not (has_sequence n cs)
unfolding append_all
between n [] w w' e h clear lt = absurd (ground arith)
between n (c ∷ cs) w w' e h clear lt =
    let (v, p, q) = >>=-ok (append w c.sequence (pos c.nanos) c.payload) _ e in
    let (le, next, gaps) = append_gaps n w v c p in
    ground (arith, below n cs v w' q, between n cs v w' q)

expected_grows :
    (cs : List Chunk) (w w' : LogSegmentWriter) → append_all w cs ≡ ok w' → expected w ≤ expected w'
unfolding append_all
expected_grows [] w w' e = ground arith
expected_grows (c ∷ cs) w w' e =
    let (v, p, q) = >>=-ok (append w c.sequence (pos c.nanos) c.payload) _ e in
    omega (arith, append_gaps 0 w v c p, expected_grows cs v w' q)

above :
    (n : ℕ) (cs : List Chunk) (w w' : LogSegmentWriter)
    → append_all w cs ≡ ok w'
    → in_gaps n w.gaps ≡ false
    → expected w' ≤ n
    → expected w ≤ n
    → (in_gaps n w'.gaps ≡ false) × (has_sequence n cs ≡ false)
unfolding append_all
above n [] w w' e clear h k = ground arith
above n (c ∷ cs) w w' e clear h k =
    let (v, p, q) = >>=-ok (append w c.sequence (pos c.nanos) c.payload) _ e in
    let (le, next, gaps) = append_gaps n w v c p in
    let further = expected_grows cs v w' q in ground (arith, above n cs v w' q)

new_writer_gaps :
    (attempt_id : Bytes) (stream : LogStream) (first : ℕ) (w : LogSegmentWriter)
    → new_writer attempt_id stream first ≡ ok w
    → (expected w ≡ first) × (w.gaps ≡ [])
unfolding new_writer
new_writer_gaps id stream first w e = ground arith

-- In a segment written from a new one, a sequence from the first up to the last is listed in a gap
-- exactly if no chunk has it, and no other sequence is listed or had by a chunk.
pub written_gaps :
    (attempt_id : Bytes) (stream : LogStream) (first n : ℕ) (cs : List Chunk)
    (w w' : LogSegmentWriter)
    → new_writer attempt_id stream first ≡ ok w
    → append_all w cs ≡ ok w'
    → (first ≤ n → n < expected w' → in_gaps n w'.gaps ≡ not (has_sequence n cs))
      × ((n < first) ⊎ (expected w' ≤ n)
          → (in_gaps n w'.gaps ≡ false) × (has_sequence n cs ≡ false))
written_gaps id stream first n cs w w' e h =
    let (start, none_yet) = new_writer_gaps id stream first w e in
    let grows = expected_grows cs w w' h in
    (
      λ lo hi. between n cs w w' h (omega arith) (ground arith) hi,
      λ outside. elim outside [
        | inl lo ↦ ground (arith, below n cs w w' h)
        | inr hi ↦ above n cs w w' h (ground arith) hi (omega arith)
      ],
    )
