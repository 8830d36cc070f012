-- ===== src/Log/Summary/Claim.antt =====
-- What the claim of rust/worker/src/log_summary.rs accounts for.
use distributed_execution.Base.{
  ℕ, ◌≤◌, ◌≡◌, refl, ap, ◌∙◌, inl, inr, Bool, true, false, not, ◌&&◌, ◌||◌, ◌==◌, ltb, leb,
  if◌then◌else◌, List, [], ◌∷◌, ◌++◌, is_empty, ok, arith, Bool-cases, >>=-ok,
}
use mathlib.Core.List.{reverse, append_assoc, append-nil}
use distributed_execution.Control.{LogGap}
use distributed_execution.Log.Slots.{
  Slot, slot_stdout, slot_stderr, Two, get, index, is_slot, slot_code,
}
use distributed_execution.Log.Summary.{
  Range, Tally, LogSummary, no_ranges, add_range, add_ranges, tail_gaps, sort_gaps, merge_gaps,
  summarize_ranges,
}
use distributed_execution.Log.Summary.Covers.{
  covers, covers-append, covers-reverse, covers-sort_gaps, covers-merge_gaps, sort_gaps-IsSorted,
}

-- The gaps that the registered ranges list.
abbrev pub registered_gaps : List Range → List LogGap
registered_gaps [] = []
registered_gaps (r ∷ rs) = if r.registered then r.gaps ++ registered_gaps rs else registered_gaps rs

-- Up to where the stream of a slot is registered, when it is up to `from` before.
abbrev pub registered_to : Slot → ℕ → List Range → ℕ
registered_to slot from [] = from
registered_to slot from (r ∷ rs) =
    registered_to slot (if r.registered && is_slot (index r.stream) slot then r.last else from) rs

add_range-parts :
    (t t' : Tally) (r : Range) (slot : Slot)
    → add_range t r ≡ ok t'
    → (get t'.registered slot
        ≡ (if r.registered && is_slot (index r.stream) slot then r.last else get t.registered slot))
      × (t'.gaps ≡ (if r.registered then t.gaps ++ r.gaps else t.gaps))
      × (((get t'.unregistered slot) ≡ false)
          → (get t.unregistered slot ≡ false)
            × ((r.registered || not (is_slot (index r.stream) slot)) ≡ true))
unfolding add_range
add_range-parts t t' r slot_stdout e = ground arith
add_range-parts t t' r slot_stderr e = ground arith

-- No range of the slot's stream is unregistered.
abbrev pub all_registered : Slot → List Range → Bool
all_registered slot [] = true
all_registered slot (r ∷ rs) =
    (r.registered || not (is_slot (index r.stream) slot)) && all_registered slot rs

pub add_ranges-parts :
    (rs : List Range) (t t' : Tally) (slot : Slot)
    → add_ranges t rs ≡ ok t'
    → (get t'.registered slot ≡ registered_to slot (get t.registered slot) rs)
      × (t'.gaps ≡ t.gaps ++ registered_gaps rs)
      × ((get t'.unregistered slot ≡ false)
          → (get t.unregistered slot ≡ false) × (all_registered slot rs ≡ true))
unfolding add_ranges
add_ranges-parts [] t t' slot e =
    (ground arith, ground (arith, append-nil t.gaps), λ h. ground arith)
add_ranges-parts (r ∷ rs) t t' slot e =
    let (v, one, more) = >>=-ok (add_range t r) _ e in
    let (to, gaps, unreg) = add_range-parts t v r slot one in
    let (to', gaps', unreg') = add_ranges-parts rs v t' slot more in
    (
      to' ∙ ap (λ (n : ℕ). registered_to slot n rs) to,
      elim (Bool-cases r.registered) [
        | inl y ↦ ground (arith, append_assoc t.gaps r.gaps (registered_gaps rs))
        | inr y ↦ ground arith
      ],
      λ h. let (a, b) = unreg' h in let (c, d) = unreg a in (c, ground arith),
    )

-- The tail of a stream behind what is registered.
tail_gaps-covers :
    (t : Tally) (captured : Two ℕ) (slot : Slot) (gs : List LogGap) (s n : ℕ)
    → tail_gaps t captured slot ≡ ok gs
    → (get t.registered slot ≤ get captured slot)
      × (covers s n gs
          ≡ (slot_code slot == s && ltb (get t.registered slot) n && leb n (get captured slot)))
unfolding tail_gaps
tail_gaps-covers t captured slot gs s n e =
    elim (Bool-cases (ltb (get t.registered slot) (get captured slot))) [
      | inl y ↦ ground arith
      | inr y ↦ ground arith
    ]

-- The result of `summarize_ranges` in its parts.
abbrev IsSummary : List Range → Two ℕ → Bool → LogSummary → Type 0
IsSummary ranges captured finished s =
    (t : Tally) × (out : List LogGap) × (errors : List LogGap) × (merged : List LogGap)
    × (add_ranges no_ranges ranges ≡ ok t)
    × (tail_gaps t captured slot_stdout ≡ ok out)
    × (tail_gaps t captured slot_stderr ≡ ok errors)
    × (merge_gaps [] (sort_gaps ((t.gaps ++ out) ++ errors)) ≡ ok merged)
    × (s.gaps ≡ reverse merged)
    × (s.complete ≡ (
        finished
        && not t.unregistered.of_stdout
        && not t.unregistered.of_stderr
        && is_empty merged))

summarize_ranges-IsSummary :
    (ranges : List Range) (captured : Two ℕ) (finished : Bool) (s : LogSummary)
    → summarize_ranges ranges captured finished ≡ ok s
    → IsSummary ranges captured finished s
unfolding summarize_ranges
summarize_ranges-IsSummary ranges captured finished s e =
    let (t, e1, k1) = >>=-ok (add_ranges no_ranges ranges) _ e in
    let (out, e2, k2) = >>=-ok (tail_gaps t captured slot_stdout) _ k1 in
    let (errors, e3, k3) = >>=-ok (tail_gaps t captured slot_stderr) _ k2 in
    let (merged, e4, k4) = >>=-ok (merge_gaps [] (sort_gaps ((t.gaps ++ out) ++ errors))) _ k3 in
    (t, out, errors, merged, e1, e2, e3, e4, ground arith, ground arith)

both_tails :
    (t : Tally) (captured : Two ℕ) (out errors : List LogGap) (slot : Slot) (n : ℕ)
    → tail_gaps t captured slot_stdout ≡ ok out
    → tail_gaps t captured slot_stderr ≡ ok errors
    → (covers (slot_code slot) n out || covers (slot_code slot) n errors)
      ≡ (ltb (get t.registered slot) n && leb n (get captured slot))
both_tails t captured out errors slot_stdout n e1 e2 = ground (
  arith,
  tail_gaps-covers t captured slot_stdout out 1 n e1,
  tail_gaps-covers t captured slot_stderr errors 1 n e2,
)
both_tails t captured out errors slot_stderr n e1 e2 = ground (
  arith,
  tail_gaps-covers t captured slot_stdout out 2 n e1,
  tail_gaps-covers t captured slot_stderr errors 2 n e2,
)

clear_slot :
    (t : Tally) (slot : Slot)
    → t.unregistered.of_stdout ≡ false
    → t.unregistered.of_stderr ≡ false
    → get t.unregistered slot ≡ false
clear_slot t slot_stdout h k = h
clear_slot t slot_stderr h k = k

or_assoc : (a b c : Bool) → (a || b || c) ≡ (a || (b || c))
or_assoc a b c = ground arith

within_captured :
    (t : Tally) (captured : Two ℕ) (out errors : List LogGap) (slot : Slot)
    → tail_gaps t captured slot_stdout ≡ ok out
    → tail_gaps t captured slot_stderr ≡ ok errors
    → get t.registered slot ≤ get captured slot
within_captured t captured out errors slot_stdout e1 e2 =
    (tail_gaps-covers t captured slot_stdout out 1 0 e1).0
within_captured t captured out errors slot_stderr e1 e2 =
    (tail_gaps-covers t captured slot_stderr errors 2 0 e2).0

pub get-no_ranges : (slot : Slot) → get no_ranges.registered slot ≡ 0
get-no_ranges slot_stdout = refl
get-no_ranges slot_stderr = refl

-- The claim accounts for every captured sequence: in either stream a sequence is listed as lost
-- exactly if a registered range lists it, or if it lies behind all that is registered and not
-- behind what was captured.
pub summarize_ranges-covers :
    (ranges : List Range) (captured : Two ℕ) (finished : Bool) (s : LogSummary) (slot : Slot)
    (n : ℕ)
    → summarize_ranges ranges captured finished ≡ ok s
    → covers (slot_code slot) n s.gaps ≡ (
        covers (slot_code slot) n (registered_gaps ranges)
        || ltb (registered_to slot 0 ranges) n && leb n (get captured slot))
summarize_ranges-covers ranges captured finished s slot n e =
    let (t, out, errors, merged, e1, e2, e3, e4, eg, ec) =
      summarize_ranges-IsSummary ranges captured finished s e in
    let c = slot_code slot in
    let (to, gaps, _) = add_ranges-parts ranges no_ranges t slot e1 in
    let reg : get t.registered slot ≡ registered_to slot 0 ranges =
      to ∙ ap (λ (k : ℕ). registered_to slot k ranges) (get-no_ranges slot) in
    let parts : covers c n s.gaps ≡ (covers c n t.gaps || (covers c n out || covers c n errors)) =
      ap (covers c n) eg
      ∙ covers-reverse c n merged
      ∙ covers-merge_gaps c n _ merged (sort_gaps-IsSorted ((t.gaps ++ out) ++ errors)) e4
      ∙ covers-sort_gaps c n ((t.gaps ++ out) ++ errors)
      ∙ covers-append c n (t.gaps ++ out) errors
      ∙ ap (λ (b : Bool). b || covers c n errors) (covers-append c n t.gaps out)
      ∙ or_assoc (covers c n t.gaps) (covers c n out) (covers c n errors) in
    parts
    ∙ ap (λ (b : Bool). covers c n t.gaps || b) (both_tails t captured out errors slot n e2 e3)
    ∙ ap
        (λ (gs : List LogGap).
          covers c n gs || ltb (get t.registered slot) n && leb n (get captured slot))
        gaps
    ∙ ap (λ (k : ℕ). covers c n (registered_gaps ranges) || ltb k n && leb n (get captured slot))
        reg

reverse-nil : (gs : List LogGap) → is_empty gs ≡ true → reverse gs ≡ []
reverse-nil [] h = refl
reverse-nil (g ∷ gs) h = absurd (ground arith)

-- A claim of completeness is made only if the capture ended well, every range of both streams is
-- registered, all that was captured is registered, and no gap is listed.
pub complete_claim :
    (ranges : List Range) (captured : Two ℕ) (finished : Bool) (s : LogSummary) (slot : Slot)
    → summarize_ranges ranges captured finished ≡ ok s
    → s.complete ≡ true
    → (finished ≡ true)
      × (all_registered slot ranges ≡ true)
      × (registered_to slot 0 ranges ≡ get captured slot)
      × (s.gaps ≡ [])
complete_claim ranges captured finished s slot e h =
    let (t, out, errors, merged, e1, e2, e3, e4, eg, ec) =
      summarize_ranges-IsSummary ranges captured finished s e in
    let none_lost : s.gaps ≡ [] = eg ∙ reverse-nil merged (ground arith) in
    let (to, gaps, unreg) = add_ranges-parts ranges no_ranges t slot e1 in
    let reg : get t.registered slot ≡ registered_to slot 0 ranges =
      to ∙ ap (λ (k : ℕ). registered_to slot k ranges) (get-no_ranges slot) in
    let tail = summarize_ranges-covers ranges captured finished s slot (get captured slot) e in
    (
      ground arith,
      (unreg (clear_slot t slot (ground arith) (ground arith))).1,
      ground (arith, within_captured t captured out errors slot e2 e3, tail),
      none_lost,
    )
