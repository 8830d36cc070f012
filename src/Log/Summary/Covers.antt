-- ===== src/Log/Summary/Covers.antt =====
-- Sorting and merging in rust/worker/src/log_summary.rs, by the sequences that gaps cover.
use distributed_execution.Base.{
  ℕ, ◌≡◌, refl, sym, ap, ◌∙◌, inl, inr, Bool, true, false, ◌&&◌, ◌||◌, ◌==◌, leb, List, [], ◌∷◌,
  ◌++◌, ok, arith, Bool-cases, >>=-ok,
}
use mathlib.Core.List.{reverse, reverse-cons}
use distributed_execution.Control.{LogGap}
use distributed_execution.Log.Summary.{
  key_le, insert_gap, sort_gaps, joins, extend, merge_one, merge_gaps,
}

abbrev pub covers_one : ℕ → ℕ → LogGap → Bool
covers_one s n g = g.stream == s && leb g.first_sequence n && leb n g.last_sequence

-- Some gap of stream `s` covers the sequence `n`.
abbrev pub covers : ℕ → ℕ → List LogGap → Bool
covers s n [] = false
covers s n (g ∷ gs) = covers_one s n g || covers s n gs

pub covers-append :
    (s n : ℕ) (gs hs : List LogGap) → covers s n (gs ++ hs) ≡ (covers s n gs || covers s n hs)
covers-append s n [] hs = refl
covers-append s n (g ∷ gs) hs = ground (arith, covers-append s n gs hs)

pub covers-reverse : (s n : ℕ) (gs : List LogGap) → covers s n (reverse gs) ≡ covers s n gs
covers-reverse s n [] = refl
covers-reverse s n (g ∷ gs) =
    rw (reverse-cons g gs)
      (ground (arith, covers-append s n (reverse gs) (g ∷ []), covers-reverse s n gs))

covers-insert_gap :
    (s n : ℕ) (g : LogGap) (gs : List LogGap)
    → covers s n (insert_gap g gs) ≡ (covers_one s n g || covers s n gs)
unfolding insert_gap
covers-insert_gap s n g [] = refl
covers-insert_gap s n g (h ∷ hs) = elim (Bool-cases (key_le g h)) [
  | inl e ↦ rw e
  | inr e ↦ rw e (ground (arith, covers-insert_gap s n g hs))
]

pub covers-sort_gaps : (s n : ℕ) (gs : List LogGap) → covers s n (sort_gaps gs) ≡ covers s n gs
unfolding sort_gaps
covers-sort_gaps s n [] = refl
covers-sort_gaps s n (g ∷ gs) =
    ground (arith, covers-insert_gap s n g (sort_gaps gs), covers-sort_gaps s n gs)

-- The gaps ascend by their key, from that of `p` on.
abbrev pub SortedFrom : LogGap → List LogGap → Type 0
SortedFrom p [] = Unit {0}
SortedFrom p (g ∷ gs) = (key_le p g ≡ true) × SortedFrom g gs

abbrev pub IsSorted : List LogGap → Type 0
IsSorted [] = Unit {0}
IsSorted (g ∷ gs) = SortedFrom g gs

SortedFrom-weaken :
    (p g : LogGap) (gs : List LogGap) → key_le p g ≡ true → SortedFrom g gs → SortedFrom p gs
SortedFrom-weaken p g [] h k = tt
SortedFrom-weaken p g (x ∷ xs) h k = (ground arith, k.1)

-- Only the key of the first gap counts.
extend-SortedFrom : (p g : LogGap) (gs : List LogGap) → SortedFrom p gs → SortedFrom (extend p g) gs
extend-SortedFrom p g [] k = tt
extend-SortedFrom p g (x ∷ xs) k = k

insert_gap-SortedFrom :
    (p g : LogGap) (gs : List LogGap)
    → key_le p g ≡ true
    → SortedFrom p gs
    → SortedFrom p (insert_gap g gs)
unfolding insert_gap
insert_gap-SortedFrom p g [] h k = (h, tt)
insert_gap-SortedFrom p g (x ∷ xs) h k = elim (Bool-cases (key_le g x)) [
  | inl e ↦ rw e (h, (e, k.1))
  | inr e ↦ rw e (k.0, insert_gap-SortedFrom x g xs (ground arith) k.1)
]

insert_gap-IsSorted : (g : LogGap) (gs : List LogGap) → IsSorted gs → IsSorted (insert_gap g gs)
unfolding insert_gap
insert_gap-IsSorted g [] k = tt
insert_gap-IsSorted g (x ∷ xs) k = elim (Bool-cases (key_le g x)) [
  | inl e ↦ rw e (e, k)
  | inr e ↦ rw e (insert_gap-SortedFrom x g xs (ground arith) k)
]

pub sort_gaps-IsSorted : (gs : List LogGap) → IsSorted (sort_gaps gs)
unfolding sort_gaps
sort_gaps-IsSorted [] = tt
sort_gaps-IsSorted (g ∷ gs) = insert_gap-IsSorted g (sort_gaps gs) (sort_gaps-IsSorted gs)

extend_covers :
    (s n : ℕ) (p g : LogGap)
    → key_le p g ≡ true
    → joins p g ≡ true
    → covers_one s n (extend p g) ≡ (covers_one s n p || covers_one s n g)
extend_covers s n p g h j = ground arith

-- One gap put behind the last: joined to it, or kept apart.
merge_one-covers :
    (s n : ℕ) (p g : LogGap) (ms ms' : List LogGap)
    → key_le p g ≡ true
    → merge_one (p ∷ ms) g ≡ ok ms'
    → covers s n ms' ≡ (covers s n (p ∷ ms) || covers_one s n g)
unfolding merge_one
merge_one-covers s n p g ms ms' h e = elim (Bool-cases (joins p g)) [
  | inl j ↦
      let q : extend p g ∷ ms ≡ ms' = ground arith in
      rw (← q) (ground (arith, extend_covers s n p g h j))
  | inr j ↦ let q : g ∷ p ∷ ms ≡ ms' = ground arith in rw (← q) (ground arith)
]

-- The gap that is last after `merge_one`, and what may follow it.
merge_one_head :
    (p g : LogGap) (ms ms' gs : List LogGap)
    → key_le p g ≡ true
    → SortedFrom g gs
    → merge_one (p ∷ ms) g ≡ ok ms'
    → (q : LogGap) × (ms'' : List LogGap) × (ms' ≡ q ∷ ms'') × SortedFrom q gs
unfolding merge_one
merge_one_head p g ms ms' gs h k e = elim (Bool-cases (joins p g)) [
  | inl j ↦ (extend p g, ms, ground arith, extend-SortedFrom p g gs (SortedFrom-weaken p g gs h k))
  | inr j ↦ (g, p ∷ ms, ground arith, k)
]

merge_gaps-covers :
    (s n : ℕ) (p : LogGap) (ms gs r : List LogGap)
    → SortedFrom p gs
    → merge_gaps (p ∷ ms) gs ≡ ok r
    → covers s n r ≡ (covers s n (p ∷ ms) || covers s n gs)
unfolding merge_gaps
merge_gaps-covers s n p ms [] r k e = ground arith
merge_gaps-covers s n p ms (g ∷ gs) r k e =
    let (ms', one, more) = >>=-ok (merge_one (p ∷ ms) g) _ e in
    let (q, ms'', eq, sorted) = merge_one_head p g ms ms' gs k.0 k.1 one in
    let step = merge_one-covers s n p g ms ms' k.0 one in
    ground (
      arith,
      merge_gaps-covers s n q ms'' gs r sorted
          (ap (λ (xs : List LogGap). merge_gaps xs gs) (sym eq) ∙ more),
    )

-- Merging sorted gaps covers what they cover, stream by stream.
pub covers-merge_gaps :
    (s n : ℕ) (gs r : List LogGap)
    → IsSorted gs
    → merge_gaps [] gs ≡ ok r
    → covers s n r ≡ covers s n gs
unfolding merge_gaps
covers-merge_gaps s n [] r k e = ground arith
covers-merge_gaps s n (g ∷ gs) r k e =
    let (ms, one, more) = >>=-ok (merge_one [] g) _ e in
    let eq : g ∷ [] ≡ ms = unfold merge_one in ground arith in
    ground (
      arith,
      merge_gaps-covers s n g [] gs r k (ap (λ (xs : List LogGap). merge_gaps xs gs) eq ∙ more),
    )
