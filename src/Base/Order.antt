-- ===== src/Base/Order.antt =====
-- The order of strings, and sorted lists in which no name stands twice.
use mathlib.Core.Path.{◌≡◌, refl, ap₂}
use mathlib.Core.Logic.{inl, inr}
use mathlib.Core.Bool.{Bool, true, false}
use mathlib.Core.List.{List, [], ◌∷◌}
use native.Mathlib.Omega.{arith}
use distributed_execution.Base.Tests.{Bool-cases}
use distributed_execution.Base.Lists.{All}
use distributed_execution.Base.Text.{Bytes}
use distributed_execution.Base.Sorting.{bytes_le, insert_by, sort_by}

-- What holds between each item and all items after it.
abbrev pub Pairs : {A : Type 0} → (A → A → Type 0) → List A → Type 0
Pairs related [] = Unit {0}
Pairs related (a ∷ rest) = All (related a) rest × Pairs related rest

pub bytes_le_total : (a b : Bytes) → bytes_le a b ≡ false → bytes_le b a ≡ true
bytes_le_total [] b h = absurd (ground arith)
bytes_le_total (x ∷ xs) [] h = refl
bytes_le_total (x ∷ xs) (y ∷ ys) h = ground (arith, bytes_le_total xs ys)

pub bytes_le_trans :
    (a b c : Bytes) → bytes_le a b ≡ true → bytes_le b c ≡ true → bytes_le a c ≡ true
bytes_le_trans [] b c h k = refl
bytes_le_trans (x ∷ xs) [] c h k = absurd (ground arith)
bytes_le_trans (x ∷ xs) (y ∷ ys) [] h k = absurd (ground arith)
bytes_le_trans (x ∷ xs) (y ∷ ys) (z ∷ zs) h k = ground (arith, bytes_le_trans xs ys zs)

pub bytes_le_antisym : (a b : Bytes) → bytes_le a b ≡ true → bytes_le b a ≡ true → a ≡ b
bytes_le_antisym [] [] h k = refl
bytes_le_antisym [] (y ∷ ys) h k = absurd (ground arith)
bytes_le_antisym (x ∷ xs) [] h k = absurd (ground arith)
bytes_le_antisym (x ∷ xs) (y ∷ ys) h k =
    ap₂ ◌∷◌ (ground arith) (bytes_le_antisym xs ys (ground arith) (ground arith))

module _ {A : Type 0} (le : A → A → Bool) where
  abbrev pub IsOrdered : List A → Type 0
  IsOrdered items = Pairs (λ a b. le a b ≡ true) items

  All-insert_by :
      (P : A → Type 0) (a : A) (bs : List A) → P a → All P bs → All P (insert_by le a bs)
  All-insert_by P a [] h k = (h, tt)
  All-insert_by P a (b ∷ bs) h (k, rest) = elim (Bool-cases (le a b)) [
    | inl before ↦ rw (insert_by, before) (h, (k, rest))
    | inr after ↦ rw (insert_by, after) (k, All-insert_by P a bs h rest)
  ]

  module _ (total : (a b : A) → le a b ≡ false → le b a ≡ true)
      (trans : (a b c : A) → le a b ≡ true → le b c ≡ true → le a c ≡ true) where
    All-trans :
        (a b : A) (rest : List A)
        → le a b ≡ true
        → All (λ c. le b c ≡ true) rest
        → All (λ c. le a c ≡ true) rest
    All-trans a b [] h k = tt
    All-trans a b (c ∷ rest) h (k, more) = (trans a b c h k, All-trans a b rest h more)

    insert_by-IsOrdered : (a : A) (bs : List A) → IsOrdered bs → IsOrdered (insert_by le a bs)
    insert_by-IsOrdered a [] h = (tt, tt)
    insert_by-IsOrdered a (b ∷ bs) (first, rest) = elim (Bool-cases (le a b)) [
      | inl before ↦ rw (insert_by, before) ((before, All-trans a b bs before first), (first, rest))
      | inr after ↦
          rw (insert_by, after)
            (
              All-insert_by (λ c. le b c ≡ true) a bs (total a b after) first,
              insert_by-IsOrdered a bs rest,
            )
    ]

    pub sort_by-IsOrdered : (items : List A) → IsOrdered (sort_by le items)
    sort_by-IsOrdered [] = tt
    sort_by-IsOrdered (a ∷ items) =
        insert_by-IsOrdered a (sort_by le items) (sort_by-IsOrdered items)
