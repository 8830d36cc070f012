-- ===== src/Base/Sorting.antt =====
-- Sorting as the source sorts, by a Boolean order: `sort`, `sort_by_key`, and neighbours.
use mathlib.Core.Bool.{Bool, true, false, ◌&&◌, ◌||◌}
use mathlib.Core.List.{List, [], ◌∷◌, Perm, map}
use mathlib.Core.List.Perm
use mathlib.Core.Logic.{inl, inr}
use distributed_execution.Base.Tests.{if◌then◌else◌, Bool-cases, ◌==◌, ltb}
use distributed_execution.Base.Text.{Bytes, bytes_eq}

-- The order of strings, byte by byte.
abbrev pub bytes_le : Bytes → Bytes → Bool
bytes_le [] ys = true
bytes_le (x ∷ xs) [] = false
bytes_le (x ∷ xs) (y ∷ ys) = ltb x y || x == y && bytes_le xs ys

module _ {A : Type 0} (le : A → A → Bool) where
  -- Insertion, in front of what is not smaller, so that the sort is stable.
  abbrev pub insert_by : A → List A → List A
  insert_by a [] = a ∷ []
  insert_by a (b ∷ bs) = let rest = insert_by a bs in if le a b then a ∷ b ∷ bs else b ∷ rest

  abbrev pub sort_by : List A → List A
  sort_by [] = []
  sort_by (a ∷ items) = insert_by a (sort_by items)

  insert_by-Perm : (a : A) (bs : List A) → Perm (insert_by a bs) (a ∷ bs)
  insert_by-Perm a [] = Perm.rfl
  insert_by-Perm a (b ∷ bs) = elim (Bool-cases (le a b)) [
    | inl before ↦ rw before Perm.rfl
    | inr after ↦ rw after (Perm.trans (Perm.cons b (insert_by-Perm a bs)) (Perm.swap a b bs))
  ]

  pub sort_by-Perm : (items : List A) → Perm (sort_by items) items
  sort_by-Perm [] = Perm.rfl
  sort_by-Perm (a ∷ items) =
      Perm.trans (insert_by-Perm a (sort_by items)) (Perm.cons a (sort_by-Perm items))

  -- The same under a function of the items.
  module _ {B : Type 0} (f : A → B) where
    map-insert_by-Perm : (a : A) (bs : List A) → Perm (map f (insert_by a bs)) (f a ∷ map f bs)
    map-insert_by-Perm a [] = Perm.rfl
    map-insert_by-Perm a (b ∷ bs) = elim (Bool-cases (le a b)) [
      | inl before ↦ rw before Perm.rfl
      | inr after ↦ rw after (
          Perm.trans (Perm.cons (f b) (map-insert_by-Perm a bs)) (Perm.swap (f a) (f b) (map f bs)))
    ]

    pub map-sort_by-Perm : (items : List A) → Perm (map f (sort_by items)) (map f items)
    map-sort_by-Perm [] = Perm.rfl
    map-sort_by-Perm (a ∷ items) =
        Perm.trans (map-insert_by-Perm a (sort_by items)) (Perm.cons (f a) (map-sort_by-Perm items))

-- `windows(2).any(…)`
abbrev pub any_neighbours : {A : Type 0} → (A → A → Bool) → List A → Bool
any_neighbours p [] = false
any_neighbours p (a ∷ []) = false
any_neighbours p (a ∷ b ∷ rest) = p a b || any_neighbours p (b ∷ rest)

-- `contains` of a set of strings.
abbrev pub is_in : Bytes → List Bytes → Bool
is_in a [] = false
is_in a (b ∷ bs) = bytes_eq a b || is_in a bs

-- An insertion into a set of strings fails on one that was there before.
abbrev pub has_repeated : List Bytes → Bool
has_repeated [] = false
has_repeated (a ∷ rest) = is_in a rest || has_repeated rest
