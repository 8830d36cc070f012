-- ===== src/Base/Lists.antt =====
-- Lists measured and indexed by native numbers, and predicates on them by recursion.
use Prim.Native.Nat.{ℕ, zero, suc, ◌+◌}
use mathlib.Core.Path.{◌≡◌, refl, ap, sym, ◌∙◌}
use mathlib.Core.Bool.{Bool, true, false, ◌&&◌, ◌||◌}
use mathlib.Core.List.{List, [], ◌∷◌, ◌++◌, map}
use mathlib.Core.Logic.{◌⊎◌, inl, inr}
use mathlib.Core.Option.{Option, none, some}
use native.Mathlib.Omega.{arith}
use distributed_execution.Base.Tests.{Bool-cases}

module _ {ℓ} {A : Type ℓ} where
  abbrev pub length : List A → ℕ
  length [] = 0
  length (x ∷ xs) = suc (length xs)

  abbrev pub get_elem? : List A → ℕ → Option A
  get_elem? [] i = none
  get_elem? (x ∷ xs) zero = some x
  get_elem? (x ∷ xs) (suc i) = get_elem? xs i

  abbrev pub take : ℕ → List A → List A
  take zero xs = []
  take (suc n) [] = []
  take (suc n) (x ∷ xs) = x ∷ take n xs

  abbrev pub drop : ℕ → List A → List A
  drop zero xs = xs
  drop (suc n) [] = []
  drop (suc n) (x ∷ xs) = drop n xs

  abbrev pub any : (A → Bool) → List A → Bool
  any p [] = false
  any p (x ∷ xs) = p x || any p xs

  abbrev pub all : (A → Bool) → List A → Bool
  all p [] = true
  all p (x ∷ xs) = p x && all p xs

  abbrev pub is_empty : List A → Bool
  is_empty [] = true
  is_empty (x ∷ xs) = false

  pub length-append : (xs ys : List A) → length (xs ++ ys) ≡ length xs + length ys
  length-append [] ys = omega arith
  length-append (x ∷ xs) ys = omega (arith, length-append xs ys)

  pub take-append : (xs ys : List A) → take (length xs) (xs ++ ys) ≡ xs
  take-append [] ys = refl
  take-append (x ∷ xs) ys = ap (◌∷◌ x) (take-append xs ys)

  pub drop-append : (xs ys : List A) → drop (length xs) (xs ++ ys) ≡ ys
  drop-append [] ys = refl
  drop-append (x ∷ xs) ys = drop-append xs ys

-- The predicate holds of each element, as nested pairs.
abbrev pub All {ℓ ℓ'} : {A : Type ℓ} → (A → Type ℓ') → List A → Type ℓ'
All holds [] = Unit
All holds (a ∷ rest) = holds a × All holds rest

pub List-cases {ℓ} :
    {A : Type ℓ} (xs : List A) → (xs ≡ []) ⊎ ((x : A) × (rest : List A) × (xs ≡ x ∷ rest))
List-cases [] = inl refl
List-cases (x ∷ xs) = inr (x, xs, refl)

module _ {A : Type 0} (test : A → Bool) where
  -- `iter().find(test)`
  abbrev pub find : List A → Option A
  find [] = none
  find (x ∷ xs) = let later = find xs in elim (test x) [ true ↦ some x | false ↦ later ]

  -- `iter_mut().find(test)`, with what is assigned to the item that is found.
  abbrev pub set_found : A → List A → List A
  set_found a [] = []
  set_found a (x ∷ xs) =
      let later = set_found a xs in elim (test x) [ true ↦ a ∷ xs | false ↦ x ∷ later ]

  -- An assignment that keeps an item's key keeps the keys.
  pub map-set_found :
      {B : Type 0} (key : A → B) (xs : List A) (found a : A)
      → find xs ≡ some found
      → key a ≡ key found
      → map key (set_found a xs) ≡ map key xs
  map-set_found key [] found a h e = refl
  map-set_found key (x ∷ xs) found a h e = elim (Bool-cases (test x)) [
    | inl here ↦
        rw (set_found, here)
          (ap (λ k. k ∷ map key xs) (e ∙ ap key (sym (some_inj x found (rw (find, here) at h)))))
    | inr other ↦
        rw (set_found, other)
          (ap (◌∷◌ (key x)) (map-set_found key xs found a (rw (find, other) at h) e))
  ]
    where
      some_inj : (a' b' : A) → ◌≡◌ {A = Option A} (some a') (some b') → a' ≡ b'
      some_inj a' b' p = ap (λ o. elim o [ none ↦ a' | some y ↦ y ]) p

  -- `iter().rev().find(test)`
  abbrev pub find_last : List A → Option A
  find_last [] = none
  find_last (x ∷ xs) = elim (find_last xs) [
    | some later ↦ some later
    | none ↦ elim (test x) [ true ↦ some x | false ↦ none ]
  ]
