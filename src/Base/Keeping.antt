-- ===== src/Base/Keeping.antt =====
-- Lists that keep the items of another, each advanced by a relation, and continue it at its end.
use mathlib.Core.Path.{◌≡◌, sym, ap}
use mathlib.Core.Bool.{Bool}
use mathlib.Core.Option.{Option, none, some}
use mathlib.Core.List.{List, [], ◌∷◌, ◌++◌}
use mathlib.Core.Logic.{◌⊎◌, inl, inr}
use mathlib.Core.Path.{subst}
use distributed_execution.Base.Tests.{Bool-cases}
use distributed_execution.Base.Lists.{All, find, set_found}

module _ {A : Type 0} (R : A → A → Type 0) where
  abbrev pub Extends : List A → List A → Type 0
  Extends [] ys = Unit {0}
  Extends (x ∷ xs) [] = ⊥
  Extends (x ∷ xs) (y ∷ ys) = R x y × Extends xs ys

  module _ (stays : (x : A) → R x x) where
    pub Extends-append : (xs later : List A) → Extends xs (xs ++ later)
    Extends-append [] later = tt
    Extends-append (x ∷ xs) later = (stays x, Extends-append xs later)

    pub Extends-refl : (xs : List A) → Extends xs xs
    Extends-refl [] = tt
    Extends-refl (x ∷ xs) = (stays x, Extends-refl xs)

    pub Extends-set_found :
        (test : A → Bool) (xs : List A) (found a : A)
        → find test xs ≡ some found
        → R found a
        → Extends xs (set_found test a xs)
    Extends-set_found test [] found a h e = tt
    Extends-set_found test (x ∷ xs) found a h e = elim (Bool-cases (test x)) [
      | inl here ↦
          rw (set_found, here)
            (subst (λ z. R z a) (sym (same x found (rw (find, here) at h))) e, Extends-refl xs)
      | inr other ↦
          rw (set_found, other)
            (stays x, Extends-set_found test xs found a (rw (find, other) at h) e)
    ]
      where
        same : (y z : A) → ◌≡◌ {A = Option A} (some y) (some z) → y ≡ z
        same y z p = ap (λ o. elim o [ none ↦ y | some v ↦ v ]) p

  pub Extends-trans :
      ((x y z : A) → R x y → R y z → R x z)
      → (xs ys zs : List A) → Extends xs ys
      → Extends ys zs
      → Extends xs zs
  Extends-trans trans [] ys zs p q = tt
  Extends-trans trans (x ∷ xs) [] zs p q = absurd p
  Extends-trans trans (x ∷ xs) (y ∷ ys) [] p q = absurd q
  Extends-trans trans (x ∷ xs) (y ∷ ys) (z ∷ zs) p q =
      (trans x y z p.0 q.0, Extends-trans trans xs ys zs p.1 q.1)

  -- One of the items goes on from `x`.
  abbrev pub Reached : A → List A → Type 0
  Reached x [] = ⊥
  Reached x (y ∷ ys) = R x y ⊎ Reached x ys

  -- Items that are kept in any order.
  abbrev pub Within : List A → List A → Type 0
  Within xs ys = All (λ x. Reached x ys) xs

  pub Within-later : (xs ys : List A) (y : A) → Within xs ys → Within xs (y ∷ ys)
  Within-later [] ys y h = tt
  Within-later (x ∷ xs) ys y h = (inr h.0, Within-later xs ys y h.1)

  pub Extends-Within : (xs ys : List A) → Extends xs ys → Within xs ys
  Extends-Within [] ys h = tt
  Extends-Within (x ∷ xs) [] h = absurd h
  Extends-Within (x ∷ xs) (y ∷ ys) h = (inl h.0, Within-later xs ys y (Extends-Within xs ys h.1))

  module _ (trans : (x y z : A) → R x y → R y z → R x z) where
    Reached-trans : (x : A) (ys zs : List A) → Reached x ys → Within ys zs → Reached x zs
    Reached-trans x [] zs h k = absurd h
    Reached-trans x (y ∷ ys) zs (inl here) k = onward zs k.0
      where
        onward : (zs' : List A) → Reached y zs' → Reached x zs'
        onward [] r = absurd r
        onward (z ∷ zs') (inl last) = inl (trans x y z here last)
        onward (z ∷ zs') (inr later) = inr (onward zs' later)
    Reached-trans x (y ∷ ys) zs (inr later) k = Reached-trans x ys zs later k.1

    pub Within-trans : (xs ys zs : List A) → Within xs ys → Within ys zs → Within xs zs
    Within-trans [] ys zs p q = tt
    Within-trans (x ∷ xs) ys zs p q = (Reached-trans x ys zs p.0 q, Within-trans xs ys zs p.1 q)
