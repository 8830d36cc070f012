-- ===== src/Base/Equality.antt =====
-- Derived equality (`PartialEq`) of the values that the messages are made of.
use Prim.Native.Nat.{ℕ}
use mathlib.Core.Path.{◌≡◌, refl, ap, sym, ◌∙◌}
use mathlib.Core.Logic.{◌↔◌}
use mathlib.Core.Bool.{Bool, true, false, ◌&&◌}
use mathlib.Core.Option.{Option, none, some}
use mathlib.Core.List.{List, [], ◌∷◌}
use native.Mathlib.Omega.{arith}
use distributed_execution.Base.Tests.{◌==◌, ==_iff}
use distributed_execution.Base.Text.{bytes_eq, bytes_eq_iff, Bytes}
use distributed_execution.Base.Words.{ℤ, ℤ_eq, ℤ_eq_iff}

pub record Eq (A : Type 0) : Type 0 where
  pub beq : A → A → Bool
  pub beq_iff : (a b : A) → (beq a b ≡ true) ↔ (a ≡ b)

abbrev pub equals : {A : Type 0} ⦃e : Eq A⦄ → A → A → Bool
equals ⦃e⦄ = e.beq

pub equals_iff : {A : Type 0} ⦃e : Eq A⦄ (a b : A) → (equals a b ≡ true) ↔ (a ≡ b)
equals_iff ⦃e⦄ = e.beq_iff

pub equals_refl : {A : Type 0} ⦃e : Eq A⦄ (a : A) → equals a a ≡ true
equals_refl a = (equals_iff a a).1 refl

instance abbrev pub nat_eq : Eq ℕ
nat_eq = record { beq = ◌==◌; beq_iff = ==_iff }

instance abbrev pub integer_eq : Eq ℤ
integer_eq = record { beq = ℤ_eq; beq_iff = ℤ_eq_iff }

abbrev same_flag : Bool → Bool → Bool
same_flag true true = true
same_flag false false = true
same_flag _ _ = false

pub same_flag_iff : (a b : Bool) → (same_flag a b ≡ true) ↔ (a ≡ b)
same_flag_iff a b = ground arith

instance abbrev pub flag_eq : Eq Bool
flag_eq = record { beq = same_flag; beq_iff = same_flag_iff }

module _ {A : Type 0} ⦃e : Eq A⦄ where
  abbrev same_option : Option A → Option A → Bool
  same_option none none = true
  same_option (some a) (some b) = e.beq a b
  same_option _ _ = false

  pub same_option_iff : (x y : Option A) → (same_option x y ≡ true) ↔ (x ≡ y)
  same_option_iff none none = ground arith
  same_option_iff none (some b) = ground arith
  same_option_iff (some a) none = ground arith
  same_option_iff (some a) (some b) = ground (arith, e.beq_iff a b)

  abbrev same_list : List A → List A → Bool
  same_list [] [] = true
  same_list (x ∷ xs) (y ∷ ys) = e.beq x y && same_list xs ys
  same_list _ _ = false

  pub same_list_iff : (xs ys : List A) → (same_list xs ys ≡ true) ↔ (xs ≡ ys)
  same_list_iff [] [] = ground arith
  same_list_iff [] (y ∷ ys) = ground arith
  same_list_iff (x ∷ xs) [] = ground arith
  same_list_iff (x ∷ xs) (y ∷ ys) = ground (arith, e.beq_iff x y, same_list_iff xs ys)

instance abbrev pub bytes_equality : Eq Bytes
bytes_equality = record { beq = bytes_eq; beq_iff = bytes_eq_iff }

instance abbrev pub option_eq : {A : Type 0} ⦃e : Eq A⦄ → Eq (Option A)
option_eq = record { beq = same_option; beq_iff = same_option_iff }

-- Lists of messages; `Bytes` has its own instance.
abbrev pub list_eq : {A : Type 0} ⦃e : Eq A⦄ → Eq (List A)
list_eq = record { beq = same_list; beq_iff = same_list_iff }

module _ {A B : Type 0} (e : Eq A) (f : Eq B) where
  abbrev same_pair : A × B → A × B → Bool
  same_pair p q = e.beq p.0 q.0 && f.beq p.1 q.1

  pub same_pair_iff : (p q : A × B) → (same_pair p q ≡ true) ↔ (p ≡ q)
  same_pair_iff (a, b) (c, d) = ground (arith, e.beq_iff a c, f.beq_iff b d)

infixr 4 ◌⊗◌
-- Equality field by field.
abbrev pub ◌⊗◌ : {A B : Type 0} → Eq A → Eq B → Eq (A × B)
e ⊗ f = record { beq = same_pair e f; beq_iff = same_pair_iff e f }

module _ {A B : Type 0} (e : Eq B) (fields : A → B) (made : B → A)
    (again : (a : A) → made (fields a) ≡ a) where
  pub same_fields_iff : (a b : A) → (e.beq (fields a) (fields b) ≡ true) ↔ (a ≡ b)
  same_fields_iff a b = (
    λ h. sym (again a) ∙ ap made ((e.beq_iff (fields a) (fields b)).0 h) ∙ again b,
    λ p. (e.beq_iff (fields a) (fields b)).1 (ap fields p),
  )

  -- The equality of a record with these fields.
  abbrev pub by_fields : Eq A
  by_fields = record { beq = λ a b. e.beq (fields a) (fields b); beq_iff = same_fields_iff }
