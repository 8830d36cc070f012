-- ===== src/Base/Results.antt =====
-- Rust's `Result<A, E>` with the `?` operator as a bind.
use mathlib.Core.Path.{◌≡◌, refl, ap}
use mathlib.Core.Option.{Option, none, some}
use mathlib.Core.Bool.{Bool, true, false}
use mathlib.Core.Logic.{◌⊎◌, inl, inr}

pub data Result (E A : Type 0) : Type 0 where
  err : E → Result E A
  ok : A → Result E A

infixl 5 ◌>>=◌ ◌>>◌
-- `?`: the first error is the outcome.
abbrev pub ◌>>=◌ : {E A B : Type 0} → Result E A → (A → Result E B) → Result E B
err why >>= next = err why
ok found >>= next = next found

-- A test whose success is not looked at.
abbrev pub ◌>>◌ : {E B : Type 0} → Result E (Unit {0}) → Result E B → Result E B
first >> after = first >>= (λ done. after)

-- `ok_or`
abbrev pub ok_or : {E A : Type 0} → Option A → E → Result E A
ok_or none e = err e
ok_or (some a) e = ok a

-- `map_err`
abbrev pub map_err : {E F A : Type 0} → (E → F) → Result E A → Result F A
map_err f (ok a) = ok a
map_err f (err e) = err (f e)

-- `if !test { return Err(why); }`
abbrev pub guard : {E : Type 0} → Bool → E → Result E (Unit {0})
guard false why = err why
guard true why = ok tt

abbrev pub is_ok : {E A : Type 0} → Result E A → Bool
is_ok (ok a) = true
is_ok (err e) = false

pub Result-cases :
    {E A : Type 0} (r : Result E A) → ((a : A) × (r ≡ ok a)) ⊎ ((e : E) × (r ≡ err e))
Result-cases (ok a) = inl (a, refl)
Result-cases (err e) = inr (e, refl)

-- A chain that succeeds has passed through a success of its first part.
pub >>=-ok :
    {E A C : Type 0} (first : Result E A) (next : A → Result E C) {end : C}
    → (first >>= next) ≡ ok end
    → (found : A) × (first ≡ ok found) × (next found ≡ ok end)
>>=-ok (err why) next h = cc
>>=-ok (ok found) next h = (found, refl, h)

-- A guard that lets pass has seen its test succeed.
pub guard-true : {E : Type 0} (b : Bool) (why : E) {u : Unit {0}} → guard b why ≡ ok u → b ≡ true
guard-true true why h = refl
guard-true false why h = cc

-- A required value that was found.
pub ok_or-some : {E A : Type 0} (o : Option A) (why : E) {a : A} → ok_or o why ≡ ok a → o ≡ some a
ok_or-some none why h = cc
ok_or-some (some b) why h = cc

-- A chain behind a guard that succeeds: the test held and the rest succeeds.
pub guarded :
    {E C : Type 0} (b : Bool) (why : E) (rest : Result E C) {end : C}
    → (guard b why >> rest) ≡ ok end
    → (b ≡ true) × (rest ≡ ok end)
guarded true why rest h = (refl, h)
guarded false why rest h = cc

-- A chain behind a required value that succeeds: the value was there.
pub required_ok :
    {E A C : Type 0} (o : Option A) (why : E) (next : A → Result E C) {end : C}
    → (ok_or o why >>= next) ≡ ok end
    → (a : A) × (o ≡ some a) × (next a ≡ ok end)
required_ok none why next h = cc
required_ok (some a) why next h = (a, refl, h)

pub same_ok : {E A : Type 0} {a b : A} → ◌≡◌ {A = Result E A} (ok a) (ok b) → a ≡ b
same_ok {a = a} h = ap (λ outcome. elim outcome [ err why ↦ a | ok found ↦ found ]) h
