-- ===== src/Prelude/Results.antt =====
-- A Go result `(value, error)` as a value: what a call returned, or the error it returned.
use mathlib.Core.Path.{◌≡◌, refl}
use mathlib.Core.Logic.{◌⊎◌, inl, inr}
use mathlib.Core.Bool.{Bool, true, false}

pub data Result {ℓ} (E A : Type ℓ) : Type ℓ where
  ok : A → Result E A
  err : E → Result E A

infixl 5 ◌>>=◌ ◌>>◌
abbrev pub ◌>>=◌ {ℓ} : {E A B : Type ℓ} → Result E A → (A → Result E B) → Result E B
ok a >>= f = f a
err e >>= f = err e

abbrev pub ◌>>◌ {ℓ} : {E A B : Type ℓ} → Result E A → Result E B → Result E B
m >> k = m >>= λ _. k

-- `if err != nil { return ..., wrapped(err) }`
abbrev pub wrap {ℓ} : {E F A : Type ℓ} → (E → F) → Result E A → Result F A
wrap f (ok a) = ok a
wrap f (err e) = err (f e)

-- A call that also changes the world, and what follows where it returns no error.
abbrev pub and_then {ℓ} :
    {E A B W : Type ℓ} → Result E A × W → (A → W → Result E B × W) → Result E B × W
and_then (ok a, w) f = f a w
and_then (err e, w) f = (err e, w)

-- `if !test { return ..., e }`
abbrev pub guard : {E : Type 0} → Bool → E → Result E (Unit {0})
guard true e = ok tt
guard false e = err e

abbrev pub is_ok {ℓ} : {E A : Type ℓ} → Result E A → Bool
is_ok (ok a) = true
is_ok (err e) = false

pub Result-cases {ℓ} :
    {E A : Type ℓ} (r : Result E A) → ((a : A) × (r ≡ ok a)) ⊎ ((e : E) × (r ≡ err e))
Result-cases (ok a) = inl (a, refl)
Result-cases (err e) = inr (e, refl)

-- A chain that returns no error has passed each of its steps.
module _ {ℓ} {E A B : Type ℓ} where
  pub bind_ok :
      (m : Result E A) (f : A → Result E B) (b : B)
      → (m >>= f) ≡ ok b
      → (a : A) × (m ≡ ok a) × (f a ≡ ok b)
  bind_ok (ok a) f b h = (a, refl, h)
  bind_ok (err e) f b h = cc

  pub wrap_ok : (f : E → B) (m : Result E A) (a : A) → wrap f m ≡ ok a → m ≡ ok a
  wrap_ok f (ok x) a h = cc
  wrap_ok f (err e) a h = cc

module _ {ℓ} {E A B W : Type ℓ} where
  pub and_then_ok :
      (x : Result E A × W) (k : A → W → Result E B × W) (b : B)
      → (and_then x k).0 ≡ ok b
      → (a : A) × (x.0 ≡ ok a) × (and_then x k ≡ k a x.1)
  and_then_ok (ok a, w) k b h = (a, refl, refl)
  and_then_ok (err e, w) k b h = cc

pub guard_ok : {E : Type 0} → (t : Bool) (e : E) (u : Unit {0}) → guard t e ≡ ok u → t ≡ true
guard_ok true e u h = refl
guard_ok false e u h = cc

pub ok_injective {ℓ} : {E A : Type ℓ} → (a b : A) → ◌≡◌ {A = Result E A} (ok a) (ok b) → a ≡ b
ok_injective a b h = cc h
