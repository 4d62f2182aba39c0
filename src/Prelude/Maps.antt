-- ===== src/Prelude/Maps.antt =====
-- A Go map as the list of its entries. The order of the entries is the order in which a `range`
-- loop meets them; Go leaves it open, so every theorem ranges over it.
use mathlib.Core.Path.{◌≡◌, refl, subst}
use mathlib.Core.Bool.{Bool, true, false}
use mathlib.Core.Logic.{inl, inr}
use mathlib.Core.List.{List, [], ◌∷◌}
use mathlib.Core.Option.{Option, none, some}
use native.Mathlib.Omega.{arith}
use falcon_instrument_hub.Prelude.Tests.{Comparable, ◌==◌, ==_iff, Bool-cases, if◌then◌else◌}
use falcon_instrument_hub.Prelude.Lists.{All}

abbrev pub GoMap {ℓ} : Type ℓ → Type ℓ → Type ℓ
GoMap K V = List (K × V)

module _ {ℓ} {K V : Type ℓ} ⦃e : Comparable K⦄ where
  -- `v, ok := m[k]`
  unfoldable pub lookup : K → GoMap K V → Option V
  lookup key [] = none
  lookup key ((i, x) ∷ es) = if i == key then some x else lookup key es

  -- `m[k] = v`
  unfoldable pub insert : K → V → GoMap K V → GoMap K V
  insert key x [] = (key, x) ∷ []
  insert key x ((i, y) ∷ es) = if i == key then (key, x) ∷ es else (i, y) ∷ insert key x es

  -- `delete(m, k)`
  unfoldable pub delete : K → GoMap K V → GoMap K V
  delete k [] = []
  delete k ((j, v) ∷ m) = let rest = delete k m in if j == k then rest else (j, v) ∷ rest

  pub lookup-insert :
      (new j : K) (x : V) (es : GoMap K V)
      → lookup j (insert new x es) ≡ (if new == j then some x else lookup j es)
  unfolding lookup insert
  lookup-insert new j x [] = refl
  lookup-insert new j x ((i, y) ∷ es) =
      ground (arith, ==_iff i j, ==_iff i new, ==_iff new j, lookup-insert new j x es)

  pub lookup-delete :
      (k j : K) (m : GoMap K V) → lookup j (delete k m) ≡ (if k == j then none else lookup j m)
  unfolding lookup delete
  lookup-delete k j [] = ground arith
  lookup-delete k j ((i, v) ∷ m) =
      ground (arith, lookup-delete k j m, ==_iff i k, ==_iff i j, ==_iff k j)

  -- `_, ok := m[k]`
  unfoldable pub has : K → GoMap K V → Bool
  unfolding lookup
  has k m = elim (lookup k m) [ none ↦ false | some v ↦ true ]

  pub has_of_lookup : (k : K) (v : V) (m : GoMap K V) → lookup k m ≡ some v → has k m ≡ true
  unfolding has
  has_of_lookup k v m e = rw (e, has)

  pub has_of_missing : (k : K) (m : GoMap K V) → lookup k m ≡ none → has k m ≡ false
  unfolding has
  has_of_missing k m e = rw (e, has)

  pub has-insert :
      (k j : K) (v : V) (m : GoMap K V) → has j (insert k v m) ≡ (if k == j then true else has j m)
  unfolding has
  has-insert k j v m = ground (arith, lookup-insert k j v m)

  pub has-delete :
      (k j : K) (m : GoMap K V) → has j (delete k m) ≡ (if k == j then false else has j m)
  unfolding has
  has-delete k j m = ground (arith, lookup-delete k j m)

  -- No key occurs twice, as in every Go map.
  abbrev pub Distinct : GoMap K V → Type 0
  Distinct [] = Unit
  Distinct ((k, v) ∷ m) = (has k m ≡ false) × Distinct m

  pub insert-Distinct : (k : K) (v : V) (m : GoMap K V) → Distinct m → Distinct (insert k v m)
  unfolding insert
  insert-Distinct k v [] d = (unfold has in refl, tt)
  insert-Distinct k v ((j, w) ∷ m) d =
      ground (arith, insert-Distinct k v m d.1, has-insert k j v m, ==_iff j k, ==_iff k j)

  pub delete-Distinct : (k : K) (m : GoMap K V) → Distinct m → Distinct (delete k m)
  unfolding delete
  delete-Distinct k [] d = tt
  delete-Distinct k ((j, w) ∷ m) d =
      ground (arith, delete-Distinct k m d.1, has-delete k j m, ==_iff j k, ==_iff k j)

  pub lookup-All :
      (P : K × V → Type ℓ) (k : K) (v : V) (m : GoMap K V)
      → All P m
      → lookup k m ≡ some v
      → P (k, v)
  unfolding lookup
  lookup-All P k v [] a h = cc
  lookup-All P k v ((j, w) ∷ m) a h = elim (Bool-cases (j == k)) [
    | inl e ↦ subst P (cc ((==_iff j k).0 e, rw e at h)) a.0
    | inr e ↦ lookup-All P k v m a.1 (rw e at h)
  ]

  pub insert-All :
      (P : K × V → Type ℓ) (k : K) (v : V) (m : GoMap K V)
      → P (k, v)
      → All P m
      → All P (insert k v m)
  unfolding insert
  insert-All P k v [] p a = (p, tt)
  insert-All P k v ((j, w) ∷ m) p a = elim (Bool-cases (j == k)) [
    | inl e ↦ rw e (p, a.1)
    | inr e ↦ rw e (a.0, insert-All P k v m p a.1)
  ]

  pub delete-All : (P : K × V → Type ℓ) (k : K) (m : GoMap K V) → All P m → All P (delete k m)
  unfolding delete
  delete-All P k [] a = tt
  delete-All P k ((j, w) ∷ m) a = elim (Bool-cases (j == k)) [
    | inl e ↦ rw e (delete-All P k m a.1)
    | inr e ↦ rw e (a.0, delete-All P k m a.1)
  ]
