-- ===== src/Planning/Rows.antt =====
-- runtime/internal/cartesianmeasure/planner.go, buildPlan: nested loops over the first axes of a
-- waveform, and which axis is reduced next.
use falcon_instrument_hub.Prelude.{
  ℕ, zero, suc, ◌%◌, ◌≤◌, ◌<◌, ◌≡◌, sym, ◌∙◌, ◌⊎◌, inl, inr, true, false, some, List, [], ◌∷◌, ◌++◌,
  arith, ltb, Option-cases, comparable_nat, comparable_string, ==_iff, Result, ok, err, ◌>>=◌, wrap,
  ok_injective,
}
use falcon_instrument_hub.Prelude.Floats.{Floats}
use falcon_instrument_hub.Prelude.Maps.{
  GoMap, insert, lookup, has, has-insert, has_of_missing, has_of_lookup,
}
use falcon_instrument_hub.Ports.{Vocabulary}
use falcon_instrument_hub.Primitives.{FixedAxes, UnitSpace, ControlArray, space_failed}
use falcon_instrument_hub.Planning.{only_array, first_unfixed}
use falcon_instrument_hub.Planning.Depth.{some_injective}

module _ {A B : Type 0} where
  abbrev pub gather : (A → List B) → List A → List B
  gather f [] = []
  gather f (x ∷ xs) = f x ++ gather f xs

module _ {F : Floats} {E : Type 0} where
  -- The values of an axis, where the space has one array for it.
  unfoldable pub values_of : Result E (List (ControlArray F)) → List F.Float64
  values_of (ok (a ∷ [])) = a.values
  values_of _ = []

  -- Nested loops over `k` axes from `axis` on, each over the values of its own array: the first axis
  -- is the outermost loop.
  unfoldable pub row_major : UnitSpace F E → ℕ → ℕ → FixedAxes F → List (FixedAxes F)
  unfolding values_of
  row_major space zero axis fixed = fixed ∷ []
  row_major space (suc k) axis fixed =
      gather (λ x. row_major space k (suc axis) (insert axis x fixed))
        (values_of (space.create_array (axis ∷ [])))

module _ {F : Floats} {V : Vocabulary} {E : Type 0} where
  pub only_array_values :
      (r : Result E (List (ControlArray F))) (xs : List F.Float64)
      → (wrap space_failed r >>= λ arrays. only_array {V = V} arrays) ≡ ok xs
      → values_of r ≡ xs
  unfolding only_array values_of
  only_array_values (err e) xs h = cc h
  only_array_values (ok []) xs h = cc h
  only_array_values (ok (a ∷ [])) xs h = ok_injective a.values xs h
  only_array_values (ok (a ∷ c ∷ more)) xs h = cc h

-- Exactly the axes below `i` are held, and a GlobalAxis has eight bits.
pub record Below {A : Type 0} (i : ℕ) (fixed : GoMap ℕ A) : Type 0 where
  pub held : (k : ℕ) → has k fixed ≡ ltb k i
  pub room : i ≤ 256

module _ {A L : Type 0} where
  -- The first axis that is not held, from one that is at most `i` on, is `i`.
  pub first_unfixed-Below :
      (i j a : ℕ) (axes : List L) (fixed : GoMap ℕ A)
      → Below i fixed
      → (j ≤ i) ⊎ (i ≡ 256)
      → first_unfixed j axes fixed ≡ some a
      → (a ≡ i) × (i < 256)
  unfolding first_unfixed
  first_unfixed-Below i j a [] fixed v r h = cc h
  first_unfixed-Below i j a (l ∷ rest) fixed v r h = elim (Option-cases (lookup (j % 256) fixed)) [
    | inl e ↦
        let k : some (j % 256) ≡ some a = rw (first_unfixed, e) at h in
        let n : has (j % 256) fixed ≡ false = has_of_missing (j % 256) fixed e in
        let below : ltb (j % 256) i ≡ false = sym (v.held (j % 256)) ∙ n in
        let room : i ≤ 256 = v.room in
        let same : j % 256 ≡ a = some_injective (j % 256) a k in
        ground (arith, below, room, r, same)
    | inr (x, e) ↦
        let k : first_unfixed (suc j) rest fixed ≡ some a = rw (first_unfixed, e) at h in
        let n : has (j % 256) fixed ≡ true = has_of_lookup (j % 256) x fixed e in
        let below : ltb (j % 256) i ≡ true = sym (v.held (j % 256)) ∙ n in
        let room : i ≤ 256 = v.room in
        first_unfixed-Below i (suc j) a rest fixed v (ground (arith, below, room, r)) k
  ]

module _ {A : Type 0} where
  pub Below-insert :
      (i : ℕ) (x : A) (fixed : GoMap ℕ A)
      → Below i fixed
      → i < 256
      → Below (suc i) (insert i x fixed)
  Below-insert i x fixed v h = record {
    held = λ k. ground (arith, has-insert i k x fixed, v.held k, ==_iff i k);
    room = omega arith;
  }
