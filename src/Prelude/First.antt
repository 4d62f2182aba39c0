-- ===== src/Prelude/First.antt =====
-- The loop that returns at the first element that passes a test.
use mathlib.Core.Path.{◌≡◌, refl, ap, subst}
use mathlib.Core.Bool.{Bool, true}
use mathlib.Core.Logic.{◌↔◌, inl, inr}
use mathlib.Core.List.{List, [], ◌∷◌, ◌++◌}
use mathlib.Core.Option.{Option, none, some}
use falcon_instrument_hub.Prelude.Tests.{Bool-cases, if◌then◌else◌}
use falcon_instrument_hub.Prelude.Lists.{All}

module _ {ℓ} {A : Type ℓ} where
  abbrev pub find : (A → Bool) → List A → Option A
  find test [] = none
  find test (x ∷ xs) = if test x then some x else find test xs

  -- The element has the property and none before it has.
  abbrev pub First {κ} : (A → Type κ) → List A → A → Type (ℓ ⊔ κ)
  First P xs x =
      (before after : List A) × (xs ≡ before ++ x ∷ after) × All (λ y. ¬ P y) before × P x

  module _ {κ} {P : A → Type κ} (test : A → Bool) (t : (y : A) → (test y ≡ true) ↔ P y) where
    find_sound : (xs : List A) (x : A) → find test xs ≡ some x → First P xs x
    find_sound [] x h = cc
    find_sound (y ∷ xs) x h = elim (Bool-cases (test y)) [
      | inl e ↦ ([], xs, cc (rw e at h), tt, (t x).0 (cc (e, rw e at h)))
      | inr e ↦
          let (before, after, l, a, p) = find_sound xs x (rw e at h) in
          (y ∷ before, after, ap (λ l. y ∷ l) l, (λ q. cc (e, (t y).1 q), a), p)
    ]

    find_passed :
        (before after : List A) (x : A)
        → All (λ y. ¬ P y) before
        → P x
        → find test (before ++ x ∷ after) ≡ some x
    find_passed [] after x a p = rw ((t x).1 p) refl
    find_passed (y ∷ before) after x a p = elim (Bool-cases (test y)) [
      | inl e ↦ absurd (a.0 ((t y).0 e))
      | inr e ↦ rw e (find_passed before after x a.1 p)
    ]

    pub find-First : (xs : List A) (x : A) → (find test xs ≡ some x) ↔ First P xs x
    find-First xs x = (
      find_sound xs x,
      λ f. let (before, after, l, a, p) = f in rw l (find_passed before after x a p),
    )

    -- Nothing passes.
    pub find_missing : (xs : List A) → (find test xs ≡ none) ↔ All (λ y. ¬ P y) xs
    find_missing [] = (λ h. tt, λ a. refl)
    find_missing (y ∷ xs) = elim (Bool-cases (test y)) [
      | inl e ↦ (λ h. cc (rw e at h), λ a. absurd (a.0 ((t y).0 e)))
      | inr e ↦ (
        λ h. (λ q. cc (e, (t y).1 q), (find_missing xs).0 (rw e at h)),
        λ a. rw e ((find_missing xs).1 a.1),
      )
    ]

  pub find-All {κ} :
      (P : A → Type κ) (test : A → Bool) (xs : List A) (x : A)
      → All P xs
      → find test xs ≡ some x
      → P x
  find-All P test [] x a h = cc
  find-All P test (y ∷ xs) x a h = elim (Bool-cases (test y)) [
    | inl e ↦ subst P (cc (rw e at h)) a.0
    | inr e ↦ find-All P test xs x a.1 (rw e at h)
  ]
