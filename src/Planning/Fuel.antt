-- ===== src/Planning/Fuel.antt =====
-- runtime/internal/cartesianmeasure/planner.go, buildPlan: each level of the recursion fixes one more
-- axis of the waveform.
use falcon_instrument_hub.Prelude.{
  ℕ, zero, suc, ◌%◌, ◌≤◌, ◌<◌, ◌≡◌, refl, inl, inr, false, Option, none, some, List, [], ◌∷◌, arith,
  Bool-cases, Option-cases, comparable_nat, comparable_string, ==_iff, length, get_elem?, Result,
}
use falcon_instrument_hub.Prelude.Floats.{Floats}
use falcon_instrument_hub.Prelude.Maps.{GoMap, insert, lookup, lookup-insert}
use falcon_instrument_hub.Ports.{Vocabulary, InstrumentPort, ConnectedPort}
use falcon_instrument_hub.Samples.{comparable_target}
use falcon_instrument_hub.Primitives.{FixedAxes, Waveform, UnitSpace, ControlArray, PlanError}
use falcon_instrument_hub.Primitives.Errors.{
  starved, starved-bind, starved-ok, starved-wrap, build_primitive_input-starved,
}
use falcon_instrument_hub.Planning.{
  MeasurementRequest, Plan, supports, axis_values, only_array, shape_from_space, shape_of,
  first_unfixed, build_children, reduce_axis, build_plan, plan_first, range_from, plan_request,
}

module _ {A L : Type 0} where
  -- How many axes of a waveform have no value yet, from axis `i` on.
  unfoldable unfixed : ℕ → List L → GoMap ℕ A → ℕ
  unfixed i [] fixed = 0
  unfixed i (l ∷ rest) fixed =
      let later = unfixed (suc i) rest fixed in
      elim (lookup (i % 256) fixed) [ none ↦ suc later | some x ↦ later ]

  unfixed-length : (i : ℕ) (axes : List L) (fixed : GoMap ℕ A) → unfixed i axes fixed ≤ length axes
  unfolding unfixed
  unfixed-length i [] fixed = omega arith
  unfixed-length i (l ∷ rest) fixed = ground (arith, unfixed-length (suc i) rest fixed)

  unfixed-insert :
      (i : ℕ) (axes : List L) (fixed : GoMap ℕ A) (a : ℕ) (x : A)
      → unfixed i axes (insert a x fixed) ≤ unfixed i axes fixed
  unfolding unfixed
  unfixed-insert i [] fixed a x = omega arith
  unfixed-insert i (l ∷ rest) fixed a x =
      ground (arith, unfixed-insert (suc i) rest fixed a x, lookup-insert a (i % 256) x fixed)

  unfixed-first :
      (i : ℕ) (axes : List L) (fixed : GoMap ℕ A) (a : ℕ) (x : A)
      → first_unfixed i axes fixed ≡ some a
      → unfixed i axes (insert a x fixed) < unfixed i axes fixed
  unfolding unfixed first_unfixed
  unfixed-first i [] fixed a x h = ground arith
  unfixed-first i (l ∷ rest) fixed a x h = ground (
    arith,
    unfixed-insert (suc i) rest fixed a x,
    unfixed-first (suc i) rest fixed a x,
    lookup-insert a (i % 256) x fixed,
    ==_iff a (i % 256),
  )

module _ {F : Floats} (V : Vocabulary) (E : Type 0) where
  shape_of-starved :
      (axis : ℕ) (arrays : List (ControlArray F))
      → starved (shape_of {V = V} {E = E} axis arrays) ≡ false
  unfolding shape_of
  shape_of-starved axis [] = starved-ok _ _ refl
  shape_of-starved axis (a ∷ more) = elim (Option-cases (get_elem? a.shape axis)) [
    | inl e ↦ unfold starved in rw (e, shape_of) refl
    | inr (n, e) ↦
        rw (e, shape_of)
          (starved-bind _ _ (shape_of-starved (suc axis) more) (λ ns h. starved-ok _ _ refl))
  ]

  only_array-starved :
      (arrays : List (ControlArray F)) → starved (only_array {V = V} {E = E} arrays) ≡ false
  unfolding only_array starved
  only_array-starved [] = refl
  only_array-starved (a ∷ []) = refl
  only_array-starved (a ∷ b ∷ more) = refl

module _ {F : Floats} {E : Type 0} (V : Vocabulary) where
  shape_from_space-starved :
      (space : UnitSpace F E) (dim : ℕ) → starved (shape_from_space {V = V} space dim) ≡ false
  unfolding shape_from_space
  shape_from_space-starved space dim = starved-bind _ _ (starved-wrap V space.compile) (λ c h.
      starved-bind _ _ (starved-wrap V (space.create_array (range_from 0 dim)))
        (λ arrays h. shape_of-starved V E 0 arrays))

  axis_values-starved :
      (space : UnitSpace F E) (axis : ℕ) → starved (axis_values {V = V} space axis) ≡ false
  unfolding axis_values
  axis_values-starved space axis =
      starved-bind _ _ (starved-wrap V (space.create_array (axis ∷ [])))
        (λ arrays h. only_array-starved V E arrays)

module _ {F : Floats} {V : Vocabulary} {E : Type 0} where
  build_children-starved :
      (child : FixedAxes F → Result (PlanError V E) (Plan F)) (axis : ℕ) (fixed : FixedAxes F)
      (xs : List F.Float64)
      → ((x : F.Float64) → starved (child (insert axis x fixed)) ≡ false)
      → starved (build_children child axis fixed xs) ≡ false
  unfolding build_children
  build_children-starved child axis fixed [] h = starved-ok _ _ refl
  build_children-starved child axis fixed (x ∷ xs) h = starved-bind _ _ (h x) (λ p e.
      starved-bind _ _ (build_children-starved child axis fixed xs h) (λ ps e. starved-ok _ _ refl))

  reduce_axis-starved :
      (child : FixedAxes F → Result (PlanError V E) (Plan F)) (waveform : Waveform F V E)
      (fixed : FixedAxes F) (found : Option ℕ)
      → ((a : ℕ) (x : F.Float64) → found ≡ some a → starved (child (insert a x fixed)) ≡ false)
      → starved (reduce_axis child waveform fixed found) ≡ false
  unfolding reduce_axis
  reduce_axis-starved child waveform fixed none h = unfold starved in refl
  reduce_axis-starved child waveform fixed (some a) h =
      starved-bind _ _ (axis_values-starved V waveform.space a) (λ xs e.
        starved-bind _ _ (build_children-starved child a fixed xs (λ x. h a x refl)) (λ ps e.
          starved-bind _ _ (shape_from_space-starved V waveform.space _)
            (λ s e. starved-ok _ _ refl)))

  build_plan-starved :
      (fuel : ℕ) (getters : List (InstrumentPort V)) (waveform : Waveform F V E)
      (ports : Option (List (ConnectedPort V))) (fixed : FixedAxes F) (dimensions : List ℕ)
      → unfixed 0 waveform.axes fixed < fuel
      → starved (build_plan fuel getters waveform ports fixed dimensions) ≡ false
  unfolding build_plan
  build_plan-starved zero getters waveform ports fixed dimensions h = ground (arith, h)
  build_plan-starved (suc fuel) getters waveform ports fixed dimensions h =
      starved-bind _ _ (build_primitive_input-starved getters waveform fixed ports) (λ input e.
        elim (Bool-cases (supports dimensions input.choice)) [
          | inl e ↦ rw e (starved-ok _ _ refl)
          | inr e ↦ rw e (
              reduce_axis-starved (λ held. build_plan fuel getters waveform ports held dimensions)
                waveform fixed (first_unfixed 0 waveform.axes fixed)
                (λ a x found.
                  build_plan-starved fuel getters waveform ports (insert a x fixed) dimensions
                    (omega (arith, h, unfixed-first 0 waveform.axes fixed a x found))))
        ])

  plan_first-starved :
      (getters : List (InstrumentPort V)) (ports : Option (List (ConnectedPort V)))
      (dimensions : List ℕ) (waveforms : List (Waveform F V E))
      → starved (plan_first getters ports dimensions waveforms) ≡ false
  unfolding plan_first starved
  plan_first-starved getters ports dimensions [] = refl
  plan_first-starved getters ports dimensions (w ∷ ws) =
      build_plan-starved (suc (length w.axes)) getters w ports [] dimensions
        (omega (arith, unfixed-length 0 w.axes []))

  -- BuildPlan ends: one level of recursion for each axis of the waveform, and one for the primitive
  -- measurement, are enough, whatever the executor supports.
  pub plan_request-starved :
      (req : MeasurementRequest F V E) (ports : Option (List (ConnectedPort V)))
      (dimensions : List ℕ)
      → starved (plan_request req ports dimensions) ≡ false
  unfolding plan_request
  plan_request-starved req ports dimensions =
      plan_first-starved req.getters ports dimensions req.waveforms
