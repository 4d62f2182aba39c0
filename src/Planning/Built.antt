-- ===== src/Planning/Built.antt =====
-- runtime/internal/cartesianmeasure/planner.go, buildPlan: what a call that returned a plan did.
use falcon_instrument_hub.Prelude.{
  ℕ, suc, ◌%◌, ◌≡◌, refl, sym, ◌⊎◌, inl, inr, true, false, Option, none, some, List, ◌∷◌,
  Bool-cases, comparable_nat, comparable_string, length, Result, ok, bind_ok, ok_injective,
}
use falcon_instrument_hub.Prelude.Floats.{Floats}
use falcon_instrument_hub.Prelude.Maps.{insert}
use falcon_instrument_hub.Ports.{Vocabulary, InstrumentPort, ConnectedPort}
use falcon_instrument_hub.Primitives.{
  PrimitiveMeasurementInput, FixedAxes, Waveform, PlanError, build_primitive_input,
}
use falcon_instrument_hub.Planning.{
  Plan, Plans, native_plan, nested_plan, cons, supports, axis_values, shape_from_space,
  first_unfixed, build_children, reduce_axis, build_plan,
}

module _ {F : Floats} {V : Vocabulary} {E : Type 0}
    (child : FixedAxes F → Result (PlanError V E) (Plan F)) where
  pub build_children_cons :
      (axis : ℕ) (fixed : FixedAxes F) (x : F.Float64) (xs : List F.Float64) (ps : Plans F)
      → build_children child axis fixed (x ∷ xs) ≡ ok ps
      → (p : Plan F) × (qs : Plans F) × (child (insert axis x fixed) ≡ ok p)
        × (build_children child axis fixed xs ≡ ok qs)
        × (ps ≡ cons p qs)
  unfolding build_children
  build_children_cons axis fixed x xs ps h =
      let (p, hp, e) = bind_ok (child (insert axis x fixed)) _ ps h in
      let (qs, hqs, f) = bind_ok (build_children child axis fixed xs) _ ps e in
      (p, qs, hp, hqs, sym (ok_injective (cons p qs) ps f))

  pub reduce_axis_ok :
      (waveform : Waveform F V E) (fixed : FixedAxes F) (found : Option ℕ) (p : Plan F)
      → reduce_axis child waveform fixed found ≡ ok p
      → (axis : ℕ) × (xs : List F.Float64) × (ps : Plans F) × (shape : List ℕ) × (found ≡ some axis)
        × (axis_values {V = V} waveform.space axis ≡ ok xs)
        × (build_children child axis fixed xs ≡ ok ps)
        × (p ≡ nested_plan ps shape)
  unfolding reduce_axis
  reduce_axis_ok waveform fixed none p h = cc h
  reduce_axis_ok waveform fixed (some axis) p h =
      let (xs, hx, e) = bind_ok (axis_values waveform.space axis) _ p h in
      let (ps, hps, f) = bind_ok (build_children child axis fixed xs) _ p e in
      let (shape, _, g) =
        bind_ok (shape_from_space waveform.space (length waveform.axes % 256)) _ p f in
      (axis, xs, ps, shape, refl, hx, hps, sym (ok_injective (nested_plan ps shape) p g))

module _ {F : Floats} {V : Vocabulary} {E : Type 0} (getters : List (InstrumentPort V))
    (waveform : Waveform F V E) (ports : Option (List (ConnectedPort V)))
    (dimensions : List ℕ) where
  pub build_plan_ok :
      (fuel : ℕ) (fixed : FixedAxes F) (p : Plan F)
      → build_plan (suc fuel) getters waveform ports fixed dimensions ≡ ok p
      → (input : PrimitiveMeasurementInput F) × (build_primitive_input getters waveform fixed ports
          ≡ ok input)
        × (((supports dimensions input.choice ≡ true) × (p ≡ native_plan input fixed))
            ⊎ ((supports dimensions input.choice ≡ false)
                × (reduce_axis
                      (λ held. build_plan fuel getters waveform ports held dimensions)
                      waveform
                      fixed
                      (first_unfixed 0 waveform.axes fixed)
                    ≡ ok p)))
  unfolding build_plan
  build_plan_ok fuel fixed p h =
      let (input, built, e) = bind_ok (build_primitive_input getters waveform fixed ports) _ p h in
      elim (Bool-cases (supports dimensions input.choice)) [
        | inl y ↦
            let same : ok (native_plan input fixed) ≡ ok p = rw y at e in
            (input, built, inl (y, sym (ok_injective (native_plan input fixed) p same)))
        | inr n ↦ (input, built, inr (n, rw n at e))
      ]
