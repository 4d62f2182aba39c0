-- ===== src/Planning/Sweep.antt =====
-- runtime/internal/cartesianmeasure/planner.go, buildPlan: the order in which a plan visits the
-- points of the axes that the executor cannot sweep.
use falcon_instrument_hub.Prelude.{
  ℕ, zero, suc, ◌≡◌, refl, sym, subst, inl, inr, Option, List, [], ◌∷◌, map, map-append, arith,
  comparable_nat, comparable_string, Result, ok, ok_injective,
}
use falcon_instrument_hub.Prelude.Floats.{Floats}
use falcon_instrument_hub.Prelude.Maps.{insert, lookup, has}
use falcon_instrument_hub.Ports.{Vocabulary, InstrumentPort, ConnectedPort}
use falcon_instrument_hub.Primitives.{PrimitiveMeasurementInput, FixedAxes, Waveform, PlanError}
use falcon_instrument_hub.Planning.Built.{build_children_cons, reduce_axis_ok, build_plan_ok}
use falcon_instrument_hub.Planning.{Plan, Plans, nil, axis_values, build_children, build_plan}
use falcon_instrument_hub.Planning.Grid.{points, all_points}
use falcon_instrument_hub.Planning.Depth.{depth, first_depth, SameDepth, insert_same, depth_same}
use falcon_instrument_hub.Planning.Rows.{
  gather, values_of, row_major, only_array_values, Below, first_unfixed-Below, Below-insert,
}

module _ {F : Floats} where
  -- The FixedAxes of the primitive measurements of a plan.
  abbrev pub held_points : List (PrimitiveMeasurementInput F × FixedAxes F) → List (FixedAxes F)
  held_points ps = map (λ p. p.1) ps

module _ {F : Floats} {V : Vocabulary} {E : Type 0} (getters : List (InstrumentPort V))
    (waveform : Waveform F V E) (ports : Option (List (ConnectedPort V)))
    (dimensions : List ℕ) where
  -- Two plans that hold the same axes, at whatever values, reduce equally many axes more.
  children-sweep :
      (child : FixedAxes F → Result (PlanError V E) (Plan F)) (axis : ℕ) (fixed : FixedAxes F)
      (grid : FixedAxes F → List (FixedAxes F)) (xs : List F.Float64) (ps : Plans F)
      → ((x : F.Float64) (p : Plan F)
          → child (insert axis x fixed) ≡ ok p
          → held_points (points p) ≡ grid (insert axis x fixed))
      → build_children child axis fixed xs ≡ ok ps
      → held_points (all_points ps) ≡ gather (λ x. grid (insert axis x fixed)) xs
  unfolding all_points build_children
  children-sweep child axis fixed grid [] ps each h = rw (sym (ok_injective nil ps h)) refl
  children-sweep child axis fixed grid (x ∷ xs) ps each h =
      let (p, qs, hp, hqs, e) = build_children_cons child axis fixed x xs ps h in
      rw
        (
          e,
          map-append (λ z. z.1) (points p) (all_points qs),
          each x p hp,
          children-sweep child axis fixed grid xs qs each hqs,
        )
        refl

  -- All children have the depth of the first one.
  each-sweep :
      (child : FixedAxes F → Result (PlanError V E) (Plan F)) (axis : ℕ) (fixed : FixedAxes F)
      (xs : List F.Float64) (ps : Plans F)
      → SameDepth child
      → ((x : F.Float64) (p : Plan F)
          → child (insert axis x fixed) ≡ ok p
          → held_points (points p)
            ≡ row_major waveform.space (depth p) (suc axis) (insert axis x fixed))
      → build_children child axis fixed xs ≡ ok ps
      → held_points (all_points ps)
        ≡ gather
            (λ x. row_major waveform.space (first_depth ps) (suc axis) (insert axis x fixed))
            xs
  unfolding all_points build_children
  each-sweep child axis fixed [] ps same each h = rw (sym (ok_injective nil ps h)) refl
  each-sweep child axis fixed (x ∷ xs) ps same each h =
      let (p, qs, hp, _, e) = build_children_cons child axis fixed x xs ps h in
      let k : first_depth ps ≡ depth p = rw e (unfold first_depth in refl) in
      subst
        (λ z.
          held_points (all_points ps)
          ≡ gather (λ y. row_major waveform.space z (suc axis) (insert axis y fixed)) (x ∷ xs))
        (sym k)
        (children-sweep child axis fixed (row_major waveform.space (depth p) (suc axis)) (x ∷ xs) ps
          (λ y q hq.
            rw
              (
                each y q hq,
                same (insert axis y fixed) (insert axis x fixed) q p
                    (insert_same axis y x fixed fixed (λ j. refl)) hq hp,
              )
              refl)
          h)

  values_known :
      (axis : ℕ) (xs : List F.Float64)
      → axis_values {V = V} waveform.space axis ≡ ok xs
      → values_of (waveform.space.create_array (axis ∷ [])) ≡ xs
  unfolding axis_values
  values_known axis xs h = only_array_values {V = V} (waveform.space.create_array (axis ∷ [])) xs h

  plan-sweep :
      (fuel i : ℕ) (fixed : FixedAxes F) (p : Plan F)
      → Below i fixed
      → build_plan fuel getters waveform ports fixed dimensions ≡ ok p
      → held_points (points p) ≡ row_major waveform.space (depth p) i fixed
  unfolding points depth row_major
  plan-sweep zero i fixed p v h = unfold build_plan in cc h
  plan-sweep (suc fuel) i fixed p v h =
      let (input, built, cases) = build_plan_ok getters waveform ports dimensions fuel fixed p h in
      elim cases [
        | inl (y, e) ↦ rw e refl
        | inr (_, r) ↦
            let (axis, xs, ps, shape, found, values, hps, e) =
              reduce_axis_ok _ waveform fixed _ p r in
            let (at, room) =
              first_unfixed-Below i 0 axis waveform.axes fixed v (inl (omega arith)) found in
            let values' : axis_values {V = V} waveform.space i ≡ ok xs = rw at at values in
            let hps' : build_children _ i fixed xs ≡ ok ps = rw at at hps in
            rw (e, values_known i xs values')
              (each-sweep _ i fixed xs ps (depth_same getters waveform ports dimensions fuel)
                (λ x q hq.
                  plan-sweep fuel (suc i) (insert i x fixed) q (Below-insert i x fixed v room) hq)
                hps')
      ]

  -- The primitive measurements of a plan that buildPlan returns, where it starts with no axis held,
  -- hold the first axes of the waveform, as many as it has reduced, in row-major order: axis 0 varies
  -- slowest, and there is one measurement for each combination of the values of these axes, each
  -- axis taking those of the one array that the space gives for it.
  pub build_plan-sweep :
      (fuel : ℕ) (p : Plan F)
      → build_plan fuel getters waveform ports [] dimensions ≡ ok p
      → held_points (points p) ≡ row_major waveform.space (depth p) 0 []
  build_plan-sweep fuel p h = plan-sweep fuel 0 [] p none_held h
    where
      none_held : Below {A = F.Float64} 0 []
      none_held = record { held = λ k. unfold has lookup in ground arith; room = omega arith }
