-- ===== src/Planning/Grid.antt =====
-- runtime/internal/cartesianmeasure/planner.go, buildPlan: the primitive measurements of a plan and
-- the points at which their axes are held.
use falcon_instrument_hub.Prelude.{List, [], ◌∷◌, ◌++◌, comparable_nat, comparable_string}
use falcon_instrument_hub.Prelude.Floats.{Floats}
use falcon_instrument_hub.Primitives.{PrimitiveMeasurementInput, FixedAxes}
use falcon_instrument_hub.Planning.{Plan, Plans, native_plan, nested_plan, nil, cons}

module _ {F : Floats} where
  -- The primitive measurements of a plan with their FixedAxes, from left to right.
  unfoldable mutual
    pub points : Plan F → List (PrimitiveMeasurementInput F × FixedAxes F)
    points (native_plan input fixed) = (input, fixed) ∷ []
    points (nested_plan children shape) = all_points children

    pub all_points : Plans F → List (PrimitiveMeasurementInput F × FixedAxes F)
    all_points nil = []
    all_points (cons p ps) = points p ++ all_points ps
