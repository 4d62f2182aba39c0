-- ===== src/Planning.antt =====
-- runtime/internal/cartesianmeasure/planner.go: the decomposition of a measurement into primitive
-- measurements that the instruments support, and its execution. `W` is what a measurement can
-- change, `A` a sample, `E` an error of the C library behind a waveform's space.
pub mod Merge
pub mod Execution
pub mod Fuel
pub mod Built
pub mod Grid
pub mod Depth
pub mod Rows
pub mod Sweep
pub mod Examples
use falcon_instrument_hub.Prelude.{
  ℕ, zero, suc, ◌+◌, ◌-◌, ◌*◌, ◌/◌, ◌%◌, ◌^◌, ◌≤◌, ◌<◌, String, ◌≡◌, refl, sym, ap, subst, fun_ext,
  ◌∙◌, ◌≢◌, ◌↔◌, ◌⊎◌, inl, inr, Bool, true, false, not, ◌&&◌, ◌||◌, Option, none, some, List, [],
  ◌∷◌, ◌++◌, map, append_assoc, append-nil, map-append, arith, ltb, leb, if◌then◌else◌, ltb→lt,
  leb→le, Bool-cases, Option-cases, Comparable, ◌==◌, comparable_nat, comparable_string, ==_iff,
  ==_refl, length, get_elem?, set, replicate, length-append, length-map, All, sum, product, Result,
  ok, err, ◌>>=◌, ◌>>◌, wrap, guard, is_ok, Result-cases, and_then, nat_same, nat_same_iff, bind_ok,
  wrap_ok, and_then_ok, guard_ok, ok_injective,
}
use falcon_instrument_hub.Prelude.Floats.{Floats}
use falcon_instrument_hub.Prelude.Maps.{GoMap, insert, lookup}
use falcon_instrument_hub.Ports.{Vocabulary, InstrumentPort, ConnectedPort}
use falcon_instrument_hub.Samples.{Target, comparable_target}
use falcon_instrument_hub.Primitives.{
  not_one_array, panics, cannot_decompose, space_failed, no_waveforms, out_of_fuel, Input,
  PrimitiveMeasurementInput, FixedAxes, Waveform, UnitSpace, ControlArray, PlanError,
  build_primitive_input,
}

-- The fields of a request that the planner reads.
pub record MeasurementRequest (F : Floats) (V : Vocabulary) (E : Type 0) : Type 0 where
  pub waveforms : List (Waveform F V E)
  pub getters : List (InstrumentPort V)

mutual
  pub data Plan (F : Floats) : Type 0 where
    native_plan : PrimitiveMeasurementInput F → FixedAxes F → Plan F
    nested_plan : Plans F → List ℕ → Plan F

  -- The children of a NestedPlan.
  pub data Plans (F : Floats) : Type 0 where
    nil : Plans F
    cons : Plan F → Plans F → Plans F

-- slices.Contains
unfoldable pub supports : List ℕ → ℕ → Bool
supports [] d = false
supports (x ∷ xs) d = (x == d) || supports xs d

module _ {F : Floats} {V : Vocabulary} {E : Type 0} where
  -- `arrays[axis].Shape[axis]` from `axis` on.
  shape_of : ℕ → List (ControlArray F) → Result (PlanError V E) (List ℕ)
  shape_of axis [] = ok []
  shape_of axis (a ∷ more) =
      let rest = shape_of (suc axis) more in
      elim (get_elem? a.shape axis) [ none ↦ err panics | some n ↦ rest >>= λ ns. ok (n ∷ ns) ]

-- `for i := range dim`, from `i` on.
unfoldable pub range_from : ℕ → ℕ → List ℕ
range_from i zero = []
range_from i (suc n) = i ∷ range_from (suc i) n

module _ {F : Floats} {V : Vocabulary} {E : Type 0} where
  shape_from_space : UnitSpace F E → ℕ → Result (PlanError V E) (List ℕ)
  unfolding shape_of
  shape_from_space space dim = wrap space_failed space.compile >>= λ c.
      (wrap space_failed (space.create_array (range_from 0 dim)) >>= λ arrays. shape_of 0 arrays)

  pub only_array : List (ControlArray F) → Result (PlanError V E) (List F.Float64)
  only_array (a ∷ []) = ok a.values
  only_array arrays = err (not_one_array (length arrays))

  unfoldable pub axis_values : UnitSpace F E → ℕ → Result (PlanError V E) (List F.Float64)
  unfolding only_array
  axis_values space axis =
      wrap space_failed (space.create_array (axis ∷ [])) >>= λ arrays. only_array arrays

module _ {A L : Type 0} where
  -- The loop for axisToReduce, from axis `i` on.
  unfoldable pub first_unfixed : ℕ → List L → GoMap ℕ A → Option ℕ
  first_unfixed i [] fixed = none
  first_unfixed i (l ∷ rest) fixed =
      let later = first_unfixed (suc i) rest fixed in
      elim (lookup (i % 256) fixed) [ none ↦ some (i % 256) | some x ↦ later ]

module _ {F : Floats} {V : Vocabulary} {E : Type 0} where
  -- The loop over the values of the reduced axis; `child` is the recursive call of buildPlan.
  unfoldable pub build_children :
      (FixedAxes F → Result (PlanError V E) (Plan F))
      → ℕ
      → FixedAxes F
      → List F.Float64
      → Result (PlanError V E) (Plans F)
  build_children child axis fixed [] = ok nil
  build_children child axis fixed (x ∷ xs) = child (insert axis x fixed) >>= λ p.
      (build_children child axis fixed xs >>= λ ps. ok (cons p ps))

  -- What buildPlan does where the executor does not support the measurement.
  unfoldable pub reduce_axis :
      (FixedAxes F → Result (PlanError V E) (Plan F))
      → Waveform F V E
      → FixedAxes F
      → Option ℕ
      → Result (PlanError V E) (Plan F)
  unfolding axis_values build_children shape_from_space
  reduce_axis child waveform fixed none = err cannot_decompose
  reduce_axis child waveform fixed (some axis) = axis_values waveform.space axis >>= λ values.
      (build_children child axis fixed values >>= λ children.
      (shape_from_space waveform.space (length waveform.axes % 256) >>= λ shape.
      ok (nested_plan children shape)))

  -- buildPlan on the first waveform.
  unfoldable pub build_plan :
      ℕ
      → List (InstrumentPort V)
      → Waveform F V E
      → Option (List (ConnectedPort V))
      → FixedAxes F
      → List ℕ
      → Result (PlanError V E) (Plan F)
  unfolding build_primitive_input supports first_unfixed reduce_axis
  build_plan zero getters waveform ports fixed dimensions = err out_of_fuel
  build_plan (suc fuel) getters waveform ports fixed dimensions =
      build_primitive_input getters waveform fixed ports >>= λ input.
      elim (supports dimensions input.choice) [
        | true ↦ ok (native_plan input fixed)
        | false ↦
            reduce_axis (λ held. build_plan fuel getters waveform ports held dimensions) waveform
              fixed (first_unfixed 0 waveform.axes fixed)
      ]

  -- BuildPlan on the waveforms of a request; one of n axes is decomposed at most n times.
  plan_first :
      List (InstrumentPort V)
      → Option (List (ConnectedPort V))
      → List ℕ
      → List (Waveform F V E)
      → Result (PlanError V E) (Plan F)
  unfolding build_plan
  plan_first getters ports dimensions [] = err no_waveforms
  plan_first getters ports dimensions (w ∷ ws) =
      build_plan (suc (length w.axes)) getters w ports [] dimensions

  -- BuildPlan
  unfoldable pub plan_request :
      MeasurementRequest F V E
      → Option (List (ConnectedPort V))
      → List ℕ
      → Result (PlanError V E) (Plan F)
  unfolding plan_first
  plan_request req ports dimensions = plan_first req.getters ports dimensions req.waveforms

-- The loop over the setters in Shape of a NativePlan: `counts[setter.Axis] = *setter.Num`.
module _ {F : Floats} where
  axis_counts : GoMap Target (Input F) → GoMap ℕ ℕ → GoMap ℕ ℕ
  axis_counts [] counts = counts
  axis_counts ((t, i) ∷ rest) counts = elim i.num [
    | none ↦ axis_counts rest counts
    | some n ↦ axis_counts rest (insert i.axis n counts)
  ]

count_or_zero : Option ℕ → ℕ
count_or_zero none = 0
count_or_zero (some n) = n

module _ {F : Floats} where
  -- Shape of both plans.
  unfoldable pub plan_shape : Plan F → List ℕ
  unfolding axis_counts count_or_zero range_from
  plan_shape (native_plan input fixed) =
      let counts = axis_counts input.setters [] in
      map (λ a. count_or_zero (lookup a counts)) (range_from 0 (length counts % 256))
  plan_shape (nested_plan children shape) = shape

module _ {A : Type 0} where
  samples_or_none : Option (List A) → List A
  samples_or_none none = []
  samples_or_none (some xs) = xs

  -- `m[key]`, which is nil where the key is missing.
  unfoldable pub samples : Target → GoMap Target (List A) → List A
  unfolding lookup samples_or_none
  samples t m = samples_or_none (lookup t m)

  -- mergePrimitiveMeasurementOutputs
  unfoldable pub merge : GoMap Target (List A) → GoMap Target (List A) → GoMap Target (List A)
  unfolding samples
  merge total [] = total
  merge total ((t, xs) ∷ rest) = merge (insert t (samples t total ++ xs) total) rest

module _ {F : Floats} {A W G : Type 0} where
  -- Execute of both plans; `run` is Run of the executor with its number of points.
  unfoldable mutual
    pub execute :
        (PrimitiveMeasurementInput F → W → Result G (GoMap Target (List A)) × W)
        → Plan F
        → W
        → Result G (GoMap Target (List A)) × W
    execute run (native_plan input fixed) w = run input w
    execute run (nested_plan children shape) w = execute_children run children [] w

    pub execute_children :
        (PrimitiveMeasurementInput F → W → Result G (GoMap Target (List A)) × W)
        → Plans F
        → GoMap Target (List A)
        → W
        → Result G (GoMap Target (List A)) × W
    execute_children run nil out w = (ok out, w)
    execute_children run (cons p ps) out w =
        and_then (execute run p w) (λ r w'. execute_children run ps (merge out r) w')
