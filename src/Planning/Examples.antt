-- ===== src/Planning/Examples.antt =====
-- Plans on a waveform of two axes, for an executor that sweeps one.
use falcon_instrument_hub.Prelude.{
  ℕ, zero, suc, ◌%◌, String, ◌≡◌, refl, sym, true, false, Option, none, some, List, [], ◌∷◌,
  comparable_nat, comparable_string, length, All, Result, ok, err, ok_injective,
}
use falcon_instrument_hub.Prelude.Int.{ℤ, pos}
use falcon_instrument_hub.Prelude.Maps.{GoMap, Distinct, has, insert, lookup}
use falcon_instrument_hub.Buffer.Examples.{integers}
use falcon_instrument_hub.Ports.{
  InstrumentPort, ConnectedPort, Connection, plunger_gate, resolve_port, resolves,
}
use falcon_instrument_hub.Ports.Examples.{numbered, gate_port}
use falcon_instrument_hub.Samples.{Target, comparable_target}
use falcon_instrument_hub.Primitives.Expected.{IsSetter, HasSetter}
use falcon_instrument_hub.Primitives.Setters.{build_setters-IsSetter}
use falcon_instrument_hub.Primitives.Counting.{distinct, swept_axes, build_primitive_input-distinct}
use falcon_instrument_hub.Primitives.{
  convert_to_target, PlanError, Input, PrimitiveMeasurementInput, FixedAxes, Waveform, ControlArray,
  LabelledDomain, build_primitive_input, build_getters, get_targets, build_setters, set_axes,
  count_axes, input_from_domain,
}
use falcon_instrument_hub.Primitives.Errors.{starved}
use falcon_instrument_hub.Planning.{
  MeasurementRequest, Plan, native_plan, nested_plan, nil, cons, supports, first_unfixed,
  reduce_axis, axis_values, build_children, build_plan, plan_request, samples, merge, execute,
  plan_shape, range_from,
}
use falcon_instrument_hub.Planning.Execution.{execute_lem, run_flat, leaves, map_value}
use falcon_instrument_hub.Planning.Fuel.{plan_request-starved}
use falcon_instrument_hub.Planning.Grid.{points}
use falcon_instrument_hub.Planning.Depth.{depth}
use falcon_instrument_hub.Planning.Rows.{row_major}
use falcon_instrument_hub.Planning.Sweep.{build_plan-sweep, held_points}

abbrev gate : String → Connection
gate name = record { name = name; type = plunger_gate }

abbrev wired_to : String → ℕ → ConnectedPort numbered
wired_to name channel = record {
  instrument_name = "Source1";
  channel_group = "analog";
  channel = pos channel;
  instrument_type = 1;
  role = 0;
  access = 1;
  scope = 1;
  characteristic = 2;
  unit = 3;
  description = "";
  port_name = "Source1.analog.4.voltage";
  device_name = name;
  handle = gate name;
}

abbrev wiring : Option (List (ConnectedPort numbered))
wiring = some (wired_to "P1" 1 ∷ wired_to "P2" 2 ∷ wired_to "O1" 3 ∷ [])

abbrev line : List ℕ → List ℤ → ControlArray integers
line shape values = record { values = values; shape = shape }

abbrev points_along : List ℕ → Result String (List (ControlArray integers))
points_along (zero ∷ []) = ok (line (2 ∷ []) (pos 1 ∷ pos 2 ∷ []) ∷ [])
points_along (suc zero ∷ []) = ok (line (3 ∷ []) (pos 5 ∷ pos 6 ∷ pos 7 ∷ []) ∷ [])
points_along (zero ∷ suc zero ∷ []) = ok (line (2 ∷ 3 ∷ []) [] ∷ line (2 ∷ 3 ∷ []) [] ∷ [])
points_along axes = err "no such axes"

abbrev along : String → List (LabelledDomain integers numbered)
along name =
    record {
      port = gate_port (gate name);
      domain = record {
        lesser_bound = pos 0;
        greater_bound = pos 9;
        lesser_bound_contained = true;
        greater_bound_contained = true;
      };
    }
    ∷ []

abbrev plane : Waveform integers numbered String
plane = record {
  space = record { compile = ok tt; create_array = points_along };
  axes = along "P1" ∷ along "P2" ∷ [];
  increasing = (("P1", true) ∷ []) ∷ (("P2", false) ∷ []) ∷ [];
}

abbrev meter : List (InstrumentPort numbered)
meter = gate_port (gate "O1") ∷ []

abbrev request : MeasurementRequest integers numbered String
request = record { waveforms = plane ∷ []; getters = meter }

abbrev held : ℤ → FixedAxes integers
held x = (0, x) ∷ []

abbrev pub target : ℕ → Target
target n = record { instrument = "Source1"; group = "analog"; channel = pos n }

abbrev pub line_at : ℤ → PrimitiveMeasurementInput integers
line_at x = record {
  setters =
      (target 1, record { axis = 0; start = x; stop = none; num = none })
      ∷ (target 2, record { axis = 0; start = pos 9; stop = some (pos 0); num = some 3 })
      ∷ [];
  getters = target 3 ∷ [];
  getter_units = (target 3, 3) ∷ [];
  choice = 1;
}

abbrev two_lines : Plan integers
two_lines =
    nested_plan
      (cons (native_plan (line_at (pos 1)) (held (pos 1)))
        (cons (native_plan (line_at (pos 2)) (held (pos 2))) nil))
      (2 ∷ 3 ∷ [])

built : build_plan 3 meter plane wiring [] (1 ∷ []) ≡ ok two_lines
unfolding build_plan build_primitive_input build_getters get_targets build_setters set_axes
    count_axes supports first_unfixed reduce_axis axis_values build_children resolve_port resolves
    insert lookup range_from input_from_domain
built = refl

whole_plane : plan_shape two_lines ≡ 2 ∷ 3 ∷ []
unfolding plan_shape
whole_plane = refl

line_shape : plan_shape (native_plan (line_at (pos 1)) (held (pos 1))) ≡ 3 ∷ []
unfolding plan_shape range_from insert lookup
line_shape = refl

-- A measurement whose world counts the calls and that returns the value of its first setter.
abbrev first_start : GoMap Target (Input integers) → ℤ
first_start [] = pos 0
first_start ((t, i) ∷ rest) = i.start

abbrev measure : PrimitiveMeasurementInput integers → ℕ → Result String (GoMap Target (List ℤ)) × ℕ
measure i n = (ok ((target 3, first_start i.setters ∷ []) ∷ []), suc n)

measure-Distinct :
    (i : PrimitiveMeasurementInput integers) (n : ℕ) (o : GoMap Target (List ℤ))
    → (measure i n).0 ≡ ok o
    → Distinct o
unfolding has
measure-Distinct i n o h =
    rw (sym (ok_injective ((target 3, first_start i.setters ∷ []) ∷ []) o h)) (refl, tt)

both_lines : (execute measure two_lines 0) ≡ (ok ((target 3, pos 1 ∷ pos 2 ∷ []) ∷ []), 2)
unfolding execute insert lookup samples merge
both_lines = refl

execute_lem_example :
    map_value (samples (target 3)) (execute measure two_lines 0)
    ≡ run_flat measure (target 3) (leaves two_lines) 0
execute_lem_example = execute_lem measure (target 3) two_lines 0 measure-Distinct

plan_request-starved_example : starved (plan_request request wiring (1 ∷ [])) ≡ false
plan_request-starved_example = plan_request-starved request wiring (1 ∷ [])

build_plan-sweep_example :
    held_points (points two_lines) ≡ row_major plane.space (depth two_lines) 0 []
build_plan-sweep_example = build_plan-sweep meter plane wiring (1 ∷ []) 3 two_lines built

outer_points : row_major plane.space 1 0 [] ≡ held (pos 1) ∷ held (pos 2) ∷ []
unfolding row_major insert lookup
outer_points = refl

setters_built :
    ◌≡◌ {A = Result (PlanError numbered String) (GoMap Target (Input integers))}
      (build_setters plane (held (pos 1)) wiring)
      (ok (line_at (pos 1)).setters)
unfolding build_setters set_axes convert_to_target resolve_port resolves insert lookup
    input_from_domain
setters_built = refl

build_setters-IsSetter_example :
    All (IsSetter plane (held (pos 1)) wiring) (line_at (pos 1)).setters
    × All
        (λ coupled. All (HasSetter plane (held (pos 1)) wiring (line_at (pos 1)).setters) coupled)
        plane.axes
build_setters-IsSetter_example =
    build_setters-IsSetter plane (held (pos 1)) wiring (line_at (pos 1)).setters setters_built

line_built :
    ◌≡◌ {A = Result (PlanError numbered String) (PrimitiveMeasurementInput integers)}
      (build_primitive_input meter plane (held (pos 1)) wiring)
      (ok (line_at (pos 1)))
unfolding build_primitive_input build_getters get_targets build_setters set_axes count_axes
    resolve_port resolves insert lookup input_from_domain
line_built = refl

build_primitive_input-distinct_example :
    (line_at (pos 1)).choice ≡ length (distinct (swept_axes (line_at (pos 1)).setters)) % 256
build_primitive_input-distinct_example =
    build_primitive_input-distinct meter plane (held (pos 1)) wiring (line_at (pos 1)) line_built
