-- ===== src/Primitives.antt =====
-- runtime/internal/cartesianmeasure/planner.go and primitiveMeasurementRegistry.go: the input of one
-- primitive measurement, built from a waveform some of whose axes are fixed. `E` is an error of the
-- C library behind a waveform's space. `Dimensionality` and the axes are uint8.
pub mod Errors
pub mod Keys
pub mod Inversion
pub mod Expected
pub mod Setters
pub mod Counting
use falcon_instrument_hub.Prelude.{
  ℕ, zero, suc, ◌+◌, ◌-◌, ◌*◌, ◌/◌, ◌%◌, ◌^◌, ◌≤◌, ◌<◌, String, ◌≡◌, refl, sym, ap, subst, fun_ext,
  ◌∙◌, ◌≢◌, ◌↔◌, ◌⊎◌, inl, inr, Bool, true, false, not, ◌&&◌, ◌||◌, Option, none, some, List, [],
  ◌∷◌, ◌++◌, map, append_assoc, append-nil, map-append, arith, ltb, leb, if◌then◌else◌, ltb→lt,
  leb→le, Bool-cases, Option-cases, Comparable, ◌==◌, comparable_nat, comparable_string, ==_iff,
  ==_refl, length, get_elem?, set, replicate, length-append, length-map, All, sum, product, Result,
  ok, err, ◌>>=◌, ◌>>◌, wrap, guard, is_ok, Result-cases, and_then, nat_same, nat_same_iff, bind_ok,
  wrap_ok, and_then_ok, guard_ok, ok_injective,
}
use falcon_instrument_hub.Prelude.Int.{ℤ, pos}
use falcon_instrument_hub.Prelude.Floats.{Floats}
use falcon_instrument_hub.Prelude.Maps.{GoMap, insert, lookup}
use falcon_instrument_hub.Ports.{Vocabulary, InstrumentPort, ConnectedPort, resolve_port}
use falcon_instrument_hub.Samples.{Target, comparable_target}

module _ (F : Floats) where
  -- `stop` and `num` are pointers: `none` is "not provided".
  pub record Input : Type 0 where
    pub axis : ℕ
    pub start : F.Float64
    pub stop : Option F.Float64
    pub num : Option ℕ

  pub record PrimitiveMeasurementInput : Type 0 where
    pub setters : GoMap Target Input
    pub getters : List Target
    pub getter_units : GoMap Target ℕ
    pub choice : ℕ

  pub record Domain : Type 0 where
    pub lesser_bound : F.Float64
    pub greater_bound : F.Float64
    pub lesser_bound_contained : Bool
    pub greater_bound_contained : Bool

  pub record ControlArray : Type 0 where
    pub values : List F.Float64
    pub shape : List ℕ

  -- UnitSpace through its interface UnitSpaceCompiler.
  pub record UnitSpace (E : Type 0) : Type 0 where
    pub compile : Result E (Unit {0})
    pub create_array : List ℕ → Result E (List ControlArray)

  pub record LabelledDomain (V : Vocabulary) : Type 0 where
    pub port : InstrumentPort V
    pub domain : Domain

  -- The DiscreteSpace of a waveform.
  pub record Waveform (V : Vocabulary) (E : Type 0) : Type 0 where
    pub space : UnitSpace E
    pub axes : List (List (LabelledDomain V))
    pub increasing : List (GoMap String Bool)

-- FixedAxes: the value at which an axis of the waveform is held.
abbrev pub FixedAxes : Floats → Type 0
FixedAxes F = GoMap ℕ F.Float64

pub data PlanError (V : Vocabulary) (E : Type 0) : Type 0 where
  no_ports : PlanError V E
  port_not_found : PlanError V E
  space_failed : E → PlanError V E
  no_arrays : ℕ → PlanError V E
  missing_increasing : InstrumentPort V → PlanError V E
  -- an index out of range, which is a panic
  panics : PlanError V E
  no_waveforms : PlanError V E
  cannot_decompose : PlanError V E
  not_one_array : ℕ → PlanError V E
  -- the recursion of buildPlan ran out of fuel
  out_of_fuel : PlanError V E

module _ {V : Vocabulary} where
  target_of : ConnectedPort V → Target
  target_of cp = record {
    instrument = cp.instrument_name;
    group = cp.channel_group;
    channel = cp.channel;
  }

module _ {V : Vocabulary} {E : Type 0} where
  found_target : Option (ConnectedPort V) → Result (PlanError V E) Target
  unfolding target_of
  found_target none = err port_not_found
  found_target (some cp) = ok (target_of cp)

  -- convertToTarget
  unfoldable pub convert_to_target :
      InstrumentPort V → Option (List (ConnectedPort V)) → Result (PlanError V E) Target
  unfolding found_target
  convert_to_target port none = err no_ports
  convert_to_target port (some connections) = found_target (resolve_port port (some connections))

  -- buildGetters, over the targets and the map so far.
  unfoldable pub get_targets :
      List (InstrumentPort V)
      → Option (List (ConnectedPort V))
      → List Target
      → GoMap Target (InstrumentPort V)
      → Result (PlanError V E) (List Target × GoMap Target (InstrumentPort V))
  unfolding convert_to_target
  get_targets [] ports targets m = ok (targets, m)
  get_targets (port ∷ rest) ports targets m = convert_to_target port ports >>= λ t.
      get_targets rest ports (targets ++ t ∷ []) (insert t port m)

  unfoldable pub build_getters :
      List (InstrumentPort V)
      → Option (List (ConnectedPort V))
      → Result (PlanError V E) (List Target × GoMap Target (InstrumentPort V))
  unfolding get_targets
  build_getters getters ports = get_targets getters ports [] []

module _ {V : Vocabulary} {E : Type 0} where
  -- `incMap[name]` of `waveform.Space.Increasing[globalAxis]`
  pub direction : InstrumentPort V → Option (GoMap String Bool) → Result (PlanError V E) Bool
  direction port none = err panics
  direction port (some m) = elim (lookup port.pseudo_name.name m) [
    | none ↦ err (missing_increasing port)
    | some b ↦ ok b
  ]

module _ {F : Floats} where
  open F use {Float64}

  -- `Input{Start: value}`
  abbrev pub held_at : Float64 → Input F
  held_at value = record { axis = 0; start = value; stop = none; num = none }

  unfoldable pub input_from_domain : Domain F → Bool → ℕ → ℕ → Input F
  input_from_domain d increasing num axis =
      if increasing
      then record {
        axis = axis;
        start = d.lesser_bound;
        stop = some d.greater_bound;
        num = some num;
      }
      else record {
        axis = axis;
        start = d.greater_bound;
        stop = some d.lesser_bound;
        num = some num;
      }

module _ {V : Vocabulary} {F : Floats} {E : Type 0} where
  open F use {Float64}

  -- The loop over the ports of a fixed axis.
  fix_axis :
      List (LabelledDomain F V)
      → Float64
      → Option (List (ConnectedPort V))
      → GoMap Target (Input F)
      → Result (PlanError V E) (GoMap Target (Input F))
  fix_axis [] value ports out = ok out
  fix_axis (l ∷ rest) value ports out = convert_to_target l.port ports >>= λ t.
      fix_axis rest value ports (insert t (held_at value) out)

  -- The loop over the ports of a swept axis.
  sweep_axis :
      List (LabelledDomain F V)
      → Option (GoMap String Bool)
      → ℕ
      → ℕ
      → Option (List (ConnectedPort V))
      → GoMap Target (Input F)
      → Result (PlanError V E) (GoMap Target (Input F))
  unfolding direction input_from_domain
  sweep_axis [] increasing num axis ports out = ok out
  sweep_axis (l ∷ rest) increasing num axis ports out = convert_to_target l.port ports >>= λ t.
      (direction l.port increasing >>= λ b.
      sweep_axis rest increasing num axis ports
        (insert t (input_from_domain l.domain b num axis) out))

  -- `len(arrays[0].Data)`
  pub points_of : ℕ → List (ControlArray F) → Result (PlanError V E) ℕ
  points_of axis [] = err (no_arrays axis)
  points_of axis (a ∷ more) = ok (length a.values)

  -- One round of the loop of buildSetters, with `fixed[GlobalAxis(globalAxis)]`: the map and
  -- primitiveAxis after it.
  set_axis :
      Waveform F V E
      → Option (List (ConnectedPort V))
      → ℕ
      → List (LabelledDomain F V)
      → GoMap Target (Input F)
      → ℕ
      → Option Float64
      → Result (PlanError V E) (GoMap Target (Input F) × ℕ)
  unfolding fix_axis sweep_axis points_of
  set_axis waveform ports i coupled out axis none =
      wrap space_failed (waveform.space.create_array (i ∷ [])) >>= λ arrays.
      (points_of i arrays >>= λ num.
      (sweep_axis coupled (get_elem? waveform.increasing i) num axis ports out >>= λ m.
      ok (m, (axis + 1) % 256)))
  set_axis waveform ports i coupled out axis (some value) =
      fix_axis coupled value ports out >>= λ m. ok (m, axis)

  -- buildSetters from axis `i` of the waveform on.
  unfoldable pub set_axes :
      Waveform F V E
      → FixedAxes F
      → Option (List (ConnectedPort V))
      → ℕ
      → List (List (LabelledDomain F V))
      → GoMap Target (Input F)
      → ℕ
      → Result (PlanError V E) (GoMap Target (Input F))
  unfolding set_axis
  set_axes waveform fixed ports i [] out axis = ok out
  set_axes waveform fixed ports i (coupled ∷ rest) out axis =
      set_axis waveform ports i coupled out axis (lookup (i % 256) fixed) >>= λ next.
      set_axes waveform fixed ports (suc i) rest next.0 next.1

  unfoldable pub build_setters :
      Waveform F V E
      → FixedAxes F
      → Option (List (ConnectedPort V))
      → Result (PlanError V E) (GoMap Target (Input F))
  unfolding set_axes
  build_setters waveform fixed ports = set_axes waveform fixed ports 0 waveform.axes [] 0

-- One setter of the loop for `dim`, with `seen` and `dim`.
abbrev pub add_axis : ℕ → Option ℕ → GoMap ℕ Bool × ℕ → GoMap ℕ Bool × ℕ
add_axis axis none (seen, dim) = (seen, dim)
add_axis axis (some n) (seen, dim) = elim (lookup axis seen) [
  | none ↦ (insert axis true seen, (dim + 1) % 256)
  | some b ↦ (seen, dim)
]

module _ {F : Floats} where
  unfoldable pub count_axes : GoMap Target (Input F) → GoMap ℕ Bool × ℕ → ℕ
  count_axes [] (seen, dim) = dim
  count_axes ((t, i) ∷ rest) s = count_axes rest (add_axis i.axis i.num s)

module _ {V : Vocabulary} where
  getter_units : GoMap Target (InstrumentPort V) → GoMap Target ℕ → GoMap Target ℕ
  getter_units [] m = m
  getter_units ((t, port) ∷ rest) m = getter_units rest (insert t port.unit m)

module _ {V : Vocabulary} {F : Floats} {E : Type 0} where
  unfoldable pub build_primitive_input :
      List (InstrumentPort V)
      → Waveform F V E
      → FixedAxes F
      → Option (List (ConnectedPort V))
      → Result (PlanError V E) (PrimitiveMeasurementInput F)
  unfolding build_getters build_setters count_axes getter_units
  build_primitive_input getters waveform fixed ports = build_getters getters ports >>= λ found.
      (build_setters waveform fixed ports >>= λ setters. ok record {
        setters = setters;
        getters = found.0;
        getter_units = getter_units found.1 [];
        choice = count_axes setters ([], 0);
      })
