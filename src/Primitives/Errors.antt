-- ===== src/Primitives/Errors.antt =====
-- runtime/internal/cartesianmeasure/planner.go, buildPrimitiveInput: none of its errors is that of a
-- recursion that was cut short.
use falcon_instrument_hub.Prelude.{
  ℕ, suc, String, ◌≡◌, refl, Bool, true, false, Option, none, some, List, [], ◌∷◌, arith,
  comparable_nat, comparable_string, Result, ok, err, ◌>>=◌, wrap,
}
use falcon_instrument_hub.Prelude.Floats.{Floats}
use falcon_instrument_hub.Prelude.Maps.{GoMap}
use falcon_instrument_hub.Ports.{Vocabulary, InstrumentPort, ConnectedPort}
use falcon_instrument_hub.Samples.{Target, comparable_target}
use falcon_instrument_hub.Primitives.{
  Input, FixedAxes, Waveform, ControlArray, PlanError, LabelledDomain, build_primitive_input,
  convert_to_target, found_target, get_targets, build_getters, build_setters, set_axes, set_axis,
  fix_axis, sweep_axis, direction, points_of, out_of_fuel, space_failed,
}

module _ {V : Vocabulary} {E A : Type 0} where
  -- Whether a call of buildPlan was given too little fuel.
  unfoldable pub starved : Result (PlanError V E) A → Bool
  starved (err out_of_fuel) = true
  starved _ = false

module _ {V : Vocabulary} {E A B : Type 0} where
  pub starved-bind :
      (m : Result (PlanError V E) A) (f : A → Result (PlanError V E) B)
      → starved m ≡ false
      → ((a : A) → m ≡ ok a → starved (f a) ≡ false)
      → starved (m >>= f) ≡ false
  unfolding starved
  starved-bind (ok a) f h k = k a refl
  starved-bind (err out_of_fuel) f h k = cc h
  starved-bind (err e) f h k = h

module _ {V : Vocabulary} {E A : Type 0} where
  pub starved-ok : (m : Result (PlanError V E) A) (a : A) → m ≡ ok a → starved m ≡ false
  unfolding starved
  starved-ok (ok x) a h = refl
  starved-ok (err e) a h = cc h

module _ {E A : Type 0} (V : Vocabulary) where
  pub starved-wrap : (m : Result E A) → starved {V = V} (wrap space_failed m) ≡ false
  unfolding starved
  starved-wrap (ok a) = refl
  starved-wrap (err e) = refl

module _ {V : Vocabulary} (E : Type 0) where
  convert_to_target-starved :
      (port : InstrumentPort V) (ports : Option (List (ConnectedPort V)))
      → starved (convert_to_target {E = E} port ports) ≡ false
  unfolding convert_to_target found_target starved
  convert_to_target-starved port none = refl
  convert_to_target-starved port (some cs) = ground arith

  get_targets-starved :
      (getters : List (InstrumentPort V)) (ports : Option (List (ConnectedPort V)))
      (targets : List Target) (m : GoMap Target (InstrumentPort V))
      → starved (get_targets {E = E} getters ports targets m) ≡ false
  unfolding get_targets
  get_targets-starved [] ports targets m = starved-ok _ _ refl
  get_targets-starved (port ∷ rest) ports targets m =
      starved-bind _ _ (convert_to_target-starved port ports)
        (λ t e. get_targets-starved rest ports _ _)

  direction-starved :
      (port : InstrumentPort V) (o : Option (GoMap String Bool))
      → starved (direction {E = E} port o) ≡ false
  unfolding direction starved
  direction-starved port none = refl
  direction-starved port (some m) = ground arith

module _ {F : Floats} (V : Vocabulary) (E : Type 0) where
  points_of-starved :
      (axis : ℕ) (arrays : List (ControlArray F))
      → starved (points_of {V = V} {E = E} axis arrays) ≡ false
  unfolding points_of starved
  points_of-starved axis [] = refl
  points_of-starved axis (a ∷ more) = refl

module _ {V : Vocabulary} {F : Floats} (E : Type 0) where
  fix_axis-starved :
      (ls : List (LabelledDomain F V)) (value : F.Float64) (ports : Option (List (ConnectedPort V)))
      (out : GoMap Target (Input F))
      → starved (fix_axis {E = E} ls value ports out) ≡ false
  unfolding fix_axis
  fix_axis-starved [] value ports out = starved-ok _ _ refl
  fix_axis-starved (l ∷ rest) value ports out =
      starved-bind _ _ (convert_to_target-starved E l.port ports)
        (λ t e. fix_axis-starved rest value ports _)

  sweep_axis-starved :
      (ls : List (LabelledDomain F V)) (increasing : Option (GoMap String Bool)) (num axis : ℕ)
      (ports : Option (List (ConnectedPort V))) (out : GoMap Target (Input F))
      → starved (sweep_axis {E = E} ls increasing num axis ports out) ≡ false
  unfolding sweep_axis
  sweep_axis-starved [] increasing num axis ports out = starved-ok _ _ refl
  sweep_axis-starved (l ∷ rest) increasing num axis ports out =
      starved-bind _ _ (convert_to_target-starved E l.port ports) (λ t e.
        starved-bind _ _ (direction-starved E l.port increasing)
          (λ b e. sweep_axis-starved rest increasing num axis ports _))

module _ {V : Vocabulary} {F : Floats} {E : Type 0} where
  set_axis-starved :
      (waveform : Waveform F V E) (ports : Option (List (ConnectedPort V))) (i : ℕ)
      (coupled : List (LabelledDomain F V)) (out : GoMap Target (Input F)) (axis : ℕ)
      (held : Option F.Float64)
      → starved (set_axis waveform ports i coupled out axis held) ≡ false
  unfolding set_axis
  set_axis-starved waveform ports i coupled out axis none =
      starved-bind _ _ (starved-wrap V (waveform.space.create_array (i ∷ []))) (λ arrays e.
        starved-bind _ _ (points_of-starved V E i arrays) (λ num e.
          starved-bind _ _ (sweep_axis-starved E coupled _ num axis ports out)
            (λ m e. starved-ok _ _ refl)))
  set_axis-starved waveform ports i coupled out axis (some x) =
      starved-bind _ _ (fix_axis-starved E coupled x ports out) (λ m e. starved-ok _ _ refl)

  set_axes-starved :
      (waveform : Waveform F V E) (fixed : FixedAxes F) (ports : Option (List (ConnectedPort V)))
      (i : ℕ) (axes : List (List (LabelledDomain F V))) (out : GoMap Target (Input F)) (axis : ℕ)
      → starved (set_axes waveform fixed ports i axes out axis) ≡ false
  unfolding set_axes
  set_axes-starved waveform fixed ports i [] out axis = starved-ok _ _ refl
  set_axes-starved waveform fixed ports i (coupled ∷ rest) out axis =
      starved-bind _ _ (set_axis-starved waveform ports i coupled out axis _)
        (λ next e. set_axes-starved waveform fixed ports (suc i) rest next.0 next.1)

  pub build_primitive_input-starved :
      (getters : List (InstrumentPort V)) (waveform : Waveform F V E) (fixed : FixedAxes F)
      (ports : Option (List (ConnectedPort V)))
      → starved (build_primitive_input getters waveform fixed ports) ≡ false
  unfolding build_primitive_input build_getters build_setters
  build_primitive_input-starved getters waveform fixed ports =
      starved-bind _ _ (get_targets-starved E getters ports [] []) (λ found e.
        starved-bind _ _ (set_axes-starved waveform fixed ports 0 waveform.axes [] 0)
          (λ setters e. starved-ok _ _ refl))
