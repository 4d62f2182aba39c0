-- ===== src/Primitives/Expected.antt =====
-- runtime/internal/cartesianmeasure/planner.go: the setters that a waveform asks for, whatever the
-- order in which they are built.
use falcon_instrument_hub.Prelude.{
  ℕ, zero, suc, ◌%◌, String, ◌≡◌, Bool, true, false, Option, none, some, List, [], ◌∷◌,
  if◌then◌else◌, comparable_nat, comparable_string, length, get_elem?, ok,
}
use falcon_instrument_hub.Prelude.Floats.{Floats}
use falcon_instrument_hub.Prelude.Maps.{GoMap, lookup, has}
use falcon_instrument_hub.Ports.{Vocabulary, InstrumentPort, ConnectedPort, resolve_port}
use falcon_instrument_hub.Samples.{Target, comparable_target}
use falcon_instrument_hub.Primitives.{Input, FixedAxes, Waveform, LabelledDomain, ControlArray}

module _ {A : Type 0} where
  -- How many of the first `i` axes are not held.
  unfoldable pub swept_before : GoMap ℕ A → ℕ → ℕ
  swept_before fixed zero = 0
  swept_before fixed (suc i) =
      let before = swept_before fixed i in if has (i % 256) fixed then before else suc before

module _ {F : Floats} {V : Vocabulary} {E : Type 0} (waveform : Waveform F V E)
    (fixed : FixedAxes F) (ports : Option (List (ConnectedPort V))) where
  -- The target of a port is the instrument, the group and the channel of the connected port that it
  -- resolves to.
  unfoldable pub IsTarget : InstrumentPort V → Target → Type 0
  IsTarget port t =
      (cp : ConnectedPort V) × (resolve_port port ports ≡ some cp)
      × (t.instrument ≡ cp.instrument_name)
      × (t.group ≡ cp.channel_group)
      × (t.channel ≡ cp.channel)

  -- A port of axis `i` of the waveform.
  unfoldable pub IsOnAxis : ℕ → LabelledDomain F V → Type 0
  IsOnAxis i l =
      (coupled : List (LabelledDomain F V)) × (k : ℕ) × (get_elem? waveform.axes i ≡ some coupled)
      × (get_elem? coupled k ≡ some l)

  -- The setter of a port: on an axis that is held it starts at the value held, without an end; on
  -- another axis it goes from one bound of the port's domain to the other, upwards or downwards as
  -- the waveform says, in as many points as the space gives for this axis alone, and its axis is the
  -- number of earlier axes that are not held.
  pub data IsSetter : Target × Input F → Type 0 where
    holds :
        (t : Target) (i : ℕ) (l : LabelledDomain F V) (value : F.Float64)
        → IsOnAxis i l
        → IsTarget l.port t
        → lookup (i % 256) fixed ≡ some value
        → IsSetter (t, record { axis = 0; start = value; stop = none; num = none })
    rises :
        (t : Target) (i : ℕ) (l : LabelledDomain F V) (a : ControlArray F)
        (more : List (ControlArray F)) (m : GoMap String Bool)
        → IsOnAxis i l
        → IsTarget l.port t
        → lookup (i % 256) fixed ≡ none
        → waveform.space.create_array (i ∷ []) ≡ ok (a ∷ more)
        → get_elem? waveform.increasing i ≡ some m
        → lookup l.port.pseudo_name.name m ≡ some true
        → IsSetter (
          t,
          record {
            axis = swept_before fixed i % 256;
            start = l.domain.lesser_bound;
            stop = some l.domain.greater_bound;
            num = some (length a.values);
          },
        )
    falls :
        (t : Target) (i : ℕ) (l : LabelledDomain F V) (a : ControlArray F)
        (more : List (ControlArray F)) (m : GoMap String Bool)
        → IsOnAxis i l
        → IsTarget l.port t
        → lookup (i % 256) fixed ≡ none
        → waveform.space.create_array (i ∷ []) ≡ ok (a ∷ more)
        → get_elem? waveform.increasing i ≡ some m
        → lookup l.port.pseudo_name.name m ≡ some false
        → IsSetter (
          t,
          record {
            axis = swept_before fixed i % 256;
            start = l.domain.greater_bound;
            stop = some l.domain.lesser_bound;
            num = some (length a.values);
          },
        )

  -- The port has its target among the setters.
  unfoldable pub HasSetter : GoMap Target (Input F) → LabelledDomain F V → Type 0
  HasSetter m l = (t : Target) × IsTarget l.port t × (has t m ≡ true)
