-- ===== src/Traits.antt =====
-- runtime/internal/config/connections.go and config.go: the ports of an instrument's characteristics
-- in BuildPortLibrary. `Kinds` are the characteristics of falcon-core-libs that the code names; units
-- are numbered as in falconcore's list of constants.
pub mod Keeping
use falcon_instrument_hub.Prelude.{
  ℕ, String, Bool, true, false, not, ◌||◌, Option, none, some, List, [], ◌∷◌, if◌then◌else◌, ◌==◌,
  comparable_nat, comparable_string, Result, ok, err, ◌>>=◌, guard,
}
use Prim.Native.String.{◌++◌ as ◌+++◌}
use falcon_instrument_hub.Prelude.Int.{ℤ, pos}
use falcon_instrument_hub.Prelude.Maps.{GoMap, lookup}
use falcon_instrument_hub.Prelude.First.{find}
use falcon_instrument_hub.Ports.{Vocabulary}
use falcon_instrument_hub.Catalog.{
  Constants, PortEntry, PortLibrary, IoType, ChannelGroup, CatalogError, channels, add_port,
  symbol_to_unit, command_not_found, scope_unknown, unknown_group, ramp_not_supported, no_parameter,
  parameter_not_found,
}

pub record Kinds (V : Vocabulary) : Type 0 where
  pub sample_rate : V.Characteristic
  pub source_voltage : V.Characteristic
  pub voltage_ramp_slope : V.Characteristic
  pub source_current : V.Characteristic
  pub source_frequency : V.Characteristic
  pub sink_frequency : V.Characteristic
  pub ac_amplitude : V.Characteristic
  pub number_of_samples : V.Characteristic
  pub temperature : V.Characteristic
  pub magnet_strength : V.Characteristic
  pub current_ramp_slope : V.Characteristic
  pub max_current_ramp_slope : V.Characteristic
  pub min_current_ramp_slope : V.Characteristic

-- APIParseCharacteristic, without the reducer.
pub record CommandReference : Type 0 where
  pub command : String
  pub parameter_name : String

pub record InstrumentCharacteristic (V : Vocabulary) : Type 0 where
  pub identifier : String
  pub characteristic : V.Characteristic
  pub read_command : CommandReference
  pub write_command : CommandReference

-- What the characteristics read of the API; a command is its channel group.
pub record Api : Type 0 where
  pub channel_groups : List ChannelGroup
  pub io : List IoType
  pub commands : GoMap String String

-- The scope, and the channel group where it is local.
pub data Location : Type 0 where
  everywhere : Location
  in_group : String → Location

-- parameterLocation
parameter_location : String → List ChannelGroup → Location
parameter_location name [] = everywhere
parameter_location name (g ∷ gs) =
    if g.channel_parameter.name == name then in_group g.name else parameter_location name gs

group_location : String → Location
group_location group = if group == "" then everywhere else in_group group

-- commandLocation
command_location : Api → String → Result CatalogError Location
unfolding group_location
command_location api name = elim (lookup name api.commands) [
  | none ↦ err (command_not_found name)
  | some group ↦ ok (group_location group)
]

-- findChannelGroup
find_channel_group : String → List ChannelGroup → Result CatalogError ChannelGroup
find_channel_group name [] = err (unknown_group name)
find_channel_group name (g ∷ gs) = if g.name == name then ok g else find_channel_group name gs

first_of : Option IoType → Option IoType → Option IoType
first_of none later = later
first_of (some io) later = some io

with_suffix : String → List ChannelGroup → Option IoType
unfolding first_of
with_suffix name [] = none
with_suffix name (g ∷ gs) =
    first_of (find (λ io. io.suffix == name) g.io_types) (with_suffix name gs)

-- findParameter
find_parameter : Api → String → Option IoType
unfolding first_of with_suffix
find_parameter api name =
    first_of (find (λ io. io.name == name) api.io) (with_suffix name api.channel_groups)

module _ {V : Vocabulary} where
  -- characteristicLocation
  unfoldable pub characteristic_location :
      Api → InstrumentCharacteristic V → Result CatalogError Location
  unfolding command_location parameter_location
  characteristic_location api c =
      if not (c.read_command.command == "")
      then command_location api c.read_command.command
      else (if not (c.write_command.command == "")
          then command_location api c.write_command.command
          else (if not (c.read_command.parameter_name == "")
              then ok (parameter_location c.read_command.parameter_name api.channel_groups)
              else (if not (c.write_command.parameter_name == "")
                  then ok (parameter_location c.write_command.parameter_name api.channel_groups)
                  else err scope_unknown)))

-- Whether a command or a parameter is given.
is_given : CommandReference → Bool
is_given r = not (r.command == "") || not (r.parameter_name == "")

module _ {V : Vocabulary} (C : Constants V) where
  -- characteristicAccess
  unfoldable pub characteristic_access : InstrumentCharacteristic V → V.Access
  unfolding is_given
  characteristic_access c =
      if is_given c.read_command
      then (if is_given c.write_command then C.read_write else C.read)
      else (if is_given c.write_command then C.write else C.read_write)

module _ {V : Vocabulary} (K : Kinds V) where
  -- characteristicTypes
  characteristic_types : GoMap V.Characteristic ℕ
  characteristic_types =
      (K.sample_rate, 7)
      ∷ (K.source_voltage, 13)
      ∷ (K.voltage_ramp_slope, 46)
      ∷ (K.source_current, 3)
      ∷ (K.source_frequency, 7)
      ∷ (K.sink_frequency, 7)
      ∷ (K.ac_amplitude, 13)
      ∷ (K.number_of_samples, 20)
      ∷ (K.temperature, 4)
      ∷ (K.magnet_strength, 18)
      ∷ []

  is_current_ramp : V.Characteristic → Bool
  is_current_ramp c =
      V.same_characteristic.equals c K.current_ramp_slope
      || (V.same_characteristic.equals c K.max_current_ramp_slope
          || V.same_characteristic.equals c K.min_current_ramp_slope)

module _ {V : Vocabulary} (C : Constants V) where
  parameter_unit : String → Option IoType → Result CatalogError ℕ
  parameter_unit name none = err (parameter_not_found name)
  parameter_unit name (some io) = symbol_to_unit C io.unit

  -- The unit of the API parameter behind a characteristic.
  backing_unit : Api → InstrumentCharacteristic V → Result CatalogError ℕ
  unfolding find_parameter parameter_unit
  backing_unit api c =
      let name =
        if c.read_command.parameter_name == ""
        then c.write_command.parameter_name
        else c.read_command.parameter_name in
      guard (not (name == "")) (no_parameter c.identifier) >>= λ u.
      parameter_unit name (find_parameter api name)

  -- getUnitMatchingCharacteristic
  unit_matching : Kinds V → Api → InstrumentCharacteristic V → Result CatalogError ℕ
  unfolding characteristic_types is_current_ramp backing_unit
  unit_matching K api c =
      elim (lookup ⦃e = V.same_characteristic⦄ c.characteristic (characteristic_types K)) [
        | some unit ↦ ok unit
        | none ↦ elim (is_current_ramp K c.characteristic) [
          | true ↦ err (ramp_not_supported c.identifier)
          | false ↦ backing_unit api c
        ]
      ]

  characteristic_entry :
      String → V.Instrument → Location → ℤ → V.Access → V.Characteristic → ℕ → PortEntry V
  characteristic_entry name type everywhere channel access c unit = record {
    instrument_name = name;
    channel_group = "";
    channel = pos 0;
    instrument_type = type;
    role = C.setting;
    access = access;
    scope = C.global_scope;
    characteristic = c;
    unit = unit;
    description = "";
  }
  characteristic_entry name type (in_group group) channel access c unit = record {
    instrument_name = name;
    channel_group = group;
    channel = channel;
    instrument_type = type;
    role = C.setting;
    access = access;
    scope = C.local_scope;
    characteristic = c;
    unit = unit;
    description = "";
  }

  -- The loop over the channels of a local characteristic.
  add_local :
      String
      → V.Instrument
      → String
      → InstrumentCharacteristic V
      → ℕ
      → List ℤ
      → PortLibrary V
      → Result CatalogError (PortLibrary V)
  unfolding characteristic_entry characteristic_access
  add_local name type group c unit [] library = ok library
  add_local name type group c unit (channel ∷ rest) library =
      add_port library
        (name
          +++ (".characteristic."
              +++ (group +++ ("." +++ (C.decimal channel +++ ("." +++ c.identifier))))))
        (characteristic_entry name type (in_group group) channel (characteristic_access C c)
          c.characteristic unit)
      >>= λ l. add_local name type group c unit rest l

  add_at :
      String
      → V.Instrument
      → Api
      → InstrumentCharacteristic V
      → ℕ
      → Location
      → PortLibrary V
      → Result CatalogError (PortLibrary V)
  unfolding characteristic_entry characteristic_access add_local find_channel_group
  add_at name type api c unit everywhere library =
      add_port library (name +++ (".characteristic." +++ c.identifier)) (
        characteristic_entry name type everywhere (pos 0) (characteristic_access C c)
          c.characteristic unit)
  add_at name type api c unit (in_group group) library =
      find_channel_group group api.channel_groups >>= λ g.
      add_local name type group c unit (channels g.channel_parameter) library

  -- The loop over the characteristics.
  unfoldable pub add_characteristics :
      Kinds V
      → String
      → V.Instrument
      → Api
      → List (InstrumentCharacteristic V)
      → PortLibrary V
      → Result CatalogError (PortLibrary V)
  unfolding characteristic_location unit_matching add_at
  add_characteristics K name type api [] library = ok library
  add_characteristics K name type api (c ∷ cs) library =
      characteristic_location api c >>= λ location.
      (unit_matching K api c >>= λ unit.
      (add_at name type api c unit location library >>= λ l.
      add_characteristics K name type api cs l))
