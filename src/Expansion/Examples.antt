-- ===== src/Expansion/Examples.antt =====
-- A voltage source with two channels and a trigger.
use falcon_instrument_hub.Prelude.{
  String, ◌≡◌, refl, some, [], ◌∷◌, arith, if◌then◌else◌, ◌==◌, comparable_nat, comparable_string,
  ok, err,
}
use falcon_instrument_hub.Prelude.Int.{ℤ, pos, comparable_int}
use falcon_instrument_hub.Prelude.Maps.{lookup, insert, has}
use falcon_instrument_hub.Ports.Examples.{numbered}
use falcon_instrument_hub.Traits.{
  Kinds, InstrumentCharacteristic, add_characteristics, characteristic_location,
  characteristic_access,
}
use falcon_instrument_hub.Catalog.{
  symbol_to_unit, Constants, configured_unit, PortEntry, PortLibrary, IoType, ChannelGroup,
  channels, duplicate_port, add_io_port, add_port, parse_io_role, port_attributes, io_entry,
  up_from, width, succ_int,
}
use falcon_instrument_hub.Expansion.{
  Instrument, expanded_names, add_groups, add_instrument, build_port_library, channel_port_name,
  above,
}
use falcon_instrument_hub.Expansion.Signals.{IsPortOf, build_port_library-IsPortOf}

abbrev one_or_two : ℤ → String
one_or_two c = if c == pos 1 then "1" else "2"

abbrev pub constants : Constants numbered
constants = record {
  knob = 0;
  meter = 1;
  setting = 2;
  read = 0;
  write = 1;
  read_write = 2;
  local_scope = 0;
  global_scope = 1;
  zero_scope = 0;
  no_characteristic = 0;
  decimal = one_or_two;
  symbol_to_unit = ("V", 13) ∷ ("", 20) ∷ [];
}

abbrev signal : String → String → String → String → IoType
signal name suffix role unit = record {
  name = name;
  type = "float";
  role = role;
  description = "";
  suffix = suffix;
  min = "";
  max = "";
  unit = unit;
}

abbrev analog : ChannelGroup
analog = record {
  name = "analog";
  description = "";
  channel_parameter = record {
    name = "channel";
    type = "int";
    min = pos 1;
    max = pos 2;
    description = "";
  };
  io_types = signal "" "voltage" "output" "V" ∷ [];
}

abbrev pub kinds : Kinds numbered
kinds = record {
  sample_rate = 1;
  source_voltage = 2;
  voltage_ramp_slope = 3;
  source_current = 4;
  source_frequency = 5;
  sink_frequency = 6;
  ac_amplitude = 7;
  number_of_samples = 8;
  temperature = 9;
  magnet_strength = 10;
  current_ramp_slope = 11;
  max_current_ramp_slope = 12;
  min_current_ramp_slope = 13;
}

-- A characteristic that is written by the parameter of the channel group.
abbrev level : InstrumentCharacteristic numbered
level = record {
  identifier = "level";
  characteristic = 2;
  read_command = record { command = ""; parameter_name = "" };
  write_command = record { command = ""; parameter_name = "channel" };
}

abbrev pub source : Instrument numbered
source = record {
  name = "S";
  type = 1;
  io_config = [];
  channel_groups = analog ∷ [];
  io =
      signal "analog1_voltage" "" "output" "V"
      ∷ signal "analog2_voltage" "" "output" "V"
      ∷ signal "trigger" "" "trigger-in" ""
      ∷ [];
  commands = [];
  characteristics = level ∷ [];
}

abbrev pub volts_out : ℤ → PortEntry numbered
volts_out channel = record {
  instrument_name = "S";
  channel_group = "analog";
  channel = channel;
  instrument_type = 1;
  role = 0;
  access = 1;
  scope = 0;
  characteristic = 0;
  unit = 13;
  description = "";
}

abbrev pub trigger : PortEntry numbered
trigger = record {
  instrument_name = "S";
  channel_group = "";
  channel = pos 0;
  instrument_type = 1;
  role = 1;
  access = 0;
  scope = 0;
  characteristic = 0;
  unit = 20;
  description = "";
}

abbrev pub level_of : ℤ → PortEntry numbered
level_of channel = record {
  instrument_name = "S";
  channel_group = "analog";
  channel = channel;
  instrument_type = 1;
  role = 2;
  access = 1;
  scope = 0;
  characteristic = 2;
  unit = 13;
  description = "";
}

abbrev pub five_ports : PortLibrary numbered
five_ports =
    ("S.analog.1.voltage", volts_out (pos 1))
    ∷ ("S.analog.2.voltage", volts_out (pos 2))
    ∷ ("S.trigger", trigger)
    ∷ ("S.characteristic.analog.1.level", level_of (pos 1))
    ∷ ("S.characteristic.analog.2.level", level_of (pos 2))
    ∷ []

pub expands : build_port_library constants kinds (source ∷ []) ≡ ok five_ports
unfolding build_port_library add_characteristics characteristic_location characteristic_access
    symbol_to_unit add_instrument expanded_names add_groups channel_port_name above channels up_from
    width succ_int add_io_port add_port configured_unit parse_io_role port_attributes io_entry has
    lookup insert
expands = refl

-- A second instrument of the same name.
repeated :
    build_port_library constants kinds (source ∷ source ∷ [])
    ≡ err (duplicate_port "S.analog.1.voltage")
unfolding build_port_library add_characteristics characteristic_location characteristic_access
    symbol_to_unit add_instrument expanded_names add_groups channel_port_name above channels up_from
    width succ_int add_io_port add_port configured_unit parse_io_role port_attributes io_entry has
    lookup insert
repeated = refl

build_port_library-IsPortOf_example :
    (port : PortEntry numbered) × (lookup "S.analog.2.voltage" five_ports ≡ some port)
    × IsPortOf constants source analog (pos 2) (signal "" "voltage" "output" "V") port
build_port_library-IsPortOf_example =
    build_port_library-IsPortOf constants kinds (source ∷ []) five_ports expands 0 0 0 source analog
      (signal "" "voltage" "output" "V") (pos 2) refl refl refl (omega arith) (omega arith)
