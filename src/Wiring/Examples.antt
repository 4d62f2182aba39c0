-- ===== src/Wiring/Examples.antt =====
-- Two channels of a source of which one is wired to P1.
use falcon_instrument_hub.Prelude.{
  String, ◌≡◌, refl, ap, List, [], ◌∷◌, ◌++◌, comparable_nat, comparable_string, ok,
}
use falcon_instrument_hub.Prelude.Int.{pos, comparable_int}
use falcon_instrument_hub.Prelude.Maps.{has, lookup, insert}
use falcon_instrument_hub.Ports.{Connection, ConnectedPort, plunger_gate, default_connection}
use falcon_instrument_hub.Ports.Examples.{numbered}
use falcon_instrument_hub.Expansion.Examples.{
  five_ports, constants, kinds, source, expands, level_of, volts_out, trigger,
}
use falcon_instrument_hub.Expansion.{build_port_library}
use falcon_instrument_hub.Wiring.{
  PortLibrary, WiremapEntry, on_wire, connected_port, connect_wire_map, new_connected_ports,
  partition, resolve_connected_port, answers, PortQuery,
}
use falcon_instrument_hub.Wiring.Connected.{all_wired, unwired, new_connected_ports_lem}

abbrev p1 : Connection
p1 = record { name = "P1"; type = plunger_gate }

abbrev to_p1 : WiremapEntry
to_p1 = record {
  physical_device_name = "P1";
  instrument_name = "S";
  channel_group = "analog";
  channel = pos 2;
  gate = p1;
}

abbrev catalog : List (ConnectedPort numbered)
catalog =
    connected_port "S.analog.2.voltage" (volts_out (pos 2)) "P1" p1
    ∷ connected_port "S.characteristic.analog.2.level" (level_of (pos 2)) "P1" p1
    ∷ connected_port "S.analog.1.voltage" (volts_out (pos 1)) "" default_connection
    ∷ connected_port "S.trigger" trigger "" default_connection
    ∷ connected_port "S.characteristic.analog.1.level" (level_of (pos 1)) "" default_connection
    ∷ []

connects : connect_wire_map (to_p1 ∷ []) five_ports ≡ catalog
unfolding connect_wire_map on_wire has lookup insert
connects = refl

sorted :
    (partition constants catalog).meters
    ≡ connected_port "S.trigger" trigger "" default_connection ∷ []
unfolding partition
sorted = refl

abbrev output_of : String → PortQuery numbered
output_of device = record {
  default_name = device;
  instrument_name = "S";
  instrument_type = 1;
  role = 0;
  access = 1;
  characteristic = 0;
}

finds_p1 :
    resolve_connected_port (partition constants catalog) (output_of "P1")
    ≡ ok (connected_port "S.analog.2.voltage" (volts_out (pos 2)) "P1" p1)
unfolding resolve_connected_port partition answers
finds_p1 = refl

wired_up :
    new_connected_ports constants kinds (source ∷ []) (to_p1 ∷ [])
    ≡ ok (partition constants catalog)
unfolding new_connected_ports
wired_up = rw expands (ap (λ z. ok (partition constants z)) connects)

new_connected_ports_lem_example :
    (lib : PortLibrary numbered) × (build_port_library constants kinds (source ∷ []) ≡ ok lib)
    × ((partition constants catalog).all_connections
        ≡ all_wired lib (to_p1 ∷ []) ++ unwired (to_p1 ∷ []) lib)
new_connected_ports_lem_example =
    new_connected_ports_lem constants kinds (source ∷ []) (to_p1 ∷ []) (partition constants catalog)
      wired_up
