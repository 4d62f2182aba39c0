-- ===== src/Devices/Examples.antt =====
-- The device state on concrete ports.
use falcon_instrument_hub.Prelude.{
  ℕ, String, ◌≡◌, refl, true, false, Option, none, some, [], ◌∷◌, if◌then◌else◌, ◌==◌,
  comparable_nat, comparable_string, err,
}
use falcon_instrument_hub.Prelude.Int.{pos}
use falcon_instrument_hub.Prelude.Maps.{insert, lookup}
use falcon_instrument_hub.Ports.{Quantity, plunger_gate}
use falcon_instrument_hub.Buffer.Examples.{integers}
use falcon_instrument_hub.Devices.{
  DeviceStateManager, update_port, port_value, snapshot, startup, close_global, connection_of,
  already_initialized,
}
use falcon_instrument_hub.Devices.Updates.{port_value-update_port}

abbrev pub volts : ℕ → Quantity integers
volts n = record { value = pos n; unit = 3 }

abbrev pub one_gate : DeviceStateManager integers
one_gate = record {
  state =
      (
        "P1",
        record { quantity = volts 1; connection = record { name = "P1"; type = plunger_gate } },
      )
      ∷ [];
  closed = false;
}

read_back : port_value "P1" (update_port "P1" (volts 2) one_gate) ≡ (volts 2, true)
unfolding port_value update_port lookup insert
read_back = refl

abbrev absent : Option (DeviceStateManager integers)
absent = none

started_twice :
    startup [] (startup [] absent).1
    ≡ (err already_initialized, some (record { state = []; closed = false }))
unfolding startup
started_twice = refl

closed_down : close_global (some one_gate) ≡ (none, some (record { state = []; closed = true }))
unfolding close_global
closed_down = refl

port_value-update_port_example :
    (port_value "P2" (update_port "P1" (volts 2) one_gate)
      ≡ (if ◌==◌ {A = String} "P1" "P2" then (volts 2, true) else port_value "P2" one_gate))
    × (connection_of (lookup "P2" (snapshot (update_port "P1" (volts 2) one_gate)))
        ≡ connection_of (lookup "P2" (snapshot one_gate)))
port_value-update_port_example = port_value-update_port "P1" "P2" (volts 2) one_gate
