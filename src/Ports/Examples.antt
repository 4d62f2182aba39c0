-- ===== src/Ports/Examples.antt =====
-- Ports on concrete values: a vocabulary whose enumerations are numbers.
use falcon_instrument_hub.Prelude.{
  ℕ, ◌≡◌, refl, ◌↔◌, none, some, List, [], ◌∷◌, comparable_nat, comparable_string, All,
}
use falcon_instrument_hub.Ports.{
  Connection, barrier_gate, plunger_gate, Vocabulary, InstrumentPort, ConnectedPort,
  default_connection, resolves, resolve_port,
}
use falcon_instrument_hub.Prelude.Int.{pos}
use falcon_instrument_hub.Prelude.First.{First}
use falcon_instrument_hub.Ports.Resolution.{resolve_port-First, StandsFor}

abbrev pub numbered : Vocabulary
numbered = record {
  Instrument = ℕ;
  Access = ℕ;
  Scope = ℕ;
  Characteristic = ℕ;
  PortType = ℕ;
  same_instrument = comparable_nat;
  same_access = comparable_nat;
  same_scope = comparable_nat;
  same_characteristic = comparable_nat;
  same_port_type = comparable_nat;
}

abbrev pub gate_port : Connection → InstrumentPort numbered
gate_port c = record {
  default_name = "Source1.analog.4.voltage";
  instrument_name = "Source1";
  instrument_type = 1;
  description = "";
  unit = 3;
  pseudo_name = c;
  access = 1;
  scope = 1;
  characteristic = 2;
  port_type = 0;
}

abbrev p1 : Connection
p1 = record { name = "P1"; type = plunger_gate }

abbrev pub wired : Connection → ConnectedPort numbered
wired c = record {
  instrument_name = "Source1";
  channel_group = "analog";
  channel = pos 4;
  instrument_type = 1;
  role = 0;
  access = 1;
  scope = 1;
  characteristic = 2;
  unit = 3;
  description = "";
  port_name = "Source1.analog.4.voltage";
  device_name = c.name;
  handle = c;
}

abbrev catalog : List (ConnectedPort numbered)
catalog = wired (record { name = "B1"; type = barrier_gate }) ∷ wired p1 ∷ []

by_name : resolve_port (gate_port p1) (some catalog) ≡ some (wired p1)
unfolding resolve_port resolves
by_name = refl

empty_name :
    resolve_port (gate_port default_connection) (some catalog)
    ≡ some (wired (record { name = "B1"; type = barrier_gate }))
unfolding resolve_port resolves
empty_name = refl

resolve_port-First_example :
    ((p : ConnectedPort numbered)
      → (resolve_port (gate_port p1) (some catalog) ≡ some p)
        ↔ First (StandsFor (gate_port p1)) catalog p)
    × ((resolve_port (gate_port p1) (some catalog) ≡ none)
        ↔ All (λ q. ¬ StandsFor (gate_port p1) q) catalog)
resolve_port-First_example = resolve_port-First (gate_port p1) catalog
