-- ===== src/Ports/Resolution.antt =====
-- ResolvePort against a description by the fields that have to agree.
use falcon_instrument_hub.Prelude.{
  ◌≡◌, ◌↔◌, ◌⊎◌, true, none, some, List, arith, comparable_nat, comparable_string, ==_iff, All,
}
use falcon_instrument_hub.Prelude.First.{First, find-First, find_missing}
use falcon_instrument_hub.Ports.{
  same_connection_iff, Vocabulary, InstrumentPort, ConnectedPort, default_connection, matches_port,
  resolves, resolve_port,
}

module _ {V : Vocabulary} where
  open V use {same_instrument, same_access, same_scope, same_characteristic, same_port_type}

  -- The port stands for the connected port: all the fields that the two share, but the
  -- description, agree, and the pseudo-name is empty or the connected port's handle.
  abbrev pub StandsFor : InstrumentPort V → ConnectedPort V → Type 0
  StandsFor port p =
      (p.instrument_name ≡ port.instrument_name)
      × (p.port_name ≡ port.default_name)
      × (p.characteristic ≡ port.characteristic)
      × (p.instrument_type ≡ port.instrument_type)
      × (p.role ≡ port.port_type)
      × (p.access ≡ port.access)
      × (p.scope ≡ port.scope)
      × (p.unit ≡ port.unit)
      × ((port.pseudo_name ≡ default_connection) ⊎ (p.handle ≡ port.pseudo_name))

  resolves-StandsFor :
      (port : InstrumentPort V) (p : ConnectedPort V) → (resolves port p ≡ true) ↔ StandsFor port p
  unfolding resolves matches_port
  resolves-StandsFor port p = ground (
    arith,
    ==_iff p.instrument_name port.instrument_name,
    ==_iff p.port_name port.default_name,
    same_characteristic.equals_iff p.characteristic port.characteristic,
    same_instrument.equals_iff p.instrument_type port.instrument_type,
    same_port_type.equals_iff p.role port.port_type,
    same_access.equals_iff p.access port.access,
    same_scope.equals_iff p.scope port.scope,
    ==_iff p.unit port.unit,
    same_connection_iff port.pseudo_name default_connection,
    same_connection_iff p.handle port.pseudo_name,
  )

  -- ResolvePort returns a connected port just when the instrument port stands for it and for
  -- none before it in the catalog; it returns nothing just when it stands for none.
  pub resolve_port-First :
      (port : InstrumentPort V) (connections : List (ConnectedPort V))
      → ((p : ConnectedPort V)
          → (resolve_port port (some connections) ≡ some p) ↔ First (StandsFor port) connections p)
        × ((resolve_port port (some connections) ≡ none)
            ↔ All (λ q. ¬ StandsFor port q) connections)
  unfolding resolve_port
  resolve_port-First port connections = (
    λ p. find-First (resolves port) (resolves-StandsFor port) connections p,
    find_missing (resolves port) (resolves-StandsFor port) connections,
  )
