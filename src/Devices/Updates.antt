-- ===== src/Devices/Updates.antt =====
-- What an update changes, and the life of the global manager.
use falcon_instrument_hub.Prelude.{
  String, ◌≡◌, refl, ◌∙◌, inl, inr, true, false, some, if◌then◌else◌, Bool-cases, ◌==◌,
  comparable_nat, comparable_string, ==_iff,
}
use falcon_instrument_hub.Prelude.Floats.{Floats}
use falcon_instrument_hub.Prelude.Maps.{insert, lookup, lookup-insert}
use falcon_instrument_hub.Ports.{Quantity}
use falcon_instrument_hub.Devices.{
  DeviceStateManager, update_port, port_value, snapshot, connection_of, quantity_of,
}

module _ {F : Floats} where
  lookup-port_hit :
      (port other : String) (value : Quantity F) (m : DeviceStateManager F)
      → (port == other) ≡ true
      → lookup other (
          insert port
            (record { quantity = value; connection = connection_of (lookup port m.state) })
            m.state)
        ≡ some (record { quantity = value; connection = connection_of (lookup port m.state) })
  lookup-port_hit port other value m e =
      lookup-insert port other
        (record { quantity = value; connection = connection_of (lookup port m.state) }) m.state
      ∙ rw e refl

  lookup-port_miss :
      (port other : String) (value : Quantity F) (m : DeviceStateManager F)
      → (port == other) ≡ false
      → lookup other (
          insert port
            (record { quantity = value; connection = connection_of (lookup port m.state) })
            m.state)
        ≡ lookup other m.state
  lookup-port_miss port other value m e =
      lookup-insert port other
        (record { quantity = value; connection = connection_of (lookup port m.state) }) m.state
      ∙ rw e refl

  -- After UpdatePort, Port reads the new value at that port and at every other port what it read
  -- before; every connection is as it was, and a port that was unknown has the empty connection.
  pub port_value-update_port :
      (port other : String) (value : Quantity F) (m : DeviceStateManager F)
      → (port_value other (update_port port value m)
          ≡ (if port == other then (value, true) else port_value other m))
        × (connection_of (lookup other (snapshot (update_port port value m)))
            ≡ connection_of (lookup other (snapshot m)))
  unfolding port_value update_port quantity_of snapshot connection_of
  port_value-update_port port other value m = elim (Bool-cases (port == other)) [
    | inl e ↦
        let p = (==_iff port other).0 e in
        (
          rw (e, lookup-port_hit port other value m e, quantity_of) refl,
          rw (lookup-port_hit port other value m e, connection_of, p) refl,
        )
    | inr e ↦ (
      rw (e, lookup-port_miss port other value m e) refl,
      rw (lookup-port_miss port other value m e) refl,
    )
  ]
