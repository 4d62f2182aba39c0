-- ===== src/Devices.antt =====
-- runtime/internal/devicestate: the voltages of the device's gates, and the one manager of them
-- that the process has. Its methods hold the manager's lock throughout, so each is one step.
pub mod Updates
pub mod Examples
use falcon_instrument_hub.Prelude.{
  ℕ, zero, suc, ◌+◌, ◌-◌, ◌*◌, ◌/◌, ◌%◌, ◌^◌, ◌≤◌, ◌<◌, String, ◌≡◌, refl, sym, ap, subst, fun_ext,
  ◌∙◌, ◌≢◌, ◌↔◌, ◌⊎◌, inl, inr, Bool, true, false, not, ◌&&◌, ◌||◌, Option, none, some, List, [],
  ◌∷◌, ◌++◌, map, append_assoc, append-nil, map-append, arith, ltb, leb, if◌then◌else◌, ltb→lt,
  leb→le, Bool-cases, Option-cases, Comparable, ◌==◌, comparable_nat, comparable_string, ==_iff,
  ==_refl, length, get_elem?, set, replicate, length-append, length-map, All, sum, product, Result,
  ok, err, ◌>>=◌, ◌>>◌, wrap, guard, is_ok, Result-cases, and_then,
}
use falcon_instrument_hub.Prelude.Int.{pos}
use falcon_instrument_hub.Prelude.Floats.{Floats}
use falcon_instrument_hub.Prelude.Maps.{GoMap, insert, lookup}
use falcon_instrument_hub.Ports.{Connection, default_connection, Quantity}

module _ (F : Floats) where
  -- The embedded Quantity and the connection.
  pub record DeviceVoltageState : Type 0 where
    pub quantity : Quantity F
    pub connection : Connection

  pub record DeviceStateManager : Type 0 where
    pub state : GoMap String DeviceVoltageState
    pub closed : Bool

pub data StartupError : Type 0 where
  already_initialized : StartupError

module _ {F : Floats} where
  -- What a read of a missing key gives, the zero value of each field: `Meter` is the unit 0.
  abbrev pub zero_quantity : Quantity F
  zero_quantity = record { value = F.of_int (pos 0); unit = 0 }

  -- `old.Connection` of `old := m.state[port]`
  unfoldable pub connection_of : Option (DeviceVoltageState F) → Connection
  connection_of none = default_connection
  connection_of (some old) = old.connection

  -- The error that UpdatePort returns is always nil.
  unfoldable pub update_port : String → Quantity F → DeviceStateManager F → DeviceStateManager F
  unfolding connection_of
  update_port port value m = record m {
    state =
        insert port (record { quantity = value; connection = connection_of (lookup port m.state) })
          m.state;
  }

  quantity_of : Option (DeviceVoltageState F) → Quantity F × Bool
  quantity_of none = (zero_quantity, false)
  quantity_of (some s) = (s.quantity, true)

  unfoldable pub port_value : String → DeviceStateManager F → Quantity F × Bool
  unfolding quantity_of
  port_value port m = quantity_of (lookup port m.state)

  -- A copy of the map.
  pub snapshot : DeviceStateManager F → GoMap String (DeviceVoltageState F)
  snapshot m = m.state

  pub clear : DeviceStateManager F → DeviceStateManager F
  clear m = record m { state = [] }

  unfoldable pub close : DeviceStateManager F → DeviceStateManager F
  close m = if m.closed then m else record { state = []; closed = true }

  -- The global manager is `none` before Startup and after Close.
  unfoldable pub startup :
      GoMap String (DeviceVoltageState F)
      → Option (DeviceStateManager F)
      → Result StartupError (Unit {0}) × Option (DeviceStateManager F)
  startup initial (some m) = (err already_initialized, some m)
  startup initial none = (ok tt, some (record { state = initial; closed = false }))

  -- The second part is the manager that others still point to, closed.
  unfoldable pub close_global :
      Option (DeviceStateManager F) → Option (DeviceStateManager F) × Option (DeviceStateManager F)
  unfolding close
  close_global none = (none, none)
  close_global (some m) = (none, some (close m))
