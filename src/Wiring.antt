-- ===== src/Wiring.antt =====
-- runtime/internal/config/connections.go: ConnectWireMap, which joins the wiremap to the library of
-- ports, the partition of the result, and ResolveConnectedPort.
pub mod Connected
pub mod Examples
use falcon_instrument_hub.Prelude.{
  ℕ, zero, suc, ◌+◌, ◌-◌, ◌*◌, ◌/◌, ◌%◌, ◌^◌, ◌≤◌, ◌<◌, String, ◌≡◌, refl, sym, ap, subst, fun_ext,
  ◌∙◌, ◌≢◌, ◌↔◌, ◌⊎◌, inl, inr, Bool, true, false, not, ◌&&◌, ◌||◌, Option, none, some, List, [],
  ◌∷◌, ◌++◌, map, append_assoc, append-nil, map-append, arith, ltb, leb, if◌then◌else◌, ltb→lt,
  leb→le, Bool-cases, Option-cases, Comparable, ◌==◌, comparable_nat, comparable_string, ==_iff,
  ==_refl, length, get_elem?, set, replicate, length-append, length-map, All, All-map, All-both,
  All-append, sum, product, Result, ok, err, ◌>>=◌, ◌>>◌, wrap, guard, is_ok, Result-cases,
  and_then, nat_same, nat_same_iff, bind_ok, wrap_ok, and_then_ok, guard_ok, ok_injective,
}
use falcon_instrument_hub.Prelude.Int.{ℤ, comparable_int}
use falcon_instrument_hub.Prelude.Maps.{GoMap, insert, lookup, has}
use falcon_instrument_hub.Ports.{Vocabulary, Connection, ConnectedPort, default_connection}
use falcon_instrument_hub.Traits.{Kinds}
use falcon_instrument_hub.Expansion.{Instrument, build_port_library}
use falcon_instrument_hub.Catalog.{CatalogError, Constants, PortEntry, PortLibrary}

pub record WiremapEntry : Type 0 where
  pub physical_device_name : String
  pub instrument_name : String
  pub channel_group : String
  pub channel : ℤ
  pub gate : Connection

module _ {V : Vocabulary} where
  unfoldable pub on_wire : WiremapEntry → PortEntry V → Bool
  on_wire w e =
      (e.instrument_name == w.instrument_name)
      && ((e.channel_group == w.channel_group) && (e.channel == w.channel))

  -- A PortEntry merged with the contents of the wiremap.
  abbrev pub connected_port : String → PortEntry V → String → Connection → ConnectedPort V
  connected_port name e device handle = record {
    instrument_name = e.instrument_name;
    channel_group = e.channel_group;
    channel = e.channel;
    instrument_type = e.instrument_type;
    role = e.role;
    access = e.access;
    scope = e.scope;
    characteristic = e.characteristic;
    unit = e.unit;
    description = e.description;
    port_name = name;
    device_name = device;
    handle = handle;
  }

  -- One port of the library, with `connected` and `added`, and whether the entry names it.
  connect_port :
      Bool
      → WiremapEntry
      → String
      → PortEntry V
      → List (ConnectedPort V) × GoMap String (Unit {0})
      → List (ConnectedPort V) × GoMap String (Unit {0})
  connect_port false w name e s = s
  connect_port true w name e s =
      (s.0 ++ connected_port name e w.physical_device_name w.gate ∷ [], insert name tt s.1)

  -- The loop over the library for one entry of the wiremap.
  connect_entry :
      WiremapEntry
      → PortLibrary V
      → List (ConnectedPort V) × GoMap String (Unit {0})
      → List (ConnectedPort V) × GoMap String (Unit {0})
  unfolding on_wire connect_port
  connect_entry w [] s = s
  connect_entry w ((name, e) ∷ lib) s = connect_entry w lib (connect_port (on_wire w e) w name e s)

  connect_entries :
      List WiremapEntry
      → PortLibrary V
      → List (ConnectedPort V) × GoMap String (Unit {0})
      → List (ConnectedPort V) × GoMap String (Unit {0})
  unfolding connect_entry
  connect_entries [] lib s = s
  connect_entries (w ∷ ws) lib s = connect_entries ws lib (connect_entry w lib s)

  -- A port that is in `added` is skipped.
  add_rest : Bool → String → PortEntry V → List (ConnectedPort V) → List (ConnectedPort V)
  add_rest true name e connected = connected
  add_rest false name e connected = connected ++ connected_port name e "" default_connection ∷ []

  -- The loop that adds the ports that no entry of the wiremap names.
  add_unwired :
      PortLibrary V → GoMap String (Unit {0}) → List (ConnectedPort V) → List (ConnectedPort V)
  unfolding add_rest
  add_unwired [] added connected = connected
  add_unwired ((name, e) ∷ lib) added connected =
      add_unwired lib added (add_rest (has name added) name e connected)

  unfoldable pub connect_wire_map : List WiremapEntry → PortLibrary V → List (ConnectedPort V)
  unfolding connect_entries add_unwired
  connect_wire_map wiremap lib =
      let next = connect_entries wiremap lib ([], []) in add_unwired lib next.1 next.0

-- ConnectedPorts
pub record ConnectedPorts (V : Vocabulary) : Type 0 where
  pub all_connections : List (ConnectedPort V)
  pub knobs : List (ConnectedPort V)
  pub meters : List (ConnectedPort V)
  pub settings : List (ConnectedPort V)

module _ {V : Vocabulary} (C : Constants V) where
  -- The switch of newConnectedPortsFromConnections on one port.
  sort_port : ConnectedPort V → ConnectedPorts V → ConnectedPorts V
  sort_port cp out =
      if V.same_port_type.equals cp.role C.knob
      then record out { knobs = out.knobs ++ cp ∷ [] }
      else (if V.same_port_type.equals cp.role C.meter
          then record out { meters = out.meters ++ cp ∷ [] }
          else (if V.same_port_type.equals cp.role C.setting
              then record out { settings = out.settings ++ cp ∷ [] }
              else out))

  sort_ports : List (ConnectedPort V) → ConnectedPorts V → ConnectedPorts V
  unfolding sort_port
  sort_ports [] out = out
  sort_ports (cp ∷ ports) out = sort_ports ports (sort_port cp out)

  -- newConnectedPortsFromConnections
  unfoldable pub partition : List (ConnectedPort V) → ConnectedPorts V
  unfolding sort_ports
  partition ports =
      sort_ports ports (record { all_connections = ports; knobs = []; meters = []; settings = [] })

module _ {V : Vocabulary} (C : Constants V) (K : Kinds V) where
  -- NewConnectedPorts
  unfoldable pub new_connected_ports :
      List (Instrument V) → List WiremapEntry → Result CatalogError (ConnectedPorts V)
  unfolding connect_wire_map partition
  new_connected_ports instruments wiremap =
      build_port_library C K instruments >>= λ lib. ok (partition C (connect_wire_map wiremap lib))

-- What ResolveConnectedPort reads of a port's handle, and what it returns where it finds no port or
-- several.
pub record PortQuery (V : Vocabulary) : Type 0 where
  pub default_name : String
  pub instrument_name : String
  pub instrument_type : V.Instrument
  pub role : V.PortType
  pub access : V.Access
  pub characteristic : V.Characteristic

pub data ResolveError : Type 0 where
  no_connected_port : ResolveError
  ambiguous_port : ResolveError

module _ {V : Vocabulary} where
  unfoldable pub answers : PortQuery V → ConnectedPort V → Bool
  answers q cp =
      (cp.device_name == q.default_name)
      && ((cp.instrument_name == q.instrument_name)
          && (V.same_instrument.equals cp.instrument_type q.instrument_type
              && (V.same_port_type.equals cp.role q.role
                  && (V.same_access.equals q.access cp.access
                      && V.same_characteristic.equals q.characteristic cp.characteristic))))

  matches_of : PortQuery V → List (ConnectedPort V) → List (ConnectedPort V)
  unfolding answers
  matches_of q [] = []
  matches_of q (cp ∷ ports) =
      let rest = matches_of q ports in if answers q cp then cp ∷ rest else rest

  single : List (ConnectedPort V) → Result ResolveError (ConnectedPort V)
  single [] = err no_connected_port
  single (cp ∷ []) = ok cp
  single (cp ∷ cq ∷ more) = err ambiguous_port

  -- ResolveConnectedPort
  unfoldable pub resolve_connected_port :
      ConnectedPorts V → PortQuery V → Result ResolveError (ConnectedPort V)
  unfolding matches_of single
  resolve_connected_port ports q = single (matches_of q ports.all_connections)
