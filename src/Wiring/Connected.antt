-- ===== src/Wiring/Connected.antt =====
-- runtime/internal/config/connections.go, ConnectWireMap: which ports it returns.
use falcon_instrument_hub.Prelude.{
  String, ◌≡◌, refl, sym, ap, ◌∙◌, Bool, true, false, ◌&&◌, ◌||◌, List, [], ◌∷◌, ◌++◌, append_assoc,
  append-nil, arith, if◌then◌else◌, ◌==◌, comparable_nat, comparable_string, ==_iff, ==_refl, All,
  All-map, All-both, ok, bind_ok, ok_injective,
}
use falcon_instrument_hub.Prelude.Int.{comparable_int}
use falcon_instrument_hub.Prelude.Maps.{GoMap, Distinct, lookup, has, has-insert}
use falcon_instrument_hub.Ports.{Vocabulary, Connection, ConnectedPort, default_connection}
use falcon_instrument_hub.Traits.{Kinds}
use falcon_instrument_hub.Expansion.{Instrument, build_port_library}
use falcon_instrument_hub.Expansion.Complete.{build_port_library-Distinct}
use falcon_instrument_hub.Catalog.{Constants, PortEntry, PortLibrary}
use falcon_instrument_hub.Wiring.{
  WiremapEntry, on_wire, connected_port, connect_port, add_rest, connect_entry, connect_entries,
  add_unwired, connect_wire_map, sort_port, sort_ports, partition, ConnectedPorts,
  new_connected_ports,
}

or_step : (a b c d : Bool) → a ≡ (b || c) → (a || d) ≡ (b || (c || d))
or_step a b c d h = ground (arith, h)

module _ {A : Type 0} where
  has_cons :
      (j k : String) (x : A) (m : GoMap String A)
      → has j ((k, x) ∷ m) ≡ (if k == j then true else has j m)
  unfolding has lookup
  has_cons j k x m = ground arith

  -- The other keys of a map differ from a key that it does not have.
  absent_All : (j : String) (m : GoMap String A) → has j m ≡ false → All (λ p. (j == p.0) ≡ false) m
  absent_All j [] h = tt
  absent_All j ((k, x) ∷ m) h = (
    ground (arith, has_cons j k x m, h, ==_iff k j, ==_iff j k),
    absent_All j m (ground (arith, has_cons j k x m, h)),
  )

module _ {V : Vocabulary} where
  -- The port is on the entry's channel, in the entry's channel group, of the entry's instrument.
  abbrev same_place : WiremapEntry → PortEntry V → Bool
  same_place w e =
      if w.channel == e.channel
      then (if w.channel_group == e.channel_group
          then w.instrument_name == e.instrument_name
          else false)
      else false

  on_wire-same_place : (w : WiremapEntry) (e : PortEntry V) → on_wire w e ≡ same_place w e
  unfolding on_wire
  on_wire-same_place w e = ground (
    arith,
    ==_iff w.channel e.channel,
    ==_iff e.channel w.channel,
    ==_iff w.channel_group e.channel_group,
    ==_iff e.channel_group w.channel_group,
    ==_iff w.instrument_name e.instrument_name,
    ==_iff e.instrument_name w.instrument_name,
  )

  -- The port `name` of the library with a device and its connection.
  abbrev port_with : String → PortEntry V → String → Connection → ConnectedPort V
  port_with name e device handle = record {
    instrument_name = e.instrument_name;
    channel_group = e.channel_group;
    channel = e.channel;
    instrument_type = e.instrument_type;
    role = e.role;
    access = e.access;
    scope = e.scope;
    characteristic = e.characteristic;
    unit = e.unit;
    description = e.description;
    port_name = name;
    device_name = device;
    handle = handle;
  }

  -- The ports of the library at the place of an entry of the wiremap, with its device.
  abbrev pub wired : PortLibrary V → WiremapEntry → List (ConnectedPort V)
  wired [] w = []
  wired ((name, e) ∷ lib) w =
      let rest = wired lib w in
      if same_place w e then port_with name e w.physical_device_name w.gate ∷ rest else rest

  abbrev pub all_wired : PortLibrary V → List WiremapEntry → List (ConnectedPort V)
  all_wired lib [] = []
  all_wired lib (w ∷ ws) = wired lib w ++ all_wired lib ws

  abbrev named_by : List WiremapEntry → PortEntry V → Bool
  named_by [] e = false
  named_by (w ∷ ws) e = same_place w e || named_by ws e

  -- The ports that are at no entry's place, without a device.
  abbrev pub unwired : List WiremapEntry → PortLibrary V → List (ConnectedPort V)
  unwired ws [] = []
  unwired ws ((name, e) ∷ lib) =
      let rest = unwired ws lib in
      if named_by ws e then rest else port_with name e "" default_connection ∷ rest

  -- Whether an entry of the wiremap names the port `j` of the library.
  abbrev claimed : WiremapEntry → String → PortLibrary V → Bool
  claimed w j [] = false
  claimed w j ((name, e) ∷ lib) = ((name == j) && same_place w e) || claimed w j lib

  abbrev all_claimed : List WiremapEntry → String → PortLibrary V → Bool
  all_claimed [] j lib = false
  all_claimed (w ∷ ws) j lib = claimed w j lib || all_claimed ws j lib

  connect_port_ports :
      (b : Bool) (w : WiremapEntry) (name : String) (e : PortEntry V)
      (s : List (ConnectedPort V) × GoMap String (Unit {0})) (rest : List (ConnectedPort V))
      → (connect_port b w name e s).0 ++ rest
        ≡ s.0 ++ (if b then connected_port name e w.physical_device_name w.gate ∷ rest else rest)
  unfolding connect_port
  connect_port_ports false w name e s rest = refl
  connect_port_ports true w name e s rest =
      append_assoc s.0 (connected_port name e w.physical_device_name w.gate ∷ []) rest

  connect_port_added :
      (b : Bool) (w : WiremapEntry) (name : String) (e : PortEntry V)
      (s : List (ConnectedPort V) × GoMap String (Unit {0})) (j : String)
      → has j (connect_port b w name e s).1 ≡ (has j s.1 || ((name == j) && b))
  unfolding connect_port
  connect_port_added false w name e s j = ground arith
  connect_port_added true w name e s j = ground (arith, has-insert name j tt s.1)

  connect_entry_ports :
      (w : WiremapEntry) (lib : PortLibrary V)
      (s : List (ConnectedPort V) × GoMap String (Unit {0}))
      → (connect_entry w lib s).0 ≡ s.0 ++ wired lib w
  unfolding connect_entry
  connect_entry_ports w [] s = sym (append-nil s.0)
  connect_entry_ports w ((name, e) ∷ lib) s =
      connect_entry_ports w lib (connect_port (on_wire w e) w name e s)
      ∙ (connect_port_ports (on_wire w e) w name e s (wired lib w)
          ∙ ap
              (λ b.
                s.0
                ++ (if b
                    then port_with name e w.physical_device_name w.gate ∷ wired lib w
                    else wired lib w))
              (on_wire-same_place w e))

  connect_entry_added :
      (w : WiremapEntry) (lib : PortLibrary V)
      (s : List (ConnectedPort V) × GoMap String (Unit {0})) (j : String)
      → has j (connect_entry w lib s).1 ≡ (has j s.1 || claimed w j lib)
  unfolding connect_entry
  connect_entry_added w [] s j = ground arith
  connect_entry_added w ((name, e) ∷ lib) s j =
      connect_entry_added w lib (connect_port (on_wire w e) w name e s) j
      ∙ or_step (has j (connect_port (on_wire w e) w name e s).1) (has j s.1)
          ((name == j) && same_place w e) (claimed w j lib)
          (connect_port_added (on_wire w e) w name e s j
            ∙ ap (λ b. has j s.1 || ((name == j) && b)) (on_wire-same_place w e))

  connect_entries_ports :
      (ws : List WiremapEntry) (lib : PortLibrary V)
      (s : List (ConnectedPort V) × GoMap String (Unit {0}))
      → (connect_entries ws lib s).0 ≡ s.0 ++ all_wired lib ws
  unfolding connect_entries
  connect_entries_ports [] lib s = sym (append-nil s.0)
  connect_entries_ports (w ∷ ws) lib s =
      connect_entries_ports ws lib (connect_entry w lib s)
      ∙ (ap (λ z. z ++ all_wired lib ws) (connect_entry_ports w lib s)
          ∙ append_assoc s.0 (wired lib w) (all_wired lib ws))

  connect_entries_added :
      (ws : List WiremapEntry) (lib : PortLibrary V)
      (s : List (ConnectedPort V) × GoMap String (Unit {0})) (j : String)
      → has j (connect_entries ws lib s).1 ≡ (has j s.1 || all_claimed ws j lib)
  unfolding connect_entries
  connect_entries_added [] lib s j = ground arith
  connect_entries_added (w ∷ ws) lib s j =
      connect_entries_added ws lib (connect_entry w lib s) j
      ∙ or_step (has j (connect_entry w lib s).1) (has j s.1) (claimed w j lib)
          (all_claimed ws j lib) (connect_entry_added w lib s j)

  -- No port of another name is meant.
  claimed_absent :
      (w : WiremapEntry) (j : String) (lib : PortLibrary V)
      → has j lib ≡ false
      → claimed w j lib ≡ false
  claimed_absent w j [] h = refl
  claimed_absent w j ((name, e) ∷ lib) h =
      ground (arith, has_cons j name e lib, h, claimed_absent w j lib)

  all_claimed_absent :
      (ws : List WiremapEntry) (j : String) (lib : PortLibrary V)
      → has j lib ≡ false
      → all_claimed ws j lib ≡ false
  all_claimed_absent [] j lib h = refl
  all_claimed_absent (w ∷ ws) j lib h =
      ground (arith, claimed_absent w j lib h, all_claimed_absent ws j lib h)

  all_claimed_head :
      (ws : List WiremapEntry) (name : String) (e : PortEntry V) (lib : PortLibrary V)
      → has name lib ≡ false
      → all_claimed ws name ((name, e) ∷ lib) ≡ named_by ws e
  all_claimed_head [] name e lib h = refl
  all_claimed_head (w ∷ ws) name e lib h =
      ground (arith, claimed_absent w name lib h, all_claimed_head ws name e lib h, ==_refl name)

  all_claimed_tail :
      (ws : List WiremapEntry) (j name : String) (e : PortEntry V) (lib : PortLibrary V)
      → (name == j) ≡ false
      → all_claimed ws j ((name, e) ∷ lib) ≡ all_claimed ws j lib
  all_claimed_tail [] j name e lib h = refl
  all_claimed_tail (w ∷ ws) j name e lib h = ground (arith, h, all_claimed_tail ws j name e lib h)

  all_claimed-All :
      (ws : List WiremapEntry) (lib : PortLibrary V)
      → Distinct lib
      → All (λ p. all_claimed ws p.0 lib ≡ named_by ws p.1) lib
  all_claimed-All ws [] d = tt
  all_claimed-All ws ((name, e) ∷ lib) (absent, d) = (
    all_claimed_head ws name e lib absent,
    All-both (λ p. (name == p.0) ≡ false) (λ p. all_claimed ws p.0 lib ≡ named_by ws p.1)
        (λ p. all_claimed ws p.0 ((name, e) ∷ lib) ≡ named_by ws p.1) lib
        (λ p n c. all_claimed_tail ws p.0 name e lib n ∙ c) (absent_All name lib absent)
        (all_claimed-All ws lib d),
  )

  add_rest_lem :
      (b : Bool) (name : String) (e : PortEntry V) (out rest : List (ConnectedPort V))
      → add_rest b name e out ++ rest
        ≡ out ++ (if b then rest else connected_port name e "" default_connection ∷ rest)
  unfolding add_rest
  add_rest_lem true name e out rest = refl
  add_rest_lem false name e out rest =
      append_assoc out (connected_port name e "" default_connection ∷ []) rest

  add_unwired_lem :
      (ws : List WiremapEntry) (lib : PortLibrary V) (added : GoMap String (Unit {0}))
      (out : List (ConnectedPort V))
      → All (λ p. has p.0 added ≡ named_by ws p.1) lib
      → add_unwired lib added out ≡ out ++ unwired ws lib
  unfolding add_unwired
  add_unwired_lem ws [] added out h = sym (append-nil out)
  add_unwired_lem ws ((name, e) ∷ lib) added out (same, h) =
      add_unwired_lem ws lib added (add_rest (has name added) name e out) h
      ∙ (add_rest_lem (has name added) name e out (unwired ws lib)
          ∙ ap
              (λ b.
                out
                ++ (if b
                    then unwired ws lib
                    else connected_port name e "" default_connection ∷ unwired ws lib))
              same)

  connect_wire_map_lem :
      (ws : List WiremapEntry) (lib : PortLibrary V)
      → Distinct lib
      → connect_wire_map ws lib ≡ all_wired lib ws ++ unwired ws lib
  unfolding connect_wire_map has lookup
  connect_wire_map_lem ws lib d =
      add_unwired_lem ws lib (connect_entries ws lib ([], [])).1 (connect_entries ws lib ([], [])).0
        (All-map (λ p. all_claimed ws p.0 lib ≡ named_by ws p.1)
          (λ p. has p.0 (connect_entries ws lib ([], [])).1 ≡ named_by ws p.1) lib
          (λ p c. connect_entries_added ws lib ([], []) p.0 ∙ c) (all_claimed-All ws lib d))
      ∙ ap (λ z. z ++ unwired ws lib) (connect_entries_ports ws lib ([], []))

module _ {V : Vocabulary} (C : Constants V) where
  sort_port_all :
      (cp : ConnectedPort V) (out : ConnectedPorts V)
      → (sort_port C cp out).all_connections ≡ out.all_connections
  unfolding sort_port
  sort_port_all cp out = ground arith

  sort_ports_all :
      (ports : List (ConnectedPort V)) (out : ConnectedPorts V)
      → (sort_ports C ports out).all_connections ≡ out.all_connections
  unfolding sort_ports
  sort_ports_all [] out = refl
  sort_ports_all (cp ∷ ports) out = sort_ports_all ports (sort_port C cp out) ∙ sort_port_all cp out

module _ {V : Vocabulary} (C : Constants V) (K : Kinds V) where
  -- NewConnectedPorts returns the ports of the library that it builds: for each entry of the wiremap
  -- in turn, those at its instrument, channel group and channel, each with the entry's device; and
  -- then each port that no entry names, once and without a device.
  pub new_connected_ports_lem :
      (is : List (Instrument V)) (ws : List WiremapEntry) (ports : ConnectedPorts V)
      → new_connected_ports C K is ws ≡ ok ports
      → (lib : PortLibrary V) × (build_port_library C K is ≡ ok lib)
        × (ports.all_connections ≡ all_wired lib ws ++ unwired ws lib)
  unfolding new_connected_ports partition
  new_connected_ports_lem is ws ports h =
      let (lib, built, e) = bind_ok (build_port_library C K is) _ ports h in
      (
        lib,
        built,
        sym (ap (λ z. z.all_connections) (ok_injective _ ports e))
            ∙ (sort_ports_all C (connect_wire_map ws lib) _
                ∙ connect_wire_map_lem ws lib (build_port_library-Distinct C K is lib built)),
      )
