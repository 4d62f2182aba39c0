-- ===== src/Ports.antt =====
-- runtime/internal/settingrouter/portExists.go with the ports of runtime/internal/config and
-- runtime/internal/falconcore: which connected port a request's instrument port stands for.
pub mod Resolution
pub mod Examples
use falcon_instrument_hub.Prelude.{
  ℕ, zero, suc, ◌+◌, ◌-◌, ◌*◌, ◌/◌, ◌%◌, ◌^◌, ◌≤◌, ◌<◌, String, ◌≡◌, refl, sym, ap, subst, fun_ext,
  ◌∙◌, ◌≢◌, ◌↔◌, ◌⊎◌, inl, inr, Bool, true, false, not, ◌&&◌, ◌||◌, Option, none, some, List, [],
  ◌∷◌, ◌++◌, map, append_assoc, append-nil, map-append, arith, ltb, leb, if◌then◌else◌, ltb→lt,
  leb→le, Bool-cases, Option-cases, Comparable, ◌==◌, comparable_nat, comparable_string, ==_iff,
  ==_refl, length, get_elem?, set, replicate, length-append, length-map, All, sum, product, Result,
  ok, err, ◌>>=◌, ◌>>◌, wrap, guard, is_ok, Result-cases, and_then, nat_same, nat_same_iff, bind_ok,
  wrap_ok, and_then_ok, guard_ok, ok_injective,
}
use falcon_instrument_hub.Prelude.Int.{ℤ}
use falcon_instrument_hub.Prelude.Floats.{Floats}
use falcon_instrument_hub.Prelude.First.{find}

pub data ConnectionType : Type 0 where
  barrier_gate plunger_gate reservoir_gate screening_gate ohmic : ConnectionType

-- The position in the list of constants.
abbrev pub connection_index : ConnectionType → ℕ
connection_index barrier_gate = 0
connection_index plunger_gate = 1
connection_index reservoir_gate = 2
connection_index screening_gate = 3
connection_index ohmic = 4

pub record Connection : Type 0 where
  pub name : String
  pub type : ConnectionType

-- `Unit` by its position in the list of constants.
pub record Quantity (F : Floats) : Type 0 where
  pub value : F.Float64
  pub unit : ℕ

-- The enumerations of falcon-core-libs, which Go's `==` compares.
pub record Vocabulary : Type 1 where
  pub Instrument : Type 0
  pub Access : Type 0
  pub Scope : Type 0
  pub Characteristic : Type 0
  pub PortType : Type 0
  pub same_instrument : Comparable Instrument
  pub same_access : Comparable Access
  pub same_scope : Comparable Scope
  pub same_characteristic : Comparable Characteristic
  pub same_port_type : Comparable PortType

module _ (V : Vocabulary) where
  open V use {Instrument, Access, Scope, Characteristic, PortType}

  pub record InstrumentPort : Type 0 where
    pub default_name : String
    pub instrument_name : String
    pub instrument_type : Instrument
    pub description : String
    pub unit : ℕ
    pub pseudo_name : Connection
    pub access : Access
    pub scope : Scope
    pub characteristic : Characteristic
    pub port_type : PortType

  -- The embedded PortEntry's fields stand beside the others.
  pub record ConnectedPort : Type 0 where
    pub instrument_name : String
    pub channel_group : String
    pub channel : ℤ
    pub instrument_type : Instrument
    pub role : PortType
    pub access : Access
    pub scope : Scope
    pub characteristic : Characteristic
    pub unit : ℕ
    pub description : String
    pub port_name : String
    pub device_name : String
    pub handle : Connection

unfoldable pub same_connection : Connection → Connection → Bool
same_connection a b = (a.name == b.name) && (connection_index a.type == connection_index b.type)

connection_index_injective :
    (s t : ConnectionType) → connection_index s ≡ connection_index t → s ≡ t
connection_index_injective s t h = ground arith

connection_path : (a b : Connection) → a.name ≡ b.name → a.type ≡ b.type → a ≡ b
connection_path a b n t = cc (n, t)

pub same_connection_iff : (a b : Connection) → (same_connection a b ≡ true) ↔ (a ≡ b)
unfolding same_connection
same_connection_iff a b = (
  λ h.
      connection_path a b (ground (arith, ==_iff a.name b.name))
        (connection_index_injective a.type b.type (ground (arith))),
  λ h. rw h (ground (arith, ==_refl b.name)),
)

-- falconcore.Connection{}
abbrev pub default_connection : Connection
default_connection = record { name = ""; type = barrier_gate }

module _ {V : Vocabulary} where
  unfoldable pub matches_port : ConnectedPort V → InstrumentPort V → Bool
  matches_port cfg port =
      (cfg.instrument_name == port.instrument_name)
      && ((cfg.port_name == port.default_name)
          && (V.same_characteristic.equals cfg.characteristic port.characteristic
              && (V.same_instrument.equals cfg.instrument_type port.instrument_type
                  && (V.same_port_type.equals cfg.role port.port_type
                      && (V.same_access.equals cfg.access port.access
                          && (V.same_scope.equals cfg.scope port.scope
                              && (cfg.unit == port.unit)))))))

  -- The loop's two tests on one connected port.
  unfoldable pub resolves : InstrumentPort V → ConnectedPort V → Bool
  unfolding matches_port same_connection
  resolves port p =
      if matches_port p port
      then (if same_connection port.pseudo_name default_connection
          then true
          else same_connection p.handle port.pseudo_name)
      else false

  -- The first connection that passes. `ports` is a pointer: `none` is nil. Of a catalog only
  -- AllConnections is read.
  unfoldable pub resolve_port :
      InstrumentPort V → Option (List (ConnectedPort V)) → Option (ConnectedPort V)
  resolve_port port none = none
  resolve_port port (some connections) = find (resolves port) connections

  unfoldable pub port_exists : InstrumentPort V → Option (List (ConnectedPort V)) → Bool
  unfolding resolve_port
  port_exists port ports = elim (resolve_port port ports) [ none ↦ false | some p ↦ true ]

module _ {V : Vocabulary} where
  open V use {same_instrument, same_access, same_scope, same_characteristic, same_port_type}

  -- `==` on two ports.
  unfoldable pub same_port : InstrumentPort V → InstrumentPort V → Bool
  unfolding same_connection
  same_port a b =
      (a.default_name == b.default_name)
      && ((a.instrument_name == b.instrument_name)
          && (same_instrument.equals a.instrument_type b.instrument_type
              && ((a.description == b.description)
                  && ((a.unit == b.unit)
                      && (same_connection a.pseudo_name b.pseudo_name
                          && (same_access.equals a.access b.access
                              && (same_scope.equals a.scope b.scope
                                  && (same_characteristic.equals a.characteristic b.characteristic
                                      && same_port_type.equals a.port_type b.port_type))))))))

  port_path :
      (a b : InstrumentPort V)
      → (a.default_name ≡ b.default_name)
        × (a.instrument_name ≡ b.instrument_name)
        × (a.instrument_type ≡ b.instrument_type)
        × (a.description ≡ b.description)
        × (a.unit ≡ b.unit)
        × (a.pseudo_name ≡ b.pseudo_name)
        × (a.access ≡ b.access)
        × (a.scope ≡ b.scope)
        × (a.characteristic ≡ b.characteristic)
        × (a.port_type ≡ b.port_type)
      → a ≡ b
  port_path a b (d, n, t, s, u, p, x, c, h, r) = cc (d, n, t, s, u, p, x, c, h, r)

  port_fields :
      (a b : InstrumentPort V)
      → same_port a b ≡ true
      → (a.default_name ≡ b.default_name)
        × (a.instrument_name ≡ b.instrument_name)
        × (a.instrument_type ≡ b.instrument_type)
        × (a.description ≡ b.description)
        × (a.unit ≡ b.unit)
        × (a.pseudo_name ≡ b.pseudo_name)
        × (a.access ≡ b.access)
        × (a.scope ≡ b.scope)
        × (a.characteristic ≡ b.characteristic)
        × (a.port_type ≡ b.port_type)
  unfolding same_port
  port_fields a b h = ground (
    arith,
    ==_iff a.default_name b.default_name,
    ==_iff a.instrument_name b.instrument_name,
    same_instrument.equals_iff a.instrument_type b.instrument_type,
    ==_iff a.description b.description,
    ==_iff a.unit b.unit,
    same_connection_iff a.pseudo_name b.pseudo_name,
    same_access.equals_iff a.access b.access,
    same_scope.equals_iff a.scope b.scope,
    same_characteristic.equals_iff a.characteristic b.characteristic,
    same_port_type.equals_iff a.port_type b.port_type,
  )

  same_port_refl : (a : InstrumentPort V) → same_port a a ≡ true
  unfolding same_port
  same_port_refl a = simp (
    ==_refl,
    (same_instrument.equals_iff a.instrument_type a.instrument_type).1 refl,
    (same_connection_iff a.pseudo_name a.pseudo_name).1 refl,
    (same_access.equals_iff a.access a.access).1 refl,
    (same_scope.equals_iff a.scope a.scope).1 refl,
    (same_characteristic.equals_iff a.characteristic a.characteristic).1 refl,
    (same_port_type.equals_iff a.port_type a.port_type).1 refl,
  )

  pub same_port_iff : (a b : InstrumentPort V) → (same_port a b ≡ true) ↔ (a ≡ b)
  same_port_iff a b = (λ h. port_path a b (port_fields a b h), λ h. rw h (same_port_refl b))

  instance abbrev pub comparable_port : Comparable (InstrumentPort V)
  comparable_port = record { equals = same_port; equals_iff = same_port_iff }
