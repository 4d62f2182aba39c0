-- ===== src/Catalog.antt =====
-- runtime/internal/config/connections.go and api.go: the data of an instrument API and the entry that
-- one of its signals has in the library of ports. `Constants` are the constants of falcon-core-libs
-- that the code names, and fmt's decimal form of an int; a symbol table stands for falconcore's.
pub mod Adding
use falcon_instrument_hub.Prelude.{
  ℕ, zero, suc, ◌+◌, ◌-◌, ◌*◌, ◌/◌, ◌%◌, ◌^◌, ◌≤◌, ◌<◌, String, ◌≡◌, refl, sym, ap, subst, fun_ext,
  ◌∙◌, ◌≢◌, ◌↔◌, ◌⊎◌, inl, inr, Bool, true, false, not, ◌&&◌, ◌||◌, Option, none, some, List, [],
  ◌∷◌, ◌++◌, map, append_assoc, append-nil, map-append, arith, ltb, leb, if◌then◌else◌, ltb→lt,
  leb→le, Bool-cases, Option-cases, Comparable, ◌==◌, comparable_nat, comparable_string, ==_iff,
  ==_refl, length, get_elem?, set, replicate, length-append, length-map, All, All-map, All-both,
  All-append, sum, product, Result, ok, err, ◌>>=◌, ◌>>◌, wrap, guard, is_ok, Result-cases,
  and_then, nat_same, nat_same_iff, bind_ok, wrap_ok, and_then_ok, guard_ok, ok_injective,
}
use falcon_instrument_hub.Prelude.Int.{ℤ, pos, negsuc}
use falcon_instrument_hub.Prelude.Maps.{GoMap, insert, lookup, has}
use falcon_instrument_hub.Ports.{Vocabulary}

pub record Constants (V : Vocabulary) : Type 0 where
  pub knob : V.PortType
  pub meter : V.PortType
  pub setting : V.PortType
  pub read : V.Access
  pub write : V.Access
  pub read_write : V.Access
  pub local_scope : V.Scope
  pub global_scope : V.Scope
  pub zero_scope : V.Scope
  pub no_characteristic : V.Characteristic
  pub decimal : ℤ → String
  pub symbol_to_unit : GoMap String ℕ

pub record PortEntry (V : Vocabulary) : Type 0 where
  pub instrument_name : String
  pub channel_group : String
  pub channel : ℤ
  pub instrument_type : V.Instrument
  pub role : V.PortType
  pub access : V.Access
  pub scope : V.Scope
  pub characteristic : V.Characteristic
  pub unit : ℕ
  pub description : String

abbrev pub PortLibrary : Vocabulary → Type 0
PortLibrary V = GoMap String (PortEntry V)

pub record IoType : Type 0 where
  pub name : String
  pub type : String
  pub role : String
  pub description : String
  pub suffix : String
  pub min : String
  pub max : String
  pub unit : String

pub record ChannelParameter : Type 0 where
  pub name : String
  pub type : String
  pub min : ℤ
  pub max : ℤ
  pub description : String

pub record ChannelGroup : Type 0 where
  pub name : String
  pub description : String
  pub channel_parameter : ChannelParameter
  pub io_types : List IoType

pub data IoRole : Type 0 where
  input : IoRole
  output : IoRole
  inout : IoRole
  trigger_in : IoRole
  trigger_out : IoRole
  clock_in : IoRole
  clock_out : IoRole
  setting_role : IoRole

pub data CatalogError : Type 0 where
  no_suffix : CatalogError
  no_name : CatalogError
  unknown_role : String → CatalogError
  unsupported_symbol : String → CatalogError
  duplicate_port : String → CatalogError
  group_without_name : CatalogError
  min_above_max : String → CatalogError
  expansion_mismatch : String → CatalogError
  command_not_found : String → CatalogError
  scope_unknown : CatalogError
  unknown_group : String → CatalogError
  ramp_not_supported : String → CatalogError
  no_parameter : String → CatalogError
  parameter_not_found : String → CatalogError

-- ParseIORole
unfoldable pub parse_io_role : String → Result CatalogError IoRole
parse_io_role s =
    if s == "input"
    then ok input
    else (if s == "output"
        then ok output
        else (if s == "inout"
            then ok inout
            else (if s == "trigger-in"
                then ok trigger_in
                else (if s == "trigger-out"
                    then ok trigger_out
                    else (if s == "clock-in"
                        then ok clock_in
                        else (if s == "clock-out"
                            then ok clock_out
                            else (if s == "setting"
                                then ok setting_role
                                else err (unknown_role s))))))))

-- `config.IOconfig[io.Name]` is read for its TransformedUnit only, "" where the map has no entry.
abbrev pub IoConfigs : Type 0
IoConfigs = GoMap String String

unfoldable pub configured_unit : Option String → String
configured_unit none = ""
configured_unit (some u) = u

-- The channels from `lo` on.
unfoldable pub succ_int : ℤ → ℤ
succ_int (pos n) = pos (suc n)
succ_int (negsuc zero) = pos 0
succ_int (negsuc (suc n)) = negsuc n

unfoldable pub up_from : ℤ → ℕ → List ℤ
unfolding succ_int
up_from c zero = []
up_from c (suc n) = c ∷ up_from (succ_int c) n

-- How many integers there are from the first to the second.
unfoldable pub width : ℤ → ℤ → ℕ
width (pos a) (pos b) = suc b - a
width (negsuc a) (pos b) = a + b + 2
width (pos a) (negsuc b) = 0
width (negsuc a) (negsuc b) = suc a - b

-- `for channel := min; channel <= max; channel++`
unfoldable pub channels : ChannelParameter → List ℤ
unfolding up_from width
channels p = up_from p.min (width p.min p.max)

module _ {V : Vocabulary} where
  -- addPort
  unfoldable pub add_port :
      PortLibrary V → String → PortEntry V → Result CatalogError (PortLibrary V)
  add_port library name entry =
      if has name library then err (duplicate_port name) else ok (insert name entry library)

-- The field that addIOPort wants: a suffix within a channel group, a name outside.
io_label : String → IoType → String
io_label group io = if group == "" then io.name else io.suffix

module _ {V : Vocabulary} (C : Constants V) where
  -- portAttributesFromRole
  unfoldable pub port_attributes : IoRole → V.PortType × V.Access
  port_attributes output = (C.knob, C.write)
  port_attributes input = (C.meter, C.read)
  port_attributes inout = (C.knob, C.read_write)
  port_attributes trigger_in = (C.meter, C.read)
  port_attributes trigger_out = (C.knob, C.write)
  port_attributes clock_in = (C.meter, C.read)
  port_attributes clock_out = (C.knob, C.write)
  port_attributes setting_role = (C.setting, C.read_write)

  -- falconcore.SymbolToUnit
  unfoldable pub symbol_to_unit : String → Result CatalogError ℕ
  symbol_to_unit s = elim (lookup s C.symbol_to_unit) [
    | none ↦ err (unsupported_symbol s)
    | some u ↦ ok u
  ]

  unfoldable pub io_entry :
      String → V.Instrument → String → ℤ → IoType → V.PortType × V.Access → ℕ → PortEntry V
  io_entry instrument type group channel io (role, access) unit = record {
    instrument_name = instrument;
    channel_group = group;
    channel = channel;
    instrument_type = type;
    role = role;
    access = access;
    scope = C.zero_scope;
    characteristic = C.no_characteristic;
    unit = unit;
    description = io.description;
  }

  -- addIOPort
  unfoldable pub add_io_port :
      PortLibrary V
      → String
      → V.Instrument
      → String
      → String
      → ℤ
      → IoType
      → String
      → Result CatalogError (PortLibrary V)
  unfolding io_label add_port parse_io_role port_attributes symbol_to_unit io_entry
  add_io_port library instrument type name group channel io transformed =
      guard (not (io_label group io == "")) (if group == "" then no_name else no_suffix) >>= λ u.
      (parse_io_role io.role >>= λ role.
      (symbol_to_unit (if transformed == "" then io.unit else transformed) >>= λ unit.
      add_port library name
        (io_entry instrument type group channel io (port_attributes role) unit)))
