-- ===== src/Expansion.antt =====
-- runtime/internal/config/connections.go, BuildPortLibrary: the ports of one instrument's signals,
-- those of its channel groups and then its global ones.
pub mod Complete
pub mod Signals
pub mod Examples
use falcon_instrument_hub.Prelude.{
  ℕ, zero, suc, ◌+◌, ◌-◌, ◌*◌, ◌/◌, ◌%◌, ◌^◌, ◌≤◌, ◌<◌, String, ◌≡◌, refl, sym, ap, subst, fun_ext,
  ◌∙◌, ◌≢◌, ◌↔◌, ◌⊎◌, inl, inr, Bool, true, false, not, ◌&&◌, ◌||◌, Option, none, some, List, [],
  ◌∷◌, ◌++◌, map, append_assoc, append-nil, map-append, arith, ltb, leb, if◌then◌else◌, ltb→lt,
  leb→le, Bool-cases, Option-cases, Comparable, ◌==◌, comparable_nat, comparable_string, ==_iff,
  ==_refl, length, get_elem?, set, replicate, length-append, length-map, All, All-map, All-both,
  All-append, sum, product, Result, ok, err, ◌>>=◌, ◌>>◌, wrap, guard, is_ok, Result-cases,
  and_then, nat_same, nat_same_iff, bind_ok, wrap_ok, and_then_ok, guard_ok, ok_injective,
}
use Prim.Native.String.{◌++◌ as ◌+++◌}
use falcon_instrument_hub.Prelude.Int.{ℤ, pos, negsuc}
use falcon_instrument_hub.Prelude.Maps.{GoMap, insert, lookup, has}
use falcon_instrument_hub.Ports.{Vocabulary}
use falcon_instrument_hub.Traits.{Kinds, InstrumentCharacteristic, add_characteristics}
use falcon_instrument_hub.Catalog.{
  Constants, PortLibrary, IoType, ChannelParameter, ChannelGroup, CatalogError, IoConfigs,
  configured_unit, channels, add_io_port, group_without_name, min_above_max, expansion_mismatch,
}

-- What BuildPortLibrary reads of one instrument: its configuration file and its API.
pub record Instrument (V : Vocabulary) : Type 0 where
  pub name : String
  pub type : V.Instrument
  pub io_config : IoConfigs
  pub channel_groups : List ChannelGroup
  pub io : List IoType
  pub commands : GoMap String String
  pub characteristics : List (InstrumentCharacteristic V)

-- `min > max`
unfoldable pub above : ℤ → ℤ → Bool
above (pos a) (pos b) = ltb b a
above (negsuc a) (pos b) = false
above (pos a) (negsuc b) = true
above (negsuc a) (negsuc b) = ltb a b

module _ {V : Vocabulary} (C : Constants V) where
  -- "%s%d_%s"
  expanded_name : ChannelGroup → ℤ → IoType → String
  expanded_name group channel io = group.name +++ (C.decimal channel +++ ("_" +++ io.suffix))

  expanded_ios : ChannelGroup → ℤ → List IoType → GoMap String (Unit {0}) → GoMap String (Unit {0})
  unfolding expanded_name
  expanded_ios group channel [] names = names
  expanded_ios group channel (io ∷ ios) names =
      expanded_ios group channel ios (insert (expanded_name group channel io) tt names)

  expanded_channels : ChannelGroup → List ℤ → GoMap String (Unit {0}) → GoMap String (Unit {0})
  unfolding expanded_ios
  expanded_channels group [] names = names
  expanded_channels group (c ∷ cs) names =
      expanded_channels group cs (expanded_ios group c group.io_types names)

  -- buildExpandedIONames, over the names so far.
  unfoldable pub expanded_names :
      List ChannelGroup → GoMap String (Unit {0}) → GoMap String (Unit {0})
  unfolding expanded_channels
  expanded_names [] names = names
  expanded_names (g ∷ gs) names =
      expanded_names gs (expanded_channels g (channels g.channel_parameter) names)

  -- "%s.%s.%d.%s"
  unfoldable pub channel_port_name : Instrument V → ChannelGroup → ℤ → IoType → String
  channel_port_name instrument group channel io =
      instrument.name
      +++ ("." +++ (group.name +++ ("." +++ (C.decimal channel +++ ("." +++ io.suffix)))))

  io_unit : Instrument V → IoType → String
  io_unit instrument io = configured_unit (lookup io.name instrument.io_config)

  add_ios :
      Instrument V
      → ChannelGroup
      → ℤ
      → List IoType
      → PortLibrary V
      → Result CatalogError (PortLibrary V)
  unfolding channel_port_name io_unit
  add_ios instrument group channel [] library = ok library
  add_ios instrument group channel (io ∷ ios) library =
      add_io_port C library instrument.name instrument.type
        (channel_port_name instrument group channel io) group.name channel io
        (io_unit instrument io)
      >>= λ l. add_ios instrument group channel ios l

  add_channels :
      Instrument V → ChannelGroup → List ℤ → PortLibrary V → Result CatalogError (PortLibrary V)
  unfolding add_ios
  add_channels instrument group [] library = ok library
  add_channels instrument group (c ∷ cs) library =
      add_ios instrument group c group.io_types library >>= λ l. add_channels instrument group cs l

  -- The loop over the channel groups.
  unfoldable pub add_groups :
      Instrument V → List ChannelGroup → PortLibrary V → Result CatalogError (PortLibrary V)
  unfolding add_channels above
  add_groups instrument [] library = ok library
  add_groups instrument (g ∷ gs) library = guard (not (g.name == "")) group_without_name >>= λ u.
      (guard (not (above g.channel_parameter.min g.channel_parameter.max)) (min_above_max g.name)
        >>= λ v.
            (add_channels instrument g (channels g.channel_parameter) library >>= λ l.
            add_groups instrument gs l))

  -- "%s.%s"
  global_port_name : Instrument V → IoType → String
  global_port_name instrument io = instrument.name +++ ("." +++ io.name)

  -- One signal of the API's own list: whether its name is one of the expanded ones, and whether the
  -- library has it.
  add_global :
      Instrument V
      → IoType
      → Bool
      → Bool
      → GoMap String (Unit {0})
      → PortLibrary V
      → Result CatalogError (GoMap String (Unit {0}) × PortLibrary V)
  unfolding io_unit global_port_name
  add_global instrument io true exists seen library = ok (insert io.name tt seen, library)
  add_global instrument io false true seen library = ok (seen, library)
  add_global instrument io false false seen library =
      add_io_port C library instrument.name instrument.type (global_port_name instrument io) ""
        (pos 0) io (io_unit instrument io)
      >>= λ l. ok (seen, l)

  -- The loop over that list; the map is seenExpandedNames.
  add_globals :
      Instrument V
      → GoMap String (Unit {0})
      → List IoType
      → GoMap String (Unit {0})
      → PortLibrary V
      → Result CatalogError (GoMap String (Unit {0}) × PortLibrary V)
  unfolding add_global global_port_name
  add_globals instrument expanded [] seen library = ok (seen, library)
  add_globals instrument expanded (io ∷ ios) seen library =
      add_global instrument io (has io.name expanded) (has (global_port_name instrument io) library)
        seen library
      >>= λ next. add_globals instrument expanded ios next.0 next.1

-- The loop over the names that were expected.
all_seen : GoMap String (Unit {0}) → GoMap String (Unit {0}) → Result CatalogError (Unit {0})
all_seen [] seen = ok tt
all_seen ((name, u) ∷ rest) seen =
    let later = all_seen rest seen in if has name seen then later else err (expansion_mismatch name)

module _ {V : Vocabulary} (C : Constants V) (K : Kinds V) where
  -- BuildPortLibrary's round for one instrument.
  unfoldable pub add_instrument : Instrument V → PortLibrary V → Result CatalogError (PortLibrary V)
  unfolding expanded_names add_groups add_globals all_seen
  add_instrument instrument library =
      let expanded = expanded_names C instrument.channel_groups [] in
      (add_groups C instrument instrument.channel_groups library >>= λ l.
      (add_globals C instrument expanded instrument.io [] l >>= λ next.
      (all_seen expanded next.0 >>= λ u.
      add_characteristics C K instrument.name instrument.type
        (record {
          channel_groups = instrument.channel_groups;
          io = instrument.io;
          commands = instrument.commands;
        })
        instrument.characteristics next.1)))

  add_instruments : List (Instrument V) → PortLibrary V → Result CatalogError (PortLibrary V)
  unfolding add_instrument
  add_instruments [] library = ok library
  add_instruments (i ∷ is) library = add_instrument i library >>= λ l. add_instruments is l

  -- BuildPortLibrary, on what it reads of the instruments.
  unfoldable pub build_port_library : List (Instrument V) → Result CatalogError (PortLibrary V)
  unfolding add_instruments
  build_port_library instruments = add_instruments instruments []
