-- ===== src/Expansion/Complete.antt =====
-- runtime/internal/config/connections.go, BuildPortLibrary: every signal of every channel is in the
-- library, and no port that was there is lost.
use falcon_instrument_hub.Prelude.{
  ℕ, String, ◌≡◌, ap, Bool, true, false, not, some, List, [], ◌∷◌, ◌==◌, comparable_nat,
  comparable_string, All, All-map, ok, guard, bind_ok, ok_injective,
}
use falcon_instrument_hub.Prelude.Int.{ℤ, pos}
use falcon_instrument_hub.Prelude.Maps.{Distinct, GoMap, lookup, has, insert}
use falcon_instrument_hub.Ports.{Vocabulary}
use falcon_instrument_hub.Catalog.{
  Constants, PortLibrary, IoType, IoRole, ChannelGroup, channels, add_io_port, io_entry,
  parse_io_role, port_attributes, group_without_name, min_above_max,
}
use falcon_instrument_hub.Catalog.Adding.{Keeps, Keeps-same, Keeps-Keeps, add_io_port_ok}
use falcon_instrument_hub.Traits.{Kinds}
use falcon_instrument_hub.Traits.Keeping.{add_characteristics-Keeps}
use falcon_instrument_hub.Expansion.{
  Instrument, above, channel_port_name, io_unit, add_ios, add_channels, add_groups, add_globals,
  add_global, global_port_name, all_seen, expanded_names, add_instrument, add_instruments,
  build_port_library,
}

module _ {V : Vocabulary} (C : Constants V) (instrument : Instrument V) where
  -- The library has the port of signal `io` on a channel, with the instrument, the group, the channel
  -- and the description of that signal, and the type and access of its role.
  abbrev pub IsListed : PortLibrary V → ChannelGroup → ℤ → IoType → Type 0
  IsListed l group channel io =
      (role : IoRole) × (unit : ℕ) × (parse_io_role io.role ≡ ok role)
      × (lookup (channel_port_name C instrument group channel io) l
          ≡ some (
              io_entry C instrument.name instrument.type group.name channel io
                (port_attributes C role) unit))

  Keeps-IsListed :
      (l m : PortLibrary V) (group : ChannelGroup) (channel : ℤ) (io : IoType)
      → Keeps l m
      → IsListed l group channel io
      → IsListed m group channel io
  Keeps-IsListed l m group channel io k (role, unit, p, e) =
      (role, unit, p, k.0 (channel_port_name C instrument group channel io) _ e)

  ios-IsListed :
      (group : ChannelGroup) (channel : ℤ) (ios : List IoType) (l m : PortLibrary V)
      → add_ios C instrument group channel ios l ≡ ok m
      → Keeps l m × All (IsListed m group channel) ios
  unfolding add_ios
  ios-IsListed group channel [] l m h = (Keeps-same l m (ok_injective l m h), tt)
  ios-IsListed group channel (io ∷ ios) l m h =
      let (n, hn, rest) =
        bind_ok
          (add_io_port C l instrument.name instrument.type
            (channel_port_name C instrument group channel io) group.name channel io
            (io_unit C instrument io))
          _ m h in
      let (k, role, unit, parsed, found) = add_io_port_ok C l n _ _ _ _ _ io _ hn in
      let (k', listed') = ios-IsListed group channel ios n m rest in
      (
        Keeps-Keeps l n m k k',
        (Keeps-IsListed n m group channel io k' (role, unit, parsed, found), listed'),
      )

  channels-IsListed :
      (group : ChannelGroup) (cs : List ℤ) (l m : PortLibrary V)
      → add_channels C instrument group cs l ≡ ok m
      → Keeps l m × All (λ c. All (IsListed m group c) group.io_types) cs
  unfolding add_channels
  channels-IsListed group [] l m h = (Keeps-same l m (ok_injective l m h), tt)
  channels-IsListed group (c ∷ cs) l m h =
      let (n, hn, rest) = bind_ok (add_ios C instrument group c group.io_types l) _ m h in
      let (k, listed) = ios-IsListed group c group.io_types l n hn in
      let (k', listed') = channels-IsListed group cs n m rest in
      (
        Keeps-Keeps l n m k k',
        (
          All-map (IsListed n group c) (IsListed m group c) group.io_types
              (λ io. Keeps-IsListed n m group c io k') listed,
          listed',
        ),
      )

  -- Every signal of every channel of a group.
  abbrev pub IsExpanded : PortLibrary V → ChannelGroup → Type 0
  IsExpanded l group =
      All (λ c. All (IsListed l group c) group.io_types) (channels group.channel_parameter)

  Keeps-IsExpanded :
      (l m : PortLibrary V) (group : ChannelGroup)
      → Keeps l m
      → IsExpanded l group
      → IsExpanded m group
  Keeps-IsExpanded l m group k h =
      All-map (λ c. All (IsListed l group c) group.io_types)
        (λ c. All (IsListed m group c) group.io_types) (channels group.channel_parameter)
        (λ c.
          All-map (IsListed l group c) (IsListed m group c) group.io_types
            (λ io. Keeps-IsListed l m group c io k))
        h

  groups-IsExpanded :
      (gs : List ChannelGroup) (l m : PortLibrary V)
      → add_groups C instrument gs l ≡ ok m
      → Keeps l m × All (IsExpanded m) gs
  unfolding add_groups
  groups-IsExpanded [] l m h = (Keeps-same l m (ok_injective l m h), tt)
  groups-IsExpanded (g ∷ gs) l m h =
      let (u, _, h1) = bind_ok (guard (not (g.name == "")) group_without_name) _ m h in
      let (v, _, h2) =
        bind_ok
          (guard (not (above g.channel_parameter.min g.channel_parameter.max))
            (min_above_max g.name))
          _ m h1 in
      let (n, hn, rest) =
        bind_ok (add_channels C instrument g (channels g.channel_parameter) l) _ m h2 in
      let (k, listed) = channels-IsListed g (channels g.channel_parameter) l n hn in
      let (k', listed') = groups-IsExpanded gs n m rest in
      (Keeps-Keeps l n m k k', (Keeps-IsExpanded n m g k' listed, listed'))

  global-Keeps :
      (io : IoType) (expanded exists : Bool) (seen : GoMap String (Unit {0})) (l : PortLibrary V)
      (next : GoMap String (Unit {0}) × PortLibrary V)
      → add_global C instrument io expanded exists seen l ≡ ok next
      → Keeps l next.1
  unfolding add_global
  global-Keeps io true exists seen l next h =
      Keeps-same l next.1 (ap (λ z. z.1) (ok_injective (insert io.name tt seen, l) next h))
  global-Keeps io false true seen l next h =
      Keeps-same l next.1 (ap (λ z. z.1) (ok_injective (seen, l) next h))
  global-Keeps io false false seen l next h =
      let (n, hn, rest) =
        bind_ok
          (add_io_port C l instrument.name instrument.type (global_port_name C instrument io) ""
            (pos 0) io (io_unit C instrument io))
          _ next h in
      let (k, _, _, _, _) = add_io_port_ok C l n _ _ _ _ _ io _ hn in
      Keeps-Keeps l n next.1 k
        (Keeps-same n next.1 (ap (λ z. z.1) (ok_injective (seen, n) next rest)))

  globals-Keeps :
      (expanded : GoMap String (Unit {0})) (ios : List IoType) (seen : GoMap String (Unit {0}))
      (l : PortLibrary V) (next : GoMap String (Unit {0}) × PortLibrary V)
      → add_globals C instrument expanded ios seen l ≡ ok next
      → Keeps l next.1
  unfolding add_globals
  globals-Keeps expanded [] seen l next h =
      Keeps-same l next.1 (ap (λ z. z.1) (ok_injective (seen, l) next h))
  globals-Keeps expanded (io ∷ ios) seen l next h =
      let (mid, hm, rest) =
        bind_ok
          (add_global C instrument io (has io.name expanded)
            (has (global_port_name C instrument io) l) seen l)
          _ next h in
      Keeps-Keeps l mid.1 next.1 (global-Keeps io _ _ seen l mid hm)
        (globals-Keeps expanded ios mid.0 mid.1 next rest)

module _ {V : Vocabulary} (C : Constants V) (K : Kinds V) where
  instrument-IsExpanded :
      (instrument : Instrument V) (l m : PortLibrary V)
      → add_instrument C K instrument l ≡ ok m
      → Keeps l m × All (IsExpanded C instrument m) instrument.channel_groups
  unfolding add_instrument
  instrument-IsExpanded instrument l m h =
      let (n, hn, h1) = bind_ok (add_groups C instrument instrument.channel_groups l) _ m h in
      let expanded = expanded_names C instrument.channel_groups [] in
      let (next, hnext, h2) =
        bind_ok (add_globals C instrument expanded instrument.io [] n) _ m h1 in
      let (u, _, h3) = bind_ok (all_seen expanded next.0) _ m h2 in
      let (k, listed) = groups-IsExpanded C instrument instrument.channel_groups l n hn in
      let later : Keeps n m =
        Keeps-Keeps n next.1 m (globals-Keeps C instrument expanded instrument.io [] n next hnext) (
          add_characteristics-Keeps C K instrument.name instrument.type _ instrument.characteristics
            next.1 m h3) in
      (
        Keeps-Keeps l n m k later,
        All-map (IsExpanded C instrument n) (IsExpanded C instrument m) instrument.channel_groups
            (λ g. Keeps-IsExpanded C instrument n m g later) listed,
      )

  instruments-IsExpanded :
      (is : List (Instrument V)) (l m : PortLibrary V)
      → add_instruments C K is l ≡ ok m
      → Keeps l m × All (λ i. All (IsExpanded C i m) i.channel_groups) is
  unfolding add_instruments
  instruments-IsExpanded [] l m h = (Keeps-same l m (ok_injective l m h), tt)
  instruments-IsExpanded (i ∷ is) l m h =
      let (n, hn, rest) = bind_ok (add_instrument C K i l) (add_instruments C K is) m h in
      let (k, listed) = instrument-IsExpanded i l n hn in
      let (k', listed') = instruments-IsExpanded is n m rest in
      (
        Keeps-Keeps l n m k k',
        (
          All-map (IsExpanded C i n) (IsExpanded C i m) i.channel_groups
              (λ g. Keeps-IsExpanded C i n m g k') listed,
          listed',
        ),
      )

  -- A library that BuildPortLibrary returns has a port for each signal of each channel of each
  -- channel group of each instrument, under the name made of the instrument, the group, the channel
  -- and the suffix, with the type and the access of the signal's role, whatever other signals and
  -- characteristics the instruments have.
  pub build_port_library-IsExpanded :
      (is : List (Instrument V)) (m : PortLibrary V)
      → build_port_library C K is ≡ ok m
      → All (λ i. All (IsExpanded C i m) i.channel_groups) is
  unfolding build_port_library
  build_port_library-IsExpanded is m h = (instruments-IsExpanded is [] m h).1

  -- No name occurs twice in a library that BuildPortLibrary returns.
  pub build_port_library-Distinct :
      (is : List (Instrument V)) (m : PortLibrary V) → build_port_library C K is ≡ ok m → Distinct m
  unfolding build_port_library
  build_port_library-Distinct is m h = (instruments-IsExpanded is [] m h).0.1 tt
