-- ===== src/Traits/Keeping.antt =====
-- runtime/internal/config/connections.go, BuildPortLibrary: the ports of characteristics replace no
-- port of the library.
use falcon_instrument_hub.Prelude.{
  ℕ, String, ◌≡◌, List, [], ◌∷◌, comparable_nat, comparable_string, ok, bind_ok, ok_injective,
}
use falcon_instrument_hub.Prelude.Int.{ℤ}
use falcon_instrument_hub.Ports.{Vocabulary}
use falcon_instrument_hub.Catalog.{Constants, PortLibrary, add_port, channels}
use falcon_instrument_hub.Catalog.Adding.{Keeps, Keeps-same, Keeps-Keeps, add_port-Keeps}
use falcon_instrument_hub.Traits.{
  Kinds, InstrumentCharacteristic, Api, Location, everywhere, in_group, find_channel_group,
  characteristic_location, unit_matching, add_local, add_at, add_characteristics,
}

module _ {V : Vocabulary} (C : Constants V) where
  add_local-Keeps :
      (name : String) (type : V.Instrument) (group : String) (c : InstrumentCharacteristic V)
      (unit : ℕ) (cs : List ℤ) (l m : PortLibrary V)
      → add_local C name type group c unit cs l ≡ ok m
      → Keeps l m
  unfolding add_local
  add_local-Keeps name type group c unit [] l m h = Keeps-same l m (ok_injective l m h)
  add_local-Keeps name type group c unit (channel ∷ rest) l m h =
      let (n, hn, h') = bind_ok (add_port l _ _) (add_local C name type group c unit rest) m h in
      Keeps-Keeps l n m (add_port-Keeps l n _ _ hn)
        (add_local-Keeps name type group c unit rest n m h')

  add_at-Keeps :
      (name : String) (type : V.Instrument) (api : Api) (c : InstrumentCharacteristic V) (unit : ℕ)
      (location : Location) (l m : PortLibrary V)
      → add_at C name type api c unit location l ≡ ok m
      → Keeps l m
  unfolding add_at
  add_at-Keeps name type api c unit everywhere l m h = add_port-Keeps l m _ _ h
  add_at-Keeps name type api c unit (in_group group) l m h =
      let (g, _, h') = bind_ok (find_channel_group group api.channel_groups) _ m h in
      add_local-Keeps name type group c unit (channels g.channel_parameter) l m h'

  pub add_characteristics-Keeps :
      (K : Kinds V) (name : String) (type : V.Instrument) (api : Api)
      (cs : List (InstrumentCharacteristic V)) (l m : PortLibrary V)
      → add_characteristics C K name type api cs l ≡ ok m
      → Keeps l m
  unfolding add_characteristics
  add_characteristics-Keeps K name type api [] l m h = Keeps-same l m (ok_injective l m h)
  add_characteristics-Keeps K name type api (c ∷ cs) l m h =
      let (location, _, h1) = bind_ok (characteristic_location api c) _ m h in
      let (unit, _, h2) = bind_ok (unit_matching C K api c) _ m h1 in
      let (n, hn, h3) = bind_ok (add_at C name type api c unit location l) _ m h2 in
      Keeps-Keeps l n m (add_at-Keeps name type api c unit location l n hn)
        (add_characteristics-Keeps K name type api cs n m h3)
