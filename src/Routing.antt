-- ===== src/Routing.antt =====
-- runtime/internal/settingrouter/router.go: the router of setting requests. The dispatcher, the
-- instruments and the guard are a world `W` that the handlers' calls change; `E` is a handler's
-- error and `Metadata` the map of instrument metadata. A map of setters is its entries in the
-- order in which `range` meets them.
pub mod Handlers
pub mod Calls
pub mod Requests
pub mod Responses
pub mod Locking
pub mod Examples
use falcon_instrument_hub.Prelude.{
  ℕ, zero, suc, ◌+◌, ◌-◌, ◌*◌, ◌/◌, ◌%◌, ◌^◌, ◌≤◌, ◌<◌, String, ◌≡◌, refl, sym, ap, subst, fun_ext,
  ◌∙◌, ◌≢◌, ◌↔◌, ◌⊎◌, inl, inr, Bool, true, false, not, ◌&&◌, ◌||◌, Option, none, some, List, [],
  ◌∷◌, ◌++◌, map, append_assoc, append-nil, map-append, arith, ltb, leb, if◌then◌else◌, ltb→lt,
  leb→le, Bool-cases, Option-cases, Comparable, ◌==◌, comparable_nat, comparable_string, ==_iff,
  ==_refl, length, get_elem?, set, replicate, length-append, length-map, All, sum, product, Result,
  ok, err, ◌>>=◌, ◌>>◌, wrap, guard, is_ok, Result-cases, and_then,
}
use falcon_instrument_hub.Prelude.Floats.{Floats}
use falcon_instrument_hub.Prelude.First.{find}
use falcon_instrument_hub.Prelude.Maps.{GoMap, insert}
use falcon_instrument_hub.Ports.{
  Vocabulary, InstrumentPort, ConnectedPort, Quantity, comparable_port,
}

module _ (V : Vocabulary) where
  pub data RoutingError (E : Type 0) : Type 0 where
    writes_locked : RoutingError E
    no_setter : InstrumentPort V → RoutingError E
    no_getter : InstrumentPort V → RoutingError E
    from_handler : E → RoutingError E

  module _ (F : Floats) where
    pub record SettingRequest : Type 0 where
      pub getters : List (InstrumentPort V)
      pub setters : GoMap (InstrumentPort V) (Quantity F)

    module _ (Metadata W E : Type 0) where
      pub record GetterHandler : Type 0 where
        pub can_get : InstrumentPort V → Metadata → Option (List (ConnectedPort V)) → String → Bool
        pub get :
            InstrumentPort V
            → Option (List (ConnectedPort V))
            → Metadata
            → W
            → Result E (Quantity F) × W

      pub record SetterHandler : Type 0 where
        pub can_set :
            InstrumentPort V → Quantity F → Option (List (ConnectedPort V)) → String → Bool
        pub set :
            InstrumentPort V
            → Quantity F
            → Option (List (ConnectedPort V))
            → W
            → Result E (Unit {0}) × W

      -- `guard` reads WritesLocked, and is `none` where the source's interface is nil.
      pub record Router : Type 0 where
        pub setters : List SetterHandler
        pub getters : List GetterHandler
        pub script_dir : String
        pub ports : Option (List (ConnectedPort V))
        pub instrument_metadata : Metadata
        pub guard : Option (W → Bool)

-- `r.guard != nil && r.guard.WritesLocked()`
abbrev pub locks : {W : Type 0} → Option (W → Bool) → W → Bool
locks none w = false
locks (some locked) w = locked w

module _ (V : Vocabulary) (F : Floats) (E : Type 0) where
  -- What `Handle` returns: the getters of the response, and the error.
  abbrev pub Response : Type 0
  Response = GoMap (InstrumentPort V) (Quantity F) × Option (RoutingError V E)

module _ {V : Vocabulary} {F : Floats} {W E : Type 0} where
  got :
      InstrumentPort V
      → GoMap (InstrumentPort V) (Quantity F)
      → Result (RoutingError V E) (Quantity F) × W
      → (GoMap (InstrumentPort V) (Quantity F) → W → Response V F E × W)
      → Response V F E × W
  got port out (err e, w) rest = ((out, some e), w)
  got port out (ok value, w) rest = rest (insert port value out) w

module _ {V : Vocabulary} {F : Floats} {Metadata W E : Type 0} where
  -- NewRouter: `dispatcher` is the scripts path of the dispatcher, where there is one.
  pub new_router :
      Option String
      → Option (List (ConnectedPort V))
      → Metadata
      → Option (W → Bool)
      → Router V F Metadata W E
  new_router dispatcher ports metadata guard = record {
    setters = [];
    getters = [];
    script_dir = elim dispatcher [ none ↦ "" | some path ↦ path ];
    ports = ports;
    instrument_metadata = metadata;
    guard = guard;
  }

  pub register_setter :
      SetterHandler V F Metadata W E → Router V F Metadata W E → Router V F Metadata W E
  register_setter handler r = record r { setters = r.setters ++ handler ∷ [] }

  pub register_getter :
      GetterHandler V F Metadata W E → Router V F Metadata W E → Router V F Metadata W E
  register_getter handler r = record r { getters = r.getters ++ handler ∷ [] }

  -- The router's `set` of one port.
  set_with :
      InstrumentPort V
      → Quantity F
      → Router V F Metadata W E
      → W
      → Option (SetterHandler V F Metadata W E)
      → Result (RoutingError V E) (Unit {0}) × W
  set_with port value r w none = (err (no_setter port), w)
  set_with port value r w (some h) =
      let (x, w') = h.set port value r.ports w in (wrap from_handler x, w')

  unfoldable pub set_port :
      InstrumentPort V
      → Quantity F
      → Router V F Metadata W E
      → W
      → Result (RoutingError V E) (Unit {0}) × W
  unfolding set_with
  set_port port value r w =
      set_with port value r w (find (λ h. h.can_set port value r.ports r.script_dir) r.setters)

  -- The router's `get` of one port.
  get_with :
      InstrumentPort V
      → Router V F Metadata W E
      → W
      → Option (GetterHandler V F Metadata W E)
      → Result (RoutingError V E) (Quantity F) × W
  get_with port r w none = (err (no_getter port), w)
  get_with port r w (some h) =
      let (x, w') = h.get port r.ports r.instrument_metadata w in (wrap from_handler x, w')

  unfoldable pub get_port :
      InstrumentPort V → Router V F Metadata W E → W → Result (RoutingError V E) (Quantity F) × W
  unfolding get_with
  get_port port r w =
      get_with port r w
        (find (λ h. h.can_get port r.instrument_metadata r.ports r.script_dir) r.getters)

  -- The loop over the setters stops at the first error.
  unfoldable pub set_ports :
      GoMap (InstrumentPort V) (Quantity F)
      → Router V F Metadata W E
      → W
      → Result (RoutingError V E) (Unit {0}) × W
  unfolding set_port
  set_ports [] r w = (ok tt, w)
  set_ports ((port, value) ∷ rest) r w =
      and_then (set_port port value r w) (λ u w'. set_ports rest r w')

  -- The loop over the getters fills `out`, and returns it as it is at the first error.
  unfoldable pub get_ports :
      List (InstrumentPort V)
      → Router V F Metadata W E
      → GoMap (InstrumentPort V) (Quantity F)
      → W
      → Response V F E × W
  unfolding get_port got
  get_ports [] r out w = ((out, none), w)
  get_ports (port ∷ rest) r out w = got port out (get_port port r w) (get_ports rest r)

  set_then_get :
      List (InstrumentPort V)
      → Router V F Metadata W E
      → Result (RoutingError V E) (Unit {0}) × W
      → Response V F E × W
  unfolding get_ports
  set_then_get getters r (err e, w) = (([], some e), w)
  set_then_get getters r (ok u, w) = get_ports getters r [] w

  -- The request has setters and the guard says that writes are locked.
  unfoldable pub refuses : SettingRequest V F → Router V F Metadata W E → W → Bool
  refuses req r w = ltb 0 (length req.setters) && locks r.guard w

  unfoldable pub handle : SettingRequest V F → Router V F Metadata W E → W → Response V F E × W
  unfolding refuses set_ports set_then_get
  handle req r w =
      if refuses req r w
      then (([], some writes_locked), w)
      else set_then_get req.getters r (set_ports req.setters r w)
