-- ===== src/Routing/Responses.antt =====
-- What a setting request returns: the ports of the response, and the refusal of locked writes.
use falcon_instrument_hub.Prelude.{
  ◌≡◌, inl, inr, Bool, false, ◌||◌, none, some, List, [], ◌∷◌, arith, Bool-cases, ◌==◌,
  comparable_nat, comparable_string, Result, ok, err,
}
use falcon_instrument_hub.Prelude.Floats.{Floats}
use falcon_instrument_hub.Prelude.Maps.{GoMap, insert, has, has-insert}
use falcon_instrument_hub.Ports.{Vocabulary, InstrumentPort, Quantity, comparable_port}
use falcon_instrument_hub.Routing.{
  Router, SettingRequest, RoutingError, Response, get_port, set_ports, get_ports, got, set_then_get,
  refuses, handle,
}

-- The port is one of the list.
abbrev pub requested : {V : Vocabulary} → InstrumentPort V → List (InstrumentPort V) → Bool
requested p [] = false
requested p (q ∷ ps) = q == p || requested p ps

module _ {V : Vocabulary} {F : Floats} {W E : Type 0} where
  -- The response carries an error or exactly these ports.
  abbrev pub Answers : (InstrumentPort V → Bool) → Response V F E × W → Type 0
  Answers ports ((out, some e), w) = Unit
  Answers ports ((out, none), w) = (p : InstrumentPort V) → has p out ≡ ports p

  got-Answers :
      (ports : InstrumentPort V → Bool) (port : InstrumentPort V)
      (out : GoMap (InstrumentPort V) (Quantity F)) (x : Result (RoutingError V E) (Quantity F) × W)
      (k : GoMap (InstrumentPort V) (Quantity F) → W → Response V F E × W)
      → ((v : Quantity F) (w : W) → Answers ports (k (insert port v out) w))
      → Answers ports (got port out x k)
  unfolding got
  got-Answers ports port out (ok v, w) k h = h v w
  got-Answers ports port out (err e, w) k h = tt

  Answers-ext :
      (f g : InstrumentPort V → Bool) (x : Response V F E × W)
      → ((p : InstrumentPort V) → f p ≡ g p)
      → Answers f x
      → Answers g x
  Answers-ext f g ((out, some e), w) h a = tt
  Answers-ext f g ((out, none), w) h a = λ p. cc (a p, h p)

module _ {V : Vocabulary} {F : Floats} {Metadata W E : Type 0} where
  get_ports-Answers :
      (ps : List (InstrumentPort V)) (r : Router V F Metadata W E)
      (out : GoMap (InstrumentPort V) (Quantity F)) (w : W)
      → Answers (λ p. has p out || requested p ps) (get_ports ps r out w)
  unfolding get_ports
  get_ports-Answers [] r out w = λ p. ground arith
  get_ports-Answers (port ∷ ps) r out w =
      got-Answers (λ p. has p out || (port == p || requested p ps)) port out (get_port port r w)
        (get_ports ps r)
        (λ v w'.
          Answers-ext (λ p. has p (insert port v out) || requested p ps) _
            (get_ports ps r (insert port v out) w') (λ p. ground (arith, has-insert port p v out))
            (get_ports-Answers ps r (insert port v out) w'))

  set_then_get-Answers :
      (getters : List (InstrumentPort V)) (r : Router V F Metadata W E)
      (x : Result (RoutingError V E) (Unit {0}) × W)
      → Answers (λ p. requested p getters) (set_then_get getters r x)
  unfolding set_then_get has
  set_then_get-Answers getters r (ok u, w) = get_ports-Answers getters r [] w
  set_then_get-Answers getters r (err e, w) = tt

  -- Handle either returns an error, or the response holds a value for every port whose value the
  -- request asks for and for no other port.
  pub handle-Answers :
      (req : SettingRequest V F) (r : Router V F Metadata W E) (w : W)
      → Answers (λ p. requested p req.getters) (handle req r w)
  unfolding handle
  handle-Answers req r w = elim (Bool-cases (refuses req r w)) [
    | inl e ↦ rw e tt
    | inr e ↦ rw e (set_then_get-Answers req.getters r (set_ports req.setters r w))
  ]
