-- ===== src/Routing/Locking.antt =====
-- When a setting request is refused because writes are locked.
use falcon_instrument_hub.Prelude.{
  ◌≡◌, refl, sym, ap, subst, ◌≢◌, ◌↔◌, inl, inr, Bool, true, false, ◌&&◌, Option, none, some, List,
  [], ◌∷◌, arith, ltb, Bool-cases, Option-cases, comparable_nat, comparable_string, length, Result,
  ok, err, wrap, and_then,
}
use falcon_instrument_hub.Prelude.Floats.{Floats}
use falcon_instrument_hub.Prelude.First.{find}
use falcon_instrument_hub.Prelude.Maps.{GoMap, insert}
use falcon_instrument_hub.Ports.{Vocabulary, InstrumentPort, Quantity, comparable_port}
use falcon_instrument_hub.Routing.{
  Router, SettingRequest, RoutingError, Response, from_handler, writes_locked, set_port, get_port,
  set_with, get_with, set_ports, get_ports, got, set_then_get, refuses, handle, locks,
}

module _ {V : Vocabulary} {E A : Type 0} where
  from_handler_free :
      (x : Result E A) → wrap {F = RoutingError V E} from_handler x ≢ err writes_locked
  from_handler_free (ok a) q = cc
  from_handler_free (err e) q = cc

module _ {V : Vocabulary} {W E : Type 0} where
  and_then_free :
      {A B : Type 0} (x : Result (RoutingError V E) A × W)
      (k : A → W → Result (RoutingError V E) B × W)
      → x.0 ≢ err writes_locked
      → ((a : A) (w : W) → (k a w).0 ≢ err writes_locked)
      → (and_then x k).0 ≢ err writes_locked
  and_then_free (ok a, w) k h j = j a w
  and_then_free (err e, w) k h j = λ q. h (cc q)

module _ {V : Vocabulary} {F : Floats} {W E : Type 0} where
  got_free :
      (port : InstrumentPort V) (out : GoMap (InstrumentPort V) (Quantity F))
      (x : Result (RoutingError V E) (Quantity F) × W)
      (k : GoMap (InstrumentPort V) (Quantity F) → W → Response V F E × W)
      → x.0 ≢ err writes_locked
      → ((o : _) (w : W) → (k o w).0.1 ≢ some writes_locked)
      → (got port out x k).0.1 ≢ some writes_locked
  unfolding got
  got_free port out (ok v, w) k h j = j (insert port v out) w
  got_free port out (err e, w) k h j = λ q. h (cc q)

nonempty {ℓ} : {A : Type ℓ} (xs : List A) → (ltb 0 (length xs) ≡ true) ↔ (xs ≢ [])
nonempty [] = (λ h. cc, λ h. absurd (h refl))
nonempty (x ∷ xs) = (λ h q. cc, λ h. ground arith)

locks-guard :
    {W : Type 0} (g : Option (W → Bool)) (w : W)
    → (locks g w ≡ true) ↔ ((locked : W → Bool) × (g ≡ some locked) × (locked w ≡ true))
locks-guard none w = (λ h. cc, λ (l, e, h). cc)
locks-guard {W = W} (some locked) w =
    (λ h. (locked, refl, h), λ (l, e, h). subst (λ g. locks g w ≡ true) (sym e) h)

and_true : (a b : Bool) → (a && b) ≡ true → (a ≡ true) × (b ≡ true)
and_true true b h = (refl, h)
and_true false b h = cc

module _ {V : Vocabulary} {F : Floats} {Metadata W E : Type 0} where
  set_port_free :
      (port : InstrumentPort V) (value : Quantity F) (r : Router V F Metadata W E) (w : W)
      → (set_port port value r w).0 ≢ err writes_locked
  unfolding set_port
  set_port_free port value r w =
      elim (Option-cases (find (λ h. h.can_set port value r.ports r.script_dir) r.setters)) [
        | inl e ↦ rw (e, set_with) (λ q. cc)
        | inr (h, e) ↦ rw (e, set_with) (from_handler_free (h.set port value r.ports w).0)
      ]

  get_port_free :
      (port : InstrumentPort V) (r : Router V F Metadata W E) (w : W)
      → (get_port port r w).0 ≢ err writes_locked
  unfolding get_port
  get_port_free port r w =
      elim (Option-cases
        (find (λ h. h.can_get port r.instrument_metadata r.ports r.script_dir) r.getters)) [
          | inl e ↦ rw (e, get_with) (λ q. cc)
          | inr (h, e) ↦
              rw (e, get_with) (from_handler_free (h.get port r.ports r.instrument_metadata w).0)
        ]

  set_ports_free :
      (m : GoMap (InstrumentPort V) (Quantity F)) (r : Router V F Metadata W E) (w : W)
      → (set_ports m r w).0 ≢ err writes_locked
  unfolding set_ports
  set_ports_free [] r w = λ q. cc
  set_ports_free ((port, value) ∷ m) r w =
      and_then_free (set_port port value r w) (λ u w'. set_ports m r w')
        (set_port_free port value r w) (λ u w'. set_ports_free m r w')

  get_ports_free :
      (ps : List (InstrumentPort V)) (r : Router V F Metadata W E)
      (out : GoMap (InstrumentPort V) (Quantity F)) (w : W)
      → (get_ports ps r out w).0.1 ≢ some writes_locked
  unfolding get_ports
  get_ports_free [] r out w = λ q. cc
  get_ports_free (port ∷ ps) r out w =
      got_free port out (get_port port r w) (get_ports ps r) (get_port_free port r w)
        (λ o w'. get_ports_free ps r o w')

  set_then_get_free :
      (getters : List (InstrumentPort V)) (r : Router V F Metadata W E)
      (x : Result (RoutingError V E) (Unit {0}) × W)
      → x.0 ≢ err writes_locked
      → (set_then_get getters r x).0.1 ≢ some writes_locked
  unfolding set_then_get
  set_then_get_free getters r (ok u, w) h = get_ports_free getters r [] w
  set_then_get_free getters r (err e, w) h = λ q. h (cc q)

  -- The request writes and the router's guard locks writes.
  abbrev pub Locked : SettingRequest V F → Router V F Metadata W E → W → Type 0
  Locked req r w =
      (req.setters ≢ []) × ((locked : W → Bool) × (r.guard ≡ some locked) × (locked w ≡ true))

  refuses-Locked :
      (req : SettingRequest V F) (r : Router V F Metadata W E) (w : W)
      → (refuses req r w ≡ true) ↔ Locked req r w
  unfolding refuses
  refuses-Locked req r w = (
    λ h. let (n, l) = and_true _ _ h in ((nonempty req.setters).0 n, (locks-guard r.guard w).0 l),
    λ h. rw ((nonempty req.setters).1 h.0) ((locks-guard r.guard w).1 h.1),
  )

  -- Handle returns "settings writes are currently locked" just when the request has setters and
  -- the guard locks writes, and just then it returns that with an empty response and no call made.
  pub handle_refused :
      (req : SettingRequest V F) (r : Router V F Metadata W E) (w : W)
      → (((handle req r w).0.1 ≡ some writes_locked) ↔ Locked req r w)
        × ((handle req r w ≡ (([], some writes_locked), w)) ↔ Locked req r w)
  unfolding handle
  handle_refused req r w = elim (Bool-cases (refuses req r w)) [
    | inl e ↦
        let l = (refuses-Locked req r w).0 e in rw e ((λ h. l, λ x. refl), (λ h. l, λ x. refl))
    | inr e ↦
        let free =
          set_then_get_free req.getters r (set_ports req.setters r w)
            (set_ports_free req.setters r w) in
        rw e (
          (λ h. absurd (free h), λ l. absurd (cc (e, (refuses-Locked req r w).1 l))),
          (
            λ h. absurd (free (ap (λ x. x.0.1) h)),
            λ l. absurd (cc (e, (refuses-Locked req r w).1 l)),
          ),
        )
  ]
