-- ===== src/Routing/Requests.antt =====
-- The order of a setting request's calls.
use falcon_instrument_hub.Prelude.{
  ◌≡◌, inl, inr, Bool, true, false, Option, none, some, List, [], ◌∷◌, ◌++◌, map, Bool-cases,
  Option-cases, comparable_nat, comparable_string, Result, ok, err, is_ok,
}
use falcon_instrument_hub.Prelude.Floats.{Floats}
use falcon_instrument_hub.Prelude.First.{find, find-All}
use falcon_instrument_hub.Prelude.Maps.{GoMap, insert}
use falcon_instrument_hub.Ports.{Vocabulary, InstrumentPort, Quantity, comparable_port}
use falcon_instrument_hub.Routing.{
  Router, SettingRequest, RoutingError, Response, set_port, get_port, set_with, get_with, set_ports,
  get_ports, got, set_then_get, refuses, handle,
}
use falcon_instrument_hub.Routing.Calls.{
  Call, write, read, Records, Performs, Performs-skip, Performs-nil, Performs-one, Performs-append,
  Performs-stop, and_then-Performs,
}

abbrev pub succeeds {ℓ} : {A B : Type ℓ} → A × Option B → Bool
succeeds (out, none) = true
succeeds (out, some e) = false

module _ {V : Vocabulary} {F : Floats} {W E : Type 0} (calls : W → List (Call V F)) where
  got-Performs :
      (port : InstrumentPort V) (q : List (Call V F)) (out : GoMap (InstrumentPort V) (Quantity F))
      (w : W) (x : Result (RoutingError V E) (Quantity F) × W)
      (k : GoMap (InstrumentPort V) (Quantity F) → W → Response V F E × W)
      → Performs calls (read port ∷ []) w (is_ok x.0) x.1
      → ((o : _) (w' : W) → Performs calls q w' (succeeds (k o w').0) (k o w').1)
      → Performs calls (read port ∷ q) w (succeeds (got port out x k).0) (got port out x k).1
  unfolding got
  got-Performs port q out w (ok v, w') k h j =
      Performs-append calls (read port ∷ []) q w w' (k (insert port v out) w').1 _ h
        (j (insert port v out) w')
  got-Performs port q out w (err e, w') k h j = Performs-stop calls (read port ∷ []) q w w' h

module _ {V : Vocabulary} {F : Floats} {Metadata W E : Type 0} (calls : W → List (Call V F)) where
  set_port-Performs :
      (port : InstrumentPort V) (value : Quantity F) (r : Router V F Metadata W E) (w : W)
      → Records calls r
      → Performs calls
          (write port value ∷ [])
          w
          (is_ok (set_port port value r w).0)
          (set_port port value r w).1
  unfolding set_port
  set_port-Performs port value r w c =
      elim (Option-cases (find (λ h. h.can_set port value r.ports r.script_dir) r.setters)) [
        | inl e ↦ rw (e, set_with) (Performs-skip calls (write port value ∷ []) w)
        | inr (h, e) ↦
            rw (e, set_with)
              (Performs-one calls (write port value) w (h.set port value r.ports w).1 _ (
                find-All
                  (λ h.
                    (port : InstrumentPort V) (value : Quantity F) (w : W)
                    → calls (h.set port value r.ports w).1 ≡ calls w ++ write port value ∷ [])
                  (λ h. h.can_set port value r.ports r.script_dir) r.setters h c.0 e port value w))
      ]

  get_port-Performs :
      (port : InstrumentPort V) (r : Router V F Metadata W E) (w : W)
      → Records calls r
      → Performs calls (read port ∷ []) w (is_ok (get_port port r w).0) (get_port port r w).1
  unfolding get_port
  get_port-Performs port r w c =
      elim (Option-cases
        (find (λ h. h.can_get port r.instrument_metadata r.ports r.script_dir) r.getters)) [
          | inl e ↦ rw (e, get_with) (Performs-skip calls (read port ∷ []) w)
          | inr (h, e) ↦
              rw (e, get_with)
                (Performs-one calls (read port) w (h.get port r.ports r.instrument_metadata w).1 _ (
                  find-All
                    (λ h.
                      (port : InstrumentPort V) (w : W)
                      → calls (h.get port r.ports r.instrument_metadata w).1
                        ≡ calls w ++ read port ∷ [])
                    (λ h. h.can_get port r.instrument_metadata r.ports r.script_dir) r.getters h c.1
                    e port w))
        ]

  set_ports-Performs :
      (m : GoMap (InstrumentPort V) (Quantity F)) (r : Router V F Metadata W E) (w : W)
      → Records calls r
      → Performs calls
          (map (λ e. write e.0 e.1) m)
          w
          (is_ok (set_ports m r w).0)
          (set_ports m r w).1
  unfolding set_ports
  set_ports-Performs [] r w c = Performs-nil calls w
  set_ports-Performs ((port, value) ∷ m) r w c =
      and_then-Performs calls (write port value ∷ []) (map (λ e. write e.0 e.1) m) w
        (set_port port value r w) (λ u w'. set_ports m r w') (set_port-Performs port value r w c)
        (λ u w'. set_ports-Performs m r w' c)

  get_ports-Performs :
      (ps : List (InstrumentPort V)) (r : Router V F Metadata W E)
      (out : GoMap (InstrumentPort V) (Quantity F)) (w : W)
      → Records calls r
      → Performs calls (map read ps) w (succeeds (get_ports ps r out w).0) (get_ports ps r out w).1
  unfolding get_ports
  get_ports-Performs [] r out w c = Performs-nil calls w
  get_ports-Performs (port ∷ ps) r out w c =
      got-Performs calls port (map read ps) out w (get_port port r w) (get_ports ps r)
        (get_port-Performs port r w c) (λ o w'. get_ports-Performs ps r o w' c)

  set_then_get-Performs :
      (p : List (Call V F)) (getters : List (InstrumentPort V)) (r : Router V F Metadata W E)
      (w : W) (x : Result (RoutingError V E) (Unit {0}) × W)
      → Records calls r
      → Performs calls p w (is_ok x.0) x.1
      → Performs calls
          (p ++ map read getters)
          w
          (succeeds (set_then_get getters r x).0)
          (set_then_get getters r x).1
  unfolding set_then_get
  set_then_get-Performs p getters r w (ok u, w') c h =
      Performs-append calls p (map read getters) w w' _ _ h (get_ports-Performs getters r [] w' c)
  set_then_get-Performs p getters r w (err e, w') c h =
      Performs-stop calls p (map read getters) w w' h

  -- Handle makes the writes of a request before its reads, each in the request's order, and makes
  -- all of them where it returns no error: with every call recorded in the world, the calls that
  -- it adds are an initial part of the writes followed by the reads, and the whole of them on
  -- success.
  pub handle-Performs :
      (req : SettingRequest V F) (r : Router V F Metadata W E) (w : W)
      → Records calls r
      → Performs calls
          (map (λ e. write e.0 e.1) req.setters ++ map read req.getters)
          w
          (succeeds (handle req r w).0)
          (handle req r w).1
  unfolding handle
  handle-Performs req r w c = elim (Bool-cases (refuses req r w)) [
    | inl e ↦ rw e (Performs-skip calls _ w)
    | inr e ↦ rw e (
        set_then_get-Performs (map (λ e. write e.0 e.1) req.setters) req.getters r w
          (set_ports req.setters r w) c (set_ports-Performs req.setters r w c))
  ]
