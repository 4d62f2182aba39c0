-- ===== src/Interpreter/Tracking.antt =====
-- What a measurement request that succeeds has done to the device state and to the database, and
-- which handler did it.
use falcon_instrument_hub.Prelude.{
  ◌+◌, String, ◌≡◌, refl, sym, ap, ◌≢◌, ◌⊎◌, inl, inr, Bool, true, false, Option, none, some, List,
  [], ◌∷◌, ◌++◌, append_assoc, append-nil, arith, comparable_nat, comparable_string, length, Result,
  ok, err,
}
use falcon_instrument_hub.Prelude.Floats.{Floats}
use falcon_instrument_hub.Ports.{Quantity}
use falcon_instrument_hub.Devices.{DeviceStateManager, update_port}
use falcon_instrument_hub.Interpreter.{
  InterpreterError, Handling, finish, update, record_data, act, MeasurementHandler, Database,
  HubState, Tracked, update_tracked, counted, started, after_run, run, judged, dispatched, chosen,
  route,
}

module _ {F : Floats} where
  -- The updates, one after the other.
  abbrev pub apply_updates :
      List (String × Quantity F) → DeviceStateManager F → DeviceStateManager F
  apply_updates [] m = m
  apply_updates ((port, value) ∷ us) m = apply_updates us (update_port port value m)

module _ {Entry D : Type 0} (B : Database Entry D) (accepted : B.Store → List Entry) where
  -- An insertion that returns no error puts its entry behind the others; one that returns an error
  -- leaves them.
  abbrev pub Accepting : Type 0
  Accepting =
      (e : Entry) (store : B.Store)
      → (((B.insert_async e store).0 ≡ ok tt)
          × (accepted (B.insert_async e store).1 ≡ accepted store ++ e ∷ []))
        ⊎ ((d : D) × ((B.insert_async e store).0 ≡ err d)
            × (accepted (B.insert_async e store).1 ≡ accepted store))

module _ {F : Floats} {Entry W D : Type 0} (B : Database Entry D)
    (accepted : B.Store → List Entry) where
  -- These updates and these entries lead from one state of a run to another.
  Made : Tracked F B W → Tracked F B W → List (String × Quantity F) → List Entry → Type 0
  Made t t' us es =
      (t'.manager ≡ apply_updates us t.manager)
      × (t'.updates ≡ length us + t.updates)
      × (accepted t'.store ≡ accepted t.store ++ es)
      × (t'.writes ≡ length es + t.writes)

  counted-Made :
      (e : Entry) (t t' : Tracked F B W) (x : Result D (Unit {0}) × B.Store)
      → ((x.0 ≡ ok tt) × (accepted x.1 ≡ accepted t.store ++ e ∷ []))
        ⊎ ((d : D) × (x.0 ≡ err d) × (accepted x.1 ≡ accepted t.store))
      → (us : List (String × Quantity F)) (es : List Entry) → Made (counted B x t) t' us es
      → (us' : List (String × Quantity F)) × (es' : List Entry) × Made t t' us' es'
  unfolding Made counted
  counted-Made e t t' (ok u, store) (inl (r, c)) us es (m, n, a, k) =
      (us, e ∷ es, (m, n, cc (a, c, append_assoc (accepted t.store) (e ∷ []) es), omega (arith, k)))
  counted-Made e t t' (ok u, store) (inr (d, r, c)) us es m = cc
  counted-Made e t t' (err d, store) (inl (r, c)) us es m = cc
  counted-Made e t t' (err d, store) (inr (d', r, c)) us es (m, n, a, k) =
      (us, es, (m, n, cc (a, c), k))

  -- What a request that succeeds has changed: some updates and some entries, at least one of each.
  abbrev pub Recorded : HubState F B W → HubState F B W → Type 0
  Recorded s s' =
      (m : DeviceStateManager F) × (us : List (String × Quantity F)) × (es : List Entry)
      × (s.devices ≡ some m)
      × (s'.devices ≡ some (apply_updates us m))
      × (us ≢ [])
      × (accepted s'.store ≡ accepted s.store ++ es)
      × (es ≢ [])

module _ {F : Floats} {Entry W D E R : Type 0} (B : Database Entry D)
    (accepted : B.Store → List Entry) where
  run-Made :
      (h : Handling F Entry W D E R) (t : Tracked F B W)
      → Accepting B accepted
      → (us : List (String × Quantity F)) × (es : List Entry) × Made B accepted t
          (run B h t).1
          us
          es
  unfolding run Made update_tracked
  run-Made (finish r) t a =
      ([], [], (refl, omega arith, sym (append-nil (accepted t.store)), omega arith))
  run-Made (update port value rest) t a =
      let (us, es, (m, n, c, k)) = run-Made rest (update_tracked B port value t) a in
      ((port, value) ∷ us, es, (m, omega (arith, n), c, k))
  run-Made (record_data entry rest) t a =
      let (us, es, m) =
        run-Made (rest (B.insert_async entry t.store).0)
          (counted B (B.insert_async entry t.store) t) a in
      counted-Made B accepted entry t
        (run B (rest (B.insert_async entry t.store).0)
          (counted B (B.insert_async entry t.store) t)).1
        (B.insert_async entry t.store) (a entry t.store) us es m
  run-Made (act f rest) t a = run-Made (rest (f t.world)) (record t { world = f t.world }) a

  judged_counts :
      (name : String) (v r : R) (t : Tracked F B W)
      → judged {E = E} B name (ok v, t) ≡ ok r
      → (t.updates ≢ 0) × (t.writes ≢ 0)
  unfolding judged
  judged_counts name v r t q = (λ z. ground arith, λ z. ground arith)

  judged-Recorded :
      (name : String) (m : DeviceStateManager F) (s : HubState F B W)
      (x : Result E R × Tracked F B W) (r : R)
      → s.devices ≡ some m
      → (us : List (String × Quantity F)) × (es : List Entry) × Made B accepted
          (started B m s.store s.world)
          x.1
          us
          es
      → judged B name x ≡ ok r
      → Recorded B accepted s (after_run B x.1)
  unfolding judged Made started after_run
  judged-Recorded name m s (err e, t) r d h q = cc
  judged-Recorded name m s (ok v, t) r d (us, es, (um, n, c, k)) q = (
    m,
    us,
    es,
    d,
    ap some um,
    λ z. (judged_counts name v r t q).0 (omega (arith, n, ap length z)),
    c,
    λ z. (judged_counts name v r t q).1 (omega (arith, k, ap length z)),
  )

module _ {F : Floats} {Request Entry W D E R : Type 0} (B : Database Entry D)
    (accepted : B.Store → List Entry) where
  dispatched-Recorded :
      (h : MeasurementHandler F Request Entry W D E R) (req : Request) (s : HubState F B W)
      (o : Option (DeviceStateManager F)) (i : Option D) (r : R)
      → Accepting B accepted
      → s.devices ≡ o
      → (dispatched B h req s o i).0 ≡ ok r
      → Recorded B accepted s (dispatched B h req s o i).1
  unfolding dispatched
  dispatched-Recorded h req s none i r a d q = cc
  dispatched-Recorded h req s (some m) (some e) r a d q = cc
  dispatched-Recorded h req s (some m) none r a d q =
      judged-Recorded B accepted h.name m s (run B (h.handling req) (started B m s.store s.world)) r
        d (run-Made B accepted (h.handling req) (started B m s.store s.world) a) q

  chosen-Recorded :
      (h : MeasurementHandler F Request Entry W D E R) (req : Request) (s : HubState F B W)
      (c : Result E Bool) (rest : Result (InterpreterError D E) R × HubState F B W) (r : R)
      → Accepting B accepted
      → (rest.0 ≡ ok r → Recorded B accepted s rest.1)
      → (chosen B h req s c rest).0 ≡ ok r
      → Recorded B accepted s (chosen B h req s c rest).1
  unfolding chosen
  chosen-Recorded h req s (err e) rest r a k q = cc
  chosen-Recorded h req s (ok false) rest r a k q = k q
  chosen-Recorded h req s (ok true) rest r a k q =
      dispatched-Recorded h req s s.devices (B.instance_error s.store) r a refl q

  -- A request that the router answers without an error has updated the device state and recorded
  -- data: with a database that takes what it accepts, the global manager is the earlier one after
  -- one update or more, and the accepted entries are the earlier ones and one more at least.
  pub route-Recorded :
      (hs : List (MeasurementHandler F Request Entry W D E R)) (req : Request) (s : HubState F B W)
      (r : R)
      → Accepting B accepted
      → (route B hs req s).0 ≡ ok r
      → Recorded B accepted s (route B hs req s).1
  unfolding route
  route-Recorded [] req s r a q = cc
  route-Recorded (h ∷ hs) req s r a q =
      chosen-Recorded h req s (h.can_handle req s.world) (route B hs req s) r a
        (route-Recorded hs req s r a) q
