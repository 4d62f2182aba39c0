-- ===== src/Interpreter.antt =====
-- runtime/internal/interpreter/router.go: the router of measurement requests. A handler is given
-- the tracked device-state updater and the tracked recorder, so it is a program of those two
-- calls, `update` and `record_data`, between its own: `Handling` below. `W` is the world that the
-- handlers change beside them: the instruments and the settings.
pub mod Tracking
pub mod Choice
pub mod Examples
use falcon_instrument_hub.Prelude.{
  ℕ, zero, suc, ◌+◌, ◌-◌, ◌*◌, ◌/◌, ◌%◌, ◌^◌, ◌≤◌, ◌<◌, String, ◌≡◌, refl, sym, ap, subst, fun_ext,
  ◌∙◌, ◌≢◌, ◌↔◌, ◌⊎◌, inl, inr, Bool, true, false, not, ◌&&◌, ◌||◌, Option, none, some, List, [],
  ◌∷◌, ◌++◌, map, append_assoc, append-nil, map-append, arith, ltb, leb, if◌then◌else◌, ltb→lt,
  leb→le, Bool-cases, Option-cases, Comparable, ◌==◌, comparable_nat, comparable_string, ==_iff,
  ==_refl, length, get_elem?, set, replicate, length-append, length-map, All, sum, product, Result,
  ok, err, ◌>>=◌, ◌>>◌, wrap, guard, is_ok, Result-cases, and_then, nat_same,
}
use falcon_instrument_hub.Prelude.Floats.{Floats}
use falcon_instrument_hub.Ports.{Quantity}
use falcon_instrument_hub.Devices.{DeviceStateManager, update_port}

-- What went wrong in a router's Handle; `E` is an error of a handler and `D` of the database.
pub data InterpreterError (D E : Type 0) : Type 0 where
  while_evaluating : String → E → InterpreterError D E
  no_device_state : InterpreterError D E
  no_database : D → InterpreterError D E
  from_handler : E → InterpreterError D E
  no_updates : String → InterpreterError D E
  no_writes : String → InterpreterError D E
  no_handler : InterpreterError D E

module _ (F : Floats) (Entry W D E R : Type 0) where
  -- The rest of a handler's work: it ends, updates a port, records an entry, or acts on the world.
  pub data Handling : Type 0 where
    finish : Result E R → Handling
    update : String → Quantity F → Handling → Handling
    record_data : Entry → (Result D (Unit {0}) → Handling) → Handling
    act : (W → W) → (W → Handling) → Handling

module _ (F : Floats) (Request Entry W D E R : Type 0) where
  pub record MeasurementHandler : Type 0 where
    pub name : String
    pub can_handle : Request → W → Result E Bool
    pub handling : Request → Handling F Entry W D E R

-- measurementdb, as the router uses it: the error that `Instance` returns, and `InsertAsync`.
pub record Database (Entry D : Type 0) : Type 1 where
  pub Store : Type 0
  pub instance_error : Store → Option D
  pub insert_async : Entry → Store → Result D (Unit {0}) × Store

module _ (F : Floats) {Entry D : Type 0} (B : Database Entry D) (W : Type 0) where
  -- `devices` is the global manager.
  pub record HubState : Type 0 where
    pub devices : Option (DeviceStateManager F)
    pub store : B.Store
    pub world : W

  -- A handler's run: the updater's manager and count, the recorder's count, and the rest.
  pub record Tracked : Type 0 where
    pub manager : DeviceStateManager F
    pub updates : ℕ
    pub writes : ℕ
    pub store : B.Store
    pub world : W

module _ {F : Floats} {Entry W D : Type 0} (B : Database Entry D) where
  -- UpdatePort of the tracked updater.
  unfoldable pub update_tracked : String → Quantity F → Tracked F B W → Tracked F B W
  update_tracked port value t = record t {
    manager = update_port port value t.manager;
    updates = suc t.updates;
  }

  -- Insert of the tracked recorder.
  unfoldable pub counted : Result D (Unit {0}) × B.Store → Tracked F B W → Tracked F B W
  counted (ok u, store) t = record t { writes = suc t.writes; store = store }
  counted (err e, store) t = record t { store = store }

  unfoldable pub started : DeviceStateManager F → B.Store → W → Tracked F B W
  started m store w = record { manager = m; updates = 0; writes = 0; store = store; world = w }

  unfoldable pub after_run : Tracked F B W → HubState F B W
  after_run t = record { devices = some t.manager; store = t.store; world = t.world }

module _ {F : Floats} {Entry W D E R : Type 0} (B : Database Entry D) where
  unfoldable pub run : Handling F Entry W D E R → Tracked F B W → Result E R × Tracked F B W
  unfolding update_tracked counted
  run (finish r) t = (r, t)
  run (update port value rest) t = run rest (update_tracked B port value t)
  run (record_data entry rest) t =
      run (rest (B.insert_async entry t.store).0) (counted B (B.insert_async entry t.store) t)
  run (act f rest) t = run (rest (f t.world)) (record t { world = f t.world })

  -- What the router makes of a handler's answer.
  unfoldable pub judged : String → Result E R × Tracked F B W → Result (InterpreterError D E) R
  judged name (err e, t) = err (from_handler e)
  judged name (ok r, t) =
      if nat_same t.updates 0
      then err (no_updates name)
      else (if nat_same t.writes 0 then err (no_writes name) else ok r)

module _ {F : Floats} {Request Entry W D E R : Type 0} (B : Database Entry D) where
  -- The two nil checks, and the handler's run.
  unfoldable pub dispatched :
      MeasurementHandler F Request Entry W D E R
      → Request
      → HubState F B W
      → Option (DeviceStateManager F)
      → Option D
      → Result (InterpreterError D E) R × HubState F B W
  unfolding run judged started after_run
  dispatched h req s none i = (err no_device_state, s)
  dispatched h req s (some m) (some d) = (err (no_database d), s)
  dispatched h req s (some m) none =
      let x = run B (h.handling req) (started B m s.store s.world) in
      (judged B h.name x, after_run B x.1)

  unfoldable pub chosen :
      MeasurementHandler F Request Entry W D E R
      → Request
      → HubState F B W
      → Result E Bool
      → Result (InterpreterError D E) R × HubState F B W
      → Result (InterpreterError D E) R × HubState F B W
  unfolding dispatched
  chosen h req s (err e) rest = (err (while_evaluating h.name e), s)
  chosen h req s (ok false) rest = rest
  chosen h req s (ok true) rest = dispatched h req s s.devices (B.instance_error s.store)

  -- Handle: the loop over the registered handlers.
  unfoldable pub route :
      List (MeasurementHandler F Request Entry W D E R)
      → Request
      → HubState F B W
      → Result (InterpreterError D E) R × HubState F B W
  unfolding chosen
  route [] req s = (err no_handler, s)
  route (h ∷ hs) req s = chosen h req s (h.can_handle req s.world) (route hs req s)
