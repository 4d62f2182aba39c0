-- ===== src/Interpreter/Choice.antt =====
-- Which handler a measurement request goes to, and when none runs.
use falcon_instrument_hub.Prelude.{
  ◌≡◌, refl, ◌⊎◌, inl, inr, Bool, true, false, Option, none, some, List, [], ◌∷◌, comparable_nat,
  comparable_string, Result, ok, err, is_ok,
}
use falcon_instrument_hub.Prelude.Floats.{Floats}
use falcon_instrument_hub.Devices.{DeviceStateManager}
use falcon_instrument_hub.Interpreter.{
  InterpreterError, MeasurementHandler, Database, HubState, dispatched, chosen, route,
}

module _ {F : Floats} {Entry W D E R : Type 0} (B : Database Entry D) where
  -- Nothing has changed, and an error is returned.
  abbrev pub Fails : HubState F B W → Result (InterpreterError D E) R × HubState F B W → Type 0
  Fails s x = (x.1 ≡ s) × (is_ok x.0 ≡ false)

module _ {F : Floats} {Request Entry W D E R : Type 0} (B : Database Entry D) where
  dispatched-Fails :
      (h : MeasurementHandler F Request Entry W D E R) (req : Request) (s : HubState F B W)
      (o : Option (DeviceStateManager F)) (i : Option D)
      → (o ≡ none) ⊎ ((d : D) × (i ≡ some d))
      → Fails B s (dispatched B h req s o i)
  unfolding dispatched
  dispatched-Fails h req s none i u = (refl, refl)
  dispatched-Fails h req s (some m) (some d) u = (refl, refl)
  dispatched-Fails h req s (some m) none (inl e) = cc
  dispatched-Fails h req s (some m) none (inr (d, e)) = cc

  chosen-Fails :
      (h : MeasurementHandler F Request Entry W D E R) (req : Request) (s : HubState F B W)
      (c : Result E Bool) (rest : Result (InterpreterError D E) R × HubState F B W)
      → (s.devices ≡ none) ⊎ ((d : D) × (B.instance_error s.store ≡ some d))
      → Fails B s rest
      → Fails B s (chosen B h req s c rest)
  unfolding chosen
  chosen-Fails h req s (err e) rest u f = (refl, refl)
  chosen-Fails h req s (ok false) rest u f = f
  chosen-Fails h req s (ok true) rest u f =
      dispatched-Fails h req s s.devices (B.instance_error s.store) u

  -- Without a device-state manager, or without a database, a request changes nothing and fails.
  route_unready :
      (hs : List (MeasurementHandler F Request Entry W D E R)) (req : Request) (s : HubState F B W)
      → (s.devices ≡ none) ⊎ ((d : D) × (B.instance_error s.store ≡ some d))
      → Fails B s (route B hs req s)
  unfolding route
  route_unready [] req s u = (refl, refl)
  route_unready (h ∷ hs) req s u =
      chosen-Fails h req s (h.can_handle req s.world) (route B hs req s) u
        (route_unready hs req s u)
