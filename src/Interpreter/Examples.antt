-- ===== src/Interpreter/Examples.antt =====
-- The measurement router on concrete handlers: one that never takes a request, one that updates a
-- port and records an entry, one that records nothing. The store is the entries or an error.
use falcon_instrument_hub.Prelude.{
  ℕ, String, ◌≡◌, refl, inl, true, false, Option, none, some, List, [], ◌∷◌, ◌++◌, comparable_nat,
  comparable_string, ok, err,
}
use falcon_instrument_hub.Buffer.Examples.{integers}
use falcon_instrument_hub.Devices.{update_port}
use falcon_instrument_hub.Devices.Examples.{volts, one_gate}
use falcon_instrument_hub.Interpreter.{
  no_writes, finish, update, record_data, MeasurementHandler, Database, HubState, route, Tracked,
}
use falcon_instrument_hub.Interpreter.Tracking.{Accepting, Recorded, route-Recorded}

abbrev memory : Database ℕ String
memory = record {
  Store = Option String × List ℕ;
  instance_error = λ s. s.0;
  insert_async = λ e s. (ok tt, (s.0, s.1 ++ e ∷ []));
}

abbrev Handler : Type 0
Handler = MeasurementHandler integers ℕ ℕ (Unit {0}) String String ℕ

abbrev unwilling : Handler
unwilling = record {
  name = "unwilling";
  can_handle = λ q w. ok false;
  handling = λ q. finish (ok 0);
}

abbrev sweep : Handler
sweep = record {
  name = "sweep";
  can_handle = λ q w. ok true;
  handling = λ q. update "P1" (volts q) (record_data q (λ r. finish (ok q)));
}

abbrev forgetful : Handler
forgetful = record {
  name = "forgetful";
  can_handle = λ q w. ok true;
  handling = λ q. update "P1" (volts q) (finish (ok q));
}

abbrev hub : HubState integers memory (Unit {0})
hub = record { devices = some one_gate; store = (none, []); world = tt }

abbrev no_device : HubState integers memory (Unit {0})
no_device = record { devices = none; store = (none, []); world = tt }

forgotten : (route memory (unwilling ∷ forgetful ∷ []) 7 hub).0 ≡ err (no_writes "forgetful")
unfolding route
forgotten = refl

swept : (route memory (unwilling ∷ sweep ∷ forgetful ∷ []) 7 hub).0 ≡ ok 7
unfolding route
swept = refl

memory-Accepting : Accepting memory (λ s. s.1)
memory-Accepting e s = inl (refl, refl)

route-Recorded_example :
    Recorded memory (λ s. s.1) hub (route memory (unwilling ∷ sweep ∷ forgetful ∷ []) 7 hub).1
route-Recorded_example =
    route-Recorded memory (λ s. s.1) (unwilling ∷ sweep ∷ forgetful ∷ []) 7 hub 7 memory-Accepting
      swept

abbrev swept_state : Tracked integers memory (Unit {0})
swept_state = record {
  manager = update_port "P1" (volts 7) one_gate;
  updates = 1;
  writes = 1;
  store = (none, 7 ∷ []);
  world = tt;
}
