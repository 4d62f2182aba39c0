-- ===== src/Routing/Examples.antt =====
-- The setting router on concrete requests: one handler of each kind, and a world that is the
-- guard's flag, the voltage of the gate, and the calls made.
use falcon_instrument_hub.Prelude.{
  ℕ, String, ◌≡◌, refl, ◌↔◌, Bool, true, false, none, some, List, [], ◌∷◌, ◌++◌, map,
  comparable_nat, comparable_string, ok,
}
use falcon_instrument_hub.Prelude.Int.{pos}
use falcon_instrument_hub.Ports.{InstrumentPort, Quantity, default_connection}
use falcon_instrument_hub.Ports.Examples.{numbered, gate_port}
use falcon_instrument_hub.Buffer.Examples.{integers}
use falcon_instrument_hub.Prelude.First.{First}
use falcon_instrument_hub.Prelude.Maps.{insert}
use falcon_instrument_hub.Routing.{
  Router, SetterHandler, GetterHandler, SettingRequest, writes_locked, new_router, register_setter,
  register_getter, handle,
}
use falcon_instrument_hub.Routing.Calls.{Call, write, read, Records, Performs}
use falcon_instrument_hub.Routing.Handlers.{CanSet, CanGet}
use falcon_instrument_hub.Routing.Requests.{handle-Performs, succeeds}
use falcon_instrument_hub.Routing.Responses.{Answers, requested, handle-Answers}
use falcon_instrument_hub.Routing.Locking.{handle_refused, Locked}

record Bench : Type 0 where
  locked : Bool
  volts : Quantity integers
  log : List (Call numbered integers)

abbrev gate : InstrumentPort numbered
gate = gate_port default_connection

abbrev setter : SetterHandler numbered integers (Unit {0}) Bench String
setter = record {
  can_set = λ p v ps d. true;
  set = λ p v ps w. (ok tt, record w { volts = v; log = w.log ++ write p v ∷ [] });
}

abbrev getter : GetterHandler numbered integers (Unit {0}) Bench String
getter = record {
  can_get = λ p m ps d. true;
  get = λ p ps m w. (ok w.volts, record w { log = w.log ++ read p ∷ [] });
}

abbrev router : Router numbered integers (Unit {0}) Bench String
router =
    register_getter getter
      (register_setter setter (new_router none (some []) tt (some (λ w. w.locked))))

abbrev volts : ℕ → Quantity integers
volts n = record { value = pos n; unit = 3 }

abbrev bench : Bool → Bench
bench b = record { locked = b; volts = volts 0; log = [] }

abbrev request : SettingRequest numbered integers
request = record { getters = gate ∷ []; setters = (gate, volts 2) ∷ [] }

written_then_read : handle request router (bench false) ≡ (
  ((gate, volts 2) ∷ [], none),
  record { locked = false; volts = volts 2; log = write gate (volts 2) ∷ read gate ∷ [] },
)
unfolding handle new_router register_setter register_getter insert
written_then_read = refl

refused : handle request router (bench true) ≡ (([], some writes_locked), bench true)
unfolding handle new_router register_setter register_getter
refused = refl

setter-First : First (CanSet gate (volts 2) router) router.setters setter
unfolding register_setter register_getter new_router
setter-First = ([], [], refl, tt, refl)

getter-First : First (CanGet gate router) router.getters getter
unfolding register_setter register_getter new_router
getter-First = ([], [], refl, tt, refl)

router-Records : Records (λ w. w.log) router
unfolding register_setter register_getter new_router
router-Records = ((λ p v w. refl, tt), (λ p w. refl, tt))

handle-Performs_example :
    Performs
      (λ w. w.log)
      (map (λ e. write e.0 e.1) request.setters ++ map read request.getters)
      (bench false)
      (succeeds (handle request router (bench false)).0)
      (handle request router (bench false)).1
handle-Performs_example = handle-Performs (λ w. w.log) request router (bench false) router-Records

handle-Answers_example :
    Answers (λ p. requested p request.getters) (handle request router (bench false))
handle-Answers_example = handle-Answers request router (bench false)

handle_refused_example :
    (((handle request router (bench true)).0.1 ≡ some writes_locked)
      ↔ Locked request router (bench true))
    × ((handle request router (bench true) ≡ (([], some writes_locked), bench true))
        ↔ Locked request router (bench true))
handle_refused_example = handle_refused request router (bench true)
