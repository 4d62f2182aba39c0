-- ===== src/Commands/Examples.antt =====
-- The handlers on concrete messages: the services copy the text, and the world is the guard's
-- value at each call of the router and the subjects published to.
use falcon_instrument_hub.Prelude.{
  String, ◌≡◌, refl, ◌⊎◌, Bool, true, false, List, [], ◌∷◌, ◌++◌, if◌then◌else◌, ◌==◌,
  comparable_nat, comparable_string, ok, err,
}
use falcon_instrument_hub.Prelude.Int.{pos}
use falcon_instrument_hub.Commands.{
  HandlerState, HandlerServices, handle_measure_message, handle_setting_message,
}
use falcon_instrument_hub.Commands.Flags.{handle_measure_message_frees}
use falcon_instrument_hub.Commands.Guarding.{Witnesses, handle_measure_message_locks}

abbrev echo : HandlerServices (List Bool × List String) String String String String String
echo = record {
  unmarshal = λ m. ok (record { request = m; timestamp = pos 7; hash = pos 0 });
  from_json = λ r. ok r;
  from_falcon = λ r. if r == "bad" then err "bad" else ok r;
  route = λ q b w. (ok q, (w.0 ++ b ∷ [], w.1));
  new_falcon = λ r. ok r;
  to_json = λ f. ok f;
  marshal_response = λ c j. ok j;
  response_subject = λ t. "response";
  render = λ t. "7";
  stream_publish = λ t j w. (ok tt, (w.0, w.1 ++ t ∷ []));
  publish = λ t j w. (ok tt, (w.0, w.1 ++ t ∷ []));
}

abbrev idle : HandlerState (List Bool × List String)
idle = record { busy = false; writes_locked = false; world = ([], []) }

measured :
    handle_measure_message echo "sweep" idle
    ≡ record idle { world = (true ∷ [], "FALCON.MEASURE_DATA.7" ∷ "response" ∷ []) }
unfolding handle_measure_message
measured = refl

set_once :
    handle_setting_message echo "set" idle ≡ record idle { world = (false ∷ [], "response" ∷ []) }
unfolding handle_setting_message
set_once = refl

unreadable : handle_measure_message echo "bad" idle ≡ idle
unfolding handle_measure_message
unreadable = refl

handle_measure_message_frees_example :
    ((handle_measure_message echo "sweep" idle).busy ≡ false)
    × ((handle_measure_message echo "sweep" idle).writes_locked ≡ false)
handle_measure_message_frees_example = handle_measure_message_frees echo "sweep" idle refl refl

echo-Witnesses : Witnesses echo (λ w. w.0)
echo-Witnesses = ((λ q b w. refl), (λ t j w. refl), λ t j w. refl)

handle_measure_message_locks_example :
    ((handle_measure_message echo "sweep" idle).world.0 ≡ [])
    ⊎ ((handle_measure_message echo "sweep" idle).world.0 ≡ [] ++ true ∷ [])
handle_measure_message_locks_example =
    handle_measure_message_locks echo (λ w. w.0) "sweep" idle echo-Witnesses
