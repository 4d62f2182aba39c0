-- ===== src/Dispatch/Examples.antt =====
-- Measurements over the buffer manager, and two of them at once.
use falcon_instrument_hub.Prelude.{
  ℕ, zero, suc, String, ◌≡◌, refl, ap, false, some, List, [], ◌∷◌, arith, if◌then◌else◌, ◌==◌,
  comparable_nat, comparable_string, get_elem?, ok,
}
use Prim.Native.String
use falcon_instrument_hub.Prelude.Int.{pos}
use falcon_instrument_hub.Values.{data_buffer_array}
use falcon_instrument_hub.Jobs.{CallResult, ReturnValue}
use falcon_instrument_hub.Buffer.{Hub, BufferError, register_buffer}
use falcon_instrument_hub.Buffer.Examples.{integers, counted, empty_hub}
use falcon_instrument_hub.Dispatch.{Services, run_measurement, exec, has_suffix}
use falcon_instrument_hub.Dispatch.Programs.{Runs-exec}
use falcon_instrument_hub.Dispatch.Pool.{advance, begin, Request, Outcome, Pool, start, finished}
use falcon_instrument_hub.Dispatch.Schedules.{run_schedule, run_schedule-Reach}
use falcon_instrument_hub.Dispatch.Numbers.{measurement_ids_differ}
use falcon_instrument_hub.Dispatch.Order.{results_in_order, OutcomeOf}
use falcon_instrument_hub.Dispatch.Numbers.{measurement_ids_differ}

abbrev returned_buffer : ReturnValue integers
returned_buffer = record {
  name = "samples";
  value = data_buffer_array ("a" ∷ "b" ∷ []);
  unit = "V";
  element_count = 2;
  size = pos 16;
}

abbrev call : CallResult integers
call = record {
  instrument = "dmm";
  channel = pos 1;
  group = "";
  verb = "read";
  executed_at_ms = pos 0;
  returns = returned_buffer ∷ [];
}

-- Every script exists, and the script "/s/empty.lua" returns nothing; buffers go to the manager.
abbrev services : Services integers
services = record {
  World = Hub counted;
  Failure = BufferError String;
  stat_path = λ p w. (ok false, w);
  run_script = λ p vs w. if p == "/s/empty.lua" then (ok [], w) else (ok (call ∷ []), w);
  register_buffer = λ requestor id w. register_buffer counted requestor id 0 w;
}

abbrev join_slash : String → String → String
join_slash a b = (String.◌++◌ a (String.◌++◌ "/" b))

-- A rendering by strokes.
abbrev strokes : ℕ → String
strokes zero = ""
strokes (suc n) = String.◌∷◌ "|" (strokes n)

strokes-injective : (m n : ℕ) → strokes m ≡ strokes n → m ≡ n
strokes-injective zero zero h = refl
strokes-injective zero (suc n) h = cc
strokes-injective (suc m) zero h = cc
strokes-injective (suc m) (suc n) h = ap suc (strokes-injective m n (cc h))

abbrev sweep : Request services
sweep = record { script = "sweep"; variables = [] }

abbrev empty : Request services
empty = record { script = "empty.lua"; variables = [] }

sweep_registers :
    (exec services (run_measurement join_slash "/s" "m1" sweep) empty_hub).0
    ≡ record { id = "m1"; outcome = ok (call ∷ []) }
unfolding exec run_measurement register_buffer has_suffix
sweep_registers = refl

abbrev sweep_outcome : Outcome services
sweep_outcome = (exec services (run_measurement join_slash "/s" "m1" sweep) empty_hub).0

abbrev sweep_trace : List (String × String)
sweep_trace = (Runs-exec services (run_measurement join_slash "/s" "m1" sweep) empty_hub).0

abbrev both : List (Request services)
both = empty ∷ sweep ∷ []

-- The second request draws the first number, the first one overtakes it, and both end.
abbrev interleaving : List ℕ
interleaving = 1 ∷ 1 ∷ 0 ∷ 0 ∷ 0 ∷ 0 ∷ 1 ∷ 1 ∷ 1 ∷ 1 ∷ []

abbrev begin_both : Pool services
unfolding start
begin_both = start services join_slash "/s" strokes 0 empty_hub both

abbrev end_both : Pool services
unfolding run_schedule begin advance run_measurement register_buffer has_suffix
end_both = run_schedule services join_slash "/s" strokes interleaving begin_both

empty_entry : get_elem? end_both.results 0 ≡ some (some (record { id = "||"; outcome = ok [] }))
unfolding start run_schedule begin advance run_measurement register_buffer has_suffix
empty_entry = refl

results_in_order_example :
    (n : ℕ) × (r : Outcome services) × (get_elem? end_both.tasks 1 ≡ some (finished n))
    × (get_elem? end_both.results 1 ≡ some (some r))
    × OutcomeOf services join_slash "/s" strokes n sweep r
unfolding start run_schedule begin advance run_measurement register_buffer has_suffix
results_in_order_example =
    results_in_order services join_slash "/s" strokes 0 empty_hub both end_both
      (run_schedule-Reach services join_slash "/s" strokes interleaving begin_both) (tt, (tt, tt)) 1
      sweep refl

sweep_entry :
    get_elem? end_both.results 1 ≡ some (some (record { id = "|"; outcome = ok (call ∷ []) }))
unfolding start run_schedule begin advance run_measurement register_buffer has_suffix
sweep_entry = refl

measurement_ids_differ_example : ◌≡◌ {A = ℕ} 1 1
unfolding start run_schedule begin advance run_measurement register_buffer has_suffix
measurement_ids_differ_example =
    measurement_ids_differ services join_slash "/s" strokes 0 empty_hub both end_both (omega arith)
      strokes-injective
      (run_schedule-Reach services join_slash "/s" strokes interleaving begin_both) (tt, (tt, tt)) 1
      1 sweep sweep refl refl (record { id = "|"; outcome = ok (call ∷ []) })
      (record { id = "|"; outcome = ok (call ∷ []) }) sweep_entry sweep_entry refl
