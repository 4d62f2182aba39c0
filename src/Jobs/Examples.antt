-- ===== src/Jobs/Examples.antt =====
-- The job theorems at concrete requests, results and clocks.
use falcon_instrument_hub.Prelude.{
  ℕ, zero, suc, ◌+◌, ◌-◌, ◌*◌, ◌≤◌, String, ◌≡◌, refl, ◌↔◌, false, none, some, [], ◌∷◌, arith,
  comparable_nat, comparable_string, ok,
}
use falcon_instrument_hub.Prelude.Int.{ℤ, pos, negsuc}
use falcon_instrument_hub.Prelude.Floats.{Floats}
use falcon_instrument_hub.Prelude.Maps.{lookup}
use falcon_instrument_hub.Values.{
  LuaType, to_grpc, lua_type, int, int64, float64, data_buffer, i, d, s,
}
use falcon_instrument_hub.Jobs.{
  add_variables, add_variable, poll_once, MeasureVariable, JobRequest, JobStatus, JobResult, Param,
  Poll, pending, completed, build_measure_job_request, return_value, wait_from,
}
use falcon_instrument_hub.Jobs.Requests.{
  Sendable, AllSendable, last_wire, build_measure_job_request-sendable, return_value-buffer,
  declared, declarations,
}
use falcon_instrument_hub.Jobs.Waiting.{Ticks, Completes, wait_from_terminates, wait_from-ok}

abbrev integer_floats : Floats
integer_floats = record {
  Float32 = ℤ;
  Float64 = ℤ;
  widen = λ x. x;
  of_int = λ x. x;
  add = λ x y. x;
  div = λ x y. x;
  is_nan = λ x. false;
  is_inf = λ x. false;
}

abbrev num_steps : MeasureVariable integer_floats
num_steps = record { name = "numSteps"; value = int64 (pos 11) }

abbrev offset : MeasureVariable integer_floats
offset = record { name = "offset"; value = float64 (negsuc 0) }

abbrev wrong_width : MeasureVariable integer_floats
wrong_width = record { name = "channel"; value = int (pos 1) }

num_steps-Sendable : Sendable num_steps
unfolding to_grpc lua_type
num_steps-Sendable = record {
  wire = i (pos 11);
  type = LuaType.int64_type;
  encodes = refl;
  typed = refl;
}

offset-Sendable : Sendable offset
unfolding to_grpc lua_type
offset-Sendable = record {
  wire = d (negsuc 0);
  type = LuaType.double_type;
  encodes = refl;
  typed = refl;
}

build_measure_job_request-sendable_example :
    (r : JobRequest integer_floats) × (build_measure_job_request "/s/sweep.lua"
        (num_steps ∷ offset ∷ [])
      ≡ some (ok r))
    × (r.script_path ≡ "/s/sweep.lua")
    × (declarations r ≡ declared (num_steps ∷ offset ∷ []))
    × ((k : String) → lookup k r.globals ≡ last_wire k (num_steps ∷ offset ∷ []) none)
unfolding AllSendable
build_measure_job_request-sendable_example =
    build_measure_job_request-sendable "/s/sweep.lua" (num_steps ∷ offset ∷ [])
      (num_steps-Sendable, (offset-Sendable, tt))

panics_at_channel : build_measure_job_request "/s/sweep.lua" (num_steps ∷ wrong_width ∷ []) ≡ none
unfolding build_measure_job_request to_grpc lua_type add_variables add_variable
panics_at_channel = refl

abbrev samples : Param integer_floats
samples = record {
  name = "samples";
  type = LuaType.data_buffer_type;
  value = some (s "b7");
  unit = "V";
  element_count = 2;
  byte_size = 16;
}

return_value-buffer_example :
    ((return_value samples).value ≡ data_buffer "b7")
    ↔ ((samples.type ≡ LuaType.data_buffer_type) × (samples.value ≡ some (s "b7")))
return_value-buffer_example = return_value-buffer samples "b7"

-- The clock moves by 25 a round, and the job completes in the second round.
abbrev status_at : ℕ → JobStatus
status_at zero = pending
status_at (suc k) = completed

abbrev polls : ℕ → Poll integer_floats String
polls k = record { now = 100 + 25 * k; status = ok (status_at k); result = ok [] }

polls-Ticks : Ticks 7 300 polls
polls-Ticks k = omega arith

wait_from_terminates_example :
    (r : JobResult integer_floats String) × (wait_from (300 - 100 + 2) 7 300 polls 0 ≡ some r)
wait_from_terminates_example = wait_from_terminates 7 300 polls polls-Ticks

wait_from-ok_example : (j : ℕ) × (0 ≤ j) × Completes 7 300 polls j []
unfolding wait_from poll_once
wait_from-ok_example = wait_from-ok 7 300 polls 5 0 [] refl
