-- ===== src/Jobs.antt =====
-- runtime/internal/instrumentserver/client.go: a measurement as a job of the script server, from
-- the request built out of the variables to the call results. The daemon behind the gRPC stubs
-- is a parameter: its answers, and the clock between them.
pub mod Requests
pub mod Panics
pub mod Waiting
pub mod Examples
use falcon_instrument_hub.Prelude.{
  ℕ, zero, suc, ◌+◌, ◌-◌, ◌*◌, ◌/◌, ◌%◌, ◌^◌, ◌≤◌, ◌<◌, String, ◌≡◌, refl, sym, ap, subst, fun_ext,
  ◌∙◌, ◌≢◌, ◌↔◌, ◌⊎◌, inl, inr, Bool, true, false, not, ◌&&◌, ◌||◌, Option, none, some, List, [],
  ◌∷◌, ◌++◌, map, append_assoc, append-nil, map-append, arith, ltb, leb, if◌then◌else◌, ltb→lt,
  leb→le, Bool-cases, Option-cases, Comparable, ◌==◌, comparable_nat, comparable_string, ==_iff,
  ==_refl, length, get_elem?, set, replicate, length-append, length-map, All, All-map, All-both,
  All-append, sum, product, Result, ok, err, ◌>>=◌, ◌>>◌, wrap, guard, is_ok, Result-cases,
  and_then, nat_same, nat_same_iff, bind_ok, wrap_ok, and_then_ok, guard_ok, ok_injective,
}
use falcon_instrument_hub.Prelude.Int.{ℤ, pos, negsuc}
use falcon_instrument_hub.Prelude.Floats.{Floats}
use falcon_instrument_hub.Prelude.Maps.{GoMap, insert, lookup}
use falcon_instrument_hub.Values.{
  int64_of_uint, Value, Wire, EncodeError, LuaType, to_grpc, from_grpc, lua_type, nil, string,
  data_buffer,
}

pub data JobStatus : Type 0 where
  pending running completed failed cancelled canceling : JobStatus

-- The errors of Measure; `rpc` is one that a gRPC call or the daemon's answer carried.
pub data JobError (Failure : Type 0) : Type 0 where
  rpc : Failure → JobError Failure
  encoding : String → EncodeError → JobError Failure
  job_timeout : ℕ → JobError Failure
  job_ended : ℕ → JobStatus → JobError Failure

module _ (F : Floats) where
  pub record MeasureVariable : Type 0 where
    pub name : String
    pub value : Value F

  pub record ReturnValue : Type 0 where
    pub name : String
    pub value : Value F
    pub unit : String
    pub element_count : ℕ
    pub size : ℤ

  pub record CallResult : Type 0 where
    pub instrument : String
    pub channel : ℤ
    pub group : String
    pub verb : String
    pub executed_at_ms : ℤ
    pub returns : List ReturnValue

  -- daemonv1.MeasureJobRequest with its globals and its type manifest.
  pub record JobRequest : Type 0 where
    pub script_path : String
    pub globals : GoMap String (Wire F)
    pub parameters : List (String × LuaType)

  -- daemonv1.CommandResult and its parameters; an absent value is `none`.
  pub record Param : Type 0 where
    pub name : String
    pub type : LuaType
    pub value : Option (Wire F)
    pub unit : String
    pub element_count : ℕ
    pub byte_size : ℕ

  pub record CommandResult : Type 0 where
    pub instrument_name : String
    pub channel : ℤ
    pub group : String
    pub verb : String
    pub executed_at : Option ℤ
    pub params : List Param

timestamp_millis : Option ℤ → ℤ
timestamp_millis none = pos 0
timestamp_millis (some t) = t

module _ {F : Floats} where
  -- The loop over the variables. `none` is the panic of LuaType, which is met only once the value
  -- could be encoded.
  add_typed :
      String
      → Wire F
      → Option LuaType
      → JobRequest F
      → Option (Result (String × EncodeError) (JobRequest F))
  add_typed name w none req = none
  add_typed name w (some t) req = some (
      ok (record req {
        globals = insert name w req.globals;
        parameters = req.parameters ++ (name, t) ∷ [];
      }))

  add_encoded :
      MeasureVariable F
      → Result EncodeError (Wire F)
      → JobRequest F
      → Option (Result (String × EncodeError) (JobRequest F))
  unfolding add_typed
  add_encoded v (err e) req = some (err (v.name, e))
  add_encoded v (ok w) req = add_typed v.name w (lua_type F v.value) req

  pub add_variable :
      MeasureVariable F → JobRequest F → Option (Result (String × EncodeError) (JobRequest F))
  unfolding add_encoded
  add_variable v req = add_encoded v (to_grpc v.value) req

  pub add_variables :
      List (MeasureVariable F)
      → JobRequest F
      → Option (Result (String × EncodeError) (JobRequest F))
  add_variables [] req = some (ok req)
  add_variables (v ∷ vs) req = elim (add_variable v req) [
    | none ↦ none
    | some r ↦ elim r [ err e ↦ some (err e) | ok req' ↦ add_variables vs req' ]
  ]

  unfoldable pub build_measure_job_request :
      String → List (MeasureVariable F) → Option (Result (String × EncodeError) (JobRequest F))
  build_measure_job_request path vs =
      add_variables vs (record { script_path = path; globals = []; parameters = [] })

  decoded : Option (Wire F) → Value F
  decoded none = nil
  decoded (some w) = from_grpc w

  -- A single buffer ID has the string wire form; its declared type tells it from text.
  retyped : LuaType → Value F → Value F
  retyped LuaType.data_buffer_type (string id) = data_buffer id
  retyped _ v = v

  pub return_value : Param F → ReturnValue F
  unfolding decoded retyped int64_of_uint
  return_value p = record {
    name = p.name;
    value = retyped p.type (decoded p.value);
    unit = p.unit;
    element_count = p.element_count % 2 ^ 32;
    size = int64_of_uint p.byte_size;
  }

  call_result : CommandResult F → CallResult F
  unfolding timestamp_millis
  call_result c = record {
    instrument = c.instrument_name;
    channel = c.channel;
    group = c.group;
    verb = c.verb;
    executed_at_ms = timestamp_millis c.executed_at;
    returns = map return_value c.params;
  }

  unfoldable pub measure_job_result_to_call_results : List (CommandResult F) → List (CallResult F)
  unfolding call_result return_value
  measure_job_result_to_call_results cs = map call_result cs

-- An int64 that arithmetic has left its range of wraps around.
wrapped : ℤ → ℤ
unfolding int64_of_uint
wrapped (pos n) = int64_of_uint (n % 2 ^ 64)
wrapped (negsuc n) = int64_of_uint (2 ^ 64 - 1 - n % 2 ^ 64)

times : ℕ → ℤ → ℤ
times k (pos b) = pos (k * b)
times zero (negsuc b) = pos 0
times (suc k) (negsuc b) = negsuc (suc k * suc b - 1)

-- `base` is the timeout of one measurement, in nanoseconds.
unfoldable pub current_measurement_timeout : ℤ → ℤ → ℤ
unfolding wrapped times
current_measurement_timeout (pos zero) base = base
current_measurement_timeout (pos (suc n)) base = wrapped (times (suc n) base)
current_measurement_timeout (negsuc n) base = base

-- defaultMeasurementTimeout
abbrev default_timeout : ℤ
default_timeout = pos (300 * 1000000000)

-- `none` is an error of Atoi; a time.Duration counts nanoseconds.
timeout_of : Option ℤ → ℤ
unfolding wrapped
timeout_of (some (pos (suc n))) = wrapped (pos (suc n * 1000000000))
timeout_of (some (pos zero)) = default_timeout
timeout_of (some (negsuc n)) = default_timeout
timeout_of none = default_timeout

-- The argument is the variable's value after TrimSpace.
unfoldable pub load_measurement_timeout : String → (String → Option ℤ) → ℤ
unfolding timeout_of
load_measurement_timeout value atoi =
    if value == "" then default_timeout else timeout_of (atoi value)

module _ (F : Floats) (Failure : Type 0) where
  -- What a round of the polling loop meets: the clock, and the daemon's answers.
  pub record Poll : Type 0 where
    pub now : ℕ
    pub status : Result Failure JobStatus
    pub result : Result Failure (List (CommandResult F))

  abbrev pub JobResult : Type 0
  JobResult = Result (JobError Failure) (List (CommandResult F))

module _ {F : Floats} {Failure : Type 0} where
  -- The switch over the job's status; `none` is another round of the loop.
  answered :
      ℕ
      → Result Failure (List (CommandResult F))
      → Result Failure JobStatus
      → Option (JobResult F Failure)
  answered job result (err e) = some (err (rpc e))
  answered job result (ok completed) = some (wrap rpc result)
  answered job result (ok failed) = some (err (job_ended job failed))
  answered job result (ok cancelled) = some (err (job_ended job cancelled))
  answered job result (ok canceling) = some (err (job_ended job canceling))
  answered job result (ok _) = none

  -- `time.Now().After(deadline)`, then one status request.
  unfoldable pub poll_once : ℕ → ℕ → Poll F Failure → Option (JobResult F Failure)
  unfolding answered
  poll_once job deadline p =
      if ltb deadline p.now then some (err (job_timeout job)) else answered job p.result p.status

  -- waitForMeasureJob from round k on, over the stream of what its rounds meet, with fuel.
  unfoldable pub wait_from : ℕ → ℕ → ℕ → (ℕ → Poll F Failure) → ℕ → Option (JobResult F Failure)
  wait_from zero job deadline polls k = none
  wait_from (suc fuel) job deadline polls k = elim (poll_once job deadline (polls k)) [
    | some r ↦ some r
    | none ↦ wait_from fuel job deadline polls (suc k)
  ]
