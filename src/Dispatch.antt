-- ===== src/Dispatch.antt =====
-- runtime/internal/dispatcher/dispatcher.go: running Lua measurement scripts and claiming the data
-- buffers that they return. What a measurement does is a `Program`: a tree of the calls that it
-- makes of the file system, of the script server and of the buffer manager, each with the rest
-- of the program for every answer. `exec` runs a program alone; `Pool` below Dispatch runs many
-- at once.
pub mod Answers
pub mod Programs
pub mod Buffers
pub mod Pool
pub mod Order
pub mod Schedules
pub mod Numbers
pub mod Examples
use Prim.Native.String.{◌++◌ as ◌+++◌, len, slice}
use falcon_instrument_hub.Prelude.{
  ℕ, zero, suc, ◌+◌, ◌-◌, ◌*◌, ◌/◌, ◌%◌, ◌^◌, ◌≤◌, ◌<◌, String, ◌≡◌, refl, sym, ap, subst, fun_ext,
  ◌∙◌, ◌≢◌, ◌↔◌, ◌⊎◌, inl, inr, Bool, true, false, not, ◌&&◌, ◌||◌, Option, none, some, List, [],
  ◌∷◌, ◌++◌, map, append_assoc, append-nil, map-append, arith, ltb, leb, if◌then◌else◌, ltb→lt,
  leb→le, Bool-cases, Option-cases, Comparable, ◌==◌, comparable_nat, comparable_string, ==_iff,
  ==_refl, length, get_elem?, set, replicate, length-append, length-map, All, sum, product, Result,
  ok, err, ◌>>◌, wrap, guard, is_ok, Result-cases,
}
use falcon_instrument_hub.Prelude.Floats.{Floats}
use falcon_instrument_hub.Values.{Value, data_buffer, data_buffer_array}
use falcon_instrument_hub.Jobs.{MeasureVariable, CallResult, ReturnValue}

-- `Failure` is an error of the file system, the script server or the buffer manager.
pub data DispatchError (Failure : Type 0) : Type 0 where
  no_scripts_path : DispatchError Failure
  stat_failed : Failure → DispatchError Failure
  is_directory : String → DispatchError Failure
  -- "unable to run measurement: %w"
  unable_to_run : DispatchError Failure → DispatchError Failure
  -- "measure script %s: %w"
  measure_failed : String → Failure → DispatchError Failure
  register_failed : Failure → DispatchError Failure

module _ (F : Floats) (Failure : Type 0) where
  pub data Program (A : Type 0) : Type 0 where
    return : A → Program A
    -- os.Stat, which answers whether the path is a directory
    stat : String → (Result Failure Bool → Program A) → Program A
    measure :
        String
        → List (MeasureVariable F)
        → (Result Failure (List (CallResult F)) → Program A)
        → Program A
    -- RegisterBuffer with the requestor and the buffer
    register : String → String → (Result Failure (Unit {0}) → Program A) → Program A

  -- A call chain that ends in a value or an error.
  abbrev pub Action : Type 0 → Type 0
  Action A = Program (Result (DispatchError Failure) A)

  pub record MeasurementRequest : Type 0 where
    pub script : String
    pub variables : List (MeasureVariable F)

  -- `Results` and `Err`, of which one is set.
  pub record MeasurementResult : Type 0 where
    pub id : String
    pub outcome : Result (DispatchError Failure) (List (CallResult F))

-- strings.HasSuffix
unfoldable pub has_suffix : String → String → Bool
has_suffix s t = leb (len t) (len s) && (slice s (len s - len t) (len s) == t)

pub with_suffix : String → String
unfolding has_suffix
with_suffix name = if has_suffix name ".lua" then name else name +++ ".lua"

module _ {F : Floats} where
  -- The buffer IDs of one returned value.
  unfoldable pub buffer_refs : Value F → List String
  buffer_refs (data_buffer id) = id ∷ []
  buffer_refs (data_buffer_array ids) = ids
  buffer_refs _ = []

module _ {F : Floats} {Failure : Type 0} where
  infixl 5 ◌>>=◌
  pub ◌>>=◌ : {A B : Type 0} → Program F Failure A → (A → Program F Failure B) → Program F Failure B
  return a >>= f = f a
  stat p k >>= f = stat p (λ x. k x >>= f)
  measure p vs k >>= f = measure p vs (λ x. k x >>= f)
  register r id k >>= f = register r id (λ x. k x >>= f)

  found : String → Result Failure Bool → Action F Failure String
  found path (err e) = return (err (stat_failed e))
  found path (ok true) = return (err (is_directory path))
  found path (ok false) = return (ok path)

  -- `join` is filepath.Join.
  pub script_path : (String → String → String) → String → String → Action F Failure String
  unfolding with_suffix found
  script_path join scripts name =
      if scripts == ""
      then return (err no_scripts_path)
      else stat (join scripts (with_suffix name)) (found (join scripts (with_suffix name)))

  -- RegisterBuffer of the measurement's adapter, which supplies the requestor's ID.
  registered : {B : Type 0} → Action F Failure B → Result Failure (Unit {0}) → Action F Failure B
  registered rest (err e) = return (err (register_failed e))
  registered rest (ok u) = rest

  register_all : {B : Type 0} → String → List String → Action F Failure B → Action F Failure B
  unfolding registered
  register_all requestor [] rest = rest
  register_all requestor (id ∷ ids) rest =
      register requestor id (registered (register_all requestor ids rest))

  -- registerBuffers
  pub register_buffers : {B : Type 0} → String → Value F → Action F Failure B → Action F Failure B
  unfolding register_all buffer_refs
  register_buffers requestor v rest = register_all requestor (buffer_refs v) rest

  -- The two loops over the calls and their returns.
  register_returns :
      {B : Type 0} → String → List (ReturnValue F) → Action F Failure B → Action F Failure B
  unfolding register_buffers
  register_returns requestor [] rest = rest
  register_returns requestor (r ∷ rs) rest =
      register_buffers requestor r.value (register_returns requestor rs rest)

  register_calls :
      {B : Type 0} → String → List (CallResult F) → Action F Failure B → Action F Failure B
  unfolding register_returns
  register_calls requestor [] rest = rest
  register_calls requestor (c ∷ cs) rest =
      register_returns requestor c.returns (register_calls requestor cs rest)

  measured :
      String
      → String
      → Result Failure (List (CallResult F))
      → Action F Failure (List (CallResult F))
  unfolding register_calls
  measured requestor script (err e) = return (err (measure_failed script e))
  measured requestor script (ok cs) = register_calls requestor cs (return (ok cs))

  resolved :
      String
      → String
      → List (MeasureVariable F)
      → Result (DispatchError Failure) String
      → Action F Failure (List (CallResult F))
  unfolding measured
  resolved requestor script vs (err e) = return (err (unable_to_run e))
  resolved requestor script vs (ok path) = measure path vs (measured requestor script)

  -- RunMeasurement
  run_script :
      (String → String → String)
      → String
      → String
      → String
      → List (MeasureVariable F)
      → Action F Failure (List (CallResult F))
  unfolding script_path resolved ◌>>=◌
  run_script join scripts requestor script vs =
      script_path join scripts script >>= resolved requestor script vs

  -- runMeasurement
  pub run_measurement :
      (String → String → String)
      → String
      → String
      → MeasurementRequest F Failure
      → Program F Failure (MeasurementResult F Failure)
  unfolding run_script
  run_measurement join scripts id req = run_script join scripts id req.script req.variables >>= λ r.
      return (record { id = id; outcome = r })

-- The services behind the calls, over a world that they change.
pub record Services (F : Floats) : Type 1 where
  pub World : Type 0
  pub Failure : Type 0
  pub stat_path : String → World → Result Failure Bool × World
  pub run_script :
      String → List (MeasureVariable F) → World → Result Failure (List (CallResult F)) × World
  pub register_buffer : String → String → World → Result Failure (Unit {0}) × World

module _ {F : Floats} (S : Services F) where
  open S use {World, Failure}

  -- One program alone, call after call.
  unfoldable pub exec : {A : Type 0} → Program F Failure A → World → A × World
  exec (return a) w = (a, w)
  exec (stat p k) w = let (r, w') = S.stat_path p w in exec (k r) w'
  exec (measure p vs k) w = let (r, w') = S.run_script p vs w in exec (k r) w'
  exec (register requestor id k) w = let (r, w') = S.register_buffer requestor id w in exec (k r) w'
