-- ===== src/Registry.antt =====
-- runtime/internal/cartesianmeasure/primitiveMeasurementRegistry.go: the primitive scripts that an
-- executor can run, and the run of one. `Var` is a variable of a script, `D` what a job returns, `A`
-- a sample and `W` what the dispatcher and the decoders change. Of several requests that run in
-- parallel, Run sends one.
pub mod Choice
pub mod Examples
use falcon_instrument_hub.Prelude.{
  ℕ, zero, suc, ◌+◌, ◌-◌, ◌*◌, ◌/◌, ◌%◌, ◌^◌, ◌≤◌, ◌<◌, String, ◌≡◌, refl, sym, ap, subst, fun_ext,
  ◌∙◌, ◌≢◌, ◌↔◌, ◌⊎◌, inl, inr, Bool, true, false, not, ◌&&◌, ◌||◌, Option, none, some, List, [],
  ◌∷◌, ◌++◌, map, append_assoc, append-nil, map-append, arith, ltb, leb, if◌then◌else◌, ltb→lt,
  leb→le, Bool-cases, Option-cases, Comparable, ◌==◌, comparable_nat, comparable_string, ==_iff,
  ==_refl, length, get_elem?, set, replicate, length-append, length-map, All, All-map, All-both,
  All-append, sum, product, Result, ok, err, ◌>>=◌, ◌>>◌, wrap, guard, is_ok, Result-cases,
  and_then, nat_same, nat_same_iff, bind_ok, wrap_ok, and_then_ok, guard_ok, ok_injective,
}
use falcon_instrument_hub.Prelude.Int.{ℤ, pos, negsuc}
use falcon_instrument_hub.Prelude.Floats.{Floats}
use falcon_instrument_hub.Prelude.Maps.{GoMap, insert, lookup, has}
use falcon_instrument_hub.Samples.{Target, comparable_target}
use falcon_instrument_hub.Primitives.{PrimitiveMeasurementInput}

pub record DispatchResult (D E : Type 0) : Type 0 where
  pub id : String
  pub failure : Option E
  pub calls : D

-- The dispatcher: RunAll on one request, and ReleaseMeasurementBuffers where it has that method.
pub record Runner (Var D E W : Type 0) : Type 0 where
  pub run_all : String → List Var → W → List (DispatchResult D E) × W
  pub release : Option (String → W → W)

pub data RunError (E : Type 0) : Type 0 where
  not_available : ℕ → RunError E
  negative_points : Target → RunError E
  encode_failed : ℕ → E → RunError E
  wrong_jobs : String → ℕ → RunError E
  run_failed : E → RunError E
  decode_failed : ℕ → E → RunError E
  -- a call of an encoder or a decoder that is nil, which is a panic
  nil_codec : RunError E

pub data RegistryError : Type 0 where
  dispatcher_is_nil : RegistryError
  no_dimensions : RegistryError
  repeated_dimension : ℕ → RegistryError
  not_registered : ℕ → RegistryError
  incomplete : ℕ → RegistryError

module _ (F : Floats) (Var D A E W : Type 0) where
  -- A nil encoder or decoder is `none`.
  pub record PrimitiveMeasurement : Type 0 where
    pub script : String
    pub encoder : Option (PrimitiveMeasurementInput F → Result E (List Var))
    pub decoder : Option (
        D → PrimitiveMeasurementInput F → GoMap Target ℤ → W → Result E (GoMap Target (List A)) × W)

is_present : {A : Type 0} → Option A → Bool
is_present none = false
is_present (some x) = true

module _ {F : Floats} {Var D A E W : Type 0} where
  is_complete : PrimitiveMeasurement F Var D A E W → Bool
  unfolding is_present
  is_complete m = not (m.script == "") && (is_present m.encoder && is_present m.decoder)

  register :
      ℕ
      → Option (PrimitiveMeasurement F Var D A E W)
      → GoMap ℕ (PrimitiveMeasurement F Var D A E W)
      → Result RegistryError (GoMap ℕ (PrimitiveMeasurement F Var D A E W))
  unfolding is_complete
  register dim none selected = err (not_registered dim)
  register dim (some m) selected =
      if is_complete m then ok (insert dim m selected) else err (incomplete dim)

  -- The loop over the dimensions.
  select :
      GoMap ℕ (PrimitiveMeasurement F Var D A E W)
      → List ℕ
      → GoMap ℕ (PrimitiveMeasurement F Var D A E W)
      → Result RegistryError (GoMap ℕ (PrimitiveMeasurement F Var D A E W))
  unfolding register
  select definitions [] selected = ok selected
  select definitions (dim ∷ dims) selected =
      guard (not (has dim selected)) (repeated_dimension dim) >>= λ u.
      (register dim (lookup dim definitions) selected >>= λ s. select definitions dims s)

  -- buildMeasurementRegistry
  unfoldable pub build_measurement_registry :
      List ℕ
      → Option (Runner Var D E W)
      → GoMap ℕ (PrimitiveMeasurement F Var D A E W)
      → Result RegistryError (GoMap ℕ (PrimitiveMeasurement F Var D A E W) × Runner Var D E W)
  unfolding select
  build_measurement_registry dims none definitions = err dispatcher_is_nil
  build_measurement_registry [] (some runner) definitions = err no_dimensions
  build_measurement_registry (d ∷ ds) (some runner) definitions =
      select definitions (d ∷ ds) [] >>= λ selected. ok (selected, runner)

is_negative : Option ℤ → Bool
is_negative (some (negsuc n)) = true
is_negative _ = false

-- The loop over the getters.
points_valid : {E : Type 0} → GoMap Target ℤ → List Target → Result (RunError E) (Unit {0})
unfolding is_negative
points_valid points [] = ok tt
points_valid points (t ∷ ts) =
    let rest = points_valid points ts in
    if is_negative (lookup t points) then err (negative_points t) else rest

module _ {D E W : Type 0} where
  release_with : Option (String → W → W) → List (DispatchResult D E) → W → W
  release_with none results w = w
  release_with (some release) [] w = w
  release_with (some release) (r ∷ rs) w = release r.id (release_with (some release) rs w)

module _ {Var D E W : Type 0} where
  -- The deferred calls, the last one first.
  unfoldable pub release_results : Runner Var D E W → List (DispatchResult D E) → W → W
  unfolding release_with
  release_results runner results w = release_with runner.release results w

module _ {F : Floats} {Var E : Type 0} where
  run_encoder :
      Option (PrimitiveMeasurementInput F → Result E (List Var))
      → PrimitiveMeasurementInput F
      → Result (RunError E) (List Var)
  run_encoder none input = err nil_codec
  run_encoder (some encoder) input = wrap (encode_failed input.choice) (encoder input)

module _ {F : Floats} {D A E W : Type 0} where
  run_decoder :
      Option (
        D → PrimitiveMeasurementInput F → GoMap Target ℤ → W → Result E (GoMap Target (List A)) × W)
      → D
      → PrimitiveMeasurementInput F
      → GoMap Target ℤ
      → W
      → Result (RunError E) (GoMap Target (List A)) × W
  run_decoder none calls input points w = (err nil_codec, w)
  run_decoder (some decoder) calls input points w = (
    wrap (decode_failed input.choice) (decoder calls input points w).0,
    (decoder calls input points w).1,
  )

  -- Run on the one result, with its Err.
  judge_one :
      Option E
      → Option (
          D
          → PrimitiveMeasurementInput F
          → GoMap Target ℤ
          → W
          → Result E (GoMap Target (List A)) × W)
      → D
      → PrimitiveMeasurementInput F
      → GoMap Target ℤ
      → W
      → Result (RunError E) (GoMap Target (List A)) × W
  unfolding run_decoder
  judge_one (some e) decoder calls input points w = (err (run_failed e), w)
  judge_one none decoder calls input points w = run_decoder decoder calls input points w

module _ {Var D A E W : Type 0} where
  with_release :
      Runner Var D E W
      → List (DispatchResult D E)
      → Result (RunError E) (GoMap Target (List A)) × W
      → Result (RunError E) (GoMap Target (List A)) × W
  unfolding release_results
  with_release runner results (r, w) = (r, release_results runner results w)

module _ {F : Floats} {Var D A E W : Type 0} where
  -- Run after RunAll, before the deferred calls.
  judge :
      PrimitiveMeasurement F Var D A E W
      → List (DispatchResult D E)
      → PrimitiveMeasurementInput F
      → GoMap Target ℤ
      → W
      → Result (RunError E) (GoMap Target (List A)) × W
  unfolding judge_one
  judge m (r ∷ []) input points w = judge_one r.failure m.decoder r.calls input points w
  judge m results input points w = (err (wrong_jobs m.script (length results)), w)

  run_encoded :
      PrimitiveMeasurement F Var D A E W
      → Runner Var D E W
      → PrimitiveMeasurementInput F
      → GoMap Target ℤ
      → Result (RunError E) (List Var)
      → W
      → Result (RunError E) (GoMap Target (List A)) × W
  unfolding judge with_release
  run_encoded m runner input points (err e) w = (err e, w)
  run_encoded m runner input points (ok variables) w =
      let called = runner.run_all m.script variables w in
      with_release runner called.0 (judge m called.0 input points called.1)

  run_found :
      Option (PrimitiveMeasurement F Var D A E W)
      → Runner Var D E W
      → PrimitiveMeasurementInput F
      → GoMap Target ℤ
      → W
      → Result (RunError E) (GoMap Target (List A)) × W
  unfolding run_encoded points_valid run_encoder
  run_found none runner input points w = (err (not_available input.choice), w)
  run_found (some m) runner input points w =
      run_encoded m runner input points
        (points_valid points input.getters >>= λ u. run_encoder m.encoder input) w

  -- (*measurementRegistry).Run
  unfoldable pub run_primitive :
      GoMap ℕ (PrimitiveMeasurement F Var D A E W) × Runner Var D E W
      → PrimitiveMeasurementInput F
      → GoMap Target ℤ
      → W
      → Result (RunError E) (GoMap Target (List A)) × W
  unfolding run_found
  run_primitive (measurements, runner) input points w =
      run_found (lookup input.choice measurements) runner input points w
