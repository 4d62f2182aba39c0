-- ===== src/Registry/Examples.antt =====
-- A registry for sweeps of one axis, on a dispatcher whose world lists the calls.
use falcon_instrument_hub.Prelude.{
  ℕ, String, ◌≡◌, refl, false, none, some, List, [], ◌∷◌, comparable_nat, comparable_string, ok,
}
use falcon_instrument_hub.Prelude.Int.{ℤ, pos}
use falcon_instrument_hub.Prelude.Maps.{GoMap, lookup, insert, has}
use falcon_instrument_hub.Buffer.Examples.{integers}
use falcon_instrument_hub.Planning.{supports}
use falcon_instrument_hub.Planning.Examples.{line_at, target}
use falcon_instrument_hub.Registry.{
  Runner, PrimitiveMeasurement, build_measurement_registry, run_primitive, release_results,
}
use falcon_instrument_hub.Registry.Choice.{unavailable, run_primitive-available}

abbrev dispatcher : Runner String ℕ String (List String)
dispatcher = record {
  run_all = λ script vs w. (record { id = "m1"; failure = none; calls = 5 } ∷ [], script ∷ w);
  release = some (λ id w. id ∷ w);
}

abbrev sweep_line : PrimitiveMeasurement integers String ℕ ℤ String (List String)
sweep_line = record {
  script = "measure_1D_buffered";
  encoder = some (λ input. ok ("setters" ∷ []));
  decoder = some (λ calls input points w. (ok ((target 3, pos calls ∷ []) ∷ []), "decoded" ∷ w));
}

abbrev table : GoMap ℕ (PrimitiveMeasurement integers String ℕ ℤ String (List String))
table = (1, sweep_line) ∷ []

built_for_lines :
    build_measurement_registry (1 ∷ []) (some dispatcher) table ≡ ok (table, dispatcher)
unfolding build_measurement_registry has lookup insert
built_for_lines = refl

-- The buffers of the job are released after the decoder, and the samples are returned.
runs_and_releases :
    run_primitive (table, dispatcher) (line_at (pos 1)) [] []
    ≡ (ok ((target 3, pos 5 ∷ []) ∷ []), "m1" ∷ "decoded" ∷ "measure_1D_buffered" ∷ [])
unfolding run_primitive lookup release_results
runs_and_releases = refl

run_primitive-available_example :
    unavailable (run_primitive (table, dispatcher) (line_at (pos 1)) [] []).0 ≡ false
run_primitive-available_example =
    run_primitive-available (1 ∷ []) dispatcher table (table, dispatcher) (line_at (pos 1)) [] []
      built_for_lines (unfold supports in refl)
