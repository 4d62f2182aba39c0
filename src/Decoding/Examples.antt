-- ===== src/Decoding/Examples.antt =====
-- The decoder on a concrete measurement: one buffer that is converted from mV, and one number.
use falcon_instrument_hub.Prelude.{
  ℕ, String, ◌≡◌, refl, ap, ◌≢◌, ◌↔◌, true, List, [], ◌∷◌, ◌++◌, comparable_nat, comparable_string,
  ok, err,
}
use falcon_instrument_hub.Prelude.Int.{pos}
use falcon_instrument_hub.Prelude.Maps.{lookup}
use falcon_instrument_hub.Values.{data_buffer}
use falcon_instrument_hub.Jobs.{CallResult}
use falcon_instrument_hub.Buffer.Examples.{integers}
use falcon_instrument_hub.Samples.{
  Target, SeriesSpec, Instruments, shape_too_large, in_series, wrong_length,
}
use falcon_instrument_hub.Decoding.{SampleSeries, shape_size, decode, max_int}
use falcon_instrument_hub.Decoding.Shapes.{HasSize, shape_size-HasSize}
use falcon_instrument_hub.Decoding.Series.{AllFit, decode-AllFit}

-- Unit 1 is the volt and 2 the millivolt, whose conversion leaves the number; every buffer holds
-- two samples, and the world is the list of the buffers consumed.
abbrev bench : Instruments integers
bench = record {
  World = List String;
  Failure = String;
  Handle = ℕ;
  symbol_to_unit = ("V", 1) ∷ ("mV", 2) ∷ [];
  new_symbol_unit = λ u. ok u;
  is_compatible_with = λ a b. ok true;
  convert_value_to = λ x a b. ok x;
  consume_samples = λ m id w. (ok (pos 4 ∷ pos 5 ∷ []), w ++ id ∷ []);
}

abbrev meter : Target
meter = record { instrument = "Meter1"; group = "analog"; channel = pos 1 }

abbrev two_by_one : SeriesSpec
two_by_one = record {
  target = meter;
  verb = "GET";
  return_name = "v";
  unit = 1;
  shape = pos 2 ∷ pos 1 ∷ [];
}

abbrev reading : CallResult integers
reading = record {
  instrument = "Meter1";
  channel = pos 1;
  group = "analog";
  verb = "GET";
  executed_at_ms = pos 0;
  returns =
      record { name = "v"; value = data_buffer "b1"; unit = "mV"; element_count = 2; size = pos 16 }
      ∷ [];
}

abbrev series : SampleSeries integers
series = record {
  target = meter;
  unit = 1;
  samples = pos 4 ∷ pos 5 ∷ [];
  shape = pos 2 ∷ pos 1 ∷ [];
}

decoded :
    decode bench true "m1" (ok (reading ∷ [])) (two_by_one ∷ []) [] ≡ (ok (series ∷ []), "b1" ∷ [])
unfolding decode lookup
decoded = refl

twice :
    (decode bench true "m1" (ok (reading ∷ reading ∷ [])) (two_by_one ∷ []) []).0
    ≡ err (in_series 0 (wrong_length 4 2))
unfolding decode lookup
twice = refl

too_large : shape_size {E = String} (pos max_int ∷ pos 2 ∷ []) ≡ err shape_too_large
unfolding shape_size
too_large = refl

shape_size-HasSize_example :
    (shape_size {E = String} (pos 2 ∷ pos 1 ∷ []) ≡ ok 2)
    ↔ (((pos 2 ∷ pos 1 ∷ []) ≢ []) × HasSize (pos 2 ∷ pos 1 ∷ []) 2)
shape_size-HasSize_example = shape_size-HasSize (pos 2 ∷ pos 1 ∷ []) 2

decoded_ok : (decode bench true "m1" (ok (reading ∷ [])) (two_by_one ∷ []) []).0 ≡ ok (series ∷ [])
decoded_ok = ap (λ x. x.0) decoded

decode-AllFit_example : AllFit (two_by_one ∷ []) (series ∷ [])
decode-AllFit_example =
    decode-AllFit bench true "m1" (ok (reading ∷ [])) (two_by_one ∷ []) [] (series ∷ []) decoded_ok
