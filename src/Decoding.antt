-- ===== src/Decoding.antt =====
-- runtime/internal/cartesianmeasure/measurement_decoder.go: turning the calls of a measurement into
-- one series of samples for each getter. `W` is the world of the buffers that decoding consumes.
pub mod Shapes
pub mod Series
pub mod Examples
use falcon_instrument_hub.Prelude.{
  ℕ, zero, suc, ◌+◌, ◌-◌, ◌*◌, ◌/◌, ◌%◌, ◌^◌, ◌≤◌, ◌<◌, String, ◌≡◌, refl, sym, ap, subst, fun_ext,
  ◌∙◌, ◌≢◌, ◌↔◌, ◌⊎◌, inl, inr, Bool, true, false, not, ◌&&◌, ◌||◌, Option, none, some, List, [],
  ◌∷◌, ◌++◌, map, append_assoc, append-nil, map-append, arith, ltb, leb, if◌then◌else◌, ltb→lt,
  leb→le, Bool-cases, Option-cases, Comparable, ◌==◌, comparable_nat, comparable_string, ==_iff,
  ==_refl, length, get_elem?, set, replicate, length-append, length-map, All, sum, product, Result,
  ok, err, ◌>>=◌, ◌>>◌, wrap, guard, is_ok, Result-cases, and_then, nat_same, nat_same_iff, bind_ok,
  wrap_ok, and_then_ok, guard_ok, ok_injective,
}
use falcon_instrument_hub.Prelude.Int.{ℤ, pos, negsuc, comparable_int}
use falcon_instrument_hub.Prelude.Floats.{Floats}
use falcon_instrument_hub.Samples.{
  Target, SeriesSpec, DecodeError, measurement_failed, no_specifications, in_series, shape_empty,
  non_positive_axis, shape_too_large, verb_empty, return_name_empty, missing_return,
  repeated_return, no_calls, wrong_length, Instruments, return_samples, convert_samples,
}
use falcon_instrument_hub.Jobs.{CallResult, ReturnValue}

-- The largest int of a 64-bit machine.
abbrev pub max_int : ℕ
max_int = 2 ^ 63 - 1

module _ {E : Type 0} where
  -- The loop of shapeSize over the axes from number `axis` on.
  unfoldable pub size_from : ℕ → ℕ → List ℤ → Result (DecodeError E) ℕ
  size_from axis size [] = ok size
  size_from axis size (negsuc n ∷ ls) = err (non_positive_axis axis (negsuc n))
  size_from axis size (pos zero ∷ ls) = err (non_positive_axis axis (pos 0))
  size_from axis size (pos (suc n) ∷ ls) =
      let rest = size_from (suc axis) (size * suc n) ls in
      if ltb (max_int / suc n) size then err shape_too_large else rest

  unfoldable pub shape_size : List ℤ → Result (DecodeError E) ℕ
  unfolding size_from
  shape_size [] = err shape_empty
  shape_size (l ∷ ls) = size_from 0 1 (l ∷ ls)

module _ {F : Floats} where
  pub matches : CallResult F → SeriesSpec → Bool
  matches call spec =
      (call.instrument == spec.target.instrument)
      && ((call.group == spec.target.group)
          && ((call.channel == spec.target.channel) && (call.verb == spec.verb)))

  -- The returns of that name.
  unfoldable pub named : String → List (ReturnValue F) → List (ReturnValue F)
  named name [] = []
  named name (r ∷ rs) = let rest = named name rs in if r.name == name then r ∷ rest else rest

  unfoldable pub the_only :
      {E : Type 0} → String → List (ReturnValue F) → Result (DecodeError E) (ReturnValue F)
  the_only name [] = err (missing_return name)
  the_only name (r ∷ []) = ok r
  the_only name (r ∷ s ∷ rs) = err (repeated_return (length (r ∷ s ∷ rs)) name)

  -- namedReturn keeps the last return of that name and counts them; with a count of one, the last
  -- is the only one.
  unfoldable pub named_return :
      {E : Type 0} → List (ReturnValue F) → String → Result (DecodeError E) (ReturnValue F)
  unfolding named the_only
  named_return returns name = the_only name (named name returns)

pub record SampleSeries (F : Floats) : Type 0 where
  pub target : Target
  pub unit : ℕ
  pub samples : List F.Float64
  pub shape : List ℤ

module _ {F : Floats} (I : Instruments F) where
  open I use {World, Failure}
  open F use {Float64}

  -- One matching call: the return of that name, its samples, and their conversion.
  samples_of :
      Bool
      → String
      → SeriesSpec
      → Result (DecodeError Failure) (ReturnValue F)
      → World
      → Result (DecodeError Failure) (List Float64) × World
  unfolding return_samples convert_samples
  samples_of consumer id spec (err e) w = (err e, w)
  samples_of consumer id spec (ok r) w =
      and_then (return_samples I consumer id r.value w)
        (λ chunk w'. (convert_samples I chunk r.unit spec.unit, w'))

  -- The loop over the calls: how many matched, and their samples one after the other.
  unfoldable pub collect :
      Bool
      → String
      → SeriesSpec
      → List (CallResult F)
      → World
      → Result (DecodeError Failure) (ℕ × List Float64) × World
  unfolding samples_of matches named_return
  collect consumer id spec [] w = (ok (0, []), w)
  collect consumer id spec (c ∷ cs) w = elim (matches c spec) [
    | true ↦
        and_then (samples_of consumer id spec (named_return c.returns spec.return_name) w)
          (λ chunk w'.
            and_then (collect consumer id spec cs w') (λ m w''. (ok (suc m.0, chunk ++ m.1), w'')))
    | false ↦ collect consumer id spec cs w
  ]

  -- The two checks after the loop.
  unfoldable pub series_of :
      SeriesSpec → ℕ → ℕ × List Float64 → Result (DecodeError Failure) (SampleSeries F)
  series_of spec expected (calls, values) =
      guard (not (nat_same calls 0)) no_calls
      >> (guard (nat_same (length values) expected) (wrong_length (length values) expected)
          >> ok (record {
            target = spec.target;
            unit = spec.unit;
            samples = values;
            shape = spec.shape;
          }))

  -- The checks of a specification, which come before any call. The panic of `make` for a capacity
  -- that no memory holds, which would follow them, is left out.
  unfoldable pub checked : SeriesSpec → Result (DecodeError Failure) ℕ
  unfolding shape_size
  checked spec = shape_size spec.shape >>= λ expected.
      (guard (not (spec.verb == "")) verb_empty
        >> (guard (not (spec.return_name == "")) return_name_empty >> ok expected))

  collected :
      Bool
      → String
      → List (CallResult F)
      → SeriesSpec
      → Result (DecodeError Failure) ℕ
      → World
      → Result (DecodeError Failure) (SampleSeries F) × World
  unfolding collect series_of
  collected consumer id calls spec (err e) w = (err e, w)
  collected consumer id calls spec (ok expected) w =
      and_then (collect consumer id spec calls w) (λ m w'. (series_of spec expected m, w'))

  unfoldable pub decode_series :
      Bool
      → String
      → List (CallResult F)
      → SeriesSpec
      → World
      → Result (DecodeError Failure) (SampleSeries F) × World
  unfolding collected checked
  decode_series consumer id calls spec w = collected consumer id calls spec (checked spec) w

  -- The loop over the specifications from number `i` on.
  unfoldable pub decode_from :
      ℕ
      → Bool
      → String
      → List (CallResult F)
      → List SeriesSpec
      → World
      → Result (DecodeError Failure) (List (SampleSeries F)) × World
  unfolding decode_series
  decode_from i consumer id calls [] w = (ok [], w)
  decode_from i consumer id calls (spec ∷ specs) w =
      let (x, w') = decode_series consumer id calls spec w in
      and_then (wrap (in_series i) x, w')
        (λ s w''.
          and_then (decode_from (suc i) consumer id calls specs w'')
            (λ ss w'''. (ok (s ∷ ss), w''')))

  unfoldable pub decode :
      Bool
      → String
      → Result Failure (List (CallResult F))
      → List SeriesSpec
      → World
      → Result (DecodeError Failure) (List (SampleSeries F)) × World
  unfolding decode_from
  decode consumer id (err e) specs w = (err (measurement_failed e), w)
  decode consumer id (ok calls) [] w = (err no_specifications, w)
  decode consumer id (ok calls) (spec ∷ specs) w = decode_from 0 consumer id calls (spec ∷ specs) w
