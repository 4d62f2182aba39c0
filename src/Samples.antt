-- ===== src/Samples.antt =====
-- runtime/internal/cartesianmeasure/measurement_decoder.go: the specification of a series and the
-- decoder's errors, the samples of one returned value, and their conversion to the wanted unit.
use falcon_instrument_hub.Prelude.{
  ℕ, suc, String, ◌≡◌, ◌↔◌, Bool, true, ◌&&◌, ◌||◌, none, some, List, [], ◌∷◌, ◌++◌, arith,
  if◌then◌else◌, Comparable, ◌==◌, comparable_nat, comparable_string, ==_iff, ==_refl, Result, ok,
  err, ◌>>=◌, wrap, guard, and_then, nat_same,
}
use falcon_instrument_hub.Prelude.Int.{ℤ, comparable_int}
use falcon_instrument_hub.Prelude.Floats.{Floats}
use falcon_instrument_hub.Prelude.Maps.{GoMap, lookup}
use falcon_instrument_hub.Values.{Value, float64, int64, data_buffer, data_buffer_array}

-- instrumenttarget.Target
pub record Target : Type 0 where
  pub instrument : String
  pub group : String
  pub channel : ℤ

-- `==` on two targets, the keys of the planner's maps.
abbrev pub same_target : Target → Target → Bool
same_target a b =
    (a.instrument == b.instrument) && ((a.group == b.group) && (a.channel == b.channel))

target_path :
    (a b : Target)
    → (a.instrument ≡ b.instrument) × (a.group ≡ b.group) × (a.channel ≡ b.channel)
    → a ≡ b
target_path a b (i, g, c) = cc (i, g, c)

pub same_target_iff : (a b : Target) → (same_target a b ≡ true) ↔ (a ≡ b)
same_target_iff a b = (
  λ h. target_path a b (
      ground (
        arith,
        ==_iff a.instrument b.instrument,
        ==_iff a.group b.group,
        ==_iff a.channel b.channel,
      )),
  λ h. rw h (ground (arith, ==_refl b.instrument, ==_refl b.group, ==_refl b.channel)),
)

instance abbrev pub comparable_target : Comparable Target
comparable_target = record { equals = same_target; equals_iff = same_target_iff }

pub record SeriesSpec : Type 0 where
  pub target : Target
  pub verb : String
  pub return_name : String
  pub unit : ℕ
  pub shape : List ℤ

-- What went wrong in the decoder; `E` is an error of the measurement, the buffers or the units.
pub data DecodeError (E : Type 0) : Type 0 where
  measurement_failed : E → DecodeError E
  no_specifications : DecodeError E
  -- "decode series %d: %w"
  in_series : ℕ → DecodeError E → DecodeError E
  shape_empty : DecodeError E
  non_positive_axis : ℕ → ℤ → DecodeError E
  shape_too_large : DecodeError E
  verb_empty : DecodeError E
  return_name_empty : DecodeError E
  missing_return : String → DecodeError E
  repeated_return : ℕ → String → DecodeError E
  unsupported_value_type : DecodeError E
  buffer_id_empty : DecodeError E
  consumer_is_nil : DecodeError E
  consume_failed : String → E → DecodeError E
  unknown_unit : String → DecodeError E
  unit_failed : E → DecodeError E
  incompatible_unit : String → ℕ → DecodeError E
  convert_failed : ℕ → E → DecodeError E
  not_finite : ℕ → DecodeError E
  no_calls : DecodeError E
  wrong_length : ℕ → ℕ → DecodeError E

-- The units of falconcore and the buffers of the dispatcher, as the decoder calls them: the table
-- of symbols, the C library's unit handles, and ConsumeMeasurementSamples.
pub record Instruments (F : Floats) : Type 1 where
  pub World : Type 0
  pub Failure : Type 0
  pub Handle : Type 0
  pub symbol_to_unit : GoMap String ℕ
  pub new_symbol_unit : ℕ → Result Failure Handle
  pub is_compatible_with : Handle → Handle → Result Failure Bool
  pub convert_value_to : F.Float64 → Handle → Handle → Result Failure F.Float64
  pub consume_samples : String → String → World → Result Failure (List F.Float64) × World

module _ {F : Floats} (I : Instruments F) where
  open I use {World, Failure, Handle}
  open F use {Float64, is_nan, is_inf, of_int}

  -- `consumer` is false where it is nil.
  unfoldable pub consume_buffer :
      Bool → String → String → World → Result (DecodeError Failure) (List Float64) × World
  consume_buffer consumer measurement_id buffer_id w =
      if buffer_id == ""
      then (err buffer_id_empty, w)
      else (if consumer
          then (
            wrap (consume_failed buffer_id) (I.consume_samples measurement_id buffer_id w).0,
            (I.consume_samples measurement_id buffer_id w).1,
          )
          else (err consumer_is_nil, w))

  -- The loop over a DataBufferArray.
  unfoldable pub consume_buffers :
      Bool → String → List String → World → Result (DecodeError Failure) (List Float64) × World
  unfolding consume_buffer
  consume_buffers consumer measurement_id [] w = (ok [], w)
  consume_buffers consumer measurement_id (id ∷ ids) w =
      and_then (consume_buffer consumer measurement_id id w) (λ chunk w'.
        and_then (consume_buffers consumer measurement_id ids w')
          (λ rest w''. (ok (chunk ++ rest), w'')))

  unfoldable pub return_samples :
      Bool → String → Value F → World → Result (DecodeError Failure) (List Float64) × World
  unfolding consume_buffers
  return_samples consumer measurement_id (float64 x) w = (ok (x ∷ []), w)
  return_samples consumer measurement_id (int64 n) w = (ok (of_int n ∷ []), w)
  return_samples consumer measurement_id (data_buffer id) w =
      consume_buffer consumer measurement_id id w
  return_samples consumer measurement_id (data_buffer_array ids) w =
      consume_buffers consumer measurement_id ids w
  return_samples consumer measurement_id _ w = (err unsupported_value_type, w)

  -- validateFinite from sample `i` on, with the values where it finds nothing.
  finite_from : ℕ → List Float64 → Result (DecodeError Failure) (Unit {0})
  finite_from i [] = ok tt
  finite_from i (x ∷ xs) =
      let rest = finite_from (suc i) xs in if is_nan x || is_inf x then err (not_finite i) else rest

  unfoldable pub validate_finite : List Float64 → Result (DecodeError Failure) (List Float64)
  unfolding finite_from
  validate_finite xs = finite_from 0 xs >>= λ u. ok xs

  -- The conversion loop from sample `i` on.
  convert_from : ℕ → Handle → Handle → List Float64 → Result (DecodeError Failure) (List Float64)
  convert_from i from to [] = ok []
  convert_from i from to (x ∷ xs) = wrap (convert_failed i) (I.convert_value_to x from to) >>= λ y.
      (convert_from (suc i) from to xs >>= λ ys. ok (y ∷ ys))

  convert_compatible :
      String → ℕ → Handle → Handle → List Float64 → Result (DecodeError Failure) (List Float64)
  unfolding convert_from validate_finite
  convert_compatible symbol to_unit from to xs =
      wrap unit_failed (I.is_compatible_with from to) >>= λ b.
      (guard b (incompatible_unit symbol to_unit) >>= λ u.
      (convert_from 0 from to xs >>= λ ys. validate_finite ys))

  convert_units : String → ℕ → ℕ → List Float64 → Result (DecodeError Failure) (List Float64)
  unfolding convert_compatible
  convert_units symbol from to xs =
      if nat_same from to
      then validate_finite xs
      else (wrap unit_failed (I.new_symbol_unit from) >>= λ f.
          (wrap unit_failed (I.new_symbol_unit to) >>= λ t. convert_compatible symbol to f t xs))

  -- convertSamples; the source writes the converted samples over the given ones.
  unfoldable pub convert_samples :
      List Float64 → String → ℕ → Result (DecodeError Failure) (List Float64)
  unfolding convert_units
  convert_samples xs symbol to = elim (lookup symbol I.symbol_to_unit) [
    | none ↦ err (unknown_unit symbol)
    | some from ↦ convert_units symbol from to xs
  ]
