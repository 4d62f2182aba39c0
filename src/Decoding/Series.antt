-- ===== src/Decoding/Series.antt =====
-- Decode: one series for each specification, of the size that its shape declares.
use falcon_instrument_hub.Prelude.{
  ℕ, suc, String, ◌≡◌, refl, sym, ap, subst, ◌∙◌, Bool, not, List, [], ◌∷◌, ◌==◌, comparable_nat,
  comparable_string, length, Result, ok, err, guard, nat_same, nat_same_iff, bind_ok, wrap_ok,
  and_then_ok, guard_ok, ok_injective,
}
use falcon_instrument_hub.Prelude.Int.{comparable_int}
use falcon_instrument_hub.Prelude.Floats.{Floats}
use falcon_instrument_hub.Jobs.{CallResult}
use falcon_instrument_hub.Samples.{
  DecodeError, SeriesSpec, Instruments, verb_empty, return_name_empty, no_calls, wrong_length,
  in_series,
}
use falcon_instrument_hub.Decoding.{
  SampleSeries, shape_size, series_of, checked, collected, collect, decode_series, decode_from,
  decode,
}
use falcon_instrument_hub.Decoding.Shapes.{HasSize, shape_size-HasSize}

module _ {F : Floats} where
  -- The series is of the target, the unit and the shape of its specification, and has a sample for
  -- each point of the shape.
  abbrev pub Fits : SeriesSpec → SampleSeries F → Type 0
  Fits spec s =
      (s.target ≡ spec.target)
      × (s.unit ≡ spec.unit)
      × (s.shape ≡ spec.shape)
      × HasSize s.shape (length s.samples)

  -- One series for each specification, in their order.
  abbrev pub AllFit : List SeriesSpec → List (SampleSeries F) → Type 0
  AllFit [] [] = Unit
  AllFit (spec ∷ specs) (s ∷ ss) = Fits spec s × AllFit specs ss
  AllFit _ _ = ⊥

module _ {F : Floats} (I : Instruments F) where
  checked-HasSize : (spec : SeriesSpec) (n : ℕ) → checked I spec ≡ ok n → HasSize spec.shape n
  unfolding checked
  checked-HasSize spec n h =
      let (m, e, h') = bind_ok (shape_size spec.shape) _ n h in
      let (u, v, h'') = bind_ok (guard (not (spec.verb == "")) verb_empty) _ n h' in
      let (u', v', h''') =
        bind_ok (guard (not (spec.return_name == "")) return_name_empty) _ n h'' in
      subst (HasSize spec.shape) (ok_injective m n h''')
        ((shape_size-HasSize {E = I.Failure} spec.shape m).0 e).1

  series_of-Fits :
      (spec : SeriesSpec) (n : ℕ) (m : ℕ × List F.Float64) (s : SampleSeries F)
      → HasSize spec.shape n
      → series_of I spec n m ≡ ok s
      → Fits spec s
  unfolding series_of
  series_of-Fits spec n (k, xs) s z h =
      let (u, e, h') = bind_ok (guard (not (nat_same k 0)) no_calls) _ s h in
      let (u', e', h'') =
        bind_ok (guard (nat_same (length xs) n) (wrong_length (length xs) n)) _ s h' in
      let same = (nat_same_iff (length xs) n).0 (guard_ok _ _ u' e') in
      subst (Fits spec) (ok_injective _ s h'')
        (refl, refl, refl, subst (HasSize spec.shape) (sym same) z)

  collected-Fits :
      (consumer : Bool) (id : String) (calls : List (CallResult F)) (spec : SeriesSpec)
      (x : Result (DecodeError I.Failure) ℕ) (w : I.World) (s : SampleSeries F)
      → ((n : ℕ) → x ≡ ok n → HasSize spec.shape n)
      → (collected I consumer id calls spec x w).0 ≡ ok s
      → Fits spec s
  unfolding collected
  collected-Fits consumer id calls spec (err e) w s k h = cc
  collected-Fits consumer id calls spec (ok n) w s k h =
      let (m, e, h') =
        and_then_ok (collect I consumer id spec calls w) (λ m w'. (series_of I spec n m, w')) s h in
      series_of-Fits spec n m s (k n refl) (sym (ap (λ y. y.0) h') ∙ h)

  decode_series-Fits :
      (consumer : Bool) (id : String) (calls : List (CallResult F)) (spec : SeriesSpec)
      (w : I.World) (s : SampleSeries F)
      → (decode_series I consumer id calls spec w).0 ≡ ok s
      → Fits spec s
  unfolding decode_series
  decode_series-Fits consumer id calls spec w s h =
      collected-Fits consumer id calls spec (checked I spec) w s (checked-HasSize spec) h

  decode_from-AllFit :
      (i : ℕ) (consumer : Bool) (id : String) (calls : List (CallResult F))
      (specs : List SeriesSpec) (w : I.World) (ss : List (SampleSeries F))
      → (decode_from I i consumer id calls specs w).0 ≡ ok ss
      → AllFit specs ss
  unfolding decode_from
  decode_from-AllFit i consumer id calls [] w [] h = tt
  decode_from-AllFit i consumer id calls [] w (s ∷ ss) h = cc
  decode_from-AllFit i consumer id calls (spec ∷ specs) w ss h =
      let (s, e, h') = and_then_ok _ _ ss h in
      let (rest, e', h'') = and_then_ok _ _ ss (sym (ap (λ y. y.0) h') ∙ h) in
      let both : AllFit (spec ∷ specs) (s ∷ rest) = (
        decode_series-Fits consumer id calls spec w s (wrap_ok (in_series i) _ s e),
        decode_from-AllFit (suc i) consumer id calls specs _ rest e',
      ) in
      subst (AllFit (spec ∷ specs))
        (ok_injective (s ∷ rest) ss (sym (ap (λ y. y.0) (h' ∙ h'')) ∙ h)) both

  -- Decode that returns no error returns one series for each specification, in their order: each
  -- has the target, the unit and the shape of its specification, every axis of the shape is
  -- positive, and the samples are as many as the product of the axes, which an int holds.
  pub decode-AllFit :
      (consumer : Bool) (id : String) (outcome : Result I.Failure (List (CallResult F)))
      (specs : List SeriesSpec) (w : I.World) (ss : List (SampleSeries F))
      → (decode I consumer id outcome specs w).0 ≡ ok ss
      → AllFit specs ss
  unfolding decode
  decode-AllFit consumer id (err e) specs w ss h = cc
  decode-AllFit consumer id (ok calls) [] w ss h = cc
  decode-AllFit consumer id (ok calls) (spec ∷ specs) w ss h =
      decode_from-AllFit 0 consumer id calls (spec ∷ specs) w ss h
