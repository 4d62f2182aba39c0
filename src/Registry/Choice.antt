-- ===== src/Registry/Choice.antt =====
-- runtime/internal/cartesianmeasure/primitiveMeasurementRegistry.go: the dimensions that a registry
-- was built for are those that Run can run.
use falcon_instrument_hub.Prelude.{
  ℕ, ◌≡◌, refl, sym, subst, ◌∙◌, ◌⊎◌, inl, inr, Bool, true, false, not, ◌&&◌, ◌||◌, Option, none,
  some, List, [], ◌∷◌, arith, if◌then◌else◌, Bool-cases, ◌==◌, comparable_nat, comparable_string,
  ==_iff, ==_refl, Result, ok, err, ◌>>=◌, wrap, guard, bind_ok, ok_injective,
}
use falcon_instrument_hub.Prelude.Int.{ℤ}
use falcon_instrument_hub.Prelude.Floats.{Floats}
use falcon_instrument_hub.Prelude.Maps.{GoMap, insert, lookup, lookup-insert, has}
use falcon_instrument_hub.Samples.{Target, comparable_target}
use falcon_instrument_hub.Primitives.{PrimitiveMeasurementInput}
use falcon_instrument_hub.Planning.{supports}
use falcon_instrument_hub.Registry.{
  decode_failed, DispatchResult, Runner, RunError, not_available, nil_codec, encode_failed,
  PrimitiveMeasurement, repeated_dimension, incomplete, is_present, is_complete, register, select,
  build_measurement_registry, points_valid, run_encoder, run_decoder, judge_one, judge,
  with_release, run_encoded, run_found, run_primitive,
}

refuses : {E : Type 0} → RunError E → Bool
refuses (not_available n) = true
refuses nil_codec = true
refuses _ = false

module _ {E X : Type 0} where
  -- Whether Run refused a measurement for its dimension, or called a nil encoder or decoder.
  unfoldable pub unavailable : Result (RunError E) X → Bool
  unfolding refuses
  unavailable (ok x) = false
  unavailable (err e) = refuses e

and_parts : (a b c : Bool) → (a && (b && c)) ≡ true → (b ≡ true) × (c ≡ true)
and_parts a b c h = (ground (arith, h), ground (arith, h))

later_supported : (a b : Bool) → (a || b) ≡ true → a ≡ false → b ≡ true
later_supported a b h k = ground (arith, h, k)

chosen :
    {E A : Type 0}
    → (b : Bool) (x : A) (e : E) (m : A) → ◌≡◌ {A = Result E A} (if b then ok x else err e) (ok m)
    → (b ≡ true) × (m ≡ x)
chosen true x e m h = (refl, cc h)
chosen false x e m h = cc h

module _ {F : Floats} {Var D A E W : Type 0} where
  complete_parts :
      (m : PrimitiveMeasurement F Var D A E W)
      → is_complete m ≡ true
      → (is_present m.encoder ≡ true) × (is_present m.decoder ≡ true)
  unfolding is_complete
  complete_parts m h =
      and_parts (not (m.script == "")) (is_present m.encoder) (is_present m.decoder) h

  abbrev IsAvailable : GoMap ℕ (PrimitiveMeasurement F Var D A E W) → ℕ → Type 0
  IsAvailable r d =
      (m : PrimitiveMeasurement F Var D A E W) × (lookup d r ≡ some m) × (is_complete m ≡ true)

  IsAvailable-insert :
      (r : GoMap ℕ (PrimitiveMeasurement F Var D A E W)) (d k : ℕ)
      (m : PrimitiveMeasurement F Var D A E W)
      → is_complete m ≡ true
      → ((d ≡ k) ⊎ IsAvailable r k)
      → IsAvailable (insert d m r) k
  IsAvailable-insert r d k m c (inl e) = (m, lookup-insert d k m r ∙ rw (e, ==_refl k) refl, c)
  IsAvailable-insert r d k m c (inr (n, f, c')) = elim (Bool-cases (d == k)) [
    | inl t ↦ (m, lookup-insert d k m r ∙ rw t refl, c)
    | inr o ↦ (n, lookup-insert d k m r ∙ rw o f, c')
  ]

  register_ok :
      (d : ℕ) (found : Option (PrimitiveMeasurement F Var D A E W))
      (r s : GoMap ℕ (PrimitiveMeasurement F Var D A E W))
      → register d found r ≡ ok s
      → (m : PrimitiveMeasurement F Var D A E W) × (is_complete m ≡ true) × (s ≡ insert d m r)
  unfolding register
  register_ok d none r s h = cc h
  register_ok d (some m) r s h =
      let (t, e) = chosen (is_complete m) (insert d m r) (incomplete d) s h in (m, t, e)

  select-IsAvailable :
      (definitions : GoMap ℕ (PrimitiveMeasurement F Var D A E W)) (dims : List ℕ)
      (r s : GoMap ℕ (PrimitiveMeasurement F Var D A E W)) (k : ℕ)
      → select definitions dims r ≡ ok s
      → ((supports dims k ≡ true) ⊎ IsAvailable r k)
      → IsAvailable s k
  unfolding select supports
  select-IsAvailable definitions [] r s k h (inl t) = cc t
  select-IsAvailable definitions [] r s k h (inr (m, f, c)) =
      (m, rw (sym (ok_injective r s h)) f, c)
  select-IsAvailable definitions (d ∷ ds) r s k h c =
      let (u, _, h1) = bind_ok (guard (not (has d r)) (repeated_dimension d)) _ s h in
      let (n, hn, h2) = bind_ok (register d (lookup d definitions) r) _ s h1 in
      let (m, complete, e) = register_ok d (lookup d definitions) r n hn in
      select-IsAvailable definitions ds n s k h2 (elim c [
        | inl t ↦ elim (Bool-cases (d == k)) [
          | inl same ↦ inr (
              subst (λ z. IsAvailable z k) (sym e)
                (IsAvailable-insert r d k m complete (inl ((==_iff d k).0 same))))
          | inr other ↦ inl (later_supported (d == k) (supports ds k) t other)
        ]
        | inr a ↦
            inr (subst (λ z. IsAvailable z k) (sym e) (IsAvailable-insert r d k m complete (inr a)))
      ])

  built-IsAvailable :
      (dims : List ℕ) (runner : Runner Var D E W)
      (definitions : GoMap ℕ (PrimitiveMeasurement F Var D A E W))
      (s : GoMap ℕ (PrimitiveMeasurement F Var D A E W) × Runner Var D E W) (k : ℕ)
      → build_measurement_registry dims (some runner) definitions ≡ ok s
      → supports dims k ≡ true
      → IsAvailable s.0 k
  unfolding build_measurement_registry
  built-IsAvailable [] runner definitions s k h t = cc h
  built-IsAvailable (d ∷ ds) runner definitions s k h t =
      let (r, hr, e) = bind_ok (select definitions (d ∷ ds) []) _ s h in
      subst (λ z. IsAvailable z.0 k) (ok_injective (r, runner) s e)
        (select-IsAvailable definitions (d ∷ ds) [] r k hr (inl t))

module _ {E X : Type 0} where
  encode_failed-available :
      (n : ℕ) (r : Result E X) → unavailable (wrap (encode_failed n) r) ≡ false
  unfolding unavailable
  encode_failed-available n (ok x) = refl
  encode_failed-available n (err e) = refl

  decode_failed-available :
      (n : ℕ) (r : Result E X) → unavailable (wrap (decode_failed n) r) ≡ false
  unfolding unavailable
  decode_failed-available n (ok x) = refl
  decode_failed-available n (err e) = refl

  bind-available :
      (r : Result (RunError E) (Unit {0})) (next : Result (RunError E) X)
      → unavailable r ≡ false
      → unavailable next ≡ false
      → unavailable (r >>= λ u. next) ≡ false
  unfolding unavailable
  bind-available (ok u) next h k = k
  bind-available (err e) next h k = h

module _ (E : Type 0) where
  points_valid-available :
      (points : GoMap Target ℤ) (ts : List Target)
      → unavailable (points_valid {E = E} points ts) ≡ false
  unfolding points_valid unavailable
  points_valid-available points [] = refl
  points_valid-available points (t ∷ ts) = ground (arith, points_valid-available points ts)

module _ {F : Floats} {Var E : Type 0} where
  run_encoder-available :
      (encoder : Option (PrimitiveMeasurementInput F → Result E (List Var)))
      (input : PrimitiveMeasurementInput F)
      → is_present encoder ≡ true
      → unavailable (run_encoder encoder input) ≡ false
  unfolding run_encoder is_present
  run_encoder-available none input h = cc h
  run_encoder-available (some f) input h = encode_failed-available input.choice (f input)

module _ {F : Floats} {D A E W : Type 0} where
  judge_one-available :
      (failure : Option E)
      (decoder : Option (
        D
        → PrimitiveMeasurementInput F
        → GoMap Target ℤ
        → W
        → Result E (GoMap Target (List A)) × W))
      (calls : D) (input : PrimitiveMeasurementInput F) (points : GoMap Target ℤ) (w : W)
      → is_present decoder ≡ true
      → unavailable (judge_one failure decoder calls input points w).0 ≡ false
  unfolding judge_one run_decoder is_present
  judge_one-available (some e) decoder calls input points w h = unfold unavailable in refl
  judge_one-available none none calls input points w h = cc h
  judge_one-available none (some f) calls input points w h =
      decode_failed-available input.choice (f calls input points w).0

module _ {F : Floats} {Var D A E W : Type 0} where
  judge-available :
      (m : PrimitiveMeasurement F Var D A E W) (results : List (DispatchResult D E))
      (input : PrimitiveMeasurementInput F) (points : GoMap Target ℤ) (w : W)
      → is_present m.decoder ≡ true
      → unavailable (judge m results input points w).0 ≡ false
  unfolding judge
  judge-available m [] input points w h = unfold unavailable in refl
  judge-available m (r ∷ []) input points w h =
      judge_one-available r.failure m.decoder r.calls input points w h
  judge-available m (r ∷ q ∷ more) input points w h = unfold unavailable in refl

  run_encoded-available :
      (m : PrimitiveMeasurement F Var D A E W) (runner : Runner Var D E W)
      (input : PrimitiveMeasurementInput F) (points : GoMap Target ℤ)
      (variables : Result (RunError E) (List Var)) (w : W)
      → unavailable variables ≡ false
      → is_present m.decoder ≡ true
      → unavailable (run_encoded m runner input points variables w).0 ≡ false
  unfolding run_encoded with_release unavailable
  run_encoded-available m runner input points (err e) w h k = h
  run_encoded-available m runner input points (ok vs) w h k =
      judge-available m (runner.run_all m.script vs w).0 input points
        (runner.run_all m.script vs w).1 k

  run_found-available :
      (found : Option (PrimitiveMeasurement F Var D A E W)) (m : PrimitiveMeasurement F Var D A E W)
      (runner : Runner Var D E W) (input : PrimitiveMeasurementInput F) (points : GoMap Target ℤ)
      (w : W)
      → found ≡ some m
      → is_complete m ≡ true
      → unavailable (run_found found runner input points w).0 ≡ false
  unfolding run_found
  run_found-available none m runner input points w e c = cc e
  run_found-available (some n) m runner input points w e c =
      let same : n ≡ m = cc e in
      let (enc, dec) = complete_parts n (rw same c) in
      run_encoded-available n runner input points _ w
        (bind-available (points_valid points input.getters) (run_encoder n.encoder input)
          (points_valid-available E points input.getters)
          (run_encoder-available n.encoder input enc))
        dec

  -- A registry built for some dimensions runs every primitive measurement of those dimensions, which
  -- are the ones that the planner gives an executor: Run never refuses it for its dimension, and
  -- never calls an encoder or a decoder that is nil.
  pub run_primitive-available :
      (dims : List ℕ) (runner : Runner Var D E W)
      (definitions : GoMap ℕ (PrimitiveMeasurement F Var D A E W))
      (r : GoMap ℕ (PrimitiveMeasurement F Var D A E W) × Runner Var D E W)
      (input : PrimitiveMeasurementInput F) (points : GoMap Target ℤ) (w : W)
      → build_measurement_registry dims (some runner) definitions ≡ ok r
      → supports dims input.choice ≡ true
      → unavailable (run_primitive r input points w).0 ≡ false
  unfolding run_primitive
  run_primitive-available dims runner definitions (s, q) input points w h t =
      let (m, found, complete) =
        built-IsAvailable dims runner definitions (s, q) input.choice h t in
      run_found-available (lookup input.choice s) m q input points w found complete
