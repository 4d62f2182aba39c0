-- ===== src/Primitives/Counting.antt =====
-- runtime/internal/cartesianmeasure/planner.go, buildPrimitiveInput: the number of axes.
use falcon_instrument_hub.Prelude.{
  ℕ, suc, ◌+◌, ◌%◌, ◌≡◌, refl, sym, ap, subst, ◌∙◌, inl, inr, Bool, true, false, Option, none, some,
  List, [], ◌∷◌, arith, if◌then◌else◌, Option-cases, ◌==◌, comparable_nat, comparable_string,
  ==_iff, length, ok, bind_ok, ok_injective,
}
use falcon_instrument_hub.Prelude.Floats.{Floats}
use falcon_instrument_hub.Prelude.Maps.{
  GoMap, insert, lookup, has, has-insert, has_of_lookup, has_of_missing,
}
use falcon_instrument_hub.Ports.{Vocabulary, InstrumentPort, ConnectedPort}
use falcon_instrument_hub.Samples.{Target}
use falcon_instrument_hub.Primitives.{
  Input, PrimitiveMeasurementInput, FixedAxes, Waveform, build_getters, build_setters,
  build_primitive_input, count_axes, add_axis,
}

remove : ℕ → List ℕ → List ℕ
remove x [] = []
remove x (y ∷ ys) = let rest = remove x ys in if x == y then rest else y ∷ rest

-- Each number of a list once.
pub distinct : List ℕ → List ℕ
unfolding remove
distinct [] = []
distinct (x ∷ xs) = x ∷ remove x (distinct xs)

without : GoMap ℕ Bool → List ℕ → List ℕ
without seen [] = []
without seen (y ∷ ys) = let rest = without seen ys in if has y seen then rest else y ∷ rest

without-remove :
    (x : ℕ) (seen : GoMap ℕ Bool) (ys : List ℕ)
    → has x seen ≡ true
    → without seen (remove x ys) ≡ without seen ys
unfolding without remove
without-remove x seen [] h = refl
without-remove x seen (y ∷ ys) h = ground (arith, ==_iff x y, h, without-remove x seen ys h)

without-insert :
    (x : ℕ) (seen : GoMap ℕ Bool) (ys : List ℕ)
    → without (insert x true seen) ys ≡ without seen (remove x ys)
unfolding without remove
without-insert x seen [] = refl
without-insert x seen (y ∷ ys) = ground (arith, has-insert x y true seen, without-insert x seen ys)

without-nil : (ys : List ℕ) → without [] ys ≡ ys
unfolding without has lookup
without-nil [] = refl
without-nil (y ∷ ys) = ap (◌∷◌ y) (without-nil ys)

add_if_swept : ℕ → Option ℕ → List ℕ → List ℕ
add_if_swept axis none axes = axes
add_if_swept axis (some n) axes = axis ∷ axes

module _ {F : Floats} where
  -- The axes of the setters that are swept, which are those with a number of points.
  pub swept_axes : GoMap Target (Input F) → List ℕ
  unfolding add_if_swept
  swept_axes [] = []
  swept_axes ((t, i) ∷ rest) = add_if_swept i.axis i.num (swept_axes rest)

add_axis_new :
    (axis n dim : ℕ) (seen : GoMap ℕ Bool)
    → lookup axis seen ≡ none
    → add_axis axis (some n) (seen, dim) ≡ (insert axis true seen, (dim + 1) % 256)
add_axis_new axis n dim seen e = rw (add_axis, e) refl

add_axis_seen :
    (axis n dim : ℕ) (seen : GoMap ℕ Bool) (b : Bool)
    → lookup axis seen ≡ some b
    → add_axis axis (some n) (seen, dim) ≡ (seen, dim)
add_axis_seen axis n dim seen b e = rw (add_axis, e) refl

-- How `dim` and the axes still to be counted add up, before and after one more setter.
Counts : ℕ → List ℕ → GoMap ℕ Bool × ℕ → ℕ → Type 0
Counts d axes s total =
    (e : ℕ) × (s.1 ≡ e % 256) × (e + length (without s.0 (distinct axes)) ≡ d + total)

add_axis-Counts :
    (axis d : ℕ) (num : Option ℕ) (seen : GoMap ℕ Bool) (dim : ℕ) (axes : List ℕ)
    → dim ≡ d % 256
    → Counts d axes
        (add_axis axis num (seen, dim))
        (length (without seen (distinct (add_if_swept axis num axes))))
unfolding without distinct add_if_swept Counts
add_axis-Counts axis d none seen dim axes h = (d, h, refl)
add_axis-Counts axis d (some n) seen dim axes h = elim (Option-cases (lookup axis seen)) [
  | inl e ↦
      let fresh : has axis seen ≡ false = has_of_missing axis seen e in
      let same = ap length (without-insert axis seen (distinct axes)) in
      subst (λ s. Counts d axes s (length (without seen (distinct (axis ∷ axes)))))
        (sym (add_axis_new axis n dim seen e)) (suc d, omega arith, rw fresh (omega arith))
  | inr (b, e) ↦
      let there : has axis seen ≡ true = has_of_lookup axis b seen e in
      let same = ap length (without-remove axis seen (distinct axes) there) in
      subst (λ s. Counts d axes s (length (without seen (distinct (axis ∷ axes)))))
        (sym (add_axis_seen axis n dim seen b e)) (d, h, rw there (omega arith))
]

module _ {F : Floats} where
  count_axes-distinct :
      (m : GoMap Target (Input F)) (seen : GoMap ℕ Bool) (dim d : ℕ)
      → dim ≡ d % 256
      → count_axes m (seen, dim) ≡ (d + length (without seen (distinct (swept_axes m)))) % 256
  unfolding count_axes swept_axes without distinct Counts
  count_axes-distinct [] seen dim d h = rw h (omega arith)
  count_axes-distinct ((t, i) ∷ rest) seen dim d h =
      let (e, k, same) = add_axis-Counts i.axis d i.num seen dim (swept_axes rest) h in
      count_axes-distinct rest (add_axis i.axis i.num (seen, dim)).0
        (add_axis i.axis i.num (seen, dim)).1 e k
      ∙ ap (λ n. n % 256) same

module _ {F : Floats} where
  all_counted :
      (m : GoMap Target (Input F)) → count_axes m ([], 0) ≡ length (distinct (swept_axes m)) % 256
  all_counted m =
      let same = ap length (without-nil (distinct (swept_axes m))) in
      count_axes-distinct m [] 0 0 (omega arith) ∙ ap (λ n. n % 256) (omega arith)

module _ {F : Floats} {V : Vocabulary} {E : Type 0} (getters : List (InstrumentPort V))
    (waveform : Waveform F V E) (fixed : FixedAxes F)
    (ports : Option (List (ConnectedPort V))) where
  -- The number of axes for which a primitive measurement is chosen is the number of different axes
  -- among its setters with a number of points, as a uint8: setters that are coupled on one axis count
  -- once, and setters that are held do not count.
  pub build_primitive_input-distinct :
      (input : PrimitiveMeasurementInput F)
      → build_primitive_input getters waveform fixed ports ≡ ok input
      → input.choice ≡ length (distinct (swept_axes input.setters)) % 256
  unfolding build_primitive_input
  build_primitive_input-distinct input h =
      let (found, _, h1) = bind_ok (build_getters getters ports) _ input h in
      let (setters, _, h2) = bind_ok (build_setters waveform fixed ports) _ input h1 in
      subst (λ z. z.choice ≡ length (distinct (swept_axes z.setters)) % 256)
        (ok_injective _ input h2) (all_counted setters)
