-- ===== src/Planning/Execution.antt =====
-- runtime/internal/cartesianmeasure/planner.go, Execute of NativePlan and NestedPlan: the tree of
-- plans against the sequence of its primitive measurements.
use falcon_instrument_hub.Prelude.{
  ◌≡◌, refl, sym, ap, subst, ◌∙◌, List, [], ◌∷◌, ◌++◌, append_assoc, append-nil, comparable_nat,
  comparable_string, Result, ok, err, and_then, and_then_ok, ok_injective,
}
use falcon_instrument_hub.Prelude.Floats.{Floats}
use falcon_instrument_hub.Prelude.Maps.{GoMap, Distinct, lookup}
use falcon_instrument_hub.Samples.{Target, comparable_target}
use falcon_instrument_hub.Primitives.{PrimitiveMeasurementInput}
use falcon_instrument_hub.Planning.{
  Plan, Plans, native_plan, nested_plan, nil, cons, samples, samples_or_none, merge, execute,
  execute_children,
}
use falcon_instrument_hub.Planning.Merge.{merge-Distinct, samples-merge}

module _ {F : Floats} where
  -- The primitive measurements of a plan, from left to right.
  unfoldable mutual
    pub leaves : Plan F → List (PrimitiveMeasurementInput F)
    leaves (native_plan input fixed) = input ∷ []
    leaves (nested_plan children shape) = all_leaves children

    pub all_leaves : Plans F → List (PrimitiveMeasurementInput F)
    all_leaves nil = []
    all_leaves (cons p ps) = leaves p ++ all_leaves ps

module _ {W G : Type 0} where
  -- `f` on the value of a call.
  abbrev pub map_value : {X Y : Type 0} → (X → Y) → Result G X × W → Result G Y × W
  map_value f r = and_then r (λ x w. (ok (f x), w))

  and_then_same :
      {X Y : Type 0}
      → (r : Result G X × W) (k l : X → W → Result G Y × W)
      → ((x : X) (w : W) → r.0 ≡ ok x → k x w ≡ l x w)
      → and_then r k ≡ and_then r l
  and_then_same (ok x, w) k l h = h x w refl
  and_then_same (err e, w) k l h = refl

  and_then_assoc :
      {X Y Z : Type 0}
      → (r : Result G X × W) (k : X → W → Result G Y × W) (l : Y → W → Result G Z × W)
      → and_then (and_then r k) l ≡ and_then r (λ x w. and_then (k x w) l)
  and_then_assoc (ok x, w) k l = refl
  and_then_assoc (err e, w) k l = refl

module _ {W G A : Type 0} where
  map_value_nil : (r : Result G (List A) × W) → map_value (λ xs. [] ++ xs) r ≡ r
  map_value_nil (ok xs, w) = refl
  map_value_nil (err e, w) = refl

  map_value_append :
      (ys zs : List A) (r : Result G (List A) × W)
      → map_value (λ xs. (ys ++ zs) ++ xs) r
        ≡ map_value (λ xs. ys ++ xs) (map_value (λ xs. zs ++ xs) r)
  map_value_append ys zs (ok xs, w) = rw (append_assoc ys zs xs) refl
  map_value_append ys zs (err e, w) = refl

  map_value_then :
      (ys : List A) (r : Result G (List A) × W) (g : W → Result G (List A) × W)
      → map_value (λ xs. ys ++ xs) (and_then r (λ zs w. map_value (λ xs. zs ++ xs) (g w)))
        ≡ and_then (map_value (λ xs. ys ++ xs) r) (λ zs w. map_value (λ xs. zs ++ xs) (g w))
  map_value_then ys (ok zs, w) g = sym (map_value_append ys zs (g w))
  map_value_then ys (err e, w) g = refl

  map_value_each :
      {X : Type 0}
      → (f : X → List A) (ys : List A) (r : Result G X × W) (g : W → Result G (List A) × W)
      → map_value
          (λ xs. ys ++ xs)
          (and_then (map_value f r) (λ zs w. map_value (λ xs. zs ++ xs) (g w)))
        ≡ and_then r (λ x w. map_value (λ xs. ys ++ xs) (map_value (λ xs. f x ++ xs) (g w)))
  map_value_each f ys (ok x, w) g = refl
  map_value_each f ys (err e, w) g = refl

module _ {F : Floats} {A W G : Type 0} where
  -- The abstract measurement: each input is run in turn, until one fails, and the samples of target
  -- `t` are put in one list.
  abbrev pub run_flat :
      (PrimitiveMeasurementInput F → W → Result G (GoMap Target (List A)) × W)
      → Target
      → List (PrimitiveMeasurementInput F)
      → W
      → Result G (List A) × W
  run_flat run t [] w = (ok [], w)
  run_flat run t (i ∷ is) w =
      and_then (run i w) (λ o w'. map_value (λ xs. samples t o ++ xs) (run_flat run t is w'))

  -- The map that a call of Run returns is a Go map.
  abbrev pub ReturnsMaps :
      (PrimitiveMeasurementInput F → W → Result G (GoMap Target (List A)) × W) → Type 0
  ReturnsMaps run =
      (i : PrimitiveMeasurementInput F) (w : W) (o : GoMap Target (List A))
      → (run i w).0 ≡ ok o
      → Distinct o

module _ {F : Floats} {A W G : Type 0}
    (run : PrimitiveMeasurementInput F → W → Result G (GoMap Target (List A)) × W) where
  run_flat-append :
      (t : Target) (is js : List (PrimitiveMeasurementInput F)) (w : W)
      → run_flat run t (is ++ js) w
        ≡ and_then
            (run_flat run t is w)
            (λ ys w'. map_value (λ xs. ys ++ xs) (run_flat run t js w'))
  run_flat-append t [] js w = sym (map_value_nil (run_flat run t js w))
  run_flat-append t (i ∷ is) js w =
      and_then_same (run i w) _ _ (λ o w' e.
        ap (map_value (λ xs. samples t o ++ xs)) (run_flat-append t is js w')
        ∙ map_value_then (samples t o) (run_flat run t is w') (run_flat run t js))
      ∙ sym (and_then_assoc (run i w) _ _)

  mutual
    unfolding execute execute_children

    execute-Distinct :
        (p : Plan F) (w : W) (o : GoMap Target (List A))
        → ReturnsMaps run
        → (execute run p w).0 ≡ ok o
        → Distinct o
    execute-Distinct (native_plan input fixed) w o maps h = maps input w o h
    execute-Distinct (nested_plan children shape) w o maps h =
        children-Distinct children [] w o maps tt h

    children-Distinct :
        (ps : Plans F) (out : GoMap Target (List A)) (w : W) (o : GoMap Target (List A))
        → ReturnsMaps run
        → Distinct out
        → (execute_children run ps out w).0 ≡ ok o
        → Distinct o
    children-Distinct nil out w o maps d h = rw (sym (ok_injective out o h)) d
    children-Distinct (cons p ps) out w o maps d h =
        let (r, _, e) =
          and_then_ok (execute run p w) (λ r w'. execute_children run ps (merge out r) w') o h in
        children-Distinct ps (merge out r) (execute run p w).1 o maps (merge-Distinct out r d)
          (subst (λ z. z.0 ≡ ok o) e h)

  mutual
    unfolding execute execute_children leaves all_leaves samples samples_or_none lookup

    execute_in :
        (t : Target) (p : Plan F) (w : W)
        → ReturnsMaps run
        → map_value (samples t) (execute run p w) ≡ run_flat run t (leaves p) w
    execute_in t (native_plan input fixed) w maps =
        and_then_same (run input w) _ _ (λ o w' e. rw (append-nil (samples t o)) refl)
    execute_in t (nested_plan children shape) w maps =
        (children_lem t children [] w maps ∙ map_value_nil (run_flat run t (all_leaves children) w))

    children_lem :
        (t : Target) (ps : Plans F) (out : GoMap Target (List A)) (w : W)
        → ReturnsMaps run
        → map_value (samples t) (execute_children run ps out w)
          ≡ map_value (λ xs. samples t out ++ xs) (run_flat run t (all_leaves ps) w)
    children_lem t nil out w maps = rw (append-nil (samples t out)) refl
    children_lem t (cons p ps) out w maps =
        (and_then_assoc (execute run p w) _ _
          ∙ and_then_same (execute run p w) _ _ (λ r w' e.
            children_lem t ps (merge out r) w' maps
            ∙ rw (samples-merge t out r (execute-Distinct p w r maps e)) (
                map_value_append (samples t out) (samples t r) (run_flat run t (all_leaves ps) w')))
          ∙ sym (
              ap (map_value (λ xs. samples t out ++ xs)) (
                run_flat-append t (leaves p) (all_leaves ps) w
                ∙ ap
                    (λ z.
                      and_then z
                        (λ ys w'. map_value (λ xs. ys ++ xs) (run_flat run t (all_leaves ps) w')))
                    (sym (execute_in t p w maps)))
              ∙ map_value_each (samples t) (samples t out) (execute run p w)
                  (run_flat run t (all_leaves ps))))

  -- Execute of a plan performs its primitive measurements from left to right and stops at the first
  -- error: the world, the error, and for each target the samples of all measurements in that
  -- order are those of running the measurements one after the other, for every plan and every
  -- executor whose results are maps.
  pub execute_lem :
      (t : Target) (p : Plan F) (w : W)
      → ReturnsMaps run
      → map_value (samples t) (execute run p w) ≡ run_flat run t (leaves p) w
  execute_lem t p w maps = execute_in t p w maps
