-- ===== src/Planning/Depth.antt =====
-- runtime/internal/cartesianmeasure/planner.go, buildPlan: how many axes a plan reduces depends on
-- the axes that are held, not on their values.
use falcon_instrument_hub.Prelude.{
  ℕ, zero, suc, ◌%◌, ◌≡◌, refl, sym, ap, ◌∙◌, inl, inr, Option, some, List, [], ◌∷◌, arith,
  comparable_nat, comparable_string, Result, ok, ok_injective,
}
use falcon_instrument_hub.Prelude.Floats.{Floats}
use falcon_instrument_hub.Prelude.Maps.{GoMap, insert, has, has-insert}
use falcon_instrument_hub.Ports.{Vocabulary, InstrumentPort, ConnectedPort}
use falcon_instrument_hub.Primitives.{FixedAxes, Waveform, PlanError}
use falcon_instrument_hub.Primitives.Keys.{choice_same}
use falcon_instrument_hub.Planning.Built.{build_children_cons, reduce_axis_ok, build_plan_ok}
use falcon_instrument_hub.Planning.{
  Plan, Plans, native_plan, nested_plan, nil, cons, axis_values, first_unfixed, build_children,
  reduce_axis, build_plan,
}

pub some_injective : {A : Type 0} → (a b : A) → ◌≡◌ {A = Option A} (some a) (some b) → a ≡ b
some_injective a b h = cc h

module _ {F : Floats} where
  -- The number of axes that a plan has reduced.
  unfoldable mutual
    pub depth : Plan F → ℕ
    depth (native_plan input fixed) = 0
    depth (nested_plan children shape) = suc (first_depth children)

    pub first_depth : Plans F → ℕ
    first_depth nil = 0
    first_depth (cons p ps) = depth p

module _ {A L : Type 0} where
  first_unfixed_same :
      (i : ℕ) (axes : List L) (fixed held : GoMap ℕ A)
      → ((k : ℕ) → has k fixed ≡ has k held)
      → first_unfixed i axes fixed ≡ first_unfixed i axes held
  unfolding first_unfixed has
  first_unfixed_same i [] fixed held same = refl
  first_unfixed_same i (l ∷ rest) fixed held same =
      ground (arith, same (i % 256), first_unfixed_same (suc i) rest fixed held same)

module _ {A : Type 0} where
  pub insert_same :
      (a : ℕ) (x y : A) (fixed held : GoMap ℕ A)
      → ((k : ℕ) → has k fixed ≡ has k held)
      → (k : ℕ) → has k (insert a x fixed) ≡ has k (insert a y held)
  insert_same a x y fixed held same k =
      rw (has-insert a k x fixed, has-insert a k y held, same k) refl

module _ {F : Floats} {V : Vocabulary} {E : Type 0} where
  -- Two maps that hold the same axes are given plans of the same depth.
  abbrev pub SameDepth : (FixedAxes F → Result (PlanError V E) (Plan F)) → Type 0
  SameDepth child =
      (a b : FixedAxes F) (p q : Plan F)
      → ((k : ℕ) → has k a ≡ has k b)
      → child a ≡ ok p
      → child b ≡ ok q
      → depth p ≡ depth q

  children_depth :
      (child : FixedAxes F → Result (PlanError V E) (Plan F)) (axis : ℕ) (fixed held : FixedAxes F)
      (xs : List F.Float64) (ps qs : Plans F)
      → SameDepth child
      → ((k : ℕ) → has k fixed ≡ has k held)
      → build_children child axis fixed xs ≡ ok ps
      → build_children child axis held xs ≡ ok qs
      → first_depth ps ≡ first_depth qs
  unfolding build_children first_depth
  children_depth child axis fixed held [] ps qs each same h k =
      rw (sym (ok_injective nil ps h), sym (ok_injective nil qs k)) refl
  children_depth child axis fixed held (x ∷ xs) ps qs each same h k =
      let (p, rs, hp, _, e) = build_children_cons child axis fixed x xs ps h in
      let (q, ts, kq, _, f) = build_children_cons child axis held x xs qs k in
      rw (e, f)
        (each (insert axis x fixed) (insert axis x held) p q (insert_same axis x x fixed held same)
          hp kq)

  reduce_depth :
      (child : FixedAxes F → Result (PlanError V E) (Plan F)) (waveform : Waveform F V E)
      (fixed held : FixedAxes F) (found : Option ℕ) (p q : Plan F)
      → SameDepth child
      → ((k : ℕ) → has k fixed ≡ has k held)
      → reduce_axis child waveform fixed found ≡ ok p
      → reduce_axis child waveform held found ≡ ok q
      → depth p ≡ depth q
  unfolding depth
  reduce_depth child waveform fixed held found p q each same h k =
      let (a, xs, ps, s, ha, hx, hps, e) = reduce_axis_ok child waveform fixed found p h in
      let (b, ys, qs, t, kb, ky, kqs, f) = reduce_axis_ok child waveform held found q k in
      let ab : b ≡ a = some_injective b a (sym kb ∙ ha) in
      let xy : ys ≡ xs =
        ok_injective ys xs (sym ky ∙ (ap (axis_values {V = V} waveform.space) ab ∙ hx)) in
      rw (e, f)
        (ap suc (children_depth child a fixed held xs ps qs each same hps (rw (ab, xy) at kqs)))

module _ {F : Floats} {V : Vocabulary} {E : Type 0} (getters : List (InstrumentPort V))
    (waveform : Waveform F V E) (ports : Option (List (ConnectedPort V)))
    (dimensions : List ℕ) where
  -- Two plans that hold the same axes, at whatever values, reduce equally many axes more.
  pub depth_same :
      (fuel : ℕ) → SameDepth (λ held. build_plan fuel getters waveform ports held dimensions)
  depth_same zero fixed held p q same h k = unfold build_plan in cc h
  depth_same (suc fuel) fixed held p q same h k =
      let (a, ha, left) = build_plan_ok getters waveform ports dimensions fuel fixed p h in
      let (b, kb, right) = build_plan_ok getters waveform ports dimensions fuel held q k in
      let e : a.choice ≡ b.choice = choice_same getters waveform fixed held ports a b same ha kb in
      elim left [
        | inl (y, f) ↦ elim right [
          | inl (_, g) ↦ unfold depth in rw (f, g) refl
          | inr (n, _) ↦ cc (y, n, e)
        ]
        | inr (n, r) ↦ elim right [
          | inl (y, _) ↦ cc (y, n, e)
          | inr (_, s) ↦
              reduce_depth _ waveform fixed held (first_unfixed 0 waveform.axes fixed) p q
                (depth_same fuel) same r
                (rw (sym (first_unfixed_same 0 waveform.axes fixed held same)) at s)
        ]
      ]
