-- ===== src/Primitives/Keys.antt =====
-- runtime/internal/cartesianmeasure/planner.go, buildSetters: which axes are held decides the number
-- of axes of a primitive measurement, the values at which they are held do not.
use falcon_instrument_hub.Prelude.{
  ℕ, suc, ◌+◌, ◌%◌, String, ◌≡◌, refl, sym, ap, subst, ◌∙◌, inl, inr, Bool, true, false, Option,
  none, some, List, [], ◌∷◌, Bool-cases, Option-cases, ◌==◌, comparable_nat, comparable_string,
  get_elem?, ok, wrap, bind_ok, ok_injective,
}
use falcon_instrument_hub.Prelude.Floats.{Floats}
use falcon_instrument_hub.Prelude.Maps.{GoMap, insert, lookup, has}
use falcon_instrument_hub.Ports.{Vocabulary, InstrumentPort, ConnectedPort}
use falcon_instrument_hub.Samples.{Target, comparable_target}
use falcon_instrument_hub.Primitives.{
  Input, PrimitiveMeasurementInput, FixedAxes, Waveform, LabelledDomain, build_getters,
  build_primitive_input, convert_to_target, build_setters, set_axes, set_axis, fix_axis, sweep_axis,
  count_axes, add_axis, direction, points_of, input_from_domain, held_at, Domain, space_failed,
}

-- count_axes reads the skeleton only.
abbrev count_skeleton : GoMap Target (ℕ × Option ℕ) → GoMap ℕ Bool × ℕ → ℕ
count_skeleton [] s = s.1
count_skeleton ((t, (a, n)) ∷ rest) s = count_skeleton rest (add_axis a n s)

abbrev pub is_some : {A : Type 0} → Option A → Bool
is_some none = false
is_some (some x) = true

pub is_some-lookup : {A : Type 0} → (k : ℕ) (m : GoMap ℕ A) → is_some (lookup k m) ≡ has k m
unfolding has
is_some-lookup k m = elim (Option-cases (lookup k m)) [
  | inl e ↦ rw (e, has) refl
  | inr (x, e) ↦ rw (e, has) refl
]

module _ {F : Floats} where
  -- The axis and the number of points of each setter.
  abbrev skeleton : GoMap Target (Input F) → GoMap Target (ℕ × Option ℕ)
  skeleton [] = []
  skeleton ((t, i) ∷ m) = (t, (i.axis, i.num)) ∷ skeleton m

  skeleton-insert :
      (t : Target) (i : Input F) (m : GoMap Target (Input F))
      → skeleton (insert t i m) ≡ insert t (i.axis, i.num) (skeleton m)
  unfolding insert
  skeleton-insert t i [] = refl
  skeleton-insert t i ((u, j) ∷ m) = elim (Bool-cases (u == t)) [
    | inl e ↦ rw e refl
    | inr e ↦ rw e (ap (λ z. (u, (j.axis, j.num)) ∷ z) (skeleton-insert t i m))
  ]

  skeleton-insert_same :
      (t u : Target) (i j : Input F) (m n : GoMap Target (Input F))
      → t ≡ u
      → i.axis ≡ j.axis
      → i.num ≡ j.num
      → skeleton m ≡ skeleton n
      → skeleton (insert t i m) ≡ skeleton (insert u j n)
  skeleton-insert_same t u i j m n s a k e =
      rw (skeleton-insert t i m, skeleton-insert u j n, s, a, k, e) refl

  domain_axis :
      (d : Domain F) (b c : Bool) (num axis : ℕ)
      → (input_from_domain d b num axis).axis ≡ (input_from_domain d c num axis).axis
  unfolding input_from_domain
  domain_axis d true true num axis = refl
  domain_axis d true false num axis = refl
  domain_axis d false true num axis = refl
  domain_axis d false false num axis = refl

  domain_num :
      (d : Domain F) (b c : Bool) (num axis : ℕ)
      → (input_from_domain d b num axis).num ≡ (input_from_domain d c num axis).num
  unfolding input_from_domain
  domain_num d true true num axis = refl
  domain_num d true false num axis = refl
  domain_num d false true num axis = refl
  domain_num d false false num axis = refl

  count_axes-skeleton :
      (m : GoMap Target (Input F)) (s : GoMap ℕ Bool × ℕ)
      → count_axes m s ≡ count_skeleton (skeleton m) s
  unfolding count_axes
  count_axes-skeleton [] s = refl
  count_axes-skeleton ((t, i) ∷ rest) s = count_axes-skeleton rest (add_axis i.axis i.num s)

module _ {V : Vocabulary} {F : Floats} (E : Type 0) where
  fix_axis-skeleton :
      (ls : List (LabelledDomain F V)) (x y : F.Float64) (ports : Option (List (ConnectedPort V)))
      (m n o p : GoMap Target (Input F))
      → skeleton m ≡ skeleton n
      → fix_axis {E = E} ls x ports m ≡ ok o
      → fix_axis {E = E} ls y ports n ≡ ok p
      → skeleton o ≡ skeleton p
  unfolding fix_axis
  fix_axis-skeleton [] x y ports m n o p e h k =
      rw (sym (ok_injective m o h), sym (ok_injective n p k)) e
  fix_axis-skeleton (l ∷ rest) x y ports m n o p e h k =
      let (t, ht, h') = bind_ok (convert_to_target {E = E} l.port ports) _ o h in
      let (u, hu, k') = bind_ok (convert_to_target {E = E} l.port ports) _ p k in
      let same : t ≡ u = ok_injective t u (sym ht ∙ hu) in
      fix_axis-skeleton rest x y ports (insert t (held_at x) m) (insert u (held_at y) n) o p
        (skeleton-insert_same t u (held_at x) (held_at y) m n same refl refl e) h' k'

  sweep_axis-skeleton :
      (ls : List (LabelledDomain F V)) (increasing : Option (GoMap String Bool)) (num axis : ℕ)
      (ports : Option (List (ConnectedPort V))) (m n o p : GoMap Target (Input F))
      → skeleton m ≡ skeleton n
      → sweep_axis {E = E} ls increasing num axis ports m ≡ ok o
      → sweep_axis {E = E} ls increasing num axis ports n ≡ ok p
      → skeleton o ≡ skeleton p
  unfolding sweep_axis
  sweep_axis-skeleton [] increasing num axis ports m n o p e h k =
      rw (sym (ok_injective m o h), sym (ok_injective n p k)) e
  sweep_axis-skeleton (l ∷ rest) increasing num axis ports m n o p e h k =
      let (t, ht, h') = bind_ok (convert_to_target {E = E} l.port ports) _ o h in
      let (u, hu, k') = bind_ok (convert_to_target {E = E} l.port ports) _ p k in
      let (b, _, h'') = bind_ok (direction {E = E} l.port increasing) _ o h' in
      let (c, _, k'') = bind_ok (direction {E = E} l.port increasing) _ p k' in
      let same : t ≡ u = ok_injective t u (sym ht ∙ hu) in
      sweep_axis-skeleton rest increasing num axis ports _ _ o p
        (skeleton-insert_same t u (input_from_domain l.domain b num axis)
          (input_from_domain l.domain c num axis) m n same (domain_axis l.domain b c num axis)
          (domain_num l.domain b c num axis) e)
        h'' k''

module _ {V : Vocabulary} {F : Floats} {E : Type 0} where
  set_axis-skeleton :
      (waveform : Waveform F V E) (ports : Option (List (ConnectedPort V))) (i : ℕ)
      (ls : List (LabelledDomain F V)) (axis : ℕ) (a b : Option F.Float64)
      (m n : GoMap Target (Input F)) (o p : GoMap Target (Input F) × ℕ)
      → is_some a ≡ is_some b
      → skeleton m ≡ skeleton n
      → set_axis {E = E} waveform ports i ls m axis a ≡ ok o
      → set_axis waveform ports i ls n axis b ≡ ok p
      → (skeleton o.0 ≡ skeleton p.0) × (o.1 ≡ p.1)
  unfolding set_axis
  set_axis-skeleton waveform ports i ls axis none (some y) m n o p same e h k = cc same
  set_axis-skeleton waveform ports i ls axis (some x) none m n o p same e h k = cc same
  set_axis-skeleton waveform ports i ls axis (some x) (some y) m n o p same e h k =
      let (m', hm, h') = bind_ok (fix_axis ls x ports m) _ o h in
      let (n', hn, k') = bind_ok (fix_axis ls y ports n) _ p k in
      rw (sym (ok_injective (m', axis) o h'), sym (ok_injective (n', axis) p k'))
        (fix_axis-skeleton E ls x y ports m n m' n' e hm hn, refl)
  set_axis-skeleton waveform ports i ls axis none none m n o p same e h k =
      let (v, hv, h') = bind_ok (wrap space_failed (waveform.space.create_array (i ∷ []))) _ o h in
      let (num, hnum, h'') = bind_ok (points_of i v) _ o h' in
      let (m', hm, h3) =
        bind_ok (sweep_axis ls (get_elem? waveform.increasing i) num axis ports m) _ o h'' in
      let (v', hv', k') =
        bind_ok (wrap space_failed (waveform.space.create_array (i ∷ []))) _ p k in
      let (num', hnum', k'') = bind_ok (points_of i v') _ p k' in
      let (n', hn, k3) =
        bind_ok (sweep_axis ls (get_elem? waveform.increasing i) num' axis ports n) _ p k'' in
      let same_v : v ≡ v' = ok_injective v v' (sym hv ∙ hv') in
      let same_num : num ≡ num' =
        ok_injective num num'
          (sym hnum ∙ subst (λ z. points_of {V = V} {E = E} i z ≡ ok num') (sym same_v) hnum') in
      rw
        (
          sym (ok_injective (m', (axis + 1) % 256) o h3),
          sym (ok_injective (n', (axis + 1) % 256) p k3),
        )
        (
          sweep_axis-skeleton E ls (get_elem? waveform.increasing i) num axis ports m n m' n' e hm (
              subst
                (λ z.
                  sweep_axis {E = E} ls (get_elem? waveform.increasing i) z axis ports n ≡ ok n')
                (sym same_num) hn),
          refl,
        )

  set_axes-skeleton :
      (waveform : Waveform F V E) (fixed held : FixedAxes F)
      (ports : Option (List (ConnectedPort V))) (i : ℕ) (axes : List (List (LabelledDomain F V)))
      (m n : GoMap Target (Input F)) (axis : ℕ) (o p : GoMap Target (Input F))
      → ((k : ℕ) → has k fixed ≡ has k held)
      → skeleton m ≡ skeleton n
      → set_axes waveform fixed ports i axes m axis ≡ ok o
      → set_axes waveform held ports i axes n axis ≡ ok p
      → skeleton o ≡ skeleton p
  unfolding set_axes
  set_axes-skeleton waveform fixed held ports i [] m n axis o p same e h k =
      rw (sym (ok_injective m o h), sym (ok_injective n p k)) e
  set_axes-skeleton waveform fixed held ports i (ls ∷ rest) m n axis o p same e h k =
      let (next, hn, h') =
        bind_ok (set_axis waveform ports i ls m axis (lookup (i % 256) fixed)) _ o h in
      let (then', kn, k') =
        bind_ok (set_axis waveform ports i ls n axis (lookup (i % 256) held)) _ p k in
      let (skeletons, axes) =
        set_axis-skeleton waveform ports i ls axis _ _ m n next then'
          (is_some-lookup (i % 256) fixed ∙ same (i % 256) ∙ sym (is_some-lookup (i % 256) held)) e
          hn kn in
      set_axes-skeleton waveform fixed held ports (suc i) rest next.0 then'.0 next.1 o p same
        skeletons h'
        (subst (λ z. set_axes waveform held ports (suc i) rest then'.0 z ≡ ok p) (sym axes) k')

  -- The number of axes of a primitive measurement depends on which axes are held only.
  pub choice_same :
      (getters : List (InstrumentPort V)) (waveform : Waveform F V E) (fixed held : FixedAxes F)
      (ports : Option (List (ConnectedPort V))) (a b : PrimitiveMeasurementInput F)
      → ((k : ℕ) → has k fixed ≡ has k held)
      → build_primitive_input getters waveform fixed ports ≡ ok a
      → build_primitive_input getters waveform held ports ≡ ok b
      → a.choice ≡ b.choice
  unfolding build_primitive_input build_setters
  choice_same getters waveform fixed held ports a b same h k =
      let (f, hf, h') = bind_ok (build_getters getters ports) _ a h in
      let (s, hs, h'') = bind_ok (set_axes waveform fixed ports 0 waveform.axes [] 0) _ a h' in
      let (g, kg, k') = bind_ok (build_getters getters ports) _ b k in
      let (t, kt, k'') = bind_ok (set_axes waveform held ports 0 waveform.axes [] 0) _ b k' in
      let e : skeleton s ≡ skeleton t =
        set_axes-skeleton waveform fixed held ports 0 waveform.axes [] [] 0 s t same refl hs kt in
      sym (ap (λ z. z.choice) (ok_injective _ a h''))
      ∙ (count_axes-skeleton s ([], 0)
          ∙ ap (λ z. count_skeleton z ([], 0)) e
          ∙ sym (count_axes-skeleton t ([], 0)))
      ∙ ap (λ z. z.choice) (ok_injective _ b k'')
