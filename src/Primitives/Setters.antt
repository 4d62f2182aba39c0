-- ===== src/Primitives/Setters.antt =====
-- runtime/internal/cartesianmeasure/planner.go, buildSetters: which setter each target gets.
use falcon_instrument_hub.Prelude.{
  ℕ, suc, ◌+◌, ◌%◌, String, ◌≡◌, refl, sym, ap, subst, ◌∙◌, inl, inr, Bool, true, false, Option,
  none, some, List, [], ◌∷◌, arith, if◌then◌else◌, Option-cases, ◌==◌, comparable_nat,
  comparable_string, ==_refl, length, get_elem?, All, All-map, ok, wrap, bind_ok, wrap_ok,
  ok_injective,
}
use falcon_instrument_hub.Prelude.Floats.{Floats}
use falcon_instrument_hub.Prelude.Maps.{
  GoMap, insert, lookup, has, has-insert, insert-All, has_of_lookup, has_of_missing,
}
use falcon_instrument_hub.Ports.{Vocabulary, InstrumentPort, ConnectedPort}
use falcon_instrument_hub.Samples.{Target, comparable_target}
use falcon_instrument_hub.Primitives.{
  Input, FixedAxes, Waveform, LabelledDomain, ControlArray, convert_to_target, build_setters,
  set_axes, set_axis, fix_axis, sweep_axis, direction, points_of, input_from_domain, held_at,
  space_failed,
}
use falcon_instrument_hub.Primitives.Inversion.{
  index-All, convert_found, direction_known, points_known,
}
use falcon_instrument_hub.Primitives.Expected.{
  swept_before, IsTarget, IsOnAxis, IsSetter, holds, rises, falls, HasSetter,
}

module _ {F : Floats} {V : Vocabulary} {E : Type 0} (waveform : Waveform F V E)
    (fixed : FixedAxes F) (ports : Option (List (ConnectedPort V))) where
  next_swept :
      (i : ℕ)
      → has (i % 256) fixed ≡ false
      → (swept_before fixed i % 256 + 1) % 256 ≡ swept_before fixed (suc i) % 256
  unfolding swept_before
  next_swept i e = rw e (omega arith)

  next_kept :
      (i : ℕ)
      → has (i % 256) fixed ≡ true
      → swept_before fixed i % 256 ≡ swept_before fixed (suc i) % 256
  unfolding swept_before
  next_kept i e = rw e refl

  -- The setters so far are setters of the waveform, and none gets lost.
  Grows : GoMap Target (Input F) → GoMap Target (Input F) → Type 0
  Grows out m = (t : Target) → has t out ≡ true → has t m ≡ true

  Grows-HasSetter :
      (out m : GoMap Target (Input F)) (l : LabelledDomain F V)
      → Grows out m
      → (HasSetter waveform fixed ports) out l
      → (HasSetter waveform fixed ports) m l
  unfolding Grows HasSetter
  Grows-HasSetter out m l g (t, a, h) = (t, a, g t h)

  Grows-insert :
      (t : Target) (x : Input F) (out m : GoMap Target (Input F))
      → Grows (insert t x out) m
      → Grows out m
  unfolding Grows
  Grows-insert t x out m g j h = g j (has-insert t j x out ∙ rw h (both (t == j)))
    where
      both : (b : Bool) → (if b then true else true) ≡ true
      both true = refl
      both false = refl

  inserted :
      (t : Target) (x : Input F) (out m : GoMap Target (Input F))
      → Grows (insert t x out) m
      → has t m ≡ true
  unfolding Grows
  inserted t x out m g = g t (has-insert t t x out ∙ rw (==_refl t) refl)

  target-IsTarget :
      (port : InstrumentPort V) (t : Target)
      → convert_to_target {V = V} {E = E} port ports ≡ ok t
      → (IsTarget waveform fixed ports) port t
  unfolding IsTarget
  target-IsTarget port t h = convert_found {E = E} port ports t h

  fix_axis-IsSetter :
      (i : ℕ) (value : F.Float64) (ls : List (LabelledDomain F V)) (out m : GoMap Target (Input F))
      → lookup (i % 256) fixed ≡ some value
      → All ((IsOnAxis waveform fixed ports) i) ls
      → fix_axis {E = E} ls value ports out ≡ ok m
      → All (IsSetter waveform fixed ports) out
      → All (IsSetter waveform fixed ports) m
        × Grows out m
        × All ((HasSetter waveform fixed ports) m) ls
  unfolding fix_axis Grows HasSetter
  fix_axis-IsSetter i value [] out m held on h a =
      rw (sym (ok_injective out m h)) (a, (λ t k. k), tt)
  fix_axis-IsSetter i value (l ∷ ls) out m held (o, on) h a =
      let (t, found, rest) = bind_ok (convert_to_target l.port ports) _ m h in
      let target = target-IsTarget l.port t found in
      let (b, g, s) = fix_axis-IsSetter i value ls (insert t (held_at value) out) m held on rest (
        insert-All (IsSetter waveform fixed ports) t (held_at value) out
          (holds t i l value o target held) a) in
      (
        b,
        Grows-insert t (held_at value) out m g,
        ((t, target, inserted t (held_at value) out m g), s),
      )

  directed :
      (i : ℕ) (l : LabelledDomain F V) (t : Target) (x : ControlArray F)
      (more : List (ControlArray F)) (m : GoMap String Bool) (b : Bool)
      → (IsOnAxis waveform fixed ports) i l
      → (IsTarget waveform fixed ports) l.port t
      → lookup (i % 256) fixed ≡ none
      → waveform.space.create_array (i ∷ []) ≡ ok (x ∷ more)
      → get_elem? waveform.increasing i ≡ some m
      → lookup l.port.pseudo_name.name m ≡ some b
      → (IsSetter waveform fixed ports)
          (t, input_from_domain l.domain b (length x.values) (swept_before fixed i % 256))
  unfolding input_from_domain
  directed i l t x more m true o g free made inc dir = rises t i l x more m o g free made inc dir
  directed i l t x more m false o g free made inc dir = falls t i l x more m o g free made inc dir

  sweep_axis-IsSetter :
      (i num : ℕ) (x : ControlArray F) (more : List (ControlArray F))
      (ls : List (LabelledDomain F V)) (out m : GoMap Target (Input F))
      → lookup (i % 256) fixed ≡ none
      → waveform.space.create_array (i ∷ []) ≡ ok (x ∷ more)
      → All ((IsOnAxis waveform fixed ports) i) ls
      → num ≡ length x.values
      → sweep_axis {E = E} ls
          (get_elem? waveform.increasing i)
          num
          (swept_before fixed i % 256)
          ports
          out
        ≡ ok m
      → All (IsSetter waveform fixed ports) out
      → All (IsSetter waveform fixed ports) m
        × Grows out m
        × All ((HasSetter waveform fixed ports) m) ls
  unfolding sweep_axis Grows HasSetter
  sweep_axis-IsSetter i num x more [] out m free made on size h a =
      rw (sym (ok_injective out m h)) (a, (λ t k. k), tt)
  sweep_axis-IsSetter i num x more (l ∷ ls) out m free made (o, on) size h a =
      let (t, found, h1) = bind_ok (convert_to_target l.port ports) _ m h in
      let (b, dir, rest) = bind_ok (direction l.port (get_elem? waveform.increasing i)) _ m h1 in
      let (inc, e, k) = direction_known {E = E} l.port (get_elem? waveform.increasing i) b dir in
      let target = target-IsTarget l.port t found in
      let new = input_from_domain l.domain b num (swept_before fixed i % 256) in
      let (c, g, s) =
        sweep_axis-IsSetter i num x more ls (insert t new out) m free made on size rest (
          insert-All (IsSetter waveform fixed ports) t new out
            (subst
              (λ n.
                (IsSetter waveform fixed ports)
                  (t, input_from_domain l.domain b n (swept_before fixed i % 256)))
              (sym size) (directed i l t x more inc b o target free made e k))
            a) in
      (c, Grows-insert t new out m g, ((t, target, inserted t new out m g), s))

  swept-IsSetter :
      (i : ℕ) (coupled : List (LabelledDomain F V)) (out : GoMap Target (Input F))
      (next : GoMap Target (Input F) × ℕ)
      → All ((IsOnAxis waveform fixed ports) i) coupled
      → lookup (i % 256) fixed ≡ none
      → set_axis waveform ports i coupled out (swept_before fixed i % 256) none ≡ ok next
      → All (IsSetter waveform fixed ports) out
      → All (IsSetter waveform fixed ports) next.0
        × Grows out next.0
        × All ((HasSetter waveform fixed ports) next.0) coupled
        × (next.1 ≡ swept_before fixed (suc i) % 256)
  unfolding set_axis
  swept-IsSetter i coupled out next on e h a =
      let (arrays, made, h1) =
        bind_ok (wrap space_failed (waveform.space.create_array (i ∷ []))) _ next h in
      let (num, counted, h2) = bind_ok (points_of i arrays) _ next h1 in
      let (x, more, same, size) = points_known {V = V} {E = E} i arrays num counted in
      let (m, swept, h3) =
        bind_ok
          (sweep_axis coupled (get_elem? waveform.increasing i) num (swept_before fixed i % 256)
            ports out)
          _ next h2 in
      let (b, g, s) =
        sweep_axis-IsSetter i num x more coupled out m e
          (wrap_ok space_failed (waveform.space.create_array (i ∷ [])) arrays made ∙ ap ok same) on
          size swept a in
      let done : (m, (swept_before fixed i % 256 + 1) % 256) ≡ next =
        ok_injective (m, (swept_before fixed i % 256 + 1) % 256) next h3 in
      subst
        (λ z.
          All (IsSetter waveform fixed ports) z.0
          × Grows out z.0
          × All ((HasSetter waveform fixed ports) z.0) coupled
          × (z.1 ≡ swept_before fixed (suc i) % 256))
        done (b, g, s, next_swept i (has_of_missing (i % 256) fixed e))

  kept-IsSetter :
      (i : ℕ) (coupled : List (LabelledDomain F V)) (out : GoMap Target (Input F))
      (next : GoMap Target (Input F) × ℕ) (value : F.Float64)
      → All ((IsOnAxis waveform fixed ports) i) coupled
      → lookup (i % 256) fixed ≡ some value
      → set_axis waveform ports i coupled out (swept_before fixed i % 256) (some value) ≡ ok next
      → All (IsSetter waveform fixed ports) out
      → All (IsSetter waveform fixed ports) next.0
        × Grows out next.0
        × All ((HasSetter waveform fixed ports) next.0) coupled
        × (next.1 ≡ swept_before fixed (suc i) % 256)
  unfolding set_axis
  kept-IsSetter i coupled out next value on e h a =
      let (m, fixes, h1) = bind_ok (fix_axis coupled value ports out) _ next h in
      let (b, g, s) = fix_axis-IsSetter i value coupled out m e on fixes a in
      let done : (m, swept_before fixed i % 256) ≡ next =
        ok_injective (m, swept_before fixed i % 256) next h1 in
      subst
        (λ z.
          All (IsSetter waveform fixed ports) z.0
          × Grows out z.0
          × All ((HasSetter waveform fixed ports) z.0) coupled
          × (z.1 ≡ swept_before fixed (suc i) % 256))
        done (b, g, s, next_kept i (has_of_lookup (i % 256) value fixed e))

  set_axis-IsSetter :
      (i : ℕ) (coupled : List (LabelledDomain F V)) (out : GoMap Target (Input F))
      (next : GoMap Target (Input F) × ℕ)
      → All ((IsOnAxis waveform fixed ports) i) coupled
      → set_axis waveform ports i coupled out (swept_before fixed i % 256) (lookup (i % 256) fixed)
        ≡ ok next
      → All (IsSetter waveform fixed ports) out
      → All (IsSetter waveform fixed ports) next.0
        × Grows out next.0
        × All ((HasSetter waveform fixed ports) next.0) coupled
        × (next.1 ≡ swept_before fixed (suc i) % 256)
  set_axis-IsSetter i coupled out next on h a = elim (Option-cases (lookup (i % 256) fixed)) [
    | inl e ↦ swept-IsSetter i coupled out next on e (rw e at h) a
    | inr (value, e) ↦ kept-IsSetter i coupled out next value on e (rw e at h) a
  ]

  set_axes-IsSetter :
      (i : ℕ) (rest : List (List (LabelledDomain F V))) (out : GoMap Target (Input F)) (axis : ℕ)
      (m : GoMap Target (Input F))
      → axis ≡ swept_before fixed i % 256
      → ((j : ℕ) → get_elem? waveform.axes (i + j) ≡ get_elem? rest j)
      → set_axes waveform fixed ports i rest out axis ≡ ok m
      → All (IsSetter waveform fixed ports) out
      → All (IsSetter waveform fixed ports) m
        × Grows out m
        × All (λ ls. All ((HasSetter waveform fixed ports) m) ls) rest
  unfolding set_axes Grows IsOnAxis
  set_axes-IsSetter i [] out axis m at later h a =
      rw (sym (ok_injective out m h)) (a, (λ t k. k), tt)
  set_axes-IsSetter i (coupled ∷ rest) out axis m at later h a =
      let (next, one, h1) =
        bind_ok (set_axis waveform ports i coupled out axis (lookup (i % 256) fixed)) _ m h in
      let here : get_elem? waveform.axes i ≡ some coupled =
        ap (get_elem? waveform.axes) (omega arith) ∙ later 0 in
      let (b, g, s, at') =
        set_axis-IsSetter i coupled out next
          (index-All ((IsOnAxis waveform fixed ports) i) coupled (λ k l e. (coupled, k, here, e)))
          (rw at at one) a in
      let (c, g', s') =
        set_axes-IsSetter (suc i) rest next.0 next.1 m at'
          (λ j. ap (get_elem? waveform.axes) (omega arith) ∙ later (suc j)) h1 b in
      (
        c,
        (λ t k. g' t (g t k)),
        (
          All-map ((HasSetter waveform fixed ports) next.0) ((HasSetter waveform fixed ports) m)
              coupled (λ l. Grows-HasSetter next.0 m l g') s,
          s',
        ),
      )

  -- The setters that buildSetters returns: every port of every axis has its target among them, and
  -- each setter is that of a port of the waveform, held at the value of its axis or swept over its
  -- domain in the direction and the number of points of its axis.
  pub build_setters-IsSetter :
      (m : GoMap Target (Input F))
      → build_setters waveform fixed ports ≡ ok m
      → All (IsSetter waveform fixed ports) m
        × All (λ coupled. All ((HasSetter waveform fixed ports) m) coupled) waveform.axes
  unfolding build_setters swept_before
  build_setters-IsSetter m h =
      let (a, _, s) =
        set_axes-IsSetter 0 waveform.axes [] 0 m (omega arith)
          (λ j. ap (get_elem? waveform.axes) (omega arith)) h tt in
      (a, s)
