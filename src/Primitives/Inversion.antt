-- ===== src/Primitives/Inversion.antt =====
-- runtime/internal/cartesianmeasure/planner.go: what a call of a helper of buildSetters that returned
-- no error did.
use falcon_instrument_hub.Prelude.{
  ℕ, suc, String, ◌≡◌, refl, sym, ap, ◌∙◌, inl, inr, Bool, Option, none, some, List, [], ◌∷◌,
  Option-cases, comparable_nat, comparable_string, length, get_elem?, All, ok, ok_injective,
}
use falcon_instrument_hub.Prelude.Floats.{Floats}
use falcon_instrument_hub.Prelude.Maps.{GoMap, lookup}
use falcon_instrument_hub.Ports.{Vocabulary, InstrumentPort, ConnectedPort, resolve_port}
use falcon_instrument_hub.Samples.{Target, comparable_target}
use falcon_instrument_hub.Primitives.{
  ControlArray, convert_to_target, found_target, target_of, direction, points_of,
}

module _ {A : Type 0} where
  pub index-All :
      (P : A → Type 0) (xs : List A) → ((k : ℕ) (x : A) → get_elem? xs k ≡ some x → P x) → All P xs
  index-All P [] h = tt
  index-All P (x ∷ xs) h = (h 0 x refl, index-All P xs (λ k y e. h (suc k) y e))

module _ {V : Vocabulary} {E : Type 0} where
  target_found :
      (o : Option (ConnectedPort V)) (t : Target)
      → found_target {V = V} {E = E} o ≡ ok t
      → (cp : ConnectedPort V) × (o ≡ some cp)
        × (t.instrument ≡ cp.instrument_name)
        × (t.group ≡ cp.channel_group)
        × (t.channel ≡ cp.channel)
  unfolding found_target target_of
  target_found none t h = cc h
  target_found (some cp) t h =
      let e : target_of cp ≡ t = ok_injective (target_of cp) t h in
      (
        cp,
        refl,
        sym (ap (λ z. z.instrument) e),
        sym (ap (λ z. z.group) e),
        sym (ap (λ z. z.channel) e),
      )

  pub convert_found :
      (port : InstrumentPort V) (ports : Option (List (ConnectedPort V))) (t : Target)
      → convert_to_target {V = V} {E = E} port ports ≡ ok t
      → (cp : ConnectedPort V) × (resolve_port port ports ≡ some cp)
        × (t.instrument ≡ cp.instrument_name)
        × (t.group ≡ cp.channel_group)
        × (t.channel ≡ cp.channel)
  unfolding convert_to_target
  convert_found port none t h = cc h
  convert_found port (some ps) t h = target_found (resolve_port port (some ps)) t h

  pub direction_known :
      (port : InstrumentPort V) (o : Option (GoMap String Bool)) (b : Bool)
      → direction {V = V} {E = E} port o ≡ ok b
      → (m : GoMap String Bool) × (o ≡ some m) × (lookup port.pseudo_name.name m ≡ some b)
  unfolding direction
  direction_known port none b h = cc h
  direction_known port (some m) b h = elim (Option-cases (lookup port.pseudo_name.name m)) [
    | inl e ↦ cc (rw (direction, e) at h)
    | inr (c, e) ↦
        let k : ok c ≡ ok b = rw (direction, e) at h in (m, refl, e ∙ ap some (ok_injective c b k))
  ]

module _ {F : Floats} {V : Vocabulary} {E : Type 0} where
  pub points_known :
      (i : ℕ) (arrays : List (ControlArray F)) (num : ℕ)
      → points_of {V = V} {E = E} i arrays ≡ ok num
      → (x : ControlArray F) × (more : List (ControlArray F)) × (arrays ≡ x ∷ more)
        × (num ≡ length x.values)
  unfolding points_of
  points_known i [] num h = cc h
  points_known i (x ∷ more) num h = (x, more, refl, sym (ok_injective (length x.values) num h))
