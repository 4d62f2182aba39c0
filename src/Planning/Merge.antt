-- ===== src/Planning/Merge.antt =====
-- runtime/internal/cartesianmeasure/planner.go, mergePrimitiveMeasurementOutputs: what a merge does
-- to the samples of one target.
use falcon_instrument_hub.Prelude.{
  ◌≡◌, refl, sym, subst, ◌∙◌, inl, inr, false, List, [], ◌∷◌, ◌++◌, append-nil, arith,
  if◌then◌else◌, Bool-cases, ◌==◌, comparable_nat, comparable_string, ==_iff,
}
use falcon_instrument_hub.Prelude.Maps.{
  GoMap, Distinct, insert, insert-Distinct, lookup, lookup-insert, has,
}
use falcon_instrument_hub.Samples.{Target, comparable_target}
use falcon_instrument_hub.Planning.{samples, merge, samples_or_none}

module _ {A : Type 0} where
  samples-insert :
      (t u : Target) (xs : List A) (m : GoMap Target (List A))
      → samples u (insert t xs m) ≡ (if t == u then xs else samples u m)
  unfolding samples samples_or_none
  samples-insert t u xs m = ground (arith, lookup-insert t u xs m)

  samples_missing : (t : Target) (m : GoMap Target (List A)) → has t m ≡ false → samples t m ≡ []
  unfolding samples samples_or_none has
  samples_missing t m h = ground arith

  samples_cons :
      (t u : Target) (xs : List A) (m : GoMap Target (List A))
      → samples u ((t, xs) ∷ m) ≡ (if t == u then xs else samples u m)
  unfolding samples samples_or_none lookup
  samples_cons t u xs m = ground arith

  pub merge-Distinct : (total m : GoMap Target (List A)) → Distinct total → Distinct (merge total m)
  unfolding merge
  merge-Distinct total [] d = d
  merge-Distinct total ((t, xs) ∷ rest) d =
      merge-Distinct (insert t (samples t total ++ xs) total) rest
        (insert-Distinct t (samples t total ++ xs) total d)

  step :
      (t u : Target) (xs : List A) (total rest : GoMap Target (List A))
      → has t rest ≡ false
      → samples u (insert t (samples t total ++ xs) total) ++ samples u rest
        ≡ samples u total ++ samples u ((t, xs) ∷ rest)
  step t u xs total rest absent = elim (Bool-cases (t == u)) [
    | inl e ↦
        let same : t ≡ u = (==_iff t u).0 e in
        rw (samples-insert t u (samples t total ++ xs) total, samples_cons t u xs rest, e, same)
          (rw (samples_missing u rest (subst (λ v. has v rest ≡ false) same absent))
            (append-nil (samples u total ++ xs)))
    | inr e ↦
        rw (samples-insert t u (samples t total ++ xs) total, samples_cons t u xs rest, e) refl
  ]

  -- Each key of the second map occurs once, so each list is appended once.
  pub samples-merge :
      (u : Target) (total m : GoMap Target (List A))
      → Distinct m
      → samples u (merge total m) ≡ samples u total ++ samples u m
  unfolding merge
  samples-merge u total [] d =
      unfold samples lookup samples_or_none in sym (append-nil (samples u total))
  samples-merge u total ((t, xs) ∷ rest) (absent, d) =
      samples-merge u (insert t (samples t total ++ xs) total) rest d
      ∙ step t u xs total rest absent
