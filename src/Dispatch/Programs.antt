-- ===== src/Dispatch/Programs.antt =====
-- The runs of a program under any answers of its environment, with the registrations it made.
use falcon_instrument_hub.Prelude.{
  String, ◌≡◌, refl, ap, Bool, List, [], ◌∷◌, ◌++◌, comparable_nat, comparable_string, Result,
}
use falcon_instrument_hub.Prelude.Floats.{Floats}
use falcon_instrument_hub.Jobs.{MeasureVariable, CallResult}
use falcon_instrument_hub.Dispatch.{Program, return, stat, measure, register, ◌>>=◌, Services, exec}

module _ {F : Floats} {Failure : Type 0} {A : Type 0} where
  -- `Runs p t a`: under some answers `p` makes the registrations `t`, requestor and buffer in their
  -- order, and ends with `a`.
  pub data Runs : Program F Failure A → List (String × String) → A → Type 0 where
    returns : {a : A} → Runs (return a) [] a
    stats :
        {p : String} {k : Result Failure Bool → Program F Failure A} {t : List (String × String)}
        {a : A} (x : Result Failure Bool)
        → Runs (k x) t a
        → Runs (stat p k) t a
    measures :
        {p : String} {vs : List (MeasureVariable F)}
        {k : Result Failure (List (CallResult F)) → Program F Failure A}
        {t : List (String × String)} {a : A} (x : Result Failure (List (CallResult F)))
        → Runs (k x) t a
        → Runs (measure p vs k) t a
    registers :
        {r id : String} {k : Result Failure (Unit {0}) → Program F Failure A}
        {t : List (String × String)} {a : A} (x : Result Failure (Unit {0}))
        → Runs (k x) t a
        → Runs (register r id k) ((r, id) ∷ t) a

  pub returned :
      {b : A} {t : List (String × String)} {a : A} → Runs (return b) t a → (t ≡ []) × (a ≡ b)
  returned returns = (refl, refl)

module _ {F : Floats} {Failure : Type 0} {A B : Type 0} (f : A → Program F Failure B) where
  pub Runs-bind :
      (p : Program F Failure A) (t : List (String × String)) (b : B)
      → Runs (p >>= f) t b
      → (a : A) × (u v : List (String × String)) × Runs p u a × Runs (f a) v b × (t ≡ u ++ v)
  unfolding ◌>>=◌
  Runs-bind (return a) t b r = (a, [], t, returns, r, refl)
  Runs-bind (stat p k) t b (stats x r) =
      let (a, u, v, q, s, e) = Runs-bind (k x) t b r in (a, u, v, stats x q, s, e)
  Runs-bind (measure p vs k) t b (measures x r) =
      let (a, u, v, q, s, e) = Runs-bind (k x) t b r in (a, u, v, measures x q, s, e)
  Runs-bind (register c id k) _ b (registers {t = t} x r) =
      let (a, u, v, q, s, e) = Runs-bind (k x) t b r in
      (a, (c, id) ∷ u, v, registers x q, s, ap (◌∷◌ (c, id)) e)

module _ {F : Floats} (S : Services F) {A : Type 0} where
  -- The sequential execution is one of the runs.
  pub Runs-exec :
      (p : Program F S.Failure A) (w : S.World)
      → (t : List (String × String)) × Runs p t (exec S p w).0
  unfolding exec
  Runs-exec (return a) w = ([], returns)
  Runs-exec (stat p k) w =
      let (t, r) = Runs-exec (k (S.stat_path p w).0) (S.stat_path p w).1 in
      (t, stats (S.stat_path p w).0 r)
  Runs-exec (measure p vs k) w =
      let (t, r) = Runs-exec (k (S.run_script p vs w).0) (S.run_script p vs w).1 in
      (t, measures (S.run_script p vs w).0 r)
  Runs-exec (register c id k) w =
      let (t, r) = Runs-exec (k (S.register_buffer c id w).0) (S.register_buffer c id w).1 in
      ((c, id) ∷ t, registers (S.register_buffer c id w).0 r)
