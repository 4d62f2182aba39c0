-- ===== src/Dispatch/Answers.antt =====
-- What a measurement can end with, and the answers of the services that it ends with it for.
use falcon_instrument_hub.Prelude.{
  String, ◌≡◌, refl, inl, inr, Bool, true, false, List, [], ◌∷◌, Bool-cases, ◌==◌, comparable_nat,
  comparable_string, ==_iff, Result, ok, err,
}
use falcon_instrument_hub.Prelude.Floats.{Floats}
use falcon_instrument_hub.Jobs.{MeasureVariable, CallResult, ReturnValue}
use falcon_instrument_hub.Dispatch.{
  Program, Action, DispatchError, no_scripts_path, stat_failed, is_directory, unable_to_run,
  measure_failed, register_failed, return, stat, measure, register, ◌>>=◌, Services,
  MeasurementRequest, MeasurementResult, run_measurement, run_script, script_path, found,
  registered, register_all, register_buffers, register_returns, register_calls, measured, resolved,
  buffer_refs, with_suffix,
}

module _ {F : Floats} (S : Services F) where
  open S use {World, Failure}

  -- The outcomes of a program whose calls are answered by the services, each in some world.
  pub data Ends {A : Type 0} : Program F Failure A → A → Type 0 where
    returns : {a : A} → Ends (return a) a
    stats :
        {p : String} {k : Result Failure Bool → Program F Failure A} {a : A} (w : World)
        → Ends (k (S.stat_path p w).0) a
        → Ends (stat p k) a
    measures :
        {p : String} {vs : List (MeasureVariable F)}
        {k : Result Failure (List (CallResult F)) → Program F Failure A} {a : A} (w : World)
        → Ends (k (S.run_script p vs w).0) a
        → Ends (measure p vs k) a
    registers :
        {r id : String} {k : Result Failure (Unit {0}) → Program F Failure A} {a : A} (w : World)
        → Ends (k (S.register_buffer r id w).0) a
        → Ends (register r id k) a

  -- The error of a measurement whose script's path was not found.
  pub IsPathError : String → String → DispatchError Failure → Type 0
  IsPathError scripts path no_scripts_path = scripts ≡ ""
  IsPathError scripts path (stat_failed e) = (w : World) × ((S.stat_path path w).0 ≡ err e)
  IsPathError scripts path (is_directory p) =
      (p ≡ path) × (w : World) × ((S.stat_path path w).0 ≡ ok true)
  IsPathError scripts path _ = ⊥

  -- The results of a measurement are an answer of the script server to the script at `path` and its
  -- variables; its error is an answer of the service that failed.
  pub IsOutcome :
      String
      → String
      → String
      → String
      → List (MeasureVariable F)
      → Result (DispatchError Failure) (List (CallResult F))
      → Type 0
  unfolding IsPathError
  IsOutcome scripts path requestor script vs (ok cs) =
      (w : World) × ((S.run_script path vs w).0 ≡ ok cs)
  IsOutcome scripts path requestor script vs (err (unable_to_run e)) = IsPathError scripts path e
  IsOutcome scripts path requestor script vs (err (measure_failed s e)) =
      (s ≡ script) × (w : World) × ((S.run_script path vs w).0 ≡ err e)
  IsOutcome scripts path requestor script vs (err (register_failed e)) =
      (id : String) × (w : World) × ((S.register_buffer requestor id w).0 ≡ err e)
  IsOutcome scripts path requestor script vs (err _) = ⊥

  ended : {A : Type 0} {b a : A} → Ends (return b) a → a ≡ b
  ended returns = refl

  Ends-bind :
      {A B : Type 0} (f : A → Program F Failure B) (p : Program F Failure A) (b : B)
      → Ends (p >>= f) b
      → (a : A) × Ends p a × Ends (f a) b
  unfolding ◌>>=◌
  Ends-bind f (return a) b r = (a, returns, r)
  Ends-bind f (stat p k) b (stats w r) =
      let (a, q, s) = Ends-bind f (k (S.stat_path p w).0) b r in (a, stats w q, s)
  Ends-bind f (measure p vs k) b (measures w r) =
      let (a, q, s) = Ends-bind f (k (S.run_script p vs w).0) b r in (a, measures w q, s)
  Ends-bind f (register c id k) b (registers w r) =
      let (a, q, s) = Ends-bind f (k (S.register_buffer c id w).0) b r in (a, registers w q, s)

  -- An error of `registered` is the service's, and the rest of the program ends otherwise.
  module _ (scripts path requestor script : String) (vs : List (MeasureVariable F)) where
    IsEnd : Action F Failure (List (CallResult F)) → Type 0
    unfolding IsOutcome
    IsEnd p =
        (r : Result (DispatchError Failure) (List (CallResult F)))
        → Ends p r
        → IsOutcome scripts path requestor script vs r

    registered-IsEnd :
        (id : String) (rest : Action F Failure (List (CallResult F))) (w : World)
        (x : Result Failure (Unit {0}))
        → (S.register_buffer requestor id w).0 ≡ x
        → IsEnd rest
        → IsEnd (registered rest x)
    unfolding registered IsEnd IsOutcome
    registered-IsEnd id rest w (err e) h i r q = rw (ended q) (id, w, h)
    registered-IsEnd id rest w (ok u) h i r q = i r q

    register_all-IsEnd :
        (ids : List String) (rest : Action F Failure (List (CallResult F)))
        → IsEnd rest
        → IsEnd (register_all requestor ids rest)
    unfolding register_all IsEnd
    register_all-IsEnd [] rest i r q = i r q
    register_all-IsEnd (id ∷ ids) rest i r (registers w q) =
        registered-IsEnd id (register_all requestor ids rest) w (S.register_buffer requestor id w).0
          refl (register_all-IsEnd ids rest i) r q

    register_returns-IsEnd :
        (rs : List (ReturnValue F)) (rest : Action F Failure (List (CallResult F)))
        → IsEnd rest
        → IsEnd (register_returns requestor rs rest)
    unfolding register_returns register_buffers
    register_returns-IsEnd [] rest i = i
    register_returns-IsEnd (x ∷ rs) rest i =
        register_all-IsEnd (buffer_refs x.value) (register_returns requestor rs rest)
          (register_returns-IsEnd rs rest i)

    register_calls-IsEnd :
        (cs : List (CallResult F)) (rest : Action F Failure (List (CallResult F)))
        → IsEnd rest
        → IsEnd (register_calls requestor cs rest)
    unfolding register_calls
    register_calls-IsEnd [] rest i = i
    register_calls-IsEnd (c ∷ cs) rest i =
        register_returns-IsEnd c.returns (register_calls requestor cs rest)
          (register_calls-IsEnd cs rest i)

    measured-IsEnd :
        (w : World) (x : Result Failure (List (CallResult F)))
        → (S.run_script path vs w).0 ≡ x
        → IsEnd (measured requestor script x)
    unfolding measured IsEnd IsOutcome
    measured-IsEnd w (err e) h r q = rw (ended q) (refl, w, h)
    measured-IsEnd w (ok cs) h r q =
        register_calls-IsEnd cs (return (ok cs)) (λ a e. rw (ended e) (w, h)) r q

  -- A path that was found is the one asked for, and an error is an answer to that path.
  PathOutcome : String → String → Result (DispatchError Failure) String → Type 0
  unfolding IsPathError
  PathOutcome scripts path (ok p) = p ≡ path
  PathOutcome scripts path (err e) = IsPathError scripts path e

  found_end :
      (scripts path : String) (w : World) (x : Result Failure Bool)
      (a : Result (DispatchError Failure) String)
      → (S.stat_path path w).0 ≡ x
      → Ends (found {F = F} path x) a
      → PathOutcome scripts path a
  unfolding found PathOutcome IsPathError
  found_end scripts path w (err e) a h q = rw (ended q) (w, h)
  found_end scripts path w (ok true) a h q = rw (ended q) (refl, w, h)
  found_end scripts path w (ok false) a h q = rw (ended q) refl

  stat_end :
      (scripts path : String) (a : Result (DispatchError Failure) String)
      → Ends (stat path (found {F = F} path)) a
      → PathOutcome scripts path a
  stat_end scripts path a (stats w q) = found_end scripts path w (S.stat_path path w).0 a refl q

  script_path_end :
      (join : String → String → String) (scripts name : String)
      (a : Result (DispatchError Failure) String)
      → Ends (script_path {F = F} join scripts name) a
      → PathOutcome scripts (join scripts (with_suffix name)) a
  unfolding script_path PathOutcome IsPathError
  script_path_end join scripts name a q = elim (Bool-cases (scripts == "")) [
    | inl e ↦ let h : a ≡ err no_scripts_path = ended (rw e at q) in rw h ((==_iff scripts "").0 e)
    | inr e ↦ stat_end scripts (join scripts (with_suffix name)) a (rw e at q)
  ]

  resolved_end :
      (scripts path requestor script : String) (vs : List (MeasureVariable F))
      (x : Result (DispatchError Failure) String)
      (r : Result (DispatchError Failure) (List (CallResult F)))
      → PathOutcome scripts path x
      → Ends (resolved requestor script vs x) r
      → IsOutcome scripts path requestor script vs r
  unfolding resolved PathOutcome IsOutcome IsEnd
  resolved_end scripts path requestor script vs (err e) r h q = rw (ended q) h
  resolved_end scripts path requestor script vs (ok p) r h (measures w q) =
      measured-IsEnd scripts path requestor script vs w (S.run_script p vs w).0 (rw h refl) r q

  -- A measurement ends with the ID that it was given, and with an answer of its services.
  pub run_measurement-IsOutcome :
      (join : String → String → String) (scripts id : String) (req : MeasurementRequest F Failure)
      (r : MeasurementResult F Failure)
      → Ends (run_measurement join scripts id req) r
      → (r.id ≡ id)
        × IsOutcome scripts
            (join scripts (with_suffix req.script))
            id
            req.script
            req.variables
            r.outcome
  unfolding run_measurement run_script
  run_measurement-IsOutcome join scripts id req r h =
      let (a, q, s) = Ends-bind _ (run_script join scripts id req.script req.variables) r h in
      let (x, p, t) = Ends-bind _ (script_path join scripts req.script) a q in
      let e : r ≡ record { id = id; outcome = a } = ended s in
      rw e (
        refl,
        resolved_end scripts (join scripts (with_suffix req.script)) id req.script req.variables x a
            (script_path_end join scripts req.script x p) t,
      )
