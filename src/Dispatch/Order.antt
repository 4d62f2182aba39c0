-- ===== src/Dispatch/Order.antt =====
-- RunAll under every interleaving: each entry of the results is the outcome of the request at its
-- place.
use falcon_instrument_hub.Prelude.{
  get_elem?-set_self, get_elem?-map, get_elem?-All, get_elem?-set_ne, get_elem?-map_missing, ℕ,
  String, ◌≡◌, refl, subst, ◌≢◌, inl, inr, Option, none, some, List, arith, Bool-cases,
  Option-cases, ◌==◌, comparable_nat, comparable_string, ==_iff, get_elem?, set, All,
}
use falcon_instrument_hub.Prelude.Floats.{Floats}
use falcon_instrument_hub.Dispatch.{
  Program, return, stat, measure, register, Services, run_measurement, with_suffix,
}
use falcon_instrument_hub.Dispatch.Answers.{
  Ends, returns, stats, measures, registers, IsOutcome, run_measurement-IsOutcome,
}
use falcon_instrument_hub.Dispatch.Pool.{
  Request, Outcome, Task, waiting, running, finished, Pool, start, next_number, begin, advance,
  begins, advances, Reach, here, next, Done,
}

module _ {F : Floats} (S : Services F) (join : String → String → String) (scripts : String)
    (sprintf : ℕ → String) where
  open S use {World, Failure}

  -- The measurement of a request under a number.
  abbrev pub measurement : ℕ → Request S → Program F Failure (Outcome S)
  measurement n req = run_measurement join scripts (sprintf n) req

  -- `r` has the number's ID, and what it holds is an answer of the services to this request.
  pub OutcomeOf : ℕ → Request S → Outcome S → Type 0
  OutcomeOf n req r =
      (r.id ≡ sprintf n)
      × IsOutcome S scripts (join scripts (with_suffix req.script)) (sprintf n) req.script
          req.variables r.outcome

  abbrev Continues : Program F Failure (Outcome S) → Program F Failure (Outcome S) → Type 0
  Continues p q = (r : Outcome S) → Ends S q r → Ends S p r

  -- A request, its goroutine and its entry of the results, at one index.
  abbrev Slot : Option (Request S) → Option (Task S) → Option (Option (Outcome S)) → Type 0
  Slot none none none = Unit
  Slot (some q) (some (waiting p)) (some none) = p ≡ q
  Slot (some q) (some (running n p)) (some none) = Continues (measurement n q) p
  Slot (some q) (some (finished n)) (some (some r)) = OutcomeOf n q r
  Slot _ _ _ = ⊥

  Slot-begin :
      (a : Option (Request S)) (c : Option (Option (Outcome S))) (req : Request S) (n : ℕ)
      → Slot a (some (waiting req)) c
      → Slot a (some (running n (measurement n req))) c
  Slot-begin (some q) (some none) req n e = λ r run. subst (λ x. Ends S (measurement n x) r) e run
  Slot-begin none none req n e = absurd e
  Slot-begin none (some c) req n e = absurd e
  Slot-begin (some q) none req n e = absurd e
  Slot-begin (some q) (some (some r)) req n e = absurd e

  Slot-continue :
      (a : Option (Request S)) (c : Option (Option (Outcome S))) (n : ℕ)
      (p q : Program F Failure (Outcome S))
      → Continues p q
      → Slot a (some (running n p)) c
      → Slot a (some (running n q)) c
  Slot-continue (some x) (some none) n p q f s = λ r run. s r (f r run)
  Slot-continue none none n p q f e = absurd e
  Slot-continue none (some c) n p q f e = absurd e
  Slot-continue (some x) none n p q f e = absurd e
  Slot-continue (some x) (some (some r)) n p q f e = absurd e

  Slot-finish :
      (a : Option (Request S)) (c : Option (Option (Outcome S))) (n : ℕ) (r : Outcome S)
      → Slot a (some (running n (return r))) c
      → (c ≡ some none) × Slot a (some (finished n)) (some (some r))
  unfolding OutcomeOf
  Slot-finish (some x) (some none) n r s =
      (refl, run_measurement-IsOutcome S join scripts (sprintf n) x r (s r returns))
  Slot-finish none none n r e = absurd e
  Slot-finish none (some c) n r e = absurd e
  Slot-finish (some x) none n r e = absurd e
  Slot-finish (some x) (some (some q)) n r e = absurd e

  ended_entry :
      (req : Request S) (b : Option (Task S)) (c : Option (Option (Outcome S)))
      → Slot (some req) b c
      → ((t : Task S) → b ≡ some t → Done S t)
      → (n : ℕ) × (r : Outcome S) × (b ≡ some (finished n))
        × (c ≡ some (some r))
        × OutcomeOf n req r
  ended_entry req (some (finished n)) (some (some r)) s d = (n, r, refl, refl, s)
  ended_entry req (some (finished n)) (some none) s d = absurd s
  ended_entry req (some (finished n)) none s d = absurd s
  ended_entry req (some (waiting p)) c s d = absurd (d (waiting p) refl)
  ended_entry req (some (running n p)) c s d = absurd (d (running n p) refl)
  ended_entry req none none s d = absurd s
  ended_entry req none (some c) s d = absurd s

  -- The invariant, index by index.
  abbrev Slots : List (Request S) → Pool S → Type 0
  Slots reqs p = (i : ℕ) → Slot (get_elem? reqs i) (get_elem? p.tasks i) (get_elem? p.results i)

  -- To change the slot at `i` alone.
  Slot-at :
      (reqs : List (Request S)) (p q : Pool S) (i : ℕ)
      → Slots reqs p
      → ((j : ℕ)
          → i ≢ j
          → (get_elem? q.tasks j ≡ get_elem? p.tasks j)
            × (get_elem? q.results j ≡ get_elem? p.results j))
      → Slot (get_elem? reqs i) (get_elem? q.tasks i) (get_elem? q.results i)
      → Slots reqs q
  Slot-at reqs p q i v others mine j = elim (Bool-cases (i == j)) [
    | inl e ↦
        subst (λ k. Slot (get_elem? reqs k) (get_elem? q.tasks k) (get_elem? q.results k))
          ((==_iff i j).0 e) mine
    | inr e ↦ let o = others j (λ h. ground (arith, ==_iff i j)) in rw (o.0, o.1) (v j)
  ]

  entry_at_index :
      (reqs : List (Request S)) (p : Pool S) (i : ℕ) (t : Task S)
      → Slots reqs p
      → get_elem? p.tasks i ≡ some t
      → Slot (get_elem? reqs i) (some t) (get_elem? p.results i)
  entry_at_index reqs p i t v h = rw h at (v i)

  begin-Slots :
      (reqs : List (Request S)) (p : Pool S) (i : ℕ) (req : Request S)
      → get_elem? p.tasks i ≡ some (waiting req)
      → Slots reqs p
      → Slots reqs (begin S join scripts sprintf i req p)
  unfolding begin
  begin-Slots reqs p i req h v =
      Slot-at reqs p (begin S join scripts sprintf i req p) i v
        (λ j ne. (get_elem?-set_ne p.tasks i j _ ne, refl))
        (rw
          (get_elem?-set_self p.tasks i (waiting req)
            (running (next_number S join scripts sprintf p.counter)
              (measurement (next_number S join scripts sprintf p.counter) req))
            h)
          (Slot-begin (get_elem? reqs i) (get_elem? p.results i) req
            (next_number S join scripts sprintf p.counter)
            (entry_at_index reqs p i (waiting req) v h)))

  -- One call of the program at `i`.
  call-Slots :
      (reqs : List (Request S)) (p : Pool S) (i n : ℕ) (w : World)
      (x y : Program F Failure (Outcome S))
      → get_elem? p.tasks i ≡ some (running n x)
      → Continues x y
      → Slots reqs p
      → Slots reqs (record p { world = w; tasks = set p.tasks i (running n y) })
  call-Slots reqs p i n w x y h f v =
      Slot-at reqs p (record p { world = w; tasks = set p.tasks i (running n y) }) i v
        (λ j ne. (get_elem?-set_ne p.tasks i j _ ne, refl))
        (rw (get_elem?-set_self p.tasks i (running n x) (running n y) h) (
          Slot-continue (get_elem? reqs i) (get_elem? p.results i) n x y f
            (entry_at_index reqs p i (running n x) v h)))

  advance-Slots :
      (reqs : List (Request S)) (p : Pool S) (i n : ℕ) (q : Program F Failure (Outcome S))
      → get_elem? p.tasks i ≡ some (running n q)
      → Slots reqs p
      → Slots reqs (advance S join scripts sprintf i n q p)
  unfolding advance
  advance-Slots reqs p i n (return r) h v =
      let (empty, done) =
        Slot-finish (get_elem? reqs i) (get_elem? p.results i) n r
          (entry_at_index reqs p i (running n (return r)) v h) in
      Slot-at reqs p
        (record p { tasks = set p.tasks i (finished n); results = set p.results i (some r) }) i v
        (λ j ne. (
          get_elem?-set_ne p.tasks i j (finished n) ne,
          get_elem?-set_ne p.results i j (some r) ne,
        ))
        (rw
          (
            get_elem?-set_self p.tasks i (running n (return r)) (finished n) h,
            get_elem?-set_self p.results i none (some r) empty,
          )
          done)
  advance-Slots reqs p i n (stat path k) h v =
      call-Slots reqs p i n (S.stat_path path p.world).1 (stat path k)
        (k (S.stat_path path p.world).0) h (λ r run. stats p.world run) v
  advance-Slots reqs p i n (measure path vs k) h v =
      call-Slots reqs p i n (S.run_script path vs p.world).1 (measure path vs k)
        (k (S.run_script path vs p.world).0) h (λ r run. measures p.world run) v
  advance-Slots reqs p i n (register c id k) h v =
      call-Slots reqs p i n (S.register_buffer c id p.world).1 (register c id k)
        (k (S.register_buffer c id p.world).0) h (λ r run. registers p.world run) v

  start-Slots :
      (c : ℕ) (w : World) (reqs : List (Request S))
      → Slots reqs (start S join scripts sprintf c w reqs)
  unfolding start
  start-Slots c w reqs i = elim (Option-cases (get_elem? reqs i)) [
    | inl e ↦
        rw (e, get_elem?-map_missing waiting reqs i e, get_elem?-map_missing (λ q. none) reqs i e)
          tt
    | inr (q, e) ↦
        rw (e, get_elem?-map waiting reqs i q e, get_elem?-map (λ q. none) reqs i q e) refl
  ]

  Reach-Slots :
      (reqs : List (Request S)) {p q : Pool S}
      → Slots reqs p
      → Reach S join scripts sprintf p q
      → Slots reqs q
  Reach-Slots reqs v here = v
  Reach-Slots reqs v (next r (begins {p = p} i req h)) =
      begin-Slots reqs p i req h (Reach-Slots reqs v r)
  Reach-Slots reqs v (next r (advances {p = p} i n q h)) =
      advance-Slots reqs p i n q h (Reach-Slots reqs v r)

  -- When every goroutine is done, in whatever order they ran, the results have an entry for each
  -- request, at the request's index, with the ID of the number that its goroutine drew. Results in
  -- it are an answer of the script server to this request's script and variables, and an error is
  -- an answer of the service that failed, or the missing scripts path.
  pub results_in_order :
      (c : ℕ) (w : World) (reqs : List (Request S)) (p : Pool S)
      → Reach S join scripts sprintf (start S join scripts sprintf c w reqs) p
      → All (Done S) p.tasks
      → (i : ℕ) (req : Request S) → get_elem? reqs i ≡ some req
      → (n : ℕ) × (r : Outcome S) × (get_elem? p.tasks i ≡ some (finished n))
        × (get_elem? p.results i ≡ some (some r))
        × OutcomeOf n req r
  results_in_order c w reqs p run done i req h =
      ended_entry req (get_elem? p.tasks i) (get_elem? p.results i)
        (rw h at (Reach-Slots reqs (start-Slots c w reqs) run i))
        (λ t e. get_elem?-All (Done S) p.tasks i t done e)

  -- The ID in an outcome is the rendered number.
  pub OutcomeOf-id :
      (n : ℕ) (req : Request S) (r : Outcome S) → OutcomeOf n req r → r.id ≡ sprintf n
  unfolding OutcomeOf
  OutcomeOf-id n req r o = o.0
