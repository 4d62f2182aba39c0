-- ===== src/Dispatch/Pool.antt =====
-- RunAll: one goroutine for each request over the shared counter and the shared services. A step is
-- one atomic action of one goroutine, so the interleavings are the sequences of steps.
use falcon_instrument_hub.Prelude.{
  ℕ, ◌+◌, ◌%◌, ◌^◌, String, ◌≡◌, Option, none, some, List, map, comparable_nat, comparable_string,
  get_elem?, set,
}
use falcon_instrument_hub.Prelude.Floats.{Floats}
use falcon_instrument_hub.Dispatch.{
  Program, return, stat, measure, register, MeasurementRequest, MeasurementResult, Services,
  run_measurement,
}

module _ {F : Floats} (S : Services F) where
  open S use {World, Failure}

  abbrev pub Request : Type 0
  Request = MeasurementRequest F Failure

  abbrev pub Outcome : Type 0
  Outcome = MeasurementResult F Failure

  -- A goroutine: not yet begun; running the rest of its measurement, with the number that it
  -- drew from the counter; done.
  pub data Task : Type 0 where
    waiting : Request → Task
    running : ℕ → Program F Failure Outcome → Task
    finished : ℕ → Task

  -- The array of results starts with empty entries.
  pub record Pool : Type 0 where
    pub counter : ℕ
    pub world : World
    pub tasks : List Task
    pub results : List (Option Outcome)

  -- `join` is filepath.Join and `sprintf` renders a measurement's number.
  module _ (join : String → String → String) (scripts : String) (sprintf : ℕ → String) where
    unfoldable pub start : ℕ → World → List Request → Pool
    start counter w reqs = record {
      counter = counter;
      world = w;
      tasks = map waiting reqs;
      results = map (λ q. none) reqs;
    }

    unfoldable pub next_number : ℕ → ℕ
    next_number c = (c + 1) % 2 ^ 64

    -- nextMeasurementID: the atomic Add(1) on the uint64, then runMeasurement under that number.
    unfoldable pub begin : ℕ → Request → Pool → Pool
    unfolding next_number
    begin i req p = record p {
      counter = next_number p.counter;
      tasks = set p.tasks i (
          running (next_number p.counter)
            (run_measurement join scripts (sprintf (next_number p.counter)) req));
    }

    -- One call of a running measurement; a finished one writes its entry of the results.
    unfoldable pub advance : ℕ → ℕ → Program F Failure Outcome → Pool → Pool
    advance i n (return r) p = record p {
      tasks = set p.tasks i (finished n);
      results = set p.results i (some r);
    }
    advance i n (stat path k) p =
        let (x, w) = S.stat_path path p.world in
        record p { world = w; tasks = set p.tasks i (running n (k x)) }
    advance i n (measure path vs k) p =
        let (x, w) = S.run_script path vs p.world in
        record p { world = w; tasks = set p.tasks i (running n (k x)) }
    advance i n (register requestor id k) p =
        let (x, w) = S.register_buffer requestor id p.world in
        record p { world = w; tasks = set p.tasks i (running n (k x)) }

    pub data Step : Pool → Pool → Type 0 where
      begins :
          {p : Pool} (i : ℕ) (req : Request)
          → get_elem? p.tasks i ≡ some (waiting req)
          → Step p (begin i req p)
      advances :
          {p : Pool} (i n : ℕ) (q : Program F Failure Outcome)
          → get_elem? p.tasks i ≡ some (running n q)
          → Step p (advance i n q p)

    pub data Reach (p : Pool) : Pool → Type 0 where
      here : Reach p p
      next : {q r : Pool} → Reach p q → Step q r → Reach p r

  -- wg.Wait() returns.
  abbrev pub Done : Task → Type 0
  Done (finished n) = Unit
  Done _ = ⊥
