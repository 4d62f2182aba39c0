-- ===== src/Dispatch/Schedules.antt =====
-- RunAll along a given schedule: the list says which goroutine moves next.
use falcon_instrument_hub.Prelude.{
  ℕ, String, ◌≡◌, refl, Option, none, some, List, [], ◌∷◌, comparable_nat, comparable_string,
  get_elem?,
}
use falcon_instrument_hub.Prelude.Floats.{Floats}
use falcon_instrument_hub.Dispatch.{Services}
use falcon_instrument_hub.Dispatch.Pool.{
  Task, Pool, begin, advance, begins, advances, Reach, here, next, running, finished, waiting,
}

module _ {F : Floats} (S : Services F) (join : String → String → String) (scripts : String)
    (sprintf : ℕ → String) where
  -- One step of the goroutine at `i`, if it has one.
  move : ℕ → Option (Task S) → Pool S → Pool S
  move i (some (waiting req)) p = begin S join scripts sprintf i req p
  move i (some (running n q)) p = advance S join scripts sprintf i n q p
  move i _ p = p

  unfoldable pub run_schedule : List ℕ → Pool S → Pool S
  unfolding move
  run_schedule [] p = p
  run_schedule (i ∷ is) p = run_schedule is (move i (get_elem? p.tasks i) p)

  move-Reach :
      (i : ℕ) (t : Option (Task S)) (p q : Pool S)
      → get_elem? p.tasks i ≡ t
      → Reach S join scripts sprintf q p
      → Reach S join scripts sprintf q (move i t p)
  unfolding move
  move-Reach i (some (waiting req)) p q h r = next r (begins i req h)
  move-Reach i (some (running n x)) p q h r = next r (advances i n x h)
  move-Reach i (some (finished n)) p q h r = r
  move-Reach i none p q h r = r

  schedule_from :
      (is : List ℕ) (p q : Pool S)
      → Reach S join scripts sprintf q p
      → Reach S join scripts sprintf q (run_schedule is p)
  unfolding run_schedule
  schedule_from [] p q r = r
  schedule_from (i ∷ is) p q r =
      schedule_from is (move i (get_elem? p.tasks i) p) q
        (move-Reach i (get_elem? p.tasks i) p q refl r)

  pub run_schedule-Reach :
      (is : List ℕ) (p : Pool S) → Reach S join scripts sprintf p (run_schedule is p)
  run_schedule-Reach is p = schedule_from is p p here
