-- ===== src/Queue/Examples.antt =====
-- The queue on concrete schedules: an item is a number, the database the list of inserted items.
use falcon_instrument_hub.Prelude.{
  ℕ, String, ◌≡◌, refl, true, false, none, some, List, [], ◌∷◌, ◌++◌, comparable_nat,
  comparable_string, ok,
}
use falcon_instrument_hub.Queue.{
  Engine, Global, Event, start_up, check_instance, send, take, finish, begin_close, end_close, idle,
  step, run, receive, drained, offer, closed_gate, closing_gate,
}
use falcon_instrument_hub.Queue.Order.{InOrder, insert_all, run-InOrder, end_close_inserts_accepted}

abbrev catalog : Engine ℕ (List ℕ) String
catalog = record {
  open_database = λ w. (ok tt, w);
  validate = λ w. (ok true, w);
  close_database = λ w. 0 ∷ w;
  insert = λ x w. w ++ x ∷ [];
}

abbrev two_inserts : List (Event ℕ)
two_inserts =
    start_up
    ∷ check_instance
    ∷ check_instance
    ∷ send 7
    ∷ take
    ∷ send 8
    ∷ begin_close
    ∷ finish
    ∷ take
    ∷ finish
    ∷ []

abbrev ready_to_close : Global ℕ (List ℕ)
ready_to_close = record {
  gate = closing_gate 0;
  pending = record { queue = []; busy = none; accepted = 7 ∷ 8 ∷ []; done = 7 ∷ 8 ∷ [] };
  base = [];
  world = 7 ∷ 8 ∷ [];
  crashed = false;
}

ready : run catalog two_inserts (idle []) ≡ some ready_to_close
unfolding run step receive drained offer
ready = refl

abbrev closed_down : Global ℕ (List ℕ)
closed_down = record ready_to_close { gate = closed_gate 0; world = 0 ∷ 7 ∷ 8 ∷ [] }

closes : step catalog end_close ready_to_close ≡ some closed_down
unfolding step drained
closes = refl

-- A caller that Instance let pass before Close sends to the closed queue, and the process panics.
abbrev close_between : List (Event ℕ)
close_between = start_up ∷ check_instance ∷ begin_close ∷ end_close ∷ send 7 ∷ []

late_send_panics :
    run catalog close_between (idle [])
    ≡ some (record {
      gate = closed_gate 1;
      pending = record { queue = []; busy = none; accepted = []; done = [] };
      base = [];
      world = 0 ∷ [];
      crashed = true;
    })
unfolding run step drained
late_send_panics = refl

run-InOrder_example : InOrder ready_to_close.pending
run-InOrder_example = run-InOrder catalog [] two_inserts ready_to_close ready

end_close_inserts_accepted_example : closed_down.world ≡ 0 ∷ insert_all catalog [] (7 ∷ 8 ∷ [])
end_close_inserts_accepted_example =
    end_close_inserts_accepted catalog [] two_inserts ready_to_close closed_down ready closes
