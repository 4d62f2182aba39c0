-- ===== src/Queue.antt =====
-- runtime/internal/measurementdb/global.go: the global database and its queue of inserts. A
-- schedule is a list of events: what a caller of InsertAsync, the worker of Startup and Close do
-- between two points at which another goroutine can run. `Item` is an InsertEntry with its
-- DatabaseEntry, `W` what the manager's methods change.
pub mod Order
pub mod Examples
use falcon_instrument_hub.Prelude.{
  ℕ, zero, suc, ◌+◌, ◌-◌, ◌*◌, ◌/◌, ◌%◌, ◌^◌, ◌≤◌, ◌<◌, String, ◌≡◌, refl, sym, ap, subst, fun_ext,
  ◌∙◌, ◌≢◌, ◌↔◌, ◌⊎◌, inl, inr, Bool, true, false, not, ◌&&◌, ◌||◌, Option, none, some, List, [],
  ◌∷◌, ◌++◌, map, append_assoc, append-nil, map-append, arith, ltb, leb, if◌then◌else◌, ltb→lt,
  leb→le, Bool-cases, Option-cases, Comparable, ◌==◌, comparable_nat, comparable_string, ==_iff,
  ==_refl, length, get_elem?, set, replicate, length-append, length-map, All, sum, product, Result,
  ok, err, ◌>>=◌, ◌>>◌, wrap, guard, is_ok, Result-cases, and_then, nat_same, nat_same_iff, bind_ok,
  wrap_ok, and_then_ok, guard_ok, ok_injective,
}

-- The methods of Manager that the global functions call.
pub record Engine (Item W E : Type 0) : Type 0 where
  pub open_database : W → Result E (Unit {0}) × W
  pub validate : W → Result E Bool × W
  pub close_database : W → W
  pub insert : Item → W → W

-- `started` is `globalManager != nil`, `sendable` that insertQueue is not closed, `closing` that
-- Close holds the lock. `checked` counts the callers of InsertAsync between Instance and the send.
pub record Gate : Type 0 where
  pub started : Bool
  pub sendable : Bool
  pub closing : Bool
  pub checked : ℕ

-- The queue and the item that the worker took from it; `accepted` is what InsertAsync accepted since
-- Startup and `done` what the worker has inserted.
pub record Pending (Item : Type 0) : Type 0 where
  pub queue : List Item
  pub busy : Option Item
  pub accepted : List Item
  pub done : List Item

-- `base` is the world after the last Startup; a crash ends the process.
pub record Global (Item W : Type 0) : Type 0 where
  pub gate : Gate
  pub pending : Pending Item
  pub base : W
  pub world : W
  pub crashed : Bool

pub data Event (Item : Type 0) : Type 0 where
  start_up : Event Item
  check_instance : Event Item
  send : Item → Event Item
  take : Event Item
  finish : Event Item
  begin_close : Event Item
  end_close : Event Item

-- The capacity of insertQueue.
abbrev pub capacity : ℕ
capacity = 100

abbrev pub closed_gate : ℕ → Gate
closed_gate checked = record {
  started = false;
  sendable = false;
  closing = false;
  checked = checked;
}

abbrev pub open_gate : ℕ → Gate
open_gate checked = record { started = true; sendable = true; closing = false; checked = checked }

abbrev pub closing_gate : ℕ → Gate
closing_gate checked = record {
  started = true;
  sendable = false;
  closing = true;
  checked = checked;
}

module _ {Item : Type 0} where
  abbrev pub nothing_pending : Pending Item
  nothing_pending = record { queue = []; busy = none; accepted = []; done = [] }

  -- The send of InsertAsync into a queue that is not closed.
  unfoldable pub offer : Item → Pending Item → Pending Item
  offer x p =
      if ltb (length p.queue) capacity
      then record {
        queue = p.queue ++ x ∷ [];
        busy = p.busy;
        accepted = p.accepted ++ x ∷ [];
        done = p.done;
      }
      else p

  -- The worker receives from the queue.
  take_next : List Item → Option Item → Pending Item → Option (Pending Item)
  take_next (x ∷ rest) none p =
      some (record { queue = rest; busy = some x; accepted = p.accepted; done = p.done })
  take_next queue busy p = none

  unfoldable pub receive : Pending Item → Option (Pending Item)
  unfolding take_next
  receive p = take_next p.queue p.busy p

  -- Close's wg.Wait returns.
  is_drained : List Item → Option Item → Bool
  is_drained [] none = true
  is_drained queue busy = false

  unfoldable pub drained : Pending Item → Bool
  unfolding is_drained
  drained p = is_drained p.queue p.busy

module _ {Item W : Type 0} where
  -- Before the first Startup.
  abbrev pub idle : W → Global Item W
  idle w = record {
    gate = closed_gate 0;
    pending = nothing_pending;
    base = w;
    world = w;
    crashed = false;
  }

  -- The send of a caller that is past Instance, with `checked`; on a closed queue it panics.
  send_item : Item → ℕ → Global Item W → Option (Global Item W)
  unfolding offer
  send_item x zero g = none
  send_item x (suc n) g =
      if g.gate.sendable
      then some (record g { gate = record g.gate { checked = n }; pending = offer x g.pending })
      else some (record g { crashed = true })

  with_pending : Option (Pending Item) → Global Item W → Option (Global Item W)
  with_pending none g = none
  with_pending (some p) g = some (record g { pending = p })

module _ {G : Type 0} where
  unless_crashed : Bool → Option G → Option G
  unless_crashed true next = none
  unless_crashed false next = next

  continue_with : (G → Option G) → Option G → Option G
  continue_with f none = none
  continue_with f (some g) = f g

module _ {Item W E : Type 0} (engine : Engine Item W E) where
  validated : Result E Bool × W → Global Item W → Global Item W
  validated (err e, w) g = record g { world = engine.close_database w }
  validated (ok healthy, w) g = record g {
    gate = open_gate g.gate.checked;
    pending = nothing_pending;
    base = w;
    world = w;
  }

  opened : Result E (Unit {0}) × W → Global Item W → Global Item W
  unfolding validated
  opened (err e, w) g = record g { world = w }
  opened (ok u, w) g = validated (engine.validate w) g

  -- The worker's Insert of the item that it took; an error is logged only.
  insert_item : Option Item → Global Item W → Option (Global Item W)
  insert_item none g = none
  insert_item (some x) g = some (record g {
    pending = record g.pending { busy = none; done = g.pending.done ++ x ∷ [] };
    world = engine.insert x g.world;
  })

  -- What an event does; `none` where the goroutine cannot run, because it waits for the lock, for an
  -- item or for the worker.
  act : Event Item → Global Item W → Option (Global Item W)
  unfolding opened send_item with_pending receive insert_item drained
  act start_up g =
      if g.gate.closing
      then none
      else (if g.gate.started then some g else some (opened (engine.open_database g.world) g))
  act check_instance g =
      if g.gate.closing
      then none
      else (if g.gate.started
          then some (record g { gate = record g.gate { checked = suc g.gate.checked } })
          else some g)
  act (send x) g = send_item x g.gate.checked g
  act take g = with_pending (receive g.pending) g
  act finish g = insert_item g.pending.busy g
  act begin_close g =
      if g.gate.closing
      then none
      else (if g.gate.started
          then some (record g { gate = closing_gate g.gate.checked })
          else some g)
  act end_close g =
      if g.gate.closing && drained g.pending
      then some
          (record g { gate = closed_gate g.gate.checked; world = engine.close_database g.world })
      else none

  unfoldable pub step : Event Item → Global Item W → Option (Global Item W)
  unfolding act unless_crashed
  step e g = unless_crashed g.crashed (act e g)

  -- A schedule.
  unfoldable pub run : List (Event Item) → Global Item W → Option (Global Item W)
  unfolding step continue_with
  run [] g = some g
  run (e ∷ es) g = continue_with (run es) (step e g)
