-- ===== src/Queue/Order.antt =====
-- runtime/internal/measurementdb/global.go: what the queue of InsertAsync, the worker and Close
-- keep, whatever the order in which they run.
use falcon_instrument_hub.Prelude.{
  ℕ, zero, suc, ◌≤◌, ◌≡◌, refl, sym, ap, subst, ◌∙◌, inl, inr, Bool, true, false, ◌&&◌, Option,
  none, some, List, [], ◌∷◌, ◌++◌, append_assoc, append-nil, arith, ltb, if◌then◌else◌, ltb→lt,
  Bool-cases, comparable_nat, comparable_string, length, length-append, Result, ok, err,
}
use falcon_instrument_hub.Queue.{
  Engine, Pending, Global, Event, start_up, check_instance, send, take, finish, begin_close,
  end_close, capacity, closed_gate, offer, take_next, receive, is_drained, drained, idle, send_item,
  with_pending, validated, opened, insert_item, act, step, unless_crashed, continue_with, run,
}

abbrev Holds : {A : Type 0} → (A → Type 0) → Option A → Type 0
Holds P none = Unit
Holds P (some a) = P a

module _ {Item : Type 0} where
  -- The item that the worker holds.
  abbrev pub held : Option Item → List Item
  held none = []
  held (some x) = x ∷ []

  -- What was accepted and is not inserted yet is held by the worker or waits, in order.
  abbrev pub InOrder : Pending Item → Type 0
  InOrder p = (p.accepted ≡ p.done ++ (held p.busy ++ p.queue)) × (length p.queue ≤ capacity)

  offer-InOrder : (x : Item) (p : Pending Item) → InOrder p → InOrder (offer x p)
  unfolding offer
  offer-InOrder x p (e, b) = elim (Bool-cases (ltb (length p.queue) capacity)) [
    | inl t ↦ rw t (
      rw e (
          append_assoc p.done (held p.busy ++ p.queue) (x ∷ [])
          ∙ ap (λ z. p.done ++ z) (append_assoc (held p.busy) p.queue (x ∷ []))),
      omega (arith, ltb→lt (length p.queue) capacity t, length-append p.queue (x ∷ [])),
    )
    | inr f ↦ rw f (e, b)
  ]

  offer_done : (x : Item) (p : Pending Item) → (offer x p).done ≡ p.done
  unfolding offer
  offer_done x p = elim (Bool-cases (ltb (length p.queue) capacity)) [
    | inl t ↦ rw t refl
    | inr f ↦ rw f refl
  ]

  not_drained : {P : Type 0} → (x : Item) (queue : List Item) → is_drained queue (some x) ≡ true → P
  unfolding is_drained
  not_drained x [] h = cc h
  not_drained x (y ∷ ys) h = cc h

  is_drained-held :
      (queue : List Item) (busy : Option Item)
      → is_drained queue busy ≡ true
      → held busy ++ queue ≡ []
  unfolding is_drained
  is_drained-held [] none h = refl
  is_drained-held [] (some x) h = cc h
  is_drained-held (y ∷ ys) none h = cc h
  is_drained-held (y ∷ ys) (some x) h = cc h

  all_done : (p : Pending Item) → drained p ≡ true → p.done ++ (held p.busy ++ p.queue) ≡ p.done
  unfolding drained
  all_done p h = rw (is_drained-held p.queue p.busy h) (append-nil p.done)

module _ {Item W E : Type 0} (engine : Engine Item W E) where
  -- The inserts one after the other.
  abbrev pub insert_all : W → List Item → W
  insert_all w [] = w
  insert_all w (x ∷ xs) = insert_all (engine.insert x w) xs

  insert_all-append :
      (w : W) (xs : List Item) (x : Item)
      → insert_all w (xs ++ x ∷ []) ≡ engine.insert x (insert_all w xs)
  insert_all-append w [] x = refl
  insert_all-append w (y ∷ ys) x = insert_all-append (engine.insert y w) ys x

  -- Between Startup and Close the database is what the worker's inserts made of it; when the
  -- database is not started nothing waits.
  abbrev pub IsConsistent : Global Item W → Type 0
  IsConsistent g =
      InOrder g.pending
      × (g.gate.started ≡ true → g.world ≡ insert_all g.base g.pending.done)
      × (g.gate.started ≡ false → drained g.pending ≡ true)
      × (g.gate.closing ≡ true → g.gate.started ≡ true)
      × (g.gate.sendable ≡ true → g.gate.started ≡ true)

  validated-IsConsistent :
      (r : Result E Bool × W) (g : Global Item W)
      → IsConsistent g
      → g.gate.started ≡ false
      → IsConsistent (validated engine r g)
  unfolding validated
  validated-IsConsistent (err e, w) g (o, _, d, c, n) f = (o, λ t. cc (t, f), d, c, n)
  validated-IsConsistent (ok healthy, w) g (o, _, d, c, n) f =
      ((refl, omega arith), λ t. refl, λ t. cc t, λ t. refl, λ t. refl)

  opened-IsConsistent :
      (r : Result E (Unit {0}) × W) (g : Global Item W)
      → IsConsistent g
      → g.gate.started ≡ false
      → IsConsistent (opened engine r g)
  unfolding opened
  opened-IsConsistent (err e, w) g (o, _, d, c, n) f = (o, λ t. cc (t, f), d, c, n)
  opened-IsConsistent (ok u, w) g c f = validated-IsConsistent (engine.validate w) g c f

  send_item-IsConsistent :
      (x : Item) (n : ℕ) (g : Global Item W) → IsConsistent g → Holds IsConsistent (send_item x n g)
  unfolding send_item
  send_item-IsConsistent x zero g c = tt
  send_item-IsConsistent x (suc n) g (o, w, d, c, s) = elim (Bool-cases g.gate.sendable) [
    | inl t ↦ rw t (
      offer-InOrder x g.pending o,
      λ u. w u ∙ ap (insert_all g.base) (sym (offer_done x g.pending)),
      λ f. cc (f, s t),
      c,
      λ u. s t,
    )
    | inr f ↦ rw f (o, w, d, c, λ u. cc u)
  ]

  take-IsConsistent :
      (queue : List Item) (busy : Option Item) (g : Global Item W)
      → g.pending.accepted ≡ g.pending.done ++ (held busy ++ queue)
      → length queue ≤ capacity
      → (g.gate.started ≡ true → g.world ≡ insert_all g.base g.pending.done)
      → (g.gate.started ≡ false → is_drained queue busy ≡ true)
      → (g.gate.closing ≡ true → g.gate.started ≡ true)
      → (g.gate.sendable ≡ true → g.gate.started ≡ true)
      → Holds IsConsistent (with_pending (take_next queue busy g.pending) g)
  unfolding with_pending take_next is_drained
  take-IsConsistent (x ∷ rest) none g e b w d c s = ((e, omega (arith, b)), w, λ f. cc (d f), c, s)
  take-IsConsistent [] none g e b w d c s = tt
  take-IsConsistent [] (some y) g e b w d c s = tt
  take-IsConsistent (x ∷ rest) (some y) g e b w d c s = tt

  insert_item-IsConsistent :
      (busy : Option Item) (g : Global Item W)
      → g.pending.accepted ≡ g.pending.done ++ (held busy ++ g.pending.queue)
      → length g.pending.queue ≤ capacity
      → (g.gate.started ≡ true → g.world ≡ insert_all g.base g.pending.done)
      → (g.gate.started ≡ false → is_drained g.pending.queue busy ≡ true)
      → (g.gate.closing ≡ true → g.gate.started ≡ true)
      → (g.gate.sendable ≡ true → g.gate.started ≡ true)
      → Holds IsConsistent (insert_item engine busy g)
  unfolding insert_item
  insert_item-IsConsistent none g e b w d c s = tt
  insert_item-IsConsistent (some x) g e b w d c s = (
    (e ∙ sym (append_assoc g.pending.done (x ∷ []) g.pending.queue), b),
    λ t. ap (engine.insert x) (w t) ∙ sym (insert_all-append g.base g.pending.done x),
    λ f. not_drained x g.pending.queue (d f),
    c,
    s,
  )

  act-IsConsistent :
      (e : Event Item) (g : Global Item W) → IsConsistent g → Holds IsConsistent (act engine e g)
  unfolding act
  act-IsConsistent start_up g c =
      ground (arith, c, opened-IsConsistent (engine.open_database g.world) g c)
  act-IsConsistent check_instance g c = ground (arith, c)
  act-IsConsistent (send x) g c = send_item-IsConsistent x g.gate.checked g c
  act-IsConsistent take g (o, w, d, c, s) =
      unfold receive drained in take-IsConsistent g.pending.queue g.pending.busy g o.0 o.1 w d c s
  act-IsConsistent finish g (o, w, d, c, s) =
      unfold drained in insert_item-IsConsistent g.pending.busy g o.0 o.1 w d c s
  act-IsConsistent begin_close g c = ground (arith, c)
  act-IsConsistent end_close g c = ground (arith, c)

  alive-Holds :
      (crashed : Bool) (next : Option (Global Item W))
      → Holds IsConsistent next
      → Holds IsConsistent (unless_crashed crashed next)
  unfolding unless_crashed
  alive-Holds true next h = tt
  alive-Holds false next h = h

  run-IsConsistent :
      (es : List (Event Item)) (o : Option (Global Item W)) (h : Global Item W)
      → Holds IsConsistent o
      → continue_with (run engine es) o ≡ some h
      → IsConsistent h
  unfolding continue_with run step
  run-IsConsistent es none h c e = cc e
  run-IsConsistent [] (some g) h c e = subst (Holds IsConsistent) e c
  run-IsConsistent (x ∷ es) (some g) h c e =
      run-IsConsistent es (unless_crashed g.crashed (act engine x g)) h
        (alive-Holds g.crashed (act engine x g) (act-IsConsistent x g c)) e

  idle-IsConsistent : (w : W) → IsConsistent (idle w)
  unfolding drained is_drained
  idle-IsConsistent w = ((refl, omega arith), λ t. refl, λ f. refl, λ t. t, λ t. t)

  run-idle-IsConsistent :
      (w : W) (es : List (Event Item)) (g : Global Item W)
      → run engine es (idle w) ≡ some g
      → IsConsistent g
  unfolding continue_with
  run-idle-IsConsistent w es g e = run-IsConsistent es (some (idle w)) g (idle-IsConsistent w) e

  -- Whatever the order in which the callers of InsertAsync, the worker, Startup and Close run: what
  -- InsertAsync accepted since the last Startup is, in the order of acceptance, what the worker has
  -- inserted, the item that it holds and what waits, and at most 100 wait.
  pub run-InOrder :
      (w : W) (es : List (Event Item)) (g : Global Item W)
      → run engine es (idle w) ≡ some g
      → InOrder g.pending
  run-InOrder w es g e = (run-idle-IsConsistent w es g e).0

  enabled :
      (crashed b : Bool) (x g : Global Item W)
      → unless_crashed crashed (if b then some x else none) ≡ some g
      → (b ≡ true) × (x ≡ g)
  unfolding unless_crashed
  enabled true b x g h = cc h
  enabled false true x g h = (refl, cc h)
  enabled false false x g h = cc h

  -- When Close returns, whatever ran before it, every item that InsertAsync accepted since Startup
  -- has been inserted: the database is what those inserts, one after the other in the order of
  -- acceptance, make of the database of Startup, and closed.
  pub end_close_inserts_accepted :
      (w : W) (es : List (Event Item)) (g h : Global Item W)
      → run engine es (idle w) ≡ some g
      → step engine end_close g ≡ some h
      → h.world ≡ engine.close_database (insert_all g.base g.pending.accepted)
  unfolding step act
  end_close_inserts_accepted w es g h e s =
      let ((o, _), d, _, c, _) = run-idle-IsConsistent w es g e in
      let (both, same) =
        enabled g.crashed (g.gate.closing && drained g.pending)
          (record g { gate = closed_gate g.gate.checked; world = engine.close_database g.world }) h
          s in
      let closing : g.gate.closing ≡ true = ground (arith, both) in
      let empty : drained g.pending ≡ true = ground (arith, both) in
      sym (ap (λ z. z.world) same)
      ∙ ap engine.close_database
          (d (c closing) ∙ ap (insert_all g.base) (sym (o ∙ all_done g.pending empty)))
