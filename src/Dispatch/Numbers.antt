-- ===== src/Dispatch/Numbers.antt =====
-- RunAll under every interleaving: no two goroutines draw one number.
use falcon_instrument_hub.Prelude.{
  get_elem?-set_ne, get_elem?-set_self, length-set, ℕ, zero, suc, ◌+◌, ◌^◌, ◌≤◌, ◌<◌, String, ◌≡◌,
  refl, sym, ap, subst, ◌∙◌, inl, inr, Option, none, some, List, [], ◌∷◌, map, arith, if◌then◌else◌,
  Bool-cases, ◌==◌, comparable_nat, comparable_string, ==_iff, length, get_elem?, set, length-map,
  All,
}
use falcon_instrument_hub.Prelude.Floats.{Floats}
use falcon_instrument_hub.Dispatch.{Program, Services, run_measurement}
use falcon_instrument_hub.Dispatch.Order.{results_in_order, OutcomeOf-id}
use falcon_instrument_hub.Dispatch.{stat, measure, register, return}
use falcon_instrument_hub.Dispatch.Pool.{
  begins, advances, here, next, Reach, Done, advances, begins, start, Reach, advance, Outcome, Done,
  Request, Task, waiting, running, finished, Pool, next_number, begin,
}

module _ {F : Floats} {S : Services F} where
  -- The number that a goroutine has drawn.
  abbrev pub number : Option (Task S) → Option ℕ
  number (some (running n p)) = some n
  number (some (finished n)) = some n
  number _ = none

  pub begun : List (Task S) → ℕ
  begun [] = 0
  begun (waiting q ∷ ts) = begun ts
  begun (running n p ∷ ts) = suc (begun ts)
  begun (finished n ∷ ts) = suc (begun ts)

  begun-set_waiting :
      (ts : List (Task S)) (i n : ℕ) (q : Request S) (p : _)
      → get_elem? ts i ≡ some (waiting q)
      → begun (set ts i (running n p)) ≡ suc (begun ts)
  unfolding begun
  begun-set_waiting [] i n q p h = cc
  begun-set_waiting (waiting r ∷ ts) zero n q p h = refl
  begun-set_waiting (running m r ∷ ts) zero n q p h = cc
  begun-set_waiting (finished m ∷ ts) zero n q p h = cc
  begun-set_waiting (waiting r ∷ ts) (suc i) n q p h = begun-set_waiting ts i n q p h
  begun-set_waiting (running m r ∷ ts) (suc i) n q p h = ap suc (begun-set_waiting ts i n q p h)
  begun-set_waiting (finished m ∷ ts) (suc i) n q p h = ap suc (begun-set_waiting ts i n q p h)

  -- A task with a number, replaced by another with a number.
  begun-set_drawn :
      (ts : List (Task S)) (i n m : ℕ) (t : Task S)
      → number (get_elem? ts i) ≡ some n
      → number (some t) ≡ some m
      → begun (set ts i t) ≡ begun ts
  unfolding begun
  begun-set_drawn [] i n m t h k = refl
  begun-set_drawn (waiting r ∷ ts) zero n m t h k = cc
  begun-set_drawn (running x r ∷ ts) zero n m (waiting q) h k = cc
  begun-set_drawn (running x r ∷ ts) zero n m (running y q) h k = refl
  begun-set_drawn (running x r ∷ ts) zero n m (finished y) h k = refl
  begun-set_drawn (finished x ∷ ts) zero n m (waiting q) h k = cc
  begun-set_drawn (finished x ∷ ts) zero n m (running y q) h k = refl
  begun-set_drawn (finished x ∷ ts) zero n m (finished y) h k = refl
  begun-set_drawn (waiting r ∷ ts) (suc i) n m t h k = begun-set_drawn ts i n m t h k
  begun-set_drawn (running x r ∷ ts) (suc i) n m t h k = ap suc (begun-set_drawn ts i n m t h k)
  begun-set_drawn (finished x ∷ ts) (suc i) n m t h k = ap suc (begun-set_drawn ts i n m t h k)

  begun-le : (ts : List (Task S)) → begun ts ≤ length ts
  unfolding begun
  begun-le [] = omega arith
  begun-le (waiting q ∷ ts) = omega (arith, begun-le ts)
  begun-le (running n p ∷ ts) = omega (arith, begun-le ts)
  begun-le (finished n ∷ ts) = omega (arith, begun-le ts)

  -- `c` is the counter before RunAll and `k` the number of requests.
  pub record Numbered (c k : ℕ) (p : Pool S) : Type 0 where
    pub size : length p.tasks ≡ k
    pub counted : p.counter ≡ c + begun p.tasks
    pub drawn : (i n : ℕ) → number (get_elem? p.tasks i) ≡ some n → n ≤ p.counter
    pub distinct :
        (i j n : ℕ)
        → number (get_elem? p.tasks i) ≡ some n
        → number (get_elem? p.tasks j) ≡ some n
        → i ≡ j

  -- The numbers after the goroutine at `i` has changed to `t`.
  number-set :
      (ts : List (Task S)) (i j : ℕ) (old t : Task S)
      → get_elem? ts i ≡ some old
      → number (get_elem? (set ts i t) j)
        ≡ (if i == j then number (some t) else number (get_elem? ts j))
  number-set ts i j old t h = elim (Bool-cases (i == j)) [
    | inl e ↦ rw e (
        subst (λ k. number (get_elem? (set ts i t) k) ≡ number (some t)) ((==_iff i j).0 e)
          (ap number (get_elem?-set_self ts i old t h)))
    | inr e ↦ rw e (ap number (get_elem?-set_ne ts i j t (λ q. ground (arith, ==_iff i j))))
  ]

module _ {F : Floats} (S : Services F) where
  begun-map_waiting : (qs : List (Request S)) → begun {S = S} (map waiting qs) ≡ 0
  unfolding begun
  begun-map_waiting [] = refl
  begun-map_waiting (q ∷ qs) = begun-map_waiting qs

  number-map_waiting :
      (qs : List (Request S)) (i : ℕ) → number {S = S} (get_elem? (map waiting qs) i) ≡ none
  number-map_waiting [] i = refl
  number-map_waiting (q ∷ qs) zero = refl
  number-map_waiting (q ∷ qs) (suc i) = number-map_waiting qs i

module _ {F : Floats} (S : Services F) (join : String → String → String) (scripts : String)
    (sprintf : ℕ → String) (c k : ℕ) (room : c + k < 2 ^ 64) where
  next_number_lem :
      (p : Pool S)
      → Numbered c k p
      → begun p.tasks < k
      → next_number S join scripts sprintf p.counter ≡ p.counter + 1
  unfolding next_number
  next_number_lem p v h = omega (arith, v.counted)

  begin-Numbered :
      (p : Pool S) (i : ℕ) (req : Request S)
      → get_elem? p.tasks i ≡ some (waiting req)
      → Numbered c k p
      → Numbered c k (begin S join scripts sprintf i req p)
  unfolding begin
  begin-Numbered p i req h v = record {
    size = length-set p.tasks i new ∙ v.size;
    counted = fresh ∙ omega (arith, v.counted, grown);
    drawn = λ j n e. elim (Bool-cases (i == j)) [
      | inl q ↦ ground (arith, number-set p.tasks i j (waiting req) new h, q, e)
      | inr q ↦
          let old : number (get_elem? p.tasks j) ≡ some n =
            ground (arith, number-set p.tasks i j (waiting req) new h, q, e) in
          omega (arith, v.drawn j n old, fresh)
    ];
    distinct = λ a b n e f.
        apart a b n (rw (number-set p.tasks i a (waiting req) new h) at e)
          (rw (number-set p.tasks i b (waiting req) new h) at f);
  }
    where
      new : Task S
      new = running (next_number S join scripts sprintf p.counter) (
          run_measurement join scripts (sprintf (next_number S join scripts sprintf p.counter)) req)

      grown : begun (set p.tasks i new) ≡ suc (begun p.tasks)
      grown = begun-set_waiting p.tasks i _ req _ h

      fresh : next_number S join scripts sprintf p.counter ≡ p.counter + 1
      fresh =
          next_number_lem p v
            (omega (arith, grown, begun-le (set p.tasks i new), length-set p.tasks i new, v.size))

      apart :
          (a b n : ℕ)
          → (if i == a
              then some (next_number S join scripts sprintf p.counter)
              else number (get_elem? p.tasks a))
            ≡ some n
          → (if i == b
              then some (next_number S join scripts sprintf p.counter)
              else number (get_elem? p.tasks b))
            ≡ some n
          → a ≡ b
      apart a b n e f =
          ground (arith, fresh, ==_iff i a, ==_iff i b, v.drawn a n, v.drawn b n, v.distinct a b n)

  -- The goroutine at `i` keeps its number.
  replace-Numbered :
      (p : Pool S) (i n : ℕ) (old t : Task S) (w : S.World) (results : List (Option (Outcome S)))
      → get_elem? p.tasks i ≡ some old
      → number (some old) ≡ some n
      → number (some t) ≡ some n
      → Numbered c k p
      → Numbered c k (record p { world = w; tasks = set p.tasks i t; results = results })
  replace-Numbered p i n old t w results h o e v = record {
    size = length-set p.tasks i t ∙ v.size;
    counted =
        v.counted ∙ ap (λ x. c + x) (sym (begun-set_drawn p.tasks i n n t (ap number h ∙ o) e));
    drawn = λ j m q. v.drawn j m (sym (kept j) ∙ q);
    distinct = λ a b m q r. v.distinct a b m (sym (kept a) ∙ q) (sym (kept b) ∙ r);
  }
    where
      kept : (j : ℕ) → number (get_elem? (set p.tasks i t) j) ≡ number (get_elem? p.tasks j)
      kept j = elim (Bool-cases (i == j)) [
        | inl q ↦
            number-set p.tasks i j old t h
            ∙ rw q (
                e
                ∙ sym o
                ∙ sym (ap number h)
                ∙ ap (λ x. number (get_elem? p.tasks x)) ((==_iff i j).0 q))
        | inr q ↦ number-set p.tasks i j old t h ∙ rw q
      ]

  advance-Numbered :
      (p : Pool S) (i n : ℕ) (q : Program F S.Failure (Outcome S))
      → get_elem? p.tasks i ≡ some (running n q)
      → Numbered c k p
      → Numbered c k (advance S join scripts sprintf i n q p)
  unfolding advance
  advance-Numbered p i n (return r) h v =
      replace-Numbered p i n (running n (return r)) (finished n) p.world (set p.results i (some r))
        h refl refl v
  advance-Numbered p i n (stat path f) h v =
      replace-Numbered p i n (running n (stat path f)) (running n (f (S.stat_path path p.world).0))
        (S.stat_path path p.world).1 p.results h refl refl v
  advance-Numbered p i n (measure path vs f) h v =
      replace-Numbered p i n (running n (measure path vs f))
        (running n (f (S.run_script path vs p.world).0)) (S.run_script path vs p.world).1 p.results
        h refl refl v
  advance-Numbered p i n (register r id f) h v =
      replace-Numbered p i n (running n (register r id f))
        (running n (f (S.register_buffer r id p.world).0)) (S.register_buffer r id p.world).1
        p.results h refl refl v

  Reach-Numbered :
      {p q : Pool S} → Numbered c k p → Reach S join scripts sprintf p q → Numbered c k q
  Reach-Numbered v here = v
  Reach-Numbered v (next r (begins {p = p} i req h)) = begin-Numbered p i req h (Reach-Numbered v r)
  Reach-Numbered v (next r (advances {p = p} i n q h)) =
      advance-Numbered p i n q h (Reach-Numbered v r)

module _ {F : Floats} (S : Services F) (join : String → String → String) (scripts : String)
    (sprintf : ℕ → String) where
  start-Numbered :
      (c : ℕ) (w : S.World) (reqs : List (Request S))
      → Numbered c (length reqs) (start S join scripts sprintf c w reqs)
  unfolding start
  start-Numbered c w reqs = record {
    size = length-map waiting reqs;
    counted = omega (arith, begun-map_waiting S reqs);
    drawn = λ i n h. cc (number-map_waiting S reqs i);
    distinct = λ i j n h k. cc (number-map_waiting S reqs i);
  }

  -- As long as the uint64 counter does not wrap, and Sprintf renders different numbers as different
  -- texts, two entries of the finished results never carry the same measurement ID.
  pub measurement_ids_differ :
      (c : ℕ) (w : S.World) (reqs : List (Request S)) (p : Pool S)
      → c + length reqs < 2 ^ 64
      → ((m n : ℕ) → sprintf m ≡ sprintf n → m ≡ n)
      → Reach S join scripts sprintf (start S join scripts sprintf c w reqs) p
      → All (Done S) p.tasks
      → (i j : ℕ) (a b : Request S) → get_elem? reqs i ≡ some a
      → get_elem? reqs j ≡ some b
      → (r s : Outcome S) → get_elem? p.results i ≡ some (some r)
      → get_elem? p.results j ≡ some (some s)
      → r.id ≡ s.id
      → i ≡ j
  measurement_ids_differ c w reqs p room injective run done i j a b hi hj r s ri sj same =
      let (m, r', ti, ri', oi) =
        results_in_order S join scripts sprintf c w reqs p run done i a hi in
      let (n, s', tj, sj', oj) =
        results_in_order S join scripts sprintf c w reqs p run done j b hj in
      let er : r ≡ r' = cc in
      let es : s ≡ s' = cc in
      let e : m ≡ n = injective m n (
        sym (OutcomeOf-id S join scripts sprintf m a r' oi)
        ∙ ap (λ x. x.id) (sym er)
        ∙ same
        ∙ ap (λ x. x.id) es
        ∙ OutcomeOf-id S join scripts sprintf n b s' oj) in
      let v : Numbered c (length reqs) p =
        Reach-Numbered S join scripts sprintf c (length reqs) room (start-Numbered c w reqs) run in
      v.distinct i j n (ap number ti ∙ ap some e) (ap number tj)
