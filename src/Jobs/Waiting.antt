-- ===== src/Jobs/Waiting.antt =====
-- The polling loop of waitForMeasureJob ends.
use falcon_instrument_hub.Prelude.{
  ℕ, zero, suc, ◌+◌, ◌-◌, ◌≤◌, ◌<◌, ◌≡◌, refl, ◌∙◌, inl, inr, some, List, arith, ltb, Bool-cases,
  Option-cases, comparable_nat, comparable_string, Result, ok, err, wrap,
}
use falcon_instrument_hub.Prelude.Floats.{Floats}
use falcon_instrument_hub.Jobs.{
  Poll, JobResult, CommandResult, JobStatus, rpc, job_timeout, completed, failed, cancelled,
  canceling, answered, poll_once, wait_from,
}

module _ {F : Floats} {Failure : Type 0} (job deadline : ℕ) (polls : ℕ → Poll F Failure) where
  -- Each round starts later than the one before it, since the loop sleeps between them.
  abbrev pub Ticks : Type 0
  Ticks = (k : ℕ) → (polls k).now < (polls (suc k)).now

  poll_late :
      (p : Poll F Failure)
      → deadline < p.now
      → poll_once job deadline p ≡ some (err (job_timeout job))
  unfolding poll_once
  poll_late p h = ground arith

  wait_from_total :
      (fuel k : ℕ)
      → Ticks
      → deadline + 1 < (polls k).now + fuel
      → (0 < fuel)
      → (r : JobResult F Failure) × (wait_from fuel job deadline polls k ≡ some r)
  unfolding wait_from
  wait_from_total zero k t h p = elim p [ ]
  wait_from_total (suc zero) k t h p =
      (err (job_timeout job), rw (poll_late (polls k) (omega arith), wait_from))
  wait_from_total (suc (suc fuel)) k t h p =
      elim (Option-cases (poll_once job deadline (polls k))) [
        | inl e ↦
            let (r, q) = wait_from_total (suc fuel) (suc k) t (omega (arith, t k)) (omega arith) in
            (r, rw (e, wait_from) q)
        | inr (r, e) ↦ (r, rw (e, wait_from))
      ]

  -- If the clock moves between the rounds, the loop returns after at most as many rounds as the time
  -- to the deadline and two more, the one that returns included.
  pub wait_from_terminates :
      Ticks
      → (r : JobResult F Failure) × (wait_from (deadline - (polls 0).now + 2) job deadline polls 0
          ≡ some r)
  wait_from_terminates t =
      wait_from_total (deadline - (polls 0).now + 2) 0 t (omega arith) (omega arith)

  wrap_rpc_ok :
      (r : Result Failure (List (CommandResult F))) (cs : List (CommandResult F))
      → ◌≡◌ {A = JobResult F Failure} (wrap rpc r) (ok cs)
      → r ≡ ok cs
  wrap_rpc_ok (ok ds) cs h = cc
  wrap_rpc_ok (err e) cs h = cc

  answered-ok :
      (s : Result Failure JobStatus) (r : Result Failure (List (CommandResult F)))
      (cs : List (CommandResult F))
      → answered job r s ≡ some (ok cs)
      → (s ≡ ok completed) × (r ≡ ok cs)
  unfolding answered
  answered-ok (err e) r cs h = cc
  answered-ok (ok completed) r cs h = (refl, wrap_rpc_ok r cs (cc h))
  answered-ok (ok failed) r cs h = cc
  answered-ok (ok cancelled) r cs h = cc
  answered-ok (ok canceling) r cs h = cc
  answered-ok (ok _) r cs h = cc

  -- The round's clock and answers with which the loop can return a job's results.
  pub Completes : ℕ → List (CommandResult F) → Type 0
  Completes k cs =
      ((polls k).now ≤ deadline) × ((polls k).status ≡ ok completed) × ((polls k).result ≡ ok cs)

  poll_once-ok :
      (k : ℕ) (cs : List (CommandResult F))
      → poll_once job deadline (polls k) ≡ some (ok cs)
      → Completes k cs
  unfolding poll_once Completes
  poll_once-ok k cs h = elim (Bool-cases (ltb deadline (polls k).now)) [
    | inl late ↦ absurd (cc (rw late at h))
    | inr early ↦
        let a = answered-ok (polls k).status (polls k).result cs (rw early at h) in
        (ground arith, a.0, a.1)
  ]

  -- The loop returns results only from a round that began by the deadline, in which the daemon
  -- reported the job as completed and handed these results over.
  pub wait_from-ok :
      (fuel k : ℕ) (cs : List (CommandResult F))
      → wait_from fuel job deadline polls k ≡ some (ok cs)
      → (j : ℕ) × (k ≤ j) × Completes j cs
  unfolding wait_from
  wait_from-ok zero k cs h = cc
  wait_from-ok (suc fuel) k cs h = elim (Option-cases (poll_once job deadline (polls k))) [
    | inl e ↦
        let (j, le, c) = wait_from-ok fuel (suc k) cs (rw (e, wait_from) at h) in
        (j, omega arith, c)
    | inr (r, e) ↦ (k, omega arith, poll_once-ok k cs (e ∙ rw (e, wait_from) at h))
  ]
