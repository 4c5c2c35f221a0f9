-- ===== src/Handler/Start/Startup.antt =====
-- How far the start of the programs has come: `depth` says how long the chain of waiting is that ends
-- at an object, and one call of `start_programs` takes it one link further.
use mathlib.Core.List.{Memᴰ}
use scinit.Base.{
  ℕ, ℤ, suc, ◌<◌, ◌≡◌, refl, sym, ap, ◌∙◌, inl, inr, true, none, some, List, [], ◌∷◌, All, Map,
  lookup, nat_key, subst, ok, arith,
}
use scinit.Child.Types.{running, Condition, ChildProcess, WeakPtr, lock}
use scinit.Child.Lifecycle.States.{IsFulfilled}
use scinit.Child.Lifecycle.Awaitable.{IsAwaitable}
use scinit.Child.Fork.{do_fork}
use scinit.Handler.Types.{ProcessHandler}
use scinit.Handler.Start.{StartCalls, start_program, start_programs, notify_all}
use scinit.Handler.Start.Cases.{start_program_cases, start_all_inv, after_fork-heap}
use scinit.Handler.Start.GoesOn.{IsOpen, GoesOn, GoesOn-IsKept}
use scinit.Handler.Start.Pointwise.{
  Pointwise, Pointwise-refl, Pointwise-trans, start_programs-Pointwise,
}
use scinit.Handler.Start.Served.{start_programs-Runs}
use scinit.Handler.Start.Told.{as_ready}

-- The lists of a handler that `start_programs` leaves alone.
abbrev pub SameLists : ProcessHandler → ProcessHandler → Type 0
SameLists s t = (t.obj_for_id ≡ s.obj_for_id) × (t.all_objs ≡ s.all_objs)

start_program-SameLists :
    (calls : ℕ → StartCalls) (s : ProcessHandler) (ref : WeakPtr) (u v : ProcessHandler)
    → start_program calls ref u ≡ ok v
    → SameLists s u
    → SameLists s v
unfolding start_program
start_program-SameLists calls s none u v e same = ground arith
start_program-SameLists calls s (some r) u v e same = elim (start_program_cases calls r u v e) [
  | inl kept ↦ rw kept same
  | inr (c, here, _, begun) ↦
      let (_, objs, all) =
        after_fork-heap (calls r) r (do_fork (calls r).fork c u.id_for_pid) u v begun in
      (objs ∙ same.0, all ∙ same.1)
]

start_programs-SameLists :
    (calls : ℕ → StartCalls) (s t : ProcessHandler) → start_programs calls s ≡ ok t → SameLists s t
unfolding start_programs notify_all
start_programs-SameLists calls s t e =
    start_all_inv (SameLists s) calls s.all_objs (notify_all s) t (start_program-SameLists calls s)
      e (refl, refl)

-- The logger and the fork of each object succeed.
abbrev pub AllStartable : (ℕ → StartCalls) → ProcessHandler → Type 0
AllStartable calls s =
    (r : ℕ) (c : ChildProcess)
    → lookup r s.heap ≡ some c
    → ((calls r).logger ≡ true)
      × ((reg : Map ℤ ℕ) → (do_fork (calls r).fork (as_ready c) reg).error ≡ none)

module _ (depth : ℕ → ℕ) (s : ProcessHandler) where
  -- The object at `r` waits for one that is closer to the start to run.
  abbrev pub WaitsBelow : ℕ → Condition → Type 0
  WaitsBelow r (id, st) =
      (st ≡ running)
      × ((q : ℕ) × (b : ChildProcess) × (lookup id s.obj_for_id ≡ some (some q))
          × (lookup q s.heap ≡ some b)
          × (depth q < depth r))

  -- Each object is listed and has not ended, and waits only for objects closer to the start to run.
  pub record IsRanked : Type 0 where
    pub listed : (r : ℕ) (c : ChildProcess) → lookup r s.heap ≡ some c → Memᴰ (some r) s.all_objs
    pub is_open : (r : ℕ) (c : ChildProcess) → lookup r s.heap ≡ some c → IsOpen c.state
    pub ranked :
        (r : ℕ) (c : ChildProcess) → lookup r s.heap ≡ some c → All (WaitsBelow r) c.conditions

  -- In `t` all objects of a depth below `n` run.
  abbrev pub RunsBelow : ℕ → ProcessHandler → Type 0
  RunsBelow n t =
      (r : ℕ) (c : ChildProcess)
      → lookup r s.heap ≡ some c
      → depth r < n
      → (d : ChildProcess) × (lookup r t.heap ≡ some d) × (d.state ≡ running)

  pub record Reached (n : ℕ) (t : ProcessHandler) : Type 0 where
    pub lists : SameLists s t
    pub goes_on : Pointwise GoesOn s.heap t.heap
    pub below : RunsBelow n t

  module _ (k : IsRanked) where
    pub Reached-start : Reached 0 s
    Reached-start = record {
      lists = (refl, refl);
      goes_on = Pointwise-refl GoesOn-IsKept s.heap;
      below = λ r c found deep. absurd (omega arith);
    }

    -- What an object waits for is the case once all objects of a lower depth run.
    IsFulfilled-below :
        (n : ℕ) (t : ProcessHandler) (r : ℕ) (cs : List Condition)
        → Reached n t
        → depth r < suc n
        → All (WaitsBelow r) cs
        → All IsAwaitable cs × All (IsFulfilled t.obj_for_id t.heap) cs
    unfolding lock
    IsFulfilled-below n t r [] x deep w = (tt, tt)
    IsFulfilled-below n t r ((id, st) ∷ cs) x deep ((is, (q, b, known, there, closer)), w) =
        let (d, found, runs) = x.below q b there (omega arith) in
        let (proper, met) = IsFulfilled-below n t r cs x deep w in
        (
          (inl is, proper),
          ((some q, d, ap (lookup id) x.lists.0 ∙ known, found, runs ∙ sym is), met),
        )

    -- A call in which a start fails keeps what has been reached.
    pub start_programs-Reached_still :
        (calls : ℕ → StartCalls) (n : ℕ) (t u : ProcessHandler)
        → start_programs calls t ≡ ok u
        → Reached n t
        → Reached n u
    start_programs-Reached_still calls n t u e x =
        let same = start_programs-SameLists calls t u e in
        let on = start_programs-Pointwise GoesOn-IsKept calls t u e in
        record {
          lists = (same.0 ∙ x.lists.0, same.1 ∙ x.lists.1);
          goes_on = Pointwise-trans GoesOn-IsKept s.heap t.heap u.heap x.goes_on on;
          below = λ r c found deep.
              let (d, here, is) = x.below r c found deep in
              let (d', there, since) = on r d here in (d', there, since.runs_still is);
        }

    -- One call of `start_programs` starts all of the next depth.
    pub start_programs-Reached :
        (calls : ℕ → StartCalls) (n : ℕ) (t u : ProcessHandler)
        → AllStartable calls t
        → start_programs calls t ≡ ok u
        → Reached n t
        → Reached (suc n) u
    start_programs-Reached calls n t u well e x =
        let still = start_programs-Reached_still calls n t u e x in
        record { lists = still.lists; goes_on = still.goes_on; below = runs }
      where
        on : Pointwise GoesOn t.heap u.heap
        on = start_programs-Pointwise GoesOn-IsKept calls t u e

        runs : RunsBelow (suc n) u
        runs r c found deep =
            let (d, here, since) = x.goes_on r c found in
            let (logger, forks) = well r d here in
            let m : Memᴰ (some r) t.all_objs =
              subst (Memᴰ (some r)) (sym x.lists.1) (k.listed r c found) in
            elim (since.open_still (k.is_open r c found)) [
              | inr (inl is) ↦ start_programs-Runs calls t u r d m here (inl is) logger forks e
              | inr (inr is) ↦
                  let (d', there, on_it) = on r d here in (d', there, on_it.runs_still is)
              | inl is ↦
                  let (proper, met) =
                    IsFulfilled-below n t r d.conditions x deep
                      (rw since.conditions (k.ranked r c found)) in
                  start_programs-Runs calls t u r d m here (inr (is, proper, met)) logger forks e
            ]
