-- ===== src/Handler/Start/Served.antt =====
-- Every process that may be started is started by `start_programs`.
use mathlib.Core.List.{Memᴰ}
use scinit.Base.{
  some-injective, for_each_inv, ◌&&◌, ℕ, ℤ, ◌≡◌, ◌≢◌, ◌⊎◌, refl, sym, ap, ◌∙◌, inl, inr, true, none,
  some, List, [], ◌∷◌, All, Map, lookup, nat_key, key_cases, Bool-cases, subst, ok, err,
  ok-injective, >>=-eq-ok, lookup-insert_ne,
}
use scinit.Child.Types.{ProcessState, blocked, ready, running, ChildProcess, WeakPtr}
use scinit.Child.Lifecycle.States.{IsFulfilled}
use scinit.Child.Lifecycle.Awaitable.{IsAwaitable}
use scinit.Child.Fork.{do_fork}
use scinit.Handler.Types.{ProcessHandler, Result, Fault}
use scinit.Handler.Start.Thrown.{forked, start_program_lem}
use scinit.Handler.Start.{StartCalls, notify, notify_all, start_program, start_all, start_programs}
use scinit.Handler.Start.Cases.{start_program_cases, start_all_inv, after_fork-heap}
use scinit.Handler.Start.Kept.{Kept, start_program-Kept}
use scinit.Handler.Start.Told.{as_ready, notify-kept, notify_loop-IsReady}

module _ (calls : ℕ → StartCalls) (r : ℕ) (c : ChildProcess) (is_ready : c.state ≡ ready)
    (named : (calls r).logger ≡ true)
    (forks : (reg : Map ℤ ℕ) → (do_fork (calls r).fork c reg).error ≡ none) where
  abbrev Runs : ProcessHandler → Type 0
  Runs t = (d : ChildProcess) × (lookup r t.heap ≡ some d) × (d.state ≡ running)

  start_itself :
      (s t : ProcessHandler)
      → lookup r s.heap ≡ some c
      → start_program calls (some r) s ≡ ok t
      → Runs t
  start_itself s t here e =
      let (watched, refused, _, _) = start_program_lem calls r c s here is_ready named in
      elim (Bool-cases ((calls r).stdout_epoll && (calls r).stderr_epoll)) [
        | inl both ↦
            let (u, result, (there, runs, _, _, _, _)) = watched (forks s.id_for_pid) both in
            (
              (forked calls r c s).child,
              subst (λ (x : ProcessHandler). lookup r x.heap ≡ some (forked calls r c s).child)
                  (ok-injective (sym result ∙ e)) there,
              runs,
            )
        | inr unwatched ↦ absurd (differ (sym (refused (forks s.id_for_pid) unwatched) ∙ e))
      ]
    where
      differ : {x : Fault} → ◌≡◌ {A = Result ProcessHandler} (err x) (ok t) → ⊥
      differ p = cc

  start_other :
      (q : ℕ) (s t : ProcessHandler)
      → r ≢ q
      → start_program calls (some q) s ≡ ok t
      → lookup r t.heap ≡ lookup r s.heap
  start_other q s t ne e = elim (start_program_cases calls q s t e) [
    | inl same ↦ ap (λ (x : ProcessHandler). lookup r x.heap) same
    | inr (d, found, _, begun) ↦
        ap (lookup r)
          ((after_fork-heap (calls q) q (do_fork (calls q).fork d s.id_for_pid) s t begun).0)
        ∙ lookup-insert_ne q r _ s.heap ne
  ]

  -- A process that runs is not started again.
  Runs-stays :
      (refs : List WeakPtr) (s t : ProcessHandler) → start_all calls refs s ≡ ok t → Runs s → Runs t
  Runs-stays refs s t e (d, there, runs) = (
    d,
    start_all_inv (Kept s.heap) calls refs s t (start_program-Kept calls s.heap) e
        (λ q x found ne. found) r d there (λ p. not_both runs p),
    runs,
  )
    where
      not_both : {st : ProcessState} → st ≡ running → st ≡ ready → ⊥
      not_both p q = cc

  start_all-Runs :
      (refs : List WeakPtr) (s t : ProcessHandler)
      → Memᴰ (some r) refs
      → lookup r s.heap ≡ some c
      → start_all calls refs s ≡ ok t
      → Runs t
  unfolding start_all start_program
  start_all-Runs [] s t m here e = elim m [ ]
  start_all-Runs (none ∷ refs) s t (Memᴰ.head p) here e = absurd (cc p)
  start_all-Runs (none ∷ refs) s t (Memᴰ.tail m) here e = start_all-Runs refs s t m here e
  start_all-Runs (some q ∷ refs) s t m here e =
      let (u, first, later) =
        >>=-eq-ok (start_program calls (some q) s) (λ v. start_all calls refs v) e in
      elim (key_cases r q) [
        | inl eq ↦
            Runs-stays refs u t later
              (start_itself s u here (ap (λ k. start_program calls (some k) s) eq ∙ first))
        | inr ne ↦ start_all-Runs refs u t (in_rest ne m) (start_other q s u ne first ∙ here) later
      ]
    where
      in_rest : r ≢ q → Memᴰ (some r) (some q ∷ refs) → Memᴰ (some r) refs
      in_rest ne (Memᴰ.head p) = absurd (ne (some-injective p))
      in_rest ne (Memᴰ.tail n) = n

-- Every process that may be started is started: if a listed process is READY, or is BLOCKED and all
-- that it waits for is the case, for states RUNNING and DONE, then it is RUNNING when `start_programs`
-- has returned, given that its logger can be made and its `do_fork` throws nothing.
pub start_programs-Runs :
    (calls : ℕ → StartCalls) (s t : ProcessHandler) (r : ℕ) (c : ChildProcess)
    → Memᴰ (some r) s.all_objs
    → lookup r s.heap ≡ some c
    → (c.state ≡ ready)
      ⊎ ((c.state ≡ blocked)
          × All IsAwaitable c.conditions
          × All (IsFulfilled s.obj_for_id s.heap) c.conditions)
    → (calls r).logger ≡ true
    → ((reg : Map ℤ ℕ) → (do_fork (calls r).fork (as_ready c) reg).error ≡ none)
    → start_programs calls s ≡ ok t
    → (d : ChildProcess) × (lookup r t.heap ≡ some d) × (d.state ≡ running)
unfolding start_programs notify_all
start_programs-Runs calls s t r c m here may named forks e =
    start_all-Runs calls r (as_ready c) refl named forks s.all_objs (notify_all s) t m told e
  where
    told : lookup r (notify_all s).heap ≡ some (as_ready c)
    told = elim may [
      | inr (waits, proper, met) ↦
          notify_loop-IsReady s.obj_for_id r c waits proper s.all_objs s.heap m here met
      | inl is ↦
          let same : as_ready c ≡ c = ap (λ st. record c { state = st }) (sym is) in
          for_each_inv (λ h. lookup r h ≡ some (as_ready c)) (notify s.obj_for_id) s.all_objs s.heap
            (λ ref h found. notify-kept s.obj_for_id ref h r (as_ready c) found (λ p. cc))
            (here ∙ ap some (sym same))
    ]
