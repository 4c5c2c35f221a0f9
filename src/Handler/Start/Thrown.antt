-- ===== src/Handler/Start/Thrown.antt =====
-- What one start comes to in src/ProcessHandler.cpp, for each exception that it may throw.
use scinit.Base.{
  ℕ, inc, ◌≡◌, ◌≢◌, refl, sym, ap, ◌∙◌, inl, inr, Bool, true, false, ◌&&◌, none, some, ok, err,
  lookup, insert, nat_key, int_key, lookup-insert_self, lookup-insert_ne, arith,
}
use scinit.Child.Types.{ready, running, state_beq_iff, ChildProcess}
use scinit.Child.Env.{template_error}
use scinit.Child.Fork.{ForkError, no_environment, Forked, do_fork, register_with_epoll}
use scinit.Child.Fork.Branches.{Launched, Refused, do_fork_outcome}
use scinit.Handler.Types.{ProcessHandler, child_process_exception}
use scinit.Handler.Start.{
  StartCalls, is_caught, thrown, watch, count_start, after_fork, start_program,
}

-- What `do_fork` gives when the object at `r` is started.
abbrev pub forked : (ℕ → StartCalls) → (r : ℕ) → ChildProcess → ProcessHandler → Forked
forked calls r c s = do_fork (calls r).fork c s.id_for_pid

abbrev OthersStay : (r : ℕ) → ProcessHandler → ProcessHandler → Type 0
OthersStay r s t = (q : ℕ) → q ≢ r → lookup q t.heap ≡ lookup q s.heap

-- The child runs, with a pid and two descriptors, and is counted.
abbrev pub IsStarted :
    (ℕ → StartCalls) → (r : ℕ) → ChildProcess → ProcessHandler → ProcessHandler → Type 0
IsStarted calls r c s t =
    (lookup r t.heap ≡ some (forked calls r c s).child)
    × ((forked calls r c s).child.state ≡ running)
    × (t.id_for_pid ≡ insert (calls r).fork.fork c.graph_id s.id_for_pid)
    × (t.number_of_running_procs ≡ inc s.number_of_running_procs)
    × (lookup c.graph_id t.num_fd_for_id ≡ some 2)
    × OthersStay r s t

-- The child does not run, and is neither registered nor counted, and none of its descriptors is known.
abbrev pub IsPutOff :
    (ℕ → StartCalls) → (r : ℕ) → ChildProcess → ProcessHandler → ProcessHandler → Type 0
IsPutOff calls r c s t =
    (lookup r t.heap ≡ some (forked calls r c s).child)
    × ((forked calls r c s).child.state ≡ ready)
    × (t.id_for_pid ≡ s.id_for_pid)
    × (t.number_of_running_procs ≡ s.number_of_running_procs)
    × (t.num_fd_for_id ≡ s.num_fd_for_id)
    × (t.id_for_fd ≡ s.id_for_fd)
    × (t.epoll ≡ s.epoll)
    × OthersStay r s t

module _ (calls : ℕ → StartCalls) (r : ℕ) (c : ChildProcess) (s : ProcessHandler)
    (here : lookup r s.heap ≡ some c) (is_ready : c.state ≡ ready)
    (named : (calls r).logger ≡ true) where
  abbrev f : Forked
  f = forked calls r c s

  start_program-after_fork : start_program calls (some r) s ≡ after_fork (calls r) r f s
  unfolding start_program
  start_program-after_fork =
      rw (here, start_program) (rw ((state_beq_iff c.state ready).1 is_ready, named) refl)

  launched : f.error ≡ none → Launched (calls r).fork c s.id_for_pid f
  launched none_thrown = elim (do_fork_outcome (calls r).fork c s.id_for_pid).1 [
    | inl l ↦ l
    | inr x ↦ absurd (let (e, thrown) = x.error in cc)
  ]

  refused : (e : ForkError) → f.error ≡ some e → Refused c s.id_for_pid f
  refused e failed = elim (do_fork_outcome (calls r).fork c s.id_for_pid).1 [
    | inl l ↦ absurd (let none_thrown = l.error in cc)
    | inr x ↦ x
  ]

  -- The start of a ready process whose logger can be made, on every branch. If `do_fork` returns and
  -- epoll takes both descriptors, the process runs with two descriptors, its pid is registered, and it is
  -- counted. If epoll refuses one, or `do_fork` throws anything but the exception of inja, the exception is
  -- not caught and ends the program. After the exception of inja the process is still READY, neither
  -- counted nor registered, and no descriptor is watched. No other object changes.
  pub start_program_lem :
      (f.error ≡ none
        → ((calls r).stdout_epoll && (calls r).stderr_epoll) ≡ true
        → (t : ProcessHandler) × (start_program calls (some r) s ≡ ok t) × IsStarted calls r c s t)
      × (f.error ≡ none
          → ((calls r).stdout_epoll && (calls r).stderr_epoll) ≡ false
          → start_program calls (some r) s ≡ err child_process_exception)
      × ((e : ForkError)
          → f.error ≡ some e
          → e ≢ no_environment template_error
          → start_program calls (some r) s ≡ err child_process_exception)
      × (f.error ≡ some (no_environment template_error)
          → (t : ProcessHandler) × (start_program calls (some r) s ≡ ok t) × IsPutOff calls r c s t)
  unfolding after_fork watch count_start register_with_epoll thrown is_caught
  start_program_lem =
      rw start_program-after_fork (both_watched, λ e unwatched. ground arith, uncaught, caught)
    where
      out_ok : (a b : Bool) → (a && b) ≡ true → (a ≡ true) × (b ≡ true)
      out_ok a b e = ground arith

      both_watched :
          f.error ≡ none
          → ((calls r).stdout_epoll && (calls r).stderr_epoll) ≡ true
          → (t : ProcessHandler) × (after_fork (calls r) r f s ≡ ok t) × IsStarted calls r c s t
      both_watched e both =
          let l = launched e in
          let same_id : f.child.graph_id ≡ c.graph_id =
            (do_fork_outcome (calls r).fork c s.id_for_pid).0.graph_id in
          let (out, error) = out_ok (calls r).stdout_epoll (calls r).stderr_epoll both in
          let w = register_with_epoll true true f.child s.epoll s.id_for_fd s.fd_type in
          (
            record s {
              heap = insert r f.child s.heap;
              id_for_pid = f.reg;
              epoll = w.epoll;
              id_for_fd = w.id_for_fd;
              fd_type = w.fd_type;
              num_fd_for_id = insert f.child.graph_id 2 s.num_fd_for_id;
              number_of_running_procs = inc s.number_of_running_procs;
            },
            rw (e, out, error) refl,
            (
              lookup-insert_self r f.child s.heap,
              l.state,
              l.reg,
              refl,
              ap (λ id. lookup id (insert f.child.graph_id 2 s.num_fd_for_id)) (sym same_id)
                  ∙ lookup-insert_self f.child.graph_id 2 s.num_fd_for_id,
              λ q ne. lookup-insert_ne r q f.child s.heap ne,
            ),
          )

      uncaught :
          (e : ForkError)
          → f.error ≡ some e
          → e ≢ no_environment template_error
          → after_fork (calls r) r f s ≡ err child_process_exception
      uncaught x e other = rw e (ends x other)
        where
          ends :
              (x : ForkError)
              → x ≢ no_environment template_error
              → thrown x (record s { heap = insert r f.child s.heap; id_for_pid = f.reg })
                ≡ err child_process_exception
          ends x other = ground arith

      caught :
          f.error ≡ some (no_environment template_error)
          → (t : ProcessHandler) × (after_fork (calls r) r f s ≡ ok t) × IsPutOff calls r c s t
      caught e =
          let rest = refused (no_environment template_error) e in
          (
            record s { heap = insert r f.child s.heap; id_for_pid = f.reg },
            rw e refl,
            (
              lookup-insert_self r f.child s.heap,
              rest.state ∙ is_ready,
              rest.reg,
              refl,
              refl,
              refl,
              refl,
              λ q ne. lookup-insert_ne r q f.child s.heap ne,
            ),
          )
