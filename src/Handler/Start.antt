-- ===== src/Handler/Start.antt =====
-- src/ProcessHandler.cpp, `start_programs`. What the system answers while the object at an address is
-- started is an argument. An exception that is caught is logged, and what was changed before it was
-- thrown stays changed.
pub mod Cases
pub mod Accounts
pub mod Kept
pub mod Readiness
pub mod Pointwise
pub mod Progress
pub mod Thrown
pub mod Told
pub mod Served
pub mod GoesOn
pub mod Startup
use scinit.Base.{
  ℕ, ℤ, inc, if◌then◌else◌, Bool, true, false, Option, none, some, List, [], ◌∷◌, Map, lookup,
  insert, modify, nat_key, for_each, err, ok, ◌>>=◌,
}
use scinit.Child.Types.{ChildProcess, Heap, WeakPtr, can_start_now}
use scinit.Child.Lifecycle.{notify_of_state}
use scinit.Child.Fork.{
  ForkCalls, ForkError, no_environment, Forked, do_fork, Watched, register_with_epoll,
}
use scinit.Child.Env.{EnvError, template_error}
use scinit.Handler.Types.{ProcessHandler, Result, child_process_exception}

-- `logger` tells whether `spdlog::stdout_color_st` returns; it throws for a name that has a logger.
pub record StartCalls : Type 0 where
  pub logger : Bool
  pub fork : ForkCalls
  pub stdout_epoll : Bool
  pub stderr_epoll : Bool

-- The first loop: every object is told the states of the others.
pub notify : Map ℕ WeakPtr → WeakPtr → Heap → Heap
notify objs none h = h
notify objs (some r) h = modify r (notify_of_state objs h) h

unfoldable pub notify_all : ProcessHandler → ProcessHandler
unfolding notify for_each
notify_all s = record s { heap = for_each (notify s.obj_for_id) s.all_objs s.heap }

-- `catch (std::exception&)`: the exceptions of spdlog and inja are caught, a `ChildProcessException` is
-- not, since `std::exception` is no public base of that class.
unfoldable pub is_caught : ForkError → Bool
is_caught (no_environment template_error) = true
is_caught _ = false

unfoldable pub thrown : ForkError → ProcessHandler → Result ProcessHandler
unfolding is_caught
thrown e s = if is_caught e then ok s else err child_process_exception

-- The end of the `try` block, after `register_with_epoll`.
count_start : (id : ℕ) → Option ForkError → ProcessHandler → Result ProcessHandler
unfolding thrown
count_start id (some e) s = thrown e s
count_start id none s = ok (record s {
  num_fd_for_id = insert id 2 s.num_fd_for_id;
  number_of_running_procs = inc s.number_of_running_procs;
})

pub watch : StartCalls → ChildProcess → ProcessHandler → Result ProcessHandler
unfolding count_start
watch calls c s =
    let w =
      register_with_epoll calls.stdout_epoll calls.stderr_epoll c s.epoll s.id_for_fd s.fd_type in
    count_start c.graph_id w.error
      (record s { epoll = w.epoll; id_for_fd = w.id_for_fd; fd_type = w.fd_type })

pub after_fork : StartCalls → (r : ℕ) → Forked → ProcessHandler → Result ProcessHandler
unfolding watch
after_fork calls r f s =
    let forked = record s { heap = insert r f.child s.heap; id_for_pid = f.reg } in
    elim f.error [ none ↦ watch calls f.child forked | some e ↦ thrown e forked ]

attempt : StartCalls → (r : ℕ) → ChildProcess → ProcessHandler → Result ProcessHandler
unfolding after_fork
attempt calls r c s =
    if calls.logger then after_fork calls r (do_fork calls.fork c s.id_for_pid) s else ok s

-- One round of the second loop.
unfoldable pub start_program : (ℕ → StartCalls) → WeakPtr → ProcessHandler → Result ProcessHandler
unfolding attempt can_start_now
start_program calls none s = ok s
start_program calls (some r) s = elim (lookup r s.heap) [
  | none ↦ ok s
  | some c ↦ if can_start_now c then attempt (calls r) r c s else ok s
]

unfoldable pub start_all : (ℕ → StartCalls) → List WeakPtr → ProcessHandler → Result ProcessHandler
unfolding start_program
start_all calls [] s = ok s
start_all calls (ref ∷ refs) s = do t ← start_program calls ref s; start_all calls refs t

unfoldable pub start_programs : (ℕ → StartCalls) → ProcessHandler → Result ProcessHandler
unfolding notify_all start_all for_each
start_programs calls s = start_all calls s.all_objs (notify_all s)
