-- ===== src/Samples/Starts.antt =====
-- The theorems on the bookkeeping and on the starts at concrete inputs: the database is started, and the
-- web server waits for it.
use mathlib.Core.List.{Memᴰ}
use scinit.Base.{
  some-injective, ℕ, pos, ◌≡◌, refl, ◌⊎◌, inl, inr, some, [], ◌∷◌, lookup, insert, All, nat_key,
  int_key, subst, modify, Bool-cases, ◌==◌, ==_iff, ok,
}
use scinit.Child.Types.{ready, blocked, running, ChildProcess, Heap, new, lock}
use scinit.Child.Lifecycle.{propagate_dependencies, notify_of_state, should_wait_for}
use scinit.Child.Lifecycle.States.{IsFulfilled}
use scinit.Child.Env.{handle_env}
use scinit.Child.Fork.{do_fork, register_with_epoll}
use scinit.Handler.Types.{ProcessHandler}
use scinit.Handler.Accounts.{AccountsOf}
use scinit.Handler.Registry.{register_processes, register_obj_id, construct}
use scinit.Handler.Signals.{sigchld_received}
use scinit.Handler.Signals.Exits.{sigchld_received-Accounts}
use scinit.Handler.Start.{notify_all, start_programs}
use scinit.Handler.Start.Accounts.{AllStartWell, start_programs-Accounts}
use scinit.Child.Lifecycle.Awaitable.{IsAwaitable}
use scinit.Handler.Start.Readiness.{start_programs_waits}
use scinit.Handler.Start.Served.{start_programs-Runs}
use scinit.Config.{from_files, get_processes}
use scinit.Samples.Checks.{handler_of, handler_of_ok, start_well-AllStartWell}
use scinit.Samples.{registered, registered-AccountsOf, object, starts}

-- What holds of each entry of a heap holds of each object that is looked up.
pub All-heap :
    (P : ℕ → ChildProcess → Type 0) (h : Heap)
    → All (λ (entry : ℕ × ChildProcess). P entry.0 entry.1) h
    → (r : ℕ) (c : ChildProcess) → lookup r h ≡ some c
    → P r c
unfolding lookup
All-heap P [] a r c e = absurd (cc e)
All-heap P ((q, d) ∷ h) a r c e = elim (Bool-cases (q == r)) [
  | inl same ↦
      subst (P r) (some-injective (rw same at e)) (subst (λ k. P k d) ((==_iff q r).0 same) a.0)
  | inr other ↦ All-heap P h a.1 r c (rw other at e)
]

-- After `setup_signal_handlers`.
abbrev pub prepared : ProcessHandler
prepared = record registered { signal_fd = pos 3; epoll_fd = pos 4; epoll = pos 3 ∷ [] }

pub prepared-AccountsOf : AccountsOf prepared
unfolding register_processes
prepared-AccountsOf = registered-AccountsOf

-- The database runs, the web server waits for it.
abbrev pub started : ProcessHandler
started = handler_of (start_programs (starts 0) prepared)

pub start_programs-prepared : start_programs (starts 0) prepared ≡ ok started
unfolding from_files register_obj_id construct register_processes get_processes
    propagate_dependencies notify_all start_programs do_fork lookup insert modify new lock
    should_wait_for notify_of_state handle_env register_with_epoll
start_programs-prepared = handler_of_ok (start_programs (starts 0) prepared) refl

pub starts_well : AllStartWell (starts 0) prepared.all_objs (notify_all prepared)
unfolding from_files register_obj_id construct register_processes get_processes
    propagate_dependencies notify_all start_programs do_fork lookup insert modify new lock
    should_wait_for notify_of_state handle_env register_with_epoll
starts_well = start_well-AllStartWell (starts 0) prepared.all_objs (notify_all prepared) refl

start_programs-Accounts_example : AccountsOf started
start_programs-Accounts_example =
    start_programs-Accounts (starts 0) prepared started starts_well start_programs-prepared
      prepared-AccountsOf

pub started-AccountsOf : AccountsOf started
started-AccountsOf =
    start_programs-Accounts (starts 0) prepared started starts_well start_programs-prepared
      prepared-AccountsOf

sigchld_received-Accounts_example :
    (t : ProcessHandler) × (sigchld_received (pos 100) (pos 1) started ≡ ok t) × AccountsOf t
sigchld_received-Accounts_example =
    sigchld_received-Accounts (pos 100) (pos 1) started started-AccountsOf

blocked≢running : blocked ≡ running → ⊥
blocked≢running e = cc

start_programs_waits_example :
    ((object 1 started).state ≡ ready)
    ⊎ (((object 1 started).state ≡ blocked)
        × All (IsFulfilled started.obj_for_id started.heap) (object 1 started).conditions)
unfolding from_files register_obj_id construct register_processes get_processes
    propagate_dependencies notify_all start_programs do_fork lookup insert modify new lock
    should_wait_for notify_of_state handle_env register_with_epoll
start_programs_waits_example =
    let next = handler_of (start_programs (starts 1) started) in
    start_programs_waits (starts 1) started next 1 (object 1 started) (object 1 next)
      (handler_of_ok (start_programs (starts 1) started) refl)
      (All-heap (λ r c. All IsAwaitable c.conditions) started.heap (tt, ((inl refl, tt), tt))) refl
      (λ e. absurd (blocked≢running e)) refl refl

-- The database runs, so the web server is started in the next round.
start_programs-Runs_example :
    (d : ChildProcess) × (lookup 1 (handler_of (start_programs (starts 1) started)).heap ≡ some d)
    × (d.state ≡ running)
unfolding from_files register_obj_id construct register_processes get_processes
    propagate_dependencies notify_all start_programs do_fork lookup insert modify new lock
    should_wait_for notify_of_state handle_env register_with_epoll
start_programs-Runs_example =
    start_programs-Runs (starts 1) started (handler_of (start_programs (starts 1) started)) 1
      (object 1 started) (Memᴰ.tail (Memᴰ.head refl)) refl
      (inr (refl, (inl refl, tt), ((some 0, object 0 started, refl, refl, refl), tt))) refl
      (λ reg. refl) (handler_of_ok (start_programs (starts 1) started) refl)
