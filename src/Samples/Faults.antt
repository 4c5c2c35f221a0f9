-- ===== src/Samples/Faults.antt =====
-- The theorem on the exceptions of a start, with one that epoll refuses, at a concrete input: of the two loaded programs the database is
-- ready.
use scinit.Base.{
  ℕ, ◌≡◌, ◌≢◌, refl, ◌&&◌, true, false, none, some, ok, err, lookup, insert, nat_key, int_key,
  modify,
}
use scinit.Child.Types.{new, lock}
use scinit.Child.Lifecycle.{propagate_dependencies, should_wait_for}
use scinit.Config.{from_files, get_processes}
use scinit.Handler.Types.{ProcessHandler, child_process_exception}
use scinit.Handler.Registry.{register_processes, register_obj_id, construct}
use scinit.Child.Env.{template_error}
use scinit.Child.Fork.{ForkError, no_environment}
use scinit.Handler.Start.{StartCalls, start_program}
use scinit.Handler.Start.Thrown.{forked, IsStarted, IsPutOff, start_program_lem}
use scinit.Samples.{starts, registered, object}

abbrev refusing : ℕ → StartCalls
refusing r = record (starts 0 r) { stdout_epoll = false }

start_program_lem_example :
    ((forked refusing 0 (object 0 registered) registered).error ≡ none
      → (false && true) ≡ true
      → (t : ProcessHandler) × (start_program refusing (some 0) registered ≡ ok t)
        × IsStarted refusing 0 (object 0 registered) registered t)
    × ((forked refusing 0 (object 0 registered) registered).error ≡ none
        → (false && true) ≡ false
        → start_program refusing (some 0) registered ≡ err child_process_exception)
    × ((e : ForkError)
        → (forked refusing 0 (object 0 registered) registered).error ≡ some e
        → e ≢ no_environment template_error
        → start_program refusing (some 0) registered ≡ err child_process_exception)
    × ((forked refusing 0 (object 0 registered) registered).error
          ≡ some (no_environment template_error)
        → (t : ProcessHandler) × (start_program refusing (some 0) registered ≡ ok t)
          × IsPutOff refusing 0 (object 0 registered) registered t)
unfolding from_files register_obj_id construct register_processes get_processes
    propagate_dependencies lookup insert modify new lock should_wait_for
start_program_lem_example =
    start_program_lem refusing 0 (object 0 registered) registered refl refl refl
