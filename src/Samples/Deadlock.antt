-- ===== src/Samples/Deadlock.antt =====
-- The theorem on programs that wait for each other at a concrete run: the web server and the mail server
-- are each to start after the other; the database runs and exits.
use mathlib.Core.List.{Memᴰ}
use scinit.Base.{
  none, ℕ, zero, suc, ◌≡◌, refl, [], ◌∷◌, Text, codes, some, lookup, insert, erase, index,
  with_default, nat_key, int_key, modify, pos,
}
use scinit.Child.Types.{blocked, ChildProcess, new, lock}
use scinit.Child.Lifecycle.{
  propagate_dependencies, notify_of_state, should_wait_for, handle_process_event,
}
use scinit.Child.Env.{handle_env}
use scinit.Child.Fork.{do_fork, register_with_epoll}
use scinit.Handler.Types.{ProcessHandler, init}
use scinit.Handler.Registry.{register_processes, register_obj_id, construct}
use scinit.Handler.Signals.{sigchld_received}
use scinit.Handler.Start.{notify_all, start_programs}
use scinit.Handler.Loop.{decide_exit, loop, returned, enter_eventloop, setup_signal_handlers, serve}
use scinit.Handler.Refinement.{view_of}
use scinit.Config.{YamlFile, programs, Config, from_files, get_processes}
use scinit.Main.{Exit, handle_commandline_invocation, main}
use scinit.Supervisor.{Process}
use scinit.Main.Deadlock.{main-Deadlock}
use scinit.Samples.{object, users, files, fs, options, program, config_of, starts}
use scinit.Samples.Checks.{start_well-AllStartWell, rounds_well-RunsWell}
use scinit.Samples.Runs.{round, setup, handler_at_exit, handler_at_exit-ends}

abbrev yaml : Text → YamlFile
yaml file = programs (
    program (codes "db") none
    ∷ program (codes "web") (some (some (codes "mail") ∷ []))
    ∷ program (codes "mail") (some (some (codes "web") ∷ []))
    ∷ [])

abbrev conf : Config
conf = config_of (from_files users yaml files init)

abbrev registered : ProcessHandler
registered = register_processes (get_processes conf) conf.handler

-- After `setup_signal_handlers`.
abbrev prepared : ProcessHandler
prepared = record registered { signal_fd = pos 3; epoll_fd = pos 4; epoll = pos 3 ∷ [] }

abbrev outcome : Exit
outcome = main users yaml fs options setup (starts 0) (round ∷ [])

-- The two servers.
abbrev IsServer : ℕ → Type 0
IsServer (suc zero) = Unit
IsServer (suc (suc zero)) = Unit
IsServer _ = ⊥

servers_wait :
    (r : ℕ)
    → IsServer r
    → (q : ℕ) × (a b : ChildProcess) × IsServer q
      × (lookup r conf.handler.heap ≡ some a)
      × (lookup q conf.handler.heap ≡ some b)
      × Memᴰ b.name a.after
unfolding from_files register_obj_id construct get_processes lookup insert new
servers_wait zero m = absurd m
servers_wait (suc zero) m =
    (2, object 1 conf.handler, object 2 conf.handler, tt, refl, refl, Memᴰ.head refl)
servers_wait (suc (suc zero)) m =
    (1, object 2 conf.handler, object 1 conf.handler, tt, refl, refl, Memᴰ.head refl)
servers_wait (suc (suc (suc r))) m = absurd m

main-Deadlock_example :
    (p : Process) × (view_of (handler_at_exit outcome) 2 ≡ some p) × (p.state ≡ blocked)
unfolding from_files register_obj_id construct register_processes get_processes
    propagate_dependencies notify_all start_programs do_fork lookup insert modify new lock
    should_wait_for notify_of_state handle_env register_with_epoll serve sigchld_received
    with_default erase handle_process_event index loop main handle_commandline_invocation
    enter_eventloop setup_signal_handlers decide_exit
main-Deadlock_example =
    main-Deadlock users yaml fs options setup (starts 0) (round ∷ []) conf prepared refl refl
      (start_well-AllStartWell (starts 0) prepared.all_objs (notify_all prepared) refl)
      (rounds_well-RunsWell (round ∷ []) (start_programs (starts 0) prepared) refl)
      (returned (handler_at_exit outcome)) (handler_at_exit outcome) IsServer
      (handler_at_exit-ends outcome refl) refl servers_wait 2 tt
