-- ===== src/Samples/Before.antt =====
-- The theorem on the `before` entries at a concrete run: the database comes first and names the web
-- server in its `before` list.
use mathlib.Core.List.{Memᴰ}
use scinit.Base.{
  none, refl, [], ◌∷◌, Text, codes, some, lookup, insert, erase, index, with_default, nat_key,
  int_key, modify, pos, arith,
}
use scinit.Child.Types.{running, crashed, new, lock}
use scinit.Child.Lifecycle.{
  propagate_dependencies, notify_of_state, should_wait_for, handle_process_event,
}
use scinit.Child.Env.{handle_env}
use scinit.Child.Fork.{do_fork, register_with_epoll}
use scinit.Handler.Types.{ProcessHandler, init}
use scinit.Handler.Registry.{register_processes, register_obj_id, construct}
use scinit.Handler.Signals.{sigchld_received}
use scinit.Handler.Start.{notify_all, start_programs}
use scinit.Handler.Loop.{decide_exit, loop, returned, enter_eventloop, setup_signal_handlers, serve}
use scinit.Handler.Refinement.{view_of}
use scinit.Config.{YamlFile, programs, Config, from_files, get_processes}
use scinit.Main.{Exit, handle_commandline_invocation, main}
use scinit.Main.Held.{HasRun}
use scinit.Main.Before.{main-HasRun_before}
use scinit.Samples.{object, users, files, fs, options, program, config_of, starts}
use scinit.Samples.Checks.{start_well-AllStartWell, rounds_well-RunsWell}
use scinit.Samples.Runs.{round, setup, handler_at_exit, handler_at_exit-ends}

abbrev yaml : Text → YamlFile
yaml file = programs (
    record (program (codes "db") none) { before = some (some (codes "web") ∷ []) }
    ∷ program (codes "web") none
    ∷ [])

abbrev conf : Config
conf = config_of (from_files users yaml files init)

abbrev registered : ProcessHandler
registered = register_processes (get_processes conf) conf.handler

-- After `setup_signal_handlers`.
abbrev prepared : ProcessHandler
prepared = record registered { signal_fd = pos 3; epoll_fd = pos 4; epoll = pos 3 ∷ [] }

abbrev outcome : Exit
outcome = main users yaml fs options setup (starts 0) (round ∷ [])

main-HasRun_before_example : HasRun (view_of (handler_at_exit outcome)) 0
unfolding from_files register_obj_id construct register_processes get_processes
    propagate_dependencies notify_all start_programs do_fork lookup insert modify new lock
    should_wait_for notify_of_state handle_env register_with_epoll serve sigchld_received
    with_default erase handle_process_event index loop main handle_commandline_invocation
    enter_eventloop setup_signal_handlers decide_exit
main-HasRun_before_example =
    main-HasRun_before users yaml fs options setup (starts 0) (round ∷ []) conf prepared refl refl
      (start_well-AllStartWell (starts 0) prepared.all_objs (notify_all prepared) refl)
      (rounds_well-RunsWell (round ∷ []) (start_programs (starts 0) prepared) refl)
      (returned (handler_at_exit outcome)) (handler_at_exit outcome) [] (some 1 ∷ []) 0 1
      (object 0 conf.handler) (object 1 conf.handler)
      (record { state = crashed; conditions = (0, running) ∷ [] })
      (handler_at_exit-ends outcome refl) refl refl (λ m. elim m [ ]) (λ m. elim m [ ])
      (λ e. omega arith) (Memᴰ.head refl) refl refl (Memᴰ.head refl) refl (λ e. cc)
