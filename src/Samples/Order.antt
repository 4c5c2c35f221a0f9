-- ===== src/Samples/Order.antt =====
-- The theorems on the abstract supervisor at the run of `Runs`: the web server waits for the database,
-- and is started when that runs.
use mathlib.Core.List.{Memᴰ}
use scinit.Base.{
  ◌≡◌, refl, some, [], ◌∷◌, All, lookup, insert, erase, index, with_default, nat_key, int_key,
  modify,
}
use scinit.Child.Types.{Condition, ProcessState, blocked, running, crashed, new, lock}
use scinit.Child.Lifecycle.{
  propagate_dependencies, notify_of_state, should_wait_for, handle_process_event,
}
use scinit.Child.Env.{handle_env}
use scinit.Child.Fork.{do_fork, register_with_epoll}
use scinit.Supervisor.{Process}
use scinit.Supervisor.Order.{HasBeen}
use scinit.Handler.Registry.{register_processes, register_obj_id, construct}
use scinit.Handler.Signals.{sigchld_received}
use scinit.Handler.Start.{notify_all, start_programs}
use scinit.Handler.Loop.{loop, returned, enter_eventloop, setup_signal_handlers, serve}
use scinit.Handler.Refinement.{NamedOf, view_of}
use scinit.Handler.Refinement.Start.{start_programs-Follows}
use scinit.Handler.Refinement.Loop.{Behaves, loop-Behaves}
use scinit.Handler.Refinement.Registered.{register_processes-Named}
use scinit.Config.{from_files, get_processes}
use scinit.Config.Loaded.Files.{from_files-IsLoaded}
use scinit.Main.{handle_commandline_invocation, main}
use scinit.Main.Order.{IsLoaded-Named, main-Behaves, main-HasBeen}
use scinit.Main.Held.{HasRun}
use scinit.Main.After.{main-HasRun}
use scinit.Main.Waits.{main_waits}
use scinit.Handler.Registry.Origin.{IsConfigured}
use scinit.Handler.Registry.After.{IsHeld, register_processes-IsHeld}
use scinit.Samples.{object, registered, users, yaml, files, fs, options, conf, starts}
use scinit.Samples.Starts.{
  prepared, started, starts_well, started-AccountsOf, start_programs-prepared,
}
use scinit.Samples.Runs.{
  round, round-RunsWell, runs_well, setup, handler_at_exit, outcome, outcome-returned,
}
use scinit.Supervisor.{stay}

prepared-NamedOf : NamedOf prepared
unfolding from_files register_obj_id construct register_processes
prepared-NamedOf =
    register_processes-Named (get_processes conf) conf.handler
      (IsLoaded-Named conf (from_files-IsLoaded users yaml files conf refl))

started-NamedOf : NamedOf started
started-NamedOf =
    (start_programs-Follows (view_of prepared) (starts 0) prepared started start_programs-prepared
      (prepared-NamedOf, stay refl)).0

loop-Behaves_example : Behaves (view_of started) (loop (round ∷ []) started)
loop-Behaves_example =
    loop-Behaves (round ∷ []) started round-RunsWell started-AccountsOf started-NamedOf

main-Behaves_example : Behaves (view_of registered) (returned (handler_at_exit outcome))
unfolding from_files register_obj_id construct register_processes get_processes
    handle_commandline_invocation setup_signal_handlers
main-Behaves_example =
    main-Behaves users yaml fs options setup (starts 0) (round ∷ []) conf prepared refl refl
      starts_well runs_well (returned (handler_at_exit outcome)) outcome-returned

-- The web server, when it is registered and when the run has ended.
abbrev waits : ProcessState → Process
waits st = record { state = st; conditions = (0, running) ∷ [] }

main-HasBeen_example : All (HasBeen (view_of (handler_at_exit outcome))) ((0, running) ∷ [])
unfolding from_files register_obj_id construct register_processes get_processes
    propagate_dependencies notify_all start_programs do_fork lookup insert modify new lock
    should_wait_for notify_of_state handle_env register_with_epoll serve sigchld_received
    with_default erase handle_process_event index loop main handle_commandline_invocation
    enter_eventloop setup_signal_handlers
main-HasBeen_example =
    main-HasBeen users yaml fs options setup (starts 0) (round ∷ []) conf prepared refl refl
      starts_well runs_well (returned (handler_at_exit outcome)) (handler_at_exit outcome) 1
      (waits blocked) (waits crashed) outcome-returned refl refl refl refl (λ e. cc)

register_processes-IsHeld_example : IsHeld 1 0 registered.heap
unfolding from_files register_obj_id construct get_processes lookup insert new
register_processes-IsHeld_example =
    register_processes-IsHeld (get_processes conf) conf.handler 1 0 (object 1 conf.handler)
      (object 0 conf.handler) (Memᴰ.tail (Memᴰ.head refl)) (Memᴰ.head refl) refl refl refl
      (Memᴰ.head refl)

main-HasRun_example : HasRun (view_of (handler_at_exit outcome)) 0
unfolding from_files register_obj_id construct register_processes get_processes
    propagate_dependencies notify_all start_programs do_fork lookup insert modify new lock
    should_wait_for notify_of_state handle_env register_with_epoll serve sigchld_received
    with_default erase handle_process_event index loop main handle_commandline_invocation
    enter_eventloop setup_signal_handlers
main-HasRun_example =
    main-HasRun users yaml fs options setup (starts 0) (round ∷ []) conf prepared refl refl
      starts_well runs_well (returned (handler_at_exit outcome)) (handler_at_exit outcome) 1 0
      (object 1 conf.handler) (object 0 conf.handler) (waits crashed) outcome-returned refl refl
      refl (Memᴰ.head refl) refl (λ e. cc)

-- The web server waits for the database to run, and for no one else.
main_waits_example :
    All (IsConfigured (get_processes conf) conf.handler.heap 1) ((0, running) ∷ [])
    × ((on : Condition)
        → IsConfigured (get_processes conf) conf.handler.heap 1 on
        → (st : ProcessState) × (lookup on.0 ((0, running) ∷ []) ≡ some st))
unfolding from_files register_obj_id construct register_processes get_processes
    propagate_dependencies lookup insert modify new lock should_wait_for
    handle_commandline_invocation
main_waits_example = main_waits users yaml fs options conf 1 (object 1 registered) refl refl
