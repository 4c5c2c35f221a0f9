-- ===== src/Samples/Descriptors.antt =====
-- The theorem on the counters of descriptors at a concrete run of the program.
use scinit.Base.{
  ℕ, ◌∷◌, pos, ◌≡◌, refl, sym, ◌∙◌, subst, ok, ok-injective, true, none, some, [], lookup, insert,
  erase, index, with_default, nat_key, int_key, modify,
}
use scinit.Child.Types.{new, lock}
use scinit.Child.Lifecycle.{propagate_dependencies, notify_of_state, should_wait_for}
use scinit.Child.Env.{handle_env}
use scinit.Child.Fork.{do_fork, register_with_epoll}
use scinit.Handler.Registry.{register_processes, register_obj_id, construct}
use scinit.Handler.Events.{EpollEvent, event_received}
use scinit.Handler.Start.{StartCalls, notify_all, start_program, start_programs}
use scinit.Config.{from_files, get_processes}
use scinit.Handler.Loop.{
  Round, waiting, reap, dispatch, serve, decide_exit, loop, setup_signal_handlers, enter_eventloop,
}
use scinit.Handler.Types.{ProcessHandler}
use scinit.Handler.Loop.Rule.{RunsBy}
use scinit.Handler.Descriptors.Loop.{OpenNew, ComesWatched, CountsAtEnd}
use scinit.Main.{Exit, runs, handle_commandline_invocation, main}
use scinit.Main.Counts.{main-Counts}
use scinit.Samples.Runs.{setup}
use scinit.Samples.Opened.{open_new-AllOpenNew, round_open-RunsBy}
use scinit.Samples.{users, yaml, fs, options, conf, starts}
use scinit.Samples.Starts.{prepared, started, start_programs-prepared}

abbrev hangup : EpollEvent
hangup = record { fd = pos 5; events = 16; signal = none; bytes = none; del_ok = true }

-- The descriptors of the web server.
abbrev starts_web : ℕ → StartCalls
starts_web r = record (starts 1 r) {
  fork = record (starts 1 r).fork {
    stdout_pipe = some (record { reader = pos 11; writer = pos 12 });
    stderr_pipe = some (record { reader = pos 13; writer = pos 14 });
  };
}

-- The web server is started when the database runs, and the standard output of the database hangs up.
abbrev hangs_up : Round
hangs_up = record { starts = starts_web; reaped = []; events = hangup ∷ []; restarts = starts 2 }

abbrev handler_that_waits : Exit → ProcessHandler
handler_that_waits (runs (waiting t)) = t
handler_that_waits _ = prepared

abbrev outcome : Exit
outcome = main users yaml fs options setup (starts 0) (hangs_up ∷ [])

opens_new :
    (u : ProcessHandler)
    → start_programs (starts 0) prepared ≡ ok u
    → RunsBy OpenNew ComesWatched (hangs_up ∷ []) u
unfolding from_files register_obj_id construct register_processes get_processes
    propagate_dependencies notify_all start_program start_programs do_fork lookup insert modify new
    lock should_wait_for notify_of_state handle_env register_with_epoll event_received index erase
    with_default dispatch reap
opens_new u e =
    subst (RunsBy OpenNew ComesWatched (hangs_up ∷ []))
      (ok-injective (sym start_programs-prepared ∙ e)) (round_open-RunsBy hangs_up started refl)

main-Counts_example : CountsAtEnd (waiting (handler_that_waits outcome))
unfolding from_files register_obj_id construct register_processes get_processes
    propagate_dependencies notify_all start_program start_programs do_fork lookup insert modify new
    lock should_wait_for notify_of_state handle_env register_with_epoll event_received index erase
    with_default dispatch reap main handle_commandline_invocation enter_eventloop
    setup_signal_handlers loop serve decide_exit
main-Counts_example =
    main-Counts users yaml fs options setup (starts 0) (hangs_up ∷ []) conf prepared
      (waiting (handler_that_waits outcome)) refl refl
      (open_new-AllOpenNew (starts 0) prepared.all_objs (notify_all prepared) refl) opens_new refl
