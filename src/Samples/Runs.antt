-- ===== src/Samples/Runs.antt =====
-- The theorems on whole runs at concrete inputs: in the round after the
-- first start the web server is started too, and both exit.
use scinit.Base.{
  ◌≢◌, pos, ◌≡◌, refl, sym, ap, ◌∙◌, Bool, true, false, none, some, [], ◌∷◌, lookup, insert, erase,
  index, with_default, nat_key, int_key, subst, modify, ok, ok-injective,
}
use scinit.Child.Types.{new, lock}
use scinit.Child.Lifecycle.{
  propagate_dependencies, notify_of_state, should_wait_for, handle_process_event,
}
use scinit.Child.Env.{handle_env}
use scinit.Child.Fork.{do_fork, register_with_epoll}
use scinit.Handler.Types.{ProcessHandler, init}
use scinit.Handler.Registry.{register_processes, register_obj_id, construct}
use scinit.Handler.Signals.{sigchld_received}
use scinit.Handler.Start.{notify_all, start_programs}
use scinit.Handler.Start.Accounts.{AllStartWell}
use scinit.Handler.Loop.{
  SetupCalls, decide_exit, Round, Run, loop, returned, waiting, faulted, enter_eventloop,
  setup_signal_handlers, serve,
}
use scinit.Handler.Loop.Invariant.{RunsWell}
use scinit.Handler.Loop.Termination.{NothingLeft, loop-NothingLeft, loop_quits}
use scinit.Handler.Loop.Idle.{loop_idles}
use scinit.Handler.Start.{start_programs}
use scinit.Handler.Loop.Progress.{Onward, loop-Onward}
use scinit.Handler.Events.{event_received}
use scinit.Handler.Signals.{signal_received}
use scinit.Config.{from_files, get_processes}
use scinit.Main.{
  Exit, runs, exit_code_0, exit_code_minus_1, uncaught, handle_commandline_invocation, main,
}
use scinit.Main.Supervision.{main-NothingLeft}
use scinit.Samples.{users, yaml, fs, options, conf, starts}
use scinit.Samples.Starts.{
  prepared, started, starts_well, started-AccountsOf, start_programs-prepared,
}
use scinit.Samples.Checks.{handler_of, handler_of_ok, start_well-AllStartWell, rounds_well-RunsWell}

abbrev pub handler_at_end : Run → ProcessHandler
handler_at_end (returned s) = s
handler_at_end (waiting s) = s
handler_at_end (faulted e) = init

abbrev pub has_returned : Run → Bool
has_returned (returned s) = true
has_returned _ = false

handler_at_end-returned : (r : Run) → has_returned r ≡ true → r ≡ returned (handler_at_end r)
handler_at_end-returned (returned s) e = refl
handler_at_end-returned (waiting s) e = absurd (cc e)
handler_at_end-returned (faulted x) e = absurd (cc e)

-- In the next round the web server is started, and both programs exit.
abbrev pub round : Round
round = record {
  starts = starts 1;
  reaped = (pos 100, pos 0) ∷ (pos 201, pos 256) ∷ (pos 999, pos 0) ∷ [];
  events = [];
  restarts = starts 2;
}

abbrev served : ProcessHandler
served = handler_of (serve round started)

serve-round : serve round started ≡ ok served
unfolding from_files register_obj_id construct register_processes get_processes
    propagate_dependencies notify_all start_programs do_fork lookup insert modify new lock
    should_wait_for notify_of_state handle_env register_with_epoll serve sigchld_received
    with_default erase handle_process_event index
serve-round = handler_of_ok (serve round started) refl

starts_well_next : AllStartWell (starts 1) started.all_objs (notify_all started)
unfolding from_files register_obj_id construct register_processes get_processes
    propagate_dependencies notify_all start_programs do_fork lookup insert modify new lock
    should_wait_for notify_of_state handle_env register_with_epoll
starts_well_next = start_well-AllStartWell (starts 1) started.all_objs (notify_all started) refl

starts_well_last : AllStartWell (starts 2) served.all_objs (notify_all served)
unfolding from_files register_obj_id construct register_processes get_processes
    propagate_dependencies notify_all start_programs do_fork lookup insert modify new lock
    should_wait_for notify_of_state handle_env register_with_epoll serve sigchld_received
    with_default erase handle_process_event index
starts_well_last = start_well-AllStartWell (starts 2) served.all_objs (notify_all served) refl

pub round-RunsWell : RunsWell (round ∷ []) started
unfolding from_files register_obj_id construct register_processes get_processes
    propagate_dependencies notify_all start_programs do_fork lookup insert modify new lock
    should_wait_for notify_of_state handle_env register_with_epoll serve sigchld_received
    with_default erase handle_process_event index decide_exit
round-RunsWell = rounds_well-RunsWell (round ∷ []) (ok started) refl started refl

loop-NothingLeft_example : NothingLeft (handler_at_end (loop (round ∷ []) started))
unfolding from_files register_obj_id construct register_processes get_processes
    propagate_dependencies notify_all start_programs do_fork lookup insert modify new lock
    should_wait_for notify_of_state handle_env register_with_epoll serve sigchld_received
    with_default erase handle_process_event index loop
loop-NothingLeft_example =
    loop-NothingLeft (round ∷ []) started (handler_at_end (loop (round ∷ []) started))
      round-RunsWell started-AccountsOf (handler_at_end-returned (loop (round ∷ []) started) refl)

loop-Onward_example : Onward started.heap (loop (round ∷ []) started)
loop-Onward_example = loop-Onward (round ∷ []) started round-RunsWell started-AccountsOf

-- Once the ready programs have been started again.
abbrev restarted : ProcessHandler
restarted = handler_of (start_programs (starts 2) served)

loop_idles_example :
    (restarted.id_for_pid ≡ [] → loop (round ∷ []) started ≡ returned restarted)
    × (restarted.id_for_pid ≢ [] → loop (round ∷ []) started ≡ loop [] restarted)
unfolding from_files register_obj_id construct register_processes get_processes
    propagate_dependencies notify_all start_programs do_fork lookup insert modify new lock
    should_wait_for notify_of_state handle_env register_with_epoll serve sigchld_received
    with_default erase handle_process_event index
loop_idles_example =
    loop_idles round [] started served restarted starts_well_next starts_well_last
      started-AccountsOf serve-round refl (handler_of_ok (start_programs (starts 2) served) refl)

-- SIGINT arrives, and both programs exit.
abbrev quitting : Round
quitting = record {
  starts = starts 1;
  reaped = (pos 100, pos 15) ∷ (pos 201, pos 15) ∷ [];
  events = record { fd = pos 3; events = 1; signal = some 2; bytes = none; del_ok = true } ∷ [];
  restarts = starts 2;
}

abbrev quit : ProcessHandler
quit = handler_of (serve quitting started)

serve-quitting : serve quitting started ≡ ok quit
unfolding from_files register_obj_id construct register_processes get_processes
    propagate_dependencies notify_all start_programs do_fork lookup insert modify new lock
    should_wait_for notify_of_state handle_env register_with_epoll serve sigchld_received
    with_default erase handle_process_event index event_received signal_received
serve-quitting = handler_of_ok (serve quitting started) refl

loop_quits_example :
    (quit.id_for_pid ≡ [] → loop (quitting ∷ []) started ≡ returned quit)
    × (quit.id_for_pid ≢ [] → loop (quitting ∷ []) started ≡ loop [] quit)
unfolding from_files register_obj_id construct register_processes get_processes
    propagate_dependencies notify_all start_programs do_fork lookup insert modify new lock
    should_wait_for notify_of_state handle_env register_with_epoll serve sigchld_received
    with_default erase handle_process_event index event_received signal_received
loop_quits_example =
    loop_quits quitting [] started quit starts_well_next started-AccountsOf serve-quitting refl

pub runs_well :
    (u : ProcessHandler) → start_programs (starts 0) prepared ≡ ok u → RunsWell (round ∷ []) u
runs_well u e =
    subst (RunsWell (round ∷ [])) (ok-injective (sym start_programs-prepared ∙ e)) round-RunsWell

abbrev pub setup : SetupCalls
setup = record { mask_ok = true; signal_fd = some (pos 3); epoll_fd = some (pos 4); add_ok = true }

abbrev pub handler_at_exit : Exit → ProcessHandler
handler_at_exit (runs r) = handler_at_end r
handler_at_exit _ = init

abbrev pub ends : Exit → Bool
ends (runs r) = has_returned r
ends _ = false

pub handler_at_exit-ends : (x : Exit) → ends x ≡ true → x ≡ runs (returned (handler_at_exit x))
handler_at_exit-ends (runs r) e = ap runs (handler_at_end-returned r e)
handler_at_exit-ends exit_code_0 e = absurd (cc e)
handler_at_exit-ends exit_code_minus_1 e = absurd (cc e)
handler_at_exit-ends (uncaught x) e = absurd (cc e)

abbrev pub outcome : Exit
outcome = main users yaml fs options setup (starts 0) (round ∷ [])

-- The run has ended.
pub outcome-returned : outcome ≡ runs (returned (handler_at_exit outcome))
unfolding from_files register_obj_id construct register_processes get_processes
    propagate_dependencies notify_all start_programs do_fork lookup insert modify new lock
    should_wait_for notify_of_state handle_env register_with_epoll serve sigchld_received
    with_default erase handle_process_event index loop main handle_commandline_invocation
    enter_eventloop setup_signal_handlers
outcome-returned = handler_at_exit-ends outcome refl

main-NothingLeft_example : NothingLeft (handler_at_exit outcome)
unfolding from_files register_obj_id construct register_processes get_processes
    propagate_dependencies notify_all start_programs do_fork lookup insert modify new lock
    should_wait_for notify_of_state handle_env register_with_epoll serve sigchld_received
    with_default erase handle_process_event index loop main handle_commandline_invocation
    enter_eventloop setup_signal_handlers
main-NothingLeft_example =
    main-NothingLeft users yaml fs options setup (starts 0) (round ∷ []) conf prepared
      (handler_at_exit outcome) refl refl starts_well runs_well outcome-returned
