-- ===== src/Lib.antt =====
-- scinit: the start, supervision and end of child processes.
--
-- The program reads a configuration (Config.h), makes one ChildProcess object for each program in
-- it and registers the objects with the ProcessHandler. `register_processes` turns the before and
-- after lists into conditions, and the event loop starts what is ready, reaps what has exited,
-- forwards signals and output, and ends when nothing is left to run.
--
-- Child models src/ChildProcess.cpp and the interfaces:
--   Child/Types: the enumerations, the object, its constructor; objects stand in a heap under
--     their address, and a weak_ptr is an address that may be dead;
--   Child/Lifecycle: should_wait_for, propagate_dependencies, notify_of_state,
--     handle_process_event; Conditions, Links (Loops, Spread) and States have the laws of one
--     object, of the links, and of the states, Each the rule for what each object keeps, Awaitable
--     what is waited for, and Progress the state machine of the interface as a relation;
--   Child/Env: handle_env; Filter tells where a variable comes from, Lines how the text is read
--     back;
--   Child/Tty: the settings of the pseudo-terminals;
--   Child/Fork: do_fork on the side of the parent, register_with_epoll; Branches, Terminal;
--   Child/Caps: handle_caps and the child's side of do_fork up to execvpe; Steps lists the calls,
--     and Order says in which order they are made.
-- Handler models src/ProcessHandler.cpp:
--   Handler/Types: the member variables, with the heap, the descriptors that epoll watches, the
--     signals sent and the lines passed on; Handler/Accounts: the invariant of the bookkeeping,
--     with Launch and Exit for the two changes of the table of pids;
--   Handler/Registry: register_processes, register_for_process_state, register_obj_id,
--     construction; Frame has what the registration leaves alone, Dependencies what it sets up,
--     After and Before what the entries of the two lists come to, Rule the rule for what each
--     object keeps, Origin where the conditions stem from, Links that no entry is lost, Waits
--     both, and Idle that nothing runs yet;
--   Handler/Signals: signal_received, sigchld_received; Forward, Exits;
--   Handler/Output and Handler/Events: event_received and handle_child_output; Strip, Hangup, and Forgotten for a
--     descriptor that is taken out;
--   Handler/Start: start_programs; Cases has the branches of its loops, Pointwise what happens to
--     one object, Accounts, Kept, Readiness, Progress, Thrown what each exception of a start comes
--     to, Served, with Told for the first loop, that all that may be started is started, GoesOn
--     that a start ends nothing, and Startup how far one call gets;
--   Handler/Loop: setup_signal_handlers, enter_eventloop; Rule and Invariant have the rule that
--     the others use: what starts, exits and events keep, the loop keeps; Termination, Idle,
--     Progress, Startup;
--   Handler/Descriptors: what num_fd_for_id counts; Opened and Start for a start, Events for an
--     event, Watched for the descriptors that epoll watches, Runs for all that happens to the
--     handler, Loop;
--   Handler/Refinement: what the handler shows as processes of Supervisor, for the starts (Start),
--     the loop (Loop) and the registration (Registered).
-- Supervisor says what the README and src/ChildProcessInterface.h promise, without objects and
-- system calls: each process has a state and conditions, and a step unblocks, starts or ends one
-- of them; Order and Deadlock have what all its runs keep to.
-- Config models src/Config.h (Identifiers, Lists, Owner and Described for what an entry says, Loaded with Added,
-- Files, Programs and Accounts, Credentials), and Main models src/main.cpp (Supervision; Waits for
-- the conditions, Order, Held, After and Before for the order of the starts, Deadlock for programs
-- that wait for each other, Startup for programs that do not, Counts for descriptors).
-- Base holds what they share; Samples, Child/Samples and Child/Trials hold concrete inputs.
--
-- What the system answers is an argument: of a start (pipes, terminals, fork, epoll_ctl, the
-- logger), of an event (what read and epoll_ctl give), of the set-up, and of a round of the loop,
-- which holds the reaped processes and the events. So the loop is a function of a list of rounds
-- of any length; a shorter list shows the handler as it waits for the next round. The two loops
-- over ttyname_r take a number of rounds; one is enough for each byte of the name beyond the first
-- 62. All other loops are over lists. Numbers are natural numbers or signed integers; the
-- conversions between int and unsigned int and the decrement of an unsigned counter wrap at 2 ^
-- 32.
--
-- The class ChildProcessException derives from std::exception without the word public, so no
-- handler for std::exception& takes it: it ends the program, and the model returns it as a fault.
--
-- Not modelled: the text of the log, the messages of the exceptions, which are error values here,
-- and libcap, yaml-cpp, inja, Boost and spdlog themselves.
pub mod Base
pub mod Child
pub mod Config
pub mod Handler
pub mod Main
pub mod Samples
pub mod Supervisor
