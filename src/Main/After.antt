-- ===== src/Main/After.antt =====
-- What an `after` entry of a configuration means for a run of the program.
use mathlib.Core.List.{Memᴰ}
use scinit.Base.{ℕ, ◌≡◌, ◌≢◌, some, List, Text, lookup, nat_key, ok}
use scinit.Child.Types.{blocked, ChildProcess}
use scinit.Supervisor.{Process}
use scinit.Handler.Types.{ProcessHandler, init}
use scinit.Handler.Registry.{register_processes}
use scinit.Handler.Registry.After.{register_processes-IsHeld}
use scinit.Handler.Start.{StartCalls, notify_all, start_programs}
use scinit.Handler.Start.Accounts.{AllStartWell}
use scinit.Handler.Loop.{SetupCalls, setup_signal_handlers, Round, Run}
use scinit.Handler.Loop.Invariant.{RunsWell}
use scinit.Handler.Refinement.{view_of}
use scinit.Config.{Config, Users, YamlFile, get_processes}
use scinit.Config.Loaded.{IsLoaded, get_processes-Memᴰ}
use scinit.Main.{Options, FileSystem, configured, handle_commandline_invocation, runs, main}
use scinit.Main.Supervision.{configured-IsLoaded}
use scinit.Main.Held.{HasRun, held-HasRun}
use scinit.Main.Order.{Shows}

module _ (users : Users) (yaml : Text → YamlFile) (fs : FileSystem) (options : Options)
    (setup : SetupCalls) (starts : ℕ → StartCalls) (rounds : List Round) (conf : Config)
    (s : ProcessHandler)
    (loaded : handle_commandline_invocation users yaml fs options init ≡ configured conf)
    (ready : setup_signal_handlers setup (register_processes (get_processes conf) conf.handler)
      ≡ ok s)
    (started : AllStartWell starts s.all_objs (notify_all s))
    (well : (u : ProcessHandler) → start_programs starts s ≡ ok u → RunsWell rounds u) where
  -- The `after` entries are kept, for any configuration that loads: if a program names another program
  -- in its `after` list, and is no longer BLOCKED when the loop has returned or waits, then the other
  -- one has come to be RUNNING or DONE. The starts get new pids; `s` is the handler after
  -- `setup_signal_handlers`.
  pub main-HasRun :
      (run : Run) (t : ProcessHandler) (r q : ℕ) (a b : ChildProcess) (p : Process)
      → main users yaml fs options setup starts rounds ≡ runs run
      → Shows run t
      → lookup r conf.handler.heap ≡ some a
      → lookup q conf.handler.heap ≡ some b
      → Memᴰ b.name a.after
      → view_of t a.graph_id ≡ some p
      → p.state ≢ blocked
      → HasRun (view_of t) b.graph_id
  main-HasRun run t r q a b p e shown here there entry found moved =
      let l : IsLoaded conf = configured-IsLoaded users yaml fs options conf loaded in
      let (_, _, is_blocked, _) = l.objects r a here in
      held-HasRun users yaml fs options setup starts rounds conf s loaded ready started well run t r
        b.graph_id a p e shown here
        (register_processes-IsHeld (get_processes conf) conf.handler r q a b
          (get_processes-Memᴰ conf l r a here) (get_processes-Memᴰ conf l q b there) here there
          is_blocked entry)
        found moved
