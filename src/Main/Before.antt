-- ===== src/Main/Before.antt =====
-- What a `before` entry of a configuration means for a run of the program.
use mathlib.Core.List.{Memᴰ, ◌++◌}
use scinit.Base.{ℕ, ◌≡◌, ◌≢◌, sym, some, List, ◌∷◌, Text, lookup, nat_key, ok, subst}
use scinit.Child.Types.{WeakPtr, blocked, ChildProcess}
use scinit.Supervisor.{Process}
use scinit.Handler.Types.{ProcessHandler, init}
use scinit.Handler.Registry.{register_processes}
use scinit.Handler.Registry.After.{IsHeld}
use scinit.Handler.Registry.Before.{register_processes_before}
use scinit.Handler.Start.{StartCalls, notify_all, start_programs}
use scinit.Handler.Start.Accounts.{AllStartWell}
use scinit.Handler.Loop.{SetupCalls, setup_signal_handlers, Round, Run}
use scinit.Handler.Loop.Invariant.{RunsWell}
use scinit.Handler.Refinement.{view_of}
use scinit.Config.{Config, Users, YamlFile, get_processes}
use scinit.Config.Loaded.{IsLoaded}
use scinit.Main.{Options, FileSystem, configured, handle_commandline_invocation, runs, main}
use scinit.Main.Supervision.{configured-IsLoaded}
use scinit.Main.Held.{HasRun, held-HasRun}
use scinit.Main.Order.{Shows}

module _ (users : Users) (yaml : Text → YamlFile) (fs : FileSystem) (options : Options)
    (setup : SetupCalls) (starts : ℕ → StartCalls) (rounds : List Round) (conf : Config)
    (s : ProcessHandler)
    (loaded : handle_commandline_invocation users yaml fs options init ≡ configured conf)
    (ready : setup_signal_handlers setup (register_processes (get_processes conf) conf.handler)
      ≡ ok s)
    (started : AllStartWell starts s.all_objs (notify_all s))
    (well : (u : ProcessHandler) → start_programs starts s ≡ ok u → RunsWell rounds u) where
  -- A `before` entry is kept when its program comes first in the configuration: if a program names
  -- another one, which comes later, in its `before` list, and the other is no longer BLOCKED when the
  -- loop has returned or waits, then the program that names it has come to be RUNNING or DONE. The
  -- starts get new pids; `s` is the handler after `setup_signal_handlers`.
  pub main-HasRun_before :
      (run : Run) (t : ProcessHandler) (pre post : List WeakPtr) (p r : ℕ) (c d : ChildProcess)
      (w : Process)
      → main users yaml fs options setup starts rounds ≡ runs run
      → Shows run t
      → get_processes conf ≡ pre ++ some p ∷ post
      → (Memᴰ (some r) pre → ⊥)
      → (Memᴰ (some p) pre → ⊥)
      → r ≢ p
      → Memᴰ (some r) post
      → lookup p conf.handler.heap ≡ some c
      → lookup r conf.handler.heap ≡ some d
      → Memᴰ d.name c.before
      → view_of t d.graph_id ≡ some w
      → w.state ≢ blocked
      → HasRun (view_of t) c.graph_id
  main-HasRun_before run t pre post p r c d w e shown listed nr np apart later at_p at_r entry found
        moved =
      let l : IsLoaded conf = configured-IsLoaded users yaml fs options conf loaded in
      let (_, _, is_blocked, _) = l.objects r d at_r in
      held-HasRun users yaml fs options setup starts rounds conf s loaded ready started well run t r
        c.graph_id d w e shown at_r
        (subst (λ all. IsHeld r c.graph_id (register_processes all conf.handler).heap) (sym listed)
          (register_processes_before pre post conf.handler p r c d nr np apart later at_p at_r
            is_blocked entry))
        found moved
