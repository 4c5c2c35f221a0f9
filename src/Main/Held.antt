-- ===== src/Main/Held.antt =====
-- What it comes to in a run of the program that a process waits for another one when the processes have
-- been registered.
use scinit.Base.{
  some-injective, ℕ, ◌≡◌, ◌≢◌, ◌⊎◌, inl, inr, refl, sym, ap, ◌∙◌, some, List, Text, lookup, nat_key,
  ok, subst,
}
use scinit.Child.Types.{ProcessState, blocked, running, done, ChildProcess, lock}
use scinit.Child.Lifecycle.Progress.{Reaches}
use scinit.Child.Lifecycle.Awaitable.{IsAwaitable}
use scinit.Supervisor.{Process, View}
use scinit.Supervisor.Order.{All-lookup, HasBeen}
use scinit.Handler.Types.{ProcessHandler, init}
use scinit.Handler.Registry.{register_processes}
use scinit.Handler.Registry.Frame.{register_processes-Settles}
use scinit.Handler.Registry.After.{IsHeld}
use scinit.Handler.Start.{StartCalls, notify_all, start_programs}
use scinit.Handler.Start.Accounts.{AllStartWell}
use scinit.Handler.Loop.{SetupCalls, setup_signal_handlers, Round, Run}
use scinit.Handler.Loop.Invariant.{RunsWell}
use scinit.Handler.Refinement.{process_of, view_of, NamedOf}
use scinit.Handler.Refinement.Registered.{register_processes-Named}
use scinit.Config.{Config, Users, YamlFile, get_processes}
use scinit.Config.Loaded.{IsLoaded}
use scinit.Main.{Options, FileSystem, configured, handle_commandline_invocation, runs, main}
use scinit.Main.Supervision.{configured-IsLoaded, main-AllAwaitable}
use scinit.Main.Order.{IsLoaded-Named, Shows, main-HasBeen}

-- The process with the id has come to be RUNNING or DONE.
abbrev pub HasRun : View → ℕ → Type 0
HasRun v id = (p : Process) × (v id ≡ some p) × (Reaches running p.state ⊎ Reaches done p.state)

HasBeen-HasRun :
    (v : View) (id : ℕ) (st : ProcessState)
    → IsAwaitable (id, st)
    → HasBeen v (id, st)
    → HasRun v id
HasBeen-HasRun v id st (inl is) (p, there, reach) =
    (p, there, inl (subst (λ x. Reaches x p.state) is reach))
HasBeen-HasRun v id st (inr is) (p, there, reach) =
    (p, there, inr (subst (λ x. Reaches x p.state) is reach))

module _ (users : Users) (yaml : Text → YamlFile) (fs : FileSystem) (options : Options)
    (conf : Config)
    (loaded : handle_commandline_invocation users yaml fs options init ≡ configured conf) where
  -- What the handler shows of a process that is held when the processes have been registered.
  pub held-view :
      (r id : ℕ) (a : ChildProcess)
      → lookup r conf.handler.heap ≡ some a
      → IsHeld r id (register_processes (get_processes conf) conf.handler).heap
      → (p : Process) × (st : ProcessState) × (view_of
            (register_processes (get_processes conf) conf.handler)
            a.graph_id
          ≡ some p)
        × (p.state ≡ blocked)
        × (lookup id p.conditions ≡ some st)
        × IsAwaitable (id, st)
  unfolding lock
  held-view r id a here (c, st, held, is, waits) =
      let registered = register_processes (get_processes conf) conf.handler in
      let l : IsLoaded conf = configured-IsLoaded users yaml fs options conf loaded in
      let (d, kept, same_id, _) =
        (register_processes-Settles (get_processes conf) conf.handler).0 r a here in
      let c_id : c.graph_id ≡ a.graph_id =
        ap (λ (x : ChildProcess). x.graph_id) (some-injective (sym held ∙ kept)) ∙ same_id in
      let named : NamedOf registered =
        register_processes-Named (get_processes conf) conf.handler (IsLoaded-Named conf l) in
      (
        process_of c,
        st,
        ap (view_of registered) (sym c_id) ∙ rw (named.known r c held) (rw held refl),
        is,
        waits,
        All-lookup IsAwaitable c.conditions id st waits
            (main-AllAwaitable users yaml fs options conf loaded r c held),
      )

module _ (users : Users) (yaml : Text → YamlFile) (fs : FileSystem) (options : Options)
    (setup : SetupCalls) (starts : ℕ → StartCalls) (rounds : List Round) (conf : Config)
    (s : ProcessHandler)
    (loaded : handle_commandline_invocation users yaml fs options init ≡ configured conf)
    (ready : setup_signal_handlers setup (register_processes (get_processes conf) conf.handler)
      ≡ ok s)
    (started : AllStartWell starts s.all_objs (notify_all s))
    (well : (u : ProcessHandler) → start_programs starts s ≡ ok u → RunsWell rounds u) where
  -- A process that was held when the processes were registered, and is no longer BLOCKED.
  pub held-HasRun :
      (run : Run) (t : ProcessHandler) (r id : ℕ) (a : ChildProcess) (p : Process)
      → main users yaml fs options setup starts rounds ≡ runs run
      → Shows run t
      → lookup r conf.handler.heap ≡ some a
      → IsHeld r id (register_processes (get_processes conf) conf.handler).heap
      → view_of t a.graph_id ≡ some p
      → p.state ≢ blocked
      → HasRun (view_of t) id
  held-HasRun run t r id a p e shown here held found moved =
      let (q, st, there, is, waits, proper) =
        held-view users yaml fs options conf loaded r id a here held in
      let been =
        main-HasBeen users yaml fs options setup starts rounds conf s loaded ready started well run
          t a.graph_id q p e shown there is found moved in
      HasBeen-HasRun (view_of t) id st proper
        (All-lookup (HasBeen (view_of t)) q.conditions id st waits been)
