-- ===== src/Main/Deadlock.antt =====
-- Programs that name each other in their `after` lists.
use scinit.Supervisor.Deadlock.{Stuck, Steps-Stuck}
use scinit.Child.Types.{ProcessState, running, done}
use mathlib.Core.List.{Memᴰ}
use scinit.Base.{
  ◌⊎◌, inl, inr, sym, ap, ◌∙◌, subst, ℕ, ◌≡◌, ◌≢◌, some, List, Text, lookup, nat_key, ok,
}
use scinit.Child.Types.{blocked, ChildProcess}
use scinit.Supervisor.{Process}
use scinit.Handler.Types.{ProcessHandler, init}
use scinit.Handler.Registry.{register_processes}
use scinit.Handler.Registry.After.{register_processes-IsHeld}
use scinit.Handler.Start.{StartCalls, notify_all, start_programs}
use scinit.Handler.Start.Accounts.{AllStartWell}
use scinit.Handler.Loop.{SetupCalls, setup_signal_handlers, Round, Run}
use scinit.Handler.Loop.Invariant.{RunsWell}
use scinit.Handler.Refinement.{view_of}
use scinit.Config.{Config, Users, YamlFile, get_processes}
use scinit.Config.Loaded.{IsLoaded, get_processes-Memᴰ}
use scinit.Main.{Options, FileSystem, configured, handle_commandline_invocation, runs, main}
use scinit.Main.Supervision.{configured-IsLoaded}
use scinit.Main.Held.{held-view}
use scinit.Main.Order.{Shows, Behaves-Shows, main-Behaves}

module _ (users : Users) (yaml : Text → YamlFile) (fs : FileSystem) (options : Options)
    (setup : SetupCalls) (starts : ℕ → StartCalls) (rounds : List Round) (conf : Config)
    (s : ProcessHandler)
    (loaded : handle_commandline_invocation users yaml fs options init ≡ configured conf)
    (ready : setup_signal_handlers setup (register_processes (get_processes conf) conf.handler)
      ≡ ok s)
    (started : AllStartWell starts s.all_objs (notify_all s))
    (well : (u : ProcessHandler) → start_programs starts s ≡ ok u → RunsWell rounds u) where
  -- Programs that wait for each other are never started, for any configuration that loads: if each
  -- program of a set names another one of the set in its `after` list, then all of the set are BLOCKED
  -- when the loop has returned or waits. The starts get new pids; `s` is the handler after
  -- `setup_signal_handlers`.
  pub main-Deadlock :
      (run : Run) (t : ProcessHandler) (S : ℕ → Type 0)
      → main users yaml fs options setup starts rounds ≡ runs run
      → Shows run t
      → ((r : ℕ)
          → S r
          → (q : ℕ) × (a b : ChildProcess) × S q
            × (lookup r conf.handler.heap ≡ some a)
            × (lookup q conf.handler.heap ≡ some b)
            × Memᴰ b.name a.after)
      → (r : ℕ) → S r
      → (p : Process) × (view_of t r ≡ some p) × (p.state ≡ blocked)
  main-Deadlock run t S e shown cycle r m =
      let (p, found, is, _) =
        Steps-Stuck S
          (Behaves-Shows (view_of registered) run t
            (main-Behaves users yaml fs options setup starts rounds conf s loaded ready started well
              run e)
            shown)
          stuck r m in
      (p, found, is)
    where
      registered : ProcessHandler
      registered = register_processes (get_processes conf) conf.handler

      ne_blocked : {st : ProcessState} → (st ≡ running) ⊎ (st ≡ done) → st ≢ blocked
      ne_blocked (inl x) y = cc
      ne_blocked (inr x) y = cc

      stuck : Stuck (view_of registered) S
      stuck k n =
          let l : IsLoaded conf = configured-IsLoaded users yaml fs options conf loaded in
          let (q, a, b, m', here, there, entry) = cycle k n in
          let (k_id, _, was_blocked, _) = l.objects k a here in
          let (q_id, _, _, _) = l.objects q b there in
          let (p, st, shows, is, waits, proper) =
            held-view users yaml fs options conf loaded k b.graph_id a here (
              register_processes-IsHeld (get_processes conf) conf.handler k q a b
                (get_processes-Memᴰ conf l k a here) (get_processes-Memᴰ conf l q b there) here
                there was_blocked entry) in
          (
            p,
            ap (view_of registered) (sym k_id) ∙ shows,
            is,
            (b.graph_id, st, subst S (sym q_id) m', waits, ne_blocked proper),
          )
