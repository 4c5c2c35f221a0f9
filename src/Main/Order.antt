-- ===== src/Main/Order.antt =====
-- The whole program as the supervisor that README.md promises, and the order of its starts.
use scinit.Base.{
  inl, inr, ℕ, ◌≡◌, ◌≢◌, refl, sym, ap, ◌∙◌, some, List, Text, All, lookup, nat_key, ok, arith,
  subst,
}
use scinit.Child.Types.{blocked}
use scinit.Supervisor.{Process, View, Steps, stay}
use scinit.Supervisor.Order.{HasBeen, Steps-HasBeen}
use scinit.Handler.Types.{ProcessHandler, init}
use scinit.Handler.Accounts.{AccountsOf}
use scinit.Handler.Registry.{register_processes}
use scinit.Handler.Start.{StartCalls, notify_all, start_programs}
use scinit.Handler.Start.Accounts.{AllStartWell, start_programs-Accounts}
use scinit.Handler.Loop.{SetupCalls, setup_signal_handlers, Round, Run, returned, waiting, faulted}
use scinit.Handler.Loop.Invariant.{RunsWell}
use scinit.Handler.Refinement.{NamedOf, view_of}
use scinit.Handler.Refinement.Start.{FollowsOf, start_programs-Follows}
use scinit.Handler.Refinement.Loop.{Behaves, loop-Behaves_from}
use scinit.Handler.Refinement.Registered.{register_processes-Named}
use scinit.Config.{Config, Users, YamlFile, get_processes}
use scinit.Config.Loaded.{IsLoaded}
use scinit.Main.{Options, FileSystem, configured, handle_commandline_invocation, runs, main}
use scinit.Main.Supervision.{
  configured-IsLoaded, setup_done-Accounts, run_of_cases, main-run_of, runs-injective,
}

pub IsLoaded-Named : (conf : Config) → IsLoaded conf → NamedOf conf.handler
IsLoaded-Named conf l = record {
  known = λ r c found.
      let (id, below, _, _) = l.objects r c found in
      ap (λ i. lookup i conf.handler.obj_for_id) id ∙ (l.known r below).1;
  own = λ id r c known found. (l.objects r c found).0 ∙ l.named id r known;
}

pub setup-view :
    (calls : SetupCalls) (s t : ProcessHandler)
    → setup_signal_handlers calls s ≡ ok t
    → (t.obj_for_id ≡ s.obj_for_id) × (t.heap ≡ s.heap) × (t.all_objs ≡ s.all_objs)
unfolding setup_signal_handlers
setup-view calls s t e = ground arith

-- The handler with which the loop has returned, or waits for its next round.
abbrev pub Shows : Run → ProcessHandler → Type 0
Shows (returned u) t = u ≡ t
Shows (waiting u) t = u ≡ t
Shows (faulted e) t = ⊥

pub Behaves-Shows :
    (v : View) (run : Run) (t : ProcessHandler) → Behaves v run → Shows run t → Steps v (view_of t)
Behaves-Shows v (returned u) t b e = subst (λ (x : ProcessHandler). Steps v (view_of x)) e b
Behaves-Shows v (waiting u) t b e = subst (λ (x : ProcessHandler). Steps v (view_of x)) e b
Behaves-Shows v (faulted x) t b e = absurd e

-- What the hypotheses of a run say: the configuration loads, the set-up works, and each start gets a new
-- pid.
module _ (users : Users) (yaml : Text → YamlFile) (fs : FileSystem) (options : Options)
    (setup : SetupCalls) (starts : ℕ → StartCalls) (rounds : List Round) (conf : Config)
    (s : ProcessHandler)
    (loaded : handle_commandline_invocation users yaml fs options init ≡ configured conf)
    (ready : setup_signal_handlers setup (register_processes (get_processes conf) conf.handler)
      ≡ ok s)
    (started : AllStartWell starts s.all_objs (notify_all s))
    (well : (u : ProcessHandler) → start_programs starts s ≡ ok u → RunsWell rounds u) where
  -- scinit refines the abstract supervisor, for any configuration that loads: from what the handler shows
  -- when the processes are registered to what it shows when the loop has returned or waits, the
  -- supervisor gets by its steps. The starts get new pids; `s` is the handler after
  -- `setup_signal_handlers`.
  pub main-Behaves :
      (run : Run)
      → main users yaml fs options setup starts rounds ≡ runs run
      → Behaves (view_of (register_processes (get_processes conf) conf.handler)) run
  main-Behaves run e =
      let registered = register_processes (get_processes conf) conf.handler in
      let l : IsLoaded conf = configured-IsLoaded users yaml fs options conf loaded in
      let a : AccountsOf s = setup_done-Accounts setup conf s l ready in
      let f : FollowsOf (view_of registered) s =
        let (objs, heap, _) = setup-view setup registered s ready in
        rw (objs, heap)
          (
            register_processes-Named (get_processes conf) conf.handler (IsLoaded-Named conf l),
            stay refl,
          ) in
      subst (Behaves (view_of registered))
        (runs-injective
          (sym (main-run_of users yaml fs options setup starts rounds conf s loaded ready) ∙ e))
        (elim (run_of_cases starts rounds s) [
          | inl (x, failed) ↦ rw failed tt
          | inr (u, begun, looped) ↦ rw looped (
              loop-Behaves_from (view_of registered) rounds u (well u begun)
                (start_programs-Accounts starts s u started begun a)
                (start_programs-Follows (view_of registered) starts s u begun f))
        ])

  -- The order of the starts, for any configuration that loads: a process that is BLOCKED when the
  -- processes are registered, and that is no longer BLOCKED when the loop has returned or waits, waited
  -- for all that it was then to wait for. Each of these processes is there, in the state that was waited
  -- for or in one that is reached from it. The starts get new pids; `s`
  -- is the handler after `setup_signal_handlers`.
  pub main-HasBeen :
      (run : Run) (t : ProcessHandler) (id : ℕ) (p q : Process)
      → main users yaml fs options setup starts rounds ≡ runs run
      → Shows run t
      → view_of (register_processes (get_processes conf) conf.handler) id ≡ some p
      → p.state ≡ blocked
      → view_of t id ≡ some q
      → q.state ≢ blocked
      → All (HasBeen (view_of t)) p.conditions
  main-HasBeen run t id p q e shown there was found moved =
      let registered = register_processes (get_processes conf) conf.handler in
      Steps-HasBeen id p q (Behaves-Shows (view_of registered) run t (main-Behaves run e) shown)
        there was found moved
