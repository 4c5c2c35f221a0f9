-- ===== src/Main/Supervision.antt =====
-- The whole program: what holds when it ends.
use scinit.Base.{ℕ, ◌≡◌, refl, sym, ap, ◌∙◌, ◌⊎◌, inl, inr, List, arith, Text, Bool-cases, err, ok}
use scinit.Child.Lifecycle.Awaitable.{AllAwaitable}
use scinit.Handler.Types.{ProcessHandler, Fault, init}
use scinit.Handler.Accounts.{AccountsOf}
use scinit.Handler.Registry.{register_processes}
use scinit.Handler.Registry.Dependencies.{
  register_processes-Accounts, register_processes-AllAwaitable,
}
use scinit.Handler.Start.{StartCalls, notify_all, start_programs}
use scinit.Handler.Start.Accounts.{AllStartWell, start_programs-Accounts}
use scinit.Handler.Loop.{
  SetupCalls, setup_signal_handlers, Round, Run, returned, faulted, loop, enter_eventloop,
}
use scinit.Handler.Loop.Invariant.{RunsWell, Result-cases}
use scinit.Handler.Loop.Termination.{NothingLeft, loop-NothingLeft}
use scinit.Config.{Config, Users, YamlFile, from_file, from_files, get_processes}
use scinit.Config
use scinit.Config.Loaded.{IsLoaded}
use scinit.Config.Loaded.Accounts.{IsLoaded-Accounts, IsLoaded-AllAwaitable}
use scinit.Config.Loaded.Files.{from_files-IsLoaded, from_file-IsLoaded}
use scinit.Main.{
  Options, FileSystem, configured, invoked, regular_files, handle_commandline_invocation, runs,
  main,
}

configured-injective : {a b : Config} → configured a ≡ configured b → a ≡ b
configured-injective e = cc

-- A configuration that the command line leads to is one that was loaded for the new handler.
pub configured-IsLoaded :
    (users : Users) (yaml : Text → YamlFile) (fs : FileSystem) (options : Options) (conf : Config)
    → handle_commandline_invocation users yaml fs options init ≡ configured conf
    → IsLoaded conf
unfolding handle_commandline_invocation
configured-IsLoaded users yaml fs options conf e = elim (Bool-cases options.help) [
  | inl help ↦ absurd (cc (rw help at e))
  | inr no_help ↦ elim (Bool-cases (fs.exists options.config)) [
    | inr missing ↦ absurd (cc (rw (no_help, missing) at e))
    | inl exists ↦ elim (Bool-cases (fs.is_directory options.config)) [
      | inl dir ↦
          let files = regular_files (fs.entries options.config) in
          from_files-IsLoaded users yaml files conf
            (of_invoked (from_files users yaml files init) (rw (no_help, exists, dir) at e))
      | inr file ↦ from_file-IsLoaded users yaml fs.is_directory options.config conf (
          of_invoked (from_file users yaml fs.is_directory options.config init)
            (rw (no_help, exists, file) at e))
    ]
  ]
]
  where
    of_invoked : (r : Config.Result Config) → invoked r ≡ configured conf → r ≡ ok conf
    of_invoked (ok c) p = ap ok (configured-injective p)
    of_invoked (err x) p = absurd (cc p)

pub setup-Accounts :
    (calls : SetupCalls) (s t : ProcessHandler)
    → setup_signal_handlers calls s ≡ ok t
    → AccountsOf s
    → AccountsOf t
unfolding setup_signal_handlers
setup-Accounts calls s t e a = let (n, pids, sigs, heap) = same in rw (n, pids, sigs, heap) a
  where
    same :
        (t.number_of_running_procs ≡ s.number_of_running_procs)
        × (t.id_for_pid ≡ s.id_for_pid)
        × (t.sig_for_id ≡ s.sig_for_id)
        × (t.heap ≡ s.heap)
    same = ground arith

-- The starts before the loop, when they do not end the program, and the loop.
pub run_of : (starts : ℕ → StartCalls) → List Round → ProcessHandler → Run
run_of starts rounds s = elim (start_programs starts s) [ err e ↦ faulted e | ok u ↦ loop rounds u ]

pub run_of_started :
    (starts : ℕ → StartCalls) (rounds : List Round) (s u : ProcessHandler)
    → start_programs starts s ≡ ok u
    → run_of starts rounds s ≡ loop rounds u
unfolding run_of
run_of_started starts rounds s u started = rw (started, run_of) refl

pub run_of_cases :
    (starts : ℕ → StartCalls) (rounds : List Round) (s : ProcessHandler)
    → ((e : Fault) × (run_of starts rounds s ≡ faulted e))
      ⊎ ((u : ProcessHandler) × (start_programs starts s ≡ ok u)
          × (run_of starts rounds s ≡ loop rounds u))
unfolding run_of
run_of_cases starts rounds s = elim (Result-cases (start_programs starts s)) [
  | inl (e, failed) ↦ inl (e, rw (failed, run_of) refl)
  | inr (u, started) ↦ inr (u, started, run_of_started starts rounds s u started)
]

pub main-run_of :
    (users : Users) (yaml : Text → YamlFile) (fs : FileSystem) (options : Options)
    (setup : SetupCalls) (starts : ℕ → StartCalls) (rounds : List Round) (conf : Config)
    (s : ProcessHandler)
    → handle_commandline_invocation users yaml fs options init ≡ configured conf
    → setup_signal_handlers setup (register_processes (get_processes conf) conf.handler) ≡ ok s
    → main users yaml fs options setup starts rounds ≡ runs (run_of starts rounds s)
unfolding main enter_eventloop run_of
main-run_of users yaml fs options setup starts rounds conf s loaded ready =
    rw (loaded, main) (rw (ready, enter_eventloop) refl)

pub runs-injective : {x y : Run} → runs x ≡ runs y → x ≡ y
runs-injective p = cc

-- The bookkeeping is in order when `setup_signal_handlers` returns.
pub setup_done-Accounts :
    (setup : SetupCalls) (conf : Config) (s : ProcessHandler)
    → IsLoaded conf
    → setup_signal_handlers setup (register_processes (get_processes conf) conf.handler) ≡ ok s
    → AccountsOf s
setup_done-Accounts setup conf s l ready =
    setup-Accounts setup (register_processes (get_processes conf) conf.handler) s ready (
      register_processes-Accounts (get_processes conf) conf.handler l.no_pids
        (IsLoaded-Accounts conf l))

-- scinit ends with exit code 0 from its event loop only when no child is left, for any
-- configuration that loads: no pid is registered and no object is in the state RUNNING. The starts
-- that were made got new pids; `s` is the handler after `setup_signal_handlers`.
pub main-NothingLeft :
    (users : Users) (yaml : Text → YamlFile) (fs : FileSystem) (options : Options)
    (setup : SetupCalls) (starts : ℕ → StartCalls) (rounds : List Round) (conf : Config)
    (s t : ProcessHandler)
    → handle_commandline_invocation users yaml fs options init ≡ configured conf
    → setup_signal_handlers setup (register_processes (get_processes conf) conf.handler) ≡ ok s
    → AllStartWell starts s.all_objs (notify_all s)
    → ((u : ProcessHandler) → start_programs starts s ≡ ok u → RunsWell rounds u)
    → main users yaml fs options setup starts rounds ≡ runs (returned t)
    → NothingLeft t
main-NothingLeft users yaml fs options setup starts rounds conf s t loaded ready started well
      ended =
    let l : IsLoaded conf = configured-IsLoaded users yaml fs options conf loaded in
    let run : run_of starts rounds s ≡ returned t =
      runs-injective
        (sym (main-run_of users yaml fs options setup starts rounds conf s loaded ready) ∙ ended) in
    elim (run_of_cases starts rounds s) [
      | inl (e, failed) ↦ absurd (differ (sym failed ∙ run))
      | inr (u, begun, looped) ↦
          loop-NothingLeft rounds u t (well u begun)
            (start_programs-Accounts starts s u started begun
              (setup_done-Accounts setup conf s l ready))
            (sym looped ∙ run)
    ]
  where
    differ : {e : Fault} → faulted e ≡ returned t → ⊥
    differ p = cc

-- In any configuration that loads, once its processes are registered, each process waits for others
-- only to be RUNNING or DONE.
pub main-AllAwaitable :
    (users : Users) (yaml : Text → YamlFile) (fs : FileSystem) (options : Options) (conf : Config)
    → handle_commandline_invocation users yaml fs options init ≡ configured conf
    → AllAwaitable (register_processes (get_processes conf) conf.handler).heap
main-AllAwaitable users yaml fs options conf loaded =
    register_processes-AllAwaitable (get_processes conf) conf.handler
      (IsLoaded-AllAwaitable conf (configured-IsLoaded users yaml fs options conf loaded))
