-- ===== src/Main/Counts.antt =====
-- The counters of descriptors over a run of the whole program.
use scinit.Base.{ℕ, ◌≡◌, sym, ap, ◌∙◌, inl, inr, List, ◌∷◌, Text, ok, subst, arith}
use scinit.Child.Types.{WeakPtr}
use scinit.Handler.Types.{ProcessHandler, init}
use scinit.Handler.Registry.{register_processes}
use scinit.Handler.Start.{StartCalls, start_programs}
use scinit.Handler.Loop.{SetupCalls, setup_signal_handlers, Round, Run}
use scinit.Handler.Loop.Rule.{RunsBy}
use scinit.Handler.Descriptors.Loop.{
  OpenNew, ComesWatched, InOrder, InOrder-Keeps, InOrder-empty, CountsAtEnd, loop-CountsAtEnd,
}
use scinit.Config.{Config, Users, YamlFile, get_processes}
use scinit.Config.Loaded.{IsLoaded}
use scinit.Main.{Options, FileSystem, configured, handle_commandline_invocation, runs, main}
use scinit.Main.Supervision.{
  configured-IsLoaded, setup_done-Accounts, run_of_cases, main-run_of, runs-injective,
}

setup-tables :
    (calls : SetupCalls) (refs : List WeakPtr) (s t : ProcessHandler)
    → setup_signal_handlers calls (register_processes refs s) ≡ ok t
    → (t.id_for_fd ≡ s.id_for_fd)
      × (t.num_fd_for_id ≡ s.num_fd_for_id)
      × (t.epoll ≡ t.signal_fd ∷ s.epoll)
unfolding setup_signal_handlers register_processes
setup-tables calls refs s t e = ground arith

-- The counters of descriptors are right, for any configuration that loads, when the loop has returned or
-- waits: each is the number of descriptors that the table has for the process, at most two, and not 0
-- while one of them is in the table, so that a hang-up never makes it wrap. The starts get new pids and
-- new descriptors, and hang-ups come for descriptors of children that epoll watches; `s` is the handler
-- after `setup_signal_handlers`.
pub main-Counts :
    (users : Users) (yaml : Text → YamlFile) (fs : FileSystem) (options : Options)
    (setup : SetupCalls) (starts : ℕ → StartCalls) (rounds : List Round) (conf : Config)
    (s : ProcessHandler) (run : Run)
    → handle_commandline_invocation users yaml fs options init ≡ configured conf
    → setup_signal_handlers setup (register_processes (get_processes conf) conf.handler) ≡ ok s
    → OpenNew starts s
    → ((u : ProcessHandler) → start_programs starts s ≡ ok u → RunsBy OpenNew ComesWatched rounds u)
    → main users yaml fs options setup starts rounds ≡ runs run
    → CountsAtEnd run
main-Counts users yaml fs options setup starts rounds conf s run loaded ready opens well e =
    let l : IsLoaded conf = configured-IsLoaded users yaml fs options conf loaded in
    let (ids, nums, epoll) = setup-tables setup (get_processes conf) conf.handler s ready in
    let (no_ids, no_nums, no_epoll) = l.no_fds in
    let i : InOrder s =
      InOrder-empty s (setup_done-Accounts setup conf s l ready) (ids ∙ no_ids) (nums ∙ no_nums)
        (epoll ∙ ap (λ fds. s.signal_fd ∷ fds) no_epoll) in
    subst CountsAtEnd
      (runs-injective
        (sym (main-run_of users yaml fs options setup starts rounds conf s loaded ready) ∙ e))
      (elim (run_of_cases starts rounds s) [
        | inl (x, failed) ↦ rw failed tt
        | inr (u, begun, looped) ↦ rw looped (
            loop-CountsAtEnd rounds u (InOrder-Keeps.start starts s u opens begun i) (well u begun))
      ])
