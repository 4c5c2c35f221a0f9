-- ===== src/Child/Trials.antt =====
-- The theorems on the start of a child process at concrete inputs.
use scinit.Base.{
  ℕ, ℤ, pos, ◌≡◌, refl, ◌⊎◌, Bool, true, false, none, some, List, [], ◌∷◌, map, Text, arith, ◌+◌,
  codes, lookup, nat_key, int_key, text_key, ltb, if◌then◌else◌, length, insert, index, ok,
}
use scinit.Child.Types.{ready, ChildProcess, Fds, new}
use scinit.Child.Samples.{database, web}
use scinit.Child.Env.{Vars, Inja, print_lines, keys, member, env_vars, handle_env}
use scinit.Child.Env.Filter.{Imported, forced_table, env_vars_origin, env_vars_forced}
use scinit.Child.Env.Lines.{newlines, handle_env_entries, length-handle_env}
use scinit.Child.Fork.{ForkCalls, TtyName, erange, named, do_fork, open_streams}
use scinit.Child.Fork.Branches.{SameProcess, Launched, Refused, do_fork_outcome}
use scinit.Child.Fork.Terminal.{open_streams-pty}
use scinit.Child.Caps.{Call, exec_child}
use scinit.Child.Caps.Steps.{child_steps, calls}
use scinit.Child.Caps.Order.{exec_child_outcome, AllSucceed, StopsAt}

-- An engine that copies a template.
abbrev pub plain_inja : Inja
plain_inja = record {
  render = λ template vars. some template;
  render_loop = λ keys get vars. some (print_lines (keys vars) (get vars));
  render_loop_prints = λ keys get vars. refl;
}

abbrev ttyname : ℤ → ℕ → TtyName
ttyname fd capacity =
    if ltb capacity (length (codes "/dev/pts/3") + 1) then erange else named (codes "/dev/pts/3")

abbrev pub pipe : ℤ → ℤ → Fds
pipe r w = record { reader = r; writer = w }

abbrev environ : List Text
environ = codes "X=1" ∷ codes "Y=2" ∷ codes "PATH=/mine" ∷ []

abbrev pub fork_calls : ℤ → ForkCalls
fork_calls pid = record {
  stdout_pipe = some (pipe (pos 5) (pos 6));
  stderr_pipe = some (pipe (pos 7) (pos 8));
  tcgetattr = none;
  winsize = none;
  stdout_pty = λ properties size. some (pipe (pos 5) (pos 6));
  stderr_pty = λ properties size. some (pipe (pos 7) (pos 8));
  ttyname_r = ttyname;
  tty_rounds = 3;
  environ = environ;
  inja = plain_inja;
  fork = pid;
}

abbrev ready_database : ChildProcess
ready_database = record database { state = ready }

do_fork_outcome_example :
    SameProcess ready_database (do_fork (fork_calls (pos 100)) ready_database []).child
    × (Launched
          (fork_calls (pos 100))
          ready_database
          []
          (do_fork (fork_calls (pos 100)) ready_database [])
        ⊎ Refused ready_database [] (do_fork (fork_calls (pos 100)) ready_database []))
do_fork_outcome_example = do_fork_outcome (fork_calls (pos 100)) ready_database []

open_streams-pty_example : open_streams (fork_calls (pos 100)) web ≡ (
  none,
  record web {
    stdout = pipe (pos 5) (pos 6);
    stderr = pipe (pos 7) (pos 8);
    stdout_pty_name = codes "/dev/pts/3";
    stderr_pty_name = codes "/dev/pts/3";
  },
)
unfolding new
open_streams-pty_example =
    open_streams-pty (fork_calls (pos 100)) web (pipe (pos 5) (pos 6)) (pipe (pos 7) (pos 8))
      (codes "/dev/pts/3") refl refl refl (λ capacity. refl) (omega arith) (omega arith)

-- Everything succeeds but the change of the group.
abbrev refuses_setgid : List Call → Call → Bool
refuses_setgid before (Call.setgid gid) = false
refuses_setgid before _ = true

-- The first `dup2` is interrupted once.
exec_child_outcome_example :
    let r = exec_child refuses_setgid (λ capability. none) 1 0 web [] [] in
    let steps = child_steps (λ capability. none) 1 0 web in
    ((r ≡ (some (record { program = web.path; argv = web.path ∷ web.args; env = [] }), calls steps))
      × AllSucceed refuses_setgid steps [])
    ⊎ ((r.0 ≡ none) × StopsAt refuses_setgid steps [] r.1)
exec_child_outcome_example = exec_child_outcome refuses_setgid (λ capability. none) 1 0 web []

abbrev database_vars : Vars
database_vars =
    (codes "HOME", codes "/app")
    ∷ (codes "LANG", codes "C")
    ∷ (codes "LANGUAGE", codes "en")
    ∷ (codes "LOGNAME", codes "u")
    ∷ (codes "PATH", codes "/usr/local/bin:/usr/bin:/bin")
    ∷ (codes "PWD", codes "/app")
    ∷ (codes "SHELL", codes "/bin/bash")
    ∷ (codes "TERM", codes "screen")
    ∷ (codes "USER", codes "u")
    ∷ (codes "X", codes "1")
    ∷ []

database_env : env_vars plain_inja environ database ≡ ok database_vars
unfolding new env_vars lookup insert
database_env = refl

env_vars_origin_example :
    (member (codes "X") (map (λ p. p.0) database.env_extra_vars) ≡ true)
    ⊎ (lookup (codes "X") (forced_table database) ≡ some (codes "1"))
    ⊎ Imported database.allowed_env_vars environ (codes "X") (codes "1")
unfolding lookup
env_vars_origin_example =
    env_vars_origin plain_inja environ database database_vars (codes "X") (codes "1") database_env
      refl

env_vars_forced_example :
    lookup (codes "PATH") database_vars ≡ some (codes "/usr/local/bin:/usr/bin:/bin")
unfolding new lookup
env_vars_forced_example =
    env_vars_forced plain_inja environ database database_vars (codes "PATH")
      (codes "/usr/local/bin:/usr/bin:/bin") database_env refl refl

-- A program with one extra variable, whose value has a newline in it.
abbrev two_line : ChildProcess
two_line = record web { env_extra_vars = (codes "K", codes "1\nEVIL=2") ∷ [] }

abbrev web_vars : Vars
web_vars = (codes "PATH", codes "/mine") ∷ (codes "USER", codes "UNKNOWN") ∷ []

abbrev two_line_vars : Vars
two_line_vars = (codes "K", codes "1\nEVIL=2") ∷ web_vars

handle_env_entries_example :
    handle_env plain_inja environ web ≡ ok (codes "PATH=/mine" ∷ codes "USER=UNKNOWN" ∷ [])
unfolding new env_vars lookup insert index newlines
handle_env_entries_example =
    handle_env_entries plain_inja environ web web_vars refl (refl, (refl, tt))

abbrev two_line_env : List Text
two_line_env = codes "K=1" ∷ codes "EVIL=2" ∷ codes "PATH=/mine" ∷ codes "USER=UNKNOWN" ∷ []

length-handle_env_example : length two_line_env ≡ length (keys two_line_vars) + 1
unfolding new env_vars handle_env lookup insert index newlines
length-handle_env_example =
    length-handle_env plain_inja environ two_line two_line_vars refl two_line_env refl
