-- ===== src/Child/Fork.antt =====
-- src/ChildProcess.cpp, `do_fork` on the parent's side, and `register_with_epoll`. What the system
-- calls answer is an argument; the member variables are returned on the throwing paths too.
pub mod Branches
pub mod Terminal
use scinit.Base.{
  ℕ, ℤ, zero, suc, ◌+◌, ◌*◌, ◌==◌, if◌then◌else◌, Bool, true, false, Option, none, some, List, [],
  ◌∷◌, ◌++◌, Text, Map, insert, int_key, err, ok,
}
use scinit.Child.Types.{FdType, ProcessState, ready, running, state_beq, Fds, ChildProcess}
use scinit.Child.Types
use scinit.Child.Tty.{Winsize, Termios, own_tty, make_raw}
use scinit.Child.Env.{Inja, Environment, EnvError, handle_env}

-- The answer of `ttyname_r`.
pub data TtyName : Type 0 where
  erange failed : TtyName
  named : Text → TtyName

-- The exceptions. `rounds_over` is none of the program's: the model looks at a bounded number of
-- rounds of the two loops over `ttyname_r` (`Terminal` has the bound that is enough).
pub data ForkError : Type 0 where
  not_ready no_stdout_pipe no_stderr_pipe no_stdout_pty no_stderr_pty : ForkError
  no_stdout_name no_stderr_name rounds_over : ForkError
  no_environment : EnvError → ForkError
  no_stdout_epoll no_stderr_epoll : ForkError

-- What the system answers to one `do_fork`. `fork` is the parent's answer: a pid, or -1. The two
-- calls of `openpty` are given the settings of the terminal.
pub record ForkCalls : Type 0 where
  pub stdout_pipe : Option Fds
  pub stderr_pipe : Option Fds
  pub tcgetattr : Option Termios
  pub winsize : Option Winsize
  pub stdout_pty : Termios → Winsize → Option Fds
  pub stderr_pty : Termios → Winsize → Option Fds
  pub ttyname_r : ℤ → ℕ → TtyName
  pub tty_rounds : ℕ
  pub environ : List Text
  pub inja : Inja
  pub fork : ℤ

open_pipes : Option Fds → Option Fds → ChildProcess → Option ForkError × ChildProcess
open_pipes none err_fds c = (some no_stdout_pipe, c)
open_pipes (some out_fds) none c = (some no_stderr_pipe, record c { stdout = out_fds })
open_pipes (some out_fds) (some err_fds) c = (none, record c { stdout = out_fds; stderr = err_fds })

-- `while ((rc = ttyname_r(fd, …, capacity)) == ERANGE) reserve(capacity * 2 + 1);` `reserve` makes
-- the capacity what it is asked for.
pub load_name : (rounds : ℕ) → (ℕ → TtyName) → (capacity : ℕ) → TtyName
load_name zero ask capacity = erange
load_name (suc rounds) ask capacity = elim (ask capacity) [
  | erange ↦ load_name rounds ask (capacity * 2 + 1)
  | failed ↦ failed
  | named name ↦ named name
]

-- The names of the two terminals. Both are asked for the descriptor of stdout.
name_ptys : (out_name err_name : TtyName) → ChildProcess → Option ForkError × ChildProcess
name_ptys erange err_name c = (some rounds_over, c)
name_ptys failed err_name c = (some no_stdout_name, c)
name_ptys (named o) erange c = (some rounds_over, record c { stdout_pty_name = o })
name_ptys (named o) failed c = (some no_stderr_name, record c { stdout_pty_name = o })
name_ptys (named o) (named e) c = (none, record c { stdout_pty_name = o; stderr_pty_name = e })

pub open_ptys : ForkCalls → Option Fds → Option Fds → ChildProcess → Option ForkError × ChildProcess
unfolding load_name name_ptys
open_ptys calls none err_fds c = (some no_stdout_pty, c)
open_ptys calls (some out_fds) none c = (some no_stderr_pty, record c { stdout = out_fds })
open_ptys calls (some out_fds) (some err_fds) c =
    let out_name = load_name calls.tty_rounds (calls.ttyname_r out_fds.writer) 64 in
    let err_name = load_name calls.tty_rounds (calls.ttyname_r out_fds.writer) 64 in
    name_ptys out_name err_name (record c { stdout = out_fds; stderr = err_fds })

pub open_streams : ForkCalls → ChildProcess → Option ForkError × ChildProcess
unfolding open_pipes open_ptys
open_streams calls c =
    if c.want_tty
    then (let (own, size) = own_tty calls.tcgetattr calls.winsize in
        open_ptys calls (calls.stdout_pty (make_raw own) size)
          (calls.stderr_pty (make_raw own) size) c)
    else open_pipes calls.stdout_pipe calls.stderr_pipe c

-- The calls of the parent whose results it does not look at.
pub data ParentCall : Type 0 where
  fcntl : (fd : ℤ) (command : ℕ) → ParentCall
  close : (fd : ℤ) → ParentCall

-- FD_CLOEXEC is given as the command.
abbrev fd_cloexec : ℕ
fd_cloexec = 1

-- After two pipes have been opened.
abbrev pub set_cloexec : ChildProcess → List ParentCall
set_cloexec c =
    if c.want_tty
    then []
    else fcntl c.stdout.reader fd_cloexec ∷ fcntl c.stderr.reader fd_cloexec ∷ []

abbrev pub close_writers : ChildProcess → List ParentCall
close_writers c = close c.stdout.writer ∷ close c.stderr.writer ∷ []

pub record Forked : Type 0 where
  pub error : Option ForkError
  pub child : ChildProcess
  pub reg : Map ℤ ℕ
  pub calls : List ParentCall

-- The parent after `fork`. The answer is not compared to -1.
launch : ForkCalls → Environment (List Text) → ChildProcess → Map ℤ ℕ → Forked
launch calls (err e) c reg = record {
  error = some (no_environment e);
  child = c;
  reg = reg;
  calls = set_cloexec c;
}
launch calls (ok environment) c reg = record {
  error = none;
  child = record c { primary_pid = calls.fork; state = running };
  reg = insert calls.fork c.graph_id reg;
  calls = set_cloexec c ++ close_writers c;
}

pub after_streams : ForkCalls → Option ForkError × ChildProcess → Map ℤ ℕ → Forked
unfolding launch
after_streams calls (some e, c) reg = record { error = some e; child = c; reg = reg; calls = [] }
after_streams calls (none, c) reg = launch calls (handle_env calls.inja calls.environ c) c reg

unfoldable pub do_fork : ForkCalls → ChildProcess → Map ℤ ℕ → Forked
unfolding open_streams after_streams
do_fork calls c reg =
    if state_beq c.state ready
    then after_streams calls (open_streams calls c) reg
    else record { error = some not_ready; child = c; reg = reg; calls = [] }

-- What `register_with_epoll` changes, the set of descriptors that epoll watches included.
pub record Watched : Type 0 where
  pub error : Option ForkError
  pub epoll : List ℤ
  pub id_for_fd : Map ℤ ℕ
  pub fd_type : Map ℤ FdType

-- `out_ok` and `err_ok` tell whether the two calls of `epoll_ctl` succeed.
unfoldable pub register_with_epoll :
    (out_ok err_ok : Bool) → ChildProcess → List ℤ → Map ℤ ℕ → Map ℤ FdType → Watched
register_with_epoll false err_ok c epoll ids types = record {
  error = some no_stdout_epoll;
  epoll = epoll;
  id_for_fd = ids;
  fd_type = types;
}
register_with_epoll true false c epoll ids types = record {
  error = some no_stderr_epoll;
  epoll = c.stdout.reader ∷ epoll;
  id_for_fd = ids;
  fd_type = types;
}
register_with_epoll true true c epoll ids types = record {
  error = none;
  epoll = c.stderr.reader ∷ c.stdout.reader ∷ epoll;
  id_for_fd = insert c.stderr.reader c.graph_id (insert c.stdout.reader c.graph_id ids);
  fd_type = insert c.stderr.reader FdType.stderr (insert c.stdout.reader FdType.stdout types);
}
