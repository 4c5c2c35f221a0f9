-- ===== src/Child/Fork/Terminal.antt =====
-- The loops that load the names of the two pseudo-terminals.
use scinit.Base.{
  ℕ, zero, suc, ◌+◌, ◌*◌, ◌<◌, ltb, if◌then◌else◌, ◌≡◌, refl, true, none, some, arith, Text,
  Bool-cases, inl, inr, length,
}
use scinit.Child.Types.{Fds, ChildProcess}
use scinit.Child.Tty.{own_tty, make_raw}
use scinit.Child.Fork.{
  TtyName, erange, named, ForkCalls, load_name, name_ptys, open_ptys, open_streams,
}

-- `ttyname_r` answers ERANGE exactly if the buffer does not hold the name and its final zero.
abbrev pub Answers : (ℕ → TtyName) → Text → Type 0
Answers ask name =
    (capacity : ℕ) → ask capacity ≡ (if ltb capacity (length name + 1) then erange else named name)

-- The capacity grows in each round, so as many rounds as the name is long are enough.
load_name_total :
    (rounds : ℕ) (ask : ℕ → TtyName) (capacity : ℕ) (name : Text)
    → Answers ask name
    → length name + 1 < rounds + capacity
    → 0 < rounds
    → load_name rounds ask capacity ≡ named name
unfolding load_name
load_name_total zero ask capacity name a h p = elim p [ ]
load_name_total (suc rounds) ask capacity name a h p =
    elim (Bool-cases (ltb capacity (length name + 1))) [
      | inr fits ↦ rw (a capacity, fits, load_name) refl
      | inl short ↦
          rw (a capacity, short, load_name)
            (load_name_total rounds ask (capacity * 2 + 1) name a (ground arith) (ground arith))
    ]

-- With a pseudo-terminal, both names are that of the terminal of stdout: the second loop asks for the
-- same descriptor again. So the terminal of stderr is not given to the user of the process.
pub open_streams-pty :
    (calls : ForkCalls) (c : ChildProcess) (out_fds err_fds : Fds) (name : Text)
    → c.want_tty ≡ true
    → let (own, size) = own_tty calls.tcgetattr calls.winsize in
      calls.stdout_pty (make_raw own) size ≡ some out_fds
      → calls.stderr_pty (make_raw own) size ≡ some err_fds
      → Answers (calls.ttyname_r out_fds.writer) name
      → length name < calls.tty_rounds + 62
      → 0 < calls.tty_rounds
      → open_streams calls c ≡ (
        none,
        record c {
          stdout = out_fds;
          stderr = err_fds;
          stdout_pty_name = name;
          stderr_pty_name = name;
        },
      )
unfolding open_streams name_ptys
open_streams-pty calls c out_fds err_fds name tty e f answers h p =
    rw
      (
        tty,
        e,
        f,
        load_name_total calls.tty_rounds (calls.ttyname_r out_fds.writer) 64 name answers
            (omega arith) p,
        open_streams,
        open_ptys,
      )
      refl
