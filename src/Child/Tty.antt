-- ===== src/Child/Tty.antt =====
-- src/ChildProcess.cpp, `do_fork`: the settings of the pseudo-terminals, which are those of the
-- terminal of scinit if there is one. The flags have the values of Linux.
use Prim.Native.Nat.{bit_and, bit_or}
use scinit.Base.{ℕ, zero, suc, ◌-◌, Option, none, some, List, [], ◌∷◌}

pub record Winsize : Type 0 where
  pub ws_row : ℕ
  pub ws_col : ℕ
  pub ws_xpixel : ℕ
  pub ws_ypixel : ℕ

pub record Termios : Type 0 where
  pub c_iflag : ℕ
  pub c_oflag : ℕ
  pub c_cflag : ℕ
  pub c_lflag : ℕ
  pub c_line : ℕ
  pub c_cc : List ℕ
  pub c_ispeed : ℕ
  pub c_ospeed : ℕ

abbrev zeros : ℕ → List ℕ
zeros zero = []
zeros (suc n) = 0 ∷ zeros n

-- `struct termios term_properties {}`
abbrev pub no_properties : Termios
no_properties = record {
  c_iflag = 0;
  c_oflag = 0;
  c_cflag = 0;
  c_lflag = 0;
  c_line = 0;
  c_cc = zeros 32;
  c_ispeed = 0;
  c_ospeed = 0;
}

abbrev pub faked_size : Winsize
faked_size = record { ws_row = 24; ws_col = 80; ws_xpixel = 0; ws_ypixel = 0 }

-- What `tcgetattr` and `ioctl` on the standard input give, if they succeed. `ioctl` is not called when
-- `tcgetattr` fails.
abbrev pub own_tty : Option Termios → Option Winsize → Termios × Winsize
own_tty none size = (no_properties, faked_size)
own_tty (some properties) none = (properties, faked_size)
own_tty (some properties) (some size) = (properties, size)

-- `BRKINT | ICRNL | INPCK | ISTRIP | IXON`, `OPOST`, and `ECHO | ICANON | IEXTEN | ISIG`.
abbrev pub input_flags : ℕ
input_flags = bit_or (bit_or (bit_or (bit_or 0o2 0o400) 0o20) 0o40) 0o2000

abbrev pub output_flags : ℕ
output_flags = 0o1

abbrev pub local_flags : ℕ
local_flags = bit_or (bit_or (bit_or 0o10 0o2) 0o100000) 0o1

-- `flags &= ~mask` on 32 bits.
abbrev pub clear : (mask flags : ℕ) → ℕ
clear mask flags = bit_and flags (0xffffffff - mask)

abbrev pub make_raw : Termios → Termios
make_raw t = record t {
  c_iflag = clear input_flags t.c_iflag;
  c_oflag = clear output_flags t.c_oflag;
  c_lflag = clear local_flags t.c_lflag;
}
