-- ===== src/Child/Types.antt =====
-- src/ChildProcessInterface.h, src/ProcessHandlerInterface.h and src/ChildProcess.h: the
-- enumerations, and the object of one child process. Objects live in a heap, and a `weak_ptr` is
-- the address of an object that may be gone, or empty.
use scinit.Base.{
  ℕ, ℤ, negsuc, if◌then◌else◌, ◌≡◌, ◌↔◌, Bool, true, false, Option, none, some, List, [], ◌∷◌, ◌++◌,
  arith, Text, codes, text_beq, lower, Map, lookup, nat_key,
}

pub data ProcessType : Type 0 where
  oneshot simple : ProcessType

pub data ProcessState : Type 0 where
  blocked ready running done crashed backoff : ProcessState

pub data ProcessEvent : Type 0 where
  sighup exit : ProcessEvent

pub data FdType : Type 0 where
  stdout stderr : FdType

abbrev pub state_beq : ProcessState → ProcessState → Bool
state_beq blocked blocked = true
state_beq ready ready = true
state_beq running running = true
state_beq done done = true
state_beq crashed crashed = true
state_beq backoff backoff = true
state_beq _ _ = false

pub state_beq_iff : (s t : ProcessState) → (state_beq s t ≡ true) ↔ (s ≡ t)
state_beq_iff s t = ground arith

-- `int fds[2]`: the end that scinit reads, and the one that the child writes.
pub record Fds : Type 0 where
  pub reader : ℤ
  pub writer : ℤ

abbrev pub no_fds : Fds
no_fds = record { reader = negsuc 0; writer = negsuc 0 }

abbrev pub Condition : Type 0
Condition = ℕ × ProcessState

pub record ChildProcess : Type 0 where
  pub name : Text
  pub path : Text
  pub username : Text
  pub args : List Text
  pub capabilities : List Text
  pub uid : ℕ
  pub gid : ℕ
  pub graph_id : ℕ
  pub before : List Text
  pub after : List Text
  pub conditions : List Condition
  pub stdout : Fds
  pub stderr : Fds
  pub primary_pid : ℤ
  pub stdout_pty_name : Text
  pub stderr_pty_name : Text
  pub want_tty : Bool
  pub want_default_env : Bool
  pub type : ProcessType
  pub state : ProcessState
  pub allowed_env_vars : List Text
  pub env_extra_vars : List (Text × Text)

-- The arguments of the constructor.
pub record ProcessArgs : Type 0 where
  pub name : Text
  pub path : Text
  pub args : List Text
  pub type : Text
  pub capabilities : List Text
  pub uid : ℕ
  pub gid : ℕ
  pub graph_id : ℕ
  pub before : List Text
  pub after : List Text
  pub want_tty : Bool
  pub want_default_env : Bool
  pub env_extra_whitelist : List Text
  pub env_extra_vars : List (Text × Text)

abbrev pub default_env_vars : List Text
default_env_vars =
    codes "HOME"
    ∷ codes "LANG"
    ∷ codes "LANGUAGE"
    ∷ codes "LOGNAME"
    ∷ codes "PATH"
    ∷ codes "PWD"
    ∷ codes "SHELL"
    ∷ codes "TERM"
    ∷ codes "USER"
    ∷ []

unfoldable pub process_type : Text → ProcessType
process_type t = if text_beq (lower t) (codes "simple") then simple else oneshot

unfoldable pub user_name : Option Text → Text
user_name none = codes "UNKNOWN"
user_name (some name) = name

-- The constructor, without the call of the handler (`Handler.construct` makes it).
-- `getpwuid` is that of the C library.
unfoldable pub new : (getpwuid : ℕ → Option Text) → ProcessArgs → ChildProcess
unfolding process_type user_name
new getpwuid a = record {
  name = a.name;
  path = a.path;
  username = user_name (getpwuid a.uid);
  args = a.args;
  capabilities = a.capabilities;
  uid = a.uid;
  gid = a.gid;
  graph_id = a.graph_id;
  before = a.before;
  after = a.after;
  conditions = [];
  stdout = no_fds;
  stderr = no_fds;
  primary_pid = negsuc 0;
  stdout_pty_name = [];
  stderr_pty_name = [];
  want_tty = a.want_tty;
  want_default_env = a.want_default_env;
  type = process_type a.type;
  state = blocked;
  allowed_env_vars = default_env_vars ++ a.env_extra_whitelist;
  env_extra_vars = a.env_extra_vars;
}

-- The objects that have not been freed, by their address.
abbrev pub Heap : Type 0
Heap = Map ℕ ChildProcess

abbrev pub WeakPtr : Type 0
WeakPtr = Option ℕ

unfoldable pub lock : Heap → WeakPtr → Option ChildProcess
lock h none = none
lock h (some r) = lookup r h

unfoldable pub can_start_now : ChildProcess → Bool
can_start_now c = state_beq c.state ready
