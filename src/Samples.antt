-- ===== src/Samples.antt =====
-- A configuration of two programs, and what the system answers while scinit runs them. The web server
-- is configured to start after the database.
pub mod Checks
pub mod Opened
pub mod Loading
pub mod Signals
pub mod Starts
pub mod Runs
pub mod Order
pub mod Before
pub mod Deadlock
pub mod Startup
pub mod Faults
pub mod Descriptors
use scinit.Base.{
  ℕ, ℤ, pos, ◌≡◌, refl, Bool, true, false, Option, none, some, List, [], ◌∷◌, ◌+◌, ◌*◌, Text, codes,
  err, ok,
}
use scinit.Child.Types.{WeakPtr}
use scinit.Child.Trials.{fork_calls}
use scinit.Handler.Types.{ProcessHandler, init}
use scinit.Handler.Start.{StartCalls}
use scinit.Config.{
  ListNode, absent, present, ProgramNode, Config, Result, Users, YamlFile, programs, from_files,
  empty,
}
use scinit.Main.{FileSystem, Options}
use scinit.Child.Types.{ChildProcess}
use scinit.Child.Samples.{database}
use scinit.Handler.Accounts.{AccountsOf}
use scinit.Handler.Registry.{register_processes, register_obj_id, construct}
use scinit.Handler.Registry.Dependencies.{register_processes-Accounts}
use scinit.Config.{get_processes}
use scinit.Config.Loaded.Accounts.{IsLoaded-Accounts}
use scinit.Config.Loaded.Files.{from_files-IsLoaded}
use scinit.Base.{refl, lookup, nat_key}

abbrev pub users : Users
users = record {
  getpwuid = λ uid. some (codes "u");
  getpwnam = λ name. some 7;
  getgrnam = λ name. some 8;
}

abbrev pub program : (name : Text) → (after : ListNode) → ProgramNode
program name after = record {
  name = present name;
  path = present (codes "/bin/true");
  type = absent;
  args = none;
  capabilities = none;
  before = none;
  after = after;
  uid = absent;
  gid = absent;
  user = absent;
  group = absent;
  pty = absent;
  default_env = present false;
  env = absent;
}

abbrev pub nodes : List ProgramNode
nodes = program (codes "db") none ∷ program (codes "web") (some (some (codes "db") ∷ [])) ∷ []

abbrev pub yaml : Text → YamlFile
yaml file = programs nodes

abbrev pub files : List Text
files = codes "f.yml" ∷ []

abbrev pub fs : FileSystem
fs = record {
  exists = λ path. true;
  is_directory = λ path. true;
  entries = λ path. (codes "f.yml", true) ∷ (codes "sub", false) ∷ [];
}

abbrev pub options : Options
options = record { help = false; verbose = false; config = codes "/etc/scinit" }

abbrev pub config_of : Result Config → Config
config_of (ok conf) = conf
config_of (err e) = empty users yaml init

abbrev pub conf : Config
conf = config_of (from_files users yaml files init)

-- The starts of a round: the object at `r` gets a pid that no other round gives.
abbrev pub starts : ℕ → ℕ → StartCalls
starts round r = record {
  logger = true;
  fork = record (fork_calls (pos (100 * (round + 1) + r))) { environ = [] };
  stdout_epoll = true;
  stderr_epoll = true;
}

abbrev pub registered : ProcessHandler
registered = register_processes (get_processes conf) conf.handler

pub registered-AccountsOf : AccountsOf registered
unfolding from_files register_obj_id construct
registered-AccountsOf =
    register_processes-Accounts (get_processes conf) conf.handler refl
      (IsLoaded-Accounts conf (from_files-IsLoaded users yaml files conf refl))

abbrev pub object : ℕ → ProcessHandler → ChildProcess
object r s = elim (lookup r s.heap) [ none ↦ database | some c ↦ c ]
