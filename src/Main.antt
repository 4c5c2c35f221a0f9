-- ===== src/Main.antt =====
-- src/main.cpp. The command line, as Boost parses it, and the file system are arguments.
pub mod Supervision
pub mod Order
pub mod Held
pub mod Waits
pub mod After
pub mod Before
pub mod Deadlock
pub mod Startup
pub mod Counts
use scinit.Base.{
  ℕ, if◌then◌else◌, Bool, true, false, Option, none, some, List, [], ◌∷◌, Text, err, ok, ◌>>=◌,
}
use scinit.Handler.Types.{ProcessHandler, init}
use scinit.Handler.Registry.{register_processes}
use scinit.Handler.Start.{StartCalls}
use scinit.Handler.Loop.{SetupCalls, Round, Run, enter_eventloop}
use scinit.Config.{
  Config, ConfigError, Result, Users, YamlFile, from_file, from_files, get_processes,
}

pub record Options : Type 0 where
  pub help : Bool
  pub verbose : Bool
  pub config : Text

-- `entries` lists a directory, with whether each entry is a regular file.
pub record FileSystem : Type 0 where
  pub exists : Text → Bool
  pub is_directory : Text → Bool
  pub entries : Text → List (Text × Bool)

-- `exit(0)` after the help text, the null pointer for a missing file, or a configuration.
pub data Invocation : Type 0 where
  helped missing : Invocation
  failed : ConfigError → Invocation
  configured : Config → Invocation

pub regular_files : List (Text × Bool) → List Text
regular_files [] = []
regular_files ((file, true) ∷ rest) = file ∷ regular_files rest
regular_files ((file, false) ∷ rest) = regular_files rest

pub invoked : Result Config → Invocation
invoked (ok conf) = configured conf
invoked (err e) = failed e

unfoldable pub handle_commandline_invocation :
    Users → (Text → YamlFile) → FileSystem → Options → ProcessHandler → Invocation
unfolding invoked regular_files
handle_commandline_invocation users yaml fs options handler =
    if options.help
    then helped
    else if fs.exists options.config
    then invoked (
        if fs.is_directory options.config
        then from_files users yaml (regular_files (fs.entries options.config)) handler
        else from_file users yaml fs.is_directory options.config handler)
    else missing

-- How the program ends, or that it still runs after the given rounds.
pub data Exit : Type 0 where
  exit_code_0 exit_code_minus_1 : Exit
  uncaught : ConfigError → Exit
  runs : Run → Exit

run_config : SetupCalls → (ℕ → StartCalls) → List Round → Invocation → Exit
run_config setup starts rounds helped = exit_code_0
run_config setup starts rounds missing = exit_code_minus_1
run_config setup starts rounds (failed e) = uncaught e
run_config setup starts rounds (configured conf) =
    runs
      (enter_eventloop setup starts rounds (register_processes (get_processes conf) conf.handler))

unfoldable pub main :
    Users
    → (Text → YamlFile)
    → FileSystem
    → Options
    → SetupCalls
    → (ℕ → StartCalls)
    → List Round
    → Exit
unfolding run_config
main users yaml fs options setup starts rounds =
    run_config setup starts rounds (handle_commandline_invocation users yaml fs options init)
