-- ===== src/Main/Waits.antt =====
-- For whom the programs of a configuration wait.
use scinit.Base.{ℕ, ◌≡◌, some, All, Text, lookup, nat_key}
use scinit.Child.Types.{ProcessState, Condition, ChildProcess}
use scinit.Handler.Types.{init}
use scinit.Handler.Registry.{register_processes}
use scinit.Handler.Registry.Origin.{IsConfigured}
use scinit.Handler.Registry.Waits.{register_processes_waits}
use scinit.Config.{Config, Users, YamlFile, get_processes}
use scinit.Config.Loaded.{IsLoaded}
use scinit.Main.{Options, FileSystem, configured, handle_commandline_invocation}
use scinit.Main.Supervision.{configured-IsLoaded}

-- The programs wait as the configuration asks, in any configuration that loads, once its processes are
-- registered: each condition of a process stems from the `before` list of a process that names it, or
-- from its own `after` list, has the id of the other process, and is the state DONE if the process with
-- the list is of the type oneshot, and RUNNING otherwise; and on each process for which one of the
-- lists makes it wait there is a condition.
pub main_waits :
    (users : Users) (yaml : Text → YamlFile) (fs : FileSystem) (options : Options) (conf : Config)
    (r : ℕ) (e : ChildProcess)
    → handle_commandline_invocation users yaml fs options init ≡ configured conf
    → lookup r (register_processes (get_processes conf) conf.handler).heap ≡ some e
    → All (IsConfigured (get_processes conf) conf.handler.heap r) e.conditions
      × ((on : Condition)
          → IsConfigured (get_processes conf) conf.handler.heap r on
          → (st : ProcessState) × (lookup on.0 e.conditions ≡ some st))
main_waits users yaml fs options conf r e loaded found =
    let l : IsLoaded conf = configured-IsLoaded users yaml fs options conf loaded in
    register_processes_waits (get_processes conf) conf.handler r e
      (λ q c there. let (_, _, _, no_conditions) = l.objects q c there in no_conditions) found
