-- ===== src/Main/Startup.antt =====
-- The whole program starts all its programs, when they wait for each other in no circle.
use mathlib.Core.List.{Memᴰ}
use scinit.Base.{ℕ, ◌<◌, ◌≡◌, some, List, lookup, nat_key, int_key}
use scinit.Child.Types.{simple, ChildProcess}
use scinit.Handler.Types.{ProcessHandler}
use scinit.Handler.Registry.{register_processes}
use scinit.Config.{Config, get_processes}
use scinit.Config.Loaded.{IsLoaded}

-- A program that another one has to wait for, by the `after` list of the one or the `before` list of
-- the other, comes closer to the start, and the one with the list is of the type simple, so that the
-- others wait until it runs.
abbrev pub IsOrdered : (ℕ → ℕ) → Config → Type 0
IsOrdered depth conf =
    (r q : ℕ) (c d : ChildProcess)
    → lookup r conf.handler.heap ≡ some c
    → lookup q conf.handler.heap ≡ some d
    → (Memᴰ d.name c.after → (depth q < depth r) × (c.type ≡ simple))
      × (Memᴰ c.name d.before → (depth q < depth r) × (d.type ≡ simple))

module _ (depth : ℕ → ℕ) (conf : Config) (l : IsLoaded conf) (ordered : IsOrdered depth conf) where
  abbrev registered : ProcessHandler
  registered = register_processes (get_processes conf) conf.handler
