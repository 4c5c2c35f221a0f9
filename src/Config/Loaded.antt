-- ===== src/Config/Loaded.antt =====
-- The handler after a configuration has been loaded.
pub mod Accounts
pub mod Added
pub mod Files
pub mod Programs
use mathlib.Core.List.{Memᴰ}
use mathlib.Core.List.Memᴰ
use scinit.Base.{ℕ, pos, ◌≤◌, ◌<◌, ◌≡◌, none, some, [], ◌∷◌, lookup, length, nat_key}
use scinit.Child.Types.{blocked, ChildProcess}
use scinit.Config.{Config, get_processes}

-- The objects stand at the addresses below the counter, each under its address as id, blocked,
-- waiting for nobody yet, known to the handler and wired to the signal of its id; nothing runs yet.
pub record IsLoaded (conf : Config) : Type 0 where
  pub addresses : conf.handler.next_address ≡ conf.child_counter
  pub count : length conf.processes ≡ conf.child_counter
  pub held : (r : ℕ) → r < conf.child_counter → Memᴰ r conf.processes
  pub objects :
      (r : ℕ) (c : ChildProcess)
      → lookup r conf.handler.heap ≡ some c
      → (c.graph_id ≡ r) × (r < conf.child_counter) × (c.state ≡ blocked) × (c.conditions ≡ [])
  pub known :
      (r : ℕ)
      → r < conf.child_counter
      → ((c : ChildProcess) × (lookup r conf.handler.heap ≡ some c))
        × (lookup r conf.handler.obj_for_id ≡ some (some r))
        × (lookup r conf.handler.sig_for_id ≡ some (r ∷ []))
  pub fresh : (id : ℕ) → conf.child_counter ≤ id → lookup id conf.handler.sig_for_id ≡ none
  pub named : (id r : ℕ) → lookup id conf.handler.obj_for_id ≡ some (some r) → r ≡ id
  pub no_pids : conf.handler.id_for_pid ≡ []
  pub no_fds :
      (conf.handler.id_for_fd ≡ []) × (conf.handler.num_fd_for_id ≡ []) × (conf.handler.epoll ≡ [])
  pub none_running : conf.handler.number_of_running_procs ≡ pos 0

-- Every object of a configuration is among the processes that it passes on.
pub get_processes-Memᴰ :
    (conf : Config)
    → IsLoaded conf
    → (r : ℕ) (c : ChildProcess) → lookup r conf.handler.heap ≡ some c
    → Memᴰ (some r) (get_processes conf)
unfolding get_processes
get_processes-Memᴰ conf l r c found = Memᴰ.map some (l.held r (l.objects r c found).1)
