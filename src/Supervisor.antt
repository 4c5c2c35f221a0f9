-- ===== src/Supervisor.antt =====
-- What README.md and src/ChildProcessInterface.h promise, with no object, pointer or system call: each
-- process, by its id, is in a state and waits for others; one process at a time changes its state.
pub mod Order
pub mod Deadlock
use scinit.Base.{ℕ, ◌==◌, if◌then◌else◌, ◌≡◌, Bool, true, false, Option, none, some, List, All}
use scinit.Child.Types.{ProcessState, blocked, ready, running, done, crashed, Condition}

pub record Process : Type 0 where
  pub state : ProcessState
  pub conditions : List Condition

-- The processes that are there, by their ids.
abbrev pub View : Type 0
View = ℕ → Option Process

abbrev pub update : View → ℕ → Process → View
update v id p k = if id == k then some p else v k

abbrev pub enter : Process → ProcessState → Process
enter p st = record p { state = st }

-- The process that is waited for is there, in the state that is waited for.
abbrev pub IsMet : View → Condition → Type 0
IsMet v (id, st) = (p : Process) × (v id ≡ some p) × (p.state ≡ st)

-- A process is unblocked only while all that it waits for is the case, started only when it is ready,
-- and ends only if it runs.
pub data Step (v : View) : View → Type 0 where
  unblock :
      {w : View} (id : ℕ) (p : Process)
      → v id ≡ some p
      → p.state ≡ blocked
      → All (IsMet v) p.conditions
      → w ≡ update v id (enter p ready)
      → Step v w
  start :
      {w : View} (id : ℕ) (p : Process)
      → v id ≡ some p
      → p.state ≡ ready
      → w ≡ update v id (enter p running)
      → Step v w
  finish :
      {w : View} (id : ℕ) (p : Process)
      → v id ≡ some p
      → p.state ≡ running
      → w ≡ update v id (enter p done)
      → Step v w
  crash :
      {w : View} (id : ℕ) (p : Process)
      → v id ≡ some p
      → p.state ≡ running
      → w ≡ update v id (enter p crashed)
      → Step v w

pub data Steps : View → View → Type 0 where
  stay : {v w : View} → w ≡ v → Steps v w
  step : {u v w : View} → Step u v → Steps v w → Steps u w
