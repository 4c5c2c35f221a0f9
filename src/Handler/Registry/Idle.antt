-- ===== src/Handler/Registry/Idle.antt =====
-- No process runs or ends while the processes are registered.
use scinit.Base.{ℕ, ◌≡◌, refl, sym, ◌⊎◌, inl, inr, List, [], ◌∷◌, nat_key, Bool-cases, subst}
use scinit.Child.Types.{Condition, ProcessState, blocked, ready, ChildProcess, WeakPtr}
use scinit.Child.Lifecycle.{contains_condition, should_wait_for, awaited_state, settle}
use scinit.Child.Lifecycle.Each.{Each}
use scinit.Child.Lifecycle.Links.Spread.{settled, settle_with}
use scinit.Handler.Types.{ProcessHandler}
use scinit.Handler.Registry.{register_processes}
use scinit.Handler.Registry.Rule.{register_processes-Each}

abbrev pub IsIdle : ChildProcess → Type 0
IsIdle c = (c.state ≡ blocked) ⊎ (c.state ≡ ready)

should_wait_for-IsIdle :
    (id : ℕ) (st : ProcessState) (c : ChildProcess) → IsIdle c → IsIdle (should_wait_for id st c)
unfolding should_wait_for
should_wait_for-IsIdle id st c idle = elim (Bool-cases (contains_condition id c.conditions)) [
  | inl known ↦ rw known idle
  | inr new ↦ rw new idle
]

settle-IsIdle : (c : ChildProcess) → IsIdle c → IsIdle (settle c)
settle-IsIdle c idle = subst IsIdle (sym (settle_with c c.conditions)) (told c.conditions)
  where
    told : (cs : List Condition) → IsIdle (settled c cs)
    told [] = inr refl
    told (x ∷ cs) = idle

-- If each process is BLOCKED or READY before `register_processes`, so it is afterwards.
pub register_processes-IsIdle :
    (refs : List WeakPtr) (s : ProcessHandler)
    → Each (λ r. IsIdle) s.heap
    → Each (λ r. IsIdle) (register_processes refs s).heap
register_processes-IsIdle refs =
    register_processes-Each (λ r. IsIdle) refs
      λ self c _ _. record {
        before = λ r d m n. should_wait_for-IsIdle c.graph_id (awaited_state c.type) d;
        after = λ q d e m n b. should_wait_for-IsIdle d.graph_id (awaited_state c.type) e;
        at_last = settle-IsIdle;
      }
