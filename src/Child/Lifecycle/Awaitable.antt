-- ===== src/Child/Lifecycle/Awaitable.antt =====
-- The states that processes wait for: `propagate_dependencies` asks for RUNNING and DONE only.
use scinit.Base.{
  ℕ, ◌≡◌, refl, sym, ◌⊎◌, inl, inr, some, List, [], ◌∷◌, arith, All, All-append, lookup, nat_key,
  Bool-cases, subst,
}
use scinit.Child.Types.{
  ProcessType, oneshot, simple, ProcessState, running, done, Condition, ChildProcess, Heap, WeakPtr,
}
use scinit.Child.Lifecycle.Each.{Told}
use scinit.Child.Lifecycle.{contains_condition, should_wait_for, awaited_state, settle}

abbrev pub IsAwaitable : Condition → Type 0
IsAwaitable (id, st) = (st ≡ running) ⊎ (st ≡ done)

-- No object waits for any other state.
abbrev pub AllAwaitable : Heap → Type 0
AllAwaitable h = (r : ℕ) (c : ChildProcess) → lookup r h ≡ some c → All IsAwaitable c.conditions

abbrev pub Awaits : ChildProcess → Type 0
Awaits c = All IsAwaitable c.conditions

abbrev IsAwaited : ProcessState → Type 0
IsAwaited st = (st ≡ running) ⊎ (st ≡ done)

awaited_state-IsAwaited : (type : ProcessType) → IsAwaited (awaited_state type)
unfolding awaited_state
awaited_state-IsAwaited oneshot = inr refl
awaited_state-IsAwaited simple = inl refl

should_wait_for-Awaits :
    (id : ℕ) (st : ProcessState) (c : ChildProcess)
    → IsAwaited st
    → Awaits c
    → Awaits (should_wait_for id st c)
unfolding should_wait_for
should_wait_for-Awaits id st c proper a = elim (Bool-cases (contains_condition id c.conditions)) [
  | inl known ↦ rw known a
  | inr new ↦ rw new (All-append IsAwaitable c.conditions ((id, st) ∷ []) a (proper, tt))
]

settle-Awaits : (c : ChildProcess) → Awaits c → Awaits (settle c)
settle-Awaits c a = subst (All IsAwaitable) (sym same) a
  where
    same : (settle c).conditions ≡ c.conditions
    same = unfold settle in ground arith

pub Awaits-Told :
    (self : ℕ) (c : ChildProcess) (others : List WeakPtr) → Told (λ r. Awaits) self c others
Awaits-Told self c others =
    let proper : IsAwaited (awaited_state c.type) = awaited_state-IsAwaited c.type in
    record {
      before = λ r d m n. should_wait_for-Awaits c.graph_id (awaited_state c.type) d proper;
      after = λ q d e m n b. should_wait_for-Awaits d.graph_id (awaited_state c.type) e proper;
      at_last = settle-Awaits;
    }
