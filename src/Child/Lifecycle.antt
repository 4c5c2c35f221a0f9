-- ===== src/Child/Lifecycle.antt =====
-- src/ChildProcess.cpp: the dependencies between processes and the changes of state that are not
-- made by `do_fork`. A member function that changes another object works on the heap.
pub mod Conditions
pub mod States
pub mod Links
pub mod Each
pub mod Awaitable
pub mod Progress
use scinit.Base.{
  ℕ, ℤ, pos, int_beq, ◌==◌, if◌then◌else◌, Bool, true, false, not, ◌||◌, none, some, List, [], ◌∷◌,
  ◌++◌, Text, text_beq, Map, lookup, modify, for_each, nat_key,
}
use scinit.Child.Types.{
  ProcessType, oneshot, simple, ProcessState, blocked, ready, running, done, crashed, ProcessEvent,
  sighup, exit, state_beq, Condition, ChildProcess, Heap, WeakPtr, lock,
}

-- The `std::accumulate` of `should_wait_for`.
pub contains_condition : ℕ → List Condition → Bool
contains_condition other [] = false
contains_condition other ((id, st) ∷ cs) = (id == other) || contains_condition other cs

unfoldable pub should_wait_for : ℕ → ProcessState → ChildProcess → ChildProcess
unfolding contains_condition
should_wait_for other st c =
    if contains_condition other c.conditions
    then c
    else record c { conditions = c.conditions ++ (other, st) ∷ [] }

-- What the process on the waiting side is told to wait for. `type` is that of the process whose
-- `before` or `after` list is read.
unfoldable pub awaited_state : ProcessType → ProcessState
awaited_state oneshot = done
awaited_state simple = running

-- The object that `ref` points to is told to wait, if it has the name.
pub visit_before : (id : ℕ) → ProcessState → (dependency : Text) → WeakPtr → Heap → Heap
visit_before id st dependency none h = h
visit_before id st dependency (some r) h =
    modify r (λ c. if text_beq c.name dependency then should_wait_for id st c else c) h

-- The object at `self` is told to wait for the one that `ref` points to, if that has the name.
pub visit_after : (self : ℕ) → ProcessState → (dependency : Text) → WeakPtr → Heap → Heap
visit_after self st dependency ref h = elim (lock h ref) [
  | none ↦ h
  | some c ↦ if text_beq c.name dependency then modify self (should_wait_for c.graph_id st) h else h
]

pub settle : ChildProcess → ChildProcess
settle c = elim c.conditions [
  | [] ↦ record c { before = []; after = []; state = ready }
  | _ ∷ _ ↦ record c { before = []; after = [] }
]

-- The two `std::for_each` of `propagate_dependencies`.
pub spread_before : (c : ChildProcess) → List WeakPtr → Heap → Heap
unfolding for_each visit_before awaited_state
spread_before c others =
    for_each
      (λ dependency. for_each (visit_before c.graph_id (awaited_state c.type) dependency) others)
      c.before

pub spread_after : (self : ℕ) → (c : ChildProcess) → List WeakPtr → Heap → Heap
unfolding for_each visit_after awaited_state
spread_after self c others =
    for_each (λ dependency. for_each (visit_after self (awaited_state c.type) dependency) others)
      c.after

unfoldable pub propagate_dependencies : (self : ℕ) → List WeakPtr → Heap → Heap
unfolding spread_before spread_after settle
propagate_dependencies self others h = elim (lookup self h) [
  | none ↦ h
  | some c ↦ modify self settle (spread_after self c others (spread_before c others h))
]

-- One step of the `std::accumulate` of `notify_of_state`: does the condition hold?
pub fulfilled : Map ℕ WeakPtr → Heap → Condition → Bool
fulfilled other_procs h (id, st) = elim (lookup id other_procs) [
  | none ↦ false
  | some ref ↦ elim (lock h ref) [ none ↦ false | some p ↦ state_beq p.state st ]
]

pub still_blocked : Map ℕ WeakPtr → Heap → List Condition → Bool
still_blocked other_procs h [] = false
still_blocked other_procs h (c ∷ cs) =
    not (fulfilled other_procs h c) || still_blocked other_procs h cs

unfoldable pub notify_of_state : Map ℕ WeakPtr → Heap → ChildProcess → ChildProcess
unfolding still_blocked fulfilled
notify_of_state other_procs h c =
    if state_beq c.state blocked
    then (if still_blocked other_procs h c.conditions then c else record c { state = ready })
    else c

unfoldable pub handle_process_event : ProcessEvent → ℤ → ChildProcess → ChildProcess
handle_process_event sighup rc c = c
handle_process_event exit rc c =
    if int_beq rc (pos 0) then record c { state = done } else record c { state = crashed }
