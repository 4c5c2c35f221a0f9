-- ===== src/Handler/Registry.antt =====
-- src/ProcessHandler.cpp, the registration of processes, and the constructor of a child process.
pub mod Frame
pub mod Rule
pub mod Dependencies
pub mod After
pub mod Before
pub mod Origin
pub mod Links
pub mod Waits
pub mod Idle
use scinit.Base.{
  ℕ, suc, ◌==◌, if◌then◌else◌, Bool, Option, none, some, List, [], ◌∷◌, ◌++◌, Text, Map, lookup,
  insert, index, with_default, nat_key, for_each,
}
use scinit.Child.Types.{ChildProcess, ProcessArgs, Heap, WeakPtr, new}
use scinit.Child.Lifecycle.{propagate_dependencies}
use scinit.Handler.Types.{ProcessHandler}

-- One round of the loop of `register_processes`.
pub propagate : List WeakPtr → WeakPtr → Heap → Heap
propagate all none h = h
propagate all (some r) h = propagate_dependencies r all h

unfoldable pub register_processes : List WeakPtr → ProcessHandler → ProcessHandler
unfolding propagate
register_processes refs s = record s {
  all_objs = refs;
  heap = for_each (propagate refs) refs s.heap;
}

-- `handler` is `handle_process_event` bound to the object at an address.
unfoldable pub register_for_process_state :
    (id : ℕ) → (handler : ℕ) → ProcessHandler → ProcessHandler
register_for_process_state id handler s =
    let signals = with_default id [] s.sig_for_id in
    record s { sig_for_id = insert id (index id [] signals ++ handler ∷ []) signals }

unfoldable pub register_obj_id : (id : ℕ) → WeakPtr → ProcessHandler → ProcessHandler
register_obj_id id obj s = record s { obj_for_id = insert id obj s.obj_for_id }

-- `make_shared<ChildProcess>`: the new object, at its address, registers itself for its events.
unfoldable pub construct :
    (getpwuid : ℕ → Option Text) → ProcessArgs → ProcessHandler → ℕ × ProcessHandler
unfolding register_for_process_state
construct getpwuid args s =
    let r = s.next_address in
    let made = record s { heap = insert r (new getpwuid args) s.heap; next_address = suc r } in
    (r, register_for_process_state args.graph_id r made)
