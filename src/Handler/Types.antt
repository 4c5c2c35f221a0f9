-- ===== src/Handler/Types.antt =====
-- src/ProcessHandler.h: the state of the handler, together with what it works on (the objects, the
-- descriptors that epoll watches) and what it has done so far (signals sent, output passed on).
use scinit.Base.{ℕ, ℤ, negsuc, pos, Bool, false, List, [], Text, Map, Outcome}
use scinit.Child.Types.{FdType, Heap, WeakPtr}

-- What ends `enter_eventloop` abnormally: an exception, or a call through an empty `shared_ptr`.
pub data Fault : Type 0 where
  process_handler_exception child_process_exception out_of_range null_signal : Fault

abbrev pub Result {ℓ} : Type ℓ → Type ℓ
Result A = Outcome Fault A

-- The slots of a signal are the objects whose `handle_process_event` was bound to it.
pub record ProcessHandler : Type 0 where
  pub sig_for_id : Map ℕ (List ℕ)
  pub obj_for_id : Map ℕ WeakPtr
  pub id_for_pid : Map ℤ ℕ
  pub id_for_fd : Map ℤ ℕ
  pub num_fd_for_id : Map ℕ ℕ
  pub fd_type : Map ℤ FdType
  pub all_objs : List WeakPtr
  pub epoll_fd : ℤ
  pub signal_fd : ℤ
  pub number_of_running_procs : ℤ
  pub should_quit : Bool
  -- The objects, and the next address that is free.
  pub heap : Heap
  pub next_address : ℕ
  -- The descriptors that epoll watches.
  pub epoll : List ℤ
  -- The calls of `kill`, and the lines given to the loggers of the children, oldest first.
  pub kills : List (ℤ × ℕ)
  pub output : List (Text × FdType × Text)

abbrev pub init : ProcessHandler
init = record {
  sig_for_id = [];
  obj_for_id = [];
  id_for_pid = [];
  id_for_fd = [];
  num_fd_for_id = [];
  fd_type = [];
  all_objs = [];
  epoll_fd = negsuc 0;
  signal_fd = negsuc 0;
  number_of_running_procs = pos 0;
  should_quit = false;
  heap = [];
  next_address = 0;
  epoll = [];
  kills = [];
  output = [];
}
