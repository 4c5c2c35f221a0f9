-- ===== src/Handler/Events.antt =====
-- src/ProcessHandler.cpp, `event_received`: one event of epoll, with what the system calls of its
-- handler answer.
pub mod Hangup
pub mod Forgotten
use Prim.Native.Nat.{bit_and}
use scinit.Base.{
  ℕ, ℤ, int_beq, dec_u32, ◌==◌, if◌then◌else◌, Bool, true, false, not, Option, none, some, List, [],
  ◌∷◌, Text, lookup, insert, erase, index, with_default, nat_key, int_key, err, ok,
}
use scinit.Child.Types.{ChildProcess, lock}
use scinit.Handler.Types.{ProcessHandler, Result, process_handler_exception}
use scinit.Handler.Signals.{signal_received}
use scinit.Handler.Output.{strip, handle_child_output}

abbrev pub epollin : ℕ
epollin = 1

abbrev pub epollhup : ℕ
epollhup = 16

-- `signal` is the signal number that is read from `signal_fd` (`none`: a short read), `bytes` what
-- is read from a child (`none`: -1), and `del_ok` tells whether EPOLL_CTL_DEL succeeds.
pub record EpollEvent : Type 0 where
  pub fd : ℤ
  pub events : ℕ
  pub signal : Option ℕ
  pub bytes : Option Text
  pub del_ok : Bool

signal_read : Option ℕ → ProcessHandler → Result ProcessHandler
signal_read none s = err process_handler_exception
signal_read (some signo) s = ok (signal_received signo s)

abbrev is_empty : Text → Bool
is_empty [] = true
is_empty (c ∷ s) = false

output_read : (fd : ℤ) → Option Text → ProcessHandler → Result ProcessHandler
output_read fd none s = ok s
output_read fd (some buf) s =
    if is_empty (strip buf) then ok s else handle_child_output fd (strip buf) s

-- The set of descriptors without one.
abbrev pub unwatch : ℤ → List ℤ → List ℤ
unwatch fd [] = []
unwatch fd (f ∷ fs) = if int_beq f fd then unwatch fd fs else f ∷ unwatch fd fs

-- `if (num_fd_for_id[id] == 0)`: the object has to be there.
last_fd : (id left : ℕ) → ProcessHandler → Result ProcessHandler
last_fd id left s =
    if left == 0
    then elim (lock s.heap (index id none s.obj_for_id)) [
      | none ↦ err process_handler_exception
      | some c ↦ ok (record s { obj_for_id = with_default id none s.obj_for_id })
    ]
    else ok s

-- The `[]` on `id_for_fd` and `num_fd_for_id` takes 0 where nothing is known of the descriptor.
pub closed : (fd : ℤ) → ProcessHandler → Result ProcessHandler
unfolding last_fd
closed fd s =
    let id = index fd 0 s.id_for_fd in
    let left = dec_u32 (index id 0 s.num_fd_for_id) in
    last_fd id left (record s {
      epoll = unwatch fd s.epoll;
      id_for_fd = erase fd s.id_for_fd;
      fd_type = erase fd s.fd_type;
      num_fd_for_id = insert id left s.num_fd_for_id;
    })

unfoldable pub event_received : EpollEvent → ProcessHandler → Result ProcessHandler
unfolding signal_read output_read closed
event_received e s =
    if not (bit_and e.events epollin == 0)
    then (if int_beq e.fd s.signal_fd then signal_read e.signal s else output_read e.fd e.bytes s)
    else if not (bit_and e.events epollhup == 0)
    then (if e.del_ok then closed e.fd s else err process_handler_exception)
    else err process_handler_exception
