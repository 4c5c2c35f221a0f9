-- ===== src/Handler/Signals.antt =====
-- src/ProcessHandler.cpp, `signal_received` and `sigchld_received`.
pub mod Forward
pub mod Exits
use Prim.Native.Nat.{bit_and}
use scinit.Base.{
  ℕ, ℤ, pos, int_beq, dec, ◌==◌, if◌then◌else◌, Bool, true, false, ◌||◌, not, Option, none, some,
  List, [], ◌∷◌, ◌++◌, map, Map, lookup, erase, with_default, for_each, modify, nat_key, int_key,
  err, ok,
}
use scinit.Child.Types.{ProcessEvent, exit, ChildProcess, Heap}
use scinit.Child.Lifecycle.{handle_process_event}
use scinit.Handler.Types.{ProcessHandler, Result, null_signal}

abbrev pub sigint : ℕ
sigint = 2

abbrev pub sigquit : ℕ
sigquit = 3

abbrev pub sigterm : ℕ
sigterm = 15

abbrev pub sigchld : ℕ
sigchld = 17

-- `(signal & SIGTERM) || (signal & SIGQUIT)`
unfoldable pub asks_to_quit : ℕ → Bool
asks_to_quit signal = not (bit_and signal sigterm == 0) || not (bit_and signal sigquit == 0)

-- A signal but SIGCHLD, after the conversion of SIGINT: to every pid, in the order of the pids.
forward : ℕ → ProcessHandler → ProcessHandler
unfolding asks_to_quit
forward signal s =
    let sent = record s { kills = s.kills ++ map (λ p. (p.0, signal)) s.id_for_pid } in
    if asks_to_quit signal then record sent { should_quit = true } else sent

unfoldable pub signal_received : ℕ → ProcessHandler → ProcessHandler
unfolding forward
signal_received signal s =
    if signal == sigchld then s else forward (if signal == sigint then sigterm else signal) s

-- `(*sig_for_id[id])(EXIT, rc)`: each slot is called.
pub notify_exit : (rc : ℤ) → List ℕ → Heap → Heap
notify_exit rc slots h = for_each (λ r. modify r (handle_process_event exit rc)) slots h

-- A known pid: `obj_for_id[id]` is read for the log, and so put in if it is missing.
exited : (pid rc : ℤ) → (id : ℕ) → Option (List ℕ) → ProcessHandler → Result ProcessHandler
exited pid rc id none s = err null_signal
exited pid rc id (some slots) s = ok (record s {
  obj_for_id = with_default id none s.obj_for_id;
  number_of_running_procs = dec s.number_of_running_procs;
  heap = notify_exit rc slots s.heap;
  id_for_pid = erase pid s.id_for_pid;
})

unfoldable pub sigchld_received : (pid rc : ℤ) → ProcessHandler → Result ProcessHandler
unfolding exited notify_exit
sigchld_received pid rc s = elim (lookup pid s.id_for_pid) [
  | none ↦ ok s
  | some id ↦ exited pid rc id (lookup id s.sig_for_id) s
]
