-- ===== src/Samples/Signals.antt =====
-- The theorems on signals, output and events at concrete inputs.
use mathlib.Core.List.{Memᴰ}
use scinit.Base.{
  ◌⊎◌, err, false, inl, ℕ, pos, ◌≡◌, refl, ◌≢◌, true, none, some, [], ◌∷◌, ◌++◌, codes, arith,
  lookup, erase, dec, nat_key, int_key, suc, ok,
}
use scinit.Child.Types.{FdType, ready, running, ChildProcess, new}
use scinit.Child.Samples.{database, web}
use scinit.Child.Lifecycle.Links.{WaitsFor}
use scinit.Handler.Types.{ProcessHandler, init}
use scinit.Handler.Registry.{register_processes}
use scinit.Handler.Registry.Dependencies.{early_ready}
use scinit.Handler.Registry.After.{IsHeld}
use scinit.Handler.Registry.Before.{register_processes_before}
use scinit.Handler.Signals.{signal_received, sigchld_received}
use scinit.Handler.Signals.Forward.{signal_received_lem}
use scinit.Handler.Signals.Exits.{exit_state, sigchld_received_lem}
use scinit.Handler.Output.{strip}
use scinit.Handler.Output.Strip.{NonZero, strip-trim}
use scinit.Handler.Events.{EpollEvent, event_received}
use Prim.Native.Nat.{bit_and}
use scinit.Handler.Events.{epollhup}
use scinit.Handler.Types.{process_handler_exception}
use scinit.Handler.Events.Forgotten.{IsAlive, IsForgotten, event_received_hangup}

-- One process runs, with two descriptors that are watched.
abbrev runner : ChildProcess
runner = record database { state = running }

abbrev supervising : ProcessHandler
supervising = record init {
  sig_for_id = (0, 0 ∷ []) ∷ [];
  obj_for_id = (0, some 0) ∷ [];
  id_for_pid = (pos 100, 0) ∷ [];
  id_for_fd = (pos 5, 0) ∷ (pos 7, 0) ∷ [];
  num_fd_for_id = (0, 2) ∷ [];
  fd_type = (pos 5, FdType.stdout) ∷ (pos 7, FdType.stderr) ∷ [];
  number_of_running_procs = pos 1;
  heap = (0, runner) ∷ [];
  epoll = pos 5 ∷ pos 7 ∷ [];
}

abbrev hangup : EpollEvent
hangup = record { fd = pos 5; events = 16; signal = none; bytes = none; del_ok = true }

signal_received_lem_example :
    signal_received 2 supervising
    ≡ record supervising { kills = (pos 100, 15) ∷ []; should_quit = true }
signal_received_lem_example = signal_received_lem 2 supervising (omega arith)

sigchld_received_lem_example :
    (lookup (pos 100) supervising.id_for_pid ≡ none
      → sigchld_received (pos 100) (pos 0) supervising ≡ ok supervising)
    × ((id r : ℕ) (c : ChildProcess)
        → lookup (pos 100) supervising.id_for_pid ≡ some id
        → lookup id supervising.sig_for_id ≡ some (r ∷ [])
        → lookup r supervising.heap ≡ some c
        → (t : ProcessHandler) × (sigchld_received (pos 100) (pos 0) supervising ≡ ok t)
          × (t.id_for_pid ≡ erase (pos 100) supervising.id_for_pid)
          × (t.number_of_running_procs ≡ dec supervising.number_of_running_procs)
          × (t.sig_for_id ≡ supervising.sig_for_id)
          × (lookup r t.heap ≡ some (record c { state = exit_state (pos 0) }))
          × ((q : ℕ) → q ≢ r → lookup q t.heap ≡ lookup q supervising.heap))
sigchld_received_lem_example = sigchld_received_lem (pos 100) (pos 0) supervising

strip-trim_example : strip (codes "\nab\n\n") ≡ codes "ab"
strip-trim_example =
    strip-trim (codes "\nab\n\n")
      (nonzero 9, (nonzero 96, (nonzero 97, (nonzero 9, (nonzero 9, tt)))))
  where
    nonzero : (n : ℕ) → NonZero (suc n)
    nonzero n e = omega arith

event_received_hangup_example :
    (bit_and hangup.events epollhup ≢ 0
      → true ≡ true
      → ◌≢◌ {A = ℕ} 1 0 ⊎ IsAlive 0 supervising
      → (t : ProcessHandler) × (event_received hangup supervising ≡ ok t)
        × IsForgotten (pos 5) 0 1 supervising t)
    × (bit_and hangup.events epollhup ≢ 0
        → true ≡ true
        → ◌≡◌ {A = ℕ} 1 0
        → (IsAlive 0 supervising → ⊥)
        → event_received hangup supervising ≡ err process_handler_exception)
    × ((bit_and hangup.events epollhup ≡ 0) ⊎ (true ≡ false)
        → event_received hangup supervising ≡ err process_handler_exception)
unfolding lookup
event_received_hangup_example =
    event_received_hangup hangup supervising 0 1 refl (inl refl) refl (omega arith)

-- The web server names no one, and the database is to start before it.
abbrev pair : ProcessHandler
pair = record init { heap = (0, web) ∷ (1, record database { graph_id = 1 }) ∷ [] }

early_ready_example :
    let t = register_processes (some 0 ∷ some 1 ∷ []) pair in
    ((e : ChildProcess) × (lookup 0 t.heap ≡ some e) × (e.state ≡ ready)) × WaitsFor 0 1 t.heap
unfolding lookup new
early_ready_example =
    early_ready 0 1 pair web (record database { graph_id = 1 }) (λ e. omega arith) refl refl refl
      refl refl (Memᴰ.head refl)

-- In the other order the web server waits for the database.
register_processes_before_example :
    IsHeld 0 1 (register_processes ([] ++ some 1 ∷ some 0 ∷ []) pair).heap
unfolding lookup new
register_processes_before_example =
    register_processes_before [] (some 0 ∷ []) pair 1 0 (record database { graph_id = 1 }) web
      (λ m. elim m [ ]) (λ m. elim m [ ]) (λ e. omega arith) (Memᴰ.head refl) refl refl refl
      (Memᴰ.head refl)
