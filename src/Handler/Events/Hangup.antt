-- ===== src/Handler/Events/Hangup.antt =====
-- What an event changes, and the end of a descriptor.
use Prim.Native.Nat.{bit_and}
use scinit.Base.{
  ==_iff, ◌⊎◌, ℕ, ℤ, int_beq, dec_u32, ◌==◌, ◌≡◌, inl, inr, Option, none, some, arith, Text, insert,
  erase, index, nat_key, int_key, Bool-cases, Option-cases, Map, with_default, ok,
}
use scinit.Child.Types.{ChildProcess, Heap, WeakPtr, lock}
use scinit.Handler.Types.{ProcessHandler}
use scinit.Handler.Signals.{signal_received}
use scinit.Handler.Output.{strip, handle_child_output}
use scinit.Handler.Events.{
  EpollEvent, epollin, epollhup, signal_read, output_read, unwatch, closed, event_received,
}

-- What no event touches: the bookkeeping of the processes, and the processes themselves.
abbrev pub SameAccounts : ProcessHandler → ProcessHandler → Type 0
SameAccounts s t =
    (t.number_of_running_procs ≡ s.number_of_running_procs)
    × (t.id_for_pid ≡ s.id_for_pid)
    × (t.sig_for_id ≡ s.sig_for_id)
    × (t.heap ≡ s.heap)
    × (t.all_objs ≡ s.all_objs)
    × (t.obj_for_id ≡ s.obj_for_id)

signal_received_same : (signal : ℕ) (s : ProcessHandler) → SameAccounts s (signal_received signal s)
unfolding signal_received
signal_received_same signal s = ground arith

handle_child_output_same :
    (fd : ℤ) (str : Text) (s : ProcessHandler) {t : ProcessHandler}
    → handle_child_output fd str s ≡ ok t
    → SameAccounts s t
unfolding handle_child_output
handle_child_output_same fd str s e = ground arith

output_read_same :
    (fd : ℤ) (bytes : Option Text) (s : ProcessHandler) {t : ProcessHandler}
    → output_read fd bytes s ≡ ok t
    → SameAccounts s t
unfolding output_read
output_read_same fd none s e = ground arith
output_read_same fd (some buf) s {t} e =
    ground (arith, handle_child_output_same fd (strip buf) s {t = t})

-- An object that is there was registered: to look it up puts nothing in.
with_default_alive :
    (h : Heap) (id : ℕ) (objs : Map ℕ WeakPtr) {c : ChildProcess}
    → lock h (index id none objs) ≡ some c
    → with_default id none objs ≡ objs
unfolding with_default index lock
with_default_alive h id objs alive = ground arith

pub closed_same :
    (fd : ℤ) (s : ProcessHandler) {t : ProcessHandler} → closed fd s ≡ ok t → SameAccounts s t
unfolding closed
closed_same fd s e =
    let id = index fd 0 s.id_for_fd in
    elim (Option-cases (lock s.heap (index id none s.obj_for_id))) [
      | inl gone ↦ ground arith
      | inr (c, alive) ↦ ground (arith, with_default_alive s.heap id s.obj_for_id alive)
    ]

-- No event changes the table of pids, the counter, or the state of an object.
pub event_received_same :
    (e : EpollEvent) (s : ProcessHandler) {t : ProcessHandler}
    → event_received e s ≡ ok t
    → SameAccounts s t
unfolding event_received signal_read
event_received_same e s {t} h = elim (Bool-cases (bit_and e.events epollin == 0)) [
  | inl no_input ↦ ground (arith, closed_same e.fd s {t = t})
  | inr input ↦ elim (Bool-cases (int_beq e.fd s.signal_fd)) [
    | inr child ↦ ground (arith, output_read_same e.fd e.bytes s {t = t})
    | inl signal ↦ elim (Option-cases e.signal) [
      | inl short ↦ ground arith
      | inr (signo, got) ↦ ground (arith, signal_received_same signo s)
    ]
  ]
]

abbrev pub SameTables : ProcessHandler → ProcessHandler → Type 0
SameTables s t =
    (t.id_for_fd ≡ s.id_for_fd)
    × (t.num_fd_for_id ≡ s.num_fd_for_id)
    × (t.fd_type ≡ s.fd_type)
    × (t.epoll ≡ s.epoll)
    × (t.signal_fd ≡ s.signal_fd)

-- The tables without the descriptor.
abbrev pub Forgets : ℤ → ProcessHandler → ProcessHandler → Type 0
Forgets fd s t =
    let id = index fd 0 s.id_for_fd in
    (t.id_for_fd ≡ erase fd s.id_for_fd)
    × (t.num_fd_for_id ≡ insert id (dec_u32 (index id 0 s.num_fd_for_id)) s.num_fd_for_id)
    × (t.fd_type ≡ erase fd s.fd_type)
    × (t.epoll ≡ unwatch fd s.epoll)
    × (t.signal_fd ≡ s.signal_fd)

signal_received_tables : (signal : ℕ) (s : ProcessHandler) → SameTables s (signal_received signal s)
unfolding signal_received
signal_received_tables signal s = ground arith

output_read_tables :
    (fd : ℤ) (bytes : Option Text) (s : ProcessHandler) {t : ProcessHandler}
    → output_read fd bytes s ≡ ok t
    → SameTables s t
unfolding output_read handle_child_output
output_read_tables fd none s e = ground arith
output_read_tables fd (some buf) s e = ground arith

pub closed-Forgets :
    (fd : ℤ) (s : ProcessHandler) {t : ProcessHandler} → closed fd s ≡ ok t → Forgets fd s t
unfolding closed
closed-Forgets fd s e = ground arith

-- An event leaves the tables of descriptors alone, or is a hang-up without input that takes one out.
pub event_received_tables :
    (e : EpollEvent) (s : ProcessHandler) {t : ProcessHandler}
    → event_received e s ≡ ok t
    → SameTables s t ⊎ ((bit_and e.events epollin ≡ 0) × Forgets e.fd s t)
unfolding event_received signal_read
event_received_tables e s {t} h = elim (Bool-cases (bit_and e.events epollin == 0)) [
  | inl no_input ↦ inr (
    (==_iff (bit_and e.events epollin) 0).0 no_input,
    elim (Bool-cases (bit_and e.events epollhup == 0)) [
      | inl no_hup ↦ absurd (cc (rw (no_input, no_hup) at h))
      | inr hup ↦ elim (Bool-cases e.del_ok) [
        | inr failed ↦ absurd (cc (rw (no_input, hup, failed) at h))
        | inl removed ↦ closed-Forgets e.fd s {t = t} (rw (no_input, hup, removed) at h)
      ]
    ],
  )
  | inr input ↦ inl (elim (Bool-cases (int_beq e.fd s.signal_fd)) [
    | inr child ↦ ground (arith, output_read_tables e.fd e.bytes s {t = t})
    | inl signal ↦ elim (Option-cases e.signal) [
      | inl short ↦ ground arith
      | inr (signo, got) ↦ ground (arith, signal_received_tables signo s)
    ]
  ])
]
