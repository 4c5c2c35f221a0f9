-- ===== src/Handler/Descriptors/Loop.antt =====
-- The tables of descriptors over the event loop.
use mathlib.Core.List.{Memᴰ}
use scinit.Base.{
  ℕ, ℤ, ◌≡◌, ◌≢◌, none, some, List, [], ◌∷◌, lookup, nat_key, int_key, subst, ok, ok-injective,
  >>=-eq-ok,
}
use Prim.Native.Nat.{bit_and}
use scinit.Child.Types.{ready, ChildProcess, WeakPtr}
use scinit.Child.Fork.{do_fork}
use scinit.Handler.Types.{ProcessHandler}
use scinit.Handler.Accounts.{AccountsOf}
use scinit.Handler.Events.{EpollEvent, epollin}
use scinit.Handler.Start.{StartCalls, notify_all, start_program, start_all, start_programs}
use scinit.Handler.Start.Accounts.{StartsWell, start_program-Accounts, notify_all-Accounts}
use scinit.Handler.Loop.{Round, Run, returned, waiting, faulted, loop}
use scinit.Handler.Loop.Rule.{RunsBy, Keeps, AtEnd, loop_keeps}
use scinit.Handler.Loop.Termination.{AccountsOf-IsInvariant}
use scinit.Handler.Descriptors.{DescriptorsOf}
use scinit.Handler.Descriptors.Start.{OpensNew, start_program-Descriptors}
use scinit.Handler.Descriptors.Events.{event_received-Descriptors}
use scinit.Handler.Descriptors.Watched.{
  WatchedOf, start_program-Watched, sigchld_received-Watched, event_received-Watched,
}
use scinit.Handler.Descriptors.Runs.{
  notify_all-Descriptors, sigchld_received-Descriptors, Descriptors-empty, Counts,
  Descriptors-Counts,
}

-- Each start of a call of `start_programs` gets a new pid, and a process that is READY opens descriptors that are in no table.
abbrev pub AllOpenNew : (ℕ → StartCalls) → List WeakPtr → ProcessHandler → Type 0
AllOpenNew calls [] s = Unit
AllOpenNew calls (none ∷ refs) s = AllOpenNew calls refs s
AllOpenNew calls (some r ∷ refs) s =
    StartsWell (calls r) s
    × ((c : ChildProcess)
        → lookup r s.heap ≡ some c
        → c.state ≡ ready
        → OpensNew s.id_for_fd (do_fork (calls r).fork c s.id_for_pid))
    × ((t : ProcessHandler) → start_program calls (some r) s ≡ ok t → AllOpenNew calls refs t)

abbrev pub OpenNew : (ℕ → StartCalls) → ProcessHandler → Type 0
OpenNew calls s = AllOpenNew calls s.all_objs (notify_all s)

-- A hang-up with no input comes for a descriptor that epoll watches, and that is not the one of the
-- signals.
abbrev pub ComesWatched : EpollEvent → ProcessHandler → Type 0
ComesWatched e s = bit_and e.events epollin ≡ 0 → Memᴰ e.fd s.epoll × (e.fd ≢ s.signal_fd)

abbrev pub InOrder : ProcessHandler → Type 0
InOrder s = AccountsOf s × DescriptorsOf s × WatchedOf s

start_all-InOrder :
    (calls : ℕ → StartCalls) (refs : List WeakPtr) (s t : ProcessHandler)
    → AllOpenNew calls refs s
    → start_all calls refs s ≡ ok t
    → InOrder s
    → InOrder t
unfolding start_all start_program
start_all-InOrder calls [] s t w e i = subst InOrder (ok-injective e) i
start_all-InOrder calls (none ∷ refs) s t w e i = start_all-InOrder calls refs s t w e i
start_all-InOrder calls (some r ∷ refs) s t (well, fresh, next) e (a, x, w) =
    let (u, first, later) =
      >>=-eq-ok (start_program calls (some r) s) (λ v. start_all calls refs v) e in
    start_all-InOrder calls refs u t (next u first) later (
      start_program-Accounts calls r s u well first a,
      start_program-Descriptors calls r s u a fresh first x,
      start_program-Watched calls r s u first w,
    )

pub InOrder-Keeps : Keeps OpenNew ComesWatched InOrder
unfolding start_programs notify_all
InOrder-Keeps = record {
  start = λ calls s t w e (a, x, v).
      start_all-InOrder calls s.all_objs (notify_all s) t w e
        (notify_all-Accounts s a, notify_all-Descriptors s x, v);
  exit = λ pid rc s t e (a, x, v). (
    AccountsOf-IsInvariant.exit pid rc s t e a,
    sigchld_received-Descriptors pid rc s t a e x,
    sigchld_received-Watched pid rc s t e v,
  );
  event = λ e s t comes h (a, x, v). (
    AccountsOf-IsInvariant.event e s t h a,
    event_received-Descriptors e s t (λ no_input. let (m, ne) = comes no_input in v e.fd m ne) h x,
    event_received-Watched e s t h v,
  );
}

-- The handler with which the loop has returned, or waits for its next round, counts right.
abbrev pub CountsAtEnd : Run → Type 0
CountsAtEnd (returned t) = Counts t
CountsAtEnd (waiting t) = Counts t
CountsAtEnd (faulted e) = Unit

AtEnd-Counts : (r : Run) → AtEnd InOrder r → CountsAtEnd r
AtEnd-Counts (returned t) ((a, x, w), idle) = Descriptors-Counts t x
AtEnd-Counts (waiting t) (a, x, w) = Descriptors-Counts t x
AtEnd-Counts (faulted e) u = tt

-- The loop goes on to count right.
pub loop-CountsAtEnd :
    (rounds : List Round) (s : ProcessHandler)
    → InOrder s
    → RunsBy OpenNew ComesWatched rounds s
    → CountsAtEnd (loop rounds s)
loop-CountsAtEnd rounds s i well =
    AtEnd-Counts (loop rounds s) (loop_keeps OpenNew ComesWatched InOrder-Keeps rounds s well i)

-- A handler with no descriptors, that epoll watches only for signals.
pub InOrder-empty :
    (s : ProcessHandler)
    → AccountsOf s
    → s.id_for_fd ≡ []
    → s.num_fd_for_id ≡ []
    → s.epoll ≡ s.signal_fd ∷ []
    → InOrder s
InOrder-empty s a no_ids no_nums signals = (a, Descriptors-empty s no_ids no_nums, watches_signals)
  where
    only : (fd : ℤ) → Memᴰ fd (s.signal_fd ∷ []) → fd ≡ s.signal_fd
    only fd (Memᴰ.head e) = e
    only fd (Memᴰ.tail m) = elim m [ ]

    watches_signals : WatchedOf s
    watches_signals fd m ne = absurd (ne (only fd (subst (Memᴰ fd) signals m)))

-- Through the rounds of the loop, from a handler with no descriptors that epoll watches only for
-- signals, the counters of descriptors are right: each is the number of descriptors that the table has
-- for the process, at most two, and not 0 while one of them is in the table, so that a hang-up never
-- makes it wrap. The starts get new pids and new descriptors, and hang-ups come for descriptors of
-- children that epoll watches.
pub loop-Counts :
    (rounds : List Round) (s : ProcessHandler)
    → AccountsOf s
    → s.id_for_fd ≡ []
    → s.num_fd_for_id ≡ []
    → s.epoll ≡ s.signal_fd ∷ []
    → RunsBy OpenNew ComesWatched rounds s
    → CountsAtEnd (loop rounds s)
loop-Counts rounds s a no_ids no_nums signals =
    loop-CountsAtEnd rounds s (InOrder-empty s a no_ids no_nums signals)
