-- ===== src/Samples/Opened.antt =====
-- The assumptions of the theorem on the counters of descriptors, as tests.
use mathlib.Core.List.{Memᴰ}
use scinit.Base.{
  ℕ, ℤ, int_beq, int_beq_iff, ◌≡◌, ◌≢◌, inl, inr, Bool, true, false, ◌&&◌, ◌||◌, not, Bool-cases,
  Option, none, some, List, [], ◌∷◌, Map, lookup, nat_key, int_key, err, ok,
}
use scinit.Child.Types.{ready, state_beq, state_beq_iff, ChildProcess, WeakPtr}
use scinit.Child.Fork.{Forked, do_fork}
use scinit.Handler.Types.{ProcessHandler}
use scinit.Handler.Events.{EpollEvent, event_received}
use scinit.Handler.Start.{StartCalls, notify_all, start_program, start_programs}
use scinit.Handler.Loop.{Round, reap, dispatch}
use scinit.Handler.Loop.Rule.{AllHeard, RunsBy}
use scinit.Handler.Descriptors.Start.{OpensNew}
use scinit.Handler.Descriptors.Loop.{AllOpenNew, OpenNew, ComesWatched}
use scinit.Samples.Checks.{is_none, is_none_lem, both}

abbrev new_fds : Map ℤ ℕ → Forked → Bool
new_fds ids f =
    is_none (lookup f.child.stdout.reader ids)
    && (is_none (lookup f.child.stderr.reader ids)
        && not (int_beq f.child.stderr.reader f.child.stdout.reader))

int_beq-ne : (a b : ℤ) → not (int_beq a b) ≡ true → a ≢ b
int_beq-ne a b e same = differ (int_beq a b) ((int_beq_iff a b).1 same) e
  where
    differ : (t : Bool) → t ≡ true → not t ≡ true → ⊥
    differ true p q = cc
    differ false p q = cc

new_fds-OpensNew : (ids : Map ℤ ℕ) (f : Forked) → new_fds ids f ≡ true → OpensNew ids f
new_fds-OpensNew ids f e =
    let (out, rest) = both _ _ e in
    let (error, other) = both _ _ rest in
    (is_none_lem _ out, is_none_lem _ error, int_beq-ne _ _ other)

abbrev new_fds_at : StartCalls → Option ChildProcess → ProcessHandler → Bool
new_fds_at calls none s = true
new_fds_at calls (some c) s =
    not (state_beq c.state ready) || new_fds s.id_for_fd (do_fork calls.fork c s.id_for_pid)

new_fds_at-OpensNew :
    (calls : StartCalls) (r : ℕ) (s : ProcessHandler) (c : ChildProcess)
    → new_fds_at calls (lookup r s.heap) s ≡ true
    → lookup r s.heap ≡ some c
    → c.state ≡ ready
    → OpensNew s.id_for_fd (do_fork calls.fork c s.id_for_pid)
new_fds_at-OpensNew calls r s c e here is =
    let test : new_fds_at calls (some c) s ≡ true = rw here at e in
    new_fds-OpensNew s.id_for_fd (do_fork calls.fork c s.id_for_pid)
      (rw ((state_beq_iff c.state ready).1 is) at test)

abbrev open_new : (ℕ → StartCalls) → List WeakPtr → ProcessHandler → Bool
open_new calls [] s = true
open_new calls (none ∷ refs) s = open_new calls refs s
open_new calls (some r ∷ refs) s =
    is_none (lookup (calls r).fork.fork s.id_for_pid)
    && (new_fds_at (calls r) (lookup r s.heap) s
        && elim (start_program calls (some r) s) [ err e ↦ true | ok t ↦ open_new calls refs t ])

pub open_new-AllOpenNew :
    (calls : ℕ → StartCalls) (refs : List WeakPtr) (s : ProcessHandler)
    → open_new calls refs s ≡ true
    → AllOpenNew calls refs s
open_new-AllOpenNew calls [] s e = tt
open_new-AllOpenNew calls (none ∷ refs) s e = open_new-AllOpenNew calls refs s e
open_new-AllOpenNew calls (some r ∷ refs) s e =
    let (pid, more) = both _ _ e in
    let (fds, rest) = both _ _ more in
    (
      is_none_lem _ pid,
      λ c here is. new_fds_at-OpensNew (calls r) r s c fds here is,
      λ t started. open_new-AllOpenNew calls refs t (rw started at rest),
    )

abbrev mem : ℤ → List ℤ → Bool
mem fd [] = false
mem fd (f ∷ fds) = int_beq fd f || mem fd fds

mem-Memᴰ : (fd : ℤ) (fds : List ℤ) → mem fd fds ≡ true → Memᴰ fd fds
mem-Memᴰ fd [] e = absurd (cc e)
mem-Memᴰ fd (f ∷ fds) e = elim (Bool-cases (int_beq fd f)) [
  | inl same ↦ Memᴰ.head ((int_beq_iff fd f).0 same)
  | inr other ↦ Memᴰ.tail (mem-Memᴰ fd fds (rw other at e))
]

abbrev comes_watched : EpollEvent → ProcessHandler → Bool
comes_watched e s = mem e.fd s.epoll && not (int_beq e.fd s.signal_fd)

abbrev all_heard : List EpollEvent → ProcessHandler → Bool
all_heard [] s = true
all_heard (e ∷ events) s =
    comes_watched e s && elim (event_received e s) [ err x ↦ true | ok t ↦ all_heard events t ]

all_heard-AllHeard :
    (events : List EpollEvent) (s : ProcessHandler)
    → all_heard events s ≡ true
    → AllHeard ComesWatched events s
all_heard-AllHeard [] s e = tt
all_heard-AllHeard (event ∷ events) s e =
    let (comes, rest) = both _ _ e in
    let (watched, other) = both _ _ comes in
    (
      (λ no_input. (mem-Memᴰ event.fd s.epoll watched, int_beq-ne _ _ other)),
      λ t heard. all_heard-AllHeard events t (rw heard at rest),
    )

-- One round from a handler, and none after it.
abbrev pub round_open : Round → ProcessHandler → Bool
round_open round s =
    open_new round.starts s.all_objs (notify_all s) && elim (start_programs round.starts s) [
      | err e ↦ true
      | ok begun ↦ elim (reap round.reaped begun) [
        | err e ↦ true
        | ok u ↦ all_heard round.events u && elim (dispatch round.events u) [
          | err e ↦ true
          | ok t ↦ open_new round.restarts t.all_objs (notify_all t)
        ]
      ]
    ]

pub round_open-RunsBy :
    (round : Round) (s : ProcessHandler)
    → round_open round s ≡ true
    → RunsBy OpenNew ComesWatched (round ∷ []) s
round_open-RunsBy round s e =
    let (opens, rest) = both _ _ e in
    (
      open_new-AllOpenNew round.starts s.all_objs (notify_all s) opens,
      λ begun u started reaped.
          let (heard, last) = both _ _ (rw (started, reaped) at rest) in
          (
            all_heard-AllHeard round.events u heard,
            λ t done. (
              open_new-AllOpenNew round.restarts t.all_objs (notify_all t) (rw done at last),
              λ v decided. tt,
            ),
          ),
    )
