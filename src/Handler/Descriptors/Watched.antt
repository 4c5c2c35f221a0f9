-- ===== src/Handler/Descriptors/Watched.antt =====
-- What epoll watches: the signals, and descriptors that `id_for_fd` knows.
use mathlib.Core.List.{Memᴰ}
use scinit.Base.{
  ℕ, ℤ, ◌≡◌, ◌≢◌, ap, ◌∙◌, inl, inr, some, List, ◌∷◌, Map, lookup, insert, erase, nat_key, int_key,
  key_cases, ok, lookup-insert_self, lookup-insert_ne, lookup-erase_ne, arith,
}
use scinit.Child.Fork.{do_fork}
use scinit.Child.Fork.Branches.{do_fork_outcome}
use scinit.Handler.Types.{ProcessHandler}
use scinit.Handler.Signals.{sigchld_received}
use scinit.Handler.Events.{EpollEvent, unwatch, event_received}
use scinit.Handler.Events.Hangup.{event_received_tables}
use scinit.Handler.Events.Forgotten.{unwatch-mem}
use scinit.Handler.Start.{StartCalls, start_program}
use scinit.Handler.Start.Cases.{
  start_program_cases, watch_lem, with_forked, after_fork-launched, after_fork-refused,
}

abbrev pub Watched : List ℤ → ℤ → Map ℤ ℕ → Type 0
Watched epoll signal_fd ids =
    (fd : ℤ) → Memᴰ fd epoll → fd ≢ signal_fd → (id : ℕ) × (lookup fd ids ≡ some id)

abbrev pub WatchedOf : ProcessHandler → Type 0
WatchedOf s = Watched s.epoll s.signal_fd s.id_for_fd

lookup-insert_known :
    (k f : ℤ) (v : ℕ) (ids : Map ℤ ℕ)
    → (id : ℕ) × (lookup f ids ≡ some id)
    → (id : ℕ) × (lookup f (insert k v ids) ≡ some id)
lookup-insert_known k f v ids (id, known) = elim (key_cases f k) [
  | inl eq ↦ (v, ap (λ i. lookup i (insert k v ids)) eq ∙ lookup-insert_self k v ids)
  | inr ne ↦ (id, lookup-insert_ne k f v ids ne ∙ known)
]

-- A descriptor that is watched from now on is put into the table.
Watched-insert :
    (epoll : List ℤ) (signal_fd k : ℤ) (v : ℕ) (ids : Map ℤ ℕ)
    → Watched epoll signal_fd ids
    → Watched (k ∷ epoll) signal_fd (insert k v ids)
Watched-insert epoll signal_fd k v ids w fd (Memᴰ.head e) ne =
    (v, ap (λ i. lookup i (insert k v ids)) e ∙ lookup-insert_self k v ids)
Watched-insert epoll signal_fd k v ids w fd (Memᴰ.tail m) ne =
    lookup-insert_known k fd v ids (w fd m ne)

Watched-erase :
    (fd : ℤ) (epoll : List ℤ) (signal_fd : ℤ) (ids : Map ℤ ℕ)
    → Watched epoll signal_fd ids
    → Watched (unwatch fd epoll) signal_fd (erase fd ids)
Watched-erase fd epoll signal_fd ids w f m ne =
    let (n, other) = unwatch-mem fd f epoll m in
    let (id, known) = w f n ne in (id, lookup-erase_ne fd f ids other ∙ known)

pub start_program-Watched :
    (calls : ℕ → StartCalls) (r : ℕ) (s t : ProcessHandler)
    → start_program calls (some r) s ≡ ok t
    → WatchedOf s
    → WatchedOf t
start_program-Watched calls r s t e w = elim (start_program_cases calls r s t e) [
  | inl same ↦ rw same w
  | inr (c, here, _, begun) ↦
      let f = do_fork (calls r).fork c s.id_for_pid in
      elim (do_fork_outcome (calls r).fork c s.id_for_pid).1 [
        | inl l ↦
            let (_, _, _, _, ids, _, _, epoll, signal) =
              watch_lem (calls r) f.child (with_forked r f s) t
                (after_fork-launched (calls r) r f s t l.error begun) in
            rw (ids, epoll, signal)
              (Watched-insert (f.child.stdout.reader ∷ s.epoll) s.signal_fd f.child.stderr.reader
                f.child.graph_id (insert f.child.stdout.reader f.child.graph_id s.id_for_fd)
                (Watched-insert s.epoll s.signal_fd f.child.stdout.reader f.child.graph_id
                  s.id_for_fd w))
        | inr refused ↦
            let (x, failed) = refused.error in
            rw (after_fork-refused (calls r) r f s t x failed begun) w
      ]
]

pub sigchld_received-Watched :
    (pid rc : ℤ) (s t : ProcessHandler)
    → sigchld_received pid rc s ≡ ok t
    → WatchedOf s
    → WatchedOf t
unfolding sigchld_received
sigchld_received-Watched pid rc s t e w = rw (same.0, same.1, same.2) w
  where
    same : (t.epoll ≡ s.epoll) × (t.signal_fd ≡ s.signal_fd) × (t.id_for_fd ≡ s.id_for_fd)
    same = ground arith

pub event_received-Watched :
    (e : EpollEvent) (s t : ProcessHandler) → event_received e s ≡ ok t → WatchedOf s → WatchedOf t
event_received-Watched e s t h w = elim (event_received_tables e s {t = t} h) [
  | inl (ids, _, _, epoll, signal) ↦ rw (ids, epoll, signal) w
  | inr (_, (ids, _, _, epoll, signal)) ↦
      rw (ids, epoll, signal) (Watched-erase e.fd s.epoll s.signal_fd s.id_for_fd w)
]
