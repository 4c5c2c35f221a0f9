-- ===== src/Handler/Descriptors/Runs.antt =====
-- The tables of descriptors over everything that happens to the handler.
use scinit.Base.{
  ℕ, ℤ, ◌≤◌, ◌<◌, ◌≡◌, inl, inr, refl, sym, some, [], Map, lookup, index, nat_key, int_key, count,
  subst, ok, for_each_inv, arith, int_beq, pos, Bool-cases,
}
use scinit.Child.Types.{ready, done, crashed, ChildProcess, Heap, WeakPtr}
use scinit.Child.Lifecycle.{notify_of_state}
use scinit.Child.Lifecycle.States.{notify_of_state_cases}
use scinit.Child.Fork.{do_fork}
use scinit.Handler.Types.{ProcessHandler}
use scinit.Handler.Accounts.{AccountsOf}
use scinit.Handler.Signals.{sigchld_received}
use scinit.Handler.Signals.Exits.{exit_state, sigchld_received_inv}
use scinit.Handler.Events.{EpollEvent, event_received}
use scinit.Handler.Start.{StartCalls, notify, notify_all, start_program}
use scinit.Handler.Start.Cases.{notify_cases}
use scinit.Handler.Start.Accounts.{
  StartsWell, notify_of_state_keeps, notify_all-Accounts, start_program-Accounts,
}
use scinit.Handler.Loop.Termination.{AccountsOf-IsInvariant}
use scinit.Handler.Descriptors.{IsUnstarted, Descriptors, DescriptorsOf, Descriptors-update}
use scinit.Handler.Descriptors.Start.{OpensNew, start_program-Descriptors}
use scinit.Handler.Descriptors.Events.{IsKnown, event_received-Descriptors, one_less}

-- What the event loop does to the handler, one call at a time: all processes are told the states of the
-- others, one is started, one is reaped, or an event is handled.
pub data Happens (s : ProcessHandler) : ProcessHandler → Type 0 where
  told : {t : ProcessHandler} → t ≡ notify_all s → Happens s t
  begun :
      {t : ProcessHandler} (calls : ℕ → StartCalls) (r : ℕ)
      → StartsWell (calls r) s
      → ((c : ChildProcess)
          → lookup r s.heap ≡ some c
          → c.state ≡ ready
          → OpensNew s.id_for_fd (do_fork (calls r).fork c s.id_for_pid))
      → start_program calls (some r) s ≡ ok t
      → Happens s t
  reaped : {t : ProcessHandler} (pid rc : ℤ) → sigchld_received pid rc s ≡ ok t → Happens s t
  heard :
      {t : ProcessHandler} (e : EpollEvent) → IsKnown e s → event_received e s ≡ ok t → Happens s t

pub data Lasts : ProcessHandler → ProcessHandler → Type 0 where
  stay : {s : ProcessHandler} → Lasts s s
  next : {s t u : ProcessHandler} → Happens s t → Lasts t u → Lasts s u

notify_of_state-IsUnstarted :
    (objs : Map ℕ WeakPtr) (h : Heap) (c : ChildProcess)
    → IsUnstarted (notify_of_state objs h c).state
    → IsUnstarted c.state
notify_of_state-IsUnstarted objs h c u = elim (notify_of_state_cases objs h c) [
  | inl kept ↦ subst (λ (x : ChildProcess). IsUnstarted x.state) kept u
  | inr (was, met, made) ↦ inl was
]

pub notify_all-Descriptors : (s : ProcessHandler) → DescriptorsOf s → DescriptorsOf (notify_all s)
unfolding notify_all
notify_all-Descriptors s x =
    for_each_inv (Descriptors s.id_for_fd s.num_fd_for_id s.fd_type) (notify s.obj_for_id)
      s.all_objs s.heap
      (λ ref h y. elim (notify_cases s.obj_for_id ref h) [
        | inl same ↦ rw same y
        | inr (r, c, here, up) ↦
            Descriptors-update s.id_for_fd s.num_fd_for_id s.fd_type h (notify s.obj_for_id ref h) r
              c (notify_of_state s.obj_for_id h c) here (notify_of_state_keeps s.obj_for_id h c).0
              (notify_of_state-IsUnstarted s.obj_for_id h c) up y
      ])
      x

sigchld_received_tables :
    (pid rc : ℤ) (s t : ProcessHandler)
    → sigchld_received pid rc s ≡ ok t
    → (t.id_for_fd ≡ s.id_for_fd) × (t.num_fd_for_id ≡ s.num_fd_for_id) × (t.fd_type ≡ s.fd_type)
unfolding sigchld_received
sigchld_received_tables pid rc s t e = ground arith

exit_state-started : (rc : ℤ) → IsUnstarted (exit_state rc) → ⊥
exit_state-started rc u = elim (Bool-cases (int_beq rc (pos 0))) [
  | inl zero_status ↦ not_done (rw zero_status at u)
  | inr other ↦ not_crashed (rw other at u)
]
  where
    not_done : IsUnstarted done → ⊥
    not_done (inl p) = cc
    not_done (inr p) = cc

    not_crashed : IsUnstarted crashed → ⊥
    not_crashed (inl p) = cc
    not_crashed (inr p) = cc

pub sigchld_received-Descriptors :
    (pid rc : ℤ) (s t : ProcessHandler)
    → AccountsOf s
    → sigchld_received pid rc s ≡ ok t
    → DescriptorsOf s
    → DescriptorsOf t
sigchld_received-Descriptors pid rc s t a e x = elim (sigchld_received_inv pid rc s t a e) [
  | inl same ↦ subst DescriptorsOf same x
  | inr (id, r, c, y) ↦
      let (ids, nums, types) = sigchld_received_tables pid rc s t e in
      rw (ids, nums, types)
        (Descriptors-update s.id_for_fd s.num_fd_for_id s.fd_type s.heap t.heap r c
          (record c { state = exit_state rc }) y.found refl
          (λ unstarted. absurd (exit_state-started rc unstarted)) y.updated x)
]

abbrev InOrder : ProcessHandler → Type 0
InOrder s = AccountsOf s × DescriptorsOf s

Happens-InOrder : {s t : ProcessHandler} → Happens s t → InOrder s → InOrder t
Happens-InOrder {s} (told e) (a, x) =
    subst InOrder (sym e) (notify_all-Accounts s a, notify_all-Descriptors s x)
Happens-InOrder {s} {t} (begun calls r well fresh e) (a, x) =
    (start_program-Accounts calls r s t well e a, start_program-Descriptors calls r s t a fresh e x)
Happens-InOrder {s} {t} (reaped pid rc e) (a, x) =
    (AccountsOf-IsInvariant.exit pid rc s t e a, sigchld_received-Descriptors pid rc s t a e x)
Happens-InOrder {s} {t} (heard event known e) (a, x) =
    (AccountsOf-IsInvariant.event event s t e a, event_received-Descriptors event s t known e x)

Lasts-InOrder : {s t : ProcessHandler} → Lasts s t → InOrder s → InOrder t
Lasts-InOrder stay i = i
Lasts-InOrder (next m rest) i = Lasts-InOrder rest (Happens-InOrder m i)

pub Descriptors-empty :
    (s : ProcessHandler) → s.id_for_fd ≡ [] → s.num_fd_for_id ≡ [] → DescriptorsOf s
Descriptors-empty s no_ids no_nums =
    rw (no_ids, no_nums)
      (record {
        distinct = tt;
        counted = λ id. unfold index lookup in refl;
        bounded = λ id. omega arith;
        typed = λ fd id e. absurd (unfold lookup in cc e);
        unopened = λ r c here unstarted. refl;
      })

-- The counter of each process is the number of its descriptors in the table, which is two at most,
-- and it is not 0 while one of them is in the table.
abbrev pub Counts : ProcessHandler → Type 0
Counts t =
    ((id : ℕ)
      → (index id 0 t.num_fd_for_id ≡ count id t.id_for_fd) × (index id 0 t.num_fd_for_id ≤ 2))
    × ((fd : ℤ) (id : ℕ) → lookup fd t.id_for_fd ≡ some id → 0 < index id 0 t.num_fd_for_id)

pub Descriptors-Counts : (t : ProcessHandler) → DescriptorsOf t → Counts t
Descriptors-Counts t x = (
  λ id. (x.counted id, subst (λ n. n ≤ 2) (sym (x.counted id)) (x.bounded id)),
  λ fd id known.
      let one = (one_less t.id_for_fd t.num_fd_for_id t.fd_type fd id known t.heap x).0 in
      omega arith,
)

-- Whatever happens to a handler that has no descriptors at first, the counters of descriptors are
-- right: each is the number of descriptors that the table has for the process, at most two, and it is
-- not 0 when a descriptor of the process hangs up, so that it never wraps. The starts get new pids and
-- descriptors that are not in the table, and hang-ups come for descriptors in the table.
pub Lasts-Counts :
    (s t : ProcessHandler)
    → AccountsOf s
    → s.id_for_fd ≡ []
    → s.num_fd_for_id ≡ []
    → Lasts s t
    → Counts t
Lasts-Counts s t a no_ids no_nums runs =
    let (_, x) = Lasts-InOrder runs (a, Descriptors-empty s no_ids no_nums) in
    Descriptors-Counts t x
