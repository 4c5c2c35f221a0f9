-- ===== src/Handler/Start/Accounts.antt =====
-- `start_programs` keeps the bookkeeping, if the pids are new.
use scinit.Base.{
  ok, ok-injective, >>=-eq-ok, subst, ℕ, ℤ, ◌≡◌, sym, ◌∙◌, ◌⊎◌, inl, inr, none, some, List, [], ◌∷◌,
  arith, Map, lookup, insert, nat_key, int_key, for_each_inv,
}
use scinit.Child.Types.{running, ChildProcess, Heap, WeakPtr}
use scinit.Child.Lifecycle.{notify_of_state}
use scinit.Child.Fork.{Forked, do_fork}
use scinit.Child.Fork.Branches.{SameProcess, Launched, Refused, do_fork_outcome}
use scinit.Handler.Types.{ProcessHandler}
use scinit.Handler.Accounts.{Accounts, AccountsOf, Accounts-update}
use scinit.Handler.Accounts.Launch.{Accounts-launch}
use scinit.Handler.Start.Cases.{
  Updated-insert, notify_cases, start_program_cases, watch_lem, with_forked, after_fork-launched,
  after_fork-refused,
}
use scinit.Handler.Start.{
  StartCalls, start_all, notify, notify_all, after_fork, start_program, start_programs,
}

pub notify_of_state_keeps :
    (objs : Map ℕ WeakPtr) (h : Heap) (c : ChildProcess)
    → ((notify_of_state objs h c).graph_id ≡ c.graph_id)
      × (c.state ≡ running → (notify_of_state objs h c).state ≡ running)
      × ((notify_of_state objs h c).state ≡ running → c.state ≡ running)
unfolding notify_of_state
notify_of_state_keeps objs h c = ground arith

notify-Accounts :
    {n : ℤ} {pids : Map ℤ ℕ} {sigs : Map ℕ (List ℕ)} (objs : Map ℕ WeakPtr) (ref : WeakPtr)
    (h : Heap)
    → Accounts n pids sigs h
    → Accounts n pids sigs (notify objs ref h)
notify-Accounts objs ref h a = elim (notify_cases objs ref h) [
  | inl same ↦ rw same a
  | inr (r, c, e, up) ↦
      let (same_id, keeps, reflects) = notify_of_state_keeps objs h c in
      Accounts-update a r c (notify_of_state objs h c) (notify objs ref h) e same_id up keeps
        reflects
]

pub notify_all-Accounts : (s : ProcessHandler) → AccountsOf s → AccountsOf (notify_all s)
unfolding notify_all
notify_all-Accounts s a =
    for_each_inv (Accounts s.number_of_running_procs s.id_for_pid s.sig_for_id)
      (notify s.obj_for_id) s.all_objs s.heap (λ ref h. notify-Accounts s.obj_for_id ref h) a

-- The pid that `fork` gives is that of no child that has not been reaped.
abbrev pub StartsWell : StartCalls → ProcessHandler → Type 0
StartsWell calls s = lookup calls.fork.fork s.id_for_pid ≡ none

after_fork-Accounts :
    (calls : StartCalls) (r : ℕ) (c : ChildProcess) (f : Forked) (s t : ProcessHandler)
    → AccountsOf s
    → lookup r s.heap ≡ some c
    → StartsWell calls s
    → SameProcess c f.child
    → Launched calls.fork c s.id_for_pid f ⊎ Refused c s.id_for_pid f
    → after_fork calls r f s ≡ ok t
    → AccountsOf t
after_fork-Accounts calls r c f s t a here fresh same (inl l) e =
    let (n, pids, sigs, heap, _, _, _, _, _) =
      watch_lem calls f.child (with_forked r f s) t (after_fork-launched calls r f s t l.error e) in
    rw (n, pids, sigs, heap, l.reg)
      (Accounts-launch a r c f.child (insert r f.child s.heap) here same.graph_id
        (Updated-insert r f.child s.heap) calls.fork.fork l.was_ready l.state fresh)
after_fork-Accounts calls r c f s t a here fresh same (inr refused) e =
    let (x, failed) = refused.error in
    rw (after_fork-refused calls r f s t x failed e, refused.reg)
      (Accounts-update a r c f.child (insert r f.child s.heap) here same.graph_id
        (Updated-insert r f.child s.heap) (λ runs. refused.state ∙ runs)
        (λ runs. sym refused.state ∙ runs))

pub start_program-Accounts :
    (calls : ℕ → StartCalls) (r : ℕ) (s t : ProcessHandler)
    → StartsWell (calls r) s
    → start_program calls (some r) s ≡ ok t
    → AccountsOf s
    → AccountsOf t
start_program-Accounts calls r s t well e a = elim (start_program_cases calls r s t e) [
  | inl same ↦ rw same a
  | inr (c, here, _, begun) ↦
      let (same, outcome) = do_fork_outcome (calls r).fork c s.id_for_pid in
      after_fork-Accounts (calls r) r c (do_fork (calls r).fork c s.id_for_pid) s t a here well same
        outcome begun
]

-- The same for each start of a call of `start_programs`, in the state in which it is made.
abbrev pub AllStartWell : (ℕ → StartCalls) → List WeakPtr → ProcessHandler → Type 0
AllStartWell calls [] s = Unit
AllStartWell calls (none ∷ refs) s = AllStartWell calls refs s
AllStartWell calls (some r ∷ refs) s =
    StartsWell (calls r) s
    × ((t : ProcessHandler) → start_program calls (some r) s ≡ ok t → AllStartWell calls refs t)

start_all-Accounts :
    (calls : ℕ → StartCalls) (refs : List WeakPtr) (s t : ProcessHandler)
    → AllStartWell calls refs s
    → start_all calls refs s ≡ ok t
    → AccountsOf s
    → AccountsOf t
unfolding start_all start_program
start_all-Accounts calls [] s t w e a = subst AccountsOf (ok-injective e) a
start_all-Accounts calls (none ∷ refs) s t w e a = start_all-Accounts calls refs s t w e a
start_all-Accounts calls (some r ∷ refs) s t w e a =
    let (u, first, later) =
      >>=-eq-ok (start_program calls (some r) s) (λ v. start_all calls refs v) e in
    start_all-Accounts calls refs u t (w.1 u first) later
      (start_program-Accounts calls r s u w.0 first a)

-- A call of `start_programs` that does not end the program keeps the bookkeeping: whatever the other
-- system calls answer, the counter is the number of pids, and the pids are those of the running
-- objects.
pub start_programs-Accounts :
    (calls : ℕ → StartCalls) (s t : ProcessHandler)
    → AllStartWell calls s.all_objs (notify_all s)
    → start_programs calls s ≡ ok t
    → AccountsOf s
    → AccountsOf t
unfolding start_programs
start_programs-Accounts calls s t w e a =
    start_all-Accounts calls s.all_objs (notify_all s) t w e (notify_all-Accounts s a)
