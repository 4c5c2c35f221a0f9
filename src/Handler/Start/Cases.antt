-- ===== src/Handler/Start/Cases.antt =====
-- The branches of the two loops of `start_programs`, in src/ProcessHandler.cpp.
use scinit.Base.{
  inc, int_key, List, [], ◌∷◌, ◌∙◌, ok, ok-injective, >>=-eq-ok, subst, ℕ, ◌≡◌, refl, sym, ◌⊎◌,
  true, inl, inr, none, some, Map, lookup, insert, modify, nat_key, Bool-cases, Option-cases,
  modify_absent, lookup-modify, lookup-insert_self, lookup-insert_ne, beq_refl, beq-false, arith,
}
use scinit.Child.Types.{FdType, ready, state_beq, ChildProcess, Heap, WeakPtr}
use scinit.Child.Lifecycle.{notify_of_state}
use scinit.Child.Fork.{ForkError, Forked, do_fork, register_with_epoll}
use scinit.Handler.Types.{ProcessHandler}
use scinit.Handler.Accounts.{Updated}
use scinit.Handler.Start.{
  StartCalls, notify, count_start, watch, is_caught, thrown, after_fork, start_program, start_all,
}

pub Updated-modify :
    (r : ℕ) (f : ChildProcess → ChildProcess) (h : Heap) (c : ChildProcess)
    → lookup r h ≡ some c
    → Updated r (f c) h (modify r f h)
Updated-modify r f h c e = (
  rw (lookup-modify, beq_refl r, e) refl,
  λ q ne. rw (lookup-modify, beq-false r q (λ p. ne (sym p))) refl,
)

pub Updated-insert : (r : ℕ) (d : ChildProcess) (h : Heap) → Updated r d h (insert r d h)
Updated-insert r d h = (lookup-insert_self r d h, λ q ne. lookup-insert_ne r q d h ne)

-- An object is told of the states, or nothing happens.
pub notify_cases :
    (objs : Map ℕ WeakPtr) (ref : WeakPtr) (h : Heap)
    → (notify objs ref h ≡ h)
      ⊎ ((r : ℕ) × (c : ChildProcess) × (lookup r h ≡ some c)
          × Updated r (notify_of_state objs h c) h (notify objs ref h))
unfolding notify
notify_cases objs none h = inl refl
notify_cases objs (some r) h = elim (Option-cases (lookup r h)) [
  | inl e ↦ inl (modify_absent r (notify_of_state objs h) h e)
  | inr (c, e) ↦ inr (r, c, e, Updated-modify r (notify_of_state objs h) h c e)
]

-- A start that throws nothing that is not caught: a ready object, whose logger could be made, is
-- started, or nothing happens.
pub start_program_cases :
    (calls : ℕ → StartCalls) (r : ℕ) (s t : ProcessHandler)
    → start_program calls (some r) s ≡ ok t
    → (t ≡ s)
      ⊎ ((c : ChildProcess) × (lookup r s.heap ≡ some c)
          × (state_beq c.state ready ≡ true)
          × (after_fork (calls r) r (do_fork (calls r).fork c s.id_for_pid) s ≡ ok t))
unfolding start_program
start_program_cases calls r s t e = elim (Option-cases (lookup r s.heap)) [
  | inl gone ↦ inl (ok-injective (sym e ∙ rw (gone, start_program) refl))
  | inr (c, here) ↦ elim (Bool-cases (state_beq c.state ready)) [
    | inr idle ↦ inl (ok-injective (sym e ∙ rw (here, start_program) (rw idle refl)))
    | inl free ↦ elim (Bool-cases (calls r).logger) [
      | inr taken ↦ inl (ok-injective (sym e ∙ rw (here, start_program) (rw (free, taken) refl)))
      | inl named ↦ inr (c, here, free, sym (rw (here, start_program) (rw (free, named) refl)) ∙ e)
    ]
  ]
]

-- What every start keeps, the second loop keeps.
pub start_all_inv :
    (P : ProcessHandler → Type 0) (calls : ℕ → StartCalls) (refs : List WeakPtr)
    (s t : ProcessHandler)
    → ((ref : WeakPtr) (u v : ProcessHandler) → start_program calls ref u ≡ ok v → P u → P v)
    → start_all calls refs s ≡ ok t
    → P s
    → P t
unfolding start_all
start_all_inv P calls [] s t keep e p = subst P (ok-injective e) p
start_all_inv P calls (ref ∷ refs) s t keep e p =
    let (u, first, later) = >>=-eq-ok (start_program calls ref s) (λ v. start_all calls refs v) e in
    start_all_inv P calls refs u t keep later (keep ref s u first p)

pub after_fork-heap :
    (calls : StartCalls) (r : ℕ) (f : Forked) (s t : ProcessHandler)
    → after_fork calls r f s ≡ ok t
    → (t.heap ≡ insert r f.child s.heap) × (t.obj_for_id ≡ s.obj_for_id) × (t.all_objs ≡ s.all_objs)
unfolding after_fork watch count_start thrown
after_fork-heap calls r f s t e = ground arith

-- Only with both descriptors watched a forked process is left behind without an exception.
pub watch_lem :
    (calls : StartCalls) (c : ChildProcess) (s t : ProcessHandler)
    → watch calls c s ≡ ok t
    → (t.number_of_running_procs ≡ inc s.number_of_running_procs)
      × (t.id_for_pid ≡ s.id_for_pid)
      × (t.sig_for_id ≡ s.sig_for_id)
      × (t.heap ≡ s.heap)
      × (t.id_for_fd
          ≡ insert c.stderr.reader c.graph_id (insert c.stdout.reader c.graph_id s.id_for_fd))
      × (t.num_fd_for_id ≡ insert c.graph_id 2 s.num_fd_for_id)
      × (t.fd_type
          ≡ insert c.stderr.reader FdType.stderr (insert c.stdout.reader FdType.stdout s.fd_type))
      × (t.epoll ≡ c.stderr.reader ∷ c.stdout.reader ∷ s.epoll)
      × (t.signal_fd ≡ s.signal_fd)
unfolding watch count_start register_with_epoll thrown is_caught
watch_lem calls c s t e = ground arith

thrown_same : (x : ForkError) (s t : ProcessHandler) → thrown x s ≡ ok t → t ≡ s
unfolding thrown
thrown_same x s t e = ground arith

-- What `do_fork` changes in the handler.
abbrev pub with_forked : (r : ℕ) → Forked → ProcessHandler → ProcessHandler
with_forked r f s = record s { heap = insert r f.child s.heap; id_for_pid = f.reg }

pub after_fork-launched :
    (calls : StartCalls) (r : ℕ) (f : Forked) (s t : ProcessHandler)
    → f.error ≡ none
    → after_fork calls r f s ≡ ok t
    → watch calls f.child (with_forked r f s) ≡ ok t
unfolding after_fork
after_fork-launched calls r f s t none_thrown e = rw none_thrown at e

pub after_fork-refused :
    (calls : StartCalls) (r : ℕ) (f : Forked) (s t : ProcessHandler) (x : ForkError)
    → f.error ≡ some x
    → after_fork calls r f s ≡ ok t
    → t ≡ with_forked r f s
unfolding after_fork
after_fork-refused calls r f s t x failed e = thrown_same x (with_forked r f s) t (rw failed at e)
