-- ===== src/Handler/Start/Pointwise.antt =====
-- What `start_programs` does to each object on its own: it is told of the states, and may be forked.
use scinit.Base.{
  lookup_same, ℕ, ℤ, ◌≡◌, ap, ◌∙◌, inl, inr, none, some, Map, insert, lookup, nat_key, key_cases,
  for_each_inv, ok, ok-injective, subst,
}
use scinit.Child.Types.{ChildProcess, Heap, WeakPtr}
use scinit.Child.Lifecycle.{notify_of_state}
use scinit.Child.Fork.{do_fork}
use scinit.Handler.Types.{ProcessHandler}
use scinit.Handler.Accounts.{Updated}
use scinit.Handler.Start.{StartCalls, notify, notify_all, start_program, start_programs}
use scinit.Handler.Start.Cases.{
  Updated-insert, notify_cases, start_program_cases, start_all_inv, after_fork-heap,
}

-- Every object of the first heap is in the second one, in the relation.
abbrev pub Pointwise : (ChildProcess → ChildProcess → Type 0) → Heap → Heap → Type 0
Pointwise R g h =
    (r : ℕ) (c : ChildProcess)
    → lookup r g ≡ some c
    → (d : ChildProcess) × (lookup r h ≡ some d) × R c d

-- A relation that holds between an object and what one call makes of it.
pub record IsKept (R : ChildProcess → ChildProcess → Type 0) : Type 0 where
  pub same : (c : ChildProcess) → R c c
  pub trans : (c d e : ChildProcess) → R c d → R d e → R c e
  pub told : (objs : Map ℕ WeakPtr) (h : Heap) (c : ChildProcess) → R c (notify_of_state objs h c)
  pub forked :
      (calls : StartCalls) (c : ChildProcess) (reg : Map ℤ ℕ) → R c (do_fork calls.fork c reg).child

module _ {R : ChildProcess → ChildProcess → Type 0} (k : IsKept R) where
  pub Pointwise-refl : (h : Heap) → Pointwise R h h
  Pointwise-refl h r c e = (c, e, k.same c)

  pub Pointwise-trans : (f g h : Heap) → Pointwise R f g → Pointwise R g h → Pointwise R f h
  Pointwise-trans f g h p q r c e =
      let (d, found, there) = p r c e in
      let (d', found', on) = q r d found in (d', found', k.trans c d d' there on)

  Pointwise-update :
      (h : Heap) (r : ℕ) (c d : ChildProcess) (g : Heap)
      → lookup r h ≡ some c
      → Updated r d h g
      → R c d
      → Pointwise R h g
  Pointwise-update h r c d g here up rel q e found = elim (key_cases q r) [
    | inr ne ↦ (e, up.1 q ne ∙ found, k.same e)
    | inl eq ↦
        let is_e : c ≡ e = lookup_same h here eq found in
        (d, ap (λ i. lookup i g) eq ∙ up.0, subst (λ (x : ChildProcess). R x d) is_e rel)
  ]

  notify-Pointwise :
      (objs : Map ℕ WeakPtr) (ref : WeakPtr) (h : Heap) → Pointwise R h (notify objs ref h)
  notify-Pointwise objs ref h = elim (notify_cases objs ref h) [
    | inl same ↦ rw same (Pointwise-refl h)
    | inr (r, c, here, up) ↦
        Pointwise-update h r c (notify_of_state objs h c) (notify objs ref h) here up
          (k.told objs h c)
  ]

  start_program-Pointwise :
      (calls : ℕ → StartCalls) (ref : WeakPtr) (s t : ProcessHandler)
      → start_program calls ref s ≡ ok t
      → Pointwise R s.heap t.heap
  start_program-Pointwise calls none s t e =
      unfold start_program in
      subst (λ (x : ProcessHandler). Pointwise R s.heap x.heap) (ok-injective e)
        (Pointwise-refl s.heap)
  start_program-Pointwise calls (some r) s t e = elim (start_program_cases calls r s t e) [
    | inl same ↦ rw same (Pointwise-refl s.heap)
    | inr (c, here, _, begun) ↦
        let f = do_fork (calls r).fork c s.id_for_pid in
        rw ((after_fork-heap (calls r) r f s t begun).0) (
          Pointwise-update s.heap r c f.child (insert r f.child s.heap) here
            (Updated-insert r f.child s.heap) (k.forked (calls r) c s.id_for_pid))
  ]

  -- What every call that is made for an object keeps of it, `start_programs` keeps.
  pub start_programs-Pointwise :
      (calls : ℕ → StartCalls) (s t : ProcessHandler)
      → start_programs calls s ≡ ok t
      → Pointwise R s.heap t.heap
  unfolding start_programs notify_all
  start_programs-Pointwise calls s t e =
      Pointwise-trans s.heap (notify_all s).heap t.heap
        (for_each_inv (Pointwise R s.heap) (notify s.obj_for_id) s.all_objs s.heap
          (λ ref h p. Pointwise-trans s.heap h _ p (notify-Pointwise s.obj_for_id ref h))
          (Pointwise-refl s.heap))
        (start_all_inv (λ (x : ProcessHandler). Pointwise R (notify_all s).heap x.heap) calls
          s.all_objs (notify_all s) t
          (λ ref u v first p.
            Pointwise-trans (notify_all s).heap u.heap v.heap p
              (start_program-Pointwise calls ref u v first))
          e (Pointwise-refl (notify_all s).heap))
