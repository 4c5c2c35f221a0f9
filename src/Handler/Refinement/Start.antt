-- ===== src/Handler/Refinement/Start.antt =====
-- What `start_programs` does, seen as steps of the abstract supervisor.
use mathlib.Core.Path.{ap₂}
use scinit.Base.{
  ok, ok-injective, ℕ, ◌≡◌, refl, sym, ap, ◌∙◌, ◌⊎◌, inl, inr, none, some, Map, lookup, insert,
  nat_key, for_each_inv, subst,
}
use scinit.Child.Types.{ChildProcess, Heap, WeakPtr}
use scinit.Child.Lifecycle.{notify_of_state}
use scinit.Child.Lifecycle.States.{notify_of_state_cases}
use scinit.Child.Fork.{Forked, do_fork}
use scinit.Child.Fork.Branches.{SameProcess, Launched, Refused, do_fork_outcome}
use scinit.Supervisor.{Process, View, Step, Steps, update}
use scinit.Supervisor.Order.{Steps-trans}
use scinit.Handler.Types.{ProcessHandler}
use scinit.Handler.Start.{StartCalls, notify, notify_all, start_program, start_programs}
use scinit.Handler.Start.Accounts.{notify_of_state_keeps}
use scinit.Handler.Start.Cases.{
  Updated-insert, notify_cases, start_program_cases, start_all_inv, after_fork-heap,
}
use scinit.Handler.Refinement.{
  process_of, view, view_of, Named, All-IsMet, view_there, view-update, view_same, Named-update,
}

-- The supervisor has gone on from `v` to what the handler shows.
abbrev pub Follows : View → Map ℕ WeakPtr → Heap → Type 0
Follows v objs h = Named objs h × Steps v (view objs h)

abbrev pub FollowsOf : View → ProcessHandler → Type 0
FollowsOf v s = Follows v s.obj_for_id s.heap

pub Follows-step :
    (v : View) (objs : Map ℕ WeakPtr) (h g : Heap)
    → Steps v (view objs h)
    → Step (view objs h) (view objs g)
    → Steps v (view objs g)
Follows-step v objs h g p m = Steps-trans p (Steps.step m (Steps.stay refl))

pub Follows-stay :
    (v : View) (objs : Map ℕ WeakPtr) (h g : Heap)
    → Steps v (view objs h)
    → view objs g ≡ view objs h
    → Steps v (view objs g)
Follows-stay v objs h g p e = subst (Steps v) (sym e) p

module _ (v : View) where
  notify-Follows :
      (objs : Map ℕ WeakPtr) (ref : WeakPtr) (h : Heap)
      → Follows v objs h
      → Follows v objs (notify objs ref h)
  notify-Follows objs ref h (n, p) = elim (notify_cases objs ref h) [
    | inl same ↦ rw same (n, p)
    | inr (r, c, e, up) ↦
        let d = notify_of_state objs h c in
        let g = notify objs ref h in
        let same_id = (notify_of_state_keeps objs h c).0 in
        (
          Named-update n r c d g e same_id up,
          elim (notify_of_state_cases objs h c) [
            | inl kept ↦
                Follows-stay v objs h g p (view_same n r c d g e same_id up (ap process_of kept))
            | inr (was, met, made) ↦ Follows-step v objs h g p (
                Step.unblock c.graph_id (process_of c) (view_there n r c d g e same_id up) was
                  (All-IsMet objs h c.conditions met)
                  (view-update n r c d g e same_id up
                    ∙ ap (λ (x : ChildProcess). update (view objs h) c.graph_id (process_of x))
                        made))
          ],
        )
  ]

  launch-Follows :
      (calls : StartCalls) (r : ℕ) (c : ChildProcess) (f : Forked) (s : ProcessHandler)
      → lookup r s.heap ≡ some c
      → SameProcess c f.child
      → Launched calls.fork c s.id_for_pid f ⊎ Refused c s.id_for_pid f
      → FollowsOf v s
      → Follows v s.obj_for_id (insert r f.child s.heap)
  launch-Follows calls r c f s e same outcome (n, p) =
      let d = f.child in
      let g = insert r d s.heap in
      let up = Updated-insert r d s.heap in
      (
        Named-update n r c d g e same.graph_id up,
        elim outcome [
          | inl l ↦ Follows-step v s.obj_for_id s.heap g p (
              Step.start c.graph_id (process_of c) (view_there n r c d g e same.graph_id up)
                l.was_ready
                (view-update n r c d g e same.graph_id up
                  ∙ ap (update (view_of s) c.graph_id) (same_process l.state same.conditions)))
          | inr refused ↦
              Follows-stay v s.obj_for_id s.heap g p (
                view_same n r c d g e same.graph_id up (same_process refused.state same.conditions))
        ],
      )
    where
      same_process :
          {p : Process} {q : Process} → p.state ≡ q.state → p.conditions ≡ q.conditions → p ≡ q
      same_process {p} {q} x y = ap₂ (λ st cs. record { state = st; conditions = cs }) x y

  start_program-Follows :
      (calls : ℕ → StartCalls) (ref : WeakPtr) (s t : ProcessHandler)
      → start_program calls ref s ≡ ok t
      → FollowsOf v s
      → FollowsOf v t
  start_program-Follows calls none s t e f =
      unfold start_program in subst (FollowsOf v) (ok-injective e) f
  start_program-Follows calls (some r) s t e f = elim (start_program_cases calls r s t e) [
    | inl same ↦ rw same f
    | inr (c, here, _, begun) ↦
        let made = do_fork (calls r).fork c s.id_for_pid in
        let (same, outcome) = do_fork_outcome (calls r).fork c s.id_for_pid in
        let (heap, objs, _) = after_fork-heap (calls r) r made s t begun in
        rw (heap, objs) (launch-Follows (calls r) r c made s here same outcome f)
  ]

  notify_all-Follows : (s : ProcessHandler) → FollowsOf v s → FollowsOf v (notify_all s)
  unfolding notify_all
  notify_all-Follows s f =
      for_each_inv (Follows v s.obj_for_id) (notify s.obj_for_id) s.all_objs s.heap
        (notify-Follows s.obj_for_id) f

  -- Whatever the system calls answer: a call of `start_programs` that does not end the program makes
  -- steps of the supervisor only.
  pub start_programs-Follows :
      (calls : ℕ → StartCalls) (s t : ProcessHandler)
      → start_programs calls s ≡ ok t
      → FollowsOf v s
      → FollowsOf v t
  unfolding start_programs
  start_programs-Follows calls s t e f =
      start_all_inv (FollowsOf v) calls s.all_objs (notify_all s) t (start_program-Follows calls) e
        (notify_all-Follows s f)
