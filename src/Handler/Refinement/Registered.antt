-- ===== src/Handler/Refinement/Registered.antt =====
-- `register_processes` keeps each object registered under its id.
use scinit.Base.{
  none≢some, some-injective, ◌≡◌, sym, ap, ◌∙◌, inl, inr, some, Map, lookup, nat_key, Option-cases,
  ℕ, List,
}
use scinit.Child.Types.{ChildProcess, Heap, WeakPtr}
use scinit.Handler.Types.{ProcessHandler}
use scinit.Handler.Registry.{register_processes}
use scinit.Handler.Registry.Frame.{Settles, register_processes-Settles}
use scinit.Handler.Refinement.{Named, NamedOf}

Named-Settles : (objs : Map ℕ WeakPtr) (h g : Heap) → Settles h g → Named objs h → Named objs g
Named-Settles objs h g (forth, absent) n = record {
  known = λ r d found.
      let (c, here, same) = back r d found in ap (λ i. lookup i objs) same ∙ n.known r c here;
  own =
      λ id r d known found. let (c, here, same) = back r d found in same ∙ n.own id r c known here;
}
  where
    back :
        (r : ℕ) (d : ChildProcess)
        → lookup r g ≡ some d
        → (c : ChildProcess) × (lookup r h ≡ some c) × (d.graph_id ≡ c.graph_id)
    back r d found = elim (Option-cases (lookup r h)) [
      | inl gone ↦ absurd (none≢some (absent r gone) found)
      | inr (c, here) ↦
          let (e, there, same, _) = forth r c here in
          (
            c,
            here,
            ap (λ (x : ChildProcess). x.graph_id) (some-injective (sym found ∙ there)) ∙ same,
          )
    ]

pub register_processes-Named :
    (refs : List WeakPtr) (s : ProcessHandler) → NamedOf s → NamedOf (register_processes refs s)
unfolding register_processes
register_processes-Named refs s =
    Named-Settles s.obj_for_id s.heap (register_processes refs s).heap
      (register_processes-Settles refs s)
