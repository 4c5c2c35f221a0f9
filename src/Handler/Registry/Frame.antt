-- ===== src/Handler/Registry/Frame.antt =====
-- What `register_processes` leaves alone.
use scinit.Base.{
  Text, lookup_same, ℕ, ◌≡◌, refl, sym, ap, ◌∙◌, ◌≢◌, inl, inr, none, some, List, [], ◌∷◌, lookup,
  nat_key, for_each_inv, key_cases, Option-cases,
}
use scinit.Child.Types.{running, Condition, ChildProcess, Heap, WeakPtr}
use scinit.Child.Lifecycle.{propagate_dependencies}
use scinit.Child.Lifecycle.Links.Spread.{settled, propagate_dependencies_frame}
use scinit.Handler.Types.{ProcessHandler}
use scinit.Handler.Registry.{propagate, register_processes}

settled-ne-running :
    (c : ChildProcess) (cs : List Condition) → c.state ≢ running → (settled c cs).state ≢ running
settled-ne-running c [] ne e = cc
settled-ne-running c (x ∷ cs) ne e = ne e

-- Every object is still there and keeps its id, none comes, and none starts to run.
abbrev pub Settles : Heap → Heap → Type 0
Settles h g =
    ((r : ℕ) (c : ChildProcess)
      → lookup r h ≡ some c
      → (d : ChildProcess) × (lookup r g ≡ some d)
        × (d.graph_id ≡ c.graph_id)
        × (c.state ≢ running → d.state ≢ running))
    × ((r : ℕ) → lookup r h ≡ none → lookup r g ≡ none)

Settles-trans : (f g h : Heap) → Settles f g → Settles g h → Settles f h
Settles-trans f g h p q = (
  λ r c e.
      let (d, there, same, still) = p.0 r c e in
      let (d', there', same', still') = q.0 r d there in
      (d', there', same' ∙ same, λ idle. still' (still idle)),
  λ r e. q.1 r (p.1 r e),
)

pub gone_lem :
    (all : List WeakPtr) (p : ℕ) (h : Heap) → lookup p h ≡ none → propagate_dependencies p all h ≡ h
gone_lem all p h e = unfold propagate_dependencies in rw (e, propagate_dependencies) refl

propagate_dependencies-Settles :
    (self : ℕ) (all : List WeakPtr) (h : Heap) → Settles h (propagate_dependencies self all h)
propagate_dependencies-Settles self all h = elim (Option-cases (lookup self h)) [
  | inl gone ↦ rw (gone_lem all self h gone) (λ r c e. (c, e, refl, λ idle. idle), λ r e. e)
  | inr (c, here) ↦
      let (itself, others, absent) = propagate_dependencies_frame self all h c here in
      (
        λ r d found. elim (key_cases r self) [
          | inl eq ↦
              let (cs, there, _) = itself in
              let same : c ≡ d = lookup_same h here eq found in
              (
                settled c cs,
                ap (λ q. lookup q (propagate_dependencies self all h)) eq ∙ there,
                ap (λ (x : ChildProcess). x.graph_id) same,
                λ idle.
                    settled-ne-running c cs
                      (λ runs. idle (ap (λ (x : ChildProcess). x.state) (sym same) ∙ runs)),
              )
          | inr ne ↦
              let (e, there, (cs, same, _)) = others r d ne found in
              (
                e,
                there,
                ap (λ (x : ChildProcess). x.graph_id) same,
                λ idle runs. idle (ap (λ (x : ChildProcess). x.state) (sym same) ∙ runs),
              )
        ],
        absent,
      )
]

propagate-Settles :
    (all : List WeakPtr) (ref : WeakPtr) (h : Heap) → Settles h (propagate all ref h)
unfolding propagate
propagate-Settles all none h = (λ r c e. (c, e, refl, λ idle. idle), λ r e. e)
propagate-Settles all (some self) h = propagate_dependencies-Settles self all h

-- To register processes changes nobody's id, and starts nothing.
pub register_processes-Settles :
    (refs : List WeakPtr) (s : ProcessHandler) → Settles s.heap (register_processes refs s).heap
unfolding register_processes
register_processes-Settles refs s =
    for_each_inv (Settles s.heap) (propagate refs) refs s.heap
      (λ ref h p. Settles-trans s.heap h (propagate refs ref h) p (propagate-Settles refs ref h))
      (λ r c e. (c, e, refl, λ idle. idle), λ r e. e)

-- The object at an address, with its name and its id.
abbrev pub Named : ℕ → Text → ℕ → Heap → Type 0
Named q name id h = (d : ChildProcess) × (lookup q h ≡ some d) × (d.name ≡ name) × (d.graph_id ≡ id)

module _ (all : List WeakPtr) where
  pub propagates-Named :
      (q : ℕ) (name : Text) (id : ℕ) (p : ℕ) (h : Heap)
      → Named q name id h
      → Named q name id (propagate_dependencies p all h)
  propagates-Named q name id p h (d, found, named, numbered) = elim (Option-cases (lookup p h)) [
    | inl gone ↦ rw (gone_lem all p h gone) (d, found, named, numbered)
    | inr (b, here) ↦
        let ((cs, there, _), grows, _) = propagate_dependencies_frame p all h b here in
        elim (key_cases q p) [
          | inl eq ↦
              let same : b ≡ d = lookup_same h here eq found in
              (
                settled b cs,
                ap (λ i. lookup i (propagate_dependencies p all h)) eq ∙ there,
                ap (λ (x : ChildProcess). x.name) same ∙ named,
                ap (λ (x : ChildProcess). x.graph_id) same ∙ numbered,
              )
          | inr ne ↦
              let (e, there, (cs, same, _)) = grows q d ne found in
              (
                e,
                there,
                ap (λ (x : ChildProcess). x.name) same ∙ named,
                ap (λ (x : ChildProcess). x.graph_id) same ∙ numbered,
              )
        ]
  ]
