-- ===== src/Child/Lifecycle/Each.antt =====
-- What holds of each object through `propagate_dependencies`, if it holds where one is told to wait.
use mathlib.Core.List.{Memᴰ}
use scinit.Base.{
  some-injective, ℕ, ◌==◌, ==_iff, if◌then◌else◌, ◌≡◌, sym, inl, inr, none, some, List, lookup,
  modify, nat_key, for_each, for_each_members, Bool-cases, Option-cases, lookup-modify, Text,
  text_beq, text_beq_iff, subst,
}
use scinit.Child.Types.{ChildProcess, Heap, WeakPtr, lock}
use scinit.Child.Lifecycle.{
  should_wait_for, awaited_state, visit_before, visit_after, settle, spread_before, spread_after,
  propagate_dependencies,
}

abbrev pub Each : (ℕ → ChildProcess → Type 0) → Heap → Type 0
Each P h = (r : ℕ) (c : ChildProcess) → lookup r h ≡ some c → P r c

module _ (P : ℕ → ChildProcess → Type 0) where
  modify-Each :
      (r : ℕ) (f : ChildProcess → ChildProcess) (h : Heap)
      → ((c : ChildProcess) → P r c → P r (f c))
      → Each P h
      → Each P (modify r f h)
  modify-Each r f h keeps a q d found = elim (Bool-cases (r == q)) [
    | inr other ↦ a q d (rw (lookup-modify, other) at found)
    | inl same ↦ elim (Option-cases (lookup q h)) [
      | inl gone ↦ absurd (cc (rw (lookup-modify, same, gone) at found))
      | inr (c, there) ↦
          let eq : r ≡ q = (==_iff r q).0 same in
          subst (P q) (some-injective (rw (lookup-modify, same, there) at found))
            (subst (λ k. P k (f c)) eq (keeps c (subst (λ k. P k c) (sym eq) (a q c there))))
    ]
  ]

  -- The process `c` at `self` tells the others, and each time that one of them is told to wait, or
  -- itself is, the property is kept.
  pub record Told (self : ℕ) (c : ChildProcess) (others : List WeakPtr) : Type 0 where
    pub before :
        (r : ℕ) (d : ChildProcess)
        → Memᴰ (some r) others
        → Memᴰ d.name c.before
        → P r d
        → P r (should_wait_for c.graph_id (awaited_state c.type) d)
    pub after :
        (q : ℕ) (d e : ChildProcess)
        → Memᴰ (some q) others
        → Memᴰ d.name c.after
        → P q d
        → P self e
        → P self (should_wait_for d.graph_id (awaited_state c.type) e)
    pub at_last : (e : ChildProcess) → P self e → P self (settle e)

  module _ (self : ℕ) (c : ChildProcess) (others : List WeakPtr) (told : Told self c others) where
    visit_before-Each :
        (dependency : Text) (ref : WeakPtr) (h : Heap)
        → Memᴰ dependency c.before
        → Memᴰ ref others
        → Each P h
        → Each P (visit_before c.graph_id (awaited_state c.type) dependency ref h)
    unfolding visit_before
    visit_before-Each dependency none h m n a = a
    visit_before-Each dependency (some r) h m n a = modify-Each r _ h keeps a
      where
        keeps :
            (d : ChildProcess)
            → P r d
            → P r (
                if text_beq d.name dependency
                then should_wait_for c.graph_id (awaited_state c.type) d
                else d)
        keeps d b = elim (Bool-cases (text_beq d.name dependency)) [
          | inr other ↦ rw other b
          | inl named ↦ rw named (
              told.before r d n
                (subst (λ s. Memᴰ s c.before) (sym ((text_beq_iff d.name dependency).0 named)) m) b)
        ]

    visit_after-Each :
        (dependency : Text) (ref : WeakPtr) (h : Heap)
        → Memᴰ dependency c.after
        → Memᴰ ref others
        → Each P h
        → Each P (visit_after self (awaited_state c.type) dependency ref h)
    unfolding visit_after lock
    visit_after-Each dependency none h m n a = a
    visit_after-Each dependency (some q) h m n a = elim (Option-cases (lookup q h)) [
      | inl gone ↦ rw (gone, visit_after) a
      | inr (d, there) ↦ elim (Bool-cases (text_beq d.name dependency)) [
        | inr other ↦ rw (there, other, visit_after) a
        | inl named ↦
            rw (there, named, visit_after)
              (modify-Each self _ h
                (λ e.
                  told.after q d e n
                    (subst (λ s. Memᴰ s c.after) (sym ((text_beq_iff d.name dependency).0 named)) m)
                    (a q d there))
                a)
      ]
    ]

    -- Two nested loops, of which each round keeps the property.
    loops-Each :
        (visit : Text → WeakPtr → Heap → Heap) (dependencies : List Text) (h : Heap)
        → ((dependency : Text) (ref : WeakPtr) (t : Heap)
            → Memᴰ dependency dependencies
            → Memᴰ ref others
            → Each P t
            → Each P (visit dependency ref t))
        → Each P h
        → Each P (for_each (λ dependency. for_each (visit dependency) others) dependencies h)
    loops-Each visit dependencies h keeps a =
        for_each_members (Each P) (λ dependency. for_each (visit dependency) others) dependencies h
          (λ dependency t m.
            for_each_members (Each P) (visit dependency) others t
              (λ ref u n. keeps dependency ref u m n))
          a

    pub propagate_dependencies-Each :
        (h : Heap)
        → lookup self h ≡ some c
        → Each P h
        → Each P (propagate_dependencies self others h)
    unfolding propagate_dependencies spread_before spread_after
    propagate_dependencies-Each h here a =
        rw (here, propagate_dependencies)
          (modify-Each self settle _ told.at_last (
            loops-Each (visit_after self (awaited_state c.type)) c.after _ visit_after-Each (
              loops-Each (visit_before c.graph_id (awaited_state c.type)) c.before h
                visit_before-Each a)))
