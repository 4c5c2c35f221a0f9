-- ===== src/Handler/Registry/Before.antt =====
-- What a `before` entry comes to in `register_processes`, when its process comes first.
use mathlib.Core.List.{Memᴰ}
use mathlib.Core.List.Memᴰ
use scinit.Base.{
  some-injective, ℕ, ◌≡◌, ◌≢◌, refl, sym, ap, ◌∙◌, inl, inr, none, some, List, [], ◌∷◌, ◌++◌, Text,
  lookup, nat_key, for_each, for_each_inv, Option-cases, subst,
}
use scinit.Child.Types.{blocked, ChildProcess, Heap, WeakPtr}
use scinit.Child.Lifecycle.Links.Spread.{propagate_dependencies_frame, propagate_dependencies_links}
use scinit.Handler.Types.{ProcessHandler}
use scinit.Handler.Registry.{propagate, register_processes}
use scinit.Handler.Registry.Frame.{gone_lem}
use scinit.Handler.Registry.After.{IsHeld, propagates-IsHeld}

for_each-append {ℓ κ} :
    {A : Type ℓ} {S : Type κ} (f : A → S → S) (xs ys : List A) (s : S)
    → for_each f (xs ++ ys) s ≡ for_each f ys (for_each f xs s)
unfolding for_each
for_each-append f [] ys s = refl
for_each-append f (x ∷ xs) ys s = for_each-append f xs ys (f x s)

module _ (all : List WeakPtr) (p r : ℕ) (name : Text) (id : ℕ) (listed : Memᴰ (some r) all)
    (apart : r ≢ p) where
  -- Neither has told the others yet: one has the entry, and the other is BLOCKED.
  abbrev Waiting : Heap → Type 0
  Waiting h =
      ((b : ChildProcess) × (lookup p h ≡ some b) × (b.graph_id ≡ id) × Memᴰ name b.before)
      × ((d : ChildProcess) × (lookup r h ≡ some d) × (d.name ≡ name) × (d.state ≡ blocked))

  propagate-Waiting :
      (ref : WeakPtr) (h : Heap)
      → ref ≢ some r
      → ref ≢ some p
      → Waiting h
      → Waiting (propagate all ref h)
  unfolding propagate
  propagate-Waiting none h nr np w = w
  propagate-Waiting (some k) h nr np ((b, at_p, numbered, entry), (d, at_r, named, is)) =
      elim (Option-cases (lookup k h)) [
        | inl gone ↦ rw (gone_lem all k h gone) ((b, at_p, numbered, entry), (d, at_r, named, is))
        | inr (x, here) ↦
            let grows = (propagate_dependencies_frame k all h x here).1 in
            let (b', at_p', (bs, same_b, _)) = grows p b (λ e. np (ap some (sym e))) at_p in
            let (d', at_r', (ds, same_d, _)) = grows r d (λ e. nr (ap some (sym e))) at_r in
            (
              (
                b',
                at_p',
                ap (λ (y : ChildProcess). y.graph_id) same_b ∙ numbered,
                subst (λ (y : ChildProcess). Memᴰ name y.before) (sym same_b) entry,
              ),
              (
                d',
                at_r',
                ap (λ (y : ChildProcess). y.name) same_d ∙ named,
                ap (λ (y : ChildProcess). y.state) same_d ∙ is,
              ),
            )
      ]

  loop-Waiting :
      (pre : List WeakPtr) (h : Heap)
      → (Memᴰ (some r) pre → ⊥)
      → (Memᴰ (some p) pre → ⊥)
      → Waiting h
      → Waiting (for_each (propagate all) pre h)
  unfolding for_each
  loop-Waiting [] h nr np w = w
  loop-Waiting (ref ∷ pre) h nr np w =
      loop-Waiting pre (propagate all ref h) (λ m. nr (Memᴰ.tail m)) (λ m. np (Memᴰ.tail m))
        (propagate-Waiting ref h (λ e. nr (Memᴰ.head (sym e))) (λ e. np (Memᴰ.head (sym e))) w)

  propagate_entry : (h : Heap) → Waiting h → IsHeld r id (propagate all (some p) h)
  unfolding propagate
  propagate_entry h ((b, at_p, numbered, entry), (d, at_r, named, is)) =
      let (x, st, there, waits) =
        (propagate_dependencies_links p all h b at_p r d listed at_r).0
          (subst (λ n. Memᴰ n b.before) (sym named) entry) in
      let (d', at_r', (ds, same, _)) =
        (propagate_dependencies_frame p all h b at_p).1 r d apart at_r in
      let is_d : x ≡ d' = some-injective (sym there ∙ at_r') in
      (
        x,
        st,
        there,
        ap (λ (y : ChildProcess). y.state) (is_d ∙ same) ∙ is,
        ap (λ i. lookup i x.conditions) (sym numbered) ∙ waits,
      )

  propagate-IsHeld : (ref : WeakPtr) (h : Heap) → IsHeld r id h → IsHeld r id (propagate all ref h)
  unfolding propagate
  propagate-IsHeld none h held = held
  propagate-IsHeld (some k) h held = elim (Option-cases (lookup k h)) [
    | inl gone ↦ rw (gone_lem all k h gone) held
    | inr (b, here) ↦ propagates-IsHeld all r r name id listed k h b here held
  ]

-- A `before` entry is kept when its process comes first: if one of the registered processes names a
-- BLOCKED one in its `before` list, and comes earlier in the list, then the other is BLOCKED when
-- `register_processes` returns, with a condition on the process that names it.
pub register_processes_before :
    (pre post : List WeakPtr) (s : ProcessHandler) (p r : ℕ) (c d : ChildProcess)
    → (Memᴰ (some r) pre → ⊥)
    → (Memᴰ (some p) pre → ⊥)
    → r ≢ p
    → Memᴰ (some r) post
    → lookup p s.heap ≡ some c
    → lookup r s.heap ≡ some d
    → d.state ≡ blocked
    → Memᴰ d.name c.before
    → IsHeld r c.graph_id (register_processes (pre ++ some p ∷ post) s).heap
unfolding register_processes for_each
register_processes_before pre post s p r c d nr np apart later at_p at_r is entry =
    subst (IsHeld r c.graph_id) (sym (for_each-append (propagate all) pre (some p ∷ post) s.heap)) (
      for_each_inv (IsHeld r c.graph_id) (propagate all) post
        (propagate all (some p) (for_each (propagate all) pre s.heap))
        (propagate-IsHeld all p r d.name c.graph_id listed apart)
        (propagate_entry all p r d.name c.graph_id listed apart
          (for_each (propagate all) pre s.heap)
          (loop-Waiting all p r d.name c.graph_id listed apart pre s.heap nr np
            ((c, at_p, refl, entry), (d, at_r, refl, is)))))
  where
    all : List WeakPtr
    all = pre ++ some p ∷ post

    listed : Memᴰ (some r) all
    listed = Memᴰ.append_right pre (Memᴰ.tail later)
