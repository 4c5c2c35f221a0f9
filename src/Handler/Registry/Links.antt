-- ===== src/Handler/Registry/Links.antt =====
-- For whom each process waits after `register_processes`: what its two lists ask for, and no more.
use mathlib.Core.List.{Memᴰ}
use scinit.Base.{
  lookup_same, ℕ, ◌≡◌, refl, sym, ap, ◌∙◌, ◌≢◌, ◌⊎◌, inl, inr, none, some, List, Text, lookup,
  nat_key, for_each_reach, key_cases, Option-cases, subst,
}
use scinit.Child.Types.{Condition, ChildProcess, Heap, WeakPtr}
use scinit.Child.Lifecycle.{propagate_dependencies}
use scinit.Child.Lifecycle.Links.{WaitsFor, with_conditions}
use scinit.Child.Lifecycle.Links.Spread.{settled, propagate_dependencies_frame}
use scinit.Handler.Types.{ProcessHandler}
use scinit.Handler.Registry.{propagate, register_processes}
use scinit.Handler.Registry.Frame.{Named, gone_lem, propagates-Named}

module _ (all : List WeakPtr) where
  propagates-WaitsFor :
      (w id : ℕ) (p : ℕ) (h : Heap)
      → WaitsFor w id h
      → WaitsFor w id (propagate_dependencies p all h)
  propagates-WaitsFor w id p h (c, st, found, waits) = elim (Option-cases (lookup p h)) [
    | inl gone ↦ rw (gone_lem all p h gone) (c, st, found, waits)
    | inr (b, here) ↦
        let ((cs, there, keep), grows, _) = propagate_dependencies_frame p all h b here in
        elim (key_cases w p) [
          | inl eq ↦
              let same : b ≡ c = lookup_same h here eq found in
              (
                settled b cs,
                st,
                ap (λ i. lookup i (propagate_dependencies p all h)) eq ∙ there,
                keep id st (ap (λ (x : ChildProcess). lookup id x.conditions) same ∙ waits),
              )
          | inr ne ↦
              let (e, there, (cs, same, keep)) = grows w c ne found in
              (e, st, there, rw same (keep id st waits))
        ]
  ]

  -- One of the two lists, which only the process itself clears, asks the process at `w` to wait for
  -- the one with the given id.
  module _ (p q : ℕ) (name other : Text) (cid did : ℕ) (which : ChildProcess → List Text)
      (stays : (c : ChildProcess) (cs : List Condition) → which (with_conditions c cs) ≡ which c)
      (w id : ℕ) where
    abbrev Entry : Heap → Type 0
    Entry h = (c : ChildProcess) × (lookup p h ≡ some c) × Memᴰ other (which c)

    abbrev Progresses : Heap → Type 0
    Progresses h = Named p name cid h × Named q other did h × (Entry h ⊎ WaitsFor w id h)

    module _
        (make : (h : Heap) (c d : ChildProcess)
          → lookup p h ≡ some c
          → lookup q h ≡ some d
          → c.graph_id ≡ cid
          → d.graph_id ≡ did
          → Memᴰ d.name (which c)
          → WaitsFor w id (propagate_dependencies p all h)) where
      told :
          (k : ℕ) (h : Heap)
          → k ≡ p
          → Named p name cid h
          → Named q other did h
          → Entry h
          → WaitsFor w id (propagate_dependencies k all h)
      told k h eq (c', at_p', _, is_c) (d, at_q, named, is_d) (c, at_p, entry) =
          let same : c' ≡ c = lookup_same h at_p' refl at_p in
          subst (λ i. WaitsFor w id (propagate_dependencies i all h)) (sym eq)
            (make h c d at_p at_q (ap (λ (x : ChildProcess). x.graph_id) (sym same) ∙ is_c) is_d
              (subst (λ n. Memᴰ n (which c)) (sym named) entry))

      propagates-Entry :
          (k : ℕ) (h : Heap) → k ≢ p → Entry h → Entry (propagate_dependencies k all h)
      propagates-Entry k h ne (c, at_p, entry) = elim (Option-cases (lookup k h)) [
        | inl gone ↦ rw (gone_lem all k h gone) (c, at_p, entry)
        | inr (b, here) ↦
            let (_, grows, _) = propagate_dependencies_frame k all h b here in
            let (e, there, (cs, same, _)) = grows p c (λ x. ne (sym x)) at_p in
            (e, there, subst (λ x. Memᴰ other x) (sym (ap which same ∙ stays c cs)) entry)
      ]

      propagate-Progresses :
          (ref : WeakPtr) (h : Heap) → Progresses h → Progresses (propagate all ref h)
      unfolding propagate
      propagate-Progresses none h x = x
      propagate-Progresses (some k) h (c, d, done) = (
        propagates-Named all p name cid k h c,
        propagates-Named all q other did k h d,
        elim done [
          | inr waits ↦ inr (propagates-WaitsFor w id k h waits)
          | inl entry ↦ elim (key_cases k p) [
            | inl eq ↦ inr (told k h eq c d entry)
            | inr ne ↦ inl (propagates-Entry k h ne entry)
          ]
        ],
      )

      propagate-WaitsFor :
          (ref : WeakPtr) (h : Heap) → WaitsFor w id h → WaitsFor w id (propagate all ref h)
      unfolding propagate
      propagate-WaitsFor none h waits = waits
      propagate-WaitsFor (some k) h waits = propagates-WaitsFor w id k h waits

      propagate_itself : (h : Heap) → Progresses h → WaitsFor w id (propagate all (some p) h)
      unfolding propagate
      propagate_itself h (c, d, inr waits) = propagates-WaitsFor w id p h waits
      propagate_itself h (c, d, inl entry) = told p h refl c d entry

      pub loop_tells :
          (s : ProcessHandler)
          → Memᴰ (some p) all
          → Named p name cid s.heap
          → Named q other did s.heap
          → Entry s.heap
          → WaitsFor w id (register_processes all s).heap
      unfolding register_processes
      loop_tells s m c d entry =
          (for_each_reach Progresses (WaitsFor w id) (propagate all) (some p) all s.heap m
            propagate-Progresses (λ ref h _. propagate-WaitsFor ref h) propagate_itself
            (c, d, inl entry)).1
