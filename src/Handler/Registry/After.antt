-- ===== src/Handler/Registry/After.antt =====
-- What an `after` entry comes to, over all the rounds of `register_processes`.
use mathlib.Core.List.{Memᴰ}
use scinit.Base.{
  lookup_same, ℕ, ◌≡◌, refl, sym, ap, ◌∙◌, ◌≢◌, ◌⊎◌, inl, inr, none, some, List, [], ◌∷◌, Text,
  lookup, nat_key, for_each_reach, key_cases, Option-cases, subst,
}
use scinit.Child.Types.{ProcessState, blocked, Condition, ChildProcess, Heap, WeakPtr}
use scinit.Child.Lifecycle.{propagate_dependencies}
use scinit.Child.Lifecycle.Links.{Grown}
use scinit.Child.Lifecycle.Links.Spread.{
  settled, propagate_dependencies_frame, propagate_dependencies_links,
}
use scinit.Handler.Types.{ProcessHandler}
use scinit.Handler.Registry.{propagate, register_processes}
use scinit.Handler.Registry.Frame.{Named, gone_lem, propagates-Named}

-- The object at `r` is BLOCKED, with a condition on the process with the given id.
abbrev pub IsHeld : ℕ → ℕ → Heap → Type 0
IsHeld r id h =
    (c : ChildProcess) × (st : ProcessState) × (lookup r h ≡ some c)
    × (c.state ≡ blocked)
    × (lookup id c.conditions ≡ some st)

-- With a condition a process stays BLOCKED when it has told the others.
settled-blocked :
    (c : ChildProcess) (cs : List Condition) (id : ℕ) (st : ProcessState)
    → c.state ≡ blocked
    → lookup id cs ≡ some st
    → (settled c cs).state ≡ blocked
unfolding lookup
settled-blocked c [] id st is waits = absurd (cc waits)
settled-blocked c (x ∷ cs) id st is waits = is

module _ (all : List WeakPtr) (r q : ℕ) (name : Text) (id : ℕ) (listed : Memᴰ (some q) all) where
  abbrev Pending : Heap → Type 0
  Pending h = (c : ChildProcess) × (lookup r h ≡ some c) × (c.state ≡ blocked) × Memᴰ name c.after

  module _ (p : ℕ) (h : Heap) (b : ChildProcess) (here : lookup p h ≡ some b) where
    abbrev next : Heap
    next = propagate_dependencies p all h

    -- The object at `k` has its old fields, but for what `settle` and `should_wait_for` change.
    grows :
        (k : ℕ) (d : ChildProcess)
        → k ≢ p
        → lookup k h ≡ some d
        → (e : ChildProcess) × (lookup k next ≡ some e) × Grown d e
    grows = (propagate_dependencies_frame p all h b here).1

    itself :
        (k : ℕ) (d : ChildProcess)
        → k ≡ p
        → lookup k h ≡ some d
        → (cs : List Condition) × (lookup k next ≡ some (settled d cs))
          × ((i : ℕ) (st : ProcessState) → lookup i d.conditions ≡ some st → lookup i cs ≡ some st)
    itself k d eq found =
        let (cs, there, keep) = (propagate_dependencies_frame p all h b here).0 in
        let same : b ≡ d = lookup_same h here eq found in
        (
          cs,
          ap (λ i. lookup i next) eq ∙ there ∙ ap (λ x. some (settled x cs)) same,
          subst
              (λ (x : ChildProcess).
                (i : ℕ) (st : ProcessState)
                → lookup i x.conditions ≡ some st
                → lookup i cs ≡ some st)
              same keep,
        )

    pub propagates-IsHeld : IsHeld r id h → IsHeld r id next
    propagates-IsHeld (c, st, found, is, waits) = elim (key_cases r p) [
      | inl eq ↦
          let (cs, there, keep) = itself r c eq found in
          (
            settled c cs,
            st,
            there,
            settled-blocked c cs id st is (keep id st waits),
            keep id st waits,
          )
      | inr ne ↦
          let (e, there, (cs, same, keep)) = grows r c ne found in
          (e, st, there, ap (λ (x : ChildProcess). x.state) same ∙ is, rw same (keep id st waits))
    ]

    propagates-Pending : r ≢ p → Pending h → Pending next
    propagates-Pending ne (c, found, is, entry) =
        let (e, there, (cs, same, _)) = grows r c ne found in
        (
          e,
          there,
          ap (λ (x : ChildProcess). x.state) same ∙ is,
          subst (λ (x : ChildProcess). Memᴰ name x.after) (sym same) entry,
        )

    holds : r ≡ p → Named q name id h → Pending h → IsHeld r id next
    holds eq (d, target, named, numbered) (c, found, is, entry) =
        let same : b ≡ c = lookup_same h here eq found in
        let (x, st, there, waits) =
          (propagate_dependencies_links p all h b here q d listed target).1 (
            subst (λ (y : ChildProcess). Memᴰ d.name y.after) (sym same)
              (subst (λ n. Memᴰ n c.after) (sym named) entry)) in
        let (cs, settles, _) = itself r c eq found in
        let is_settled : x ≡ settled c cs = lookup_same next there eq settles in
        let held : lookup id cs ≡ some st =
          ap (λ i. lookup i cs) (sym numbered)
          ∙ ap (λ (y : ChildProcess). lookup d.graph_id y.conditions) (sym is_settled)
          ∙ waits in
        (settled c cs, st, settles, settled-blocked c cs id st is held, held)

  abbrev Progresses : Heap → Type 0
  Progresses h = Named q name id h × (Pending h ⊎ IsHeld r id h)

  propagate-Progresses :
      (ref : WeakPtr) (h : Heap) → Progresses h → Progresses (propagate all ref h)
  unfolding propagate
  propagate-Progresses none h x = x
  propagate-Progresses (some p) h (target, done) = elim (Option-cases (lookup p h)) [
    | inl gone ↦ rw (gone_lem all p h gone) (target, done)
    | inr (b, here) ↦ (
      propagates-Named all q name id p h target,
      elim done [
        | inr held ↦ inr (propagates-IsHeld p h b here held)
        | inl pending ↦ elim (key_cases r p) [
          | inl eq ↦ inr (holds p h b here eq target pending)
          | inr ne ↦ inl (propagates-Pending p h b here ne pending)
        ]
      ],
    )
  ]

  propagate-IsHeld :
      (ref : WeakPtr) (h : Heap) → Progresses h → IsHeld r id h → IsHeld r id (propagate all ref h)
  unfolding propagate
  propagate-IsHeld none h x held = held
  propagate-IsHeld (some p) h x held = elim (Option-cases (lookup p h)) [
    | inl gone ↦ rw (gone_lem all p h gone) held
    | inr (b, here) ↦ propagates-IsHeld p h b here held
  ]

  propagate_itself : (h : Heap) → Progresses h → IsHeld r id (propagate all (some r) h)
  unfolding propagate
  propagate_itself h (target, inr held) = propagate-IsHeld (some r) h (target, inr held) held
  propagate_itself h (target, inl (c, found, is, entry)) =
      holds r h c found refl target (c, found, is, entry)

-- An `after` entry is kept: when `register_processes` returns, a registered process that was BLOCKED and
-- names another registered process in its `after` list is BLOCKED, with a condition on that process.
pub register_processes-IsHeld :
    (refs : List WeakPtr) (s : ProcessHandler) (r q : ℕ) (c d : ChildProcess)
    → Memᴰ (some r) refs
    → Memᴰ (some q) refs
    → lookup r s.heap ≡ some c
    → lookup q s.heap ≡ some d
    → c.state ≡ blocked
    → Memᴰ d.name c.after
    → IsHeld r d.graph_id (register_processes refs s).heap
unfolding register_processes
register_processes-IsHeld refs s r q c d m n here target is entry =
    (for_each_reach (Progresses refs r q d.name d.graph_id n) (IsHeld r d.graph_id) (propagate refs)
      (some r) refs s.heap m (propagate-Progresses refs r q d.name d.graph_id n)
      (propagate-IsHeld refs r q d.name d.graph_id n)
      (propagate_itself refs r q d.name d.graph_id n)
      ((d, target, refl, refl), inl (c, here, is, entry))).1
