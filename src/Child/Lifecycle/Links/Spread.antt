-- ===== src/Child/Lifecycle/Links/Spread.antt =====
-- The two loops of `propagate_dependencies`, and the whole of it.
use mathlib.Core.List.{Memᴰ}
use scinit.Base.{
  ℕ, ◌==◌, beq_refl, beq-false, ◌≡◌, refl, sym, subst, ap, ◌∙◌, ◌≢◌, none, some, List, [], ◌∷◌,
  arith, lookup, modify, nat_key, Text, lookup-modify, Bool-cases, inl, inr,
}
use scinit.Child.Types.{ProcessState, ready, Condition, ChildProcess, Heap, WeakPtr}
use scinit.Child.Lifecycle.{
  awaited_state, visit_before, visit_after, settle, spread_before, spread_after,
  propagate_dependencies,
}
use scinit.Child.Lifecycle.Links.Loops.{loops-Extends, loops_link}
use scinit.Child.Lifecycle.Links.{
  with_conditions, Grown, Extends, WaitsFor, Extends-trans, WaitsFor-Extends, visit_before-Extends,
  visit_after-Extends, visit_before_waits, visit_after_waits,
}

module _ (c : ChildProcess) (others : List WeakPtr) where
  spread_before-Extends : (h : Heap) → Extends h (spread_before c others h)
  unfolding spread_before
  spread_before-Extends h =
      loops-Extends (visit_before c.graph_id (awaited_state c.type)) (visit_before-Extends _ _)
        c.before others h

  spread_before_links :
      (h : Heap) (r : ℕ) (d : ChildProcess)
      → Memᴰ d.name c.before
      → Memᴰ (some r) others
      → lookup r h ≡ some d
      → WaitsFor r c.graph_id (spread_before c others h)
  unfolding spread_before
  spread_before_links h r d m n found =
      loops_link (visit_before c.graph_id (awaited_state c.type)) (visit_before-Extends _ _)
        c.before others h d.name (some r) r c.graph_id m n
        λ t y.
          let (d', found', (cs, same, keep)) = y.present r d found in
          subst
            (λ (s : Text).
              WaitsFor r c.graph_id (visit_before c.graph_id (awaited_state c.type) s (some r) t))
            (ap (λ (e : ChildProcess). e.name) same) (visit_before_waits c.graph_id _ r t d' found')

module _ (self : ℕ) (c : ChildProcess) (others : List WeakPtr) where
  spread_after-Extends : (h : Heap) → Extends h (spread_after self c others h)
  unfolding spread_after
  spread_after-Extends h =
      loops-Extends (visit_after self (awaited_state c.type)) (visit_after-Extends _ _) c.after
        others h

  spread_after_links :
      (h : Heap) (r : ℕ) (b d : ChildProcess)
      → Memᴰ d.name c.after
      → Memᴰ (some r) others
      → lookup self h ≡ some b
      → lookup r h ≡ some d
      → WaitsFor self d.graph_id (spread_after self c others h)
  unfolding spread_after
  spread_after_links h r b d m n here found =
      loops_link (visit_after self (awaited_state c.type)) (visit_after-Extends _ _) c.after others
        h d.name (some r) self d.graph_id m n
        λ t y.
          let (b', here', _) = y.present self b here in
          let (d', found', (cs, same, keep)) = y.present r d found in
          subst
            (λ (e : ChildProcess).
              WaitsFor self e.graph_id (visit_after self (awaited_state c.type) e.name (some r) t))
            same (visit_after_waits self _ r t b' d' here' found')

-- The process with these conditions, when it has told the others.
abbrev pub settled : ChildProcess → List Condition → ChildProcess
settled c cs = record c {
  conditions = cs;
  before = [];
  after = [];
  state = elim cs [ [] ↦ ready | _ ∷ _ ↦ c.state ];
}

pub settle_with :
    (c : ChildProcess) (cs : List Condition) → settle (with_conditions c cs) ≡ settled c cs
unfolding settle
settle_with c [] = refl
settle_with c (x ∷ cs) = refl

settle_lem :
    (c : ChildProcess)
    → ((settle c).conditions ≡ c.conditions)
      × ((settle c).before ≡ [])
      × ((settle c).after ≡ [])
      × ((settle c).state ≡ elim c.conditions [ [] ↦ ready | _ ∷ _ ↦ c.state ])
unfolding settle
settle_lem c = ground arith

module _ (self : ℕ) (others : List WeakPtr) (h : Heap) (c : ChildProcess)
    (here : lookup self h ≡ some c) where
  abbrev linked : Heap
  linked = spread_after self c others (spread_before c others h)

  linked-Extends : Extends h linked
  linked-Extends =
      Extends-trans (spread_before-Extends c others h)
        (spread_after-Extends self c others (spread_before c others h))

  propagate_dependencies_lem : propagate_dependencies self others h ≡ modify self settle linked
  unfolding propagate_dependencies
  propagate_dependencies_lem = rw (here, propagate_dependencies) refl

  modify-settle_waits :
      (r id : ℕ) → WaitsFor r id linked → WaitsFor r id (modify self settle linked)
  modify-settle_waits r id (d, st, found, waits) = elim (Bool-cases (self == r)) [
    | inl same ↦ (settle d, st, rw (lookup-modify, same, found) refl, rw ((settle_lem d).0) waits)
    | inr other ↦ (d, st, rw (lookup-modify, other) found, waits)
  ]

  -- After `propagate_dependencies` each listed process whose name is in the `before` list waits for
  -- this one, and this one waits for each listed process whose name is in its `after` list.
  pub propagate_dependencies_links :
      (r : ℕ) (d : ChildProcess)
      → Memᴰ (some r) others
      → lookup r h ≡ some d
      → (Memᴰ d.name c.before → WaitsFor r c.graph_id (propagate_dependencies self others h))
        × (Memᴰ d.name c.after → WaitsFor self d.graph_id (propagate_dependencies self others h))
  propagate_dependencies_links r d n found = rw propagate_dependencies_lem (befores, afters)
    where
      befores : Memᴰ d.name c.before → WaitsFor r c.graph_id (modify self settle linked)
      befores m = modify-settle_waits r c.graph_id (
          WaitsFor-Extends r c.graph_id (spread_after-Extends self c others _)
            (spread_before_links c others h r d m n found))

      afters : Memᴰ d.name c.after → WaitsFor self d.graph_id (modify self settle linked)
      afters m =
          let (b, here', _) = (spread_before-Extends c others h).present self c here in
          let (d', found', (cs, same, _)) = (spread_before-Extends c others h).present r d found in
          modify-settle_waits self d.graph_id (
            subst (λ (e : ChildProcess). WaitsFor self e.graph_id linked) same
              (spread_after_links self c others _ r b d'
                (subst (λ (e : ChildProcess). Memᴰ e.name c.after) (sym same) m) n here' found'))

  -- The process that propagates gets further conditions at most, its two lists are cleared, and it
  -- becomes ready if it has no condition and keeps its state otherwise; every other object gets further
  -- conditions at most, and none comes or goes.
  pub propagate_dependencies_frame :
      ((cs : List Condition) × (lookup self (propagate_dependencies self others h)
          ≡ some (settled c cs))
        × ((k : ℕ) (st : ProcessState) → lookup k c.conditions ≡ some st → lookup k cs ≡ some st))
      × ((r : ℕ) (d : ChildProcess)
          → r ≢ self
          → lookup r h ≡ some d
          → (e : ChildProcess) × (lookup r (propagate_dependencies self others h) ≡ some e)
            × Grown d e)
      × ((r : ℕ) → lookup r h ≡ none → lookup r (propagate_dependencies self others h) ≡ none)
  propagate_dependencies_frame = rw propagate_dependencies_lem (itself, others_grow, none_comes)
    where
      itself :
          (cs : List Condition) × (lookup self (modify self settle linked) ≡ some (settled c cs))
          × ((k : ℕ) (st : ProcessState) → lookup k c.conditions ≡ some st → lookup k cs ≡ some st)
      itself =
          let (d, found, (cs, same, keep)) = linked-Extends.present self c here in
          (
            cs,
            rw (lookup-modify, beq_refl self, found)
                (ap (λ (x : ChildProcess). some (settle x)) same
                  ∙ ap (λ (x : ChildProcess). some x) (settle_with c cs)),
            keep,
          )

      others_grow :
          (r : ℕ) (d : ChildProcess)
          → r ≢ self
          → lookup r h ≡ some d
          → (e : ChildProcess) × (lookup r (modify self settle linked) ≡ some e) × Grown d e
      others_grow r d ne found =
          let (e, found', grown) = linked-Extends.present r d found in
          (e, rw (lookup-modify, beq-false self r (λ p. ne (sym p))) found', grown)

      none_comes : (r : ℕ) → lookup r h ≡ none → lookup r (modify self settle linked) ≡ none
      none_comes r e = ground (arith, lookup-modify self r settle linked, linked-Extends.absent r e)
