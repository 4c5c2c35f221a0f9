-- ===== src/Handler/Start/Readiness.antt =====
-- Which processes `start_programs` starts.
use scinit.Base.{
  some-injective, ok, ℕ, ◌≡◌, refl, sym, ap, ◌∙◌, subst, ◌≢◌, ◌⊎◌, inl, inr, false, Option, none,
  some, List, [], ◌∷◌, arith, Map, All, lookup, modify, nat_key, for_each, for_each_inv, Bool-cases,
  Option-cases, key_cases, lookup-modify, beq_refl, beq-false,
}
use scinit.Child.Types.{
  blocked, ready, running, done, state_beq, state_beq_iff, Condition, ChildProcess, Heap, WeakPtr,
  lock,
}
use scinit.Child.Lifecycle.{notify_of_state}
use scinit.Child.Lifecycle.States.{IsFulfilled, notify_of_state_cases}
use scinit.Child.Lifecycle.Awaitable.{IsAwaitable, AllAwaitable}
use scinit.Handler.Types.{ProcessHandler}
use scinit.Handler.Start.Cases.{start_all_inv}
use scinit.Handler.Start.Kept.{Kept, start_program-Kept}
use scinit.Handler.Start.{StartCalls, notify, notify_all, start_programs}

module _ (objs : Map ℕ WeakPtr) (start : Heap) where
  -- The object is as at the start, or was unblocked when all that it waits for was the case.
  abbrev Unblocked : ChildProcess → ChildProcess → Type 0
  Unblocked c d =
      (d ≡ c)
      ⊎ ((c.state ≡ blocked)
          × All (IsFulfilled objs start) c.conditions
          × (d ≡ record c { state = ready }))

  abbrev Notified : Heap → Type 0
  Notified h =
      ((r : ℕ) (c : ChildProcess)
        → lookup r start ≡ some c
        → (d : ChildProcess) × (lookup r h ≡ some d) × Unblocked c d)
      × ((r : ℕ) → lookup r start ≡ none → lookup r h ≡ none)

  -- What is the case now was the case at the start: to be unblocked fulfils no condition.
  IsFulfilled-before :
      (h : Heap)
      → Notified h
      → (c : Condition) → IsAwaitable c
      → IsFulfilled objs h c
      → IsFulfilled objs start c
  IsFulfilled-before h n (id, st) proper (none, p, known, alive, e) = absurd (unfold lock in cc)
  IsFulfilled-before h n (id, st) proper (some r, p, known, alive, e) =
      elim (Option-cases (lookup r start)) [
        | inl gone ↦ absurd (both (n.1 r gone) (unfold lock in alive))
        | inr (c, there) ↦ go c there (n.0 r c there)
      ]
    where
      both : {o : Option ChildProcess} → o ≡ none → o ≡ some p → ⊥
      both x y = cc

      go :
          (c : ChildProcess)
          → lookup r start ≡ some c
          → (d : ChildProcess) × (lookup r h ≡ some d) × Unblocked c d
          → IsFulfilled objs start (id, st)
      go c there (d, found, inl same) =
          let is_p : d ≡ p = some-injective (sym found ∙ (unfold lock in alive)) in
          (
            some r,
            c,
            known,
            (unfold lock in there),
            ap (λ (x : ChildProcess). x.state) (sym same ∙ is_p) ∙ e,
          )
      go c there (d, found, inr (was_blocked, met, same)) =
          let is_p : d ≡ p = some-injective (sym found ∙ (unfold lock in alive)) in
          absurd
            (ready_not_awaitable (ap (λ (x : ChildProcess). x.state) (sym same ∙ is_p) ∙ e) proper)
        where
          ready_not_awaitable : ready ≡ st → (st ≡ running) ⊎ (st ≡ done) → ⊥
          ready_not_awaitable x (inl y) = cc
          ready_not_awaitable x (inr y) = cc

  All-IsFulfilled_before :
      (h : Heap) (cs : List Condition)
      → Notified h
      → All IsAwaitable cs
      → All (IsFulfilled objs h) cs
      → All (IsFulfilled objs start) cs
  All-IsFulfilled_before h [] n proper met = tt
  All-IsFulfilled_before h (c ∷ cs) n proper met =
      (IsFulfilled-before h n c proper.0 met.0, All-IsFulfilled_before h cs n proper.1 met.1)

  module _ (awaitable : AllAwaitable start) where
    notify-Unblocked :
        (h : Heap) (r : ℕ) (c d : ChildProcess)
        → Notified h
        → lookup r start ≡ some c
        → Unblocked c d
        → Unblocked c (notify_of_state objs h d)
    notify-Unblocked h r c d n there (inr (was_blocked, met, same)) =
        inr (was_blocked, met, rw same (unfold notify_of_state in refl))
    notify-Unblocked h r c d n there (inl same) =
        subst (λ (x : ChildProcess). Unblocked c (notify_of_state objs h x)) (sym same)
          (elim (notify_of_state_cases objs h c) [
            | inl kept ↦ inl kept
            | inr (was_blocked, met, made) ↦ inr (
              was_blocked,
              All-IsFulfilled_before h c.conditions n (awaitable r c there) met,
              made,
            )
          ])

    notify-Notified : (ref : WeakPtr) (h : Heap) → Notified h → Notified (notify objs ref h)
    unfolding notify
    notify-Notified none h n = n
    notify-Notified (some r) h n = (there, gone)
      where
        f : ChildProcess → ChildProcess
        f = notify_of_state objs h

        there :
            (q : ℕ) (c : ChildProcess)
            → lookup q start ≡ some c
            → (d : ChildProcess) × (lookup q (modify r f h) ≡ some d) × Unblocked c d
        there q c e =
            let (d, found, rel) = n.0 q c e in
            elim (key_cases q r) [
              | inr ne ↦ (d, rw (lookup-modify, beq-false r q (λ p. ne (sym p))) found, rel)
              | inl eq ↦ (
                f d,
                rw (lookup-modify, eq, beq_refl r)
                    (rw (sym (ap (λ k. lookup k h) eq) ∙ found) refl),
                notify-Unblocked h q c d n e rel,
              )
            ]

        gone : (q : ℕ) → lookup q start ≡ none → lookup q (modify r f h) ≡ none
        gone q e = ground (arith, lookup-modify r q f h, n.1 q e)

    notify_loop : (refs : List WeakPtr) → Notified (for_each (notify objs) refs start)
    notify_loop refs =
        for_each_inv Notified (notify objs) refs start notify-Notified
          ((λ r c e. (c, e, inl refl)), λ r e. e)

-- A process that `start_programs` starts, when it does not end the program, was ready, or was blocked and each process that it waits for
-- was registered and alive, and in the state that it waits for, when `start_programs` was called.
pub start_programs_waits :
    (calls : ℕ → StartCalls) (s t : ProcessHandler) (r : ℕ) (c d : ChildProcess)
    → start_programs calls s ≡ ok t
    → AllAwaitable s.heap
    → lookup r s.heap ≡ some c
    → c.state ≢ running
    → lookup r t.heap ≡ some d
    → d.state ≡ running
    → (c.state ≡ ready) ⊎ ((c.state ≡ blocked) × All (IsFulfilled s.obj_for_id s.heap) c.conditions)
unfolding start_programs notify_all
start_programs_waits calls s t r c d e awaitable here idle there runs =
    elim (Bool-cases (state_beq c.state ready)) [
      | inl was_ready ↦ inl ((state_beq_iff c.state ready).0 was_ready)
      | inr not_ready ↦ go (notify_loop s.obj_for_id s.heap awaitable s.all_objs).0 not_ready
    ]
  where
    notified : Heap
    notified = for_each (notify s.obj_for_id) s.all_objs s.heap

    kept : Kept notified t
    kept =
        start_all_inv (Kept notified) calls s.all_objs (notify_all s) t
          (start_program-Kept calls notified) e (λ q x found ne. found)

    go :
        ((q : ℕ) (x : ChildProcess)
          → lookup q s.heap ≡ some x
          → (y : ChildProcess) × (lookup q notified ≡ some y) × Unblocked s.obj_for_id s.heap x y)
        → state_beq c.state ready ≡ false
        → (c.state ≡ ready)
          ⊎ ((c.state ≡ blocked) × All (IsFulfilled s.obj_for_id s.heap) c.conditions)
    go rel not_ready =
        let (y, found, u) = rel r c here in
        elim u [
          | inr (was_blocked, met, _) ↦ inr (was_blocked, met)
          | inl same ↦
              let still : lookup r t.heap ≡ some c =
                kept r c (found ∙ ap (λ (x : ChildProcess). some x) same) (ne_ready not_ready) in
              absurd (
                idle
                  (ap (λ (x : ChildProcess). x.state) (some-injective (sym still ∙ there)) ∙ runs))
        ]
      where
        ne_ready : state_beq c.state ready ≡ false → c.state ≢ ready
        ne_ready e f = ground (arith, state_beq_iff c.state ready)
