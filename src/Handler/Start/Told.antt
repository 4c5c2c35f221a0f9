-- ===== src/Handler/Start/Told.antt =====
-- The first loop of `start_programs` makes every process ready whose conditions hold.
use mathlib.Core.List.{Memᴰ}
use scinit.Base.{
  lookup_same, ℕ, ◌≡◌, ◌≢◌, ◌⊎◌, sym, ap, ◌∙◌, inl, inr, none, some, List, [], ◌∷◌, All, Map,
  lookup, nat_key, for_each, for_each_reach, key_cases,
}
use scinit.Child.Types.{ProcessState, blocked, ready, Condition, ChildProcess, Heap, WeakPtr, lock}
use scinit.Child.Lifecycle.{notify_of_state}
use scinit.Child.Lifecycle.States.{IsFulfilled, notify_of_state_cases, notify_of_state-ready_iff}
use scinit.Child.Lifecycle.Awaitable.{IsAwaitable}
use scinit.Handler.Start.{notify}
use scinit.Handler.Start.Cases.{Updated-modify, notify_cases}

-- The process as `notify_of_state` leaves it when its conditions hold.
abbrev pub as_ready : ChildProcess → ChildProcess
as_ready c = record c { state = ready }

module _ (objs : Map ℕ WeakPtr) where
  notify_of_state-kept :
      (h : Heap) (c : ChildProcess) → c.state ≢ blocked → notify_of_state objs h c ≡ c
  notify_of_state-kept h c ne = elim (notify_of_state_cases objs h c) [
    | inl kept ↦ kept
    | inr (was, met, made) ↦ absurd (ne was)
  ]

  -- Only a blocked object changes when the others are told of the states.
  pub notify-kept :
      (ref : WeakPtr) (h : Heap) (k : ℕ) (p : ChildProcess)
      → lookup k h ≡ some p
      → p.state ≢ blocked
      → lookup k (notify objs ref h) ≡ some p
  notify-kept ref h k p found ne = elim (notify_cases objs ref h) [
    | inl same ↦ ap (lookup k) same ∙ found
    | inr (r, c, here, up) ↦ elim (key_cases k r) [
      | inr other ↦ up.1 k other ∙ found
      | inl eq ↦
          let is_p : c ≡ p = lookup_same h here eq found in
          ap (λ i. lookup i (notify objs ref h)) eq
          ∙ up.0
          ∙ ap some (
              notify_of_state-kept h c (λ e. ne (ap (λ (x : ChildProcess). x.state) (sym is_p) ∙ e))
              ∙ is_p)
    ]
  ]

  awaited-ne-blocked : (id : ℕ) (st : ProcessState) → IsAwaitable (id, st) → st ≢ blocked
  awaited-ne-blocked id st (inl e) f = cc
  awaited-ne-blocked id st (inr e) f = cc

  -- A condition that holds goes on to hold.
  IsFulfilled-notify :
      (ref : WeakPtr) (h : Heap) (c : Condition)
      → IsAwaitable c
      → IsFulfilled objs h c
      → IsFulfilled objs (notify objs ref h) c
  unfolding lock
  IsFulfilled-notify ref h (id, st) proper (none, p, known, alive, is) = absurd (cc alive)
  IsFulfilled-notify ref h (id, st) proper (some k, p, known, alive, is) = (
    some k,
    p,
    known,
    notify-kept ref h k p alive (λ e. awaited-ne-blocked id st proper (sym is ∙ e)),
    is,
  )

  All-IsFulfilled-notify :
      (ref : WeakPtr) (h : Heap) (cs : List Condition)
      → All IsAwaitable cs
      → All (IsFulfilled objs h) cs
      → All (IsFulfilled objs (notify objs ref h)) cs
  All-IsFulfilled-notify ref h [] proper met = tt
  All-IsFulfilled-notify ref h (c ∷ cs) proper met =
      (IsFulfilled-notify ref h c proper.0 met.0, All-IsFulfilled-notify ref h cs proper.1 met.1)

  module _ (r : ℕ) (c : ChildProcess) (waits : c.state ≡ blocked)
      (proper : All IsAwaitable c.conditions) where
    abbrev IsReady : Heap → Type 0
    IsReady h = lookup r h ≡ some (as_ready c)

    abbrev MayStart : Heap → Type 0
    MayStart h = ((lookup r h ≡ some c) ⊎ IsReady h) × All (IsFulfilled objs h) c.conditions

    notify-IsReady : (ref : WeakPtr) (h : Heap) → IsReady h → IsReady (notify objs ref h)
    notify-IsReady ref h found = notify-kept ref h r (as_ready c) found (λ e. cc)

    notified : (h : Heap) → (notify_of_state objs h c ≡ c) ⊎ (notify_of_state objs h c ≡ as_ready c)
    notified h = elim (notify_of_state_cases objs h c) [
      | inl kept ↦ inl kept
      | inr (was, met, made) ↦ inr made
    ]

    notify-MayStart : (ref : WeakPtr) (h : Heap) → MayStart h → MayStart (notify objs ref h)
    notify-MayStart ref h (inr found, met) =
        (inr (notify-IsReady ref h found), All-IsFulfilled-notify ref h c.conditions proper met)
    notify-MayStart ref h (inl found, met) = (
      elim (notify_cases objs ref h) [
        | inl same ↦ inl (ap (lookup r) same ∙ found)
        | inr (q, d, here, up) ↦ elim (key_cases r q) [
          | inr other ↦ inl (up.1 r other ∙ found)
          | inl eq ↦
              let is_c : d ≡ c = lookup_same h here eq found in
              let now : lookup r (notify objs ref h) ≡ some (notify_of_state objs h c) =
                ap (λ i. lookup i (notify objs ref h)) eq
                ∙ up.0
                ∙ ap (λ x. some (notify_of_state objs h x)) is_c in
              elim (notified h) [
                | inl kept ↦ inl (now ∙ ap some kept)
                | inr made ↦ inr (now ∙ ap some made)
              ]
        ]
      ],
      All-IsFulfilled-notify ref h c.conditions proper met,
    )

    notify_itself : (h : Heap) → MayStart h → IsReady (notify objs (some r) h)
    notify_itself h (inr found, met) = notify-IsReady (some r) h found
    notify_itself h (inl found, met) =
        let now : lookup r (notify objs (some r) h) ≡ some (notify_of_state objs h c) =
          unfold notify in (Updated-modify r (notify_of_state objs h) h c found).0 in
        let is : (notify_of_state objs h c).state ≡ ready =
          (notify_of_state-ready_iff objs h c).1 (inr (waits, met)) in
        elim (notified h) [
          | inr made ↦ now ∙ ap some made
          | inl kept ↦ absurd (not_both waits (ap (λ (x : ChildProcess). x.state) (sym kept) ∙ is))
        ]
      where
        not_both : {st : ProcessState} → st ≡ blocked → st ≡ ready → ⊥
        not_both e f = cc

    -- When all the processes have been told, the process is ready.
    pub notify_loop-IsReady :
        (refs : List WeakPtr) (h : Heap)
        → Memᴰ (some r) refs
        → lookup r h ≡ some c
        → All (IsFulfilled objs h) c.conditions
        → IsReady (for_each (notify objs) refs h)
    notify_loop-IsReady refs h m here met =
        (for_each_reach MayStart IsReady (notify objs) (some r) refs h m notify-MayStart
          (λ ref t p q. notify-IsReady ref t q) notify_itself (inl here, met)).1
