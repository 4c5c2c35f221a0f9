-- ===== src/Child/Lifecycle/States.antt =====
-- The state machine of src/ChildProcessInterface.h, and when a blocked process becomes ready.
use scinit.Base.{
  ℕ, ◌≡◌, refl, ◌↔◌, ◌⊎◌, inl, inr, true, false, some, List, [], ◌∷◌, arith, lookup, nat_key, Map,
  All, Bool-cases, Option-cases,
}
use scinit.Child.Types.{
  blocked, ready, state_beq, state_beq_iff, Condition, ChildProcess, Heap, WeakPtr, lock,
}
use scinit.Child.Lifecycle.{fulfilled, still_blocked, notify_of_state}

module _ (other_procs : Map ℕ WeakPtr) (h : Heap) where
  -- The process of a condition is registered and alive, and in the state that is waited for.
  abbrev pub IsFulfilled : Condition → Type 0
  IsFulfilled (id, st) =
      (ref : WeakPtr) × (p : ChildProcess) × (lookup id other_procs ≡ some ref)
      × (lock h ref ≡ some p)
      × (p.state ≡ st)

  fulfilled→IsFulfilled : (c : Condition) → fulfilled other_procs h c ≡ true → IsFulfilled c
  unfolding fulfilled
  fulfilled→IsFulfilled (id, st) e = elim (Option-cases (lookup id other_procs)) [
    | inl absent ↦ ground arith
    | inr (ref, found) ↦ elim (Option-cases (lock h ref)) [
      | inl freed ↦ ground arith
      | inr (p, alive) ↦ (ref, p, found, alive, ground (arith, state_beq_iff p.state st))
    ]
  ]

  IsFulfilled→fulfilled : (c : Condition) → IsFulfilled c → fulfilled other_procs h c ≡ true
  unfolding fulfilled
  IsFulfilled→fulfilled (id, st) (ref, p, found, alive, e) =
      ground (arith, state_beq_iff p.state st)

  still_blocked-false :
      (cs : List Condition) → still_blocked other_procs h cs ≡ false → All IsFulfilled cs
  unfolding still_blocked
  still_blocked-false [] e = tt
  still_blocked-false (c ∷ cs) e =
      (fulfilled→IsFulfilled c (ground arith), still_blocked-false cs (ground arith))

  All-still_blocked :
      (cs : List Condition) → All IsFulfilled cs → still_blocked other_procs h cs ≡ false
  unfolding still_blocked
  All-still_blocked [] a = refl
  All-still_blocked (c ∷ cs) a =
      ground (arith, IsFulfilled→fulfilled c a.0, All-still_blocked cs a.1)

  -- After `notify_of_state` a process is ready exactly when it was ready before, or was blocked and
  -- each of its conditions holds at that moment.
  pub notify_of_state-ready_iff :
      (c : ChildProcess)
      → ((notify_of_state other_procs h c).state ≡ ready)
        ↔ ((c.state ≡ ready) ⊎ ((c.state ≡ blocked) × All IsFulfilled c.conditions))
  unfolding notify_of_state
  notify_of_state-ready_iff c = (forth, back)
    where
      forth :
          (notify_of_state other_procs h c).state ≡ ready
          → (c.state ≡ ready) ⊎ ((c.state ≡ blocked) × All IsFulfilled c.conditions)
      forth e = elim (Bool-cases (still_blocked other_procs h c.conditions)) [
        | inl stuck ↦ ground arith
        | inr free ↦
            let met : All IsFulfilled c.conditions = still_blocked-false c.conditions free in
            ground arith
      ]

      back :
          (c.state ≡ ready) ⊎ ((c.state ≡ blocked) × All IsFulfilled c.conditions)
          → (notify_of_state other_procs h c).state ≡ ready
      back (inl e) = ground arith
      back (inr (e, met)) = ground (arith, All-still_blocked c.conditions met)

module _ (other_procs : Map ℕ WeakPtr) (h : Heap) (c : ChildProcess) where
  -- `notify_of_state` changes nothing, or makes ready a blocked process whose conditions hold.
  pub notify_of_state_cases :
      (notify_of_state other_procs h c ≡ c)
      ⊎ ((c.state ≡ blocked)
          × All (IsFulfilled other_procs h) c.conditions
          × (notify_of_state other_procs h c ≡ record c { state = ready }))
  unfolding notify_of_state
  notify_of_state_cases = elim (Bool-cases (state_beq c.state blocked)) [
    | inr other ↦ inl (rw other refl)
    | inl stuck ↦ elim (Bool-cases (still_blocked other_procs h c.conditions)) [
      | inl waits ↦ inl (rw (stuck, waits) refl)
      | inr free ↦ inr (
        (state_beq_iff c.state blocked).0 stuck,
        still_blocked-false other_procs h c.conditions free,
        rw (stuck, free) refl,
      )
    ]
  ]
