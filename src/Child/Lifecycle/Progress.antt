-- ===== src/Child/Lifecycle/Progress.antt =====
-- The state machine of src/ChildProcessInterface.h as a relation, and its runs.
use scinit.Base.{
  lookup_same, ℕ, ◌≡◌, refl, sym, ap, ◌∙◌, ◌≢◌, inl, inr, some, Map, lookup, nat_key, key_cases,
  subst,
}
use scinit.Child.Types.{
  ProcessState, blocked, ready, running, done, crashed, ChildProcess, Heap, WeakPtr,
}
use scinit.Child.Lifecycle.{notify_of_state}
use scinit.Child.Lifecycle.States.{notify_of_state_cases}

-- The changes of state that the interface documents. At an exit the code tells the two outcomes
-- apart by the exit status, and not by the type of the process.
pub data Transition : ProcessState → ProcessState → Type 0 where
  unblock : Transition blocked ready
  start : Transition ready running
  finish : Transition running done
  crash : Transition running crashed

-- A state is reached from another one by the documented changes of state.
pub data Reaches : ProcessState → ProcessState → Type 0 where
  stay : {s : ProcessState} → Reaches s s
  move : {s t u : ProcessState} → Transition s t → Reaches t u → Reaches s u

pub Reaches-trans : {s t u : ProcessState} → Reaches s t → Reaches t u → Reaches s u
Reaches-trans stay q = q
Reaches-trans (move m p) q = move m (Reaches-trans p q)

-- Every object is still there, in a state that is reached from the one it had.
abbrev pub Progress : Heap → Heap → Type 0
Progress g h =
    (r : ℕ) (c : ChildProcess)
    → lookup r g ≡ some c
    → (d : ChildProcess) × (lookup r h ≡ some d) × Reaches c.state d.state

pub Progress-refl : (h : Heap) → Progress h h
Progress-refl h r c e = (c, e, stay)

pub Progress-trans : (f g h : Heap) → Progress f g → Progress g h → Progress f h
Progress-trans f g h p q r c e =
    let (d, found, there) = p r c e in
    let (d', found', on) = q r d found in (d', found', Reaches-trans there on)

pub Reaches-by : {s t u : ProcessState} → s ≡ t → u ≡ t → Reaches s u
Reaches-by {s} p q = subst (Reaches s) (p ∙ sym q) stay

pub one_step : {s s' t t' : ProcessState} → s ≡ s' → t ≡ t' → Transition s' t' → Reaches s t
one_step {s} {s'} {t} {t'} p q m =
    subst (λ a. Reaches a t) (sym p) (subst (Reaches s') (sym q) (move m stay))

-- An update of one object.
pub update-Progress :
    (g h : Heap) (r : ℕ) (c d : ChildProcess)
    → lookup r g ≡ some c
    → lookup r h ≡ some d
    → ((q : ℕ) → q ≢ r → lookup q h ≡ lookup q g)
    → Reaches c.state d.state
    → Progress g h
update-Progress g h r c d here there others reach q e found = elim (key_cases q r) [
  | inr ne ↦ (e, others q ne ∙ found, stay)
  | inl eq ↦
      let same : c ≡ e = lookup_same g here eq found in
      (
        d,
        ap (λ k. lookup k h) eq ∙ there,
        subst (λ (x : ChildProcess). Reaches x.state d.state) same reach,
      )
]

pub notify_of_state-Reaches :
    (objs : Map ℕ WeakPtr) (h : Heap) (c : ChildProcess)
    → Reaches c.state (notify_of_state objs h c).state
notify_of_state-Reaches objs h c = elim (notify_of_state_cases objs h c) [
  | inl kept ↦ Reaches-by refl (ap (λ (x : ChildProcess). x.state) kept)
  | inr (was_blocked, met, made) ↦
      one_step was_blocked (ap (λ (x : ChildProcess). x.state) made) unblock
]
