-- ===== src/Child/Lifecycle/Conditions.antt =====
-- What a process waits for: the laws of `should_wait_for`.
use scinit.Base.{
  ℕ, ◌==◌, ==_iff, if◌then◌else◌, ◌≡◌, refl, true, false, Option, none, some, List, [], ◌∷◌, ◌++◌,
  arith, lookup, nat_key, Bool-cases, inl, inr, Distinct,
}
use scinit.Child.Types.{ProcessState, Condition, ChildProcess}
use scinit.Child.Lifecycle.{contains_condition, should_wait_for}

-- The first of two optional values that is there.
abbrev pub or_else {ℓ} : {A : Type ℓ} → Option A → Option A → Option A
or_else (some a) o = some a
or_else none o = o

lookup-contains_condition :
    (k : ℕ) (cs : List Condition)
    → contains_condition k cs ≡ elim (lookup k cs) [ none ↦ false | some st ↦ true ]
unfolding contains_condition lookup
lookup-contains_condition k [] = refl
lookup-contains_condition k ((id, st) ∷ cs) = ground (arith, lookup-contains_condition k cs)

lookup-snoc :
    (k o : ℕ) (st : ProcessState) (cs : List Condition)
    → lookup k (cs ++ (o, st) ∷ []) ≡ or_else (lookup k cs) (if o == k then some st else none)
unfolding lookup
lookup-snoc k o st [] = refl
lookup-snoc k o st ((id, s) ∷ cs) = ground (arith, lookup-snoc k o st cs)

Distinct-snoc :
    (o : ℕ) (st : ProcessState) (cs : List Condition)
    → lookup o cs ≡ none
    → Distinct cs
    → Distinct (cs ++ (o, st) ∷ [])
unfolding lookup
Distinct-snoc o st [] h d = (refl, tt)
Distinct-snoc o st ((id, s) ∷ cs) h d =
    (ground (arith, lookup-snoc id o st cs), Distinct-snoc o st cs (ground arith) (d.1))

-- A new dependency is added, and for a process that is already waited for nothing changes: the
-- first state that was asked for stays.
pub lookup-should_wait_for :
    (k o : ℕ) (st : ProcessState) (c : ChildProcess)
    → lookup k (should_wait_for o st c).conditions
      ≡ or_else (lookup k c.conditions) (if o == k then some st else none)
unfolding should_wait_for
lookup-should_wait_for k o st c =
    ground
      (arith, ==_iff o k, lookup-contains_condition o c.conditions, lookup-snoc k o st c.conditions)

-- If the conditions of a process are on pairwise different processes, so they are afterwards.
should_wait_for-Distinct :
    (o : ℕ) (st : ProcessState) (c : ChildProcess)
    → Distinct c.conditions
    → Distinct (should_wait_for o st c).conditions
unfolding should_wait_for
should_wait_for-Distinct o st c d = elim (Bool-cases (contains_condition o c.conditions)) [
  | inl e ↦ rw e d
  | inr e ↦
      rw e (
        Distinct-snoc o st c.conditions (ground (arith, lookup-contains_condition o c.conditions))
          d)
]
