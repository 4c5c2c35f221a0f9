-- ===== src/Supervisor/Deadlock.antt =====
-- Processes that wait for each other.
use scinit.Base.{some-injective, ℕ, ◌≡◌, ◌≢◌, sym, ap, ◌∙◌, some, subst, lookup, nat_key, beq-false}
use scinit.Child.Types.{ProcessState, blocked}
use scinit.Supervisor.{
  Process, View, update, IsMet, Step, unblock, start, finish, crash, Steps, stay, step,
}
use scinit.Supervisor.Order.{All-lookup}

-- Each process of the set is BLOCKED, and waits for one of the set to be no longer so.
abbrev pub Stuck : View → (ℕ → Type 0) → Type 0
Stuck v S =
    (id : ℕ)
    → S id
    → (p : Process) × (v id ≡ some p)
      × (p.state ≡ blocked)
      × ((other : ℕ) × (st : ProcessState) × S other
          × (lookup other p.conditions ≡ some st)
          × (st ≢ blocked))

-- A step of a process outside of the set leaves the set as it is.
Stuck-update :
    (v w : View) (S : ℕ → Type 0) (id : ℕ) (p : Process)
    → (S id → ⊥)
    → w ≡ update v id p
    → Stuck v S
    → Stuck w S
Stuck-update v w S id p outside e stuck k m =
    let (q, there, is, waits) = stuck k m in
    (
      q,
      ap (λ x. x k) e ∙ rw (beq-false id k (λ same. outside (subst S (sym same) m))) there,
      is,
      waits,
    )

-- A process that is not BLOCKED is not in the set.
outside :
    (v : View) (S : ℕ → Type 0) (id : ℕ) (p : Process) {st : ProcessState}
    → Stuck v S
    → v id ≡ some p
    → p.state ≡ st
    → st ≢ blocked
    → S id
    → ⊥
outside v S id p stuck there is ne m =
    let (q, found, was, _) = stuck id m in
    ne (sym is ∙ ap (λ (x : Process). x.state) (some-injective (sym there ∙ found)) ∙ was)

Step-Stuck : {v w : View} (S : ℕ → Type 0) → Step v w → Stuck v S → Stuck w S
Step-Stuck {v} {w} S (start id p there is e) stuck =
    Stuck-update v w S id _ (outside v S id p stuck there is (λ q. cc)) e stuck
Step-Stuck {v} {w} S (finish id p there is e) stuck =
    Stuck-update v w S id _ (outside v S id p stuck there is (λ q. cc)) e stuck
Step-Stuck {v} {w} S (crash id p there is e) stuck =
    Stuck-update v w S id _ (outside v S id p stuck there is (λ q. cc)) e stuck
Step-Stuck {v} {w} S (unblock id p there is met e) stuck = Stuck-update v w S id _ not_met e stuck
  where
    not_met : S id → ⊥
    not_met m =
        let (q, found, _, (other, st, n, waits, ne)) = stuck id m in
        let same : q ≡ p = some-injective (sym found ∙ there) in
        let (p', its, is_st) =
          All-lookup (IsMet v) p.conditions other st
            (ap (λ (x : Process). lookup other x.conditions) (sym same) ∙ waits) met in
        outside v S other p' stuck its is_st ne n

-- However the supervisor runs, such a set of processes stays BLOCKED.
pub Steps-Stuck : {v w : View} (S : ℕ → Type 0) → Steps v w → Stuck v S → Stuck w S
Steps-Stuck S (stay e) stuck = subst (λ x. Stuck x S) (sym e) stuck
Steps-Stuck S (step m rest) stuck = Steps-Stuck S rest (Step-Stuck S m stuck)
