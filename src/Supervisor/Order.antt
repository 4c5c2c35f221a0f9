-- ===== src/Supervisor/Order.antt =====
-- What every run of the abstract supervisor keeps to: the order of the starts.
use scinit.Base.{
  some-injective, ℕ, ◌≡◌, refl, sym, ap, ◌∙◌, ◌≢◌, inl, inr, false, some, List, [], ◌∷◌, All, arith,
  subst, key_cases, nat_key, beq_refl, beq-false, Bool-cases, lookup, ==_iff, ◌==◌,
}
use scinit.Child.Types.{
  ProcessState, blocked, ready, running, done, crashed, state_beq, state_beq_iff, Condition,
}
use scinit.Child.Lifecycle.Progress.{Transition, Reaches, Reaches-trans, Reaches-by, one_step}
use scinit.Supervisor.{
  Process, View, update, enter, IsMet, Step, unblock, start, finish, crash, Steps, stay, step,
}

-- What holds of all conditions holds of the one on a process.
pub All-lookup :
    (P : Condition → Type 0) (cs : List Condition) (id : ℕ) (st : ProcessState)
    → lookup id cs ≡ some st
    → All P cs
    → P (id, st)
unfolding lookup
All-lookup P [] id st e a = absurd (cc e)
All-lookup P ((k, s) ∷ cs) id st e a = elim (Bool-cases (k == id)) [
  | inr other ↦ All-lookup P cs id st (rw other at e) a.1
  | inl same ↦
      subst (λ x. P (id, x)) (some-injective (rw same at e))
        (subst (λ x. P (x, s)) ((==_iff k id).0 same) a.0)
]

pub Steps-trans : {u v w : View} → Steps u v → Steps v w → Steps u w
Steps-trans {u} {v} {w} (stay e) q = subst (λ x. Steps x w) e q
Steps-trans (step m p) q = step m (Steps-trans p q)

-- A step changes the state of one process, by a documented change of state.
pub record Moved (v w : View) : Type 0 where
  pub id : ℕ
  pub process : Process
  pub after : ProcessState
  pub there : v id ≡ some process
  pub by : Transition process.state after
  pub result : w ≡ update v id (enter process after)

Moved-by :
    {v w : View} (id : ℕ) (p : Process) {st st' : ProcessState}
    → v id ≡ some p
    → p.state ≡ st
    → Transition st st'
    → w ≡ update v id (enter p st')
    → Moved v w
Moved-by id p {st} {st'} there was by result = record {
  id = id;
  process = p;
  after = st';
  there = there;
  by = subst (λ x. Transition x st') (sym was) by;
  result = result;
}

Step-Moved : {v w : View} → Step v w → Moved v w
Step-Moved (unblock id p there was met e) = Moved-by id p there was Transition.unblock e
Step-Moved (start id p there was e) = Moved-by id p there was Transition.start e
Step-Moved (finish id p there was e) = Moved-by id p there was Transition.finish e
Step-Moved (crash id p there was e) = Moved-by id p there was Transition.crash e

-- What becomes of a process: it is there, waits for the same others, and its state goes on.
abbrev Onward : View → ℕ → Process → Type 0
Onward w k p =
    (q : Process) × (w k ≡ some q) × (q.conditions ≡ p.conditions) × Reaches p.state q.state

Moved-Onward : {v w : View} → Moved v w → (k : ℕ) (p : Process) → v k ≡ some p → Onward w k p
Moved-Onward {v} {w} m k p there = elim (key_cases k m.id) [
  | inr ne ↦ (
    p,
    ap (λ x. x k) m.result ∙ rw (beq-false m.id k (λ e. ne (sym e))) there,
    refl,
    Reaches.stay,
  )
  | inl eq ↦
      let same : m.process ≡ p = some-injective (sym m.there ∙ ap v (sym eq) ∙ there) in
      (
        enter m.process m.after,
        ap (λ x. x k) m.result ∙ rw (eq, beq_refl m.id) refl,
        ap (λ (x : Process). x.conditions) same,
        one_step (ap (λ (x : Process). x.state) (sym same)) refl m.by,
      )
]

Steps-Onward : {v w : View} → Steps v w → (k : ℕ) (p : Process) → v k ≡ some p → Onward w k p
Steps-Onward (stay e) k p there = (p, ap (λ x. x k) e ∙ there, refl, Reaches.stay)
Steps-Onward (step m rest) k p there =
    let (q, found, waits, reach) = Moved-Onward (Step-Moved m) k p there in
    let (q', found', waits', reach') = Steps-Onward rest k q found in
    (q', found', waits' ∙ waits, Reaches-trans reach reach')

-- The process that is waited for has been in the state that is waited for.
abbrev pub HasBeen : View → Condition → Type 0
HasBeen v (id, st) = (p : Process) × (v id ≡ some p) × Reaches st p.state

HasBeen-Steps : {v w : View} → Steps v w → (c : Condition) → HasBeen v c → HasBeen w c
HasBeen-Steps m (id, st) (p, there, reach) =
    let (q, found, waits, on) = Steps-Onward m id p there in (q, found, Reaches-trans reach on)

All-HasBeen :
    {v w : View} → Steps v w → (cs : List Condition) → All (IsMet v) cs → All (HasBeen w) cs
All-HasBeen m [] met = tt
All-HasBeen m ((id, st) ∷ cs) ((p, there, is), rest) =
    (HasBeen-Steps m (id, st) (p, there, Reaches-by (sym is) refl), All-HasBeen m cs rest)

-- A step that does not unblock the process at `k` leaves it BLOCKED.
stays_blocked :
    (v w : View) (k id : ℕ) (p p' q : Process) (st after : ProcessState)
    → v k ≡ some p
    → p.state ≡ blocked
    → v id ≡ some p'
    → p'.state ≡ st
    → st ≢ blocked
    → w ≡ update v id (enter p' after)
    → w k ≡ some q
    → q.state ≡ blocked
stays_blocked v w k id p p' q st after there was its is other result found = elim (key_cases k id) [
  | inl eq ↦
      let same : p' ≡ p = some-injective (sym its ∙ ap v (sym eq) ∙ there) in
      absurd (other (sym is ∙ ap (λ (x : Process). x.state) same ∙ was))
  | inr ne ↦
      let kept : w k ≡ v k = ap (λ x. x k) result ∙ rw (beq-false id k (λ e. ne (sym e))) refl in
      ap (λ (x : Process). x.state) (some-injective (sym found ∙ kept ∙ there)) ∙ was
]

-- The step that ends the waiting of a process is made while its conditions hold.
first_move :
    {v w : View} (k : ℕ) (p q : Process)
    → Step v w
    → v k ≡ some p
    → p.state ≡ blocked
    → w k ≡ some q
    → q.state ≢ blocked
    → All (IsMet v) p.conditions
first_move {v} {w} k p q (unblock id p' its is met result) there was found moved =
    elim (key_cases k id) [
      | inl eq ↦
          let same : p' ≡ p = some-injective (sym its ∙ ap v (sym eq) ∙ there) in
          subst (λ (x : Process). All (IsMet v) x.conditions) same met
      | inr ne ↦
          let kept : w k ≡ v k =
            ap (λ x. x k) result ∙ rw (beq-false id k (λ e. ne (sym e))) refl in
          absurd (
            moved (ap (λ (x : Process). x.state) (some-injective (sym found ∙ kept ∙ there)) ∙ was))
    ]
first_move k p q (start id p' its is result) there was found moved =
    absurd
      (moved (stays_blocked _ _ k id p p' q ready running there was its is (λ e. cc) result found))
first_move k p q (finish id p' its is result) there was found moved =
    absurd
      (moved (stays_blocked _ _ k id p p' q running done there was its is (λ e. cc) result found))
first_move k p q (crash id p' its is result) there was found moved =
    absurd (
      moved (stays_blocked _ _ k id p p' q running crashed there was its is (λ e. cc) result found))

-- However the supervisor runs, a process that was BLOCKED and is so no longer waited: each process
-- that it waits for is there, and has come to the state that is waited for.
pub Steps-HasBeen :
    {v w : View} (id : ℕ) (p q : Process)
    → Steps v w
    → v id ≡ some p
    → p.state ≡ blocked
    → w id ≡ some q
    → q.state ≢ blocked
    → All (HasBeen w) p.conditions
Steps-HasBeen id p q (stay e) there was found moved =
    let same : p ≡ q = some-injective (sym there ∙ sym (ap (λ x. x id) e) ∙ found) in
    absurd (moved (ap (λ (x : Process). x.state) (sym same) ∙ was))
Steps-HasBeen id p q (step m rest) there was found moved =
    let (p', here, waits, reach) = Moved-Onward (Step-Moved m) id p there in
    elim (Bool-cases (state_beq p'.state blocked)) [
      | inl still ↦
          subst (All (HasBeen _)) waits
            (Steps-HasBeen id p' q rest here ((state_beq_iff p'.state blocked).0 still) found moved)
      | inr free ↦
          All-HasBeen (step m rest) p.conditions
            (first_move id p p' m there was here (not_blocked p'.state free))
    ]
  where
    not_blocked : (st : ProcessState) → state_beq st blocked ≡ false → st ≢ blocked
    not_blocked st f e = ground (arith, state_beq_iff st blocked)
