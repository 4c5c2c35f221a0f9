-- ===== src/Handler/Start/Kept.antt =====
-- What the second loop of `start_programs` leaves as it is.
use scinit.Base.{
  some-injective, ok, ok-injective, ℕ, ◌≡◌, sym, ap, ◌∙◌, subst, ◌≢◌, inl, inr, true, none, some,
  lookup, nat_key, lookup-insert_ne,
}
use scinit.Child.Types.{ready, state_beq, state_beq_iff, ChildProcess, Heap, WeakPtr}
use scinit.Child.Fork.{do_fork}
use scinit.Handler.Types.{ProcessHandler}
use scinit.Handler.Start.Cases.{start_program_cases, after_fork-heap}
use scinit.Handler.Start.{StartCalls, start_program}

-- The second loop changes only objects that are ready.
abbrev pub Kept : Heap → ProcessHandler → Type 0
Kept h s =
    (r : ℕ) (c : ChildProcess) → lookup r h ≡ some c → c.state ≢ ready → lookup r s.heap ≡ some c

pub start_program-Kept :
    (calls : ℕ → StartCalls) (h : Heap) (ref : WeakPtr) (s t : ProcessHandler)
    → start_program calls ref s ≡ ok t
    → Kept h s
    → Kept h t
start_program-Kept calls h none s t e k r c known ne =
    unfold start_program in subst (Kept h) (ok-injective e) k r c known ne
start_program-Kept calls h (some q) s t e k r c known ne =
    elim (start_program_cases calls q s t e) [
      | inl same ↦ rw same (k r c known ne)
      | inr (d, found, free, begun) ↦
          let made = do_fork (calls q).fork d s.id_for_pid in
          rw ((after_fork-heap (calls q) q made s t begun).0) (
            lookup-insert_ne q r _ s.heap (λ eq. differ eq found (k r c known ne) free)
            ∙ k r c known ne)
    ]
  where
    differ :
        {d : ChildProcess}
        → r ≡ q
        → lookup q s.heap ≡ some d
        → lookup r s.heap ≡ some c
        → state_beq d.state ready ≡ true
        → ⊥
    differ {d} eq x y z =
        let same : some c ≡ some d = sym y ∙ ap (λ p. lookup p s.heap) eq ∙ x in
        ne (
          ap (λ (p : ChildProcess). p.state) (some-injective same)
          ∙ (state_beq_iff d.state ready).0 z)
