-- ===== src/Handler/Loop/Progress.antt =====
-- How the event loop moves the processes through their states.
use scinit.Base.{
  ℤ, pos, ◌≡◌, refl, sym, inl, inr, List, ok, nat_key, int_key, int_beq, Bool-cases, subst,
}
use scinit.Child.Types.{running, Heap}
use scinit.Child.Lifecycle.Progress.{
  Transition, finish, crash, Progress, Progress-refl, Progress-trans, one_step, update-Progress,
}
use scinit.Handler.Types.{ProcessHandler}
use scinit.Handler.Accounts.{AccountsOf}
use scinit.Handler.Signals.{sigchld_received}
use scinit.Handler.Signals.Exits.{exit_state, sigchld_received_inv}
use scinit.Handler.Events.Hangup.{event_received_same}
use scinit.Handler.Start.Progress.{start_programs-Progress}
use scinit.Handler.Loop.{Round, Run, returned, waiting, faulted, loop}
use scinit.Handler.Loop.Invariant.{RunsWell, IsInvariant, AtEnd, loop_inv}
use scinit.Handler.Loop.Termination.{AccountsOf-IsInvariant}

exit-Transition : (rc : ℤ) → Transition running (exit_state rc)
exit-Transition rc = elim (Bool-cases (int_beq rc (pos 0))) [
  | inl zero_status ↦ rw zero_status finish
  | inr other ↦ rw other crash
]

sigchld_received-Progress :
    (pid rc : ℤ) (s t : ProcessHandler)
    → AccountsOf s
    → sigchld_received pid rc s ≡ ok t
    → Progress s.heap t.heap
sigchld_received-Progress pid rc s t a e = elim (sigchld_received_inv pid rc s t a e) [
  | inl same ↦ subst (λ (x : ProcessHandler). Progress s.heap x.heap) same (Progress-refl s.heap)
  | inr (id, r, c, x) ↦
      update-Progress s.heap t.heap r c (record c { state = exit_state rc }) x.found x.updated.0
        x.updated.1 (one_step x.runs refl (exit-Transition rc))
]

abbrev Follows : Heap → ProcessHandler → Type 0
Follows g s = AccountsOf s × Progress g s.heap

Follows-IsInvariant : (g : Heap) → IsInvariant (Follows g)
Follows-IsInvariant g = record {
  start = λ calls s t w e (a, p). (
    AccountsOf-IsInvariant.start calls s t w e a,
    Progress-trans g s.heap t.heap p (start_programs-Progress calls s t e),
  );
  exit = λ pid rc s t e (a, p). (
    AccountsOf-IsInvariant.exit pid rc s t e a,
    Progress-trans g s.heap t.heap p (sigchld_received-Progress pid rc s t a e),
  );
  event = λ e s t h (a, p).
      let (_, _, _, same, _, _) = event_received_same e s {t = t} h in
      (AccountsOf-IsInvariant.event e s t h a, subst (Progress g) (sym same) p);
}

-- The objects of the handler with which the loop ends, or waits for the next round.
abbrev pub Onward : Heap → Run → Type 0
Onward h (returned t) = Progress h t.heap
Onward h (waiting t) = Progress h t.heap
Onward h (faulted e) = Unit

AtEnd-Onward : (g : Heap) (r : Run) → AtEnd (Follows g) r → Onward g r
AtEnd-Onward g (returned t) ((a, p), idle) = p
AtEnd-Onward g (waiting t) (a, p) = p
AtEnd-Onward g (faulted e) u = tt

-- Whatever happens in the rounds of the loop, each object is kept, and its state is reached from the one
-- it had by the documented changes of state: from BLOCKED to READY, to RUNNING, and to DONE or CRASHED,
-- where it stays. The starts get new pids.
pub loop-Onward :
    (rounds : List Round) (s : ProcessHandler)
    → RunsWell rounds s
    → AccountsOf s
    → Onward s.heap (loop rounds s)
loop-Onward rounds s w a =
    AtEnd-Onward s.heap (loop rounds s)
      (loop_inv (Follows-IsInvariant s.heap) rounds s w (a, Progress-refl s.heap))
