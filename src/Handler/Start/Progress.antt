-- ===== src/Handler/Start/Progress.antt =====
-- How `start_programs` moves the processes through their states.
use scinit.Base.{◌≡◌, refl, ok, ℕ, ℤ, inl, inr, Map}
use scinit.Child.Types.{ChildProcess}
use scinit.Child.Lifecycle.Progress.{
  start, Reaches, Reaches-trans, Progress, Reaches-by, one_step, notify_of_state-Reaches,
}
use scinit.Child.Fork.{do_fork}
use scinit.Child.Fork.Branches.{do_fork_outcome}
use scinit.Handler.Types.{ProcessHandler}
use scinit.Handler.Start.{StartCalls, start_programs}
use scinit.Handler.Start.Pointwise.{IsKept, start_programs-Pointwise}

do_fork-Reaches :
    (calls : StartCalls) (c : ChildProcess) (reg : Map ℤ ℕ)
    → Reaches c.state (do_fork calls.fork c reg).child.state
do_fork-Reaches calls c reg = elim (do_fork_outcome calls.fork c reg).1 [
  | inl l ↦ one_step l.was_ready l.state start
  | inr r ↦ Reaches-by refl r.state
]

Reaches-IsKept : IsKept (λ c d. Reaches c.state d.state)
Reaches-IsKept = record {
  same = λ c. Reaches.stay;
  trans = λ c d e p q. Reaches-trans p q;
  told = notify_of_state-Reaches;
  forked = do_fork-Reaches;
}

-- Whatever the system calls answer, a call of `start_programs` that does not end the program keeps each
-- object, in a state that is reached from the one it had by the documented changes of state.
pub start_programs-Progress :
    (calls : ℕ → StartCalls) (s t : ProcessHandler)
    → start_programs calls s ≡ ok t
    → Progress s.heap t.heap
start_programs-Progress = start_programs-Pointwise Reaches-IsKept
