-- ===== src/Handler/Start/GoesOn.antt =====
-- A process that has not ended goes on: it does not end by a call of `start_programs`.
use scinit.Base.{ℕ, ℤ, ◌≡◌, ◌⊎◌, refl, sym, ◌∙◌, inl, inr, Map, nat_key, subst}
use scinit.Child.Types.{ProcessState, blocked, ready, running, ChildProcess, Heap, WeakPtr}
use scinit.Child.Lifecycle.States.{notify_of_state_cases}
use scinit.Child.Lifecycle.{notify_of_state}
use scinit.Child.Fork.{do_fork}
use scinit.Child.Fork.Branches.{do_fork_outcome}
use scinit.Handler.Start.{StartCalls}
use scinit.Handler.Start.Pointwise.{IsKept}

abbrev pub IsOpen : ProcessState → Type 0
IsOpen st = (st ≡ blocked) ⊎ (st ≡ ready) ⊎ (st ≡ running)

-- The process is the same and waits for the same others, and it has not ended.
pub record GoesOn (c d : ChildProcess) : Type 0 where
  pub conditions : d.conditions ≡ c.conditions
  pub open_still : IsOpen c.state → IsOpen d.state
  pub runs_still : c.state ≡ running → d.state ≡ running

notify_of_state-GoesOn :
    (objs : Map ℕ WeakPtr) (h : Heap) (c : ChildProcess) → GoesOn c (notify_of_state objs h c)
notify_of_state-GoesOn objs h c = elim (notify_of_state_cases objs h c) [
  | inl kept ↦
      subst (GoesOn c) (sym kept)
        (record { conditions = refl; open_still = λ o. o; runs_still = λ e. e })
  | inr (was, met, made) ↦ subst (GoesOn c) (sym made) (record {
    conditions = refl;
    open_still = λ o. inr (inl refl);
    runs_still = λ e. absurd (differ (sym was ∙ e));
  })
]
  where
    differ : blocked ≡ running → ⊥
    differ e = cc

do_fork-GoesOn :
    (calls : StartCalls) (c : ChildProcess) (reg : Map ℤ ℕ)
    → GoesOn c (do_fork calls.fork c reg).child
do_fork-GoesOn calls c reg =
    let (same, outcome) = do_fork_outcome calls.fork c reg in
    elim outcome [
      | inl l ↦ record {
        conditions = same.conditions;
        open_still = λ o. inr (inr l.state);
        runs_still = λ e. l.state;
      }
      | inr r ↦ record {
        conditions = same.conditions;
        open_still = λ o. subst IsOpen (sym r.state) o;
        runs_still = λ e. r.state ∙ e;
      }
    ]

pub GoesOn-IsKept : IsKept GoesOn
GoesOn-IsKept = record {
  same = λ c. record { conditions = refl; open_still = λ o. o; runs_still = λ e. e };
  trans = λ c d e p q. record {
    conditions = q.conditions ∙ p.conditions;
    open_still = λ o. q.open_still (p.open_still o);
    runs_still = λ x. q.runs_still (p.runs_still x);
  };
  told = notify_of_state-GoesOn;
  forked = do_fork-GoesOn;
}
