-- ===== src/Handler/Loop/Termination.antt =====
-- When `enter_eventloop` returns: no child is left.
use scinit.Base.{
  ℕ, ℤ, pos, int_beq_iff, ◌≡◌, refl, sym, ap, ◌∙◌, ◌≢◌, true, false, some, List, [], ◌∷◌, arith,
  Map, lookup, nat_key, int_key, length, ok, ok-injective, subst,
}
use scinit.Child.Types.{running, ChildProcess}
use scinit.Handler.Types.{ProcessHandler}
use scinit.Handler.Accounts.{AccountsOf}
use scinit.Handler.Signals.Exits.{sigchld_received-Accounts}
use scinit.Handler.Events.Hangup.{SameAccounts, event_received_same}
use scinit.Handler.Start.{notify_all}
use scinit.Handler.Start.Accounts.{AllStartWell, start_programs-Accounts}
use scinit.Handler.Loop.Invariant.{RunsWell, IsInvariant, AtEnd, serve_inv, loop_inv}
use scinit.Handler.Loop.{Round, serve, is_idle, returned, decide_exit, loop}

same→Accounts : (s t : ProcessHandler) → SameAccounts s t → AccountsOf s → AccountsOf t
same→Accounts s t (n, pids, sigs, heap, all, objs) a = rw (n, pids, sigs, heap) a

-- The bookkeeping is an invariant of the loop.
pub AccountsOf-IsInvariant : IsInvariant AccountsOf
AccountsOf-IsInvariant = record {
  start = start_programs-Accounts;
  exit = λ pid rc s t e a.
      let (u, result, b) = sigchld_received-Accounts pid rc s a in
      subst AccountsOf (ok-injective (sym result ∙ e)) b;
  event = λ e s t h a. same→Accounts s t (event_received_same e s {t = t} h) a;
}

-- What is left when the loop has returned.
pub record NothingLeft (t : ProcessHandler) : Type 0 where
  pub no_pid : t.id_for_pid ≡ []
  pub no_process : (r : ℕ) (c : ChildProcess) → lookup r t.heap ≡ some c → c.state ≢ running

-- With the bookkeeping in order, nothing is left when the counter is 0.
pub idle-NothingLeft : (t : ProcessHandler) → AccountsOf t → is_idle t ≡ true → NothingLeft t
idle-NothingLeft t a idle =
    let none_counted = (int_beq_iff t.number_of_running_procs (pos 0)).0 idle in
    let empty : t.id_for_pid ≡ [] = empty_of (pos-injective (sym a.counted ∙ none_counted)) in
    record {
      no_pid = empty;
      no_process = λ r c found runs.
          let (pid, known) = a.supervised r c found runs in
          not_in_empty pid (sym (ap (lookup pid) empty) ∙ known);
    }
  where
    pos-injective : {m n : ℕ} → pos m ≡ pos n → m ≡ n
    pos-injective p = ground arith

    empty_of : {m : Map ℤ ℕ} → length m ≡ 0 → m ≡ []
    empty_of p = ground arith

    not_in_empty : (pid : ℤ) {id : ℕ} → lookup {V = ℕ} pid [] ≡ some id → ⊥
    not_in_empty pid p = unfold lookup in cc

-- If the event loop returns, no pid is registered any more and no object is in the state RUNNING, as
-- long as each start gets a new pid. Failures of other calls, unknown pids and any events are allowed.
pub loop-NothingLeft :
    (rounds : List Round) (s t : ProcessHandler)
    → RunsWell rounds s
    → AccountsOf s
    → loop rounds s ≡ returned t
    → NothingLeft t
loop-NothingLeft rounds s t w a e =
    let ends : AtEnd AccountsOf (returned t) =
      rw e at (loop_inv AccountsOf-IsInvariant rounds s w a) in
    idle-NothingLeft t ends.0 ends.1

-- When scinit is to quit, the loop returns after the round in which the last pid has been reaped, and
-- goes on after every other round: it neither waits longer nor leaves a registered child behind.
pub loop_quits :
    (round : Round) (rounds : List Round) (s t : ProcessHandler)
    → AllStartWell round.starts s.all_objs (notify_all s)
    → AccountsOf s
    → serve round s ≡ ok t
    → t.should_quit ≡ true
    → (t.id_for_pid ≡ [] → loop (round ∷ rounds) s ≡ returned t)
      × (t.id_for_pid ≢ [] → loop (round ∷ rounds) s ≡ loop rounds t)
unfolding loop decide_exit
loop_quits round rounds s t w a e quit = (
  (λ empty. rw (e, quit, idle empty, loop, decide_exit) refl),
  λ left. rw (e, quit, busy left, loop, decide_exit) refl,
)
  where
    b : AccountsOf t
    b = serve_inv AccountsOf-IsInvariant round s t w e a

    idle : t.id_for_pid ≡ [] → is_idle t ≡ true
    idle empty = ground (arith, b.counted, int_beq_iff t.number_of_running_procs (pos 0))

    busy : t.id_for_pid ≢ [] → is_idle t ≡ false
    busy left = ground (arith, b.counted, int_beq_iff t.number_of_running_procs (pos 0))
