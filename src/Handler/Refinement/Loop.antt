-- ===== src/Handler/Refinement/Loop.antt =====
-- The event loop of src/ProcessHandler.cpp refines the abstract supervisor.
use scinit.Base.{
  ℕ, ℤ, pos, int_beq, ◌≡◌, refl, sym, ap, ◌∙◌, inl, inr, none, some, List, [], ◌∷◌, lookup, nat_key,
  int_key, Bool-cases, erase, dec, with_default, with_default_present, ok, ok-injective, subst,
}
use scinit.Child.Types.{running, ChildProcess, WeakPtr}
use scinit.Supervisor.{View, Step, Steps, stay, update}
use scinit.Handler.Types.{ProcessHandler}
use scinit.Handler.Accounts.{AccountsOf}
use scinit.Handler.Signals.{notify_exit, sigchld_received}
use scinit.Handler.Signals.Exits.{exit_state, sigchld_received_inv}
use scinit.Handler.Events.Hangup.{event_received_same}
use scinit.Handler.Loop.{Round, Run, returned, waiting, faulted, loop}
use scinit.Handler.Loop.Invariant.{RunsWell, IsInvariant, AtEnd, loop_inv}
use scinit.Handler.Loop.Termination.{AccountsOf-IsInvariant}
use scinit.Handler.Refinement.{
  process_of, view, view_of, NamedOf, view_there, view-update, Named-update,
}
use scinit.Handler.Refinement.Start.{FollowsOf, Follows-step, start_programs-Follows}

-- An exit leaves the registration as it is, if the process was registered.
sigchld_received-obj_for_id :
    (pid rc : ℤ) (s t : ProcessHandler) (id : ℕ) (slots : List ℕ) (ref : WeakPtr)
    → lookup pid s.id_for_pid ≡ some id
    → lookup id s.sig_for_id ≡ some slots
    → lookup id s.obj_for_id ≡ some ref
    → sigchld_received pid rc s ≡ ok t
    → t.obj_for_id ≡ s.obj_for_id
unfolding sigchld_received
sigchld_received-obj_for_id pid rc s t id slots ref known wired there e =
    let made : sigchld_received pid rc s
        ≡ ok (record s {
          obj_for_id = with_default id none s.obj_for_id;
          number_of_running_procs = dec s.number_of_running_procs;
          heap = notify_exit rc slots s.heap;
          id_for_pid = erase pid s.id_for_pid;
        }) =
      rw (known, wired, sigchld_received) refl in
    ap (λ (x : ProcessHandler). x.obj_for_id) (ok-injective (sym e ∙ made))
    ∙ with_default_present id none s.obj_for_id there

module _ (v : View) where
  exit-Steps :
      (rc : ℤ) (s t : ProcessHandler) (r : ℕ) (c : ChildProcess)
      → lookup r s.heap ≡ some c
      → c.state ≡ running
      → view s.obj_for_id t.heap
        ≡ update (view_of s) c.graph_id (process_of (record c { state = exit_state rc }))
      → view_of s c.graph_id ≡ some (process_of c)
      → Steps v (view_of s)
      → Steps v (view s.obj_for_id t.heap)
  exit-Steps rc s t r c found runs result there p =
      Follows-step v s.obj_for_id s.heap t.heap p (elim (Bool-cases (int_beq rc (pos 0))) [
        | inl zero_status ↦
            Step.finish c.graph_id (process_of c) there runs (rw zero_status at result)
        | inr other ↦ Step.crash c.graph_id (process_of c) there runs (rw other at result)
      ])

  sigchld_received-Follows :
      (pid rc : ℤ) (s t : ProcessHandler)
      → AccountsOf s
      → sigchld_received pid rc s ≡ ok t
      → FollowsOf v s
      → FollowsOf v t
  sigchld_received-Follows pid rc s t a e (n, p) = elim (sigchld_received_inv pid rc s t a e) [
    | inl same ↦ subst (FollowsOf v) same (n, p)
    | inr (id, r, c, x) ↦
        let object : lookup id s.obj_for_id ≡ some (some r) =
          ap (λ i. lookup i s.obj_for_id) (sym x.its_id) ∙ n.known r c x.found in
        let same_objs =
          sigchld_received-obj_for_id pid rc s t id (r ∷ []) (some r) x.known x.slots object e in
        let d = record c { state = exit_state rc } in
        rw same_objs (
          Named-update n r c d t.heap x.found refl x.updated,
          exit-Steps rc s t r c x.found x.runs (view-update n r c d t.heap x.found refl x.updated)
              (view_there n r c d t.heap x.found refl x.updated) p,
        )
  ]

  Follows-IsInvariant : IsInvariant (λ s. AccountsOf s × FollowsOf v s)
  Follows-IsInvariant = record {
    start = λ calls s t w e (a, f).
        (AccountsOf-IsInvariant.start calls s t w e a, start_programs-Follows v calls s t e f);
    exit = λ pid rc s t e (a, f).
        (AccountsOf-IsInvariant.exit pid rc s t e a, sigchld_received-Follows pid rc s t a e f);
    event = λ e s t h (a, f).
        let (_, _, _, heap, _, objs) = event_received_same e s {t = t} h in
        (AccountsOf-IsInvariant.event e s t h a, rw (objs, heap) f);
  }

-- The supervisor gets from the one view to what the handler shows when the loop has returned, or
-- waits for its next round.
abbrev pub Behaves : View → Run → Type 0
Behaves v (returned t) = Steps v (view_of t)
Behaves v (waiting t) = Steps v (view_of t)
Behaves v (faulted e) = Unit

AtEnd-Behaves : (v : View) (r : Run) → AtEnd (λ s. AccountsOf s × FollowsOf v s) r → Behaves v r
AtEnd-Behaves v (returned t) ((a, (n, p)), idle) = p
AtEnd-Behaves v (waiting t) (a, (n, p)) = p
AtEnd-Behaves v (faulted e) u = tt

pub loop-Behaves_from :
    (v : View) (rounds : List Round) (s : ProcessHandler)
    → RunsWell rounds s
    → AccountsOf s
    → FollowsOf v s
    → Behaves v (loop rounds s)
loop-Behaves_from v rounds s w a f =
    AtEnd-Behaves v (loop rounds s) (loop_inv (Follows-IsInvariant v) rounds s w (a, f))

-- The event loop refines the abstract supervisor: whatever the system answers and whatever exits and
-- events come, what the handler shows of its processes changes by the steps of the supervisor only, if
-- the starts get new pids.
pub loop-Behaves :
    (rounds : List Round) (s : ProcessHandler)
    → RunsWell rounds s
    → AccountsOf s
    → NamedOf s
    → Behaves (view_of s) (loop rounds s)
loop-Behaves rounds s w a n = loop-Behaves_from (view_of s) rounds s w a (n, stay refl)
