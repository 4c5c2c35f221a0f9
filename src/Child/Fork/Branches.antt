-- ===== src/Child/Fork/Branches.antt =====
-- The outcomes of `do_fork`.
use scinit.Base.{
  List, ◌++◌, All, ◌≢◌, ℕ, ℤ, ◌≡◌, refl, ◌⊎◌, inl, inr, Option, none, some, Map, insert, int_key,
  arith, Bool-cases, err, ok,
}
use scinit.Child.Types.{ready, running, state_beq, state_beq_iff, ChildProcess}
use scinit.Child.Env.{Environment, handle_env}
use scinit.Child.Fork.{
  ParentCall, close, set_cloexec, close_writers, ForkError, ForkCalls, name_ptys, open_streams,
  launch, after_streams, Forked, do_fork,
}

-- What `do_fork` leaves alone whatever happens: the identity of the process and what it waits for.
pub record SameProcess (c d : ChildProcess) : Type 0 where
  pub name : d.name ≡ c.name
  pub graph_id : d.graph_id ≡ c.graph_id
  pub type : d.type ≡ c.type
  pub conditions : d.conditions ≡ c.conditions
  pub uid : d.uid ≡ c.uid
  pub gid : d.gid ≡ c.gid

-- The process runs under the pid that `fork` gave, and the pid is registered.
pub record Launched (calls : ForkCalls) (c : ChildProcess) (old : Map ℤ ℕ) (f : Forked)
    : Type 0 where
  pub error : f.error ≡ none
  pub was_ready : c.state ≡ ready
  pub state : f.child.state ≡ running
  pub pid : f.child.primary_pid ≡ calls.fork
  pub reg : f.reg ≡ insert calls.fork c.graph_id old
  pub closes : f.calls ≡ set_cloexec f.child ++ close_writers f.child

abbrev pub ClosesNothing : List ParentCall → Type 0
ClosesNothing made = All (λ call. (fd : ℤ) → call ≢ close fd) made

-- An exception was thrown, and neither the state nor the table of pids has changed. What was opened
-- stays open.
pub record Refused (c : ChildProcess) (old : Map ℤ ℕ) (f : Forked) : Type 0 where
  pub error : (e : ForkError) × (f.error ≡ some e)
  pub state : f.child.state ≡ c.state
  pub reg : f.reg ≡ old
  pub leaks : ClosesNothing f.calls

set_cloexec-ClosesNothing : (c : ChildProcess) → ClosesNothing (set_cloexec c)
set_cloexec-ClosesNothing c = elim (Bool-cases c.want_tty) [
  | inl tty ↦ rw tty tt
  | inr pipes ↦ rw pipes (λ fd e. cc, (λ fd e. cc, tt))
]

name_ptys_keeps :
    (o e : _) (c : ChildProcess)
    → SameProcess c (name_ptys o e c).1 × ((name_ptys o e c).1.state ≡ c.state)
unfolding name_ptys
name_ptys_keeps o e c = ground arith

open_streams_keeps :
    (calls : ForkCalls) (c : ChildProcess)
    → SameProcess c (open_streams calls c).1 × ((open_streams calls c).1.state ≡ c.state)
unfolding open_streams name_ptys
open_streams_keeps calls c = ground arith

after_streams_outcome :
    (calls : ForkCalls) (c : ChildProcess) (s : Option ForkError × ChildProcess) (reg : Map ℤ ℕ)
    → c.state ≡ ready
    → SameProcess c s.1
    → s.1.state ≡ c.state
    → let f = after_streams calls s reg in
      SameProcess c f.child × (Launched calls c reg f ⊎ Refused c reg f)
unfolding after_streams launch
after_streams_outcome calls c (some e, d) reg r same st =
    (same, inr (record { error = (e, refl); state = st; reg = refl; leaks = tt }))
after_streams_outcome calls c (none, d) reg r same st = go (handle_env calls.inja calls.environ d)
  where
    go :
        (env : Environment _)
        → SameProcess c (launch calls env d reg).child
          × (Launched calls c reg (launch calls env d reg) ⊎ Refused c reg (launch calls env d reg))
    go (err e) = (
      same,
      inr (record {
        error = (_, refl);
        state = st;
        reg = refl;
        leaks = set_cloexec-ClosesNothing d;
      }),
    )
    go (ok env) = (
      record {
        name = same.name;
        graph_id = same.graph_id;
        type = same.type;
        conditions = same.conditions;
        uid = same.uid;
        gid = same.gid;
      },
      inl (record {
        error = refl;
        was_ready = r;
        state = refl;
        pid = refl;
        reg = ground arith;
        closes = refl;
      }),
    )

-- `do_fork` either starts a process that was ready, and closes the ends that the child writes; or it
-- throws, leaves the state and the table of pids as they were, and closes none of the descriptors. A pid of -1, for a `fork` that failed, is a start like any other.
pub do_fork_outcome :
    (calls : ForkCalls) (c : ChildProcess) (reg : Map ℤ ℕ)
    → SameProcess c (do_fork calls c reg).child
      × (Launched calls c reg (do_fork calls c reg) ⊎ Refused c reg (do_fork calls c reg))
unfolding do_fork
do_fork_outcome calls c reg = elim (Bool-cases (state_beq c.state ready)) [
  | inl r ↦
      rw (r, do_fork)
        (after_streams_outcome calls c (open_streams calls c) reg
          ((state_beq_iff c.state ready).0 r) (open_streams_keeps calls c).0
          (open_streams_keeps calls c).1)
  | inr n ↦
      rw (n, do_fork)
        (
          record {
            name = refl;
            graph_id = refl;
            type = refl;
            conditions = refl;
            uid = refl;
            gid = refl;
          },
          inr (record { error = (_, refl); state = refl; reg = refl; leaks = tt }),
        )
]
