-- ===== src/Handler/Descriptors/Start.antt =====
-- A start keeps the tables of descriptors in order.
use scinit.Base.{
  ℕ, ℤ, ◌≡◌, ◌≢◌, ◌⊎◌, inl, inr, sym, ap, ◌∙◌, none, some, Map, lookup, insert, nat_key, int_key,
  count, subst, ok, lookup-insert_self, lookup-insert_ne,
}
use scinit.Child.Types.{ready, state_beq_iff, ChildProcess}
use scinit.Child.Fork.{Forked, do_fork}
use scinit.Child.Fork.Branches.{SameProcess, Launched, Refused, do_fork_outcome}
use scinit.Handler.Types.{ProcessHandler}
use scinit.Handler.Accounts.{AccountsOf, same_object}
use scinit.Handler.Start.{StartCalls, after_fork, start_program}
use scinit.Handler.Start.Cases.{
  Updated-insert, start_program_cases, watch_lem, with_forked, after_fork-launched,
  after_fork-refused,
}
use scinit.Handler.Descriptors.{IsUnstarted, DescriptorsOf, Descriptors-update}
use scinit.Handler.Descriptors.Opened.{Descriptors-opened}

-- `pipe` and `openpty` give descriptors that are in no table yet.
abbrev pub OpensNew : Map ℤ ℕ → Forked → Type 0
OpensNew ids f =
    (lookup f.child.stdout.reader ids ≡ none)
    × (lookup f.child.stderr.reader ids ≡ none)
    × (f.child.stderr.reader ≢ f.child.stdout.reader)

after_fork-Descriptors :
    (calls : StartCalls) (r : ℕ) (c : ChildProcess) (f : Forked) (s t : ProcessHandler)
    → AccountsOf s
    → lookup r s.heap ≡ some c
    → OpensNew s.id_for_fd f
    → SameProcess c f.child
    → Launched calls.fork c s.id_for_pid f ⊎ Refused c s.id_for_pid f
    → after_fork calls r f s ≡ ok t
    → DescriptorsOf s
    → DescriptorsOf t
after_fork-Descriptors calls r c f s t a here (out, error, differ) same (inl l) e x =
    let (_, _, _, heap, ids, nums, types, _, _) =
      watch_lem calls f.child (with_forked r f s) t (after_fork-launched calls r f s t l.error e) in
    let id = f.child.graph_id in
    let unused : count id s.id_for_fd ≡ 0 =
      ap (λ i. count i s.id_for_fd) same.graph_id ∙ x.unopened r c here (inr l.was_ready) in
    rw (heap, ids, nums, types)
      (Descriptors-opened s.id_for_fd s.num_fd_for_id s.fd_type f.child.stdout.reader
        f.child.stderr.reader id out error differ unused s.heap (insert r f.child s.heap) r f.child
        (lookup-insert_self r f.child s.heap) l.state
        (λ q e ne found.
          let old = sym (lookup-insert_ne r q f.child s.heap ne) ∙ found in
          (old, λ p. ne (same_object a q r e c old here (p ∙ same.graph_id))))
        x)
after_fork-Descriptors calls r c f s t a here fresh same (inr refused) e x =
    let (y, failed) = refused.error in
    rw (after_fork-refused calls r f s t y failed e) (
      Descriptors-update s.id_for_fd s.num_fd_for_id s.fd_type s.heap (insert r f.child s.heap) r c
        f.child here same.graph_id (subst IsUnstarted refused.state)
        (Updated-insert r f.child s.heap) x)

-- A start that does not end the program keeps the tables of descriptors in order.
pub start_program-Descriptors :
    (calls : ℕ → StartCalls) (r : ℕ) (s t : ProcessHandler)
    → AccountsOf s
    → ((c : ChildProcess)
        → lookup r s.heap ≡ some c
        → c.state ≡ ready
        → OpensNew s.id_for_fd (do_fork (calls r).fork c s.id_for_pid))
    → start_program calls (some r) s ≡ ok t
    → DescriptorsOf s
    → DescriptorsOf t
start_program-Descriptors calls r s t a fresh e x = elim (start_program_cases calls r s t e) [
  | inl same ↦ rw same x
  | inr (c, here, free, begun) ↦
      let (same, outcome) = do_fork_outcome (calls r).fork c s.id_for_pid in
      after_fork-Descriptors (calls r) r c (do_fork (calls r).fork c s.id_for_pid) s t a here
        (fresh c here ((state_beq_iff c.state ready).0 free)) same outcome begun x
]
