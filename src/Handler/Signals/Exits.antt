-- ===== src/Handler/Signals/Exits.antt =====
-- What `sigchld_received` does for a child of ours, and for any other process.
use scinit.Base.{
  ℕ, ℤ, pos, int_beq, dec, beq_refl, beq-false, if◌then◌else◌, ◌≡◌, refl, sym, ◌≢◌, none, some, [],
  ◌∷◌, arith, lookup, erase, modify, nat_key, int_key, for_each, lookup-modify, with_default,
  Option-cases, ◌⊎◌, subst, ok-injective, inl, inr, ap, ◌∙◌, ok,
}
use scinit.Handler.Accounts.{AccountsOf, Updated}
use scinit.Handler.Accounts.Exit.{Accounts-exit}
use scinit.Child.Types.{exit, done, crashed, running, ProcessState, ChildProcess}
use scinit.Child.Lifecycle.{handle_process_event}
use scinit.Handler.Types.{ProcessHandler}
use scinit.Handler.Signals.{sigchld_received}

abbrev pub exit_state : ℤ → ProcessState
exit_state rc = if int_beq rc (pos 0) then done else crashed

-- The exit of a child whose one object is alive: the object is done or has crashed, by the status, the
-- pid is forgotten, one process less is running, and no other object changes. Any other pid is a
-- zombie that changes nothing.
pub sigchld_received_lem :
    (pid rc : ℤ) (s : ProcessHandler)
    → (lookup pid s.id_for_pid ≡ none → sigchld_received pid rc s ≡ ok s)
      × ((id r : ℕ) (c : ChildProcess)
          → lookup pid s.id_for_pid ≡ some id
          → lookup id s.sig_for_id ≡ some (r ∷ [])
          → lookup r s.heap ≡ some c
          → (t : ProcessHandler) × (sigchld_received pid rc s ≡ ok t)
            × (t.id_for_pid ≡ erase pid s.id_for_pid)
            × (t.number_of_running_procs ≡ dec s.number_of_running_procs)
            × (t.sig_for_id ≡ s.sig_for_id)
            × (lookup r t.heap ≡ some (record c { state = exit_state rc }))
            × ((q : ℕ) → q ≢ r → lookup q t.heap ≡ lookup q s.heap))
unfolding sigchld_received for_each
sigchld_received_lem pid rc s = (λ e. rw (e, sigchld_received) refl, known)
  where
    known :
        (id r : ℕ) (c : ChildProcess)
        → lookup pid s.id_for_pid ≡ some id
        → lookup id s.sig_for_id ≡ some (r ∷ [])
        → lookup r s.heap ≡ some c
        → (t : ProcessHandler) × (sigchld_received pid rc s ≡ ok t)
          × (t.id_for_pid ≡ erase pid s.id_for_pid)
          × (t.number_of_running_procs ≡ dec s.number_of_running_procs)
          × (t.sig_for_id ≡ s.sig_for_id)
          × (lookup r t.heap ≡ some (record c { state = exit_state rc }))
          × ((q : ℕ) → q ≢ r → lookup q t.heap ≡ lookup q s.heap)
    known id r c e slots found = (
      record s {
        obj_for_id = with_default id none s.obj_for_id;
        number_of_running_procs = dec s.number_of_running_procs;
        heap = modify r (handle_process_event exit rc) s.heap;
        id_for_pid = erase pid s.id_for_pid;
      },
      rw (e, slots, sigchld_received) refl,
      refl,
      refl,
      refl,
      rw (lookup-modify, beq_refl r, found) (unfold handle_process_event in ground arith),
      λ q ne. rw (lookup-modify, beq-false r q (λ p. ne (sym p))) refl,
    )

-- The pid was that of the running object at `r`, which alone has changed.
pub record Reaped (pid rc : ℤ) (s t : ProcessHandler) (id r : ℕ) (c : ChildProcess) : Type 0 where
  pub known : lookup pid s.id_for_pid ≡ some id
  pub slots : lookup id s.sig_for_id ≡ some (r ∷ [])
  pub found : lookup r s.heap ≡ some c
  pub its_id : c.graph_id ≡ id
  pub runs : c.state ≡ running
  pub pids : t.id_for_pid ≡ erase pid s.id_for_pid
  pub count : t.number_of_running_procs ≡ dec s.number_of_running_procs
  pub sigs : t.sig_for_id ≡ s.sig_for_id
  pub updated : Updated r (record c { state = exit_state rc }) s.heap t.heap

-- With the bookkeeping in order there are these two cases, and no fault.
pub sigchld_received_cases :
    (pid rc : ℤ) (s : ProcessHandler)
    → AccountsOf s
    → (t : ProcessHandler) × (sigchld_received pid rc s ≡ ok t)
      × ((t ≡ s) ⊎ ((id r : ℕ) × (c : ChildProcess) × Reaped pid rc s t id r c))
sigchld_received_cases pid rc s a = elim (Option-cases (lookup pid s.id_for_pid)) [
  | inl e ↦ (s, (sigchld_received_lem pid rc s).0 e, inl refl)
  | inr (id, known) ↦
      let (r, c, found, its_id, runs) = a.owned pid id known in
      let slots : lookup id s.sig_for_id ≡ some (r ∷ []) =
        ap (λ i. lookup i s.sig_for_id) (sym its_id) ∙ a.wired r c found in
      let (t, result, pids, count, sigs, there, others) =
        (sigchld_received_lem pid rc s).1 id r c known slots found in
      (
        t,
        result,
        inr (
          id,
          r,
          c,
          record {
            known = known;
            slots = slots;
            found = found;
            its_id = its_id;
            runs = runs;
            pids = pids;
            count = count;
            sigs = sigs;
            updated = (there, others);
          },
        ),
      )
]

pub sigchld_received_inv :
    (pid rc : ℤ) (s t : ProcessHandler)
    → AccountsOf s
    → sigchld_received pid rc s ≡ ok t
    → (s ≡ t) ⊎ ((id r : ℕ) × (c : ChildProcess) × Reaped pid rc s t id r c)
sigchld_received_inv pid rc s t a e =
    let (u, result, cases) = sigchld_received_cases pid rc s a in
    let same : u ≡ t = ok-injective (sym result ∙ e) in
    elim cases [
      | inl kept ↦ inl (sym kept ∙ same)
      | inr reaped ↦ inr (
          subst (λ (x : ProcessHandler). (id r : ℕ) × (c : ChildProcess) × Reaped pid rc s x id r c)
            same reaped)
    ]

-- A reaped process never breaks the bookkeeping, and never faults while it holds.
pub sigchld_received-Accounts :
    (pid rc : ℤ) (s : ProcessHandler)
    → AccountsOf s
    → (t : ProcessHandler) × (sigchld_received pid rc s ≡ ok t) × AccountsOf t
sigchld_received-Accounts pid rc s a =
    let (t, result, cases) = sigchld_received_cases pid rc s a in
    (
      t,
      result,
      elim cases [
        | inl same ↦ subst AccountsOf (sym same) a
        | inr (id, r, c, x) ↦
            rw (x.count, x.pids, x.sigs)
              (Accounts-exit a r c (record c { state = exit_state rc }) t.heap x.found refl
                x.updated pid (x.known ∙ ap (λ i. some i) (sym x.its_id)) (exit-ne-running rc))
      ],
    )
  where
    exit-ne-running : (x : ℤ) → exit_state x ≢ running
    exit-ne-running x = ground arith
