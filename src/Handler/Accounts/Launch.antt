-- ===== src/Handler/Accounts/Launch.antt =====
-- The bookkeeping of src/ProcessHandler.cpp when a process is started.
use scinit.Base.{
  lookup_same, none≢some, ℕ, ℤ, pos, inc, ◌≡◌, sym, ap, ◌∙◌, ◌≢◌, inl, inr, none, some, List, Map,
  lookup, insert, nat_key, int_key, Distinct-insert, length-insert, key_cases, lookup-insert_self,
  lookup-insert_ne, lookup-insert_same,
}
use scinit.Child.Types.{ProcessState, ready, running, ChildProcess, Heap}
use scinit.Handler.Accounts.{Accounts, Updated, same_object, wired_update, owned_update}

module _ {n : ℤ} {pids : Map ℤ ℕ} {sigs : Map ℕ (List ℕ)} {h : Heap} (a : Accounts n pids sigs h)
    (r : ℕ) (c d : ChildProcess) (g : Heap) (here : lookup r h ≡ some c)
    (same_id : d.graph_id ≡ c.graph_id) (up : Updated r d h g) where
  -- The start of a ready process under a pid that is not in the table.
  pub Accounts-launch :
      (pid : ℤ)
      → c.state ≡ ready
      → d.state ≡ running
      → lookup pid pids ≡ none
      → Accounts (inc n) (insert pid c.graph_id pids) sigs g
  Accounts-launch pid was_ready runs fresh = record {
    counted = ap inc a.counted ∙ ap pos (sym (length-insert pid c.graph_id pids fresh));
    distinct = Distinct-insert pid c.graph_id pids fresh a.distinct;
    wired = wired_update a r c d g here same_id up;
    owned = owned;
    single = single;
    supervised = supervised;
  }
    where
      -- No pid of the table belongs to the process, since it was not running.
      unowned : (p : ℤ) → lookup p pids ≡ some c.graph_id → ⊥
      unowned p known =
          let (q, e, found, its_id, e_runs) = a.owned p c.graph_id known in
          let eq : q ≡ r = same_object a q r e c found here its_id in
          let is_c : c ≡ e = lookup_same h here eq found in
          not_both was_ready (ap (λ (x : ChildProcess). x.state) is_c ∙ e_runs)
        where
          not_both : {s : ProcessState} → s ≡ ready → s ≡ running → ⊥
          not_both x y = cc

      owned :
          (p : ℤ) (id : ℕ)
          → lookup p (insert pid c.graph_id pids) ≡ some id
          → (q : ℕ) × (e : ChildProcess) × (lookup q g ≡ some e)
            × (e.graph_id ≡ id)
            × (e.state ≡ running)
      owned p id known = elim (key_cases p pid) [
        | inr ne ↦
            owned_update a r c d g here same_id up p id (λ _. runs)
              (sym (lookup-insert_ne pid p c.graph_id pids ne) ∙ known)
        | inl eq ↦ (r, d, up.0, same_id ∙ lookup-insert_same pids eq known, runs)
      ]

      old :
          (p : ℤ) (id : ℕ)
          → p ≢ pid
          → lookup p (insert pid c.graph_id pids) ≡ some id
          → lookup p pids ≡ some id
      old p id ne known = sym (lookup-insert_ne pid p c.graph_id pids ne) ∙ known

      its_own :
          (p : ℤ) (id : ℕ)
          → p ≡ pid
          → lookup p (insert pid c.graph_id pids) ≡ some id
          → id ≡ c.graph_id
      its_own p id eq known = sym (lookup-insert_same pids eq known)

      single :
          (p q : ℤ) (id : ℕ)
          → lookup p (insert pid c.graph_id pids) ≡ some id
          → lookup q (insert pid c.graph_id pids) ≡ some id
          → p ≡ q
      single p q id e f = elim (key_cases p pid) [
        | inl ep ↦ elim (key_cases q pid) [
          | inl eq ↦ ep ∙ sym eq
          | inr nq ↦ absurd (unowned q (old q id nq f ∙ ap (λ i. some i) (its_own p id ep e)))
        ]
        | inr np ↦ elim (key_cases q pid) [
          | inl eq ↦ absurd (unowned p (old p id np e ∙ ap (λ i. some i) (its_own q id eq f)))
          | inr nq ↦ a.single p q id (old p id np e) (old q id nq f)
        ]
      ]

      supervised :
          (q : ℕ) (e : ChildProcess)
          → lookup q g ≡ some e
          → e.state ≡ running
          → (p : ℤ) × (lookup p (insert pid c.graph_id pids) ≡ some e.graph_id)
      supervised q e found e_runs = elim (key_cases q r) [
        | inl eq ↦
            let is_d : d ≡ e = lookup_same g up.0 eq found in
            (
              pid,
              lookup-insert_self pid c.graph_id pids
                  ∙ ap (λ i. some i) (sym same_id ∙ ap (λ (x : ChildProcess). x.graph_id) is_d),
            )
        | inr ne ↦
            let (p, known) = a.supervised q e (sym (up.1 q ne) ∙ found) e_runs in
            (
              p,
              lookup-insert_ne pid p c.graph_id pids
                    (λ eq. none≢some fresh (sym (ap (λ k. lookup k pids) eq) ∙ known))
                  ∙ known,
            )
      ]
