-- ===== src/Handler/Accounts/Exit.antt =====
-- The bookkeeping of src/ProcessHandler.cpp when a process has exited.
use scinit.Base.{
  lookup_same, none≢some, some-injective, ℕ, ℤ, pos, dec, ◌≡◌, sym, ap, ◌∙◌, ◌≢◌, inl, inr, some,
  List, Map, lookup, erase, nat_key, int_key, Distinct-erase, length-erase, key_cases,
  lookup-erase_self, lookup-erase_ne,
}
use scinit.Child.Types.{running, ChildProcess, Heap}
use scinit.Handler.Accounts.{Accounts, Updated, same_object, wired_update}

module _ {n : ℤ} {pids : Map ℤ ℕ} {sigs : Map ℕ (List ℕ)} {h : Heap} (a : Accounts n pids sigs h)
    (r : ℕ) (c d : ChildProcess) (g : Heap) (here : lookup r h ≡ some c)
    (same_id : d.graph_id ≡ c.graph_id) (up : Updated r d h g) where
  -- The exit of the process that the pid belongs to.
  pub Accounts-exit :
      (pid : ℤ)
      → lookup pid pids ≡ some c.graph_id
      → d.state ≢ running
      → Accounts (dec n) (erase pid pids) sigs g
  Accounts-exit pid known stopped = record {
    counted = ap dec (a.counted ∙ ap pos (sym (length-erase pid pids a.distinct known)));
    distinct = Distinct-erase pid pids a.distinct;
    wired = wired_update a r c d g here same_id up;
    owned = owned;
    single = λ p q id e f. a.single p q id (old p id e) (old q id f);
    supervised = supervised;
  }
    where
      others : (p : ℤ) (id : ℕ) → lookup p (erase pid pids) ≡ some id → p ≢ pid
      others p id e eq =
          none≢some (lookup-erase_self pid pids) (sym (ap (λ k. lookup k (erase pid pids)) eq) ∙ e)

      old : (p : ℤ) (id : ℕ) → lookup p (erase pid pids) ≡ some id → lookup p pids ≡ some id
      old p id e = sym (lookup-erase_ne pid p pids (others p id e)) ∙ e

      owned :
          (p : ℤ) (id : ℕ)
          → lookup p (erase pid pids) ≡ some id
          → (q : ℕ) × (e : ChildProcess) × (lookup q g ≡ some e)
            × (e.graph_id ≡ id)
            × (e.state ≡ running)
      owned p id e =
          let (q, x, found, its_id, x_runs) = a.owned p id (old p id e) in
          (
            q,
            x,
            up.1 q (λ eq. others p id e (
                  a.single p pid id (old p id e)
                    (known ∙ ap (λ i. some i) (ids q x found its_id eq))))
                ∙ found,
            its_id,
            x_runs,
          )
        where
          ids :
              (q : ℕ) (x : ChildProcess)
              → lookup q h ≡ some x
              → x.graph_id ≡ id
              → q ≡ r
              → c.graph_id ≡ id
          ids q x found its_id eq =
              ap (λ (y : ChildProcess). y.graph_id) (lookup_same h here eq found) ∙ its_id

      supervised :
          (q : ℕ) (e : ChildProcess)
          → lookup q g ≡ some e
          → e.state ≡ running
          → (p : ℤ) × (lookup p (erase pid pids) ≡ some e.graph_id)
      supervised q e found e_runs = elim (key_cases q r) [
        | inl eq ↦
            let is_d : d ≡ e = lookup_same g up.0 eq found in
            absurd (stopped (ap (λ (x : ChildProcess). x.state) is_d ∙ e_runs))
        | inr ne ↦
            let before = sym (up.1 q ne) ∙ found in
            let (p, p_known) = a.supervised q e before e_runs in
            (
              p,
              lookup-erase_ne pid p pids (λ eq. ne (
                    same_object a q r e c before here
                      (some-injective (sym p_known ∙ ap (λ k. lookup k pids) eq ∙ known))))
                  ∙ p_known,
            )
      ]
