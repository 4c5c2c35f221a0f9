-- ===== src/Config/Loaded/Accounts.antt =====
-- The accounts of the handler hold when a configuration has been loaded.
use scinit.Base.{
  none≢some, All, ℕ, ℤ, pos, ◌≡◌, sym, ap, ◌∙◌, subst, Map, lookup, nat_key, int_key, length,
}
use scinit.Child.Types.{blocked, running}
use scinit.Child.Lifecycle.Awaitable.{IsAwaitable, AllAwaitable}
use scinit.Handler.Accounts.{AccountsOf}
use scinit.Config.{Config}
use scinit.Config.Loaded.{IsLoaded}

pub IsLoaded-Accounts : (conf : Config) → IsLoaded conf → AccountsOf conf.handler
unfolding lookup
IsLoaded-Accounts conf l = record {
  counted = l.none_running ∙ ap (λ (m : Map ℤ ℕ). pos (length m)) (sym l.no_pids);
  distinct = rw l.no_pids tt;
  wired = λ r c found.
      let (id, below, _, _) = l.objects r c found in
      ap (λ i. lookup i conf.handler.sig_for_id) id ∙ (l.known r below).2;
  owned = λ pid id e. absurd (none≢some (ap (lookup pid) l.no_pids) e);
  single = λ p q id e f. absurd (none≢some (ap (lookup p) l.no_pids) e);
  supervised = λ r c found runs. absurd (not_both ((l.objects r c found).2) runs);
}
  where
    not_both : {s : _} → s ≡ blocked → s ≡ running → ⊥
    not_both p q = cc

pub IsLoaded-AllAwaitable : (conf : Config) → IsLoaded conf → AllAwaitable conf.handler.heap
IsLoaded-AllAwaitable conf l r c found = subst (All IsAwaitable) (sym (l.objects r c found).3) tt
