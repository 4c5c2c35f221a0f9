-- ===== src/Handler/Registry/Dependencies.antt =====
-- What `register_processes` sets up.
use mathlib.Core.List.{Memᴰ}
use scinit.Base.{
  ℕ, ℤ, ◌≡◌, refl, sym, ap, ◌∙◌, subst, ◌≢◌, some, List, [], ◌∷◌, lookup, nat_key, int_key,
  for_each, lookup-modify, beq_refl, arith,
}
use scinit.Child.Types.{ready, running, ChildProcess, Heap, WeakPtr}
use scinit.Child.Lifecycle.{propagate_dependencies}
use scinit.Child.Lifecycle.Links.{WaitsFor}
use scinit.Child.Lifecycle.Links.Spread.{
  settled, propagate_dependencies_frame, propagate_dependencies_links,
}
use scinit.Child.Lifecycle.Awaitable.{Awaits, AllAwaitable, Awaits-Told}
use scinit.Handler.Types.{ProcessHandler}
use scinit.Handler.Accounts.{AccountsOf, Accounts-pointwise}
use scinit.Handler.Registry.Rule.{register_processes-Each}
use scinit.Handler.Registry.Frame.{register_processes-Settles}
use scinit.Handler.Registry.{propagate, register_processes}

-- Before any process is started, `register_processes` leaves the bookkeeping as it is.
pub register_processes-Accounts :
    (refs : List WeakPtr) (s : ProcessHandler)
    → s.id_for_pid ≡ []
    → AccountsOf s
    → AccountsOf (register_processes refs s)
unfolding register_processes
register_processes-Accounts refs s none_yet a =
    let (forth, absent) = register_processes-Settles refs s in
    Accounts-pointwise a (register_processes refs s).heap
      (λ r c found.
        let (d, there, same_id, still) = forth r c found in
        (
          d,
          there,
          same_id,
          λ runs. absurd (idle r c found runs),
          λ runs. absurd (still (idle r c found) runs),
        ))
      absent
  where
    -- Without a pid nothing is running.
    idle : (r : ℕ) (c : ChildProcess) → lookup r s.heap ≡ some c → c.state ≢ running
    idle r c found runs =
        let (pid, known) = a.supervised r c found runs in
        absurd (none_known pid (sym (ap (lookup pid) none_yet) ∙ known))
      where
        none_known : (pid : ℤ) {id : ℕ} → lookup {V = ℕ} pid [] ≡ some id → ⊥
        none_known pid e = unfold lookup in cc

quiet_settles :
    (self : ℕ) (all : List WeakPtr) (h : Heap) (c : ChildProcess)
    → lookup self h ≡ some c
    → c.before ≡ []
    → c.after ≡ []
    → c.conditions ≡ []
    → lookup self (propagate_dependencies self all h) ≡ some (settled c [])
unfolding propagate_dependencies for_each
quiet_settles self all h c here no_before no_after no_conditions =
    rw (here, propagate_dependencies)
      (rw (no_before, no_after, lookup-modify, beq_refl self, here) (ground arith))

-- Two processes are registered, and only the second names the other: in its `before` list. The
-- first has then to wait for the second, and is in the state READY all the same, since it was declared
-- ready before the dependency was known. So it is started at once.
pub early_ready :
    (a b : ℕ) (s : ProcessHandler) (c d : ChildProcess)
    → a ≢ b
    → lookup a s.heap ≡ some c
    → lookup b s.heap ≡ some d
    → c.before ≡ []
    → c.after ≡ []
    → c.conditions ≡ []
    → Memᴰ c.name d.before
    → let t = register_processes (some a ∷ some b ∷ []) s in
      ((e : ChildProcess) × (lookup a t.heap ≡ some e) × (e.state ≡ ready))
      × WaitsFor a d.graph_id t.heap
unfolding register_processes propagate for_each
early_ready a b s c d ne first second no_before no_after no_conditions named =
    let all = some a ∷ some b ∷ [] in
    let h = propagate_dependencies a all s.heap in
    let at_a : lookup a h ≡ some (settled c []) =
      quiet_settles a all s.heap c first no_before no_after no_conditions in
    let (e, at_b, (cs, same, _)) =
      (propagate_dependencies_frame a all s.heap c first).1 b d (λ p. ne (sym p)) second in
    let (x, there, (ds, same', _)) =
      (propagate_dependencies_frame b all h e at_b).1 a (settled c []) ne at_a in
    let link =
      (propagate_dependencies_links b all h e at_b a (settled c []) (Memᴰ.head refl) at_a).0
        (subst (λ (y : ChildProcess). Memᴰ c.name y.before) (sym same) named) in
    (
      (x, there, ap (λ (y : ChildProcess). y.state) same'),
      subst (λ (id : ℕ). WaitsFor a id (propagate_dependencies b all h))
          (ap (λ (y : ChildProcess). y.graph_id) same) link,
    )

-- `register_processes` makes processes wait for others only to run or to be done: if every condition
-- was one of these before, every condition is one of these afterwards.
pub register_processes-AllAwaitable :
    (refs : List WeakPtr) (s : ProcessHandler)
    → AllAwaitable s.heap
    → AllAwaitable (register_processes refs s).heap
register_processes-AllAwaitable refs =
    register_processes-Each (λ r. Awaits) refs λ self c _ _. Awaits-Told self c refs
