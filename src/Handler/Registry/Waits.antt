-- ===== src/Handler/Registry/Waits.antt =====
-- For whom each process waits after `register_processes`: what the lists ask for, and no more.
use scinit.Base.{
  lookup_same, ℕ, ◌≡◌, refl, sym, ap, ◌∙◌, inl, inr, some, List, [], All, lookup, nat_key, subst,
}
use scinit.Child.Types.{ProcessState, Condition, ChildProcess, WeakPtr}
use scinit.Child.Lifecycle.Links.{WaitsFor}
use scinit.Child.Lifecycle.Links.Spread.{propagate_dependencies_links}
use scinit.Child.Lifecycle.{propagate_dependencies}
use scinit.Handler.Types.{ProcessHandler}
use scinit.Handler.Registry.{register_processes}
use scinit.Handler.Registry.Links.{loop_tells}
use scinit.Handler.Registry.Origin.{
  FromBefore, FromAfter, IsConfigured, register_processes-IsConfigured,
}

before-WaitsFor :
    (refs : List WeakPtr) (s : ProcessHandler) (r : ℕ) (on : Condition)
    → FromBefore refs s.heap r on
    → WaitsFor r on.0 (register_processes refs s).heap
before-WaitsFor refs s r on f =
    subst (λ (id : ℕ). WaitsFor r id (register_processes refs s).heap)
      (sym (ap (λ (x : Condition). x.0) f.is))
      (loop_tells refs f.q r f.named.name f.waiting.name f.named.graph_id f.waiting.graph_id
        (λ c. c.before) (λ c cs. refl) r f.named.graph_id
        (λ h c d at_q at_r is_c is_d entry.
          subst (λ (id : ℕ). WaitsFor r id (propagate_dependencies f.q refs h)) is_c
            ((propagate_dependencies_links f.q refs h c at_q r d f.r_listed at_r).0 entry))
        s f.q_listed (f.named, f.at_q, refl, refl) (f.waiting, f.at_r, refl, refl)
        (f.named, f.at_q, f.entry))

after-WaitsFor :
    (refs : List WeakPtr) (s : ProcessHandler) (r : ℕ) (on : Condition)
    → FromAfter refs s.heap r on
    → WaitsFor r on.0 (register_processes refs s).heap
after-WaitsFor refs s r on f =
    subst (λ (id : ℕ). WaitsFor r id (register_processes refs s).heap)
      (sym (ap (λ (x : Condition). x.0) f.is))
      (loop_tells refs r f.q f.waiting.name f.named.name f.waiting.graph_id f.named.graph_id
        (λ c. c.after) (λ c cs. refl) r f.named.graph_id
        (λ h c d at_r at_q is_c is_d entry.
          subst (λ (id : ℕ). WaitsFor r id (propagate_dependencies r refs h)) is_d
            ((propagate_dependencies_links r refs h c at_r f.q d f.q_listed at_q).1 entry))
        s f.r_listed (f.waiting, f.at_r, refl, refl) (f.named, f.at_q, refl, refl)
        (f.waiting, f.at_r, f.entry))

-- The conditions are those that the configuration asks for: if no process waits for another before
-- `register_processes`, then each condition of a process afterwards stems from the `before` list of a
-- registered process that names it, or from its own `after` list, which names a registered process,
-- with the state that the type of the process with the list asks for; and on each process for which
-- such a list makes it wait there is a condition.
pub register_processes_waits :
    (refs : List WeakPtr) (s : ProcessHandler) (r : ℕ) (e : ChildProcess)
    → ((q : ℕ) (c : ChildProcess) → lookup q s.heap ≡ some c → c.conditions ≡ [])
    → lookup r (register_processes refs s).heap ≡ some e
    → All (IsConfigured refs s.heap r) e.conditions
      × ((on : Condition)
          → IsConfigured refs s.heap r on
          → (st : ProcessState) × (lookup on.0 e.conditions ≡ some st))
register_processes_waits refs s r e none_yet found = (
  register_processes-IsConfigured refs s r e none_yet found,
  λ on asked.
      here on (elim asked [
        | inl f ↦ before-WaitsFor refs s r on f
        | inr f ↦ after-WaitsFor refs s r on f
      ]),
)
  where
    here :
        (on : Condition)
        → WaitsFor r on.0 (register_processes refs s).heap
        → (st : ProcessState) × (lookup on.0 e.conditions ≡ some st)
    here on (c, st, there, waits) = (
      st,
      ap (λ (x : ChildProcess). lookup on.0 x.conditions)
            (lookup_same (register_processes refs s).heap found refl there)
          ∙ waits,
    )
