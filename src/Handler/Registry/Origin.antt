-- ===== src/Handler/Registry/Origin.antt =====
-- Where the conditions come from that processes have after `register_processes`.
use mathlib.Core.List.{Memᴰ}
use scinit.Base.{
  ℕ, ◌≡◌, refl, sym, ◌⊎◌, inl, inr, some, List, [], ◌∷◌, Text, All, All-append, lookup, nat_key,
  Bool-cases, subst,
}
use scinit.Child.Types.{ProcessState, Condition, ChildProcess, Heap, WeakPtr}
use scinit.Child.Lifecycle.{contains_condition, should_wait_for, awaited_state, settle}
use scinit.Child.Lifecycle.Links.Spread.{settle_with}
use scinit.Child.Lifecycle.Each.{Each, Told}
use scinit.Handler.Types.{ProcessHandler}
use scinit.Handler.Registry.{register_processes}
use scinit.Handler.Registry.Rule.{register_processes-Each}

module _ (refs : List WeakPtr) (old : Heap) where
  -- The registered process at `q` names the one at `r` in its `before` list: `r` waits until it is DONE
  -- if it is of the type oneshot, and until it is RUNNING otherwise.
  pub record FromBefore (r : ℕ) (on : Condition) : Type 0 where
    pub q : ℕ
    pub waiting : ChildProcess
    pub named : ChildProcess
    pub at_r : lookup r old ≡ some waiting
    pub at_q : lookup q old ≡ some named
    pub r_listed : Memᴰ (some r) refs
    pub q_listed : Memᴰ (some q) refs
    pub entry : Memᴰ waiting.name named.before
    pub is : on ≡ (named.graph_id, awaited_state named.type)

  -- The registered process at `r` names the one at `q` in its `after` list. The state that it waits for
  -- depends on the type of `r` itself.
  pub record FromAfter (r : ℕ) (on : Condition) : Type 0 where
    pub q : ℕ
    pub waiting : ChildProcess
    pub named : ChildProcess
    pub at_r : lookup r old ≡ some waiting
    pub at_q : lookup q old ≡ some named
    pub r_listed : Memᴰ (some r) refs
    pub q_listed : Memᴰ (some q) refs
    pub entry : Memᴰ named.name waiting.after
    pub is : on ≡ (named.graph_id, awaited_state waiting.type)

  abbrev pub IsConfigured : ℕ → Condition → Type 0
  IsConfigured r on = FromBefore r on ⊎ FromAfter r on

  -- The object has the name, the id and the type that it had, no new entries in its two lists, and
  -- only conditions that the lists asked for.
  record Kept (r : ℕ) (e : ChildProcess) : Type 0 where
    origin : ChildProcess
    there : lookup r old ≡ some origin
    name : e.name ≡ origin.name
    graph_id : e.graph_id ≡ origin.graph_id
    type : e.type ≡ origin.type
    before : (n : Text) → Memᴰ n e.before → Memᴰ n origin.before
    after : (n : Text) → Memᴰ n e.after → Memᴰ n origin.after
    conditions : All (IsConfigured r) e.conditions

  should_wait_for-Kept :
      (r id : ℕ) (st : ProcessState) (e : ChildProcess)
      → (Kept r e → IsConfigured r (id, st))
      → Kept r e
      → Kept r (should_wait_for id st e)
  unfolding should_wait_for
  should_wait_for-Kept r id st e asks k = elim (Bool-cases (contains_condition id e.conditions)) [
    | inl known ↦ rw known k
    | inr new ↦ rw new record {
      origin = k.origin;
      there = k.there;
      name = k.name;
      graph_id = k.graph_id;
      type = k.type;
      before = k.before;
      after = k.after;
      conditions =
          All-append (IsConfigured r) e.conditions ((id, st) ∷ []) k.conditions (asks k, tt);
    }
  ]

  settle-Kept : (r : ℕ) (e : ChildProcess) → Kept r e → Kept r (settle e)
  settle-Kept r e k = subst (Kept r) (sym (settle_with e e.conditions)) record {
    origin = k.origin;
    there = k.there;
    name = k.name;
    graph_id = k.graph_id;
    type = k.type;
    before = λ n m. elim m [ ];
    after = λ n m. elim m [ ];
    conditions = k.conditions;
  }

  asked_before :
      (self r : ℕ) (c d : ChildProcess)
      → Memᴰ (some self) refs
      → Memᴰ (some r) refs
      → Kept self c
      → Memᴰ d.name c.before
      → Kept r d
      → IsConfigured r (c.graph_id, awaited_state c.type)
  asked_before self r c d m n teller entry k = inl record {
    q = self;
    waiting = k.origin;
    named = teller.origin;
    at_r = k.there;
    at_q = teller.there;
    r_listed = n;
    q_listed = m;
    entry = subst (λ s. Memᴰ s teller.origin.before) k.name (teller.before d.name entry);
    is = rw (teller.graph_id, teller.type) refl;
  }

  asked_after :
      (self q : ℕ) (c d : ChildProcess)
      → Memᴰ (some self) refs
      → Memᴰ (some q) refs
      → Kept self c
      → Memᴰ d.name c.after
      → Kept q d
      → IsConfigured self (d.graph_id, awaited_state c.type)
  asked_after self q c d m n teller entry k = inr record {
    q = q;
    waiting = teller.origin;
    named = k.origin;
    at_r = teller.there;
    at_q = k.there;
    r_listed = m;
    q_listed = n;
    entry = subst (λ s. Memᴰ s teller.origin.after) k.name (teller.after d.name entry);
    is = rw (k.graph_id, teller.type) refl;
  }

  Kept-Told :
      (self : ℕ) (c : ChildProcess) → Memᴰ (some self) refs → Kept self c → Told Kept self c refs
  Kept-Told self c m teller = record {
    before = λ r d n entry.
        should_wait_for-Kept r c.graph_id (awaited_state c.type) d
          (asked_before self r c d m n teller entry);
    after = λ q d e n entry k.
        should_wait_for-Kept self d.graph_id (awaited_state c.type) e
          (λ _. asked_after self q c d m n teller entry k);
    at_last = settle-Kept self;
  }

-- Every condition is one that the configuration asks for: if no process waits for another before
-- `register_processes`, then each condition of a process afterwards stems from the `before` list of a
-- registered process that names it, or from its own `after` list, which names a registered process. It
-- has the id of that process, and the state that the type of the process with the list asks for.
pub register_processes-IsConfigured :
    (refs : List WeakPtr) (s : ProcessHandler) (r : ℕ) (e : ChildProcess)
    → ((q : ℕ) (c : ChildProcess) → lookup q s.heap ≡ some c → c.conditions ≡ [])
    → lookup r (register_processes refs s).heap ≡ some e
    → All (IsConfigured refs s.heap r) e.conditions
register_processes-IsConfigured refs s r e none_yet found =
    (register_processes-Each (Kept refs s.heap) refs (Kept-Told refs s.heap) s at_first r e
      found).conditions
  where
    at_first : Each (Kept refs s.heap) s.heap
    at_first q c there = record {
      origin = c;
      there = there;
      name = refl;
      graph_id = refl;
      type = refl;
      before = λ n m. m;
      after = λ n m. m;
      conditions = subst (All (IsConfigured refs s.heap q)) (sym (none_yet q c there)) tt;
    }
