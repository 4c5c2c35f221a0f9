-- ===== src/Handler/Registry/Rule.antt =====
-- The rule for `register_processes`: what each object keeps when one is told to wait, the loop keeps.
use mathlib.Core.List.{Memᴰ}
use scinit.Base.{ℕ, inl, inr, none, some, List, lookup, nat_key, for_each_members, Option-cases}
use scinit.Child.Types.{ChildProcess, Heap, WeakPtr}
use scinit.Child.Lifecycle.Each.{Each, Told, propagate_dependencies-Each}
use scinit.Handler.Types.{ProcessHandler}
use scinit.Handler.Registry.Frame.{gone_lem}
use scinit.Handler.Registry.{propagate, register_processes}

module _ (P : ℕ → ChildProcess → Type 0) (refs : List WeakPtr)
    (told : (self : ℕ) (c : ChildProcess)
      → Memᴰ (some self) refs
      → P self c
      → Told P self c refs) where
  propagate-Each :
      (ref : WeakPtr) (h : Heap) → Memᴰ ref refs → Each P h → Each P (propagate refs ref h)
  unfolding propagate
  propagate-Each none h m a = a
  propagate-Each (some self) h m a = elim (Option-cases (lookup self h)) [
    | inl gone ↦ rw (gone_lem refs self h gone) a
    | inr (c, here) ↦
        propagate_dependencies-Each P self c refs (told self c m (a self c here)) h here a
  ]

  pub register_processes-Each :
      (s : ProcessHandler) → Each P s.heap → Each P (register_processes refs s).heap
  unfolding register_processes
  register_processes-Each s a =
      for_each_members (Each P) (propagate refs) refs s.heap propagate-Each a
