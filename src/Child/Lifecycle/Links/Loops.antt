-- ===== src/Child/Lifecycle/Links/Loops.antt =====
-- Two nested loops of visits, each of which only adds conditions.
use mathlib.Core.List.{Memᴰ}
use scinit.Base.{ℕ, List, nat_key, Text, for_each, for_each_inv, for_each_reach}
use scinit.Child.Types.{Heap, WeakPtr}
use scinit.Child.Lifecycle.Links.{Extends, WaitsFor, Extends-refl, Extends-trans, WaitsFor-Extends}

module _ (visit : Text → WeakPtr → Heap → Heap)
    (extends : (dep : Text) (ref : WeakPtr) (h : Heap) → Extends h (visit dep ref h)) where
  abbrev pub loops : List Text → List WeakPtr → Heap → Heap
  loops deps others = for_each (λ dep. for_each (visit dep) others) deps

  loop-Extends :
      (dep : Text) (others : List WeakPtr) (g h : Heap)
      → Extends g h
      → Extends g (for_each (visit dep) others h)
  loop-Extends dep others g h x =
      for_each_inv (Extends g) (visit dep) others h (λ ref t y. Extends-trans y (extends dep ref t))
        x

  pub loops-Extends :
      (deps : List Text) (others : List WeakPtr) (h : Heap) → Extends h (loops deps others h)
  loops-Extends deps others h =
      for_each_inv (Extends h) (λ dep. for_each (visit dep) others) deps h
        (λ dep t y. loop-Extends dep others h t y) (Extends-refl h)

  -- A link that one visit makes, whatever conditions the objects have gained, is there in the end.
  pub loops_link :
      (deps : List Text) (others : List WeakPtr) (h : Heap) (dep : Text) (ref : WeakPtr) (r id : ℕ)
      → Memᴰ dep deps
      → Memᴰ ref others
      → ((t : Heap) → Extends h t → WaitsFor r id (visit dep ref t))
      → WaitsFor r id (loops deps others h)
  loops_link deps others h dep ref r id m n make =
      (for_each_reach (Extends h) (WaitsFor r id) (λ d. for_each (visit d) others) dep deps h m
        (λ d t y. loop-Extends d others h t y)
        (λ d t y w. WaitsFor-Extends r id (loop-Extends d others t t (Extends-refl t)) w)
        (λ t y.
          (for_each_reach (Extends h) (WaitsFor r id) (visit dep) ref others t n
            (λ p u z. Extends-trans z (extends dep p u))
            (λ p u z w. WaitsFor-Extends r id (extends dep p u) w) make y).1)
        (Extends-refl h)).1
