-- ===== src/Base/Sizes.antt =====
-- How many entries a map has, when no key stands in it twice.
use Prim.Native.Nat.{suc}
use mathlib.Core.Path.{◌≡◌, refl, ap}
use mathlib.Core.Logic.{inl, inr}
use mathlib.Core.Option.{none, some}
use mathlib.Core.List.{[], ◌∷◌}
use native.Mathlib.Omega.{arith}
use scinit.Base.Tests.{Bool-cases}
use scinit.Base.Lists.{length}
use scinit.Base.Maps.{Key, Map, lookup, insert, erase, lookup-insert, lookup-erase}

module _ {ℓ κ} {K : Type ℓ} {V : Type κ} ⦃key : Key K⦄ where
  abbrev pub Distinct : Map K V → Type κ
  Distinct [] = Unit
  Distinct ((k, v) ∷ m) = (lookup k m ≡ none) × Distinct m

  pub Distinct-insert :
      (k : K) (v : V) (m : Map K V) → lookup k m ≡ none → Distinct m → Distinct (insert k v m)
  unfolding lookup insert
  Distinct-insert k v [] h d = (refl, tt)
  Distinct-insert k v ((j, w) ∷ m) h d =
      ground
        (arith, key.beq_iff j k, key.beq_iff k j, lookup-insert k j v m, Distinct-insert k v m, d)

  pub length-insert :
      (k : K) (v : V) (m : Map K V) → lookup k m ≡ none → length (insert k v m) ≡ suc (length m)
  unfolding lookup insert
  length-insert k v [] h = refl
  length-insert k v ((j, w) ∷ m) h = ground (arith, length-insert k v m)

  pub erase_absent : (k : K) (m : Map K V) → lookup k m ≡ none → erase k m ≡ m
  unfolding lookup erase
  erase_absent k [] h = refl
  erase_absent k ((j, w) ∷ m) h = ground (arith, erase_absent k m)

  pub Distinct-erase : (k : K) (m : Map K V) → Distinct m → Distinct (erase k m)
  unfolding erase
  Distinct-erase k [] d = tt
  Distinct-erase k ((j, w) ∷ m) d = elim (Bool-cases (key.beq j k)) [
    | inl e ↦ rw e (Distinct-erase k m d.1)
    | inr e ↦ rw e (ground (arith, lookup-erase k j m, d), Distinct-erase k m d.1)
  ]

  pub length-erase :
      (k : K) (m : Map K V) {v : V}
      → Distinct m
      → lookup k m ≡ some v
      → suc (length (erase k m)) ≡ length m
  unfolding lookup erase
  length-erase k [] d h = cc
  length-erase k ((j, w) ∷ m) {v} d h = elim (Bool-cases (key.beq j k)) [
    | inl e ↦ rw e (ap suc (ap length (erase_absent k m (rw ((key.beq_iff j k).0 e) at d.0))))
    | inr e ↦ rw e (ap suc (length-erase k m {v = v} d.1 (rw e at h)))
  ]
