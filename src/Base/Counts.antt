-- ===== src/Base/Counts.antt =====
-- How many entries of a map have a given number as their value.
use Prim.Native.Nat.{ℕ, ◌+◌}
use mathlib.Core.Path.{◌≡◌, refl}
use mathlib.Core.Logic.{inl, inr}
use mathlib.Core.Option.{none, some}
use mathlib.Core.List.{[], ◌∷◌}
use native.Mathlib.Omega.{arith}
use scinit.Base.Tests.{◌==◌, if◌then◌else◌, Bool-cases}
use scinit.Base.Maps.{Key, Map, lookup, insert, erase}
use scinit.Base.Sizes.{Distinct, erase_absent}

module _ {ℓ} {K : Type ℓ} ⦃key : Key K⦄ where
  abbrev pub count : ℕ → Map K ℕ → ℕ
  count v [] = 0
  count v ((k, w) ∷ m) = (if w == v then 1 else 0) + count v m

  pub count-insert :
      (k : K) (w v : ℕ) (m : Map K ℕ)
      → lookup k m ≡ none
      → count v (insert k w m) ≡ (if w == v then 1 else 0) + count v m
  unfolding lookup insert
  count-insert k w v [] h = refl
  count-insert k w v ((j, x) ∷ m) h = ground (arith, count-insert k w v m)

  pub count-erase :
      (k : K) (w v : ℕ) (m : Map K ℕ)
      → Distinct m
      → lookup k m ≡ some w
      → count v m ≡ (if w == v then 1 else 0) + count v (erase k m)
  unfolding lookup erase
  count-erase k w v [] d h = cc
  count-erase k w v ((j, x) ∷ m) d h = elim (Bool-cases (key.beq j k)) [
    | inl e ↦
        let same : x ≡ w = some-injective (rw e at h) in
        let gone : erase k m ≡ m = erase_absent k m (rw ((key.beq_iff j k).0 e) at d.0) in
        rw (e, gone, same) refl
    | inr e ↦ rw e (let rest = count-erase k w v m d.1 (rw e at h) in omega arith)
  ]
    where
      some-injective : {a b : ℕ} → some a ≡ some b → a ≡ b
      some-injective p = cc
