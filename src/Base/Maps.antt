-- ===== src/Base/Maps.antt =====
-- `std::map`: the pairs in the order of the keys, which is the order of iteration.
use Prim.Native.Nat.{ℕ}
use mathlib.Core.Path.{◌≡◌, refl, sym, ap, ◌∙◌}
use mathlib.Core.Logic.{◌↔◌, ◌⊎◌, inl, inr, ◌≢◌}
use mathlib.Core.Bool.{Bool, true, false}
use mathlib.Core.Option.{Option, none, some}
use mathlib.Core.Option
use mathlib.Core.List.{List, [], ◌∷◌}
use native.Mathlib.Omega.{arith}
use scinit.Base.Tests.{◌==◌, ltb, ==_iff, if◌then◌else◌, Bool-cases}
use scinit.Base.Results.{some-injective}
use scinit.Base.Int.{ℤ, int_beq, int_ltb, int_beq_iff}
use scinit.Base.Bytes.{Text, text_beq, text_ltb, text_beq_iff}

-- What a type of keys has: equality and an order.
pub record Key {ℓ} (K : Type ℓ) : Type ℓ where
  pub beq : K → K → Bool
  pub before : K → K → Bool
  pub beq_iff : (a b : K) → (beq a b ≡ true) ↔ (a ≡ b)

instance abbrev pub nat_key : Key ℕ
nat_key = record { beq = ◌==◌; before = ltb; beq_iff = ==_iff }

instance abbrev pub int_key : Key ℤ
int_key = record { beq = int_beq; before = int_ltb; beq_iff = int_beq_iff }

instance abbrev pub text_key : Key Text
text_key = record { beq = text_beq; before = text_ltb; beq_iff = text_beq_iff }

abbrev pub Map {ℓ κ} : Type ℓ → Type κ → Type (ℓ ⊔ κ)
Map K V = List (K × V)

module _ {ℓ} {K : Type ℓ} ⦃key : Key K⦄ where
  pub beq_refl : (k : K) → key.beq k k ≡ true
  beq_refl k = (key.beq_iff k k).1 refl

  pub beq-false : (j k : K) → j ≢ k → key.beq j k ≡ false
  beq-false j k h = elim (Bool-cases (key.beq j k)) [
    | inl e ↦ absurd (h ((key.beq_iff j k).0 e))
    | inr e ↦ e
  ]

  pub key_cases : (j k : K) → (j ≡ k) ⊎ (j ≢ k)
  key_cases j k = elim (Bool-cases (key.beq j k)) [
    | inl e ↦ inl ((key.beq_iff j k).0 e)
    | inr e ↦ inr (λ p. differ e ((key.beq_iff j k).1 p))
  ]
    where
      differ : {b : Bool} → b ≡ false → b ≡ true → ⊥
      differ p q = cc

module _ {ℓ κ} {K : Type ℓ} {V : Type κ} ⦃key : Key K⦄ where
  -- `find`, `count` and `at`.
  unfoldable pub lookup : K → Map K V → Option V
  lookup k [] = none
  lookup k ((j, v) ∷ m) = if key.beq j k then some v else lookup k m

  -- `m[k] = v`.
  unfoldable pub insert : K → V → Map K V → Map K V
  insert k v [] = (k, v) ∷ []
  insert k v ((j, w) ∷ m) =
      let rest = insert k v m in
      if key.beq j k
      then (k, v) ∷ m
      else if key.before k j
      then (k, v) ∷ (j, w) ∷ m
      else (j, w) ∷ rest

  -- `m.erase(k)`.
  unfoldable pub erase : K → Map K V → Map K V
  erase k [] = []
  erase k ((j, v) ∷ m) = let rest = erase k m in if key.beq j k then rest else (j, v) ∷ rest

  -- The member function `f` of the object at `k`, if there is one.
  unfoldable pub modify : K → (V → V) → Map K V → Map K V
  modify k f [] = []
  modify k f ((j, v) ∷ m) = (j, if key.beq j k then f v else v) ∷ modify k f m

  pub contains : K → Map K V → Bool
  contains k m = elim (lookup k m) [ none ↦ false | some v ↦ true ]

  -- The value of `m[k]`, which puts `d`, the value of a default constructor, under a missing key.
  unfoldable pub index : K → V → Map K V → V
  index k d m = Option.get_or (lookup k m) d

  unfoldable pub with_default : K → V → Map K V → Map K V
  with_default k d m = elim (lookup k m) [ none ↦ insert k d m | some v ↦ m ]

  -- One key has one value.
  pub lookup_same :
      {k j : K} {v w : V} (m : Map K V) → lookup k m ≡ some v → j ≡ k → lookup j m ≡ some w → v ≡ w
  lookup_same m e same f = some-injective (sym e ∙ sym (ap (λ i. lookup i m) same) ∙ f)

  pub lookup-insert :
      (k j : K) (v : V) (m : Map K V)
      → lookup j (insert k v m) ≡ (if key.beq k j then some v else lookup j m)
  unfolding lookup insert
  lookup-insert k j v [] = refl
  lookup-insert k j v ((i, w) ∷ m) =
      ground (arith, key.beq_iff k j, key.beq_iff i k, key.beq_iff i j, lookup-insert k j v m)

  pub lookup-erase :
      (k j : K) (m : Map K V) → lookup j (erase k m) ≡ (if key.beq k j then none else lookup j m)
  unfolding lookup erase
  lookup-erase k j [] = ground arith
  lookup-erase k j ((i, w) ∷ m) =
      ground (arith, key.beq_iff k j, key.beq_iff i k, key.beq_iff i j, lookup-erase k j m)

  pub lookup-modify :
      (k j : K) (f : V → V) (m : Map K V)
      → lookup j (modify k f m) ≡ (if key.beq k j then Option.map f (lookup j m) else lookup j m)
  unfolding lookup modify
  lookup-modify k j f [] = ground arith
  lookup-modify k j f ((i, w) ∷ m) =
      ground (arith, key.beq_iff k j, key.beq_iff i k, key.beq_iff i j, lookup-modify k j f m)

  pub lookup-insert_self : (k : K) (v : V) (m : Map K V) → lookup k (insert k v m) ≡ some v
  lookup-insert_self k v m = rw (lookup-insert, beq_refl k) refl

  pub lookup-insert_same :
      {k j : K} {v w : V} (m : Map K V) → j ≡ k → lookup j (insert k v m) ≡ some w → v ≡ w
  lookup-insert_same {k} {j} {v} m eq found =
      lookup_same (insert k v m) (lookup-insert_self k v m) eq found

  pub lookup-insert_ne :
      (k j : K) (v : V) (m : Map K V) → j ≢ k → lookup j (insert k v m) ≡ lookup j m
  lookup-insert_ne k j v m ne = rw (lookup-insert, beq-false k j (λ p. ne (sym p))) refl

  pub lookup-erase_self : (k : K) (m : Map K V) → lookup k (erase k m) ≡ none
  lookup-erase_self k m = rw (lookup-erase, beq_refl k) refl

  pub lookup-erase_ne : (k j : K) (m : Map K V) → j ≢ k → lookup j (erase k m) ≡ lookup j m
  lookup-erase_ne k j m ne = rw (lookup-erase, beq-false k j (λ p. ne (sym p))) refl

  pub modify_absent : (k : K) (f : V → V) (m : Map K V) → lookup k m ≡ none → modify k f m ≡ m
  unfolding lookup modify
  modify_absent k f [] h = refl
  modify_absent k f ((j, v) ∷ m) h = ground (arith, modify_absent k f m)

  pub index_present : (k : K) (d : V) (m : Map K V) {v : V} → lookup k m ≡ some v → index k d m ≡ v
  unfolding index
  index_present k d m e = rw e refl

  pub with_default_present :
      (k : K) (d : V) (m : Map K V) {v : V} → lookup k m ≡ some v → with_default k d m ≡ m
  unfolding with_default
  with_default_present k d m e = rw (e, with_default) refl

  pub with_default_absent :
      (k : K) (d : V) (m : Map K V) → lookup k m ≡ none → with_default k d m ≡ insert k d m
  unfolding with_default
  with_default_absent k d m e = rw (e, with_default) refl
