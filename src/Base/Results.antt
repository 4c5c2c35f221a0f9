-- ===== src/Base/Results.antt =====
-- What a call gives, or what it throws, and what an optional value is.
use mathlib.Core.Path.{◌≡◌, refl}
use mathlib.Core.Option.{Option, none, some}

pub data Outcome {ℓ} (E : Type 0) (A : Type ℓ) : Type ℓ where
  err : E → Outcome E A
  ok : A → Outcome E A

module _ {ℓ κ} {E : Type 0} {A : Type ℓ} {B : Type κ} where
  -- The second call is made with what the first one gives, unless that throws.
  infixl 5 ◌>>=◌
  abbrev pub ◌>>=◌ : Outcome E A → (A → Outcome E B) → Outcome E B
  err e >>= next = err e
  ok a >>= next = next a

  -- If a chain gives a value, its first call gives one, and the rest goes on from there.
  pub >>=-eq-ok :
      (first : Outcome E A) (next : A → Outcome E B) {b : B}
      → (first >>= next) ≡ ok b
      → (a : A) × (first ≡ ok a) × (next a ≡ ok b)
  >>=-eq-ok (err e) next h = cc
  >>=-eq-ok (ok a) next h = (a, refl, h)

pub ok-injective {ℓ} :
    {E : Type 0} {A : Type ℓ} {a b : A} → ◌≡◌ {A = Outcome E A} (ok a) (ok b) → a ≡ b
ok-injective e = cc

pub some-injective {ℓ} : {A : Type ℓ} {a b : A} → some a ≡ some b → a ≡ b
some-injective e = cc

pub none≢some {ℓ} : {A : Type ℓ} {a : A} {o : Option A} → o ≡ none → o ≡ some a → ⊥
none≢some e f = cc
