-- ===== src/Base/Lists.antt =====
-- Lists measured and indexed by native numbers, under the library's names.
use Prim.Native.Nat.{ℕ, zero, suc, ◌+◌}
use mathlib.Core.Path.{◌≡◌, refl, subst}
use mathlib.Core.List.{List, [], ◌∷◌, ◌++◌, Memᴰ}
use native.Mathlib.Omega.{arith}

module _ {ℓ} {A : Type ℓ} where
  abbrev pub length : List A → ℕ
  length [] = 0
  length (x ∷ xs) = suc (length xs)

  abbrev pub get_or : List A → ℕ → A → A
  get_or [] i d = d
  get_or (x ∷ xs) zero d = x
  get_or (x ∷ xs) (suc i) d = get_or xs i d

  abbrev pub take : ℕ → List A → List A
  take zero xs = []
  take (suc n) [] = []
  take (suc n) (x ∷ xs) = x ∷ take n xs

  abbrev pub drop : ℕ → List A → List A
  drop zero xs = xs
  drop (suc n) [] = []
  drop (suc n) (x ∷ xs) = drop n xs

  -- A predicate by recursion: it computes to tuples.
  abbrev pub All {κ} : (A → Type κ) → List A → Type κ
  All P [] = Unit
  All P (x ∷ xs) = P x × All P xs

  pub length-append : (xs ys : List A) → length (xs ++ ys) ≡ length xs + length ys
  length-append [] ys = omega arith
  length-append (x ∷ xs) ys = omega (arith, length-append xs ys)

  pub All-append {κ} : (P : A → Type κ) (xs ys : List A) → All P xs → All P ys → All P (xs ++ ys)
  All-append P [] ys h k = k
  All-append P (x ∷ xs) ys h k = (h.0, All-append P xs ys h.1 k)

-- `std::for_each` and the range loops: `f` works on the state that the loop changes.
module _ {ℓ κ} {A : Type ℓ} {S : Type κ} where
  unfoldable pub for_each : (A → S → S) → List A → S → S
  for_each f [] s = s
  for_each f (x ∷ xs) s = for_each f xs (f x s)

  -- What every round keeps, the loop keeps.
  pub for_each_inv {μ} :
      (P : S → Type μ) (f : A → S → S) (xs : List A) (s : S)
      → ((x : A) (t : S) → P t → P (f x t))
      → P s
      → P (for_each f xs s)
  unfolding for_each
  for_each_inv P f [] s keep h = h
  for_each_inv P f (x ∷ xs) s keep h = for_each_inv P f xs (f x s) keep (keep x s h)

  -- What the round of every member of the list keeps, the loop keeps.
  pub for_each_members {μ} :
      (P : S → Type μ) (f : A → S → S) (xs : List A) (s : S)
      → ((x : A) (t : S) → Memᴰ x xs → P t → P (f x t))
      → P s
      → P (for_each f xs s)
  unfolding for_each
  for_each_members P f [] s keep h = h
  for_each_members P f (x ∷ xs) s keep h =
      for_each_members P f xs (f x s) (λ y t m. keep y t (Memᴰ.tail m))
        (keep x s (Memᴰ.head refl) h)

  -- What the round of one member of the list brings about, and the other rounds keep, holds in the end.
  pub for_each_reach {μ ν} :
      (P : S → Type μ) (Q : S → Type ν) (f : A → S → S) (x : A) (xs : List A) (s : S)
      → Memᴰ x xs
      → ((y : A) (t : S) → P t → P (f y t))
      → ((y : A) (t : S) → P t → Q t → Q (f y t))
      → ((t : S) → P t → Q (f x t))
      → P s
      → P (for_each f xs s) × Q (for_each f xs s)
  unfolding for_each
  for_each_reach P Q f x [] s m keep_p keep_q make h = elim m [ ]
  for_each_reach P Q f x (y ∷ xs) s (Memᴰ.head e) keep_p keep_q make h =
      for_each_inv (λ t. P t × Q t) f xs (f y s) (λ z t pq. (keep_p z t pq.0, keep_q z t pq.0 pq.1))
        (keep_p y s h, subst (λ z. Q (f z s)) e (make s h))
  for_each_reach P Q f x (y ∷ xs) s (Memᴰ.tail m) keep_p keep_q make h =
      for_each_reach P Q f x xs (f y s) m keep_p keep_q make (keep_p y s h)
