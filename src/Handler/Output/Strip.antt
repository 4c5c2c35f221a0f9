-- ===== src/Handler/Output/Strip.antt =====
-- What `event_received` makes of the bytes that it reads.
use scinit.Base.{
  ℕ, zero, suc, ◌+◌, ◌-◌, ◌≤◌, ◌<◌, ◌==◌, ltb, if◌then◌else◌, ◌≡◌, refl, sym, ap, ◌∙◌, ◌≢◌, ◌⊎◌,
  inl, inr, false, ◌&&◌, [], ◌∷◌, ◌++◌, arith, Text, length, length-append, get_or, take, drop, All,
  Bool-cases,
}
use native.Mathlib.Nat.{zero-add, add-suc, suc-add}
use scinit.Handler.Output.{c_string, find_begin, find_stop, strip}

-- The text without the newlines at its front, and without those at its end.
abbrev pub trim_front : Text → Text
trim_front [] = []
trim_front (c ∷ s) = if c == b'\n' then trim_front s else c ∷ s

abbrev pub or_last : ℕ → Text → Text
or_last c [] = if c == b'\n' then [] else c ∷ []
or_last c (d ∷ s) = c ∷ d ∷ s

abbrev pub trim_back : Text → Text
trim_back [] = []
trim_back (c ∷ s) = or_last c (trim_back s)

abbrev pub NonZero : ℕ → Type 0
NonZero c = c ≢ 0

c_string-NonZero : (s : Text) → All NonZero s → c_string s ≡ s
unfolding c_string
c_string-NonZero [] a = refl
c_string-NonZero (c ∷ s) a = ground (arith, c_string-NonZero s a.1, a.0)

drop-find_begin : (s : Text) → drop (find_begin s) s ≡ trim_front s
unfolding find_begin
drop-find_begin [] = refl
drop-find_begin (c ∷ s) = ground (arith, drop-find_begin s)

find_begin-le-length : (s : Text) → find_begin s ≤ length s
unfolding find_begin
find_begin-le-length [] = omega arith
find_begin-le-length (c ∷ s) = ground (arith, find_begin-le-length s)

get_or-drop : (s : Text) (b i : ℕ) → get_or (drop b s) i 0 ≡ get_or s (b + i) 0
get_or-drop s zero i = rw zero-add refl
get_or-drop [] (suc b) i = refl
get_or-drop (c ∷ s) (suc b) i = get_or-drop s b i ∙ rw suc-add refl

length-drop : (s : Text) (b : ℕ) → b ≤ length s → length (drop b s) + b ≡ length s
length-drop s zero h = omega arith
length-drop [] (suc b) h = elim h [ ]
length-drop (c ∷ s) (suc b) h = omega (arith, length-drop s b (omega arith))

take_all : (s : Text) → take (length s) s ≡ s
take_all [] = refl
take_all (c ∷ s) = ap (λ l. c ∷ l) (take_all s)

take-suc : (s : Text) (k : ℕ) → k < length s → take (suc k) s ≡ take k s ++ get_or s k 0 ∷ []
take-suc [] k h = elim h [ ]
take-suc (c ∷ s) zero h = refl
take-suc (c ∷ s) (suc k) h = ap (λ l. c ∷ l) (take-suc s k (omega arith))

length-take : (s : Text) (k : ℕ) → k ≤ length s → length (take k s) ≡ k
length-take s zero h = refl
length-take [] (suc k) h = elim h [ ]
length-take (c ∷ s) (suc k) h = omega (arith, length-take s k (omega arith))

trim_back-snoc :
    (s : Text) (d : ℕ) → trim_back (s ++ d ∷ []) ≡ (if d == b'\n' then trim_back s else s ++ d ∷ [])
trim_back-snoc [] d = refl
trim_back-snoc (c ∷ []) d = ground arith
trim_back-snoc (c ∷ e ∷ s) d = elim (Bool-cases (d == b'\n')) [
  | inl nl ↦ rw nl (rw nl at (ap (or_last c) (trim_back-snoc (e ∷ s) d)))
  | inr other ↦ rw other (rw other at (ap (or_last c) (trim_back-snoc (e ∷ s) d)))
]

-- The scan from the back finds the end of the trimmed text.
find_stop-trim_back :
    (buf : Text) (b k : ℕ)
    → k < length (drop b buf)
    → (get_or (drop b buf) 0 0 == b'\n') ≡ false
    → find_stop buf b (suc (b + k)) ≡ b + length (trim_back (take (suc k) (drop b buf)))
unfolding find_stop
find_stop-trim_back buf b zero h first = rw (take-suc (drop b buf) 0 h, first) (ground arith)
find_stop-trim_back buf b (suc k) h first =
    let t = drop b buf in
    let shorter : find_stop buf b (b + suc k) ≡ b + length (trim_back (take (suc k) t)) =
      rw add-suc (find_stop-trim_back buf b k (omega arith) first) in
    let longer : length (take (suc k) t ++ get_or t (suc k) 0 ∷ []) ≡ suc (suc k) = omega (
      arith,
      length-append (take (suc k) t) (get_or t (suc k) 0 ∷ []),
      length-take t (suc k) (omega arith),
    ) in
    rw (take-suc t (suc k) h, trim_back-snoc (take (suc k) t) (get_or t (suc k) 0))
      (rw (get_or-drop buf b (suc k))
        (ground (arith, shorter, rw (get_or-drop buf b (suc k)) at longer)))

-- The trimmed text is a front part.
take-trim_back : (s : Text) → take (length (trim_back s)) s ≡ trim_back s
take-trim_back [] = refl
take-trim_back (c ∷ s) = go (trim_back s) (take-trim_back s)
  where
    go : (t : Text) → take (length t) s ≡ t → take (length (or_last c t)) (c ∷ s) ≡ or_last c t
    go [] e = elim (Bool-cases (c == b'\n')) [ inl nl ↦ rw nl refl | inr other ↦ rw other refl ]
    go (d ∷ t) e = ap (λ l. c ∷ l) e

length-trim_back : (s : Text) → length (trim_back s) ≤ length s
length-trim_back [] = omega arith
length-trim_back (c ∷ s) = go (trim_back s) (length-trim_back s)
  where
    go : (t : Text) → length t ≤ length s → length (or_last c t) ≤ suc (length s)
    go [] h = ground arith
    go (d ∷ t) h = omega arith

str-drop : (b : ℕ) (s : Text) → (if ltb 0 b then drop b s else s) ≡ drop b s
str-drop zero s = refl
str-drop (suc b) s = ground arith

find_stop_short : (buf : Text) (b stop : ℕ) → stop ≤ suc b → find_stop buf b stop ≡ stop
unfolding find_stop
find_stop_short buf b zero h = refl
find_stop_short buf b (suc end) h = ground arith

trim_front_cases :
    (s : Text)
    → (trim_front s ≡ []) ⊎ ((c : ℕ) × (t : Text) × (trim_front s ≡ c ∷ t) × ((c == b'\n') ≡ false))
trim_front_cases [] = inl refl
trim_front_cases (c ∷ s) = elim (Bool-cases (c == b'\n')) [
  | inl nl ↦ rw nl (trim_front_cases s)
  | inr other ↦ rw other (inr (c, s, refl, other))
]

module _ (buf : Text) (b : ℕ) (t : Text) (rest : drop b buf ≡ t)
    (total : length t + b ≡ length buf) where
  -- The text between the two ends that were found.
  abbrev between : ℕ → Text
  between stop = if ltb stop (length buf) && ltb b stop then take (stop - b) t else t

  between-nil : t ≡ [] → between (find_stop buf b (length buf)) ≡ []
  between-nil e =
      let none_left : length t ≡ 0 = ap length e in
      rw (find_stop_short buf b (length buf) (omega arith)) (ground (arith, e))

  between-cons :
      (c : ℕ) (u : Text)
      → t ≡ c ∷ u
      → (c == b'\n') ≡ false
      → between (find_stop buf b (length buf)) ≡ trim_back t
  between-cons c u e other =
      let size : length t ≡ suc (length u) = ap length e in
      let found : find_stop buf b (length buf) ≡ b + length (trim_back t) = stop_at size in
      let some_left : 0 < length (trim_back t) = rw e (kept (trim_back u)) in
      let at_most : length (trim_back t) ≤ length t = length-trim_back t in
      elim (Bool-cases (ltb (length (trim_back t)) (length t))) [
        | inl less ↦ rw found (
            let cut : (b + length (trim_back t)) - b ≡ length (trim_back t) = omega arith in
            let front : take ((b + length (trim_back t)) - b) t ≡ trim_back t =
              rw cut (take-trim_back t) in
            ground (arith, front))
        | inr all ↦ rw found (
            let full : t ≡ trim_back t =
              sym (take_all t)
              ∙ ap (λ (k : ℕ). take k t) (same_length some_left at_most all)
              ∙ take-trim_back t in
            ground (arith, full))
      ]
    where
      kept : (v : Text) → 0 < length (or_last c v)
      kept [] = ground arith
      kept (d ∷ v) = omega arith

      same_length :
          0 < length (trim_back t)
          → length (trim_back t) ≤ length t
          → ltb (length (trim_back t)) (length t) ≡ false
          → length t ≡ length (trim_back t)
      same_length p q r = ground arith

      stop_at : length t ≡ suc (length u) → find_stop buf b (length buf) ≡ b + length (trim_back t)
      stop_at size =
          let end : length buf ≡ suc (b + length u) = omega arith in
          rw end (
            find_stop-trim_back buf b (length u) (rw rest (omega arith)) (rw (rest, e) other)
            ∙ rw rest (rw (← size) (rw (take_all t) refl)))

-- What is passed on is what was read, without the newlines at both ends, if no byte of it is 0.
pub strip-trim : (buf : Text) → All NonZero buf → strip buf ≡ trim_back (trim_front buf)
unfolding strip
strip-trim buf a =
    let b = find_begin buf in
    rw (c_string-NonZero buf a, str-drop b buf)
      (rw (drop-find_begin buf) (elim (trim_front_cases buf) [
        | inl e ↦ between-nil buf b (trim_front buf) (drop-find_begin buf) total e ∙ rw e refl
        | inr (c, t, e, other) ↦
            between-cons buf b (trim_front buf) (drop-find_begin buf) total c t e other
      ]))
  where
    total : length (trim_front buf) + find_begin buf ≡ length buf
    total =
        rw (drop-find_begin buf) at (length-drop buf (find_begin buf) (find_begin-le-length buf))
