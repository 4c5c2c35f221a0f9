-- ===== src/Child/Env/Filter.antt =====
-- Which variables a child process gets, and from where.
use mathlib.Core.Path.{ap₂}
use mathlib.Core.List.{Memᴰ}
use scinit.Base.{
  if◌then◌else◌, ◌≡◌, refl, sym, ◌∙◌, ap, ◌⊎◌, inl, inr, Bool, true, false, Option, none, some,
  List, [], ◌∷◌, map, arith, Text, codes, text_beq, text_beq_iff, lookup, insert, lookup-insert,
  text_key, Bool-cases, Option-cases, ◌||◌, >>=-eq-ok, ok, ok-injective,
}
use scinit.Child.Types.{ChildProcess}
use scinit.Child.Env.{
  Vars, Inja, find_equals, split_var, member, import_var, import_vars, force_vars, extra_vars,
  env_vars, or_throw,
}

-- The variable `var` of `environ` is the assignment of `val` to a whitelisted `key`.
abbrev pub Imported : List Text → List Text → Text → Text → Type 0
Imported allowed environ key val =
    (member key allowed ≡ true)
    × (var : Text) × Memᴰ var environ
    × (split_var var (find_equals var) ≡ ok (key, val))

lookup-import_var :
    (allowed : List Text) (k v key val : Text) (vars : Vars)
    → lookup key (import_var allowed (k, v) vars) ≡ some val
    → (lookup key vars ≡ some val) ⊎ ((member key allowed ≡ true) × (k ≡ key) × (v ≡ val))
unfolding import_var
lookup-import_var allowed k v key val vars found = elim (Bool-cases (member k allowed)) [
  | inr out ↦ inl (rw out at found)
  | inl listed ↦ elim (Bool-cases (text_beq k key)) [
    | inl same ↦
        let e : k ≡ key = (text_beq_iff k key).0 same in
        inr (rw e at listed, e, cc (rw (listed, lookup-insert, same) at found))
    | inr other ↦ inl (rw (listed, lookup-insert, other) at found)
  ]
]

-- The variables that come through are those that were there, and whitelisted ones of `environ`.
import_vars_from :
    (allowed environ : List Text) (vars out : Vars) (key val : Text)
    → import_vars allowed environ vars ≡ ok out
    → lookup key out ≡ some val
    → (lookup key vars ≡ some val) ⊎ Imported allowed environ key val
unfolding import_vars
import_vars_from allowed [] vars out key val e found =
    inl (ap (lookup key) (ok-injective {a = vars} e) ∙ found)
import_vars_from allowed (var ∷ environ) vars out key val e found =
    let ((k, v), split, rest) =
      >>=-eq-ok (split_var var (find_equals var))
        (λ entry. import_vars allowed environ (import_var allowed entry vars)) e in
    elim (import_vars_from allowed environ (import_var allowed (k, v) vars) out key val rest
      found) [
        | inr (listed, source, m, s) ↦ inr (listed, source, Memᴰ.tail m, s)
        | inl before ↦ elim (lookup-import_var allowed k v key val vars before) [
          | inl old ↦ inl old
          | inr (listed, ek, ev) ↦
              inr (listed, var, Memᴰ.head refl, split ∙ ap₂ (λ (x y : Text). ok (x, y)) ek ev)
        ]
      ]

-- The variables that the program sets itself, as a table.
abbrev pub default_table : ChildProcess → Vars
default_table c =
    (codes "PWD", codes "/app")
    ∷ (codes "HOME", codes "/app")
    ∷ (codes "TERM", codes "screen")
    ∷ (codes "SHELL", codes "/bin/bash")
    ∷ (codes "PATH", codes "/usr/local/bin:/usr/bin:/bin")
    ∷ (codes "LOGNAME", c.username)
    ∷ (codes "LANGUAGE", codes "en")
    ∷ (codes "LANG", codes "C")
    ∷ (codes "USER", c.username)
    ∷ []

abbrev pub forced_table : ChildProcess → Vars
forced_table c = if c.want_default_env then default_table c else (codes "USER", c.username) ∷ []

abbrev pub or_else {ℓ} : {A : Type ℓ} → Option A → Option A → Option A
or_else (some a) o = some a
or_else none o = o

lookup-cons :
    (k key v : Text) (m : Vars) (o : Option Text)
    → or_else (lookup key ((k, v) ∷ m)) o
      ≡ (if text_beq k key then some v else or_else (lookup key m) o)
unfolding lookup
lookup-cons k key v m o = ground arith

lookup-force_vars :
    (key : Text) (c : ChildProcess) (vars : Vars)
    → lookup key (force_vars c vars) ≡ or_else (lookup key (forced_table c)) (lookup key vars)
unfolding force_vars lookup
lookup-force_vars key c vars = elim (Bool-cases c.want_default_env) [
  | inl e ↦ rw (e, force_vars) (simp (lookup-insert, lookup-cons, lookup) refl)
  | inr e ↦ rw (e, force_vars) (simp (lookup-insert, lookup-cons, lookup) refl)
]

||-false : {a b : Bool} → (a || b) ≡ false → (a ≡ false) × (b ≡ false)
||-false h = ground arith

some_else {ℓ} :
    {A : Type ℓ} (p : Option A) {o : Option A} {a b : A}
    → o ≡ some a
    → or_else o p ≡ some b
    → some a ≡ some b
some_else p e h = ground arith

none_else {ℓ} : {A : Type ℓ} {o p : Option A} {b : A} → o ≡ none → or_else o p ≡ some b → p ≡ some b
none_else e h = ground arith

not_in_empty : (key : Text) {val : Text} → lookup {V = Text} key [] ≡ some val → ⊥
unfolding lookup
not_in_empty key h = cc

module _ (inja : Inja) where
  -- A variable that is not in the list of extra variables is left alone.
  lookup-extra_vars :
      (extra : List (Text × Text)) (vars out : Vars) (key : Text)
      → extra_vars inja extra vars ≡ ok out
      → member key (map (λ p. p.0) extra) ≡ false
      → lookup key out ≡ lookup key vars
  unfolding extra_vars
  lookup-extra_vars [] vars out key e m = ap (lookup key) (ok-injective (sym e))
  lookup-extra_vars ((k, t) ∷ rest) vars out key e m =
      let (val, _, later) =
        >>=-eq-ok (or_throw (inja.render t vars)) (λ v. extra_vars inja rest (insert k v vars)) e in
      let (differs, absent) =
        ||-false {a = text_beq k key} {b = member key (map (λ p. p.0) rest)} m in
      lookup-extra_vars rest (insert k val vars) out key later absent
      ∙ rw (lookup-insert, differs) refl

  -- A variable of the child's environment is an extra variable, or one that the program sets itself,
  -- or stands in the whitelist and in scinit's own environment with this value.
  pub env_vars_origin :
      (environ : List Text) (c : ChildProcess) (vars : Vars) (key val : Text)
      → env_vars inja environ c ≡ ok vars
      → lookup key vars ≡ some val
      → (member key (map (λ p. p.0) c.env_extra_vars) ≡ true)
        ⊎ (lookup key (forced_table c) ≡ some val)
        ⊎ Imported c.allowed_env_vars environ key val
  unfolding env_vars
  env_vars_origin environ c vars key val e found =
      let (imported, first, rest) =
        >>=-eq-ok (import_vars c.allowed_env_vars environ [])
          (λ v. extra_vars inja c.env_extra_vars (force_vars c v)) e in
      elim (Bool-cases (member key (map (λ p. p.0) c.env_extra_vars))) [
        | inl extra ↦ inl extra
        | inr other ↦
            let known : or_else (lookup key (forced_table c)) (lookup key imported) ≡ some val =
              sym (lookup-force_vars key c imported)
              ∙ sym (lookup-extra_vars c.env_extra_vars (force_vars c imported) vars key rest other)
              ∙ found in
            elim (Option-cases (lookup key (forced_table c))) [
              | inr (v, forced) ↦ inr (inl (forced ∙ some_else (lookup key imported) forced known))
              | inl free ↦
                  elim (import_vars_from c.allowed_env_vars environ [] imported key val first
                    (none_else free known)) [
                      | inl absurd_start ↦ absurd (not_in_empty key absurd_start)
                      | inr source ↦ inr (inr source)
                    ]
            ]
      ]

  -- Whatever scinit's own environment says, a child gets its own user name as USER, and with the
  -- default environment the fixed PATH, unless the configuration sets these variables.
  pub env_vars_forced :
      (environ : List Text) (c : ChildProcess) (vars : Vars) (key val : Text)
      → env_vars inja environ c ≡ ok vars
      → member key (map (λ p. p.0) c.env_extra_vars) ≡ false
      → lookup key (forced_table c) ≡ some val
      → lookup key vars ≡ some val
  unfolding env_vars
  env_vars_forced environ c vars key val e other forced =
      let (imported, first, rest) =
        >>=-eq-ok (import_vars c.allowed_env_vars environ [])
          (λ v. extra_vars inja c.env_extra_vars (force_vars c v)) e in
      lookup-extra_vars c.env_extra_vars (force_vars c imported) vars key rest other
      ∙ lookup-force_vars key c imported
      ∙ rw forced refl
