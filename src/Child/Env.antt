-- ===== src/Child/Env.antt =====
-- src/ChildProcess.cpp, `handle_env`: the environment of a child process. `environ` is an argument,
-- and inja, which renders the templates, is a parameter.
pub mod Filter
pub mod Lines
use scinit.Base.{
  ℕ, ◌==◌, if◌then◌else◌, ◌≡◌, refl, Bool, true, false, ◌||◌, Option, none, some, List, [], ◌∷◌,
  ◌++◌, map, Text, codes, text_beq, Map, insert, index, text_key, zero, suc, ◌+◌, take, drop,
  >>=-eq-ok, Outcome, err, ok, ◌>>=◌,
}
use scinit.Child.Types.{ChildProcess}

abbrev pub Vars : Type 0
Vars = Map Text Text

pub data EnvError : Type 0 where
  no_equals_sign template_error : EnvError

abbrev pub Environment {ℓ} : Type ℓ → Type ℓ
Environment A = Outcome EnvError A

-- One line of the template that prints the environment.
abbrev pub line : Text → Text → Text
line key val = key ++ b'=' ∷ (val ++ b'\n' ∷ [])

abbrev pub print_lines : List Text → (Text → Text) → Text
print_lines [] val = []
print_lines (key ∷ keys) val = line key (val key) ++ print_lines keys val

-- `inja::render`, and `Environment::render` for the template
-- `{% for var in keys(vars) %}{{ var }}={{ lookup(vars, var) }}\n{% endfor %}` with the two callbacks
-- that the program adds. `none` is an exception. A `for` loop of inja prints its body for each element.
pub record Inja : Type 0 where
  pub render : Text → Vars → Option Text
  pub render_loop : (keys : Vars → List Text) → (lookup : Vars → Text → Text) → Vars → Option Text
  pub render_loop_prints :
      (keys : Vars → List Text) (get : Vars → Text → Text) (vars : Vars)
      → render_loop keys get vars ≡ some (print_lines (keys vars) (get vars))

-- The callbacks `keys` and `lookup`.
abbrev pub keys : Vars → List Text
keys vars = map (λ entry. entry.0) vars

abbrev pub lookup_callback : Vars → Text → Text
lookup_callback vars key = index key [] vars

-- `var.find('=')`; `none` is `npos`.
unfoldable pub find_equals : Text → Option ℕ
find_equals [] = none
find_equals (c ∷ s) =
    if c == b'=' then some 0 else elim (find_equals s) [ none ↦ none | some n ↦ some (n + 1) ]

abbrev pub member : Text → List Text → Bool
member key [] = false
member key (k ∷ ks) = text_beq k key || member key ks

-- `var.substr(0, pos)` and `var.substr(pos + 1)`. Both are the whole string at `npos`, since
-- `npos + 1` wraps around to 0. So the test `pos <= 0` is passed by a string with no '='.
unfoldable pub split_var : Text → Option ℕ → Environment (Text × Text)
split_var var none = ok (var, var)
split_var var (some zero) = err no_equals_sign
split_var var (some (suc n)) = ok (take (suc n) var, drop (suc (suc n)) var)

pub import_var : List Text → Text × Text → Vars → Vars
import_var allowed (key, val) vars = if member key allowed then insert key val vars else vars

-- The loop over `environ`.
unfoldable pub import_vars : List Text → List Text → Vars → Environment Vars
unfolding split_var find_equals import_var
import_vars allowed [] vars = ok vars
import_vars allowed (var ∷ environ) vars = do
  entry ← split_var var (find_equals var)
  import_vars allowed environ (import_var allowed entry vars)

-- The variables that are set whatever scinit's own environment says.
unfoldable pub force_vars : ChildProcess → Vars → Vars
force_vars c vars =
    let named = insert (codes "USER") c.username vars in
    if c.want_default_env
    then insert (codes "PWD") (codes "/app") (
        insert (codes "HOME") (codes "/app") (
          insert (codes "TERM") (codes "screen") (
            insert (codes "SHELL") (codes "/bin/bash") (
              insert (codes "PATH") (codes "/usr/local/bin:/usr/bin:/bin") (
                insert (codes "LOGNAME") c.username (
                  insert (codes "LANGUAGE") (codes "en")
                    (insert (codes "LANG") (codes "C") named)))))))
    else named

-- `std::getline` until the end of the stream: a last line that is empty is not read.
abbrev pub prepend : ℕ → List Text → List Text
prepend c [] = (c ∷ []) ∷ []
prepend c (l ∷ ls) = (c ∷ l) ∷ ls

unfoldable pub lines : Text → List Text
lines [] = []
lines (c ∷ s) = let rest = lines s in if c == b'\n' then [] ∷ rest else prepend c rest

abbrev pub or_throw {ℓ} : {A : Type ℓ} → Option A → Environment A
or_throw none = err template_error
or_throw (some a) = ok a

module _ (inja : Inja) where
  -- The loop over `env_extra_vars`: each template sees the variables that stand before it.
  unfoldable pub extra_vars : List (Text × Text) → Vars → Environment Vars
  extra_vars [] vars = ok vars
  extra_vars ((key, template) ∷ rest) vars = do
    val ← or_throw (inja.render template vars)
    extra_vars rest (insert key val vars)

  -- All of `envObj["vars"]`.
  unfoldable pub env_vars : List Text → ChildProcess → Environment Vars
  unfolding import_vars force_vars extra_vars
  env_vars environ c = do
    imported ← import_vars c.allowed_env_vars environ []
    extra_vars c.env_extra_vars (force_vars c imported)

  unfoldable pub handle_env : List Text → ChildProcess → Environment (List Text)
  unfolding env_vars lines
  handle_env environ c = do
    vars ← env_vars environ c
    envstr ← or_throw (inja.render_loop keys lookup_callback vars)
    ok (lines envstr)
