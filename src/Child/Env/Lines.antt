-- ===== src/Child/Env/Lines.antt =====
-- The printed environment, read back line by line.
use scinit.Base.{
  ℕ, suc, ◌+◌, ◌==◌, if◌then◌else◌, ◌≡◌, refl, ap, ◌∙◌, sym, List, [], ◌∷◌, ◌++◌, arith, Text,
  text_key, length, All, ok, ok-injective,
}
use mathlib.Core.List.{append_assoc}
use scinit.Child.Types.{ChildProcess}
use scinit.Child.Env.{
  Vars, Inja, line, print_lines, keys, lookup_callback, lines, env_vars, handle_env,
}

-- How often the newline stands in a text.
unfoldable pub newlines : Text → ℕ
newlines [] = 0
newlines (c ∷ s) = let rest = newlines s in if c == b'\n' then suc rest else rest

newlines-append : (s t : Text) → newlines (s ++ t) ≡ newlines s + newlines t
unfolding newlines
newlines-append [] t = omega arith
newlines-append (c ∷ s) t = ground (arith, newlines-append s t)

-- A line is read up to its newline.
lines-append : (s t : Text) → newlines s ≡ 0 → lines (s ++ b'\n' ∷ t) ≡ s ∷ lines t
unfolding lines newlines
lines-append [] t h = refl
lines-append (c ∷ s) t h = ground (arith, lines-append s t)

-- A text that ends in a newline has as many lines as newlines.
length-lines-append :
    (s t : Text) → length (lines (s ++ b'\n' ∷ t)) ≡ suc (newlines s) + length (lines t)
unfolding lines newlines
length-lines-append [] t = omega arith
length-lines-append (c ∷ s) t = ground (arith, length-lines-append s t)

abbrev pub entry : Text → Text → Text
entry key val = key ++ b'=' ∷ val

line-append : (key val t : Text) → line key val ++ t ≡ entry key val ++ b'\n' ∷ t
line-append key val t = simp append_assoc

module _ (val : Text → Text) where
  abbrev pub extra_newlines : List Text → ℕ
  extra_newlines [] = 0
  extra_newlines (key ∷ keys) = newlines (entry key (val key)) + extra_newlines keys

  abbrev pub IsOneLine : Text → Type 0
  IsOneLine key = newlines (entry key (val key)) ≡ 0

  abbrev pub entries : List Text → List Text
  entries [] = []
  entries (key ∷ keys) = entry key (val key) ∷ entries keys

  lines-print_lines : (ks : List Text) → All IsOneLine ks → lines (print_lines ks val) ≡ entries ks
  unfolding lines
  lines-print_lines [] a = refl
  lines-print_lines (key ∷ ks) a = rw (line-append key (val key) (print_lines ks val)) (
      lines-append (entry key (val key)) (print_lines ks val) a.0
      ∙ ap (λ l. entry key (val key) ∷ l) (lines-print_lines ks a.1))

  length-lines-print_lines :
      (ks : List Text) → length (lines (print_lines ks val)) ≡ length ks + extra_newlines ks
  unfolding lines
  length-lines-print_lines [] = refl
  length-lines-print_lines (key ∷ ks) = rw (line-append key (val key) (print_lines ks val)) (
      omega (
        arith,
        length-lines-append (entry key (val key)) (print_lines ks val),
        length-lines-print_lines ks,
      ))

module _ (inja : Inja) (environ : List Text) (c : ChildProcess) (vars : Vars)
    (rendered : env_vars inja environ c ≡ ok vars) where
  handle_env_lem :
      handle_env inja environ c ≡ ok (lines (print_lines (keys vars) (lookup_callback vars)))
  unfolding handle_env
  handle_env_lem = rw (rendered, inja.render_loop_prints keys lookup_callback vars, handle_env) refl

  -- If no name and no value holds a newline, the environment has one entry `name=value` for each
  -- variable, in the order of the names.
  pub handle_env_entries :
      All (IsOneLine (lookup_callback vars)) (keys vars)
      → handle_env inja environ c ≡ ok (entries (lookup_callback vars) (keys vars))
  handle_env_entries a =
      handle_env_lem ∙ ap ok (lines-print_lines (lookup_callback vars) (keys vars) a)

  -- Each newline in a name or a value adds an entry to the environment: what follows it is taken
  -- for a variable of its own.
  pub length-handle_env :
      (env : List Text)
      → handle_env inja environ c ≡ ok env
      → length env ≡ length (keys vars) + extra_newlines (lookup_callback vars) (keys vars)
  length-handle_env env e =
      ap length (ok-injective (sym e ∙ handle_env_lem))
      ∙ length-lines-print_lines (lookup_callback vars) (keys vars)
