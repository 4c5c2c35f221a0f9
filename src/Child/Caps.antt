-- ===== src/Child/Caps.antt =====
-- src/ChildProcess.cpp, `handle_caps` and the child's side of `do_fork`: which system calls are made
-- in the child, in which order, before it executes the program. `answer` tells whether a call
-- succeeds, given the calls before it.
pub mod Steps
pub mod Order
use scinit.Base.{
  ℕ, zero, suc, ℤ, pos, if◌then◌else◌, Bool, true, false, Option, none, some, List, [], ◌∷◌, ◌++◌,
  Text, codes,
}
use scinit.Child.Types.{ChildProcess}

pub data Call : Type 0 where
  dup2 : (fd target : ℤ) → Call
  close : (fd : ℤ) → Call
  chown : Text → (uid gid : ℕ) → Call
  chmod : Text → (mode : ℕ) → Call
  -- `cap_set_proc(cap_from_text(s))`
  cap_set_proc : Text → Call
  setgid setuid : ℕ → Call
  set_keep_caps : Bool → Call
  ambient_clear_all : Call
  ambient_raise : ℕ → Call

-- `none` is the `return false`, or the end of the process.
abbrev pub Action : Type 0 → Type 0
Action A = List Call → Option A × List Call

abbrev pub continue : {A B : Type 0} → Option A × List Call → (A → Action B) → Option B × List Call
continue (none, h) f = (none, h)
continue (some a, h) f = f a h

infixl 5 ◌>>=◌ ◌>>◌
abbrev pub ◌>>=◌ : {A B : Type 0} → Action A → (A → Action B) → Action B
◌>>=◌ m f h = continue (m h) f

abbrev pub ◌>>◌ : {B : Type 0} → Action (Unit {0}) → Action B → Action B
m >> k = m >>= λ _. k

abbrev pub pure : {A : Type 0} → A → Action A
pure a h = (some a, h)

abbrev pub equals_eip : Text → Text
equals_eip capability = codes " " ++ (capability ++ codes "=eip")

-- The appending loop over `capabilities`.
abbrev pub append_caps : Text → List Text → Text
append_caps s [] = s
append_caps s (capability ∷ rest) = append_caps (s ++ equals_eip capability) rest

abbrev pub transitional_caps : List Text → Text
transitional_caps caps = append_caps (codes "CAP_SETUID=eip CAP_SETGID=eip CAP_SETPCAP=eip") caps

-- `cap` stays 0 if the name cannot be decoded, and is raised all the same.
abbrev pub decode : (Text → Option ℕ) → Text → ℕ
decode cap_from_name capability = elim (cap_from_name capability) [ none ↦ 0 | some cap ↦ cap ]

-- What `execvpe` is called with.
pub record Exec : Type 0 where
  pub program : Text
  pub argv : List Text
  pub env : List Text

module _ (answer : List Call → Call → Bool) where
  -- A call after whose failure the function returns false.
  unfoldable pub must : Call → Action Unit
  must call h = if answer h call then (some tt, h ++ call ∷ []) else (none, h ++ call ∷ [])

  -- A call whose result is not looked at.
  unfoldable pub may : Call → Action Unit
  may call h = (some tt, h ++ call ∷ [])

  -- `while (dup2(…) == -1 && errno == EINTR) {}`: a call for each interruption and one more, which
  -- succeeds or fails for another reason.
  pub redirect : (interrupts : ℕ) → (fd target : ℤ) → Action Unit
  unfolding may
  redirect zero fd target = may (dup2 fd target)
  redirect (suc interrupts) fd target = may (dup2 fd target) >> redirect interrupts fd target

  pub give_ttys : ChildProcess → Action Unit
  unfolding must
  give_ttys c =
      if c.want_tty
      then (do
        must (chown c.stdout_pty_name c.uid c.gid)
        must (chown c.stderr_pty_name c.uid c.gid)
        must (chmod c.stdout_pty_name 0o620)
        must (chmod c.stderr_pty_name 0o620))
      else pure tt

  module _ (cap_from_name : Text → Option ℕ) where
    pub raise_caps : List Text → Action Unit
    unfolding must
    raise_caps [] = pure tt
    raise_caps (capability ∷ rest) =
        must (ambient_raise (decode cap_from_name capability)) >> raise_caps rest

    unfoldable pub handle_caps : ChildProcess → Action Unit
    unfolding give_ttys raise_caps may
    handle_caps c = do
      give_ttys c
      must (cap_set_proc (transitional_caps c.capabilities))
      may (set_keep_caps true)
      must (setgid c.gid)
      must (setuid c.uid)
      may (set_keep_caps false)
      must (cap_set_proc (transitional_caps c.capabilities))
      may ambient_clear_all
      raise_caps c.capabilities
      must (cap_set_proc (append_caps [] c.capabilities))

    -- The block of `do_fork` for the child; `none` is `exit(-1)` without a call of `execvpe`. The two
    -- numbers say how often the first and the second `dup2` are interrupted.
    unfoldable pub exec_child :
        (out_interrupts err_interrupts : ℕ) → ChildProcess → (environment : List Text) → Action Exec
    unfolding redirect may
    exec_child out_interrupts err_interrupts c environment = do
      redirect out_interrupts c.stdout.writer (pos 1)
      redirect err_interrupts c.stderr.writer (pos 2)
      may (close c.stdout.writer)
      may (close c.stderr.writer)
      handle_caps c
      pure (record { program = c.path; argv = c.path ∷ c.args; env = environment })
