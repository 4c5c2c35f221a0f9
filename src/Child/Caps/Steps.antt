-- ===== src/Child/Caps/Steps.antt =====
-- The calls that src/ChildProcess.cpp makes in the child, as a list in their order.
use scinit.Base.{
  ℕ, zero, suc, ℤ, pos, if◌then◌else◌, Bool, true, false, Option, List, [], ◌∷◌, ◌++◌, map, Text,
}
use scinit.Child.Types.{ChildProcess}
use scinit.Child.Caps.{
  Call, dup2, close, chown, chmod, cap_set_proc, setgid, setuid, set_keep_caps, ambient_clear_all,
  ambient_raise, decode, transitional_caps, append_caps,
}

-- A call, and whether the function goes on only if it succeeds.
abbrev pub Step : Type 0
Step = Bool × Call

abbrev pub tty_steps : ChildProcess → List Step
tty_steps c =
    if c.want_tty
    then (true, chown c.stdout_pty_name c.uid c.gid)
      ∷ (true, chown c.stderr_pty_name c.uid c.gid)
      ∷ (true, chmod c.stdout_pty_name 0o620)
      ∷ (true, chmod c.stderr_pty_name 0o620)
      ∷ []
    else []

abbrev pub redirect_steps : (interrupts : ℕ) → (fd target : ℤ) → List Step
redirect_steps zero fd target = (false, dup2 fd target) ∷ []
redirect_steps (suc interrupts) fd target =
    (false, dup2 fd target) ∷ redirect_steps interrupts fd target

module _ (cap_from_name : Text → Option ℕ) where
  abbrev pub raise_steps : List Text → List Step
  raise_steps [] = []
  raise_steps (capability ∷ rest) =
      (true, ambient_raise (decode cap_from_name capability)) ∷ raise_steps rest

  -- All the calls: the group goes before the user, both under the transitional capabilities, and in
  -- the end only the configured capabilities are left.
  abbrev pub drop_steps : ChildProcess → List Step
  drop_steps c =
      tty_steps c
      ++ ((true, cap_set_proc (transitional_caps c.capabilities))
          ∷ (false, set_keep_caps true)
          ∷ (true, setgid c.gid)
          ∷ (true, setuid c.uid)
          ∷ (false, set_keep_caps false)
          ∷ (true, cap_set_proc (transitional_caps c.capabilities))
          ∷ (false, ambient_clear_all)
          ∷ (raise_steps c.capabilities
              ++ (true, cap_set_proc (append_caps [] c.capabilities)) ∷ []))

  -- The redirection of the two streams, and then the privileges.
  abbrev pub child_steps : (out_interrupts err_interrupts : ℕ) → ChildProcess → List Step
  child_steps out_interrupts err_interrupts c =
      redirect_steps out_interrupts c.stdout.writer (pos 1)
      ++ (redirect_steps err_interrupts c.stderr.writer (pos 2)
          ++ ((false, close c.stdout.writer) ∷ (false, close c.stderr.writer) ∷ drop_steps c))

abbrev pub calls : List Step → List Call
calls steps = map (λ s. s.1) steps
