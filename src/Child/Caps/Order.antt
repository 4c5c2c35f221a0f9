-- ===== src/Child/Caps/Order.antt =====
-- The order in which a child gives up its privileges.
use scinit.Base.{
  ℕ, zero, suc, ℤ, pos, ◌≡◌, refl, sym, ap, ◌∙◌, ◌⊎◌, inl, inr, Bool, true, false, Option, none,
  some, List, [], ◌∷◌, ◌++◌, arith, Text, Bool-cases,
}
use mathlib.Core.Path.{fun_ext}
use mathlib.Core.List.{append_assoc, append-nil}
use scinit.Child.Types.{ChildProcess}
use scinit.Child.Caps.{
  Call, dup2, redirect, cap_set_proc, ambient_raise, Action, continue, ◌>>◌, pure, must, may,
  give_ttys, decode, raise_caps, handle_caps, append_caps, Exec, exec_child,
}
use scinit.Child.Caps.Steps.{
  Step, tty_steps, redirect_steps, raise_steps, drop_steps, child_steps, calls,
}

module _ (answer : List Call → Call → Bool) where
  run : List Step → Action Unit
  run [] = pure tt
  run ((true, call) ∷ steps) = must answer call >> run steps
  run ((false, call) ∷ steps) = may answer call >> run steps

  run-append : (s t : List Step) (h : List Call) → run (s ++ t) h ≡ (run s >> run t) h
  unfolding run must may
  run-append [] t h = refl
  run-append ((true, call) ∷ s) t h = ground (arith, run-append s t (h ++ call ∷ []))
  run-append ((false, call) ∷ s) t h = run-append s t (h ++ call ∷ [])

  run-tty_steps : (c : ChildProcess) (h : List Call) → run (tty_steps c) h ≡ give_ttys answer c h
  unfolding run must give_ttys
  run-tty_steps c h = ground arith

  run_one : (call : Call) (h : List Call) → run ((true, call) ∷ []) h ≡ must answer call h
  unfolding run must
  run_one call h = ground arith

  run-redirect_steps :
      (interrupts : ℕ) (fd target : ℤ) (rest : List Step) (h : List Call)
      → run (redirect_steps interrupts fd target ++ rest) h
        ≡ (redirect answer interrupts fd target >> run rest) h
  unfolding run redirect may
  run-redirect_steps zero fd target rest h = refl
  run-redirect_steps (suc interrupts) fd target rest h =
      run-redirect_steps interrupts fd target rest (h ++ dup2 fd target ∷ [])

  module _ (cap_from_name : Text → Option ℕ) where
    run-raise_steps :
        (caps : List Text) (h : List Call)
        → run (raise_steps cap_from_name caps) h ≡ raise_caps answer cap_from_name caps h
    unfolding run raise_caps must
    run-raise_steps [] h = refl
    run-raise_steps (capability ∷ rest) h =
        let call = ambient_raise (decode cap_from_name capability) in
        elim (Bool-cases (answer h call)) [
          | inl e ↦ rw (e, must) (run-raise_steps rest (h ++ call ∷ []))
          | inr e ↦ rw (e, must) refl
        ]

    raise_tail : ChildProcess → Action Unit
    raise_tail c =
        raise_caps answer cap_from_name c.capabilities
        >> must answer (cap_set_proc (append_caps [] c.capabilities))

    run-raise_tail :
        (c : ChildProcess)
        → run (
            raise_steps cap_from_name c.capabilities
            ++ (true, cap_set_proc (append_caps [] c.capabilities)) ∷ [])
          ≡ raise_tail c
    unfolding raise_tail
    run-raise_tail c = fun_ext λ h.
        run-append (raise_steps cap_from_name c.capabilities) _ h
        ∙ rw
            (
              fun_ext (run_one (cap_set_proc (append_caps [] c.capabilities))),
              run-raise_steps c.capabilities h,
            )
            refl

    -- `handle_caps` is the list of calls, made one after the other until a necessary one fails.
    handle_caps-run :
        (c : ChildProcess) (h : List Call)
        → handle_caps answer cap_from_name c h ≡ run (drop_steps cap_from_name c) h
    unfolding handle_caps
    handle_caps-run c h = sym (
        run-append (tty_steps c) _ h
        ∙ rw (run-tty_steps c h) (unfold run raise_tail in rw (run-raise_tail c) refl))

-- A first part of the steps was made, and then a necessary step, whose call failed.
abbrev pub StopsAt : (List Call → Call → Bool) → List Step → List Call → List Call → Type 0
StopsAt answer steps h made =
    (before : List Step) × (call : Call) × (rest : List Step) × (made
      ≡ h ++ (calls before ++ call ∷ []))
    × (steps ≡ before ++ (true, call) ∷ rest)
    × (answer (h ++ calls before) call ≡ false)

-- Each necessary step succeeds, after the calls before it.
abbrev pub AllSucceed : (List Call → Call → Bool) → List Step → List Call → Type 0
AllSucceed answer [] h = Unit
AllSucceed answer ((needed, call) ∷ steps) h =
    (needed ≡ true → answer h call ≡ true) × AllSucceed answer steps (h ++ call ∷ [])

module _ (answer : List Call → Call → Bool) where
  StopsAt-cons :
      (s : Step) (steps : List Step) (h made : List Call)
      → StopsAt answer steps (h ++ s.1 ∷ []) made
      → StopsAt answer (s ∷ steps) h made
  StopsAt-cons s steps h made (before, call, rest, m, split, failed) = (
    s ∷ before,
    call,
    rest,
    m ∙ append_assoc h _ _,
    ap (λ l. s ∷ l) split,
    rw (append_assoc h (s.1 ∷ []) (calls before)) at failed,
  )

  abbrev Outcomes : List Step → List Call → Type 0
  Outcomes steps h =
      ((run answer steps h ≡ (some tt, h ++ calls steps)) × AllSucceed answer steps h)
      ⊎ (((run answer steps h).0 ≡ none) × StopsAt answer steps h (run answer steps h).1)

  run_outcome : (steps : List Step) (h : List Call) → Outcomes steps h
  unfolding run must may
  run_outcome [] h = inl (rw append-nil refl, tt)
  run_outcome ((false, call) ∷ steps) h = elim (run_outcome steps (h ++ call ∷ [])) [
    | inl (e, all) ↦
        inl (e ∙ ap (λ l. (some tt, l)) (append_assoc h _ _), (λ f. absurd (cc f), all))
    | inr (e, stops) ↦ inr (e, StopsAt-cons (false, call) steps h _ stops)
  ]
  run_outcome ((true, call) ∷ steps) h = elim (Bool-cases (answer h call)) [
    | inr failed ↦
        rw (failed, must) (inr (refl, ([], call, steps, refl, refl, rw append-nil failed)))
    | inl succeeded ↦
        rw (succeeded, must)
          (elim (run_outcome steps (h ++ call ∷ [])) [
            | inl (e, all) ↦ inl (e ∙ ap (λ l. (some tt, l)) (append_assoc h _ _), (λ _. refl, all))
            | inr (e, stops) ↦ inr (e, StopsAt-cons (true, call) steps h _ stops)
          ])
  ]

  redirect_lem :
      (interrupts : ℕ) (fd target : ℤ) (h : List Call)
      → redirect answer interrupts fd target h
        ≡ (some tt, h ++ calls (redirect_steps interrupts fd target))
  unfolding redirect may
  redirect_lem zero fd target h = refl
  redirect_lem (suc interrupts) fd target h =
      redirect_lem interrupts fd target (h ++ dup2 fd target ∷ [])
      ∙ ap (λ l. (some tt, l)) (append_assoc h _ _)

  module _ (cap_from_name : Text → Option ℕ) (out_interrupts err_interrupts : ℕ) (c : ChildProcess)
      (environment : List Text) where
    abbrev steps : List Step
    steps = child_steps cap_from_name out_interrupts err_interrupts c

    abbrev executed : Exec
    executed = record { program = c.path; argv = c.path ∷ c.args; env = environment }

    -- The child makes the calls of `child_steps` and executes its program.
    exec_child-run :
        exec_child answer cap_from_name out_interrupts err_interrupts c environment []
        ≡ continue (run answer steps []) (λ _. pure executed)
    unfolding exec_child may
    exec_child-run =
        let out_calls = calls (redirect_steps out_interrupts c.stdout.writer (pos 1)) in
        rw
          (
            run-redirect_steps answer out_interrupts c.stdout.writer (pos 1) _ [],
            redirect_lem out_interrupts c.stdout.writer (pos 1) [],
            exec_child,
          )
          (rw
            (
              run-redirect_steps answer err_interrupts c.stderr.writer (pos 2) _ out_calls,
              redirect_lem err_interrupts c.stderr.writer (pos 2) out_calls,
            )
            (unfold run in rw (handle_caps-run answer cap_from_name c _) refl))

    finished :
        (r : Option Unit × List Call)
        → ((r ≡ (some tt, calls steps)) × AllSucceed answer steps [])
          ⊎ ((r.0 ≡ none) × StopsAt answer steps [] r.1)
        → let k = continue {B = Exec} r (λ _. pure executed) in
          ((k ≡ (some executed, calls steps)) × AllSucceed answer steps [])
          ⊎ ((k.0 ≡ none) × StopsAt answer steps [] k.1)
    finished (none, made) (inl (e, all)) = absurd (cc (ap (λ p. p.0) e))
    finished (some _, made) (inl (e, all)) = inl (ap (λ p. (some executed, p.1)) e, all)
    finished (none, made) (inr (_, stops)) = inr (refl, stops)
    finished (some _, made) (inr (e, stops)) = absurd (cc e)

    -- A child executes its program after all the calls of `child_steps`, made in this order and no
    -- others, of which each necessary one succeeded; the program gets its path as first argument. Or
    -- it executes nothing: it has made a first part of these calls, and then a necessary one that
    -- failed. Each `dup2` may be interrupted any number of times.
    pub exec_child_outcome :
        let r = exec_child answer cap_from_name out_interrupts err_interrupts c environment [] in
        ((r ≡ (some executed, calls steps)) × AllSucceed answer steps [])
        ⊎ ((r.0 ≡ none) × StopsAt answer steps [] r.1)
    exec_child_outcome = rw exec_child-run (finished (run answer steps []) (run_outcome steps []))
