-- ===== src/Handler/Loop/Startup.antt =====
-- The event loop starts the programs, level by level of their dependencies.
use scinit.Base.{
  ℕ, ℤ, suc, ◌+◌, ◌≡◌, refl, ap, ◌∙◌, inl, inr, true, none, some, List, [], ◌∷◌, All, lookup,
  nat_key, int_key, subst, ok, ok-injective, sym, arith, length,
}
use scinit.Child.Types.{ChildProcess}
use scinit.Handler.Types.{ProcessHandler}
use scinit.Handler.Accounts.{AccountsOf}
use scinit.Handler.Signals.Exits.{sigchld_received_lem}
use scinit.Handler.Events.{EpollEvent, event_received}
use scinit.Handler.Events.Hangup.{event_received_same}
use scinit.Handler.Start.{notify_all, start_programs}
use scinit.Handler.Start.Accounts.{AllStartWell, start_programs-Accounts}
use scinit.Handler.Start.Startup.{
  AllStartable, IsRanked, RunsBelow, Reached, Reached-start, start_programs-Reached,
  start_programs-Reached_still,
}
use scinit.Handler.Loop.{
  Round, reap, dispatch, serve, is_idle, Verdict, go_on, decide_exit, waiting, loop,
}
use scinit.Handler.Loop.Rule.{dispatch_keeps, decide_exit_keeps, Decided, Verdict-cases}
use scinit.Handler.Loop.Invariant.{RunsWell, WellStarted, Anything, AllHeard-Anything}
use scinit.Handler.Loop.Termination.{AccountsOf-IsInvariant, idle-NothingLeft}

-- No pid of the handler is among those that `waitpid` gives.
abbrev pub AllStrange : ProcessHandler → List (ℤ × ℤ) → Type 0
AllStrange s reaped = All (λ (entry : ℤ × ℤ). lookup entry.0 s.id_for_pid ≡ none) reaped

-- In each round the starts succeed, with new pids, none of the children exits, and no event faults; the
-- starts at the end of the round may fail as long as they do not fault.
abbrev pub RunsSmoothly : List Round → ProcessHandler → Type 0
RunsSmoothly [] s = Unit
RunsSmoothly (round ∷ rounds) s =
    AllStartWell round.starts s.all_objs (notify_all s)
    × AllStartable round.starts s
    × ((begun : ProcessHandler) × (start_programs round.starts s ≡ ok begun)
        × AllStrange begun round.reaped
        × ((t : ProcessHandler) × (dispatch round.events begun ≡ ok t)
            × AllStartWell round.restarts t.all_objs (notify_all t)
            × ((v : Verdict) × (decide_exit round.restarts t ≡ ok v)
                × ((u : ProcessHandler) → v ≡ go_on u → RunsSmoothly rounds u))))

reap_strange :
    (reaped : List (ℤ × ℤ)) (s : ProcessHandler) → AllStrange s reaped → reap reaped s ≡ ok s
unfolding reap
reap_strange [] s strange = refl
reap_strange ((pid, rc) ∷ rest) s (strange, others) =
    rw ((sigchld_received_lem pid rc s).0 strange) (reap_strange rest s others)

serve_lem :
    (round : Round) (s begun t : ProcessHandler)
    → start_programs round.starts s ≡ ok begun
    → AllStrange begun round.reaped
    → dispatch round.events begun ≡ ok t
    → serve round s ≡ ok t
unfolding serve
serve_lem round s begun t started strange heard =
    rw started (rw (reap_strange round.reaped begun strange) heard)

pub RunsSmoothly-RunsWell :
    (rounds : List Round) (s : ProcessHandler) → RunsSmoothly rounds s → RunsWell rounds s
RunsSmoothly-RunsWell [] s w = tt
RunsSmoothly-RunsWell (round ∷ rounds) s
      (w, able, (begun, started, strange, (v, heard, w', (d, decided, rest)))) =
    (
      w,
      λ t served.
          let same : v ≡ t =
            ok-injective (sym (serve_lem round s begun v started strange heard) ∙ served) in
          subst
            (λ (x : ProcessHandler).
              AllStartWell round.restarts x.all_objs (notify_all x)
              × ((u : ProcessHandler)
                  → decide_exit round.restarts x ≡ ok (go_on u)
                  → RunsWell rounds u))
            same
            (w', λ u e. RunsSmoothly-RunsWell rounds u (rest u (ok-injective (sym decided ∙ e)))),
    )

module _ (depth : ℕ → ℕ) (s : ProcessHandler) (k : IsRanked depth s) (r : ℕ) (c : ChildProcess)
    (root : lookup r s.heap ≡ some c) (first : depth r ≡ 0) where
  abbrev pub Holds : ℕ → ProcessHandler → Type 0
  Holds n t = AccountsOf t × Reached depth s n t

  event-Holds :
      (n : ℕ) (e : EpollEvent) (t u : ProcessHandler)
      → event_received e t ≡ ok u
      → Holds n t
      → Holds n u
  event-Holds n e t u h (a, x) =
      let (_, _, _, heap, all, objs) = event_received_same e t {t = u} h in
      (
        AccountsOf-IsInvariant.event e t u h a,
        record {
          lists = (objs ∙ x.lists.0, all ∙ x.lists.1);
          goes_on = rw heap (x.goes_on);
          below = rw heap (x.below);
        },
      )

  -- The object at `r` runs, so the counter is not 0.
  busy : (n : ℕ) (t : ProcessHandler) → Holds (suc n) t → is_idle t ≡ true → ⊥
  busy n t (a, x) idle =
      let (d, found, runs) = x.below r c root (omega (arith, first)) in
      (idle-NothingLeft t a idle).no_process r d found runs

  pub loop_from :
      (rounds : List Round) (n : ℕ) (t : ProcessHandler)
      → RunsSmoothly rounds t
      → Holds n t
      → (u : ProcessHandler) × (loop rounds t ≡ waiting u) × Reached depth s (n + length rounds) u
  unfolding loop
  loop_from [] n t well (a, x) = (t, refl, subst (λ m. Reached depth s m t) (omega arith) x)
  loop_from (round ∷ rounds) n t
        (w, able, (begun, started, strange, (v, heard, w', (d, decided, rest)))) (a, x) =
      let y : Holds (suc n) begun = (
        start_programs-Accounts round.starts t begun w started a,
        start_programs-Reached depth s k round.starts n t begun able started x,
      ) in
      let z : Holds (suc n) v =
        dispatch_keeps Anything (λ e p q any h held. event-Holds (suc n) e p q h held) round.events
          begun v (AllHeard-Anything round.events begun) heard y in
      let e : Decided (Holds (suc n)) d =
        decide_exit_keeps WellStarted
          (λ calls p q good f (b, g). (
            start_programs-Accounts calls p q good f b,
            start_programs-Reached_still depth s k calls (suc n) p q f g,
          ))
          round.restarts v d w' decided z in
      elim (Verdict-cases d) [
        | inl (u, g) ↦ let (still, idle) = rw g at e in absurd (busy n u still idle)
        | inr (u, g) ↦
            let (end, result, there) = loop_from rounds (suc n) u (rest u g) (rw g at e) in
            (
              end,
              rw (serve_lem round t begun v started strange heard, loop)
                  (rw (decided ∙ ap ok g, loop) result),
              subst (λ m. Reached depth s m end) (omega arith) there,
            )
      ]

-- The loop starts every program: while the starts get new pids and succeed, no child
-- exits and no event faults, the loop waits after any number of rounds, and each object whose chain of
-- waiting is shorter than this number runs. Each object is listed and has not ended, and waits only for
-- objects closer to the start to run; there is one that waits for none.
pub loop-Starts :
    (depth : ℕ → ℕ) (rounds : List Round) (s : ProcessHandler) (r : ℕ) (c : ChildProcess)
    → AccountsOf s
    → IsRanked depth s
    → lookup r s.heap ≡ some c
    → depth r ≡ 0
    → RunsSmoothly rounds s
    → (t : ProcessHandler) × (loop rounds s ≡ waiting t) × RunsBelow depth s (length rounds) t
loop-Starts depth rounds s r c a k root first well =
    let (t, result, x) =
      loop_from depth s k r c root first rounds 0 s well (a, Reached-start depth s k) in
    (t, result, subst (λ n. RunsBelow depth s n t) (omega arith) x.below)
