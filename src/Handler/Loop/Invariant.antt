-- ===== src/Handler/Loop/Invariant.antt =====
-- What every start with new pids, every exit and every event keeps, the event loop keeps.
use scinit.Base.{◌>>=◌, ℕ, ℤ, ◌≡◌, List, [], ◌∷◌, >>=-eq-ok, ok}
use scinit.Handler.Types.{ProcessHandler}
use scinit.Handler.Signals.{sigchld_received}
use scinit.Handler.Events.{EpollEvent, event_received}
use scinit.Handler.Start.{StartCalls, notify_all, start_programs}
use scinit.Handler.Start.Accounts.{AllStartWell}
use scinit.Handler.Loop.{Round, reap, dispatch, serve, go_on, decide_exit, loop}
pub use scinit.Handler.Loop.Rule.{Result-cases, AtEnd, Decided, Verdict-cases}
use scinit.Handler.Loop.Rule.{AllHeard, RunsBy, Keeps, dispatch_keeps, reap_keeps, loop_keeps}

-- Each start of the rounds that the loop makes, in the state in which it is made, goes well.
abbrev pub RunsWell : List Round → ProcessHandler → Type 0
RunsWell [] s = Unit
RunsWell (round ∷ rounds) s =
    AllStartWell round.starts s.all_objs (notify_all s)
    × ((t : ProcessHandler)
        → serve round s ≡ ok t
        → AllStartWell round.restarts t.all_objs (notify_all t)
          × ((u : ProcessHandler)
              → decide_exit round.restarts t ≡ ok (go_on u)
              → RunsWell rounds u))

pub record IsInvariant (P : ProcessHandler → Type 0) : Type 0 where
  pub start :
      (calls : ℕ → StartCalls) (s t : ProcessHandler)
      → AllStartWell calls s.all_objs (notify_all s)
      → start_programs calls s ≡ ok t
      → P s
      → P t
  pub exit : (pid rc : ℤ) (s t : ProcessHandler) → sigchld_received pid rc s ≡ ok t → P s → P t
  pub event : (e : EpollEvent) (s t : ProcessHandler) → event_received e s ≡ ok t → P s → P t

abbrev pub WellStarted : (ℕ → StartCalls) → ProcessHandler → Type 0
WellStarted calls s = AllStartWell calls s.all_objs (notify_all s)

abbrev pub Anything : EpollEvent → ProcessHandler → Type 0
Anything e s = Unit

pub AllHeard-Anything : (events : List EpollEvent) (s : ProcessHandler) → AllHeard Anything events s
AllHeard-Anything [] s = tt
AllHeard-Anything (e ∷ events) s = (tt, λ t h. AllHeard-Anything events t)

serve_of :
    (round : Round) (s begun u t : ProcessHandler)
    → start_programs round.starts s ≡ ok begun
    → reap round.reaped begun ≡ ok u
    → dispatch round.events u ≡ ok t
    → serve round s ≡ ok t
unfolding serve
serve_of round s begun u t started reaped heard = rw started (rw reaped heard)

RunsWell-RunsBy :
    (rounds : List Round) (s : ProcessHandler)
    → RunsWell rounds s
    → RunsBy WellStarted Anything rounds s
RunsWell-RunsBy [] s w = tt
RunsWell-RunsBy (round ∷ rounds) s (w, next) = (
  w,
  λ begun u started reaped. (
    AllHeard-Anything round.events u,
    λ t heard.
        let (restarts, later) = next t (serve_of round s begun u t started reaped heard) in
        (restarts, λ v decided. RunsWell-RunsBy rounds v (later v decided)),
  ),
)

module _ {P : ProcessHandler → Type 0} (i : IsInvariant P) where
  IsInvariant-Keeps : Keeps WellStarted Anything P
  IsInvariant-Keeps = record {
    start = i.start;
    exit = i.exit;
    event = λ e s t anything h p. i.event e s t h p;
  }

  pub serve_inv :
      (round : Round) (s t : ProcessHandler)
      → AllStartWell round.starts s.all_objs (notify_all s)
      → serve round s ≡ ok t
      → P s
      → P t
  unfolding serve
  serve_inv round s t w e p =
      let (begun, started, rest) =
        >>=-eq-ok (start_programs round.starts s)
          (λ v. reap round.reaped v >>= λ x. dispatch round.events x) e in
      let (u, reaped, heard) =
        >>=-eq-ok (reap round.reaped begun) (λ v. dispatch round.events v) rest in
      dispatch_keeps Anything IsInvariant-Keeps.event round.events u t
        (AllHeard-Anything round.events u) heard
        (reap_keeps WellStarted Anything IsInvariant-Keeps round.reaped begun u reaped
          (i.start round.starts s begun w started p))

  -- What the invariant says of the handler at the start, it says of the handler with which the loop
  -- ends, or waits for its next round.
  pub loop_inv :
      (rounds : List Round) (s : ProcessHandler) → RunsWell rounds s → P s → AtEnd P (loop rounds s)
  loop_inv rounds s w p =
      loop_keeps WellStarted Anything IsInvariant-Keeps rounds s (RunsWell-RunsBy rounds s w) p
