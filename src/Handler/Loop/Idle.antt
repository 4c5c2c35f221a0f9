-- ===== src/Handler/Loop/Idle.antt =====
-- When `enter_eventloop` returns although scinit was not told to quit.
use scinit.Base.{
  pos, int_beq_iff, if◌then◌else◌, ◌≡◌, refl, ◌≢◌, true, false, List, [], ◌∷◌, arith, ok,
}
use scinit.Handler.Types.{ProcessHandler}
use scinit.Handler.Accounts.{AccountsOf}
use scinit.Handler.Start.{notify_all, start_programs}
use scinit.Handler.Start.Accounts.{AllStartWell, start_programs-Accounts}
use scinit.Handler.Loop.{Round, serve, is_idle, returned, leave, go_on, decide_exit, loop}
use scinit.Handler.Loop.Invariant.{serve_inv}
use scinit.Handler.Loop.Termination.{AccountsOf-IsInvariant}

-- While scinit is not told to quit, the loop returns after a round exactly if no pid is registered once
-- the programs that are ready have been started again, and goes on otherwise.
pub loop_idles :
    (round : Round) (rounds : List Round) (s t u : ProcessHandler)
    → AllStartWell round.starts s.all_objs (notify_all s)
    → AllStartWell round.restarts t.all_objs (notify_all t)
    → AccountsOf s
    → serve round s ≡ ok t
    → t.should_quit ≡ false
    → start_programs round.restarts t ≡ ok u
    → (u.id_for_pid ≡ [] → loop (round ∷ rounds) s ≡ returned u)
      × (u.id_for_pid ≢ [] → loop (round ∷ rounds) s ≡ loop rounds u)
unfolding loop decide_exit
loop_idles round rounds s t u w v a e stay restarted = (
  λ empty. rw (e, loop) (rw (stays, idle empty, loop) refl),
  λ left. rw (e, loop) (rw (stays, busy left, loop) refl),
)
  where
    b : AccountsOf u
    b =
        start_programs-Accounts round.restarts t u v restarted
          (serve_inv AccountsOf-IsInvariant round s t w e a)

    idle : u.id_for_pid ≡ [] → is_idle u ≡ true
    idle empty = ground (arith, b.counted, int_beq_iff u.number_of_running_procs (pos 0))

    busy : u.id_for_pid ≢ [] → is_idle u ≡ false
    busy left = ground (arith, b.counted, int_beq_iff u.number_of_running_procs (pos 0))

    stays : decide_exit round.restarts t ≡ ok (if is_idle u then leave u else go_on u)
    stays = ground (arith, restarted)
