-- ===== src/Handler/Loop.antt =====
-- src/ProcessHandler.cpp, `setup_signal_handlers` and `enter_eventloop`. The loop runs over a list of
-- rounds, which hold what the system answers in each.
pub mod Rule
pub mod Invariant
pub mod Termination
pub mod Idle
pub mod Progress
pub mod Startup
use scinit.Base.{
  ℕ, ℤ, pos, int_beq, if◌then◌else◌, Bool, true, false, Option, none, some, List, [], ◌∷◌, ◌&&◌,
  err, ok, ◌>>=◌,
}
use scinit.Handler.Types.{Fault, process_handler_exception, ProcessHandler, Result}
use scinit.Handler.Signals.{sigchld_received}
use scinit.Handler.Events.{EpollEvent, event_received}
use scinit.Handler.Start.{StartCalls, start_programs}

-- The answers of `sigprocmask`, `signalfd`, `epoll_create1` and `epoll_ctl`; `none` is -1.
pub record SetupCalls : Type 0 where
  pub mask_ok : Bool
  pub signal_fd : Option ℤ
  pub epoll_fd : Option ℤ
  pub add_ok : Bool

watch_signals : Option ℤ → Option ℤ → Bool → ProcessHandler → Result ProcessHandler
watch_signals none epoll add_ok s = err process_handler_exception
watch_signals (some signal_fd) none add_ok s = err process_handler_exception
watch_signals (some signal_fd) (some epoll_fd) false s = err process_handler_exception
watch_signals (some signal_fd) (some epoll_fd) true s =
    ok (record s { signal_fd = signal_fd; epoll_fd = epoll_fd; epoll = signal_fd ∷ s.epoll })

unfoldable pub setup_signal_handlers : SetupCalls → ProcessHandler → Result ProcessHandler
unfolding watch_signals
setup_signal_handlers calls s =
    if calls.mask_ok
    then watch_signals calls.signal_fd calls.epoll_fd calls.add_ok s
    else err process_handler_exception

-- One round of `while (true)`: the answers for the two calls of `start_programs`, the processes that
-- `waitpid` reaps, with their status, and the events of `epoll_wait`.
pub record Round : Type 0 where
  pub starts : ℕ → StartCalls
  pub reaped : List (ℤ × ℤ)
  pub events : List EpollEvent
  pub restarts : ℕ → StartCalls

unfoldable pub reap : List (ℤ × ℤ) → ProcessHandler → Result ProcessHandler
reap [] s = ok s
reap ((pid, rc) ∷ rest) s = do t ← sigchld_received pid rc s; reap rest t

unfoldable pub dispatch : List EpollEvent → ProcessHandler → Result ProcessHandler
dispatch [] s = ok s
dispatch (e ∷ rest) s = do t ← event_received e s; dispatch rest t

-- The body of the loop up to the tests: children are started, reaped, and heard.
unfoldable pub serve : Round → ProcessHandler → Result ProcessHandler
unfolding reap dispatch
serve round s = do
  begun ← start_programs round.starts s
  t ← reap round.reaped begun
  dispatch round.events t

abbrev pub is_idle : ProcessHandler → Bool
is_idle s = int_beq s.number_of_running_procs (pos 0)

-- The loop has returned 0, was left by a fault, or would go on to the next round.
pub data Run : Type 0 where
  returned waiting : ProcessHandler → Run
  faulted : Fault → Run

pub data Verdict : Type 0 where
  leave go_on : ProcessHandler → Verdict

-- The two tests at the end of the body.
unfoldable pub decide_exit : (ℕ → StartCalls) → ProcessHandler → Result Verdict
decide_exit restarts s =
    if is_idle s && s.should_quit
    then ok (leave s)
    else if s.should_quit
    then ok (go_on s)
    else (do t ← start_programs restarts s; ok (if is_idle t then leave t else go_on t))

unfoldable pub loop : List Round → ProcessHandler → Run
unfolding serve decide_exit
loop [] s = waiting s
loop (round ∷ rounds) s = elim (serve round s) [
  | err e ↦ faulted e
  | ok t ↦ elim (decide_exit round.restarts t) [
    | err e ↦ faulted e
    | ok v ↦ elim v [ leave u ↦ returned u | go_on u ↦ loop rounds u ]
  ]
]

unfoldable pub enter_eventloop : SetupCalls → (ℕ → StartCalls) → List Round → ProcessHandler → Run
unfolding setup_signal_handlers
enter_eventloop calls starts rounds s = elim (setup_signal_handlers calls s) [
  | err e ↦ faulted e
  | ok t ↦ elim (start_programs starts t) [ err e ↦ faulted e | ok u ↦ loop rounds u ]
]
