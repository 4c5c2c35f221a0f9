-- ===== src/Handler/Signals/Forward.antt =====
-- Which signals are forwarded, to whom, and which of them make scinit quit.
use scinit.Base.{
  ℕ, zero, suc, ◌+◌, ◌≤◌, key_cases, nat_key, ◌%◌, ◌<◌, ◌==◌, if◌then◌else◌, ◌≡◌, ◌≢◌, inl, inr,
  refl, Bool, true, false, ◌||◌, not, ◌++◌, map, arith,
}
use scinit.Handler.Types.{ProcessHandler}
use scinit.Handler.Signals.{sigint, sigterm, sigchld, asks_to_quit, signal_received}

-- The test holds for each of the `count` numbers from `start` on.
holds_from : (start count : ℕ) → (ℕ → Bool) → Bool
holds_from start zero test = true
holds_from start (suc count) test =
    let later = holds_from (suc start) count test in if test start then later else false

holds_from_lem :
    (start count : ℕ) (test : ℕ → Bool) (x : ℕ)
    → holds_from start count test ≡ true
    → start ≤ x
    → x < start + count
    → test x ≡ true
unfolding holds_from
holds_from_lem start zero test x h low high = absurd (omega arith)
holds_from_lem start (suc count) test x h low high = elim (key_cases x start) [
  | inl first ↦ rw first (ground arith)
  | inr later ↦ holds_from_lem (suc start) count test x (ground arith) (above later) (omega arith)
]
  where
    above : x ≢ start → suc start ≤ x
    above ne = grind arith

abbrev bool_beq : Bool → Bool → Bool
bool_beq true b = b
bool_beq false b = not b

bool_beq_sound : (a b : Bool) → bool_beq a b ≡ true → a ≡ b
bool_beq_sound a b h = ground arith

quit_table : holds_from 0 65 (λ x. bool_beq (asks_to_quit x) (not (x % 16 == 0))) ≡ true
unfolding holds_from asks_to_quit
quit_table = refl

asks_to_quit-mod : (signal : ℕ) → signal < 65 → asks_to_quit signal ≡ not (signal % 16 == 0)
asks_to_quit-mod signal h = bool_beq_sound (asks_to_quit signal) (not (signal % 16 == 0)) (
    holds_from_lem 0 65 (λ x. bool_beq (asks_to_quit x) (not (x % 16 == 0))) signal quit_table
      (omega arith) h)

-- SIGINT is passed on as SIGTERM.
abbrev pub passed_on : ℕ → ℕ
passed_on signal = if signal == sigint then sigterm else signal

-- SIGCHLD changes nothing. Every other signal is sent once to each registered pid, SIGINT as SIGTERM,
-- and nothing else is sent; and scinit will quit, not only for SIGTERM and SIGQUIT: for each signal
-- number up to 64 but 16, 32, 48 and 64.
pub signal_received_lem :
    (signal : ℕ) (s : ProcessHandler)
    → signal < 65
    → signal_received signal s ≡ (
        if signal == sigchld then s else record s {
          kills = s.kills ++ map (λ p. (p.0, passed_on signal)) s.id_for_pid;
          should_quit = not (passed_on signal % 16 == 0) || s.should_quit;
        })
unfolding signal_received
signal_received_lem signal s h =
    let in_range : passed_on signal < 65 = ground arith in
    ground (arith, asks_to_quit-mod (passed_on signal) in_range)
