-- ===== src/Samples/Checks.antt =====
-- What holds of a run by computation: that a call returns, and that the starts get new pids.
use scinit.Base.{
  ◌≡◌, refl, Bool, true, false, ◌&&◌, Option, none, some, List, [], ◌∷◌, ℕ, ok, err, lookup,
  int_key, arith,
}
use scinit.Child.Types.{WeakPtr}
use scinit.Handler.Types.{ProcessHandler, Result, init}
use scinit.Handler.Start.{StartCalls, notify_all, start_program}
use scinit.Handler.Loop.{Verdict, Round, go_on, leave, serve, decide_exit}
use scinit.Handler.Loop.Invariant.{RunsWell}
use scinit.Handler.Start.Accounts.{AllStartWell}

abbrev pub handler_of : Result ProcessHandler → ProcessHandler
handler_of (ok s) = s
handler_of (err e) = init

abbrev pub is_ok : Result ProcessHandler → Bool
is_ok (ok s) = true
is_ok (err e) = false

pub handler_of_ok : (r : Result ProcessHandler) → is_ok r ≡ true → r ≡ ok (handler_of r)
handler_of_ok (ok s) e = refl
handler_of_ok (err x) e = absurd (cc e)

abbrev pub is_none {ℓ} : {A : Type ℓ} → Option A → Bool
is_none none = true
is_none (some a) = false

abbrev pub start_well : (ℕ → StartCalls) → List WeakPtr → ProcessHandler → Bool
start_well calls [] s = true
start_well calls (none ∷ refs) s = start_well calls refs s
start_well calls (some r ∷ refs) s =
    is_none (lookup (calls r).fork.fork s.id_for_pid)
    && elim (start_program calls (some r) s) [ err e ↦ true | ok t ↦ start_well calls refs t ]

pub both : (a b : Bool) → (a && b) ≡ true → (a ≡ true) × (b ≡ true)
both a b e = ground arith

pub is_none_lem {ℓ} : {A : Type ℓ} (o : Option A) → is_none o ≡ true → o ≡ none
is_none_lem none e = refl
is_none_lem (some a) e = absurd (cc e)

pub start_well-AllStartWell :
    (calls : ℕ → StartCalls) (refs : List WeakPtr) (s : ProcessHandler)
    → start_well calls refs s ≡ true
    → AllStartWell calls refs s
start_well-AllStartWell calls [] s e = tt
start_well-AllStartWell calls (none ∷ refs) s e = start_well-AllStartWell calls refs s e
start_well-AllStartWell calls (some r ∷ refs) s e =
    let (fresh, rest) = both _ _ e in
    (
      is_none_lem (lookup (calls r).fork.fork s.id_for_pid) fresh,
      λ t started. start_well-AllStartWell calls refs t (rw started at rest),
    )

abbrev pub run_well : List Round → ProcessHandler → Bool
run_well [] s = true
run_well (round ∷ rounds) s =
    start_well round.starts s.all_objs (notify_all s) && elim (serve round s) [
      | err e ↦ true
      | ok t ↦
          start_well round.restarts t.all_objs (notify_all t)
          && elim (decide_exit round.restarts t) [
            | err e ↦ true
            | ok (leave u) ↦ true
            | ok (go_on u) ↦ run_well rounds u
          ]
    ]

run_well-RunsWell :
    (rounds : List Round) (s : ProcessHandler) → run_well rounds s ≡ true → RunsWell rounds s
run_well-RunsWell [] s e = tt
run_well-RunsWell (round ∷ rounds) s e =
    let (now, later) = both _ _ e in
    (
      start_well-AllStartWell round.starts s.all_objs (notify_all s) now,
      λ t served.
          let (restarts, rest) = both _ _ (rw served at later) in
          (
            start_well-AllStartWell round.restarts t.all_objs (notify_all t) restarts,
            λ u decided. run_well-RunsWell rounds u (rw decided at rest),
          ),
    )

-- The rounds, once the programs have been started.
abbrev pub rounds_well : List Round → Result ProcessHandler → Bool
rounds_well rounds (ok u) = run_well rounds u
rounds_well rounds (err e) = true

pub rounds_well-RunsWell :
    (rounds : List Round) (r : Result ProcessHandler)
    → rounds_well rounds r ≡ true
    → (u : ProcessHandler) → r ≡ ok u
    → RunsWell rounds u
rounds_well-RunsWell rounds r e u made = run_well-RunsWell rounds u (rw made at e)

abbrev pub went_on : Result Verdict → ProcessHandler
went_on (ok (go_on s)) = s
went_on (ok (leave s)) = s
went_on (err e) = init

abbrev pub goes_on : Result Verdict → Bool
goes_on (ok (go_on s)) = true
goes_on (ok (leave s)) = false
goes_on (err e) = false

pub goes_on_lem : (r : Result Verdict) → goes_on r ≡ true → r ≡ ok (go_on (went_on r))
goes_on_lem (ok (go_on s)) e = refl
goes_on_lem (ok (leave s)) e = absurd (cc e)
goes_on_lem (err x) e = absurd (cc e)
