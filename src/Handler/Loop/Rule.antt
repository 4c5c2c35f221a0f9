-- ===== src/Handler/Loop/Rule.antt =====
-- The rule for the event loop: what every start, every exit and every event keeps, the loop keeps, where
-- the starts and the events may be asked to meet a condition in the state in which they come.
use scinit.Base.{
  ap, ◌>>=◌, Bool-cases, ◌∙◌, ℕ, ℤ, if◌then◌else◌, ◌≡◌, refl, sym, ◌⊎◌, inl, inr, Bool, true, false,
  ◌&&◌, List, [], ◌∷◌, arith, >>=-eq-ok, err, ok, ok-injective, subst,
}
use scinit.Handler.Types.{ProcessHandler, Result, Fault}
use scinit.Handler.Signals.{sigchld_received}
use scinit.Handler.Events.{EpollEvent, event_received}
use scinit.Handler.Start.{StartCalls, start_programs}
use scinit.Handler.Loop.{
  Round, reap, dispatch, serve, is_idle, Run, returned, waiting, faulted, Verdict, leave, go_on,
  decide_exit, loop,
}

pub Result-cases {ℓ} :
    {A : Type ℓ} (r : Result A) → ((e : Fault) × (r ≡ err e)) ⊎ ((a : A) × (r ≡ ok a))
Result-cases (ok a) = inr (a, refl)
Result-cases (err e) = inl (e, refl)

pub Verdict-cases :
    (v : Verdict) → ((t : ProcessHandler) × (v ≡ leave t)) ⊎ ((t : ProcessHandler) × (v ≡ go_on t))
Verdict-cases (leave t) = inl (t, refl)
Verdict-cases (go_on t) = inr (t, refl)

module _ (P : ProcessHandler → Type 0) where
  -- The loop returns only with the counter at 0.
  abbrev pub AtEnd : Run → Type 0
  AtEnd (returned t) = P t × (is_idle t ≡ true)
  AtEnd (waiting t) = P t
  AtEnd (faulted e) = Unit

  abbrev pub Decided : Verdict → Type 0
  Decided (leave t) = P t × (is_idle t ≡ true)
  Decided (go_on t) = P t

module _ (Starts : (ℕ → StartCalls) → ProcessHandler → Type 0) {P : ProcessHandler → Type 0}
    (start : (calls : ℕ → StartCalls) (s t : ProcessHandler)
      → Starts calls s
      → start_programs calls s ≡ ok t
      → P s
      → P t) where
  both_true : (a b : Bool) → (a && b) ≡ true → a ≡ true
  both_true a b h = ground arith

  rest_inv :
      (restarts : ℕ → StartCalls) (s : ProcessHandler) (v : Verdict)
      → Starts restarts s
      → (start_programs restarts s >>= λ t. ok (if is_idle t then leave t else go_on t)) ≡ ok v
      → P s
      → Decided P v
  rest_inv restarts s v w e p =
      let (t, started, last) =
        >>=-eq-ok (start_programs restarts s) (λ t. ok (if is_idle t then leave t else go_on t))
          e in
      subst (Decided P) (ok-injective last) (elim (Bool-cases (is_idle t)) [
        | inl idle ↦ rw idle (start restarts s t w started p, idle)
        | inr busy ↦ rw busy (start restarts s t w started p)
      ])

  -- The two tests, with what they came to: `both` is the first one.
  tests_inv :
      (both quit : Bool) (rest : Result Verdict) (s : ProcessHandler) (v : Verdict)
      → both ≡ (is_idle s && quit)
      → (if both then ok (leave s) else if quit then ok (go_on s) else rest) ≡ ok v
      → P s
      → (rest ≡ ok v → Decided P v)
      → Decided P v
  tests_inv true quit rest s v b e p q =
      subst (Decided P) (ok-injective e) (p, both_true (is_idle s) quit (sym b))
  tests_inv false true rest s v b e p q = subst (Decided P) (ok-injective e) p
  tests_inv false false rest s v b e p q = q e

  pub decide_exit_keeps :
      (restarts : ℕ → StartCalls) (s : ProcessHandler) (v : Verdict)
      → Starts restarts s
      → decide_exit restarts s ≡ ok v
      → P s
      → Decided P v
  unfolding decide_exit
  decide_exit_keeps restarts s v w e p =
      tests_inv (is_idle s && s.should_quit) s.should_quit _ s v refl e p
        (λ last. rest_inv restarts s v w last p)

module _ (Heard : EpollEvent → ProcessHandler → Type 0) where
  abbrev pub AllHeard : List EpollEvent → ProcessHandler → Type 0
  AllHeard [] s = Unit
  AllHeard (e ∷ events) s =
      Heard e s × ((t : ProcessHandler) → event_received e s ≡ ok t → AllHeard events t)

  pub dispatch_keeps :
      {P : ProcessHandler → Type 0}
      (keep : (e : EpollEvent) (s t : ProcessHandler)
        → Heard e s
        → event_received e s ≡ ok t
        → P s
        → P t)
      (events : List EpollEvent) (s t : ProcessHandler)
      → AllHeard events s
      → dispatch events s ≡ ok t
      → P s
      → P t
  unfolding dispatch
  dispatch_keeps {P} keep [] s t w e p = subst P (ok-injective e) p
  dispatch_keeps keep (event ∷ rest) s t w e p =
      let (u, first, later) = >>=-eq-ok (event_received event s) (λ v. dispatch rest v) e in
      dispatch_keeps keep rest u t (w.1 u first) later (keep event s u w.0 first p)

module _ (Starts : (ℕ → StartCalls) → ProcessHandler → Type 0)
    (Heard : EpollEvent → ProcessHandler → Type 0) where
  -- Each call of `start_programs` and each event of the rounds meets its condition.
  abbrev pub RunsBy : List Round → ProcessHandler → Type 0
  RunsBy [] s = Unit
  RunsBy (round ∷ rounds) s =
      Starts round.starts s
      × ((begun u : ProcessHandler)
          → start_programs round.starts s ≡ ok begun
          → reap round.reaped begun ≡ ok u
          → AllHeard Heard round.events u
            × ((t : ProcessHandler)
                → dispatch round.events u ≡ ok t
                → Starts round.restarts t
                  × ((v : ProcessHandler)
                      → decide_exit round.restarts t ≡ ok (go_on v)
                      → RunsBy rounds v)))

  pub record Keeps (P : ProcessHandler → Type 0) : Type 0 where
    pub start :
        (calls : ℕ → StartCalls) (s t : ProcessHandler)
        → Starts calls s
        → start_programs calls s ≡ ok t
        → P s
        → P t
    pub exit : (pid rc : ℤ) (s t : ProcessHandler) → sigchld_received pid rc s ≡ ok t → P s → P t
    pub event :
        (e : EpollEvent) (s t : ProcessHandler) → Heard e s → event_received e s ≡ ok t → P s → P t

  module _ {P : ProcessHandler → Type 0} (k : Keeps P) where
    pub reap_keeps :
        (reaped : List (ℤ × ℤ)) (s t : ProcessHandler) → reap reaped s ≡ ok t → P s → P t
    unfolding reap
    reap_keeps [] s t e p = subst P (ok-injective e) p
    reap_keeps ((pid, rc) ∷ rest) s t e p =
        let (u, first, later) = >>=-eq-ok (sigchld_received pid rc s) (λ v. reap rest v) e in
        reap_keeps rest u t later (k.exit pid rc s u first p)

    -- The body up to the tests, and the calls that it is made of.
    serve_keeps :
        (round : Round) (rounds : List Round) (s t : ProcessHandler)
        → RunsBy (round ∷ rounds) s
        → serve round s ≡ ok t
        → P s
        → P t
          × Starts round.restarts t
          × ((v : ProcessHandler) → decide_exit round.restarts t ≡ ok (go_on v) → RunsBy rounds v)
    unfolding serve
    serve_keeps round rounds s t w e p =
        let (begun, started, rest) =
          >>=-eq-ok (start_programs round.starts s)
            (λ v. reap round.reaped v >>= λ x. dispatch round.events x) e in
        let (u, reaped, heard) =
          >>=-eq-ok (reap round.reaped begun) (λ v. dispatch round.events v) rest in
        let (events, next) = w.1 begun u started reaped in
        let (restarts, later) = next t heard in
        (
          dispatch_keeps Heard k.event round.events u t events heard
              (reap_keeps round.reaped begun u reaped (k.start round.starts s begun w.0 started p)),
          restarts,
          later,
        )

    -- What holds of the handler at the start, holds of the handler with which the loop ends, or waits
    -- for its next round.
    pub loop_keeps :
        (rounds : List Round) (s : ProcessHandler) → RunsBy rounds s → P s → AtEnd P (loop rounds s)
    unfolding loop
    loop_keeps [] s w p = p
    loop_keeps (round ∷ rounds) s w p = elim (Result-cases (serve round s)) [
      | inl (x, e) ↦ rw (e, loop) tt
      | inr (t, e) ↦
          let (q, restarts, next) = serve_keeps round rounds s t w e p in
          elim (Result-cases (decide_exit round.restarts t)) [
            | inl (x, f) ↦ rw (e, loop) (rw (f, loop) tt)
            | inr (v, f) ↦
                let d : Decided P v =
                  decide_exit_keeps Starts k.start round.restarts t v restarts f q in
                elim (Verdict-cases v) [
                  | inl (u, g) ↦ rw (e, loop) (rw (f, g, loop) (rw g at d))
                  | inr (u, g) ↦
                      rw (e, loop)
                        (rw (f, g, loop) (loop_keeps rounds u (next u (f ∙ ap ok g)) (rw g at d)))
                ]
          ]
    ]
