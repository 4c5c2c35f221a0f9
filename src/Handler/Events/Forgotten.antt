-- ===== src/Handler/Events/Forgotten.antt =====
-- An event without input: what each table says afterwards, entry by entry.
use mathlib.Core.List.{Memᴰ}
use Prim.Native.Nat.{bit_and}
use scinit.Base.{
  ==_iff, ◌⊎◌, ◌↔◌, ◌≢◌, ℕ, ℤ, int_beq, int_beq_iff, dec_u32, ◌==◌, ◌≡◌, refl, sym, ap, ◌∙◌, inl,
  inr, Bool, true, false, none, some, arith, lookup, insert, erase, index, with_default, nat_key,
  int_key, Bool-cases, Option-cases, u32_mod, suc, ◌<◌, index_present, ok, err, List, [], ◌∷◌,
  beq-false, lookup-erase_self, lookup-erase_ne, lookup-insert_self, lookup-insert_ne,
}
use scinit.Child.Types.{ChildProcess, WeakPtr, lock}
use scinit.Handler.Types.{ProcessHandler, Result, process_handler_exception}
use scinit.Handler.Events.{EpollEvent, epollin, epollhup, unwatch, last_fd, closed, event_received}
use scinit.Handler.Events.Hangup.{SameAccounts, Forgets, closed_same, closed-Forgets}

-- The process that a descriptor is noted for, which is process 0 for one that is noted nowhere.
abbrev pub IsChargedTo : ℤ → ℕ → ProcessHandler → Type 0
IsChargedTo fd id s =
    (lookup fd s.id_for_fd ≡ some id) ⊎ ((lookup fd s.id_for_fd ≡ none) × (id ≡ 0))

-- The handler knows the process, and it has not been freed.
abbrev pub IsAlive : ℕ → ProcessHandler → Type 0
IsAlive id s =
    (r : ℕ) × (c : ChildProcess) × (lookup id s.obj_for_id ≡ some (some r))
    × (lookup r s.heap ≡ some c)

-- In `t` the descriptor is forgotten, the process has `left` descriptors, and all else is as in `s`.
pub record IsForgotten (fd : ℤ) (id left : ℕ) (s t : ProcessHandler) : Type 0 where
  pub watched : (f : ℤ) → Memᴰ f t.epoll ↔ (Memᴰ f s.epoll × (f ≢ fd))
  pub no_id : lookup fd t.id_for_fd ≡ none
  pub no_type : lookup fd t.fd_type ≡ none
  pub other_ids : (f : ℤ) → f ≢ fd → lookup f t.id_for_fd ≡ lookup f s.id_for_fd
  pub other_types : (f : ℤ) → f ≢ fd → lookup f t.fd_type ≡ lookup f s.fd_type
  pub count : lookup id t.num_fd_for_id ≡ some left
  pub other_counts : (j : ℕ) → j ≢ id → lookup j t.num_fd_for_id ≡ lookup j s.num_fd_for_id
  pub accounts : SameAccounts s t

pub unwatch-mem : (fd f : ℤ) (epoll : List ℤ) → Memᴰ f (unwatch fd epoll) → Memᴰ f epoll × (f ≢ fd)
unwatch-mem fd f [] m = elim m [ ]
unwatch-mem fd f (g ∷ epoll) m = elim (Bool-cases (int_beq g fd)) [
  | inl same ↦ let (n, ne) = unwatch-mem fd f epoll (rw same at m) in (Memᴰ.tail n, ne)
  | inr other ↦ kept (unwatch-mem fd f epoll) other (rw other at m)
]
  where
    differ : {b : Bool} → b ≡ false → b ≡ true → ⊥
    differ p q = cc

    kept :
        (Memᴰ f (unwatch fd epoll) → Memᴰ f epoll × (f ≢ fd))
        → int_beq g fd ≡ false
        → Memᴰ f (g ∷ unwatch fd epoll)
        → Memᴰ f (g ∷ epoll) × (f ≢ fd)
    kept rest other (Memᴰ.head e) =
        (Memᴰ.head e, λ same. differ other ((int_beq_iff g fd).1 (sym e ∙ same)))
    kept rest other (Memᴰ.tail n) = let (there, ne) = rest n in (Memᴰ.tail there, ne)

Memᴰ-unwatch : (fd f : ℤ) (epoll : List ℤ) → Memᴰ f epoll → f ≢ fd → Memᴰ f (unwatch fd epoll)
Memᴰ-unwatch fd f [] m ne = elim m [ ]
Memᴰ-unwatch fd f (g ∷ epoll) (Memᴰ.head e) ne =
    let other : int_beq g fd ≡ false = beq-false g fd (λ same. ne (e ∙ same)) in
    rw other (Memᴰ.head e)
Memᴰ-unwatch fd f (g ∷ epoll) (Memᴰ.tail m) ne = elim (Bool-cases (int_beq g fd)) [
  | inl same ↦ rw same (Memᴰ-unwatch fd f epoll m ne)
  | inr other ↦ rw other (Memᴰ.tail (Memᴰ-unwatch fd f epoll m ne))
]

charged_lem :
    (fd : ℤ) (id : ℕ) (s : ProcessHandler) → IsChargedTo fd id s → index fd 0 s.id_for_fd ≡ id
charged_lem fd id s (inl known) = index_present fd 0 s.id_for_fd known
charged_lem fd id s (inr (unknown, zero_id)) = unfold index in rw unknown (sym zero_id)

-- The tables that `closed` leaves, entry by entry.
Forgets-IsForgotten :
    (fd : ℤ) (id n : ℕ) (s t : ProcessHandler)
    → IsChargedTo fd id s
    → lookup id s.num_fd_for_id ≡ some (suc n)
    → suc n < u32_mod
    → Forgets fd s t
    → SameAccounts s t
    → IsForgotten fd id n s t
Forgets-IsForgotten fd id n s t charged counted small (ids, nums, types, epoll, _) same =
    let one_less : dec_u32 (suc n) ≡ n = omega arith in
    let owner : index fd 0 s.id_for_fd ≡ id = charged_lem fd id s charged in
    let nums' : t.num_fd_for_id ≡ insert id n s.num_fd_for_id =
      nums ∙ rw (owner, index_present id 0 s.num_fd_for_id counted, one_less) refl in
    record {
      watched = λ f. rw epoll (unwatch-mem fd f s.epoll, λ (m, ne). Memᴰ-unwatch fd f s.epoll m ne);
      no_id = rw ids (lookup-erase_self fd s.id_for_fd);
      no_type = rw types (lookup-erase_self fd s.fd_type);
      other_ids = λ f ne. rw ids (lookup-erase_ne fd f s.id_for_fd ne);
      other_types = λ f ne. rw types (lookup-erase_ne fd f s.fd_type ne);
      count = rw nums' (lookup-insert_self id n s.num_fd_for_id);
      other_counts = λ j ne. rw nums' (lookup-insert_ne id j n s.num_fd_for_id ne);
      accounts = same;
    }

gone_lem :
    (id : ℕ) (s : ProcessHandler)
    → (IsAlive id s → ⊥)
    → lock s.heap (index id none s.obj_for_id) ≡ none
unfolding index lock
gone_lem id s dead = elim (Option-cases (lookup id s.obj_for_id)) [
  | inl missing ↦ rw missing refl
  | inr (ref, known) ↦ rw known (freed ref known)
]
  where
    freed : (ref : WeakPtr) → lookup id s.obj_for_id ≡ some ref → lock s.heap ref ≡ none
    freed none known = refl
    freed (some r) known = elim (Option-cases (lookup r s.heap)) [
      | inl gone ↦ gone
      | inr (c, there) ↦ absurd (dead (r, c, known, there))
    ]

module _ (e : EpollEvent) (s : ProcessHandler) (id : ℕ) (charged : IsChargedTo e.fd id s)
    (no_input : bit_and e.events epollin ≡ 0) where
  event_received-closed :
      bit_and e.events epollhup ≢ 0 → e.del_ok ≡ true → event_received e s ≡ closed e.fd s
  unfolding event_received
  event_received-closed hup removed =
      rw
        (
          (==_iff (bit_and e.events epollin) 0).1 no_input,
          beq-false (bit_and e.events epollhup) 0 hup,
          removed,
        )
        refl

  event_received-refused :
      (bit_and e.events epollhup ≡ 0) ⊎ (e.del_ok ≡ false)
      → event_received e s ≡ err process_handler_exception
  unfolding event_received
  event_received-refused (inl no_hup) = ground arith
  event_received-refused (inr failed) = ground arith

  module _ (n : ℕ) (counted : lookup id s.num_fd_for_id ≡ some (suc n))
      (small : suc n < u32_mod) where
    abbrev taken_out : (owner left : ℕ) → ProcessHandler
    taken_out owner left = record s {
      epoll = unwatch e.fd s.epoll;
      id_for_fd = erase e.fd s.id_for_fd;
      fd_type = erase e.fd s.fd_type;
      num_fd_for_id = insert owner left s.num_fd_for_id;
    }

    abbrev charge : (owner left : ℕ) → Result ProcessHandler
    charge owner left = last_fd owner left (taken_out owner left)

    closed-charge : closed e.fd s ≡ charge id n
    unfolding closed
    closed-charge =
        let one_less : dec_u32 (index id 0 s.num_fd_for_id) ≡ n =
          rw (index_present id 0 s.num_fd_for_id counted) (omega arith) in
        ap (λ owner. charge owner (dec_u32 (index owner 0 s.num_fd_for_id)))
          (charged_lem e.fd id s charged)
        ∙ ap (charge id) one_less

    closed-ok : (n ≢ 0) ⊎ IsAlive id s → (t : ProcessHandler) × (closed e.fd s ≡ ok t)
    unfolding last_fd lock
    closed-ok x = let (t, e) = charged-ok x in (t, closed-charge ∙ e)
      where
        charged-ok : (n ≢ 0) ⊎ IsAlive id s → (t : ProcessHandler) × (charge id n ≡ ok t)
        charged-ok (inl more) = (taken_out id n, rw (beq-false n 0 more) refl)
        charged-ok (inr (r, c, known, there)) = elim (Bool-cases (n == 0)) [
          | inr more ↦ (taken_out id n, rw more refl)
          | inl last ↦ (
            record (taken_out id n) { obj_for_id = with_default id none s.obj_for_id },
            rw (last, index_present id none s.obj_for_id known) (rw there refl),
          )
        ]

    closed-err : n ≡ 0 → (IsAlive id s → ⊥) → closed e.fd s ≡ err process_handler_exception
    unfolding last_fd
    closed-err last dead = closed-charge ∙ rw last (rw (gone_lem id s dead) refl)

    event_received-IsForgotten :
        bit_and e.events epollhup ≢ 0
        → e.del_ok ≡ true
        → (n ≢ 0) ⊎ IsAlive id s
        → (t : ProcessHandler) × (event_received e s ≡ ok t) × IsForgotten e.fd id n s t
    event_received-IsForgotten hup removed there =
        let (t, done) = closed-ok there in
        (
          t,
          event_received-closed hup removed ∙ done,
          Forgets-IsForgotten e.fd id n s t charged counted small
              (closed-Forgets e.fd s {t = t} done) (closed_same e.fd s {t = t} done),
        )

-- An event without input, on every branch. With EPOLLHUP, and if epoll lets the descriptor go: the
-- descriptor is no longer watched and stands in neither table, and the process it is noted for, which is
-- process 0 for one that is noted nowhere, has one descriptor less; every other entry, and every process,
-- is as before. With its last descriptor the process has to be alive, or the handler throws, as it does
-- without EPOLLHUP and if epoll refuses. The process has at least one descriptor before.
pub event_received_hangup :
    (e : EpollEvent) (s : ProcessHandler) (id n : ℕ)
    → bit_and e.events epollin ≡ 0
    → IsChargedTo e.fd id s
    → lookup id s.num_fd_for_id ≡ some (suc n)
    → suc n < u32_mod
    → ((bit_and e.events epollhup ≢ 0
          → e.del_ok ≡ true
          → (n ≢ 0) ⊎ IsAlive id s
          → (t : ProcessHandler) × (event_received e s ≡ ok t) × IsForgotten e.fd id n s t)
        × (bit_and e.events epollhup ≢ 0
            → e.del_ok ≡ true
            → n ≡ 0
            → (IsAlive id s → ⊥)
            → event_received e s ≡ err process_handler_exception)
        × ((bit_and e.events epollhup ≡ 0) ⊎ (e.del_ok ≡ false)
            → event_received e s ≡ err process_handler_exception))
event_received_hangup e s id n no_input charged counted small = (
  event_received-IsForgotten e s id charged no_input n counted small,
  λ hup removed last dead.
      event_received-closed e s id charged no_input hup removed
      ∙ closed-err e s id charged no_input n counted small last dead,
  event_received-refused e s id charged no_input,
)
