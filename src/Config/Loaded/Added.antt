-- ===== src/Config/Loaded/Added.antt =====
-- What `add_process` does to a configuration that is being loaded.
use mathlib.Core.Path.{ap₂}
use mathlib.Core.List.{Memᴰ}
use mathlib.Core.List.Memᴰ
use scinit.Base.{
  some-injective, ℕ, suc, ◌≤◌, ◌<◌, ◌≡◌, refl, sym, ap, ◌∙◌, subst, ◌≢◌, inl, inr, none, some, [],
  ◌∷◌, arith, lookup, insert, nat_key, int_key, length, length-append, key_cases,
  lookup-insert_self, lookup-insert_ne, lookup-insert_same, index_present, with_default_absent,
}
use scinit.Child.Types.{ProcessArgs, blocked, ChildProcess, new}
use scinit.Handler.Types.{ProcessHandler}
use scinit.Handler.Registry.{construct, register_for_process_state, register_obj_id}
use scinit.Config.{Config, Users, add_process}
use scinit.Config.Loaded.{IsLoaded}

register_fresh :
    (id r : ℕ) (s : ProcessHandler)
    → lookup id s.sig_for_id ≡ none
    → (lookup id (register_for_process_state id r s).sig_for_id ≡ some (r ∷ []))
      × ((q : ℕ)
          → q ≢ id
          → lookup q (register_for_process_state id r s).sig_for_id ≡ lookup q s.sig_for_id)
unfolding register_for_process_state
register_fresh id r s e = (
  rw
      (
        with_default_absent id [] s.sig_for_id e,
        index_present id [] (insert id [] s.sig_for_id) (lookup-insert_self id [] s.sig_for_id),
      )
      (lookup-insert_self id (r ∷ []) (insert id [] s.sig_for_id)),
  λ q ne. rw (with_default_absent id [] s.sig_for_id e) (
      lookup-insert_ne id q _ (insert id [] s.sig_for_id) ne
      ∙ lookup-insert_ne id q [] s.sig_for_id ne),
)

module _ (users : Users) (args : ProcessArgs) (conf : Config) (l : IsLoaded conf)
    (numbered : args.graph_id ≡ conf.child_counter) where
  abbrev k : ℕ
  k = conf.child_counter

  abbrev child : ChildProcess
  child = new users.getpwuid args

  abbrev pub added : Config
  added = add_process users args conf

  pub added_heap : added.handler.heap ≡ insert k child conf.handler.heap
  unfolding add_process construct register_obj_id register_for_process_state
  added_heap = ap (λ r. insert r child conf.handler.heap) l.addresses

  added_objects : added.handler.obj_for_id ≡ insert k (some k) conf.handler.obj_for_id
  unfolding add_process construct register_obj_id register_for_process_state
  added_objects =
      ap₂ (λ (id r : ℕ). insert id (some r) conf.handler.obj_for_id) numbered l.addresses

  added_signals :
      (lookup k added.handler.sig_for_id ≡ some (k ∷ []))
      × ((q : ℕ) → q ≢ k → lookup q added.handler.sig_for_id ≡ lookup q conf.handler.sig_for_id)
  unfolding add_process construct register_obj_id register_for_process_state
  added_signals =
      subst
        (λ (id : ℕ).
          (lookup k
              (register_for_process_state id conf.handler.next_address conf.handler).sig_for_id
            ≡ some (k ∷ []))
          × ((q : ℕ)
              → q ≢ k
              → lookup q
                  (register_for_process_state id conf.handler.next_address conf.handler).sig_for_id
                ≡ lookup q conf.handler.sig_for_id))
        (sym numbered)
        (subst
          (λ (r : ℕ).
            (lookup k (register_for_process_state k r conf.handler).sig_for_id ≡ some (k ∷ []))
            × ((q : ℕ)
                → q ≢ k
                → lookup q (register_for_process_state k r conf.handler).sig_for_id
                  ≡ lookup q conf.handler.sig_for_id))
          (sym l.addresses) (register_fresh k k conf.handler (l.fresh k (omega arith))))

  child_fields : (child.graph_id ≡ k) × (child.state ≡ blocked) × (child.conditions ≡ [])
  unfolding new
  child_fields = (numbered, refl, refl)

  pub added_rest :
      (added.handler.next_address ≡ suc k)
      × (length added.processes ≡ suc k)
      × (added.child_counter ≡ suc k)
      × (added.handler.id_for_pid ≡ conf.handler.id_for_pid)
      × (added.handler.number_of_running_procs ≡ conf.handler.number_of_running_procs)
  unfolding add_process construct register_obj_id register_for_process_state
  added_rest = (
    ap suc l.addresses,
    omega (arith, length-append conf.processes (conf.handler.next_address ∷ []), l.count),
    refl,
    refl,
    refl,
  )

  held_of_added : (r : ℕ) → r < suc k → Memᴰ r added.processes
  unfolding add_process construct register_obj_id register_for_process_state
  held_of_added r below = elim (key_cases r k) [
    | inr ne ↦ Memᴰ.append_left (conf.handler.next_address ∷ []) (l.held r (omega arith))
    | inl eq ↦ Memᴰ.append_right conf.processes (Memᴰ.head (eq ∙ sym l.addresses))
  ]

  no_fds_of_added :
      (added.handler.id_for_fd ≡ [])
      × (added.handler.num_fd_for_id ≡ [])
      × (added.handler.epoll ≡ [])
  unfolding add_process construct register_obj_id register_for_process_state
  no_fds_of_added = l.no_fds

  objects_of_added :
      (r : ℕ) (c : ChildProcess)
      → lookup r (insert k child conf.handler.heap) ≡ some c
      → (c.graph_id ≡ r) × (r < suc k) × (c.state ≡ blocked) × (c.conditions ≡ [])
  objects_of_added r c found = elim (key_cases r k) [
    | inr ne ↦
        let (id, below, st, alone) =
          l.objects r c (sym (lookup-insert_ne k r child conf.handler.heap ne) ∙ found) in
        (id, omega arith, st, alone)
    | inl eq ↦
        let is_child : child ≡ c = lookup-insert_same conf.handler.heap eq found in
        (
          ap (λ (x : ChildProcess). x.graph_id) (sym is_child) ∙ child_fields.0 ∙ sym eq,
          omega arith,
          ap (λ (x : ChildProcess). x.state) (sym is_child) ∙ child_fields.1,
          ap (λ (x : ChildProcess). x.conditions) (sym is_child) ∙ child_fields.2,
        )
  ]

  known_of_added :
      (r : ℕ)
      → r < suc k
      → ((c : ChildProcess) × (lookup r (insert k child conf.handler.heap) ≡ some c))
        × (lookup r (insert k (some k) conf.handler.obj_for_id) ≡ some (some r))
        × (lookup r added.handler.sig_for_id ≡ some (r ∷ []))
  known_of_added r below = elim (key_cases r k) [
    | inl eq ↦
        subst
          (λ (q : ℕ).
            ((c : ChildProcess) × (lookup q (insert k child conf.handler.heap) ≡ some c))
            × (lookup q (insert k (some k) conf.handler.obj_for_id) ≡ some (some q))
            × (lookup q added.handler.sig_for_id ≡ some (q ∷ [])))
          (sym eq)
          (
            (child, lookup-insert_self k child conf.handler.heap),
            lookup-insert_self k (some k) conf.handler.obj_for_id,
            added_signals.0,
          )
    | inr ne ↦
        let ((c, found), obj, sig) = l.known r (omega arith) in
        (
          (c, lookup-insert_ne k r child conf.handler.heap ne ∙ found),
          lookup-insert_ne k r (some k) conf.handler.obj_for_id ne ∙ obj,
          added_signals.1 r ne ∙ sig,
        )
  ]

  named_of_added :
      (id r : ℕ) → lookup id (insert k (some k) conf.handler.obj_for_id) ≡ some (some r) → r ≡ id
  named_of_added id r e = elim (key_cases id k) [
    | inr ne ↦ l.named id r (sym (lookup-insert_ne k id (some k) conf.handler.obj_for_id ne) ∙ e)
    | inl eq ↦ sym (some-injective (lookup-insert_same conf.handler.obj_for_id eq e)) ∙ sym eq
  ]

  pub add_process-IsLoaded : IsLoaded added
  add_process-IsLoaded =
      let (addresses, count, counter, pids, idle) = added_rest in
      record {
        addresses = addresses ∙ sym counter;
        count = count ∙ sym counter;
        held = λ r below. held_of_added r (subst (λ n. r < n) counter below);
        objects =
            λ r c found. rw counter (objects_of_added r c (ap (lookup r) (sym added_heap) ∙ found));
        known = λ r below.
            rw (added_heap, added_objects) (known_of_added r (subst (λ n. r < n) counter below));
        fresh = λ id above.
            let high : suc k ≤ id = subst (λ n. n ≤ id) counter above in
            added_signals.1 id (λ eq. absurd (omega arith)) ∙ l.fresh id (omega arith);
        named = λ id r e. named_of_added id r (ap (lookup id) (sym added_objects) ∙ e);
        no_pids = pids ∙ l.no_pids;
        no_fds = no_fds_of_added;
        none_running = idle ∙ l.none_running;
      }
