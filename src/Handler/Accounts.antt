-- ===== src/Handler/Accounts.antt =====
-- The bookkeeping of src/ProcessHandler.cpp: the counter, the table of pids, the signals and the
-- states of the objects agree.
pub mod Launch
pub mod Exit
use scinit.Base.{
  lookup_same, none≢some, some-injective, ℕ, ℤ, pos, inc, dec, ◌≡◌, sym, ap, ◌∙◌, ◌≢◌, inl, inr,
  Option, none, some, List, [], ◌∷◌, Map, lookup, insert, erase, nat_key, int_key, length, Distinct,
  Distinct-insert, Distinct-erase, length-insert, length-erase, key_cases, Option-cases,
  lookup-insert_self, lookup-insert_ne, lookup-erase_self, lookup-erase_ne,
}
use scinit.Child.Types.{ProcessState, ready, running, ChildProcess, Heap}
use scinit.Handler.Types.{ProcessHandler}

-- Each object is the one slot of the signal of its id; the counter is the number of pids; each pid
-- belongs to a running object, each running object has a pid, and no two pids the same object.
pub record Accounts (n : ℤ) (pids : Map ℤ ℕ) (sigs : Map ℕ (List ℕ)) (h : Heap) : Type 0 where
  pub counted : n ≡ pos (length pids)
  pub distinct : Distinct pids
  pub wired :
      (r : ℕ) (c : ChildProcess) → lookup r h ≡ some c → lookup c.graph_id sigs ≡ some (r ∷ [])
  pub owned :
      (pid : ℤ) (id : ℕ)
      → lookup pid pids ≡ some id
      → (r : ℕ) × (c : ChildProcess) × (lookup r h ≡ some c)
        × (c.graph_id ≡ id)
        × (c.state ≡ running)
  pub single : (p q : ℤ) (id : ℕ) → lookup p pids ≡ some id → lookup q pids ≡ some id → p ≡ q
  pub supervised :
      (r : ℕ) (c : ChildProcess)
      → lookup r h ≡ some c
      → c.state ≡ running
      → (pid : ℤ) × (lookup pid pids ≡ some c.graph_id)

abbrev pub AccountsOf : ProcessHandler → Type 0
AccountsOf s = Accounts s.number_of_running_procs s.id_for_pid s.sig_for_id s.heap

-- `g` is `h` but for the object at `r`, which is `d` in `g`.
abbrev pub Updated : ℕ → ChildProcess → Heap → Heap → Type 0
Updated r d h g = (lookup r g ≡ some d) × ((q : ℕ) → q ≢ r → lookup q g ≡ lookup q h)

module _ {n : ℤ} {pids : Map ℤ ℕ} {sigs : Map ℕ (List ℕ)} {h : Heap}
    (a : Accounts n pids sigs h) where
  -- Two objects with one id are one object.
  pub same_object :
      (q r : ℕ) (d c : ChildProcess)
      → lookup q h ≡ some d
      → lookup r h ≡ some c
      → d.graph_id ≡ c.graph_id
      → q ≡ r
  same_object q r d c e f same =
      head_eq
        (some-injective (sym (a.wired q d e) ∙ ap (λ id. lookup id sigs) same ∙ a.wired r c f))
    where
      head_eq : {x y : ℕ} {l m : List ℕ} → (x ∷ l) ≡ (y ∷ m) → x ≡ y
      head_eq p = cc

  module _ (r : ℕ) (c d : ChildProcess) (g : Heap) (here : lookup r h ≡ some c)
      (same_id : d.graph_id ≡ c.graph_id) (up : Updated r d h g) where
    pub wired_update :
        (q : ℕ) (e : ChildProcess) → lookup q g ≡ some e → lookup e.graph_id sigs ≡ some (q ∷ [])
    wired_update q e found = elim (key_cases q r) [
      | inr ne ↦ a.wired q e (sym (up.1 q ne) ∙ found)
      | inl eq ↦
          let is_d : d ≡ e = lookup_same g up.0 eq found in
          ap (λ (x : ChildProcess). lookup x.graph_id sigs) (sym is_d)
          ∙ ap (λ id. lookup id sigs) same_id
          ∙ a.wired r c here
          ∙ ap (λ k. some (k ∷ [])) (sym eq)
    ]

    pub owned_update :
        (pid : ℤ) (id : ℕ)
        → (c.state ≡ running → d.state ≡ running)
        → lookup pid pids ≡ some id
        → (q : ℕ) × (e : ChildProcess) × (lookup q g ≡ some e)
          × (e.graph_id ≡ id)
          × (e.state ≡ running)
    owned_update pid id keeps known =
        let (q, e, found, its_id, runs) = a.owned pid id known in
        elim (key_cases q r) [
          | inr ne ↦ (q, e, up.1 q ne ∙ found, its_id, runs)
          | inl eq ↦
              let is_c : c ≡ e = lookup_same h here eq found in
              (
                r,
                d,
                up.0,
                same_id ∙ ap (λ (x : ChildProcess). x.graph_id) is_c ∙ its_id,
                keeps (ap (λ (x : ChildProcess). x.state) is_c ∙ runs),
              )
        ]

    -- A call that leaves the id alone, and does not start or end a process.
    pub Accounts-update :
        (c.state ≡ running → d.state ≡ running)
        → (d.state ≡ running → c.state ≡ running)
        → Accounts n pids sigs g
    Accounts-update keeps reflects = record {
      counted = a.counted;
      distinct = a.distinct;
      wired = wired_update;
      owned = λ pid id known. owned_update pid id keeps known;
      single = a.single;
      supervised = λ q e found runs. elim (key_cases q r) [
        | inr ne ↦ a.supervised q e (sym (up.1 q ne) ∙ found) runs
        | inl eq ↦
            let is_d : d ≡ e = lookup_same g up.0 eq found in
            let (pid, known) =
              a.supervised r c here (reflects (ap (λ (x : ChildProcess). x.state) is_d ∙ runs)) in
            (
              pid,
              known ∙ ap (λ id. some id) (sym same_id ∙ ap (λ (x : ChildProcess). x.graph_id) is_d),
            )
      ];
    }

  -- A change of the heap in which each object keeps its id, and no process is started or ended.
  pub Accounts-pointwise :
      (g : Heap)
      → ((r : ℕ) (c : ChildProcess)
          → lookup r h ≡ some c
          → (d : ChildProcess) × (lookup r g ≡ some d)
            × (d.graph_id ≡ c.graph_id)
            × (c.state ≡ running → d.state ≡ running)
            × (d.state ≡ running → c.state ≡ running))
      → ((r : ℕ) → lookup r h ≡ none → lookup r g ≡ none)
      → Accounts n pids sigs g
  Accounts-pointwise g forth absent = record {
    counted = a.counted;
    distinct = a.distinct;
    wired = λ r d found.
        let (c, here, same_id, _) = back r d found in
        ap (λ i. lookup i sigs) same_id ∙ a.wired r c here;
    owned = λ pid id known.
        let (r, c, found, its_id, runs) = a.owned pid id known in
        let (d, there, same_id, keeps, _) = forth r c found in
        (r, d, there, same_id ∙ its_id, keeps runs);
    single = a.single;
    supervised = λ r d found runs.
        let (c, here, same_id, reflects) = back r d found in
        let (pid, known) = a.supervised r c here (reflects runs) in
        (pid, known ∙ ap (λ i. some i) (sym same_id));
  }
    where
      back :
          (r : ℕ) (d : ChildProcess)
          → lookup r g ≡ some d
          → (c : ChildProcess) × (lookup r h ≡ some c)
            × (d.graph_id ≡ c.graph_id)
            × (d.state ≡ running → c.state ≡ running)
      back r d found = elim (Option-cases (lookup r h)) [
        | inl gone ↦ absurd (none≢some (absent r gone) found)
        | inr (c, here) ↦
            let (e, there, same_id, _, reflects) = forth r c here in
            let same : e ≡ d = some-injective (sym there ∙ found) in
            (
              c,
              here,
              ap (λ (x : ChildProcess). x.graph_id) (sym same) ∙ same_id,
              λ runs. reflects (ap (λ (x : ChildProcess). x.state) same ∙ runs),
            )
      ]
