-- ===== src/Handler/Descriptors.antt =====
-- The tables of descriptors of src/ProcessHandler.cpp: `num_fd_for_id` counts what `id_for_fd` holds.
pub mod Opened
pub mod Start
pub mod Events
pub mod Watched
pub mod Loop
pub mod Runs
use scinit.Base.{
  lookup_same, some-injective, ℕ, ℤ, ◌≤◌, ◌≡◌, ◌≢◌, ◌⊎◌, inl, inr, sym, ap, ◌∙◌, none, some, Map,
  lookup, index, nat_key, int_key, Distinct, count, key_cases, subst,
}
use scinit.Child.Types.{ProcessState, FdType, blocked, ready, ChildProcess, Heap}
use scinit.Handler.Types.{ProcessHandler}
use scinit.Handler.Accounts.{Updated}

abbrev pub IsUnstarted : ProcessState → Type 0
IsUnstarted st = (st ≡ blocked) ⊎ (st ≡ ready)

-- The counter of an id is the number of its descriptors, at most two, each of which has a type; an
-- object that has not been started has none.
pub record Descriptors (ids : Map ℤ ℕ) (nums : Map ℕ ℕ) (types : Map ℤ FdType) (h : Heap)
    : Type 0 where
  pub distinct : Distinct ids
  pub counted : (id : ℕ) → index id 0 nums ≡ count id ids
  pub bounded : (id : ℕ) → count id ids ≤ 2
  pub typed :
      (fd : ℤ) (id : ℕ) → lookup fd ids ≡ some id → (type : FdType) × (lookup fd types ≡ some type)
  pub unopened :
      (r : ℕ) (c : ChildProcess)
      → lookup r h ≡ some c
      → IsUnstarted c.state
      → count c.graph_id ids ≡ 0

abbrev pub DescriptorsOf : ProcessHandler → Type 0
DescriptorsOf s = Descriptors s.id_for_fd s.num_fd_for_id s.fd_type s.heap

-- A change of one object that keeps its id, and does not make it one that has not been started.
pub Descriptors-update :
    (ids : Map ℤ ℕ) (nums : Map ℕ ℕ) (types : Map ℤ FdType) (h g : Heap) (r : ℕ)
    (c d : ChildProcess)
    → lookup r h ≡ some c
    → d.graph_id ≡ c.graph_id
    → (IsUnstarted d.state → IsUnstarted c.state)
    → Updated r d h g
    → Descriptors ids nums types h
    → Descriptors ids nums types g
Descriptors-update ids nums types h g r c d here same_id back up x = record {
  distinct = x.distinct;
  counted = x.counted;
  bounded = x.bounded;
  typed = x.typed;
  unopened = λ q e found unstarted. elim (key_cases q r) [
    | inr ne ↦ x.unopened q e (sym (up.1 q ne) ∙ found) unstarted
    | inl eq ↦
        let is_d : d ≡ e = lookup_same g up.0 eq found in
        ap (λ i. count i ids) (ap (λ (y : ChildProcess). y.graph_id) (sym is_d) ∙ same_id)
        ∙ x.unopened r c here
            (back (subst (λ (y : ChildProcess). IsUnstarted y.state) (sym is_d) unstarted))
  ];
}
