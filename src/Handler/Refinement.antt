-- ===== src/Handler/Refinement.antt =====
-- The handler of src/ProcessHandler.cpp, seen as the abstract supervisor.
pub mod Start
pub mod Loop
pub mod Registered
use mathlib.Core.Path.{fun_ext}
use mathlib.Core.Option
use scinit.Base.{
  lookup_same, some-injective, ℕ, ◌==◌, if◌then◌else◌, ◌≡◌, refl, sym, ap, ◌∙◌, ◌≢◌, inl, inr, Bool,
  true, false, Option, none, some, List, [], ◌∷◌, Map, All, lookup, nat_key, key_cases, beq_refl,
  beq-false, Option-cases,
}
use scinit.Child.Types.{Condition, ChildProcess, Heap, WeakPtr, lock}
use scinit.Child.Lifecycle.States.{IsFulfilled}
use scinit.Supervisor.{Process, View, update, IsMet}
use scinit.Handler.Types.{ProcessHandler}
use scinit.Handler.Accounts.{Updated}

abbrev pub process_of : ChildProcess → Process
process_of c = record { state = c.state; conditions = c.conditions }

abbrev pub process_at : Heap → Option WeakPtr → Option Process
process_at h none = none
process_at h (some ref) = Option.map process_of (lock h ref)

-- What the handler knows of the processes: by their ids, the objects that are there.
abbrev pub view : Map ℕ WeakPtr → Heap → View
view objs h id = process_at h (lookup id objs)

abbrev pub view_of : ProcessHandler → View
view_of s = view s.obj_for_id s.heap

-- Each object is registered under its id, and under no other.
pub record Named (objs : Map ℕ WeakPtr) (h : Heap) : Type 0 where
  pub known :
      (r : ℕ) (c : ChildProcess) → lookup r h ≡ some c → lookup c.graph_id objs ≡ some (some r)
  pub own :
      (id r : ℕ) (c : ChildProcess)
      → lookup id objs ≡ some (some r)
      → lookup r h ≡ some c
      → c.graph_id ≡ id

abbrev pub NamedOf : ProcessHandler → Type 0
NamedOf s = Named s.obj_for_id s.heap

-- A process that a condition asks for, as the code sees it, is what the supervisor sees.
IsFulfilled-IsMet :
    (objs : Map ℕ WeakPtr) (h : Heap) (c : Condition) → IsFulfilled objs h c → IsMet (view objs h) c
IsFulfilled-IsMet objs h (id, st) (ref, p, known, alive, is) =
    (process_of p, rw known (rw alive refl), is)

pub All-IsMet :
    (objs : Map ℕ WeakPtr) (h : Heap) (cs : List Condition)
    → All (IsFulfilled objs h) cs
    → All (IsMet (view objs h)) cs
All-IsMet objs h [] met = tt
All-IsMet objs h (c ∷ cs) met = (IsFulfilled-IsMet objs h c met.0, All-IsMet objs h cs met.1)

module _ {objs : Map ℕ WeakPtr} {h : Heap} (n : Named objs h) (r : ℕ) (c d : ChildProcess)
    (g : Heap) (here : lookup r h ≡ some c) (same_id : d.graph_id ≡ c.graph_id)
    (up : Updated r d h g) where
  pub view_there : view objs h c.graph_id ≡ some (process_of c)
  unfolding lock
  view_there = rw (n.known r c here) (rw here refl)

  -- The change of one object is the change of one process.
  pub view-update : view objs g ≡ update (view objs h) c.graph_id (process_of d)
  unfolding lock
  view-update = fun_ext λ k. elim (key_cases c.graph_id k) [
    | inl eq ↦ rw (sym eq) (rw (n.known r c here, beq_refl c.graph_id) (rw (up.0) refl))
    | inr ne ↦ rw (beq-false c.graph_id k ne) (other k ne (lookup k objs) refl)
  ]
    where
      other :
          (k : ℕ)
          → c.graph_id ≢ k
          → (o : Option WeakPtr) → lookup k objs ≡ o
          → process_at g o ≡ process_at h o
      other k ne none e = refl
      other k ne (some none) e = refl
      other k ne (some (some q)) e = elim (key_cases q r) [
        | inr nq ↦ ap (Option.map process_of) (up.1 q nq)
        | inl eq ↦ absurd (ne (n.own k r c (e ∙ ap (λ x. some (some x)) eq) here))
      ]

  pub view_same : process_of d ≡ process_of c → view objs g ≡ view objs h
  view_same same = fun_ext λ k. ap (λ v. v k) view-update ∙ elim (key_cases c.graph_id k) [
    | inl eq ↦ rw (sym eq) (rw (beq_refl c.graph_id) (ap some same ∙ sym view_there))
    | inr ne ↦ rw (beq-false c.graph_id k ne) refl
  ]

  pub Named-update : Named objs g
  Named-update = record {
    known = λ q e found. elim (key_cases q r) [
      | inr ne ↦ n.known q e (sym (up.1 q ne) ∙ found)
      | inl eq ↦
          let is_d : d ≡ e = lookup_same g up.0 eq found in
          ap (λ (x : ChildProcess). lookup x.graph_id objs) (sym is_d)
          ∙ ap (λ id. lookup id objs) same_id
          ∙ n.known r c here
          ∙ ap (λ x. some (some x)) (sym eq)
    ];
    own = λ id q e known found. elim (key_cases q r) [
      | inr ne ↦ n.own id q e known (sym (up.1 q ne) ∙ found)
      | inl eq ↦
          let is_d : d ≡ e = lookup_same g up.0 eq found in
          ap (λ (x : ChildProcess). x.graph_id) (sym is_d)
          ∙ same_id
          ∙ n.own id r c (known ∙ ap (λ x. some (some x)) eq) here
    ];
  }
