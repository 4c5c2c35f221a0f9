-- ===== src/Child/Lifecycle/Links.antt =====
-- What `propagate_dependencies` does to the objects: whom it makes wait, and what it leaves alone.
pub mod Loops
pub mod Spread
use mathlib.Core.List.{Memᴰ}
use scinit.Base.{
  ℕ, ◌==◌, ==_iff, beq_refl, beq-false, if◌then◌else◌, ◌≡◌, refl, sym, ap, ◌∙◌, ◌≢◌, Bool, true,
  false, Option, none, some, List, [], ◌∷◌, arith, lookup, modify, nat_key, Text, text_beq,
  text_beq_iff, lookup-modify, Bool-cases, Option-cases, inl, inr,
}
use scinit.Child.Types.{ProcessState, Condition, ChildProcess, Heap, WeakPtr, lock}
use scinit.Child.Lifecycle.{should_wait_for, visit_before, visit_after}
use scinit.Child.Lifecycle.Conditions.{or_else, lookup-should_wait_for}

abbrev pub with_conditions : ChildProcess → List Condition → ChildProcess
with_conditions c cs = record c { conditions = cs }

-- `d` is `c` with further conditions.
abbrev pub Grown : ChildProcess → ChildProcess → Type 0
Grown c d =
    (cs : List Condition) × (d ≡ with_conditions c cs)
    × ((k : ℕ) (st : ProcessState) → lookup k c.conditions ≡ some st → lookup k cs ≡ some st)

-- No object comes or goes, and the objects only get further conditions.
pub record Extends (g h : Heap) : Type 0 where
  pub absent : (r : ℕ) → lookup r g ≡ none → lookup r h ≡ none
  pub present :
      (r : ℕ) (c : ChildProcess)
      → lookup r g ≡ some c
      → (d : ChildProcess) × (lookup r h ≡ some d) × Grown c d

-- The object at `r` has a condition on the process with the given id.
abbrev pub WaitsFor : ℕ → ℕ → Heap → Type 0
WaitsFor r id h =
    (c : ChildProcess) × (st : ProcessState) × (lookup r h ≡ some c)
    × (lookup id c.conditions ≡ some st)

Grown-refl : (c : ChildProcess) → Grown c c
Grown-refl c = (c.conditions, refl, λ k st e. e)

Grown-trans : (c d e : ChildProcess) → Grown c d → Grown d e → Grown c e
Grown-trans c d e (cs, p, keep) (ds, q, keep') =
    (ds, q ∙ ap (λ x. with_conditions x ds) p, λ k st a. keep' k st (rw p (keep k st a)))

pub Extends-refl : (h : Heap) → Extends h h
Extends-refl h = record { absent = λ r e. e; present = λ r c e. (c, e, Grown-refl c) }

pub Extends-trans : {f g h : Heap} → Extends f g → Extends g h → Extends f h
Extends-trans a b = record {
  absent = λ r e. b.absent r (a.absent r e);
  present = λ r c e.
      let (d, found, grown) = a.present r c e in
      let (d', found', grown') = b.present r d found in
      (d', found', Grown-trans c d d' grown grown');
}

pub WaitsFor-Extends : {g h : Heap} (r id : ℕ) → Extends g h → WaitsFor r id g → WaitsFor r id h
WaitsFor-Extends r id x (c, st, found, waits) =
    let (d, found', (cs, same, keep)) = x.present r c found in
    (d, st, found', rw same (keep id st waits))

should_wait_for-Grown :
    (o : ℕ) (st : ProcessState) (c : ChildProcess) → Grown c (should_wait_for o st c)
unfolding should_wait_for
should_wait_for-Grown o st c = (
  (should_wait_for o st c).conditions,
  ground arith,
  λ k s e. ground (arith, lookup-should_wait_for k o st c),
)

should_wait_for_waits :
    (o : ℕ) (st : ProcessState) (c : ChildProcess)
    → (s : ProcessState) × (lookup o (should_wait_for o st c).conditions ≡ some s)
should_wait_for_waits o st c = elim (Option-cases (lookup o c.conditions)) [
  | inl e ↦ (st, rw (lookup-should_wait_for o o st c, e, beq_refl o) refl)
  | inr (s, e) ↦ (s, rw (lookup-should_wait_for o o st c, e) refl)
]

-- A member function that only adds conditions, called on one object.
modify-Extends :
    (r : ℕ) (f : ChildProcess → ChildProcess) (h : Heap)
    → ((c : ChildProcess) → Grown c (f c))
    → Extends h (modify r f h)
modify-Extends r f h grows = record {
  absent = λ q e. ground (arith, lookup-modify r q f h);
  present = λ q c e. elim (Bool-cases (r == q)) [
    | inl same ↦ (f c, ground (arith, lookup-modify r q f h), grows c)
    | inr other ↦ (c, ground (arith, lookup-modify r q f h), Grown-refl c)
  ];
}

pub visit_before-Extends :
    (id : ℕ) (st : ProcessState) (dependency : Text) (ref : WeakPtr) (h : Heap)
    → Extends h (visit_before id st dependency ref h)
unfolding visit_before
visit_before-Extends id st dependency none h = Extends-refl h
visit_before-Extends id st dependency (some r) h = modify-Extends r _ h grows
  where
    grows :
        (c : ChildProcess)
        → Grown c (if text_beq c.name dependency then should_wait_for id st c else c)
    grows c = elim (Bool-cases (text_beq c.name dependency)) [
      | inl e ↦ rw e (should_wait_for-Grown id st c)
      | inr e ↦ rw e (Grown-refl c)
    ]

pub visit_after-Extends :
    (self : ℕ) (st : ProcessState) (dependency : Text) (ref : WeakPtr) (h : Heap)
    → Extends h (visit_after self st dependency ref h)
unfolding visit_after
visit_after-Extends self st dependency ref h = elim (Option-cases (lock h ref)) [
  | inl e ↦ rw (e, visit_after) (Extends-refl h)
  | inr (c, e) ↦ elim (Bool-cases (text_beq c.name dependency)) [
    | inl named ↦
        rw (e, named, visit_after) (modify-Extends self _ h (should_wait_for-Grown c.graph_id st))
    | inr other ↦ rw (e, other, visit_after) (Extends-refl h)
  ]
]

pub visit_before_waits :
    (id : ℕ) (st : ProcessState) (r : ℕ) (h : Heap) (c : ChildProcess)
    → lookup r h ≡ some c
    → WaitsFor r id (visit_before id st c.name (some r) h)
unfolding visit_before
visit_before_waits id st r h c e =
    let (s, waits) = should_wait_for_waits id st c in
    (
      should_wait_for id st c,
      s,
      rw (lookup-modify, beq_refl r, e, (text_beq_iff c.name c.name).1 refl),
      waits,
    )

pub visit_after_waits :
    (self : ℕ) (st : ProcessState) (r : ℕ) (h : Heap) (c d : ChildProcess)
    → lookup self h ≡ some c
    → lookup r h ≡ some d
    → WaitsFor self d.graph_id (visit_after self st d.name (some r) h)
unfolding visit_after lock
visit_after_waits self st r h c d e found =
    let (s, waits) = should_wait_for_waits d.graph_id st c in
    (
      should_wait_for d.graph_id st c,
      s,
      rw (found, (text_beq_iff d.name d.name).1 refl, visit_after, lookup-modify, beq_refl self, e)
          refl,
      waits,
    )
