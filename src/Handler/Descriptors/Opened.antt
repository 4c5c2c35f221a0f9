-- ===== src/Handler/Descriptors/Opened.antt =====
-- Two descriptors of one process are put into the tables of src/ProcessHandler.cpp.
use scinit.Base.{
  lookup_same, Bool-cases, beq-false, ℕ, ℤ, ◌==◌, ==_iff, if◌then◌else◌, ◌≡◌, ◌≢◌, inl, inr, refl,
  sym, ap, ◌∙◌, none, some, Map, lookup, insert, index, nat_key, int_key, Distinct-insert, count,
  count-insert, key_cases, lookup-insert, lookup-insert_self, lookup-insert_ne, arith,
}
use scinit.Child.Types.{ProcessState, FdType, running, ChildProcess, Heap}
use scinit.Handler.Descriptors.{IsUnstarted, Descriptors}

module _ (ids : Map ℤ ℕ) (nums : Map ℕ ℕ) (types : Map ℤ FdType) (out error : ℤ) (id : ℕ)
    (fresh_out : lookup out ids ≡ none) (fresh_error : lookup error ids ≡ none)
    (differ : error ≢ out) (unused : count id ids ≡ 0) where
  abbrev pub opened : Map ℤ ℕ
  opened = insert error id (insert out id ids)

  fresh_error_next : lookup error (insert out id ids) ≡ none
  fresh_error_next = lookup-insert_ne out error id ids differ ∙ fresh_error

  pub count-opened : (k : ℕ) → count k opened ≡ (if id == k then 2 else count k ids)
  count-opened k = ground (
    arith,
    ==_iff id k,
    count-insert error id k (insert out id ids) fresh_error_next,
    count-insert out id k ids fresh_out,
    unused,
  )

  opened-typed :
      ((fd : ℤ) (k : ℕ) → lookup fd ids ≡ some k → (type : FdType) × (lookup fd types ≡ some type))
      → (fd : ℤ) (k : ℕ) → lookup fd opened ≡ some k
      → (type : FdType) × (lookup fd (insert error FdType.stderr (insert out FdType.stdout types))
          ≡ some type)
  opened-typed old fd k e = elim (key_cases fd error) [
    | inl eq ↦ (
      FdType.stderr,
      ap (λ x. lookup x (insert error FdType.stderr (insert out FdType.stdout types))) eq
          ∙ lookup-insert_self error FdType.stderr (insert out FdType.stdout types),
    )
    | inr ne ↦ elim (key_cases fd out) [
      | inl eq ↦ (
        FdType.stdout,
        lookup-insert_ne error fd FdType.stderr (insert out FdType.stdout types) ne
            ∙ ap (λ x. lookup x (insert out FdType.stdout types)) eq
            ∙ lookup-insert_self out FdType.stdout types,
      )
      | inr other ↦
          let (type, there) = old fd k (
            sym (lookup-insert_ne out fd id ids other)
            ∙ sym (lookup-insert_ne error fd id (insert out id ids) ne)
            ∙ e) in
          (
            type,
            lookup-insert_ne error fd FdType.stderr (insert out FdType.stdout types) ne
                ∙ lookup-insert_ne out fd FdType.stdout types other
                ∙ there,
          )
    ]
  ]

  -- The object at `r`, which had no descriptors, runs with the two.
  pub Descriptors-opened :
      (h g : Heap) (r : ℕ) (d : ChildProcess)
      → lookup r g ≡ some d
      → d.state ≡ running
      → ((q : ℕ) (e : ChildProcess)
          → q ≢ r
          → lookup q g ≡ some e
          → (lookup q h ≡ some e) × (e.graph_id ≢ id))
      → Descriptors ids nums types h
      → Descriptors opened
          (insert id 2 nums)
          (insert error FdType.stderr (insert out FdType.stdout types))
          g
  Descriptors-opened h g r d there runs others x = record {
    distinct =
        Distinct-insert error id (insert out id ids) fresh_error_next
          (Distinct-insert out id ids fresh_out x.distinct);
    counted = counted;
    bounded = λ k. ground (arith, count-opened k, x.bounded k);
    typed = opened-typed x.typed;
    unopened = unopened;
  }
    where
      counted : (k : ℕ) → index k 0 (insert id 2 nums) ≡ count k opened
      counted k =
          unfold index in
          rw (lookup-insert, count-opened k)
            (elim (Bool-cases (id == k)) [
              | inl same ↦ rw same refl
              | inr other ↦ rw other (x.counted k)
            ])

      unopened :
          (q : ℕ) (e : ChildProcess)
          → lookup q g ≡ some e
          → IsUnstarted e.state
          → count e.graph_id opened ≡ 0
      unopened q e found unstarted = elim (key_cases q r) [
        | inl eq ↦
            let is_d : d ≡ e = lookup_same g there eq found in
            absurd (not_running unstarted (ap (λ (y : ChildProcess). y.state) (sym is_d) ∙ runs))
        | inr ne ↦
            let (old, own) = others q e ne found in
            let none_old = x.unopened q e old unstarted in
            count-opened e.graph_id ∙ rw (beq-false id e.graph_id (λ p. own (sym p))) none_old
      ]
        where
          not_running : {st : ProcessState} → IsUnstarted st → st ≡ running → ⊥
          not_running (inl p) q = cc
          not_running (inr p) q = cc
