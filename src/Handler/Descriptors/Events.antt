-- ===== src/Handler/Descriptors/Events.antt =====
-- An event keeps the tables of descriptors in order, and an exit does.
use Prim.Native.Nat.{bit_and}
use scinit.Base.{
  beq_refl, ℕ, ℤ, suc, ◌≤◌, ◌==◌, ==_iff, ◌≡◌, inl, inr, sym, ap, ◌∙◌, none, some, Option, Map,
  lookup, insert, erase, index, nat_key, int_key, Distinct-erase, count, count-erase, key_cases,
  subst, ok, lookup-insert, lookup-erase_self, lookup-erase_ne, arith, Bool-cases, dec_u32,
  index_present,
}
use scinit.Child.Types.{FdType, Heap}
use scinit.Handler.Types.{ProcessHandler}
use scinit.Handler.Events.{EpollEvent, epollin, event_received}
use scinit.Handler.Events.Hangup.{event_received_same, event_received_tables}
use scinit.Handler.Descriptors.{Descriptors, DescriptorsOf}

-- A hang-up comes for a descriptor that is in the table.
abbrev pub IsKnown : EpollEvent → ProcessHandler → Type 0
IsKnown e s = bit_and e.events epollin ≡ 0 → (id : ℕ) × (lookup e.fd s.id_for_fd ≡ some id)

module _ (ids : Map ℤ ℕ) (nums : Map ℕ ℕ) (types : Map ℤ FdType) (fd : ℤ) (id : ℕ)
    (known : lookup fd ids ≡ some id) where
  some≢none : {o : Option ℕ} {k : ℕ} → o ≡ none → o ≡ some k → ⊥
  some≢none p q = cc

  module _ (h : Heap) (x : Descriptors ids nums types h) where
    -- The counter is not 0, so it does not wrap.
    pub one_less :
        (index id 0 nums ≡ suc (count id (erase fd ids)))
        × (dec_u32 (index id 0 nums) ≡ count id (erase fd ids))
    one_less =
        let one : index id 0 nums ≡ suc (count id (erase fd ids)) =
          x.counted id
          ∙ count-erase fd id id ids x.distinct known
          ∙ rw (beq_refl id) (omega arith) in
        let most : index id 0 nums ≤ 2 = subst (λ n. n ≤ 2) (sym (x.counted id)) (x.bounded id) in
        (one, dec_lem (index id 0 nums) (count id (erase fd ids)) one most)
      where
        dec_lem : (n m : ℕ) → n ≡ suc m → n ≤ 2 → dec_u32 n ≡ m
        dec_lem n m e h = omega arith

    count-closed : (k : ℕ) → count k (erase fd ids) ≤ count k ids
    count-closed k = let one = count-erase fd id k ids x.distinct known in omega arith

    counted_closed :
        (k : ℕ) → index k 0 (insert id (dec_u32 (index id 0 nums)) nums) ≡ count k (erase fd ids)
    counted_closed k =
        unfold index in
        rw lookup-insert (elim (Bool-cases (id == k)) [
          | inl same ↦
              rw same (one_less.1 ∙ ap (λ i. count i (erase fd ids)) ((==_iff id k).0 same))
          | inr other ↦
              rw other
                (x.counted k ∙ count-erase fd id k ids x.distinct known ∙ rw other (omega arith))
        ])

    Descriptors-closed :
        Descriptors (erase fd ids) (insert id (dec_u32 (index id 0 nums)) nums) (erase fd types) h
    Descriptors-closed = record {
      distinct = Distinct-erase fd ids x.distinct;
      counted = counted_closed;
      bounded = λ k. let most = x.bounded k in let less = count-closed k in omega arith;
      typed = λ f k e. elim (key_cases f fd) [
        | inl eq ↦
            absurd (some≢none (ap (λ i. lookup i (erase fd ids)) eq ∙ lookup-erase_self fd ids) e)
        | inr ne ↦
            let (type, there) = x.typed f k (sym (lookup-erase_ne fd f ids ne) ∙ e) in
            (type, lookup-erase_ne fd f types ne ∙ there)
      ];
      unopened = λ r c here unstarted.
          let zero = x.unopened r c here unstarted in
          let less = count-closed c.graph_id in omega arith;
    }

-- An event that does not end the program keeps the tables of descriptors in order.
pub event_received-Descriptors :
    (e : EpollEvent) (s t : ProcessHandler)
    → IsKnown e s
    → event_received e s ≡ ok t
    → DescriptorsOf s
    → DescriptorsOf t
event_received-Descriptors e s t known h x =
    let (_, _, _, heap, _, _) = event_received_same e s {t = t} h in
    elim (event_received_tables e s {t = t} h) [
      | inl (ids, nums, types, _, _) ↦ rw (ids, nums, types, heap) x
      | inr (no_input, (ids, nums, types, _, _)) ↦
          let (id, there) = known no_input in
          rw (ids, nums, types, heap, index_present e.fd 0 s.id_for_fd there)
            (Descriptors-closed s.id_for_fd s.num_fd_for_id s.fd_type e.fd id there s.heap x)
    ]
