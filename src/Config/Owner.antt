-- ===== src/Config/Owner.antt =====
-- Whom the keys `user`, `group`, `uid` and `gid` of an entry make the owner of its process.
use scinit.Base.{
  ℕ, ℤ, negsuc, ◌<◌, ◌≡◌, sym, ap, ◌∙◌, Bool, true, false, Option, some, Text, codes, to_unsigned,
  to_signed, to_unsigned-to_signed, to_unsigned_minus_one, u32_mod, ok, ok-injective, >>=-eq-ok,
  inl, inr, Option-cases, subst, arith,
}
use scinit.Config.{
  Field, absent, present, ProgramNode, ConfigError, unknown_user, unknown_group, Users, numeric_ids,
  named_id, credentials,
}

-- The database knows the name, under this number.
abbrev pub IsKnown : (Text → Option ℕ) → Text → ℕ → Type 0
IsKnown find name id = (n : ℕ) × (find name ≡ some n) × (n < u32_mod → id ≡ n)

-- A name is looked up, and `nobody` without any of the keys. A number in `gid` is taken for the user,
-- whatever `uid` says; the number in `uid` counts only without one.
pub record IsUser (users : Users) (node : ProgramNode) (uid : ℕ) : Type 0 where
  pub named : (name : Text) → node.user ≡ present name → IsKnown users.getpwnam name uid
  pub nobody :
      node.user ≡ absent
      → node.uid ≡ absent
      → node.gid ≡ absent
      → IsKnown users.getpwnam (codes "nobody") uid
  pub by_gid : (i : ℤ) → node.user ≡ absent → node.gid ≡ present i → uid ≡ to_unsigned i
  pub by_uid :
      (i : ℤ) → node.user ≡ absent → node.gid ≡ absent → node.uid ≡ present i → uid ≡ to_unsigned i

-- A name is looked up, and `nogroup` without any of the keys. With a number in either key, and no name,
-- the group is what -1 is converted to.
pub record IsGroup (users : Users) (node : ProgramNode) (gid : ℕ) : Type 0 where
  pub named : (name : Text) → node.group ≡ present name → IsKnown users.getgrnam name gid
  pub nogroup :
      node.group ≡ absent
      → node.uid ≡ absent
      → node.gid ≡ absent
      → IsKnown users.getgrnam (codes "nogroup") gid
  pub by_gid : (i : ℤ) → node.group ≡ absent → node.gid ≡ present i → gid ≡ 4294967295
  pub by_uid : (i : ℤ) → node.group ≡ absent → node.uid ≡ present i → gid ≡ 4294967295

module _ (find : Text → Option ℕ) (x : ConfigError) (fallback : Text) (node : Field Text)
    (numeric : Bool) (id v : ℤ) (e : named_id find x fallback node numeric id ≡ ok v) where
  abbrev Found : Text → Type 0
  Found name = (n : ℕ) × (find name ≡ some n) × (v ≡ to_signed n)

  named_id-given : (name : Text) → node ≡ present name → Found name
  unfolding named_id
  named_id-given name given = elim (Option-cases (find name)) [
    | inl unknown ↦ absurd (cc (rw (given, unknown) at e))
    | inr (n, known) ↦ (n, known, sym (ok-injective (rw (given, known) at e)))
  ]

  named_id-fallback : node ≡ absent → numeric ≡ false → Found fallback
  unfolding named_id
  named_id-fallback not_given no_number = elim (Option-cases (find fallback)) [
    | inl unknown ↦ absurd (cc (rw (not_given, no_number, unknown) at e))
    | inr (n, known) ↦ (n, known, sym (ok-injective (rw (not_given, no_number, known) at e)))
  ]

  named_id-number : node ≡ absent → numeric ≡ true → v ≡ id
  unfolding named_id
  named_id-number not_given number = sym (ok-injective (rw (not_given, number) at e))

module _ (uid gid : Field ℤ) (numbers : ℤ × Bool) (e : numeric_ids uid gid ≡ ok numbers) where
  numeric_ids-none : uid ≡ absent → gid ≡ absent → numbers.1 ≡ false
  unfolding numeric_ids
  numeric_ids-none no_uid no_gid = ground arith

  numeric_ids-gid : (i : ℤ) → gid ≡ present i → (numbers.0 ≡ i) × (numbers.1 ≡ true)
  unfolding numeric_ids
  numeric_ids-gid i has_gid = ground arith

  numeric_ids-uid : (i : ℤ) → uid ≡ present i → (numbers.1 ≡ true) × (gid ≡ absent → numbers.0 ≡ i)
  unfolding numeric_ids
  numeric_ids-uid i has_uid = ground arith

Found-IsKnown :
    (find : Text → Option ℕ) (name : Text) (v : ℤ)
    → (n : ℕ) × (find name ≡ some n) × (v ≡ to_signed n)
    → IsKnown find name (to_unsigned v)
Found-IsKnown find name v (n, known, same) =
    (n, known, λ small. ap to_unsigned same ∙ to_unsigned-to_signed n small)

-- What the code makes of the four keys.
pub credentials-Owner :
    (users : Users) (node : ProgramNode) (ids : ℕ × ℕ)
    → credentials users node ≡ ok ids
    → IsUser users node ids.0 × IsGroup users node ids.1
unfolding credentials
credentials-Owner users node ids e =
    let (numbers, n, e1) = >>=-eq-ok (numeric_ids node.uid node.gid) _ e in
    let (u, has_u, e2) =
      >>=-eq-ok
        (named_id users.getpwnam unknown_user (codes "nobody") node.user numbers.1 numbers.0) _
        e1 in
    let (g, has_g, e3) =
      >>=-eq-ok
        (named_id users.getgrnam unknown_group (codes "nogroup") node.group numbers.1 (negsuc 0)) _
        e2 in
    subst (λ (x : ℕ × ℕ). IsUser users node x.0 × IsGroup users node x.1) (ok-injective e3)
      (user numbers u n has_u, group numbers g n has_g)
  where
    user :
        (numbers : ℤ × Bool) (u : ℤ)
        → numeric_ids node.uid node.gid ≡ ok numbers
        → named_id users.getpwnam unknown_user (codes "nobody") node.user numbers.1 numbers.0 ≡ ok u
        → IsUser users node (to_unsigned u)
    user numbers u n has = record {
      named = λ name given. Found-IsKnown users.getpwnam name u (
          named_id-given users.getpwnam unknown_user (codes "nobody") node.user numbers.1 numbers.0
            u has name given);
      nobody = λ no_name no_uid no_gid. Found-IsKnown users.getpwnam (codes "nobody") u (
          named_id-fallback users.getpwnam unknown_user (codes "nobody") node.user numbers.1
            numbers.0 u has no_name (numeric_ids-none node.uid node.gid numbers n no_uid no_gid));
      by_gid = λ i no_name has_gid.
          let (same, number) = numeric_ids-gid node.uid node.gid numbers n i has_gid in
          ap to_unsigned (
            named_id-number users.getpwnam unknown_user (codes "nobody") node.user numbers.1
              numbers.0 u has no_name number
            ∙ same);
      by_uid = λ i no_name no_gid has_uid.
          let (number, same) = numeric_ids-uid node.uid node.gid numbers n i has_uid in
          ap to_unsigned (
            named_id-number users.getpwnam unknown_user (codes "nobody") node.user numbers.1
              numbers.0 u has no_name number
            ∙ same no_gid);
    }

    group :
        (numbers : ℤ × Bool) (g : ℤ)
        → numeric_ids node.uid node.gid ≡ ok numbers
        → named_id users.getgrnam unknown_group (codes "nogroup") node.group numbers.1 (negsuc 0)
          ≡ ok g
        → IsGroup users node (to_unsigned g)
    group numbers g n has = record {
      named = λ name given. Found-IsKnown users.getgrnam name g (
          named_id-given users.getgrnam unknown_group (codes "nogroup") node.group numbers.1
            (negsuc 0) g has name given);
      nogroup = λ no_name no_uid no_gid. Found-IsKnown users.getgrnam (codes "nogroup") g (
          named_id-fallback users.getgrnam unknown_group (codes "nogroup") node.group numbers.1
            (negsuc 0) g has no_name (numeric_ids-none node.uid node.gid numbers n no_uid no_gid));
      by_gid = λ i no_name has_gid.
          let (_, number) = numeric_ids-gid node.uid node.gid numbers n i has_gid in
          ap to_unsigned (
            named_id-number users.getgrnam unknown_group (codes "nogroup") node.group numbers.1
              (negsuc 0) g has no_name number)
          ∙ to_unsigned_minus_one;
      by_uid = λ i no_name has_uid.
          let (number, _) = numeric_ids-uid node.uid node.gid numbers n i has_uid in
          ap to_unsigned (
            named_id-number users.getgrnam unknown_group (codes "nogroup") node.group numbers.1
              (negsuc 0) g has no_name number)
          ∙ to_unsigned_minus_one;
    }
