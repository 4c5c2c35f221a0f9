-- ===== src/Config/Credentials.antt =====
-- The user and the group that a program runs as.
use scinit.Base.{
  ℕ, ℤ, negsuc, ◌<◌, ◌≡◌, refl, ◌⊎◌, inl, inr, Bool, false, Option, some, Text, codes, to_unsigned,
  to_signed, to_unsigned-to_signed, to_unsigned_minus_one, u32_mod, ok,
}
use scinit.Config.{
  Field, absent, present, ProgramNode, ConfigError, unknown_user, unknown_group, Users, numeric_ids,
  named_id, credentials,
}

-- A name that is given, or the fallback, is looked up, and the value comes through the two
-- conversions.
named_id_found :
    (find : Text → Option ℕ) (e : ConfigError) (fallback name : Text) (node : Field Text)
    (numeric : Bool) (id : ℤ) (found : ℕ)
    → ((node ≡ present name) ⊎ ((node ≡ absent) × (numeric ≡ false) × (name ≡ fallback)))
    → find name ≡ some found
    → named_id find e fallback node numeric id ≡ ok (to_signed found)
unfolding named_id
named_id_found find e fallback name node numeric id found (inl given) known = rw (given, known) refl
named_id_found find e fallback name node numeric id found (inr (none_given, no_number, same))
      known =
    rw (none_given, no_number) (rw (← same) (rw known refl))

-- If a user and a group are named, both names are looked up, and the numbers play no part.
pub credentials_named :
    (users : Users) (node : ProgramNode) (user group : Text) (uid gid : ℕ)
    → node.user ≡ present user
    → node.group ≡ present group
    → (numbers : ℤ × Bool) × (numeric_ids node.uid node.gid ≡ ok numbers)
    → users.getpwnam user ≡ some uid
    → users.getgrnam group ≡ some gid
    → uid < u32_mod
    → gid < u32_mod
    → credentials users node ≡ ok (uid, gid)
unfolding credentials
credentials_named users node user group uid gid u g (numbers, n) known_u known_g small_u small_g =
    rw
      (
        n,
        named_id_found users.getpwnam unknown_user (codes "nobody") user node.user numbers.1
            numbers.0 uid (inl u) known_u,
        named_id_found users.getgrnam unknown_group (codes "nogroup") group node.group numbers.1
            (negsuc 0) gid (inl g) known_g,
        to_unsigned-to_signed uid small_u,
        to_unsigned-to_signed gid small_g,
      )
      refl

-- Without any of the four keys a program runs as nobody:nogroup.
credentials_default :
    (users : Users) (node : ProgramNode) (uid gid : ℕ)
    → node.user ≡ absent
    → node.group ≡ absent
    → node.uid ≡ absent
    → node.gid ≡ absent
    → users.getpwnam (codes "nobody") ≡ some uid
    → users.getgrnam (codes "nogroup") ≡ some gid
    → uid < u32_mod
    → gid < u32_mod
    → credentials users node ≡ ok (uid, gid)
unfolding credentials numeric_ids
credentials_default users node uid gid u g no_uid no_gid known_u known_g small_u small_g =
    rw
      (
        no_uid,
        no_gid,
        named_id_found users.getpwnam unknown_user (codes "nobody") (codes "nobody") node.user false
            (negsuc 0) uid (inr (u, refl, refl)) known_u,
        named_id_found users.getgrnam unknown_group (codes "nogroup") (codes "nogroup") node.group
            false (negsuc 0) gid (inr (g, refl, refl)) known_g,
        to_unsigned-to_signed uid small_u,
        to_unsigned-to_signed gid small_g,
      )
      refl

-- A numeric group is taken for the user: with `gid` given and no names the user is that number,
-- whatever `uid` says, and the group is the number that -1 is converted to.
pub credentials_numeric_gid :
    (users : Users) (node : ProgramNode) (gid : ℤ)
    → node.user ≡ absent
    → node.group ≡ absent
    → (node.uid ≡ absent) ⊎ ((uid : ℤ) × (node.uid ≡ present uid))
    → node.gid ≡ present gid
    → credentials users node ≡ ok (to_unsigned gid, 4294967295)
unfolding credentials numeric_ids named_id
credentials_numeric_gid users node gid u g (inl no_uid) has_gid =
    rw (u, g, no_uid, has_gid, to_unsigned_minus_one) refl
credentials_numeric_gid users node gid u g (inr (uid, has_uid)) has_gid =
    rw (u, g, has_uid, has_gid, to_unsigned_minus_one) refl
