-- ===== src/Config/Described.antt =====
-- What the entries of a configuration say of the objects: the fields that `parse_file` reads.
use scinit.Base.{
  ℕ, ◌≡◌, ◌⊎◌, ◌↔◌, inl, inr, refl, sym, ap, true, false, Option, none, some, List, [], ◌∷◌, ◌++◌,
  map, Text, codes, lower, text_beq_iff, >>=-eq-ok, ok, ok-injective, arith, subst,
}
use scinit.Child.Types.{ProcessArgs, simple, ChildProcess, process_type, user_name, new}
use scinit.Config.{
  Field, absent, malformed, present, or_default, ListNode, yaml_node_to_str_list, credentials,
  ProgramNode, Users, is_program, process_args, EnvNode, scalar, pair, whitelist, extra_vars,
}
use scinit.Config.Lists.{yaml_node_to_str_list_iff}
use scinit.Config.Owner.{IsUser, IsGroup, credentials-Owner}

-- The value of a key, or what a missing key stands for.
abbrev pub IsValue {ℓ} : {A : Type ℓ} → A → Field A → A → Type ℓ
IsValue d field a = ((field ≡ absent) × (a ≡ d)) ⊎ (field ≡ present a)

-- The texts under a key, which may be missing.
abbrev pub IsList : ListNode → List Text → Type 0
IsList node list = ((node ≡ none) × (list ≡ [])) ⊎ (node ≡ some (map some list))

-- The entries of `env` that are names, and those that are a name with its value.
pub data IsSplit : List EnvNode → List Text → List (Text × Text) → Type 0 where
  nothing : IsSplit [] [] []
  whitelisted :
      {env : List EnvNode} {names : List Text} {vars : List (Text × Text)} (n : Text)
      → IsSplit env names vars
      → IsSplit (scalar n ∷ env) (n ∷ names) vars
  variable :
      {env : List EnvNode} {names : List Text} {vars : List (Text × Text)} (n value : Text)
      → IsSplit env names vars
      → IsSplit (pair n value ∷ env) names ((n, value) ∷ vars)

-- The names that every program may take over from the environment.
abbrev pub taken_over : List Text
taken_over =
    map codes
      ("HOME" ∷ "LANG" ∷ "LANGUAGE" ∷ "LOGNAME" ∷ "PATH" ∷ "PWD" ∷ "SHELL" ∷ "TERM" ∷ "USER" ∷ [])

-- The object is the one that the entry describes.
pub record IsFrom (users : Users) (node : ProgramNode) (c : ChildProcess) : Type 0 where
  pub name : node.name ≡ present c.name
  pub path : node.path ≡ present c.path
  pub type : Text
  pub is_type : IsValue (codes "simple") node.type type
  pub is_simple : (c.type ≡ simple) ↔ (lower type ≡ codes "simple")
  pub args : IsList node.args c.args
  pub capabilities : IsList node.capabilities c.capabilities
  pub before : IsList node.before c.before
  pub after : IsList node.after c.after
  pub user : IsUser users node c.uid
  pub group : IsGroup users node c.gid
  pub username :
      ((users.getpwuid c.uid ≡ none) × (c.username ≡ codes "UNKNOWN"))
      ⊎ (users.getpwuid c.uid ≡ some c.username)
  pub want_tty : IsValue false node.pty c.want_tty
  pub want_default_env : IsValue true node.default_env c.want_default_env
  pub env : List EnvNode
  pub has_env : IsValue [] node.env env
  pub names : List Text
  pub split : IsSplit env names c.env_extra_vars
  pub allowed_env_vars : c.allowed_env_vars ≡ taken_over ++ names

or_default-IsValue {ℓ} :
    {A : Type ℓ} (d : A) (field : Field A) (a : A) → or_default d field ≡ ok a → IsValue d field a
or_default-IsValue d absent a e = inl (refl, sym (ok-injective e))
or_default-IsValue d malformed a e = absurd (cc e)
or_default-IsValue d (present b) a e = inr (ap present (ok-injective e))

env-IsSplit : (env : List EnvNode) → IsSplit env (whitelist env) (extra_vars env)
unfolding whitelist extra_vars
env-IsSplit [] = IsSplit.nothing
env-IsSplit (scalar n ∷ env) = IsSplit.whitelisted n (env-IsSplit env)
env-IsSplit (pair n value ∷ env) = IsSplit.variable n value (env-IsSplit env)

process_type_iff : (t : Text) → (process_type t ≡ simple) ↔ (lower t ≡ codes "simple")
unfolding process_type
process_type_iff t = ground (arith, text_beq_iff (lower t) (codes "simple"))

user_name_cases :
    (o : Option Text) → ((o ≡ none) × (user_name o ≡ codes "UNKNOWN")) ⊎ (o ≡ some (user_name o))
unfolding user_name
user_name_cases none = inl (refl, refl)
user_name_cases (some n) = inr refl

named_lem :
    (node : ProgramNode) (name path : Text)
    → is_program node ≡ true
    → or_default [] node.name ≡ ok name
    → or_default [] node.path ≡ ok path
    → (node.name ≡ present name) × (node.path ≡ present path)
named_lem node name path is n p = ground arith

pub process_args-IsFrom :
    (users : Users) (node : ProgramNode) (id : ℕ) (made : ProcessArgs)
    → is_program node ≡ true
    → process_args users node id ≡ ok made
    → IsFrom users node (new users.getpwuid made)
unfolding process_args new
process_args-IsFrom users node id made is e =
    let (type, is_type, e1) = >>=-eq-ok (or_default (codes "simple") node.type) _ e in
    let (args, has_args, e2) = >>=-eq-ok (yaml_node_to_str_list node.args) _ e1 in
    let (capabilities, has_capabilities, e3) =
      >>=-eq-ok (yaml_node_to_str_list node.capabilities) _ e2 in
    let (before, has_before, e4) = >>=-eq-ok (yaml_node_to_str_list node.before) _ e3 in
    let (after, has_after, e5) = >>=-eq-ok (yaml_node_to_str_list node.after) _ e4 in
    let (ids, has_ids, e6) = >>=-eq-ok (credentials users node) _ e5 in
    let (want_tty, has_tty, e7) = >>=-eq-ok (or_default false node.pty) _ e6 in
    let (want_env, has_env, e8) = >>=-eq-ok (or_default true node.default_env) _ e7 in
    let (env, is_env, e9) = >>=-eq-ok (or_default [] node.env) _ e8 in
    let (name, has_name, e10) = >>=-eq-ok (or_default [] node.name) _ e9 in
    let (path, has_path, e11) = >>=-eq-ok (or_default [] node.path) _ e10 in
    let same = ok-injective e11 in
    let (is_name, is_path) = named_lem node name path is has_name has_path in
    let (user, group) = credentials-Owner users node ids has_ids in
    subst (λ args. IsFrom users node (new users.getpwuid args)) same
      (record {
        name = is_name;
        path = is_path;
        type = type;
        is_type = or_default-IsValue (codes "simple") node.type type is_type;
        is_simple = process_type_iff type;
        args = (yaml_node_to_str_list_iff node.args args).0 has_args;
        capabilities =
            (yaml_node_to_str_list_iff node.capabilities capabilities).0 has_capabilities;
        before = (yaml_node_to_str_list_iff node.before before).0 has_before;
        after = (yaml_node_to_str_list_iff node.after after).0 has_after;
        user = user;
        group = group;
        username = user_name_cases (users.getpwuid ids.0);
        want_tty = or_default-IsValue false node.pty want_tty has_tty;
        want_default_env = or_default-IsValue true node.default_env want_env has_env;
        env = env;
        has_env = or_default-IsValue [] node.env env is_env;
        names = whitelist env;
        split = env-IsSplit env;
        allowed_env_vars = refl;
      })
