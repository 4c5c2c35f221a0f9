-- ===== src/Config.antt =====
-- src/Config.h: the configuration files, as yaml-cpp hands them over, become child processes that
-- are registered with the handler.
pub mod Credentials
pub mod Identifiers
pub mod Loaded
pub mod Lists
pub mod Owner
pub mod Described
use scinit.Base.{
  ℕ, ℤ, pos, negsuc, suc, ◌≡◌, refl, to_unsigned, to_signed, if◌then◌else◌, Bool, true, false, not,
  ◌||◌, Option, none, some, List, [], ◌∷◌, ◌++◌, map, Text, codes, >>=-eq-ok, Outcome, err, ok,
  ◌>>=◌,
}
use scinit.Child.Types.{ProcessArgs, WeakPtr}
use scinit.Handler.Types.{ProcessHandler}
use scinit.Handler.Registry.{construct, register_obj_id}

-- What a node has under a key: nothing, a value that `as<T>()` cannot convert, or one that it can.
pub data Field {ℓ} (A : Type ℓ) : Type ℓ where
  absent malformed : Field A
  present : A → Field A

pub data EnvNode : Type 0 where
  scalar : Text → EnvNode
  pair : (key value : Text) → EnvNode

-- The elements of a node, if it is there; `none` is one that `as<std::string>()` does not convert.
abbrev pub ListNode : Type 0
ListNode = Option (List (Option Text))

pub record ProgramNode : Type 0 where
  pub name : Field Text
  pub path : Field Text
  pub type : Field Text
  pub args : ListNode
  pub capabilities : ListNode
  pub before : ListNode
  pub after : ListNode
  pub uid : Field ℤ
  pub gid : Field ℤ
  pub user : Field Text
  pub group : Field Text
  pub pty : Field Bool
  pub default_env : Field Bool
  pub env : Field (List EnvNode)

-- `unknown_user` and `unknown_group` are `exit(-1)`; the others are exceptions.
pub data ConfigError : Type 0 where
  bad_conversion unknown_user unknown_group bad_file missing_programs is_directory : ConfigError

abbrev pub Result {ℓ} : Type ℓ → Type ℓ
Result A = Outcome ConfigError A

-- The user and group databases of the C library.
pub record Users : Type 0 where
  pub getpwuid : ℕ → Option Text
  pub getpwnam : Text → Option ℕ
  pub getgrnam : Text → Option ℕ

abbrev pub or_default {ℓ} : {A : Type ℓ} → A → Field A → Result A
or_default d absent = ok d
or_default d malformed = err bad_conversion
or_default d (present a) = ok a

abbrev pub is_present {ℓ} : {A : Type ℓ} → Field A → Bool
is_present absent = false
is_present _ = true

-- The loop of `yaml_node_to_str_list`, which appends to `list`.
pub push_strings : List (Option Text) → (list : List Text) → Result (List Text)
push_strings [] list = ok list
push_strings (none ∷ node) list = err bad_conversion
push_strings (some str ∷ node) list = push_strings node (list ++ str ∷ [])

pub yaml_node_to_str_list : ListNode → Result (List Text)
unfolding push_strings
yaml_node_to_str_list none = ok []
yaml_node_to_str_list (some node) = push_strings node []

-- `uid` and `did_set_numeric`. The value of the key `gid` goes to the variable `uid`.
unfoldable pub numeric_ids : Field ℤ → Field ℤ → Result (ℤ × Bool)
numeric_ids uid_node gid_node = do
  uid ← or_default (negsuc 0) uid_node
  uid' ← or_default uid gid_node
  ok (uid', is_present uid_node || is_present gid_node)

abbrev pub or_exit {ℓ} : {A : Type ℓ} → ConfigError → Option A → Result A
or_exit e none = err e
or_exit e (some a) = ok a

-- The name is looked up if it is given, or if no number was.
pub named_id :
    (lookup : Text → Option ℕ) → ConfigError → (fallback : Text) → Field Text → Bool → ℤ → Result ℤ
named_id lookup e fallback node did_set_numeric id =
    if is_present node || not did_set_numeric
    then (do name ← or_default fallback node; found ← or_exit e (lookup name); ok (to_signed found))
    else ok id

-- `uid` and `gid` as they are passed on.
pub credentials : Users → ProgramNode → Result (ℕ × ℕ)
unfolding numeric_ids named_id
credentials users node = do
  numeric ← numeric_ids node.uid node.gid
  uid ← named_id users.getpwnam unknown_user (codes "nobody") node.user numeric.1 numeric.0
  gid ← named_id users.getgrnam unknown_group (codes "nogroup") node.group numeric.1 (negsuc 0)
  ok (to_unsigned uid, to_unsigned gid)

-- `env_extra_whitelist` and `env_extra_vars`.
pub whitelist : List EnvNode → List Text
whitelist [] = []
whitelist (scalar name ∷ rest) = name ∷ whitelist rest
whitelist (pair key value ∷ rest) = whitelist rest

pub extra_vars : List EnvNode → List (Text × Text)
extra_vars [] = []
extra_vars (scalar name ∷ rest) = extra_vars rest
extra_vars (pair key value ∷ rest) = (key, value) ∷ extra_vars rest

-- The constructor's arguments for an entry that has a name and a path.
pub process_args : Users → ProgramNode → (graph_id : ℕ) → Result ProcessArgs
unfolding credentials whitelist extra_vars yaml_node_to_str_list
process_args users node graph_id = do
  type ← or_default (codes "simple") node.type
  args ← yaml_node_to_str_list node.args
  capabilities ← yaml_node_to_str_list node.capabilities
  before ← yaml_node_to_str_list node.before
  after ← yaml_node_to_str_list node.after
  ids ← credentials users node
  want_tty ← or_default false node.pty
  want_default_env ← or_default true node.default_env
  env ← or_default [] node.env
  name ← or_default [] node.name
  path ← or_default [] node.path
  ok (record {
    name = name;
    path = path;
    args = args;
    type = type;
    capabilities = capabilities;
    uid = ids.0;
    gid = ids.1;
    graph_id = graph_id;
    before = before;
    after = after;
    want_tty = want_tty;
    want_default_env = want_default_env;
    env_extra_whitelist = whitelist env;
    env_extra_vars = extra_vars env;
  })

-- The object under construction, with the handler that it registers processes with. `processes`
-- are the addresses of the child processes, which it owns.
pub record Config : Type 0 where
  pub handler : ProcessHandler
  pub processes : List ℕ
  pub child_counter : ℕ

pub add_process : Users → ProcessArgs → Config → Config
add_process users args conf =
    let (r, made) = construct users.getpwuid args conf.handler in
    record {
      handler = register_obj_id args.graph_id (some r) made;
      processes = conf.processes ++ r ∷ [];
      child_counter = suc conf.child_counter;
    }

abbrev pub is_program : ProgramNode → Bool
is_program node = elim node.name [
  | absent ↦ false
  | _ ↦ elim node.path [ absent ↦ false | _ ↦ true ]
]

unfoldable pub parse_program : Users → ProgramNode → Config → Result Config
unfolding process_args add_process
parse_program users node conf =
    if is_program node
    then (do args ← process_args users node conf.child_counter; ok (add_process users args conf))
    else ok conf

unfoldable pub parse_file : Users → List ProgramNode → Config → Result Config
unfolding parse_program
parse_file users [] conf = ok conf
parse_file users (node ∷ rest) conf = do
  conf' ← parse_program users node conf
  parse_file users rest conf'

-- What `YAML::LoadFile` gives.
pub data YamlFile : Type 0 where
  unreadable no_programs : YamlFile
  programs : List ProgramNode → YamlFile

load_root : Users → YamlFile → Config → Result Config
load_root users unreadable conf = err bad_file
load_root users no_programs conf = err missing_programs
load_root users (programs nodes) conf = parse_file users nodes conf

module _ (users : Users) (yaml : Text → YamlFile) where
  unfoldable pub load_file : Text → Config → Result Config
  unfolding load_root parse_file
  load_file file conf = load_root users (yaml file) conf

  -- The two constructors.
  abbrev pub empty : ProcessHandler → Config
  empty handler = record { handler = handler; processes = []; child_counter = 0 }

  load_files : List Text → Config → Result Config
  load_files [] conf = ok conf
  load_files (file ∷ files) conf = do conf' ← load_file file conf; load_files files conf'

  unfoldable pub from_file : (is_dir : Text → Bool) → Text → ProcessHandler → Result Config
  unfolding load_file
  from_file is_dir path handler =
      if is_dir path then err is_directory else load_file path (empty handler)

  unfoldable pub from_files : List Text → ProcessHandler → Result Config
  unfolding load_file load_files
  from_files files handler = load_files files (empty handler)

unfoldable pub get_processes : Config → List WeakPtr
get_processes conf = map some conf.processes
