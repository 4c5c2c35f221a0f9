-- ===== src/Samples/Loading.antt =====
-- The theorems on the configuration at concrete inputs.
use scinit.Base.{
  some, [], ◌∷◌, ◌⊎◌, ◌↔◌, map, none, pos, ◌≡◌, refl, inr, codes, to_unsigned, ok, ℕ, ◌<◌, lookup,
  nat_key,
}
use scinit.Config.{present, ProgramNode, credentials, from_files}
use scinit.Config.{ListNode, yaml_node_to_str_list}
use scinit.Config.Lists.{yaml_node_to_str_list_iff}
use scinit.Config.Loaded.{IsLoaded}
use scinit.Config.Loaded.Files.{from_files-IsLoaded}
use scinit.Config.Loaded.Programs.{Described, from_files-Described}
use scinit.Child.Types.{ChildProcess}
use scinit.Config.Credentials.{credentials_numeric_gid}
use scinit.Samples.{users, program, yaml, files, conf}

from_files-IsLoaded_example : IsLoaded conf
unfolding from_files
from_files-IsLoaded_example = from_files-IsLoaded users yaml files conf refl

abbrev plain : ProgramNode
plain = program (codes "db") none

-- The file has the entries of the database and of the web server.
from_files-Described_example :
    Described users 0
      (program (codes "db") none ∷ program (codes "web") (some (some (codes "db") ∷ [])) ∷ [])
      conf.handler.heap
    × ((r : ℕ) (c : ChildProcess) → lookup r conf.handler.heap ≡ some c → r < 2)
unfolding from_files
from_files-Described_example = from_files-Described users yaml files conf refl

credentials_numeric_gid_example :
    credentials users (record plain { uid = present (pos 3); gid = present (pos 4) })
    ≡ ok (to_unsigned (pos 4), 4294967295)
credentials_numeric_gid_example =
    credentials_numeric_gid users (record plain { uid = present (pos 3); gid = present (pos 4) })
      (pos 4) refl refl (inr (pos 3, refl)) refl

yaml_node_to_str_list_iff_example :
    let node : ListNode = some (some (codes "db") ∷ some (codes "web") ∷ []) in
    (yaml_node_to_str_list node ≡ ok (codes "db" ∷ codes "web" ∷ [])) ↔ (
      ((node ≡ none) × (codes "db" ∷ codes "web" ∷ [] ≡ []))
      ⊎ (node ≡ some (map some (codes "db" ∷ codes "web" ∷ []))))
yaml_node_to_str_list_iff_example =
    yaml_node_to_str_list_iff (some (some (codes "db") ∷ some (codes "web") ∷ []))
      (codes "db" ∷ codes "web" ∷ [])
