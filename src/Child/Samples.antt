-- ===== src/Child/Samples.antt =====
-- The theorems on child processes at concrete inputs.
use mathlib.Core.List.{Memᴰ}
use scinit.Base.{
  ℕ, ◌≡◌, refl, ◌≢◌, ◌↔◌, ◌⊎◌, true, false, none, some, List, [], ◌∷◌, codes, lookup, All, nat_key,
  int_key, text_key,
}
use scinit.Child.Types.{
  ProcessState, blocked, ready, running, ProcessArgs, ChildProcess, Heap, WeakPtr, new,
}
use scinit.Child.Lifecycle.{propagate_dependencies, notify_of_state}
use scinit.Child.Lifecycle.States.{IsFulfilled, notify_of_state-ready_iff}
use scinit.Child.Lifecycle.Links.{Grown, WaitsFor}
use scinit.Child.Lifecycle.Links.Spread.{
  settled, propagate_dependencies_links, propagate_dependencies_frame,
}

abbrev pub database_args : ProcessArgs
database_args = record {
  name = codes "db";
  path = codes "/bin/db";
  args = codes "-v" ∷ [];
  type = codes "Simple";
  capabilities = codes "CAP_CHOWN" ∷ [];
  uid = 7;
  gid = 8;
  graph_id = 0;
  before = codes "web" ∷ [];
  after = [];
  want_tty = false;
  want_default_env = true;
  env_extra_whitelist = codes "X" ∷ [];
  env_extra_vars = [];
}

abbrev pub web_args : ProcessArgs
web_args = record {
  name = codes "web";
  path = codes "/bin/web";
  args = [];
  type = codes "simple";
  capabilities = [];
  uid = 7;
  gid = 8;
  graph_id = 1;
  before = [];
  after = [];
  want_tty = true;
  want_default_env = false;
  env_extra_whitelist = [];
  env_extra_vars = [];
}

abbrev pub database : ChildProcess
unfolding new
database = new (λ uid. some (codes "u")) database_args

abbrev pub web : ChildProcess
unfolding new
web = new (λ uid. none) web_args

abbrev pub two : Heap
two = (0, database) ∷ (1, web) ∷ []

abbrev pub refs : List WeakPtr
refs = some 0 ∷ some 1 ∷ []

abbrev running_two : Heap
running_two = (0, record database { state = running }) ∷ (1, web) ∷ []

abbrev waiting : ChildProcess
waiting = record web { conditions = (0, running) ∷ [] }

propagate_dependencies_links_example :
    (Memᴰ web.name database.before → WaitsFor 1 0 (propagate_dependencies 0 refs two))
    × (Memᴰ web.name database.after → WaitsFor 0 1 (propagate_dependencies 0 refs two))
unfolding lookup new
propagate_dependencies_links_example =
    propagate_dependencies_links 0 refs two database refl 1 web (Memᴰ.tail (Memᴰ.head refl)) refl

propagate_dependencies_frame_example :
    ((cs : _) × (lookup 0 (propagate_dependencies 0 refs two) ≡ some (settled database cs))
      × ((k : ℕ) (st : ProcessState)
          → lookup k database.conditions ≡ some st
          → lookup k cs ≡ some st))
    × ((r : ℕ) (d : ChildProcess)
        → r ≢ 0
        → lookup r two ≡ some d
        → (e : ChildProcess) × (lookup r (propagate_dependencies 0 refs two) ≡ some e) × Grown d e)
    × ((r : ℕ) → lookup r two ≡ none → lookup r (propagate_dependencies 0 refs two) ≡ none)
unfolding lookup new
propagate_dependencies_frame_example = propagate_dependencies_frame 0 refs two database refl

notify_of_state-ready_iff_example :
    ((notify_of_state ((0, some 0) ∷ []) running_two waiting).state ≡ ready) ↔ (
      (waiting.state ≡ ready)
      ⊎ ((waiting.state ≡ blocked)
          × All (IsFulfilled ((0, some 0) ∷ []) running_two) waiting.conditions))
notify_of_state-ready_iff_example = notify_of_state-ready_iff ((0, some 0) ∷ []) running_two waiting
