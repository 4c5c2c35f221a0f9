-- ===== src/Config/Identifiers.antt =====
-- The id that the constructor gives to the arguments of a program.
use scinit.Base.{ℕ, ◌≡◌, true, false, [], nat_key, int_key, codes, >>=-eq-ok, ok, ◌>>=◌}
use scinit.Child.Types.{ProcessArgs}
use scinit.Config.{
  or_default, yaml_node_to_str_list, credentials, ProgramNode, Result, Users, process_args,
}

abbrev HasId : ℕ → Result ProcessArgs → Type 0
HasId id r = (args : ProcessArgs) → r ≡ ok args → args.graph_id ≡ id

HasId-bind {ℓ} :
    {A : Type ℓ} (id : ℕ) (m : Result A) (f : A → Result ProcessArgs)
    → ((a : A) → HasId id (f a))
    → HasId id (m >>= f)
HasId-bind id m f h args e = let (a, _, q) = >>=-eq-ok m f e in h a args q

pub process_args-graph_id :
    (users : Users) (node : ProgramNode) (id : ℕ) → HasId id (process_args users node id)
unfolding process_args
process_args-graph_id users node id =
    HasId-bind id (or_default (codes "simple") node.type) _ λ type.
      HasId-bind id (yaml_node_to_str_list node.args) _ λ args.
        HasId-bind id (yaml_node_to_str_list node.capabilities) _ λ capabilities.
          HasId-bind id (yaml_node_to_str_list node.before) _ λ before.
            HasId-bind id (yaml_node_to_str_list node.after) _ λ after.
              HasId-bind id (credentials users node) _ λ ids.
                HasId-bind id (or_default false node.pty) _ λ want_tty.
                  HasId-bind id (or_default true node.default_env) _ λ want_default_env.
                    HasId-bind id (or_default [] node.env) _ λ env.
                      HasId-bind id (or_default [] node.name) _
                        λ name. HasId-bind id (or_default [] node.path) _ λ path. λ made e. cc
