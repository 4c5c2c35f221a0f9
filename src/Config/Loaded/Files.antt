-- ===== src/Config/Loaded/Files.antt =====
-- What loading a file, or several, does to the handler: the loops of src/Config.h.
use scinit.Base.{
  ℕ, ◌+◌, if◌then◌else◌, ◌≡◌, refl, ◌∙◌, subst, inl, inr, Bool, List, [], ◌∷◌, arith, lookup,
  nat_key, int_key, Bool-cases, Text, >>=-eq-ok, ok, ok-injective,
}
use scinit.Handler.Types.{init}
use scinit.Config.{
  ProgramNode, Config, Users, process_args, add_process, is_program, parse_program, parse_file,
  YamlFile, load_file, load_files, load_root, from_files, from_file, empty,
}
use scinit.Config.Identifiers.{process_args-graph_id}
use scinit.Config.Loaded.{IsLoaded}
use scinit.Config.Loaded.Added.{add_process-IsLoaded, added_rest}

-- How many entries of a file have a name and a path.
abbrev pub count_programs : List ProgramNode → ℕ
count_programs [] = 0
count_programs (node ∷ rest) = (if is_program node then 1 else 0) + count_programs rest

module _ (users : Users) where
  parse_program-IsLoaded :
      (node : ProgramNode) (conf out : Config)
      → parse_program users node conf ≡ ok out
      → IsLoaded conf
      → IsLoaded out × (out.child_counter ≡ (if is_program node then 1 else 0) + conf.child_counter)
  unfolding parse_program
  parse_program-IsLoaded node conf out e l = elim (Bool-cases (is_program node)) [
    | inr skipped ↦
        let same : conf ≡ out = ok-injective (rw skipped at e) in
        rw skipped (
          subst (λ (x : Config). IsLoaded x × (x.child_counter ≡ 0 + conf.child_counter)) same
            (l, omega arith))
    | inl taken ↦
        let (args, made, rest) =
          >>=-eq-ok (process_args users node conf.child_counter)
            (λ args. ok (add_process users args conf)) (rw taken at e) in
        let numbered = process_args-graph_id users node conf.child_counter args made in
        let loaded = add_process-IsLoaded users args conf l numbered in
        rw taken (
          subst (λ (x : Config). IsLoaded x × (x.child_counter ≡ 1 + conf.child_counter))
            (ok-injective rest) (loaded, (added_rest users args conf l numbered).2 ∙ omega arith))
  ]

  -- Loading a file keeps the handler in order, and adds one process for each entry that has a name and
  -- a path.
  pub parse_file-IsLoaded :
      (nodes : List ProgramNode) (conf out : Config)
      → parse_file users nodes conf ≡ ok out
      → IsLoaded conf
      → IsLoaded out × (out.child_counter ≡ count_programs nodes + conf.child_counter)
  unfolding parse_file
  parse_file-IsLoaded [] conf out e l =
      subst (λ (x : Config). IsLoaded x × (x.child_counter ≡ 0 + conf.child_counter))
        (ok-injective e) (l, omega arith)
  parse_file-IsLoaded (node ∷ rest) conf out e l =
      let (mid, first, later) =
        >>=-eq-ok (parse_program users node conf) (λ c. parse_file users rest c) e in
      let (loaded, count) = parse_program-IsLoaded node conf mid first l in
      let (all_loaded, total) = parse_file-IsLoaded rest mid out later loaded in
      (all_loaded, omega arith)

  load_root-IsLoaded :
      (root : YamlFile) (conf out : Config)
      → load_root users root conf ≡ ok out
      → IsLoaded conf
      → IsLoaded out
  unfolding load_root
  load_root-IsLoaded YamlFile.unreadable conf out e l = absurd (cc e)
  load_root-IsLoaded YamlFile.no_programs conf out e l = absurd (cc e)
  load_root-IsLoaded (YamlFile.programs nodes) conf out e l =
      (parse_file-IsLoaded nodes conf out e l).0

  module _ (yaml : Text → YamlFile) where
    load_files-IsLoaded :
        (files : List Text) (conf out : Config)
        → load_files users yaml files conf ≡ ok out
        → IsLoaded conf
        → IsLoaded out
    unfolding load_files load_file
    load_files-IsLoaded [] conf out e l = subst IsLoaded (ok-injective e) l
    load_files-IsLoaded (file ∷ files) conf out e l =
        let (mid, first, later) =
          >>=-eq-ok (load_file users yaml file conf) (λ c. load_files users yaml files c) e in
        load_files-IsLoaded files mid out later (load_root-IsLoaded (yaml file) conf mid first l)

    pub empty-IsLoaded : IsLoaded (empty users yaml init)
    unfolding lookup
    empty-IsLoaded = record {
      addresses = refl;
      count = refl;
      held = λ r h. elim h [ ];
      objects = λ r c e. absurd (cc e);
      known = λ r h. elim h [ ];
      named = λ id r e. absurd (cc e);
      fresh = λ id h. refl;
      no_pids = refl;
      no_fds = (refl, refl, refl);
      none_running = refl;
    }

    -- A configuration that is loaded for a new handler leaves it in order: the objects have the ids 0, 1,
    -- 2 and so on, each is blocked, waits for nobody yet, is known under its id and told of its events; and with that the
    -- bookkeeping of the handler is right at the start.
    pub from_files-IsLoaded :
        (files : List Text) (conf : Config)
        → from_files users yaml files init ≡ ok conf
        → IsLoaded conf
    unfolding from_files
    from_files-IsLoaded files conf e =
        load_files-IsLoaded files (empty users yaml init) conf e empty-IsLoaded

    pub from_file-IsLoaded :
        (is_dir : Text → Bool) (path : Text) (conf : Config)
        → from_file users yaml is_dir path init ≡ ok conf
        → IsLoaded conf
    unfolding from_file load_file
    from_file-IsLoaded is_dir path conf e = elim (Bool-cases (is_dir path)) [
      | inl dir ↦ absurd (cc (rw dir at e))
      | inr file ↦
          load_root-IsLoaded (yaml path) (empty users yaml init) conf (rw file at e) empty-IsLoaded
    ]
