-- ===== src/Config/Loaded/Programs.antt =====
-- Which objects the loops of src/Config.h make: one for each entry that has a name and a path, in order.
use mathlib.Core.List.{append_assoc, append-nil}
use scinit.Base.{
  ℕ, suc, ◌+◌, ◌≤◌, ◌<◌, ◌≢◌, if◌then◌else◌, Bool, true, false, ◌&&◌, ◌≡◌, refl, sym, ap, ◌∙◌,
  subst, inl, inr, some, List, [], ◌∷◌, ◌++◌, arith, lookup, insert, nat_key, length, length-append,
  Bool-cases, Text, >>=-eq-ok, ok, ok-injective, lookup-insert_self, lookup-insert_ne,
}
use scinit.Child.Types.{ProcessArgs, ChildProcess, Heap, new}
use scinit.Handler.Types.{init}
use scinit.Config.{
  Field, absent, malformed, present, ProgramNode, Config, Users, process_args, add_process,
  is_program, parse_program, parse_file, YamlFile, load_file, load_files, load_root, from_files,
  empty,
}
use scinit.Config.Identifiers.{process_args-graph_id}
use scinit.Config.Described.{IsFrom, process_args-IsFrom}
use scinit.Config.Loaded.{IsLoaded}
use scinit.Config.Loaded.Added.{add_process-IsLoaded, added_rest, added_heap}
use scinit.Config.Loaded.Files.{empty-IsLoaded}

abbrev pub is_given {ℓ} : {A : Type ℓ} → Field A → Bool
is_given absent = false
is_given malformed = true
is_given (present a) = true

-- An entry becomes a process if it has a name and a path.
abbrev pub has_both : ProgramNode → Bool
has_both node = is_given node.name && is_given node.path

-- The entries that become processes.
abbrev pub programs_in : List ProgramNode → List ProgramNode
programs_in [] = []
programs_in (node ∷ rest) =
    let others = programs_in rest in if has_both node then node ∷ others else others

abbrev pub entries_of : YamlFile → List ProgramNode
entries_of YamlFile.unreadable = []
entries_of YamlFile.no_programs = []
entries_of (YamlFile.programs nodes) = nodes

-- The entries of the files, one file after the other.
abbrev pub nodes_of : (Text → YamlFile) → List Text → List ProgramNode
nodes_of yaml [] = []
nodes_of yaml (file ∷ files) = entries_of (yaml file) ++ nodes_of yaml files

has_both_lem : (node : ProgramNode) → has_both node ≡ is_program node
has_both_lem node = ground arith

programs_in-append :
    (xs ys : List ProgramNode) → programs_in (xs ++ ys) ≡ programs_in xs ++ programs_in ys
programs_in-append [] ys = refl
programs_in-append (x ∷ xs) ys = elim (Bool-cases (has_both x)) [
  | inl taken ↦ rw taken (ap (λ zs. x ∷ zs) (programs_in-append xs ys))
  | inr skipped ↦ rw skipped (programs_in-append xs ys)
]

module _ (users : Users) where
  -- The objects from the address `i` on are those that the entries describe.
  abbrev pub Described : ℕ → List ProgramNode → Heap → Type 0
  Described i [] h = Unit
  Described i (node ∷ rest) h =
      ((c : ChildProcess) × (lookup i h ≡ some c) × (c.graph_id ≡ i) × IsFrom users node c)
      × Described (suc i) rest h

  Described-insert :
      (i k : ℕ) (c : ChildProcess) (nodes : List ProgramNode) (h : Heap)
      → i + length nodes ≤ k
      → Described i nodes h
      → Described i nodes (insert k c h)
  Described-insert i k c [] h low d = tt
  Described-insert i k c (node ∷ rest) h low ((b, there, id, from), others) =
      let ne : i ≢ k = λ e. omega arith in
      (
        (b, lookup-insert_ne k i c h ne ∙ there, id, from),
        Described-insert (suc i) k c rest h (omega arith) others,
      )

  Described-last :
      (i k : ℕ) (node : ProgramNode) (nodes : List ProgramNode) (h : Heap)
      → i + length nodes ≡ k
      → Described i nodes h
      → ((c : ChildProcess) × (lookup k h ≡ some c) × (c.graph_id ≡ k) × IsFrom users node c)
      → Described i (nodes ++ node ∷ []) h
  Described-last i k node [] h at d new =
      let same : k ≡ i = omega arith in
      (
        subst
            (λ (j : ℕ).
              (c : ChildProcess) × (lookup j h ≡ some c) × (c.graph_id ≡ j) × IsFrom users node c)
            same new,
        tt,
      )
  Described-last i k node (x ∷ rest) h at (d, others) new =
      (d, Described-last (suc i) k node rest h (omega arith) others new)

  -- The entries so far have been taken, and they have become all the processes.
  abbrev Taken : List ProgramNode → Config → Type 0
  Taken nodes conf =
      IsLoaded conf × Described 0 nodes conf.handler.heap × (conf.child_counter ≡ length nodes)

  add_process-Taken :
      (args : ProcessArgs) (node : ProgramNode) (nodes : List ProgramNode) (conf : Config)
      → args.graph_id ≡ conf.child_counter
      → IsFrom users node (new users.getpwuid args)
      → Taken nodes conf
      → Taken (nodes ++ node ∷ []) (add_process users args conf)
  unfolding new
  add_process-Taken args node nodes conf numbered from (l, d, n) =
      let k = conf.child_counter in
      let child = new users.getpwuid args in
      let grown = Described-insert 0 k child nodes conf.handler.heap (omega arith) d in
      let (_, _, counter, _, _) = added_rest users args conf l numbered in
      (
        add_process-IsLoaded users args conf l numbered,
        subst (Described 0 (nodes ++ node ∷ [])) (sym (added_heap users args conf l numbered)) (
            Described-last 0 k node nodes (insert k child conf.handler.heap) (omega arith) grown
              (child, lookup-insert_self k child conf.handler.heap, numbered, from)),
        counter ∙ omega (arith, length-append nodes (node ∷ []), n),
      )

  parse_program-Taken :
      (node : ProgramNode) (nodes : List ProgramNode) (conf out : Config)
      → parse_program users node conf ≡ ok out
      → Taken nodes conf
      → Taken (nodes ++ programs_in (node ∷ [])) out
  unfolding parse_program
  parse_program-Taken node nodes conf out e (l, d, n) = elim (Bool-cases (is_program node)) [
    | inr skipped ↦
        rw (has_both_lem node, skipped, append-nil)
          (subst (Taken nodes) (ok-injective (rw skipped at e)) (l, d, n))
    | inl taken ↦
        let (args, made, rest) =
          >>=-eq-ok (process_args users node conf.child_counter)
            (λ args. ok (add_process users args conf)) (rw taken at e) in
        let numbered = process_args-graph_id users node conf.child_counter args made in
        rw (has_both_lem node, taken)
          (subst (Taken (nodes ++ node ∷ [])) (ok-injective rest) (
            add_process-Taken args node nodes conf numbered
              (process_args-IsFrom users node conf.child_counter args taken made) (l, d, n)))
  ]

  parse_file-Taken :
      (entries nodes : List ProgramNode) (conf out : Config)
      → parse_file users entries conf ≡ ok out
      → Taken nodes conf
      → Taken (nodes ++ programs_in entries) out
  unfolding parse_file
  parse_file-Taken [] nodes conf out e t = rw append-nil (subst (Taken nodes) (ok-injective e) t)
  parse_file-Taken (node ∷ rest) nodes conf out e t =
      let (mid, first, later) =
        >>=-eq-ok (parse_program users node conf) (λ c. parse_file users rest c) e in
      subst (λ all. Taken all out)
        (append_assoc nodes (programs_in (node ∷ [])) (programs_in rest)
          ∙ ap (λ all. nodes ++ all) (sym (programs_in-append (node ∷ []) rest)))
        (parse_file-Taken rest (nodes ++ programs_in (node ∷ [])) mid out later
          (parse_program-Taken node nodes conf mid first t))

  load_root-Taken :
      (root : YamlFile) (nodes : List ProgramNode) (conf out : Config)
      → load_root users root conf ≡ ok out
      → Taken nodes conf
      → Taken (nodes ++ programs_in (entries_of root)) out
  unfolding load_root
  load_root-Taken YamlFile.unreadable nodes conf out e t = absurd (cc e)
  load_root-Taken YamlFile.no_programs nodes conf out e t = absurd (cc e)
  load_root-Taken (YamlFile.programs entries) nodes conf out e t =
      parse_file-Taken entries nodes conf out e t

  module _ (yaml : Text → YamlFile) where
    load_files-Taken :
        (files : List Text) (nodes : List ProgramNode) (conf out : Config)
        → load_files users yaml files conf ≡ ok out
        → Taken nodes conf
        → Taken (nodes ++ programs_in (nodes_of yaml files)) out
    unfolding load_files load_file
    load_files-Taken [] nodes conf out e t = rw append-nil (subst (Taken nodes) (ok-injective e) t)
    load_files-Taken (file ∷ files) nodes conf out e t =
        let (mid, first, later) =
          >>=-eq-ok (load_file users yaml file conf) (λ c. load_files users yaml files c) e in
        subst (λ all. Taken all out)
          (append_assoc nodes (programs_in (entries_of (yaml file)))
              (programs_in (nodes_of yaml files))
            ∙ ap (λ all. nodes ++ all)
                (sym (programs_in-append (entries_of (yaml file)) (nodes_of yaml files))))
          (load_files-Taken files (nodes ++ programs_in (entries_of (yaml file))) mid out later
            (load_root-Taken (yaml file) nodes conf mid first t))

    -- A configuration that is loaded from files has one process for each entry that has a name and a
    -- path, in the order of the files and of the entries in them, and no others: the object at the address
    -- `i`, with the id `i`, has the name, the path, the type, the lists and the settings that the entry
    -- number `i` gives, or their defaults, and the whitelist and the variables of its `env`. Its user and
    -- group are those that the entry names, or nobody and nogroup without any of the four keys; with a
    -- number and no name the user is the number in `gid`, or the one in `uid` without `gid`, and the group
    -- is 4294967295.
    pub from_files-Described :
        (files : List Text) (conf : Config)
        → from_files users yaml files init ≡ ok conf
        → Described 0 (programs_in (nodes_of yaml files)) conf.handler.heap
          × ((r : ℕ) (c : ChildProcess)
              → lookup r conf.handler.heap ≡ some c
              → r < length (programs_in (nodes_of yaml files)))
    unfolding from_files
    from_files-Described files conf e =
        let (l, d, n) =
          load_files-Taken files [] (empty users yaml init) conf e
            (empty-IsLoaded users yaml, tt, refl) in
        (d, λ r c found. let (_, low, _, _) = l.objects r c found in omega arith)
