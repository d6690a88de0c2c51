-- ===== src/Scip/Loading/Directories.antt =====
-- Which files and folders src/ulsp/controller/scip/scip.go takes an index from. `join` is path.Join;
-- `read_dir` is none for a folder that cannot be read.
use scip_lsp.Common.{
  String, Option, none, some, Bool, true, List, [], ◌∷◌, ◌++◌, Dict, get, string_key, number_key,
  ◌==◌, if◌then◌else◌, length, ◌≡◌, refl, arith,
}
use scip_lsp.Scip.Loading.{ScipConfig, Loaded, reload_in}

-- A missing key reads as a configuration without directories.
abbrev pub directories_of : Option ScipConfig → List String
directories_of none = []
directories_of (some c) = c.directories

-- the folder of the first directory; none is the panic of an index out of range
abbrev pub first_folder : (String → String → String) → String → List String → Option String
first_folder join root [] = none
first_folder join root (d ∷ ds) = some (join root d)

abbrev pub folder_of :
    (String → String → String) → String → List String → List String → Option String
folder_of join root default own =
    let shared = first_folder join root default in
    if length own == 0
    then some (join root ".scip")
    else elim shared [ none ↦ none | some folder ↦ first_folder join root own ]

unfoldable pub index_folder :
    (String → String → String) → Dict String ScipConfig → String → String → Option String
index_folder join configs root monorepo =
    folder_of join root (directories_of (get "_default" configs))
      (directories_of (get monorepo configs))

abbrev pub expected_folder :
    (String → String → String) → String → List String → List String → Option String
expected_folder join root default [] = some (join root ".scip")
expected_folder join root [] (d ∷ ds) = none
expected_folder join root (e ∷ es) (d ∷ ds) = some (join root d)

folder_of_lem :
    (join : String → String → String) (root : String) (default own : List String)
    → folder_of join root default own ≡ expected_folder join root default own
folder_of_lem join root default [] = refl
folder_of_lem join root [] (d ∷ ds) = ground arith
folder_of_lem join root (e ∷ es) (d ∷ ds) = ground arith

-- The folder of a new registry is the repository's first directory, or ".scip" if it has none; and
-- the code panics exactly if the repository has a directory and the default configuration has none.
pub index_folder_lem :
    (join : String → String → String) (configs : Dict String ScipConfig) (root monorepo : String)
    → index_folder join configs root monorepo
      ≡ expected_folder join root
          (directories_of (get "_default" configs))
          (directories_of (get monorepo configs))
unfolding index_folder
index_folder_lem join configs root monorepo = folder_of_lem join root _ _

module _ {R : Type 0} (read_file : String → Option String)
    (load_index_file : String → R → Bool × R) where
  -- The files of a directory, and those that failed. The registry of the workspace was made before.
  abbrev pub load_files : String → List String → Loaded R → List String × Loaded R
  load_files workspace [] s = ([], s)
  load_files workspace (path ∷ paths) s =
      let (success, after) = elim (get workspace s.registries) as (λ o. Bool × Loaded R) [
        | none ↦ (true, s)
        | some r ↦ reload_in read_file load_index_file workspace r path s
      ] in
      let (failed, last) = load_files workspace paths after in
      (if success then failed else path ∷ failed, last)

  abbrev pub scip_files :
      (String → Bool) → (String → String → String) → String → List String → List String
  scip_files is_scip join folder [] = []
  scip_files is_scip join folder (name ∷ names) =
      let rest = scip_files is_scip join folder names in
      if is_scip name then join folder name ∷ rest else rest

  abbrev pub load_directories :
      (String → Bool)
      → (String → String → String)
      → (String → Option (List String))
      → String
      → List String
      → Loaded R
      → List String × Loaded R
  load_directories is_scip join read_dir workspace [] s = ([], s)
  load_directories is_scip join read_dir workspace (d ∷ ds) s =
      let folder = join workspace d in
      let (failed, after) = elim (read_dir folder) as (λ o. List String × Loaded R) [
        | none ↦ ([], s)
        | some names ↦ load_files workspace (scip_files is_scip join folder names) s
      ] in
      let (more, last) = load_directories is_scip join read_dir workspace ds after in
      (failed ++ more, last)

-- the configuration of a repository, or the default one
abbrev pub config_for : Dict String ScipConfig → String → Option ScipConfig
config_for configs monorepo = elim (get monorepo configs) [
  | none ↦ get "_default" configs
  | some c ↦ some c
]
