-- ===== src/Scip/Loading.antt =====
-- How src/ulsp/controller/scip/scip.go loads and reloads the files of an index. R is the content of a
-- registry; `load_index_file` is what LoadIndexFile makes of it, with whether it succeeded; `read_file` is
-- none for a file that cannot be read. Files that are loaded at once are loaded in the order of the list.
pub mod Directories
use scip_lsp.Common.{
  ℕ, String, Option, none, some, Option-cases, Sum-cases, Bool-cases, Bool, true, false, not, List,
  [], ◌∷◌, ◌++◌, map, Dict, get, put, get-put_self, put-put_self, Key, string_key, same_refl, ◌==◌,
  if◌then◌else◌, ◌⊎◌, inl, inr, ◌≡◌, refl, sym, ap, ◌∙◌, arith, ◌&&◌,
}
use Prim.Native.String.{◌++◌ as join_texts}

pub record ScipConfig : Type 0 where
  pub load_from_directories : Bool
  pub directories : List String

pub record Loaded (R : Type 0) : Type 0 where
  pub registries : Dict String R
  pub loaded_indices : Dict String String

-- `_noHash`
abbrev pub no_hash : String
no_hash = "nohash"

-- the hash of a file, with `_noHash` where there is an error
abbrev pub get_sha : (String → Option String) → String → String
get_sha read_file path = elim (read_file (join_texts path ".sha256")) [
  | none ↦ no_hash
  | some sha ↦ sha
]

-- A missing key reads as the empty text.
abbrev pub sha_or_empty : Option String → String
sha_or_empty none = ""
sha_or_empty (some sha) = sha

-- the first workspace that the path begins with
abbrev pub workspace_of :
    {R : Type 0} → (String → String → Bool) → String → Dict String R → Option (String × R)
workspace_of has_prefix path [] = none
workspace_of has_prefix path ((workspace, r) ∷ rest) =
    let later = workspace_of has_prefix path rest in
    if has_prefix path workspace then some (workspace, r) else later

module _ {R : Type 0} (read_file : String → Option String)
    (load_index_file : String → R → Bool × R) where
  -- the hash, whether there was no error, and the registry
  unfoldable pub load_scip_file : String → String → R → String × (Bool × R)
  load_scip_file path loaded_sha r =
      let sha = get_sha read_file path in
      if sha == loaded_sha then (sha, (true, r)) else (sha, load_index_file path r)

  -- the body of the loop of `reloadIndex`, at the workspace of the file
  unfoldable pub reload_in : String → R → String → Loaded R → Bool × Loaded R
  reload_in workspace r path s =
      let (sha, (success, after)) =
        load_scip_file path (sha_or_empty (get path s.loaded_indices)) r in
      let registries = put workspace after s.registries in
      if success
      then (
        true,
        record { registries = registries; loaded_indices = put path sha s.loaded_indices },
      )
      else (false, record { registries = registries; loaded_indices = s.loaded_indices })

  unfoldable pub reload_index :
      (String → String → Bool) → (String → Bool) → String → Loaded R → Bool × Loaded R
  reload_index has_prefix is_scip path s =
      if is_scip path
      then elim (workspace_of has_prefix path s.registries) [
        | none ↦ (true, s)
        | some found ↦ reload_in found.0 found.1 path s
      ]
      else (true, s)

module _ {R : Type 0} (has_prefix : String → String → Bool) where
  workspace_of-prefix :
      (path workspace : String) (r : R) (m : Dict String R)
      → workspace_of has_prefix path m ≡ some (workspace, r)
      → has_prefix path workspace ≡ true
  workspace_of-prefix path workspace r [] e = ground (arith, e)
  workspace_of-prefix path workspace r ((w, q) ∷ m) e = elim (Bool-cases (has_prefix path w)) [
    | inl h ↦ ground (arith, e, h)
    | inr h ↦ workspace_of-prefix path workspace r m (ground (arith, e, h))
  ]

  workspace_of-put :
      (path workspace : String) (r after : R) (m : Dict String R)
      → workspace_of has_prefix path m ≡ some (workspace, r)
      → workspace_of has_prefix path (put workspace after m) ≡ some (workspace, after)
  unfolding put
  workspace_of-put path workspace r after [] e = ground (arith, e)
  workspace_of-put path workspace r after ((w, q) ∷ m) e = elim (Bool-cases (w == workspace)) [
    | inl same ↦ rw same (ground (arith, workspace_of-prefix path workspace r ((w, q) ∷ m) e))
    | inr other ↦
        rw other
          (ground (arith, e, other, same_refl workspace, workspace_of-put path workspace r after m))
  ]

  module _ (read_file : String → Option String) where
    -- the hash that a load without an error leaves behind
    reload_in-done :
        (load : String → R → Bool × R) (path workspace : String) (r : R) (s done : Loaded R)
        → reload_in read_file load workspace r path s ≡ (true, done)
        → (after : R) × ((done.registries ≡ put workspace after s.registries)
            × (done.loaded_indices ≡ put path (get_sha read_file path) s.loaded_indices))
    unfolding reload_in load_scip_file
    reload_in-done load path workspace r s done e =
        elim (Bool-cases (get_sha read_file path == sha_or_empty (get path s.loaded_indices))) [
          | inl same ↦ (r, ground (arith, e, same))
          | inr other ↦ elim (Bool-cases (load path r).0) [
            | inl success ↦ ((load path r).1, ground (arith, e, other, success))
            | inr failure ↦ ground (arith, e, other, failure)
          ]
        ]

    reload_in-loaded :
        (again : String → R → Bool × R) (path workspace : String) (r : R) (s : Loaded R)
        → get path s.loaded_indices ≡ some (get_sha read_file path)
        → put workspace r s.registries ≡ s.registries
        → put path (get_sha read_file path) s.loaded_indices ≡ s.loaded_indices
        → reload_in read_file again workspace r path s ≡ (true, s)
    unfolding reload_in load_scip_file
    reload_in-loaded again path workspace r s g w l =
        ground (arith, g, w, l, same_refl (get_sha read_file path))

    reload_in-again :
        (load again : String → R → Bool × R) (path workspace : String) (r : R) (s done : Loaded R)
        → workspace_of has_prefix path s.registries ≡ some (workspace, r)
        → reload_in read_file load workspace r path s ≡ (true, done)
        → (after : R) × ((workspace_of has_prefix path done.registries ≡ some (workspace, after))
            × (reload_in read_file again workspace after path done ≡ (true, done)))
    reload_in-again load again path workspace r s done w e =
        let (after, (regs, loads)) = reload_in-done load path workspace r s done e in
        let sha : String = get_sha read_file path in
        let there : workspace_of has_prefix path done.registries ≡ some (workspace, after) =
          ap (workspace_of has_prefix path) regs
          ∙ workspace_of-put path workspace r after s.registries w in
        (
          after,
          (
            there,
            reload_in-loaded again path workspace after done
                (ap (get path) loads ∙ get-put_self path sha s.loaded_indices)
                (ap (put workspace after) regs
                  ∙ put-put_self workspace after s.registries
                  ∙ sym regs)
                (ap (put path sha) loads ∙ put-put_self path sha s.loaded_indices ∙ sym loads),
          ),
        )

    -- Once a file was loaded without an error, a change event for it changes nothing as long as its hash
    -- reads the same, whatever a load of the file would make of the registry by then. A hash that
    -- cannot be read, then as before, counts as the same.
    pub reload_index-again :
        (is_scip : String → Bool) (load again : String → R → Bool × R) (path : String)
        (s done : Loaded R)
        → reload_index read_file load has_prefix is_scip path s ≡ (true, done)
        → reload_index read_file again has_prefix is_scip path done ≡ (true, done)
    unfolding reload_index
    reload_index-again is_scip load again path s done e = elim (Bool-cases (is_scip path)) [
      | inr other ↦ ground (arith, other, e)
      | inl scip ↦ elim (Option-cases (workspace_of has_prefix path s.registries)) [
        | inl n ↦ ground (arith, scip, n, e)
        | inr (found, n) ↦
            let (after, (there, again_done)) =
              reload_in-again load again path found.0 found.1 s done n
                (ground (arith, scip, n, e)) in
            ground (arith, scip, there, again_done)
      ]
    ]
