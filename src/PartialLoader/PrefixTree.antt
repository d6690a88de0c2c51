-- ===== src/PartialLoader/PrefixTree.antt =====
-- src/scip-lib/partialloader/prefixtree.go: the symbols of the loaded indexes by their descriptors.
-- The pointer to the parent is left out. A symbol that was parsed is an argument, nothing if it did
-- not parse: the parser is the SCIP bindings'. `AddSymbol` changes the nodes on the path in place;
-- here it gives the new tree, with the node that it returns.
pub mod Lookup
pub mod Prune
pub mod Merge
pub mod Trees
mod Examples
use scip_lsp.Common.{
  ℕ, String, Option, none, some, List, [], ◌∷◌, Bool, true, false, ◌&&◌, ◌||◌, ◌≡◌, ◌↔◌, arith,
  ◌==◌, Key, number_key, string_key, if◌then◌else◌, Dict, get, put,
}
use scip_lsp.Common.Int.{ℤ, ltb_ℤ}

-- model.Descriptor
pub record Descriptor : Type 0 where
  pub name : String
  pub suffix : ℕ
  pub disambiguator : String

abbrev pub same_descriptor : Descriptor → Descriptor → Bool
same_descriptor a b =
    a.name == b.name && (a.suffix == b.suffix && a.disambiguator == b.disambiguator)

pub same_descriptor_iff : (a b : Descriptor) → (same_descriptor a b ≡ true) ↔ (a ≡ b)
same_descriptor_iff a b = ground (
  arith,
  string_key.same_iff a.name b.name,
  number_key.same_iff a.suffix b.suffix,
  string_key.same_iff a.disambiguator b.disambiguator,
)

instance abbrev pub descriptor_key : Key Descriptor
descriptor_key = record { same = same_descriptor; same_iff = same_descriptor_iff }

-- a value of `SymbolVersions`
pub record SymbolVersion (Info : Type 0) : Type 0 where
  pub info : Info
  pub document_path : String

mutual
  pub data SymbolPrefixTreeNode (Info : Type 0) : Type 0 where
    tree_node :
        String → Dict String (SymbolVersion Info) → Children Info → ℤ → SymbolPrefixTreeNode Info

  pub data Children (Info : Type 0) : Type 0 where
    no_child : Children Info
    child : Descriptor → SymbolPrefixTreeNode Info → Children Info → Children Info

-- a symbol that was parsed: `sy.Scheme+" "+sy.Package.ID()`, the version of its package, and its
-- descriptors
pub record ParsedSymbol : Type 0 where
  pub preamble : String
  pub version : String
  pub descriptors : List Descriptor

-- the preamble is given to the last descriptor only
abbrev pub preamble_at : String → List Descriptor → String
preamble_at preamble [] = preamble
preamble_at preamble (d ∷ ds) = ""

module _ {Info : Type 0} where
  abbrev pub new_symbol_prefix_tree : SymbolPrefixTreeNode Info
  new_symbol_prefix_tree = tree_node "" [] no_child (ℤ.pos 0)

  abbrev pub versions_of : SymbolPrefixTreeNode Info → Dict String (SymbolVersion Info)
  versions_of (tree_node preamble versions children revision) = versions

  abbrev pub children_of : SymbolPrefixTreeNode Info → Children Info
  children_of (tree_node preamble versions children revision) = children

  abbrev pub revision_of : SymbolPrefixTreeNode Info → ℤ
  revision_of (tree_node preamble versions children revision) = revision

  unfoldable pub find_child : Descriptor → Children Info → Option (SymbolPrefixTreeNode Info)
  find_child d no_child = none
  find_child d (child e n cs) = let rest = find_child d cs in if e == d then some n else rest

  unfoldable pub put_child : Descriptor → SymbolPrefixTreeNode Info → Children Info → Children Info
  put_child d n no_child = child d n no_child
  put_child d n (child e m cs) =
      let rest = put_child d n cs in if e == d then child d n cs else child e m rest

  abbrev pub with_child :
      SymbolPrefixTreeNode Info → Descriptor → SymbolPrefixTreeNode Info → SymbolPrefixTreeNode Info
  with_child (tree_node preamble versions children revision) d n =
      tree_node preamble versions (put_child d n children) revision

  -- the child of `addChild` before its version is written, and whether it is new
  abbrev pub add_child :
      String → ℤ → Option (SymbolPrefixTreeNode Info) → SymbolPrefixTreeNode Info × Bool
  add_child preamble revision none = (tree_node preamble [] no_child revision, true)
  add_child preamble revision (some (tree_node old versions children _)) =
      (tree_node old versions children revision, false)

  -- `t.Children[descriptor].SymbolVersions[version] = …`
  abbrev pub write_version :
      String → SymbolVersion Info → SymbolPrefixTreeNode Info → SymbolPrefixTreeNode Info
  write_version version v (tree_node preamble versions children revision) =
      tree_node preamble (put version v versions) children revision

  -- the loop of `AddSymbol`, below a node that is new or not: the node as it is after it, the node
  -- at the end of the path, and whether that one is new
  unfoldable pub descend :
      String
      → ℤ
      → String
      → SymbolVersion Info
      → List Descriptor
      → SymbolPrefixTreeNode Info × Bool
      → SymbolPrefixTreeNode Info × (SymbolPrefixTreeNode Info × Bool)
  descend preamble revision version v [] n =
      (write_version version v n.0, (write_version version v n.0, n.1))
  descend preamble revision version v (d ∷ ds) n =
      let below =
        descend preamble revision version v ds
          (add_child (preamble_at preamble ds) revision (find_child d (children_of n.0))) in
      (with_child n.0 d below.0, below.1)

  -- without a descriptor the tree itself is returned, and nothing is written
  unfoldable pub add_symbol :
      SymbolPrefixTreeNode Info
      → String
      → Option ParsedSymbol
      → Info
      → ℤ
      → SymbolPrefixTreeNode Info × (Option (SymbolPrefixTreeNode Info) × Bool)
  add_symbol t doc none info revision = (t, (none, false))
  add_symbol t doc (some sy) info revision =
      let v : SymbolVersion Info = record { info = info; document_path = doc } in
      let added = descend sy.preamble revision sy.version v sy.descriptors (t, false) in
      elim sy.descriptors [
        | [] ↦ (t, (some t, false))
        | _ ∷ _ ↦ (added.0, (some added.1.0, added.1.1))
      ]

  -- the loop of `GetNode`
  unfoldable pub walk :
      Option (SymbolPrefixTreeNode Info) → List Descriptor → Option (SymbolPrefixTreeNode Info)
  walk none ds = none
  walk (some n) [] = some n
  walk (some n) (d ∷ ds) = walk (find_child d (children_of n)) ds

  unfoldable pub get_node :
      SymbolPrefixTreeNode Info → Option ParsedSymbol → Option (SymbolPrefixTreeNode Info)
  unfolding walk
  get_node t none = none
  get_node t (some sy) = walk (some t) sy.descriptors

  -- some version of a symbol stands in the document
  abbrev pub has_document : String → Dict String (SymbolVersion Info) → Bool
  has_document doc [] = false
  has_document doc ((version, v) ∷ vs) = v.document_path == doc || has_document doc vs

  unfoldable mutual
    pub prune_nodes : String → ℤ → SymbolPrefixTreeNode Info → SymbolPrefixTreeNode Info
    prune_nodes doc revision (tree_node preamble versions children r) =
        tree_node preamble versions (prune_children doc revision children) r

    pub prune_children : String → ℤ → Children Info → Children Info
    prune_children doc revision no_child = no_child
    prune_children doc revision (child d n cs) =
        let rest = prune_children doc revision cs in
        let kept = child d (prune_nodes doc revision n) rest in
        if ltb_ℤ (revision_of n) revision && has_document doc (versions_of n) then rest else kept
