-- ===== src/PartialLoader/Index/Queries.antt =====
-- The queries of src/scip-lib/partialloader/index.go that read the maps of the index.
use Prim.Native.String.{compare}
use Prim.Native.Nat.{Ordering}
use scip_lsp.Common.{
  String, Option, none, some, List, [], ◌∷◌, Dict, get, string_key, ◌==◌, if◌then◌else◌, ◌⊎◌, inl,
  inr,
}
use scip_lsp.Registry.{SymbolInformation, RegistryError, index_error, nil_package, Bindings}
use scip_lsp.Registry.Queries.{parse_scip_symbol}
use scip_lsp.PartialLoader.PrefixTree.{
  Descriptor, SymbolVersion, SymbolPrefixTreeNode, versions_of, walk,
}
use scip_lsp.PartialLoader.Index.{PartialLoadedIndex, implementors_or_new}

-- `sort.Strings` and its first element: the least of the versions, by their bytes
abbrev pub least : String → String → String
least v w = elim (compare w v) [ Ordering.lt ↦ w | _ ↦ v ]

abbrev pub first_sorted : String → Dict String (SymbolVersion SymbolInformation) → String
first_sorted v [] = v
first_sorted v ((w, x) ∷ rest) = first_sorted (least v w) rest

abbrev pub found_version :
    Option (SymbolVersion SymbolInformation) → Option SymbolInformation × String
found_version none = (none, "")
found_version (some v) = (some v.info, v.document_path)

-- the version that is asked for, or else the first one
abbrev pub version_or_first :
    String → Dict String (SymbolVersion SymbolInformation) → Option SymbolInformation × String
version_or_first version [] = (none, "")
version_or_first version ((v, x) ∷ rest) = elim (get version ((v, x) ∷ rest)) [
  | some found ↦ found_version (some found)
  | none ↦ found_version (get (first_sorted v rest) ((v, x) ∷ rest))
]

abbrev pub version_in :
    String → Option (SymbolPrefixTreeNode SymbolInformation) → Option SymbolInformation × String
version_in version none = (none, "")
version_in version (some node) =
    if version == "" then (none, "") else version_or_first version (versions_of node)

unfoldable pub get_symbol_information_from_descriptors :
    List Descriptor
    → String
    → PartialLoadedIndex
    → RegistryError ⊎ (Option SymbolInformation × String)
get_symbol_information_from_descriptors [] version p = inl index_error
get_symbol_information_from_descriptors (d ∷ ds) version p =
    inr (version_in version (walk (some p.prefix_tree_root) (d ∷ ds)))

module _ (b : Bindings) where
  -- a nil package panics
  unfoldable pub get_symbol_information :
      String → PartialLoadedIndex → RegistryError ⊎ (Option SymbolInformation × String)
  get_symbol_information symbol p =
      if b.is_local_symbol symbol then inr (none, "") else elim (parse_scip_symbol b symbol) [
        | inl e ↦ inl e
        | inr s ↦ elim s.pkg [
          | none ↦ inl nil_package
          | some pkg ↦ get_symbol_information_from_descriptors s.descriptors pkg.version p
        ]
      ]

abbrev pub symbols_in : Dict String (Unit {0}) → List String
symbols_in [] = []
symbols_in ((s, u) ∷ rest) = s ∷ symbols_in rest

unfoldable pub implementations : String → PartialLoadedIndex → List String
implementations symbol p = symbols_in (implementors_or_new (get symbol p.implementors_by_symbol))
