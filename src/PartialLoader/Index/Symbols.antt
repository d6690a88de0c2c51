-- ===== src/PartialLoader/Index/Symbols.antt =====
-- GetSymbolInformation of src/scip-lib/partialloader/index.go after a load.
use scip_lsp.Common.{
  ℕ, String, Option, none, some, Bool, false, List, [], ◌∷◌, Dict, get, string_key, ◌==◌, ◌&&◌,
  if◌then◌else◌, ◌≡◌, refl, ap, ◌∙◌, arith, Bool-cases, Option-cases, inl, inr,
}
use scip_lsp.Common.Int.{ℤ}
use scip_lsp.Registry.{SymbolInformation, Bindings, ScipSymbol, Package}
use scip_lsp.Registry.Queries.{parse_scip_symbol, completed}
use scip_lsp.Scanner.Wire.{Protowire}
use scip_lsp.Scanner.{
  Visit, match_document, visit_document, visit_symbol, visit_occurrence, scan_index_reader,
  new_reader,
}
use scip_lsp.PartialLoader.PrefixTree.{
  Descriptor, SymbolPrefixTreeNode, SymbolVersion, versions_of, ParsedSymbol, add_symbol, walk,
  get_node, find_child,
}
use scip_lsp.PartialLoader.PrefixTree.Lookup.{version_at, same_path, get_node-add_symbol}
use scip_lsp.PartialLoader.PrefixTree.Merge.{IsTree, override, at_path, merge_lem}
use scip_lsp.PartialLoader.PrefixTree.Trees.{new-IsTree, add_symbol-IsTree}
use scip_lsp.PartialLoader.Convert.{ScipDocument, ScipSymbolInformation, ScipOccurrence}
use scip_lsp.PartialLoader.Index.{
  PartialLoadedIndex, LocalIndex, new_local_index, parsed_symbol, match_document_path,
  visit_symbol_information, visit_scip_document, visit_all,
}
use scip_lsp.PartialLoader.Index.Load.{
  merge_prefix_tree, merge_local, Unmarshal, load_impl, load_index,
}
use scip_lsp.PartialLoader.Index.Queries.{
  version_or_first, version_in, get_symbol_information_from_descriptors, get_symbol_information,
}

-- whether a symbol has a path and a version
abbrev named : List Descriptor → String → Option ParsedSymbol → Bool
named q w none = false
named q w (some sy) = same_path sy.descriptors q && sy.version == w

at_path-add_parsed :
    (t : SymbolPrefixTreeNode SymbolInformation) (doc preamble version : String)
    (p : List Descriptor) (info : SymbolInformation) (r : ℤ) (d : Descriptor) (ds : List Descriptor)
    (w : String)
    → at_path w (d ∷ ds) (
        some
          (add_symbol t doc
            (some (record { preamble = preamble; version = version; descriptors = p }))
            info
            r).0)
      ≡ (if same_path p (d ∷ ds) && version == w
          then some (record { info = info; document_path = doc })
          else at_path w (d ∷ ds) (some t))
unfolding add_symbol
at_path-add_parsed t doc preamble version [] info r d ds w = refl
at_path-add_parsed t doc preamble version (e ∷ es) info r d ds w =
    unfold get_node in
    get_node-add_symbol t doc e es preamble version info r
      (record { preamble = preamble; version = w; descriptors = d ∷ ds })

at_path-add_symbol :
    (t : SymbolPrefixTreeNode SymbolInformation) (doc : String) (sy : Option ParsedSymbol)
    (info : SymbolInformation) (r : ℤ) (d : Descriptor) (ds : List Descriptor) (w : String)
    → at_path w (d ∷ ds) (some (add_symbol t doc sy info r).0) ≡ (
        if named (d ∷ ds) w sy
        then some (record { info = info; document_path = doc })
        else at_path w (d ∷ ds) (some t))
at_path-add_symbol t doc none info r d ds w = unfold add_symbol in refl
at_path-add_symbol t doc (some sy) info r d ds w =
    at_path-add_parsed t doc sy.preamble sy.version sy.descriptors info r d ds w

module _ (b : Bindings) (preamble : String → String) (clean : String → String)
    (text : List ℕ → String) where
  -- the last visit of a symbol with the path and the version
  abbrev pub last_visited :
      List Descriptor
      → String
      → List (Visit ScipSymbolInformation ScipOccurrence ScipDocument)
      → Option (SymbolVersion SymbolInformation)
      → Option (SymbolVersion SymbolInformation)
  last_visited q w [] o = o
  last_visited q w (visit_symbol path i ∷ vs) o = last_visited q w vs (
      if named q w (parsed_symbol b preamble i.info.symbol)
      then some (record { info = i.info; document_path = clean (text path) })
      else o)
  last_visited q w (match_document path ∷ vs) o = last_visited q w vs o
  last_visited q w (visit_document d ∷ vs) o = last_visited q w vs o
  last_visited q w (visit_occurrence path x ∷ vs) o = last_visited q w vs o

module _ (b : Bindings) (preamble : String → String) (clean : String → String)
    (has_prefix : String → String → Bool) (text : List ℕ → String) where
  at_path-visit_all :
      (index_path w : String) (d : Descriptor) (ds : List Descriptor)
      (vs : List (Visit ScipSymbolInformation ScipOccurrence ScipDocument)) (l : LocalIndex)
      → at_path w
          (d ∷ ds)
          (some (visit_all b preamble clean has_prefix text index_path vs l).prefix_tree)
        ≡ last_visited b preamble clean text (d ∷ ds) w vs (at_path w (d ∷ ds) (some l.prefix_tree))
  unfolding visit_all match_document_path visit_symbol_information visit_scip_document
  at_path-visit_all index_path w d ds [] l = refl
  at_path-visit_all index_path w d ds (match_document path ∷ vs) l =
      at_path-visit_all index_path w d ds vs _
  at_path-visit_all index_path w d ds (visit_document x ∷ vs) l =
      at_path-visit_all index_path w d ds vs _
  at_path-visit_all index_path w d ds (visit_occurrence path o ∷ vs) l =
      at_path-visit_all index_path w d ds vs l
  at_path-visit_all index_path w d ds (visit_symbol path i ∷ vs) l =
      at_path-visit_all index_path w d ds vs
        (visit_symbol_information b preamble clean has_prefix text (text path) i l)
      ∙ ap (last_visited b preamble clean text (d ∷ ds) w vs) (
          at_path-add_symbol l.prefix_tree (clean (text path))
            (parsed_symbol b preamble i.info.symbol) i.info l.revision d ds w)

  visit_all-IsTree :
      (index_path : String) (vs : List (Visit ScipSymbolInformation ScipOccurrence ScipDocument))
      (l : LocalIndex)
      → IsTree l.prefix_tree
      → IsTree (visit_all b preamble clean has_prefix text index_path vs l).prefix_tree
  unfolding visit_all match_document_path visit_symbol_information visit_scip_document
  visit_all-IsTree index_path [] l t = t
  visit_all-IsTree index_path (match_document path ∷ vs) l t = visit_all-IsTree index_path vs _ t
  visit_all-IsTree index_path (visit_document x ∷ vs) l t = visit_all-IsTree index_path vs _ t
  visit_all-IsTree index_path (visit_occurrence path o ∷ vs) l t =
      visit_all-IsTree index_path vs l t
  visit_all-IsTree index_path (visit_symbol path i ∷ vs) l t = visit_all-IsTree index_path vs _ (
      add_symbol-IsTree l.prefix_tree (clean (text path)) (parsed_symbol b preamble i.info.symbol)
        i.info l.revision t)

  at_path-merge_local :
      (path w : String) (d : Descriptor) (ds : List Descriptor)
      (vs : List (Visit ScipSymbolInformation ScipOccurrence ScipDocument)) (p : PartialLoadedIndex)
      → at_path w (d ∷ ds) (
          some
            (merge_local p (
              visit_all b preamble clean has_prefix text path vs
                (new_local_index p))).prefix_tree_root)
        ≡ override
            (last_visited b preamble clean text (d ∷ ds) w vs none)
            (at_path w (d ∷ ds) (some p.prefix_tree_root))
  unfolding merge_local merge_prefix_tree
  at_path-merge_local path w d ds vs p =
      merge_lem p.prefix_tree_root
        (visit_all b preamble clean has_prefix text path vs (new_local_index p)).prefix_tree w d ds
        (visit_all-IsTree path vs (new_local_index p) (new-IsTree SymbolInformation))
      ∙ ap
          (λ (o : Option (SymbolVersion SymbolInformation)).
            override o (at_path w (d ∷ ds) (some p.prefix_tree_root)))
          (at_path-visit_all path w d ds vs (new_local_index p)
            ∙ ap (last_visited b preamble clean text (d ∷ ds) w vs)
                (unfold walk find_child in refl))

or_dot-ne : (v : String) → ((if v == "" then "." else v) == "") ≡ false
or_dot-ne v = elim (Bool-cases (v == "")) [ inl empty ↦ rw empty refl | inr set ↦ rw set set ]

version-completed :
    (b : Bindings) (o : Option ScipSymbol) (s : ScipSymbol) (pkg : Package)
    → completed b o ≡ inr s
    → s.pkg ≡ some pkg
    → (pkg.version == "") ≡ false
version-completed b none s pkg e f = cc
version-completed b (some raw) s pkg e f = elim (Option-cases raw.pkg) [
  | inl no_package ↦ ground (arith, e, f, no_package)
  | inr (q, own) ↦ ground (arith, e, f, own, or_dot-ne q.version)
]

-- the version that is there is the one that is found
version_in-exact :
    (w : String) (o : Option (SymbolPrefixTreeNode SymbolInformation))
    (v : SymbolVersion SymbolInformation)
    → (w == "") ≡ false
    → version_at w o ≡ some v
    → version_in w o ≡ (some v.info, v.document_path)
version_in-exact w none v ne e = cc
version_in-exact w (some n) v ne e = rw ne (exact (versions_of n) e)
  where
    exact :
        (vs : Dict String (SymbolVersion SymbolInformation))
        → get w vs ≡ some v
        → version_or_first w vs ≡ (some v.info, v.document_path)
    exact [] e = unfold get in cc
    exact ((x, y) ∷ vs) e = rw (e, version_or_first) refl

module _ (b : Bindings) (preamble : String → String) (clean : String → String)
    (has_prefix : String → String → Bool) (text : List ℕ → String) (unmarshal : Unmarshal)
    (wire : Protowire) (capacity fuel : ℕ) where
  pub from_descriptors-load_index :
      (symbol path : String) (bytes : List ℕ) (p : PartialLoadedIndex) (s : ScipSymbol)
      (pkg : Package) (d : Descriptor) (ds : List Descriptor) (v : SymbolVersion SymbolInformation)
      → parse_scip_symbol b symbol ≡ inr s
      → s.pkg ≡ some pkg
      → override
          (last_visited b preamble clean text
            (d ∷ ds)
            pkg.version
            (scan_index_reader wire capacity
              (load_impl b preamble clean has_prefix text unmarshal p)
              fuel
              (new_reader bytes)).visits
            none)
          (at_path pkg.version (d ∷ ds) (some p.prefix_tree_root))
        ≡ some v
      → get_symbol_information_from_descriptors
          (d ∷ ds)
          pkg.version
          (load_index b preamble clean has_prefix text unmarshal wire capacity fuel path bytes p).0
        ≡ inr (some v.info, v.document_path)
  unfolding get_symbol_information_from_descriptors load_index
  from_descriptors-load_index symbol path bytes p s pkg d ds v parses in_package found = ap inr (
      version_in-exact pkg.version
        (walk
          (some
            (load_index b preamble clean has_prefix text unmarshal wire capacity fuel path bytes
              p).0.prefix_tree_root)
          (d ∷ ds))
        v
        (version-completed b (b.parse_symbol symbol) s pkg (unfold parse_scip_symbol in parses)
          in_package)
        (at_path-merge_local b preamble clean has_prefix text path pkg.version d ds _ p ∙ found))

  -- A symbol that is not local and parses to a package and a path of descriptors is found by GetSymbolInformation
  -- after LoadIndex of any file, however the scan ends: with the last visit of the scan that has this path
  -- and version, or else, if there is none, with what the tree held before at the path under the version.
  pub get_symbol_information-load_index :
      (symbol path : String) (bytes : List ℕ) (p : PartialLoadedIndex) (s : ScipSymbol)
      (pkg : Package) (d : Descriptor) (ds : List Descriptor) (v : SymbolVersion SymbolInformation)
      → b.is_local_symbol symbol ≡ false
      → parse_scip_symbol b symbol ≡ inr s
      → s.pkg ≡ some pkg
      → s.descriptors ≡ d ∷ ds
      → override
          (last_visited b preamble clean text
            (d ∷ ds)
            pkg.version
            (scan_index_reader wire capacity
              (load_impl b preamble clean has_prefix text unmarshal p)
              fuel
              (new_reader bytes)).visits
            none)
          (at_path pkg.version (d ∷ ds) (some p.prefix_tree_root))
        ≡ some v
      → get_symbol_information b symbol
          (load_index b preamble clean has_prefix text unmarshal wire capacity fuel path bytes p).0
        ≡ inr (some v.info, v.document_path)
  unfolding get_symbol_information
  get_symbol_information-load_index symbol path bytes p s pkg d ds v global parses in_package
        descriptors found =
      rw global (
        rw parses (
          rw in_package (
            rw descriptors (
              from_descriptors-load_index symbol path bytes p s pkg d ds v parses in_package
                found))))
