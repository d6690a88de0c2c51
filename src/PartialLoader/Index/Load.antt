-- ===== src/PartialLoader/Index/Load.antt =====
-- LoadIndex of src/scip-lib/partialloader/index.go: a scan with the visitors, and the merge of what they made.
use scip_lsp.Common.{
  ℕ, String, Option, none, some, Bool, true, false, not, List, [], ◌∷◌, ◌++◌, Dict, get, put,
  string_key, if◌then◌else◌,
}
use scip_lsp.Common.Int.{ℤ, pos, ltb_ℤ}
use scip_lsp.Registry.{SymbolInformation, Bindings}
use scip_lsp.Scanner.Wire.{Protowire}
use scip_lsp.Scanner.{Impl, ScanOf, End, scan_index_reader, new_reader}
use scip_lsp.PartialLoader.PrefixTree.{SymbolPrefixTreeNode}
use scip_lsp.PartialLoader.PrefixTree.Merge.{merge}
use scip_lsp.PartialLoader.Convert.{
  ScipDocument, ScipSymbolInformation, ScipOccurrence, ModelDocument,
}
use scip_lsp.PartialLoader.Index.{
  DocNodes, PartialLoadedIndex, LocalIndex, new_local_index, is_some, implementors_or_new,
  visit_all,
}

abbrev pub max_ℤ : ℤ → ℤ → ℤ
max_ℤ a b = if ltb_ℤ a b then b else a

unfoldable pub merge_prefix_tree :
    SymbolPrefixTreeNode SymbolInformation
    → SymbolPrefixTreeNode SymbolInformation
    → SymbolPrefixTreeNode SymbolInformation
merge_prefix_tree root other = merge root other

abbrev pub merged_nodes : Option DocNodes → DocNodes → DocNodes
merged_nodes none new = new
merged_nodes (some old) new = record {
  nodes = old.nodes ++ new.nodes;
  revision = max_ℤ old.revision new.revision;
}

unfoldable pub merge_doc_tree_nodes :
    Dict String DocNodes → Dict String DocNodes → Dict String DocNodes
merge_doc_tree_nodes m [] = m
merge_doc_tree_nodes m ((doc, nodes) ∷ rest) =
    merge_doc_tree_nodes (put doc (merged_nodes (get doc m) nodes) m) rest

abbrev pub revision_or_zero : Option ℤ → ℤ
revision_or_zero none = pos 0
revision_or_zero (some r) = r

unfoldable pub merge_updated_docs : Dict String ℤ → Dict String ℤ → Dict String ℤ
merge_updated_docs m [] = m
merge_updated_docs m ((doc, revision) ∷ rest) =
    merge_updated_docs (put doc (max_ℤ (revision_or_zero (get doc m)) revision) m) rest

unfoldable pub merge_doc_to_index : Dict String String → Dict String String → Dict String String
merge_doc_to_index m [] = m
merge_doc_to_index m ((doc, index) ∷ rest) = merge_doc_to_index (put doc index m) rest

-- the inner loop of `mergeImplementors`
unfoldable pub union : Dict String (Unit {0}) → Dict String (Unit {0}) → Dict String (Unit {0})
union set [] = set
union set ((s, u) ∷ rest) = union (put s tt set) rest

unfoldable pub merge_implementors :
    Dict String (Dict String (Unit {0}))
    → Dict String (Dict String (Unit {0}))
    → Dict String (Dict String (Unit {0}))
merge_implementors m [] = m
merge_implementors m ((abs, impls) ∷ rest) =
    merge_implementors (put abs (union (implementors_or_new (get abs m)) impls) m) rest

-- the function that runs when `LoadIndex` returns
unfoldable pub merge_local : PartialLoadedIndex → LocalIndex → PartialLoadedIndex
merge_local p l = record {
  prefix_tree_root = merge_prefix_tree p.prefix_tree_root l.prefix_tree;
  loaded_documents = l.loaded_documents;
  doc_tree_nodes = merge_doc_tree_nodes p.doc_tree_nodes l.doc_tree_nodes;
  revision = l.revision;
  updated_docs = merge_updated_docs p.updated_docs l.updated_docs;
  doc_to_index = merge_doc_to_index p.doc_to_index l.doc_to_index;
  implementors_by_symbol = merge_implementors p.implementors_by_symbol l.implementors_by_symbol;
}

-- proto.Unmarshal at the three types
pub record Unmarshal : Type 0 where
  pub symbol : List ℕ → Option ScipSymbolInformation
  pub occurrence : List ℕ → Option ScipOccurrence
  pub document : List ℕ → Option ScipDocument

module _ (b : Bindings) (preamble : String → String) (clean : String → String)
    (has_prefix : String → String → Bool) (text : List ℕ → String) (unmarshal : Unmarshal) where
  -- A document is visited if it was loaded before: the visits of a load add no document to those.
  abbrev pub load_impl : PartialLoadedIndex → Impl ScipSymbolInformation ScipOccurrence ScipDocument
  load_impl p = record {
    match_document_path = some (λ path. is_some (get (clean (text path)) p.loaded_documents));
    match_symbol = some (λ symbol. not (b.is_local_symbol (text symbol)));
    match_occurrence = none;
    visits_documents = true;
    visits_symbols = true;
    visits_occurrences = false;
    unmarshal_symbol = unmarshal.symbol;
    unmarshal_occurrence = unmarshal.occurrence;
    unmarshal_document = unmarshal.document;
  }

  abbrev pub visited :
      PartialLoadedIndex
      → String
      → ScanOf ScipSymbolInformation ScipOccurrence ScipDocument
      → LocalIndex
  visited p path scan =
      visit_all b preamble clean has_prefix text path scan.visits (new_local_index p)

  -- The index, the calls of the callback, and how the scan ended. A panic unwinds through the deferred merge.
  unfoldable pub load_index :
      Protowire
      → ℕ
      → ℕ
      → String
      → List ℕ
      → PartialLoadedIndex
      → PartialLoadedIndex × (List ModelDocument × End)
  load_index wire capacity fuel path bytes p =
      let scan = scan_index_reader wire capacity (load_impl p) fuel (new_reader bytes) in
      let l = visited p path scan in (merge_local p l, (l.on_document_loaded, scan.end))

  -- `read_file` is none for a file that does not open.
  abbrev pub load_opened :
      Protowire
      → ℕ
      → ℕ
      → String
      → Option (List ℕ)
      → PartialLoadedIndex
      → Option (PartialLoadedIndex × (List ModelDocument × End))
  load_opened wire capacity fuel path none p = none
  load_opened wire capacity fuel path (some bytes) p =
      some (load_index wire capacity fuel path bytes p)

  unfoldable pub load_index_file :
      (String → Option (List ℕ))
      → Protowire
      → ℕ
      → ℕ
      → String
      → PartialLoadedIndex
      → Option (PartialLoadedIndex × (List ModelDocument × End))
  load_index_file read_file wire capacity fuel path p =
      load_opened wire capacity fuel path (read_file path) p
