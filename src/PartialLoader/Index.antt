-- ===== src/PartialLoader/Index.antt =====
-- src/scip-lib/partialloader/index.go: what is kept of the index files that were loaded. The file is the bytes
-- that the scanner reads; the visitors of the scan work on local maps, which are merged when the scan ends, with an
-- error or without. `text` makes a string of bytes, `clean` is filepath.Clean, and `preamble` is the scheme of a
-- symbol with the ID of its package. Nodes are known by their paths. The maximum of revisions goes by float64 in
-- the code, which is exact below 2^53. Locks are left out: one load is one step.
pub mod Load
mod Examples
pub mod Answers
pub mod Documents
pub mod Symbols
pub mod Implementors
pub mod Queries
use scip_lsp.Common.{
  ℕ, suc, String, Option, none, some, Bool, true, false, not, List, [], ◌∷◌, ◌++◌, map, Dict, get,
  put, string_key, ◌==◌, if◌then◌else◌, ◌⊎◌, inl, inr,
}
use scip_lsp.Common.Int.{ℤ, pos, ltb_ℤ}
use scip_lsp.Registry.{SymbolInformation, Document, ScipSymbol, Package, Bindings}
use scip_lsp.Registry.Queries.{parse_scip_symbol}
use scip_lsp.Scanner.Wire.{Protowire}
use scip_lsp.Scanner.{
  Visit, match_document, visit_document, visit_symbol, visit_occurrence, Impl, ScanOf, End,
  scan_index_reader, new_reader,
}
use scip_lsp.PartialLoader.PrefixTree.{
  Descriptor, SymbolPrefixTreeNode, ParsedSymbol, new_symbol_prefix_tree, add_symbol,
}
use scip_lsp.PartialLoader.PrefixTree.Merge.{merge}
use scip_lsp.PartialLoader.Convert.{
  ScipDocument, ScipSymbolInformation, ScipOccurrence, ModelDocument, Relationship,
  scip_document_to_model_document,
}

pub record DocNodes : Type 0 where
  pub nodes : List (List Descriptor)
  pub revision : ℤ

pub record PartialLoadedIndex : Type 0 where
  pub prefix_tree_root : SymbolPrefixTreeNode SymbolInformation
  pub loaded_documents : Dict String ModelDocument
  pub doc_tree_nodes : Dict String DocNodes
  pub revision : ℤ
  pub updated_docs : Dict String ℤ
  pub doc_to_index : Dict String String
  pub implementors_by_symbol : Dict String (Dict String (Unit {0}))

abbrev pub new_partial_loaded_index : PartialLoadedIndex
new_partial_loaded_index = record {
  prefix_tree_root = new_symbol_prefix_tree;
  loaded_documents = [];
  doc_tree_nodes = [];
  revision = pos 0;
  updated_docs = [];
  doc_to_index = [];
  implementors_by_symbol = [];
}

-- the local maps of a load, and of the index what the visitors write at once; the calls of the callback
pub record LocalIndex : Type 0 where
  pub prefix_tree : SymbolPrefixTreeNode SymbolInformation
  pub doc_tree_nodes : Dict String DocNodes
  pub updated_docs : Dict String ℤ
  pub doc_to_index : Dict String String
  pub implementors_by_symbol : Dict String (Dict String (Unit {0}))
  pub revision : ℤ
  pub loaded_documents : Dict String ModelDocument
  pub on_document_loaded : List ModelDocument

abbrev pub new_local_index : PartialLoadedIndex → LocalIndex
new_local_index p = record {
  prefix_tree = new_symbol_prefix_tree;
  doc_tree_nodes = [];
  updated_docs = [];
  doc_to_index = [];
  implementors_by_symbol = [];
  revision = p.revision;
  loaded_documents = p.loaded_documents;
  on_document_loaded = [];
}

abbrev pub is_some {ℓ} : {A : Type ℓ} → Option A → Bool
is_some none = false
is_some (some a) = true

abbrev pub next_revision : ℤ → ℤ
next_revision (pos n) = pos (suc n)
next_revision (ℤ.negsuc ℕ.zero) = pos 0
next_revision (ℤ.negsuc (suc n)) = ℤ.negsuc n

-- a set of symbols, which is made if there is none
abbrev pub implementors_or_new : Option (Dict String (Unit {0})) → Dict String (Unit {0})
implementors_or_new none = []
implementors_or_new (some set) = set

unfoldable pub add_implementor :
    String → String → Dict String (Dict String (Unit {0})) → Dict String (Dict String (Unit {0}))
add_implementor abs symbol m = put abs (put symbol tt (implementors_or_new (get abs m))) m

-- the loop over the relationships of a symbol
unfoldable pub add_relationships :
    List (Option Relationship)
    → String
    → Dict String (Dict String (Unit {0}))
    → Dict String (Dict String (Unit {0}))
add_relationships [] symbol m = m
add_relationships (none ∷ rs) symbol m = add_relationships rs symbol m
add_relationships (some r ∷ rs) symbol m =
    add_relationships rs symbol
      (if r.is_implementation then add_implementor r.symbol symbol m else m)

-- `match_document_path` has written the entry of the document before.
abbrev pub with_node : List Descriptor → Option DocNodes → DocNodes
with_node path none = record { nodes = path ∷ []; revision = pos 0 }
with_node path (some n) = record n { nodes = n.nodes ++ path ∷ [] }

abbrev pub descriptors_of : Option ParsedSymbol → List Descriptor
descriptors_of none = []
descriptors_of (some s) = s.descriptors

-- the new revision of a document that the scan has not met, and the counter after it
abbrev pub doc_nodes_or_new : ℤ → Option DocNodes → DocNodes × ℤ
doc_nodes_or_new r none = (record { nodes = []; revision = next_revision r }, next_revision r)
doc_nodes_or_new r (some n) = (n, r)

module _ (b : Bindings) (preamble : String → String) where
  -- A package that is nil panics in the code; scip.ParseSymbol sets it for a symbol that is not local.
  abbrev pub with_package : String → ScipSymbol → Option ParsedSymbol
  with_package symbol s = elim s.pkg [
    | none ↦ none
    | some p ↦
        some record { preamble = preamble symbol; version = p.version; descriptors = s.descriptors }
  ]

  unfoldable pub parsed_symbol : String → Option ParsedSymbol
  parsed_symbol symbol = elim (parse_scip_symbol b symbol) [
    | inl e ↦ none
    | inr s ↦ with_package symbol s
  ]

  module _ (clean : String → String) (has_prefix : String → String → Bool)
      (text : List ℕ → String) where
    -- the three visitors of `LoadIndex`
    unfoldable pub match_document_path : String → String → LocalIndex → LocalIndex
    match_document_path index_path path l =
        let doc = clean path in
        let found = doc_nodes_or_new l.revision (get doc l.doc_tree_nodes) in
        record l {
          doc_to_index = put doc index_path l.doc_to_index;
          doc_tree_nodes = put doc found.0 l.doc_tree_nodes;
          revision = found.1;
          updated_docs = put doc found.0.revision l.updated_docs;
        }

    unfoldable pub visit_symbol_information :
        String → ScipSymbolInformation → LocalIndex → LocalIndex
    visit_symbol_information path s l =
        let doc = clean path in
        let sy = parsed_symbol s.info.symbol in
        let added = add_symbol l.prefix_tree doc sy s.info l.revision in
        let implementors =
          add_relationships s.relationships s.info.symbol l.implementors_by_symbol in
        let nodes =
          put doc (with_node (descriptors_of sy) (get doc l.doc_tree_nodes)) l.doc_tree_nodes in
        record l {
          prefix_tree = added.0;
          implementors_by_symbol = implementors;
          doc_tree_nodes = if added.1.1 then nodes else l.doc_tree_nodes;
        }

    unfoldable pub visit_scip_document : ScipDocument → LocalIndex → LocalIndex
    visit_scip_document d l =
        let doc = scip_document_to_model_document has_prefix d in
        record l {
          loaded_documents = put (clean d.relative_path) doc l.loaded_documents;
          on_document_loaded = l.on_document_loaded ++ doc ∷ [];
        }

    abbrev pub visit :
        String → Visit ScipSymbolInformation ScipOccurrence ScipDocument → LocalIndex → LocalIndex
    visit index_path (match_document path) l = match_document_path index_path (text path) l
    visit index_path (visit_document d) l = visit_scip_document d l
    visit index_path (visit_symbol path s) l = visit_symbol_information (text path) s l
    visit index_path (visit_occurrence path o) l = l

    unfoldable pub visit_all :
        String
        → List (Visit ScipSymbolInformation ScipOccurrence ScipDocument)
        → LocalIndex
        → LocalIndex
    visit_all index_path [] l = l
    visit_all index_path (v ∷ vs) l = visit_all index_path vs (visit index_path v l)
