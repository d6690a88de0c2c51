-- ===== src/PartialLoader/Index/Documents.antt =====
-- LoadDocument and References of src/scip-lib/partialloader/index.go, which scan the files again.
use scip_lsp.Common.{
  ℕ, String, Option, none, some, Bool, true, false, List, [], ◌∷◌, ◌++◌, Dict, get, put, string_key,
  ◌==◌, if◌then◌else◌, ◌⊎◌, inl, inr,
}
use scip_lsp.Occurrences.{Occurrence}
use scip_lsp.Registry.{RegistryError, index_error, Bindings}
use scip_lsp.Scanner.Wire.{Protowire}
use scip_lsp.Scanner.{Visit, match_document, visit_document, visit_symbol, visit_occurrence, Impl}
use scip_lsp.Scanner.Folder.{FileSystem, FileScan, scan_index_file, scan_index_folder}
use scip_lsp.PartialLoader.Convert.{
  ScipDocument, ScipSymbolInformation, ScipOccurrence, ModelDocument,
  scip_document_to_model_document,
}
use scip_lsp.PartialLoader.Index.{PartialLoadedIndex}
use scip_lsp.PartialLoader.Index.Load.{Unmarshal}

abbrev pub Visits : Type 0
Visits = List (Visit ScipSymbolInformation ScipOccurrence ScipDocument)

-- what a request for a document gives: the document or nil, the index after it, and the calls of the callback
pub record Requested : Type 0 where
  pub answer : RegistryError ⊎ Option ModelDocument
  pub index : PartialLoadedIndex
  pub on_document_loaded : List ModelDocument

abbrev pub listed : Option ModelDocument → List ModelDocument
listed none = []
listed (some d) = d ∷ []

-- the slice of a document, which is made if there is none
abbrev pub occurrences_or_new : Option (List Occurrence) → List Occurrence
occurrences_or_new none = []
occurrences_or_new (some os) = os

module _ (clean : String → String) (has_prefix : String → String → Bool) (text : List ℕ → String)
    (unmarshal : Unmarshal) where
  abbrev pub document_impl : String → Impl ScipSymbolInformation ScipOccurrence ScipDocument
  document_impl doc_path = record {
    match_document_path = some (λ path. clean (text path) == doc_path);
    match_symbol = none;
    match_occurrence = none;
    visits_documents = true;
    visits_symbols = false;
    visits_occurrences = false;
    unmarshal_symbol = unmarshal.symbol;
    unmarshal_occurrence = unmarshal.occurrence;
    unmarshal_document = unmarshal.document;
  }

  -- each document that is visited is stored under the path that was asked for
  unfoldable pub store_documents :
      String → Visits → Dict String ModelDocument → Dict String ModelDocument
  store_documents doc_path [] m = m
  store_documents doc_path (visit_document d ∷ vs) m =
      store_documents doc_path vs (put doc_path (scip_document_to_model_document has_prefix d) m)
  store_documents doc_path (match_document path ∷ vs) m = store_documents doc_path vs m
  store_documents doc_path (visit_symbol path s ∷ vs) m = store_documents doc_path vs m
  store_documents doc_path (visit_occurrence path o ∷ vs) m = store_documents doc_path vs m

  -- the end of `loadDocumentFromIndex` and of `loadDocumentFromIndexFolder`, and of `LoadDocument` after them
  unfoldable pub loaded_by :
      String
      → FileScan ScipSymbolInformation ScipOccurrence ScipDocument
      → PartialLoadedIndex
      → Requested
  loaded_by doc_path scan p =
      let documents = store_documents doc_path scan.visits p.loaded_documents in
      let after = record p { loaded_documents = documents } in
      if scan.failed
      then record { answer = inl index_error; index = after; on_document_loaded = [] }
      else record {
        answer = inr (get doc_path documents);
        index = after;
        on_document_loaded = listed (get doc_path documents);
      }

  module _ (wire : Protowire) (capacity fuel : ℕ) (fs : FileSystem) (index_folder : String) where
    unfoldable pub scan_for_document :
        String → Option String → FileScan ScipSymbolInformation ScipOccurrence ScipDocument
    scan_for_document doc_path (some index) =
        scan_index_file wire capacity fuel fs (document_impl doc_path) index
    scan_for_document doc_path none =
        scan_index_folder wire capacity fuel fs (document_impl doc_path) index_folder

    unfoldable pub load_document : String → PartialLoadedIndex → Requested
    load_document doc_path p = elim (get doc_path p.loaded_documents) [
      | some d ↦ record { answer = inr (some d); index = p; on_document_loaded = [] }
      | none ↦ loaded_by doc_path (scan_for_document doc_path (get doc_path p.doc_to_index)) p
    ]

  abbrev pub reference_impl : String → Impl ScipSymbolInformation ScipOccurrence ScipDocument
  reference_impl symbol = record {
    match_document_path = none;
    match_symbol = none;
    match_occurrence = some (λ occurrence. text occurrence == symbol);
    visits_documents = false;
    visits_symbols = false;
    visits_occurrences = true;
    unmarshal_symbol = unmarshal.symbol;
    unmarshal_occurrence = unmarshal.occurrence;
    unmarshal_document = unmarshal.document;
  }

  unfoldable pub collect_occurrences :
      Visits → Dict String (List Occurrence) → Dict String (List Occurrence)
  collect_occurrences [] m = m
  collect_occurrences (visit_occurrence path o ∷ vs) m =
      collect_occurrences vs
        (put (text path) (occurrences_or_new (get (text path) m) ++ o.occurrence ∷ []) m)
  collect_occurrences (match_document path ∷ vs) m = collect_occurrences vs m
  collect_occurrences (visit_document d ∷ vs) m = collect_occurrences vs m
  collect_occurrences (visit_symbol path s ∷ vs) m = collect_occurrences vs m

  module _ (wire : Protowire) (capacity fuel : ℕ) (fs : FileSystem) (index_folder : String)
      (b : Bindings) where
    unfoldable pub references : String → RegistryError ⊎ Dict String (List Occurrence)
    references symbol =
        let scan = scan_index_folder wire capacity fuel fs (reference_impl symbol) index_folder in
        if b.is_local_symbol symbol
        then inr []
        else if scan.failed
        then inl index_error
        else inr (collect_occurrences scan.visits [])
