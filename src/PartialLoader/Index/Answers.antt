-- ===== src/PartialLoader/Index/Answers.antt =====
-- The index of src/scip-lib/partialloader/index.go as the interface that the registry asks, and what the registry
-- answers after a load.
use scip_lsp.Common.{
  ℕ, String, Option, none, some, Bool, List, ◌∷◌, string_key, ◌⊎◌, inl, inr, ◌≡◌, refl, ap,
}
use scip_lsp.Registry.{
  SymbolInformation, Document, RegistryError, Index, Bindings, ScipSymbol, Package,
}
use scip_lsp.Registry.Queries.{
  parse_scip_symbol, definition_of_symbol, get_symbol_definition_occurrence, first_of,
  definition_role,
}
use scip_lsp.Occurrences.{get_occurrences_for_symbol}
use scip_lsp.Scanner.Wire.{Protowire}
use scip_lsp.Scanner.{scan_index_reader, new_reader}
use scip_lsp.Scanner.Folder.{FileSystem}
use scip_lsp.PartialLoader.PrefixTree.{Descriptor, SymbolVersion}
use scip_lsp.PartialLoader.PrefixTree.Merge.{override, at_path}
use scip_lsp.PartialLoader.Convert.{ModelDocument}
use scip_lsp.PartialLoader.Index.{PartialLoadedIndex}
use scip_lsp.PartialLoader.Index.Load.{Unmarshal, load_impl, load_index}
use scip_lsp.PartialLoader.Index.Queries.{
  get_symbol_information_from_descriptors, get_symbol_information, implementations,
}
use scip_lsp.PartialLoader.Index.Symbols.{last_visited, from_descriptors-load_index}
use scip_lsp.PartialLoader.Index.Documents.{Requested, load_document, references}

abbrev pub only_information :
    RegistryError ⊎ (Option SymbolInformation × String) → RegistryError ⊎ Option SymbolInformation
only_information (inl e) = inl e
only_information (inr found) = inr found.0

abbrev pub model_answer : RegistryError ⊎ Option ModelDocument → RegistryError ⊎ Option Document
model_answer (inl e) = inl e
model_answer (inr none) = inr none
model_answer (inr (some d)) = inr (some d.document)

-- the definition of a symbol whose information and document an index answers
found_in_document :
    (b : Bindings) (index : Index) (ds : List Descriptor) (version : String)
    (v : SymbolVersion SymbolInformation) (doc : Document)
    → index.symbol_from_descriptors ds version ≡ inr (some v.info, v.document_path)
    → index.load_document v.document_path ≡ inr (some doc)
    → get_symbol_definition_occurrence b index ds version
      ≡ inr (
          some record {
            location = b.file_uri v.document_path;
            occurrence =
                first_of (get_occurrences_for_symbol doc.occurrences v.info.symbol definition_role);
            info = some v.info;
          })
unfolding get_symbol_definition_occurrence
found_in_document b index ds version v doc e f =
    rw (e, get_symbol_definition_occurrence) (rw f refl)

module _ (clean : String → String) (has_prefix : String → String → Bool) (text : List ℕ → String)
    (unmarshal : Unmarshal) (wire : Protowire) (capacity fuel : ℕ) (fs : FileSystem)
    (index_folder : String) where
  abbrev asked : String → PartialLoadedIndex → Requested
  asked = load_document clean has_prefix text unmarshal wire capacity fuel fs index_folder

  module _ (b : Bindings) (preamble : String → String) where
    -- the interface of the registry, at one state of the index
    unfoldable pub index_of : PartialLoadedIndex → Index
    index_of p = record {
      load_document = λ path. model_answer (asked path p).answer;
      symbol_from_descriptors = λ ds version. get_symbol_information_from_descriptors ds version p;
      symbol_information = λ symbol. only_information (get_symbol_information b symbol p);
      references_of =
          references clean has_prefix text unmarshal wire capacity fuel fs index_folder b;
      implementations_of = λ symbol. inr (implementations symbol p);
    }

    abbrev loaded_from : String → List ℕ → PartialLoadedIndex → PartialLoadedIndex
    loaded_from path bytes p =
        (load_index b preamble clean has_prefix text unmarshal wire capacity fuel path bytes p).0

    -- The definition of a symbol that parses to a package and a path of descriptors, after LoadIndex of any file: if the
    -- scan visited a symbol with this path and version, the last one, or else if the tree held one before, then the registry
    -- answers the document of that symbol, its information, and the first occurrence of its name there that is a definition,
    -- once the document loads.
    pub definition_of_symbol-load_index :
        (symbol path : String) (bytes : List ℕ) (p : PartialLoadedIndex) (s : ScipSymbol)
        (pkg : Package) (d : Descriptor) (ds : List Descriptor)
        (v : SymbolVersion SymbolInformation) (doc : ModelDocument)
        → parse_scip_symbol b symbol ≡ inr s
        → s.pkg ≡ some pkg
        → s.descriptors ≡ d ∷ ds
        → override
            (last_visited b preamble clean text
              (d ∷ ds)
              pkg.version
              (scan_index_reader wire capacity
                (load_impl b preamble clean has_prefix text unmarshal p)
                fuel
                (new_reader bytes)).visits
              none)
            (at_path pkg.version (d ∷ ds) (some p.prefix_tree_root))
          ≡ some v
        → (asked v.document_path (loaded_from path bytes p)).answer ≡ inr (some doc)
        → definition_of_symbol b (index_of (loaded_from path bytes p)) symbol
          ≡ inr (
              some record {
                location = b.file_uri v.document_path;
                occurrence = first_of (
                    get_occurrences_for_symbol doc.document.occurrences v.info.symbol
                      definition_role);
                info = some v.info;
              })
    unfolding definition_of_symbol index_of
    definition_of_symbol-load_index symbol path bytes p s pkg d ds v doc parses in_package
          descriptors found loads =
        rw (parses, definition_of_symbol)
          (rw in_package (
            rw descriptors (
              found_in_document b (index_of (loaded_from path bytes p)) (d ∷ ds) pkg.version v
                doc.document
                (from_descriptors-load_index b preamble clean has_prefix text unmarshal wire
                  capacity fuel symbol path bytes p s pkg d ds v parses in_package found)
                (ap model_answer loads))))
