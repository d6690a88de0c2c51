-- ===== src/PartialLoader/Index/Examples.antt =====
-- An index file with one document `a`, which has one symbol `s` that implements `i`.
use scip_lsp.Common.{
  ℕ, String, Option, none, some, Bool, true, false, List, [], ◌∷◌, ◌==◌, number_key, string_key,
  if◌then◌else◌, contains, ◌≡◌, refl, inr, get, put, ap, ◌∙◌, ◌||◌, ◌/◌, ◌%◌,
}
use scip_lsp.Common.Int.{pos}
use scip_lsp.Registry.{SymbolInformation, Bindings, ScipSymbol, Package}
use scip_lsp.Registry.Queries.{definition_of_symbol, parse_scip_symbol}
use scip_lsp.Scanner.Wire.{
  Protowire, consume_bytes_field_meta, read, read_from, consume_len, read_varint, read_varint_bytes,
  consume_field_data, skip_field, seek_current,
}
use scip_lsp.Scanner.{
  ScanOf, finished, match_document, visit_document, visit_symbol, scan_index_reader, new_reader,
  next_field, read_wanted, scan_document_data, parse_field, visit_if_matching, scan_document_reader,
  should_parse_document_field, scan_document_field, scan_occurrence, scan_symbol,
}
use scip_lsp.Scanner.Folder.{FileSystem, scanned, scan_index_file}
use scip_lsp.PartialLoader.PrefixTree.{Descriptor, SymbolVersion, walk}
use scip_lsp.PartialLoader.PrefixTree.Merge.{override, at_path}
use scip_lsp.PartialLoader.Convert.{
  ScipDocument, ScipSymbolInformation, ScipOccurrence, ModelDocument,
  scip_document_to_model_document, scip_diagnostic_to_model_diagnostic,
  scip_occurrence_to_model_occurrence_with_diagnostics,
}
use scip_lsp.Occurrences.{get_occurrences_for_symbol, has_role}
use scip_lsp.PartialLoader.Index.Documents.{
  Requested, load_document, loaded_by, store_documents, scan_for_document, document_impl,
}
use scip_lsp.PartialLoader.Index.{
  PartialLoadedIndex, new_partial_loaded_index, parsed_symbol, visit_all, match_document_path,
  visit_symbol_information,
}
use scip_lsp.PartialLoader.Index.Load.{
  Unmarshal, load_impl, load_index, visited, merge_local, merge_doc_to_index,
}
use scip_lsp.PartialLoader.Index.Queries.{get_symbol_information, implementations}
use scip_lsp.PartialLoader.Index.Symbols.{last_visited, get_symbol_information-load_index}
use scip_lsp.PartialLoader.Index.Implementors.{visits_say, implementations-load_index}
use scip_lsp.PartialLoader.Index.Answers.{index_of, definition_of_symbol-load_index}

abbrev first_byte : List ℕ → Option ℕ
first_byte [] = none
first_byte (x ∷ xs) = some x

abbrev tag : List ℕ → Option (ℕ × ℕ)
tag [] = none
tag (x ∷ xs) = some (x / 8, x % 8)

abbrev wire : Protowire
wire = record { consume_tag = tag; consume_varint = first_byte }

abbrev text : List ℕ → String
text [] = ""
text (x ∷ xs) = if x == b'a' then "a" else "s"

abbrev clean : String → String
clean path = path

abbrev has_prefix : String → String → Bool
has_prefix s p = false

abbrev preamble : String → String
preamble s = "go p"

abbrev bytes : List ℕ
bytes = 18 ∷ 8 ∷ 10 ∷ 1 ∷ b'a' ∷ 26 ∷ 3 ∷ 10 ∷ 1 ∷ b's' ∷ []

abbrev info : SymbolInformation
info = record {
  symbol = "s";
  documentation = [];
  kind = pos 0;
  display_name = "s";
  signature_documentation = none;
}

abbrev symbol : ScipSymbolInformation
symbol = record {
  info = info;
  relationships = some (record { symbol = "i"; is_implementation = true }) ∷ none ∷ [];
}

abbrev occurrence : ScipOccurrence
occurrence = record {
  occurrence = record {
    range = pos 0 ∷ pos 0 ∷ pos 1 ∷ [];
    symbol = "s";
    symbol_roles = pos 1;
    override_documentation = [];
  };
  diagnostics = [];
}

abbrev document : ScipDocument
document = record { relative_path = "a"; occurrences = occurrence ∷ []; symbols = symbol ∷ [] }

abbrev unmarshal : Unmarshal
unmarshal = record {
  symbol = λ b. some symbol;
  occurrence = λ b. some occurrence;
  document = λ b. some document;
}

abbrev descriptor : Descriptor
descriptor = record { name = "s"; suffix = 4; disambiguator = "" }

abbrev in_package : Package
in_package = record { name = "p"; version = "1" }

abbrev parsed : ScipSymbol
parsed = record { pkg = some in_package; descriptors = descriptor ∷ [] }

abbrev bindings : Bindings
bindings = record {
  new_range = λ r. none;
  is_local_symbol = λ s. false;
  is_global_symbol = λ s. true;
  parse_symbol = λ s. some parsed;
  namespace_suffix = 1;
  join = λ parts separator. "";
  relative = λ uri. some uri;
  file_uri = λ path. path;
}

abbrev files : FileSystem
files = record {
  read_dir = λ folder. some (("x.scip", false) ∷ []);
  join = λ folder name. name;
  is_scip = λ path. true;
  open_file = λ path. some bytes;
}

abbrev loaded : PartialLoadedIndex
loaded =
    (load_index bindings preamble clean has_prefix text unmarshal wire 1024 9 "x.scip" bytes
      new_partial_loaded_index).0

abbrev version : SymbolVersion SymbolInformation
version = record { info = info; document_path = "a" }

abbrev scan : ScanOf ScipSymbolInformation ScipOccurrence ScipDocument
scan =
    scan_index_reader wire 1024
      (load_impl bindings preamble clean has_prefix text unmarshal new_partial_loaded_index) 9
      (new_reader bytes)

load_visits : scan ≡ record {
  visits = match_document (b'a' ∷ []) ∷ visit_symbol (b'a' ∷ []) symbol ∷ [];
  end = finished;
}
unfolding scan_index_reader next_field consume_bytes_field_meta read read_from read_wanted
    consume_len read_varint read_varint_bytes consume_field_data scan_document_data parse_field
    visit_if_matching get scan_document_reader should_parse_document_field skip_field seek_current
    scan_document_field scan_occurrence scan_symbol
load_visits = refl

last_symbol :
    override
      (last_visited bindings preamble clean text (descriptor ∷ []) "1" scan.visits none)
      (at_path "1" (descriptor ∷ []) (some new_partial_loaded_index.prefix_tree_root))
    ≡ some version
unfolding parsed_symbol parse_scip_symbol walk
last_symbol =
    ap
      (λ (s : ScanOf ScipSymbolInformation ScipOccurrence ScipDocument).
        override (last_visited bindings preamble clean text (descriptor ∷ []) "1" s.visits none)
          (at_path "1" (descriptor ∷ []) (some new_partial_loaded_index.prefix_tree_root)))
      load_visits

get_symbol_information-load_index_example :
    get_symbol_information bindings "s" loaded ≡ inr (some info, "a")
unfolding parse_scip_symbol
get_symbol_information-load_index_example =
    get_symbol_information-load_index bindings preamble clean has_prefix text unmarshal wire 1024 9
      "s" "x.scip" bytes new_partial_loaded_index parsed in_package descriptor [] version refl refl
      refl refl last_symbol

implementations-load_index_example : contains "s" (implementations "i" loaded) ≡ (
    contains "s" (implementations "i" new_partial_loaded_index) || visits_say "s" "i" scan.visits)
implementations-load_index_example =
    implementations-load_index bindings preamble clean has_prefix text unmarshal wire 1024 9 "s" "i"
      "x.scip" bytes new_partial_loaded_index

abbrev model_document : ModelDocument
model_document = record {
  document = record {
    occurrences = occurrence.occurrence ∷ [];
    symbols = info ∷ [];
    symbol_map = ("s", info) ∷ [];
  };
  relative_path = "a";
  diagnostics = [];
}

abbrev first_request : PartialLoadedIndex → Requested
first_request = load_document clean has_prefix text unmarshal wire 1024 9 files "indexes" "a"

document_scan :
    scan_index_reader wire 1024
      (document_impl clean has_prefix text unmarshal "a")
      9
      (new_reader bytes)
    ≡ record { visits = match_document (b'a' ∷ []) ∷ visit_document document ∷ []; end = finished }
unfolding scan_index_reader next_field consume_bytes_field_meta read read_from read_wanted
    consume_len read_varint read_varint_bytes consume_field_data scan_document_data parse_field
    visit_if_matching get scan_document_reader should_parse_document_field skip_field seek_current
    scan_document_field scan_occurrence scan_symbol
document_scan = refl

abbrev one_symbol : ScanOf ScipSymbolInformation ScipOccurrence ScipDocument
one_symbol = record {
  visits = match_document (b'a' ∷ []) ∷ visit_symbol (b'a' ∷ []) symbol ∷ [];
  end = finished;
}

abbrev merged : ScanOf ScipSymbolInformation ScipOccurrence ScipDocument → PartialLoadedIndex
merged s =
    merge_local new_partial_loaded_index (
      visited bindings preamble clean has_prefix text unmarshal new_partial_loaded_index "x.scip" s)

-- the file that was loaded holds the document
loaded_answer : (first_request loaded).answer ≡ inr (some model_document)
unfolding load_document scan_for_document scan_index_file loaded_by store_documents get put
    load_index visit_all match_document_path visit_symbol_information merge_local merge_doc_to_index
    scip_document_to_model_document scip_diagnostic_to_model_diagnostic
    scip_occurrence_to_model_occurrence_with_diagnostics
loaded_answer =
    ap
      (λ (s : ScanOf ScipSymbolInformation ScipOccurrence ScipDocument).
        (first_request (merged s)).answer)
      load_visits
    ∙ ap
        (λ (s : ScanOf ScipSymbolInformation ScipOccurrence ScipDocument).
          (loaded_by clean has_prefix text unmarshal "a" (scanned s) (merged one_symbol)).answer)
        document_scan

definition_of_symbol-load_index_example :
    definition_of_symbol bindings
      (index_of clean has_prefix text unmarshal wire 1024 9 files "indexes" bindings preamble
        loaded)
      "s"
    ≡ inr
        (some record { location = "a"; occurrence = some occurrence.occurrence; info = some info })
unfolding parse_scip_symbol get_occurrences_for_symbol has_role
definition_of_symbol-load_index_example =
    definition_of_symbol-load_index clean has_prefix text unmarshal wire 1024 9 files "indexes"
      bindings preamble "s" "x.scip" bytes new_partial_loaded_index parsed in_package descriptor []
      version model_document refl refl refl last_symbol loaded_answer
